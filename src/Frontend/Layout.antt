-- ===== src/Frontend/Layout.antt =====
-- The market layout of apps/frontend/src/state.ts: its panels, what is accepted from the storage,
-- and how it is read and written.
use cryptox.Base.{
  ℕ, leb, ltb, Bool, true, false, not, ◌&&◌, ◌||◌, if◌then◌else◌, Option, none, some, List, [], ◌∷◌,
  length, any, Codes, codes, same, strip, is_digit, is_numeral,
}
use cryptox.Backtesting.Trading.{Timeframe, m1, m5, m15, h1, h4, d1}
use cryptox.Frontend.Values.{
  Value, Items, no_items, item, get, items_of, text_of, boolean_of, is_number, is_object,
}

pub record Panel : Type 0 where
  pub id : Codes
  pub pair : Codes
  pub timeframe : Timeframe

pub record Layout : Type 0 where
  pub panels : List Panel
  pub realtime_enabled : Bool
  pub selected_pair : Codes
  pub primary_panel_id : Option Codes

abbrev pub market_layout_version : ℕ
market_layout_version = 2

abbrev is_upper : ℕ → Bool
is_upper c = leb b'A' c && leb c b'Z'

abbrev all_pair_codes : Codes → Bool
all_pair_codes [] = true
all_pair_codes (c ∷ cs) =
    (is_upper c || is_digit c || same (c ∷ []) (codes "_") || same (c ∷ []) (codes "-"))
    && all_pair_codes cs

-- /^[A-Z0-9][A-Z0-9_-]*$/
unfoldable pub valid_pair : Codes → Bool
valid_pair [] = false
valid_pair (c ∷ cs) = (is_upper c || is_digit c) && all_pair_codes cs

abbrev pub chart_prefix : Codes
chart_prefix = codes "chart-"

abbrev is_numeral_after : Option Codes → Bool
is_numeral_after none = false
is_numeral_after (some rest) = is_numeral rest

-- /^chart-[1-9][0-9]*$/
unfoldable pub valid_panel_id : Codes → Bool
valid_panel_id s = is_numeral_after (strip chart_prefix s)

unfoldable pub timeframe_text : Timeframe → Codes
timeframe_text m1 = codes "1m"
timeframe_text m5 = codes "5m"
timeframe_text m15 = codes "15m"
timeframe_text h1 = codes "1h"
timeframe_text h4 = codes "4h"
timeframe_text d1 = codes "1d"

-- The timeframe that a text is, if it is one.
unfoldable pub is_timeframe : Codes → Option Timeframe
is_timeframe s =
    if same s (codes "1m")
    then some m1
    else if same s (codes "5m")
    then some m5
    else if same s (codes "15m")
    then some m15
    else if same s (codes "1h")
    then some h1
    else if same s (codes "4h")
    then some h4
    else if same s (codes "1d")
    then some d1
    else none

abbrev pub checked_panel : Option Codes → Option Codes → Option Codes → Option Panel
checked_panel (some id) (some pair) (some timeframe) =
    if valid_panel_id id && valid_pair pair
    then elim (is_timeframe timeframe) [
      | none ↦ none
      | some t ↦ some (record { id = id; pair = pair; timeframe = t })
    ]
    else none
checked_panel (some id) (some pair) none = none
checked_panel (some id) none timeframe = none
checked_panel none pair timeframe = none

-- The panel that a value is, if it is one.
unfoldable pub valid_panel : Value → Option Panel
valid_panel value =
    checked_panel (text_of (get (codes "id") value)) (text_of (get (codes "pair") value))
      (text_of (get (codes "timeframe") value))

abbrev pub join_panel : Option Panel → Option (List Panel) → Option (List Panel)
join_panel (some panel) (some panels) = some (panel ∷ panels)
join_panel (some panel) none = none
join_panel none panels = none

-- `every(validPanel)`, with the panels.
unfoldable pub valid_panels : Items → Option (List Panel)
valid_panels no_items = some []
valid_panels (item value rest) = join_panel (valid_panel value) (valid_panels rest)

abbrev pub has_id : Codes → List Panel → Bool
has_id id panels = any (λ (p : Panel). same p.id id) panels

-- Whether the set of the ids is as large as the list.
abbrev pub ids_differ : List Panel → Bool
ids_differ [] = true
ids_differ (panel ∷ panels) = not (has_id panel.id panels) && ids_differ panels

abbrev pub layout_of :
    Option (List Panel) → Option Bool → Option Codes → Option Codes → Option Layout
layout_of (some panels) (some enabled) (some pair) primary =
    if ltb 4 (length panels) || not (valid_pair pair) || not (ids_differ panels)
    then none
    else some (record {
      panels = panels;
      realtime_enabled = enabled;
      selected_pair = pair;
      primary_panel_id = primary;
    })
layout_of (some panels) (some enabled) none primary = none
layout_of (some panels) none pair primary = none
layout_of none enabled pair primary = none

abbrev pub panels_of : Option Items → Option (List Panel)
panels_of none = none
panels_of (some items) = valid_panels items

unfoldable pub validate_market_layout : Value → Option Layout
validate_market_layout value =
    if not (is_object value)
    then none
    else if not (is_number market_layout_version (get (codes "version") value))
    then none
    else layout_of (panels_of (items_of (get (codes "panels") value)))
        (boolean_of (get (codes "realtimeEnabled") value))
        (text_of (get (codes "selectedPair") value)) (text_of (get (codes "primaryPanelId") value))

unfoldable pub default_market_layout : Layout
default_market_layout = record {
  panels = [];
  realtime_enabled = true;
  selected_pair = codes "BTCUSDT";
  primary_panel_id = none;
}
