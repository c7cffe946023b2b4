-- ===== src/Frontend/Tests.antt =====
-- Runs of the state of the browser, and the theorems at concrete inputs.
use cryptox.Base.{
  ℕ, suc, ◌+◌, ◌==◌, ◌≡◌, refl, ap, ◌∙◌, arith, Bool, true, false, if◌then◌else◌, Option, none,
  some, List, [], ◌∷◌, length, Codes, codes, print, strip, lookup_by, IsSorted, Bool-cases, inl,
  inr,
}
use cryptox.Backtesting.Decimal.{not_finite}
use cryptox.Backtesting.Trading.{m1, m5, h1}
use cryptox.Frontend.Values.{Value}
use cryptox.Frontend.Layout.{Panel, Layout, valid_pair, valid_panel_id, has_id}
use cryptox.Frontend.Panels.{
  chart_id, next_chart_id, next_chart_id-least, all_used, add_market_panel, IsLayout,
  add_market_panel-IsLayout,
}
use cryptox.Frontend.Storage.{
  Storage, read_market_layout, persist_market_layout, read_market_layout-IsLayout,
  read_market_layout-persist_market_layout,
}
use cryptox.Frontend.Routes.{Route, backtest, is_text, parse_app_route, app_route_path}
use cryptox.Frontend.RoundTrip.{has_no, parse_app_route-app_route_path}
use cryptox.Frontend.Candles.{UiCandle, by_time, not_later, merge_candle}
use cryptox.Frontend.Merging.{merged, merge_candle-Effect}

abbrev two_panels : List Panel
two_panels =
    record { id = codes "chart-1"; pair = codes "BTCUSDT"; timeframe = m1 }
    ∷ record { id = codes "chart-3"; pair = codes "ETH-USD"; timeframe = m5 }
    ∷ []

abbrev two_charts : Layout
two_charts = record {
  panels = two_panels;
  realtime_enabled = true;
  selected_pair = codes "BTCUSDT";
  primary_panel_id = some (codes "chart-3");
}

prints : print 1034 ≡ codes "1034"
unfolding print
prints = refl

next_is_second : next_chart_id two_panels ≡ some (codes "chart-2")
unfolding next_chart_id print
next_is_second = refl

next_chart_id-least_example :
    (m : ℕ) × (next_chart_id two_panels ≡ some (chart_id (suc m)))
    × (has_id (chart_id (suc m)) two_panels ≡ false)
    × (all_used two_panels m ≡ true)
next_chart_id-least_example = next_chart_id-least two_panels

two_charts-IsLayout : IsLayout two_charts
unfolding valid_pair valid_panel_id strip
two_charts-IsLayout = (omega arith, refl, ((refl, refl), ((refl, refl), tt)), refl)

ethereum_is_pair : valid_pair (codes "ETHUSDT") ≡ true
unfolding valid_pair
ethereum_is_pair = refl

add_market_panel-IsLayout_example :
    (added : Layout) × (add_market_panel two_charts (codes "ETHUSDT") h1 ≡ some added)
    × IsLayout added
    × (length added.panels ≡ 2 + 1)
    × (added.selected_pair ≡ codes "ETHUSDT")
add_market_panel-IsLayout_example =
    add_market_panel-IsLayout two_charts (codes "ETHUSDT") h1 two_charts-IsLayout (omega arith)
      ethereum_is_pair

-- A storage that keeps values as they are.
abbrev storage : Storage Value
storage = record { stored = none; takes = true }

read_market_layout-IsLayout_example : IsLayout (read_market_layout some (some storage))
read_market_layout-IsLayout_example = read_market_layout-IsLayout some (some storage)

read_market_layout-persist_market_layout_example :
    read_market_layout some (persist_market_layout (λ v. v) two_charts (some storage)) ≡ two_charts
read_market_layout-persist_market_layout_example =
    read_market_layout-persist_market_layout some (λ v. v) (λ l. refl) two_charts storage
      two_charts-IsLayout refl

-- Slashes and percent signs written as two characters.
escape : Codes → Codes
escape [] = []
escape (c ∷ cs) =
    if c == b'/'
    then b'%' ∷ b's' ∷ escape cs
    else if c == b'%'
    then b'%' ∷ b'p' ∷ escape cs
    else c ∷ escape cs

abbrev prepend : ℕ → Option Codes → Option Codes
prepend c none = none
prepend c (some cs) = some (c ∷ cs)

unescape : Codes → Option Codes
unescape [] = some []
unescape (c ∷ []) = if c == b'%' then none else some (c ∷ [])
unescape (c ∷ d ∷ cs) =
    if c == b'%'
    then if d == b's'
      then prepend b'/' (unescape cs)
      else if d == b'p'
      then prepend b'%' (unescape cs)
      else none
    else prepend c (unescape (d ∷ cs))

unescape-cons :
    (c : ℕ) (cs : Codes) → (c == b'%') ≡ false → unescape (c ∷ cs) ≡ prepend c (unescape cs)
unfolding unescape
unescape-cons c [] h = rw h refl
unescape-cons c (d ∷ cs) h = rw h refl

unescape-escape : (s : Codes) → unescape (escape s) ≡ some s
unfolding unescape escape
unescape-escape [] = refl
unescape-escape (c ∷ cs) = elim (Bool-cases (c == b'/')) [
  | inl slash ↦ ground (arith, unescape-escape cs)
  | inr other ↦ elim (Bool-cases (c == b'%')) [
    | inl percent ↦ ground (arith, unescape-escape cs)
    | inr plain ↦
        rw (other, plain) (unescape-cons c (escape cs) plain ∙ ap (prepend c) (unescape-escape cs))
  ]
]

escape-has_no_slash : (s : Codes) → has_no b'/' (escape s) ≡ true
unfolding escape
escape-has_no_slash [] = refl
escape-has_no_slash (c ∷ cs) = ground (arith, escape-has_no_slash cs)

escape-is_text : (c : ℕ) (cs : Codes) → is_text (escape (c ∷ cs)) ≡ true
unfolding escape
escape-is_text c cs = ground arith

unescape_plain : (s : Codes) → has_no b'%' s ≡ true → unescape s ≡ some s
unfolding unescape
unescape_plain [] h = refl
unescape_plain (c ∷ []) h = ground arith
unescape_plain (c ∷ d ∷ cs) h = ground (arith, unescape_plain (d ∷ cs))

abbrev experiment : Route
experiment = record { screen = backtest; resource_id = some (codes "a/b%"); register = false }

parse_app_route-app_route_path_example :
    parse_app_route escape unescape (app_route_path escape unescape experiment) ≡ some experiment
parse_app_route-app_route_path_example =
    parse_app_route-app_route_path escape unescape unescape-escape escape-has_no_slash
      escape-is_text unescape_plain experiment refl

abbrev candle_at : ℕ → Bool → UiCandle
candle_at time closed = record {
  timestamp = time;
  open_price = not_finite;
  high = not_finite;
  low = not_finite;
  close = not_finite;
  volume = not_finite;
  is_closed = closed;
}

abbrev chart : List UiCandle
chart = candle_at 60 true ∷ candle_at 120 true ∷ []

closed_stays : merge_candle chart (candle_at 60 false) ≡ chart
unfolding merge_candle lookup_by
closed_stays = refl

merge_candle-Effect_example :
    IsSorted not_later (merge_candle chart (candle_at 90 true))
    × (lookup_by by_time 90 (merge_candle chart (candle_at 90 true))
        ≡ some (merged (lookup_by by_time 90 chart) (candle_at 90 true)))
merge_candle-Effect_example =
    merge_candle-Effect chart (candle_at 90 true) 90 ((refl, tt), (tt, tt))
