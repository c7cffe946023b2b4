-- ===== src/Frontend/Storage.antt =====
-- The market layout in the storage of the browser: `readMarketLayout` and `persistMarketLayout` of
-- apps/frontend/src/state.ts.
use cryptox.Base.{
  ltb, ◌≡◌, refl, subst, arith, Bool, true, not, ◌||◌, if◌then◌else◌, Option, none, some, List, [],
  ◌∷◌, length, All, Codes, codes, Bool-cases, inl, inr,
}
use mathlib.Core.Option.{some-injective}
use cryptox.Backtesting.Trading.{Timeframe, m1, m5, m15, h1, h4, d1}
use cryptox.Frontend.Values.{
  Value, boolean, number, text, array, object, Items, no_items, item, Fields, no_fields, field, get,
  items_of, text_of, boolean_of, is_number, is_object,
}
use cryptox.Frontend.Layout.{
  Panel, Layout, market_layout_version, valid_pair, valid_panel, valid_panels, timeframe_text,
  is_timeframe, ids_differ, validate_market_layout, default_market_layout, checked_panel,
  join_panel, layout_of, panels_of,
}
use cryptox.Frontend.Panels.{IsPanel, IsLayout}

-- The object that a layout is.
abbrev pub panel_value : Panel → Value
panel_value panel = object (
    field (codes "id") (text panel.id) (
      field (codes "pair") (text panel.pair)
        (field (codes "timeframe") (text (timeframe_text panel.timeframe)) no_fields)))

abbrev pub panel_items : List Panel → Items
panel_items [] = no_items
panel_items (panel ∷ panels) = item (panel_value panel) (panel_items panels)

abbrev pub primary_field : Option Codes → Fields
primary_field none = no_fields
primary_field (some id) = field (codes "primaryPanelId") (text id) no_fields

unfoldable pub layout_value : Layout → Value
layout_value layout = object (
    field (codes "version") (number market_layout_version) (
      field (codes "panels") (array (panel_items layout.panels)) (
        field (codes "realtimeEnabled") (boolean layout.realtime_enabled) (
          field (codes "selectedPair") (text layout.selected_pair)
            (primary_field layout.primary_panel_id)))))

abbrev pub or_default : Option Layout → Layout
or_default none = default_market_layout
or_default (some layout) = layout

-- A storage: what it holds under the key of the layout, and whether it takes another text.
pub record Storage (T : Type 0) : Type 0 where
  pub stored : Option T
  pub takes : Bool

-- `parse` is JSON.parse, where `none` is an exception; a missing text is read as the empty one,
-- which is no JSON.
abbrev pub parse_text : {T : Type 0} → (T → Option Value) → Option T → Option Value
parse_text parse none = none
parse_text parse (some t) = parse t

abbrev pub validated : Option Value → Option Layout
validated none = none
validated (some value) = validate_market_layout value

unfoldable pub read_market_layout : {T : Type 0} → (T → Option Value) → Option (Storage T) → Layout
read_market_layout parse none = default_market_layout
read_market_layout parse (some storage) = or_default (validated (parse_text parse storage.stored))

unfoldable pub persist_market_layout :
    {T : Type 0} → (Value → T) → Layout → Option (Storage T) → Option (Storage T)
persist_market_layout stringify layout none = none
persist_market_layout stringify layout (some storage) =
    if storage.takes
    then some (record storage {
      stored =
          some
            (stringify (layout_value (or_default (validate_market_layout (layout_value layout)))));
    })
    else some storage

-- A layout with the invariant is accepted as it is.
is_timeframe-timeframe_text : (t : Timeframe) → is_timeframe (timeframe_text t) ≡ some t
unfolding is_timeframe timeframe_text
is_timeframe-timeframe_text m1 = refl
is_timeframe-timeframe_text m5 = refl
is_timeframe-timeframe_text m15 = refl
is_timeframe-timeframe_text h1 = refl
is_timeframe-timeframe_text h4 = refl
is_timeframe-timeframe_text d1 = refl

valid_panel-panel_value : (p : Panel) → IsPanel p → valid_panel (panel_value p) ≡ some p
unfolding valid_panel
valid_panel-panel_value p (named, paired) = ground (arith, is_timeframe-timeframe_text p.timeframe)

valid_panels-panel_items :
    (panels : List Panel) → All IsPanel panels → valid_panels (panel_items panels) ≡ some panels
unfolding valid_panels
valid_panels-panel_items [] v = refl
valid_panels-panel_items (p ∷ panels) (h, v) =
    rw (valid_panel-panel_value p h, valid_panels-panel_items panels v) refl

text_of-primary :
    (id : Option Codes) → text_of (get (codes "primaryPanelId") (object (primary_field id))) ≡ id
text_of-primary none = refl
text_of-primary (some id) = refl

validate-layout_value :
    (layout : Layout) → IsLayout layout → validate_market_layout (layout_value layout) ≡ some layout
unfolding validate_market_layout layout_value
validate-layout_value layout (short, selected, valid, differ) =
    ground
      (arith, valid_panels-panel_items layout.panels valid, text_of-primary layout.primary_panel_id)

-- What is accepted has the invariant.
checked_panel-IsPanel :
    (id pair timeframe : Option Codes) (p : Panel)
    → checked_panel id pair timeframe ≡ some p
    → IsPanel p
checked_panel-IsPanel (some id) (some pair) (some timeframe) p h = ground arith
checked_panel-IsPanel (some id) (some pair) none p h = cc
checked_panel-IsPanel (some id) none timeframe p h = cc
checked_panel-IsPanel none pair timeframe p h = cc

join_panel-All :
    (value : Value) (rest : Option (List Panel)) (panels : List Panel)
    → ((ps : List Panel) → rest ≡ some ps → All IsPanel ps)
    → join_panel (valid_panel value) rest ≡ some panels
    → All IsPanel panels
unfolding valid_panel
join_panel-All value rest panels valid h =
    join (valid_panel value) rest valid
      (checked_panel-IsPanel (text_of (get (codes "id") value)) (text_of (get (codes "pair") value))
        (text_of (get (codes "timeframe") value)))
      h
  where
    join :
        (o : Option Panel) (r : Option (List Panel))
        → ((ps : List Panel) → r ≡ some ps → All IsPanel ps)
        → ((p : Panel) → o ≡ some p → IsPanel p)
        → join_panel o r ≡ some panels
        → All IsPanel panels
    join (some p) (some ps) all one h =
        subst (All IsPanel) (some-injective (p ∷ ps) panels h) (one p refl, all ps refl)
    join (some p) none all one h = absurd (ground arith)
    join none r all one h = absurd (ground arith)

valid_panels-All :
    (items : Items) (panels : List Panel) → valid_panels items ≡ some panels → All IsPanel panels
unfolding valid_panels
valid_panels-All no_items panels h = subst (All IsPanel) (some-injective [] panels h) tt
valid_panels-All (item value rest) panels h =
    join_panel-All value (valid_panels rest) panels (λ ps e. valid_panels-All rest ps e) h

layout_of-IsLayout :
    (panels : Option (List Panel)) (enabled : Option Bool) (pair primary : Option Codes)
    (layout : Layout)
    → ((ps : List Panel) → panels ≡ some ps → All IsPanel ps)
    → layout_of panels enabled pair primary ≡ some layout
    → IsLayout layout
layout_of-IsLayout (some panels) (some enabled) (some pair) primary layout all h =
    elim (Bool-cases (ltb 4 (length panels) || not (valid_pair pair) || not (ids_differ panels))) [
      | inl refused ↦ absurd (ground arith)
      | inr fits ↦
          subst IsLayout (some-injective _ _ (rw fits at h))
            (ground arith, ground arith, all panels refl, ground arith)
    ]
layout_of-IsLayout (some panels) (some enabled) none primary layout all h = cc
layout_of-IsLayout (some panels) none pair primary layout all h = cc
layout_of-IsLayout none enabled pair primary layout all h = cc

panels_of-All :
    (items : Option Items) (ps : List Panel) → panels_of items ≡ some ps → All IsPanel ps
panels_of-All none ps h = cc
panels_of-All (some items) ps h = valid_panels-All items ps h

or_default-IsLayout :
    (o : Option Layout) → ((l : Layout) → o ≡ some l → IsLayout l) → IsLayout (or_default o)
unfolding default_market_layout valid_pair
or_default-IsLayout none h = (omega arith, refl, tt, refl)
or_default-IsLayout (some l) h = h l refl

validated-IsLayout : (o : Option Value) (l : Layout) → validated o ≡ some l → IsLayout l
unfolding validate_market_layout
validated-IsLayout none l h = cc
validated-IsLayout (some value) l h = elim (Bool-cases (is_object value)) [
  | inl seen ↦ elim (Bool-cases (is_number market_layout_version (get (codes "version") value))) [
    | inl current ↦
        layout_of-IsLayout (panels_of (items_of (get (codes "panels") value)))
          (boolean_of (get (codes "realtimeEnabled") value))
          (text_of (get (codes "selectedPair") value))
          (text_of (get (codes "primaryPanelId") value)) l
          (panels_of-All (items_of (get (codes "panels") value))) (rw (seen, current) at h)
    | inr old ↦ absurd (ground arith)
  ]
  | inr other ↦ absurd (ground arith)
]

-- Whatever the storage holds, what is read from it is a layout with the invariant.
pub read_market_layout-IsLayout :
    {T : Type 0} (parse : T → Option Value) (storage : Option (Storage T))
    → IsLayout (read_market_layout parse storage)
unfolding read_market_layout
read_market_layout-IsLayout parse none = or_default-IsLayout none (λ l e. cc)
read_market_layout-IsLayout parse (some storage) =
    or_default-IsLayout (validated (parse_text parse storage.stored))
      (validated-IsLayout (parse_text parse storage.stored))

-- Where the JSON text of a layout is parsed back, a layout with the invariant that is persisted in
-- a storage that takes it is read back as it was.
pub read_market_layout-persist_market_layout :
    {T : Type 0} (parse : T → Option Value) (stringify : Value → T)
    → ((l : Layout) → parse (stringify (layout_value l)) ≡ some (layout_value l))
    → (layout : Layout) (storage : Storage T) → IsLayout layout
    → storage.takes ≡ true
    → read_market_layout parse (persist_market_layout stringify layout (some storage)) ≡ layout
unfolding read_market_layout persist_market_layout
read_market_layout-persist_market_layout parse stringify back layout storage valid takes =
    rw (takes, validate-layout_value layout valid, back layout, validate-layout_value layout valid)
      refl
