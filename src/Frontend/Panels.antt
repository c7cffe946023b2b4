-- ===== src/Frontend/Panels.antt =====
-- A new panel: `nextChartId` and `addMarketPanel` of apps/frontend/src/state.ts, and what holds of
-- the panels of a layout.
use cryptox.Base.{
  ℕ, zero, suc, ◌+◌, ◌<◌, ◌≤◌, ◌≡◌, refl, ap, sym, subst, leb, ◌==◌, ==_iff, Bool, true, false, not,
  ◌&&◌, ◌||◌, if◌then◌else◌, Option, none, some, List, [], ◌∷◌, ◌++◌, length, length-append, All,
  arith, Codes, same, eq_of_same, strip, strip-append, print, read_after, read_after-print,
  print-is_numeral, Bool-cases, inl, inr,
}
use cryptox.Backtesting.Trading.{Timeframe}
use cryptox.Frontend.Layout.{
  Panel, Layout, valid_pair, valid_panel_id, chart_prefix, has_id, ids_differ,
}

unfoldable pub chart_id : ℕ → Codes
chart_id n = chart_prefix ++ print n

-- `while (used.has(...)) number += 1`; `none` means that the fuel ran out.
unfoldable pub next_number : List Panel → ℕ → ℕ → Option ℕ
unfolding chart_id
next_number panels zero n = none
next_number panels (suc fuel) n = elim (has_id (chart_id n) panels) [
  | true ↦ next_number panels fuel (n + 1)
  | false ↦ some n
]

unfoldable pub next_chart_id : List Panel → Option Codes
unfolding next_number chart_id
next_chart_id panels = elim (next_number panels (length panels + 1) 1) [
  | none ↦ none
  | some n ↦ some (chart_id n)
]

abbrev add_panel : Layout → Codes → Timeframe → Option Codes → Option Layout
add_panel layout pair timeframe none = none
add_panel layout pair timeframe (some id) = some (record layout {
  selected_pair = pair;
  panels = layout.panels ++ record { id = id; pair = pair; timeframe = timeframe } ∷ [];
})

-- A timeframe is one of the six by its type.
unfoldable pub add_market_panel : Layout → Codes → Timeframe → Option Layout
unfolding next_chart_id valid_pair
add_market_panel layout pair timeframe =
    if leb 4 (length layout.panels) || not (valid_pair pair)
    then none
    else add_panel layout pair timeframe (next_chart_id layout.panels)

-- The number in the id of a chart.
abbrev number_in : Option Codes → Option ℕ
number_in none = none
number_in (some rest) = some (read_after 0 rest)

chart_number : Codes → Option ℕ
chart_number id = number_in (strip chart_prefix id)

chart_number-chart_id : (n : ℕ) → chart_number (chart_id n) ≡ some n
unfolding chart_number chart_id
chart_number-chart_id n =
    subst (λ o. number_in o ≡ some n) (sym (strip-append chart_prefix (print n)))
      (ap some (read_after-print n))

abbrev is_from : ℕ → Option ℕ → ℕ
is_from n none = 0
is_from n (some m) = if leb n m then 1 else 0

-- How many panels have a number from n on.
abbrev taken_from : ℕ → List Panel → ℕ
taken_from n [] = 0
taken_from n (panel ∷ panels) = is_from n (chart_number panel.id) + taken_from n panels

taken_from-le-length : (n : ℕ) (panels : List Panel) → taken_from n panels ≤ length panels
taken_from-le-length n [] = omega arith
taken_from-le-length n (panel ∷ panels) = ground (arith, taken_from-le-length n panels)

taken_from_mono : (n : ℕ) (panels : List Panel) → taken_from (n + 1) panels ≤ taken_from n panels
taken_from_mono n [] = omega arith
taken_from_mono n (panel ∷ panels) = ground (arith, taken_from_mono n panels)

-- A used number is passed by.
taken_from_used :
    (n : ℕ) (panels : List Panel)
    → has_id (chart_id n) panels ≡ true
    → taken_from (n + 1) panels < taken_from n panels
taken_from_used n [] h = cc
taken_from_used n (panel ∷ panels) h = elim (Bool-cases (same panel.id (chart_id n))) [
  | inl e ↦ ground (
    arith,
    taken_from_mono n panels,
    chart_number-chart_id n,
    ap chart_number (eq_of_same panel.id (chart_id n) e),
  )
  | inr e ↦ ground (arith, taken_from_used n panels)
]

-- The loop ends, at a number that is free and before which, from the start on, none is.
next_number_total :
    (panels : List Panel) (fuel n : ℕ)
    → taken_from n panels < fuel
    → (m : ℕ) × (next_number panels fuel n ≡ some m)
      × (n ≤ m)
      × (has_id (chart_id m) panels ≡ false)
      × ((k : ℕ) → n ≤ k → k < m → has_id (chart_id k) panels ≡ true)
unfolding next_number
next_number_total panels zero n h = elim h [ ]
next_number_total panels (suc fuel) n h = elim (Bool-cases (has_id (chart_id n) panels)) [
  | inl used ↦
      let (m, found, from, free, rest) =
        next_number_total panels fuel (n + 1) (omega (arith, taken_from_used n panels used)) in
      (
        m,
        rw (next_number, used) found,
        omega arith,
        free,
        λ k low high. elim (Bool-cases (n == k)) [
          | inl e ↦ subst (λ (j : ℕ). has_id (chart_id j) panels ≡ true) ((==_iff n k).0 e) used
          | inr e ↦ rest k (ground arith) high
        ],
      )
  | inr free ↦
      (n, rw (next_number, free) refl, omega arith, free, λ k low high. absurd (omega arith))
]

-- Whether the numbers from 1 up to this one are all used.
abbrev pub all_used : List Panel → ℕ → Bool
all_used panels zero = true
all_used panels (suc n) = has_id (chart_id (suc n)) panels && all_used panels n

all_used_below :
    (panels : List Panel) (m n : ℕ)
    → ((k : ℕ) → 1 ≤ k → k < n → has_id (chart_id k) panels ≡ true)
    → m < n
    → all_used panels m ≡ true
all_used_below panels zero n used h = refl
all_used_below panels (suc m) n used h =
    ground (arith, used (suc m), all_used_below panels m n used)

-- nextChartId ends: it answers the id of a number from 1 on that no panel has, where the panels
-- have all smaller ones.
pub next_chart_id-least :
    (panels : List Panel)
    → (m : ℕ) × (next_chart_id panels ≡ some (chart_id (suc m)))
      × (has_id (chart_id (suc m)) panels ≡ false)
      × (all_used panels m ≡ true)
unfolding next_chart_id
next_chart_id-least panels =
    least (
      next_number_total panels (length panels + 1) 1 (omega (arith, taken_from-le-length 1 panels)))
  where
    least :
        (n : ℕ) × (next_number panels (length panels + 1) 1 ≡ some n)
          × (1 ≤ n)
          × (has_id (chart_id n) panels ≡ false)
          × ((k : ℕ) → 1 ≤ k → k < n → has_id (chart_id k) panels ≡ true)
        → (m : ℕ) × (next_chart_id panels ≡ some (chart_id (suc m)))
          × (has_id (chart_id (suc m)) panels ≡ false)
          × (all_used panels m ≡ true)
    least (zero, found, from, free, used) = absurd (omega arith)
    least (suc m, found, from, free, used) = (
      m,
      rw (next_chart_id, found) refl,
      free,
      all_used_below panels m (suc m) used (omega arith),
    )

abbrev pub IsPanel : Panel → Type 0
IsPanel panel = (valid_panel_id panel.id ≡ true) × (valid_pair panel.pair ≡ true)

abbrev pub IsLayout : Layout → Type 0
IsLayout layout =
    (length layout.panels ≤ 4)
    × (valid_pair layout.selected_pair ≡ true)
    × All IsPanel layout.panels
    × (ids_differ layout.panels ≡ true)

chart_id-is_valid : (n : ℕ) → 0 < n → valid_panel_id (chart_id n) ≡ true
unfolding chart_id valid_panel_id
chart_id-is_valid n p = rw (strip-append chart_prefix (print n)) (print-is_numeral n p)

All-append_one :
    (panels : List Panel) (p : Panel)
    → All IsPanel panels
    → IsPanel p
    → All IsPanel (panels ++ p ∷ [])
All-append_one [] p v h = (h, tt)
All-append_one (q ∷ panels) p (g, v) h = (g, All-append_one panels p v h)

same_sym : (s t : Codes) → same s t ≡ same t s
same_sym [] [] = refl
same_sym [] (d ∷ ds) = refl
same_sym (c ∷ cs) [] = refl
same_sym (c ∷ cs) (d ∷ ds) = ground (arith, same_sym cs ds)

has_id-append_one :
    (id : Codes) (panels : List Panel) (p : Panel)
    → has_id id (panels ++ p ∷ []) ≡ (has_id id panels || same p.id id)
has_id-append_one id [] p = ground arith
has_id-append_one id (q ∷ panels) p = ground (arith, has_id-append_one id panels p)

ids_differ-append_one :
    (panels : List Panel) (p : Panel)
    → ids_differ panels ≡ true
    → has_id p.id panels ≡ false
    → ids_differ (panels ++ p ∷ []) ≡ true
ids_differ-append_one [] p h free = refl
ids_differ-append_one (q ∷ panels) p h free =
    ground
      (arith, ids_differ-append_one panels p, has_id-append_one q.id panels p, same_sym p.id q.id)

-- To a layout with the invariant, of at most three panels, a panel of a valid pair is added: what
-- results has the invariant, one panel more, and the pair selected.
pub add_market_panel-IsLayout :
    (layout : Layout) (pair : Codes) (timeframe : Timeframe)
    → IsLayout layout
    → length layout.panels < 4
    → valid_pair pair ≡ true
    → (added : Layout) × (add_market_panel layout pair timeframe ≡ some added)
      × IsLayout added
      × (length added.panels ≡ length layout.panels + 1)
      × (added.selected_pair ≡ pair)
unfolding add_market_panel
add_market_panel-IsLayout layout pair timeframe (short, selected, valid, differ) room good =
    let (m, found, free, used) = next_chart_id-least layout.panels in
    let panel : Panel = record { id = chart_id (suc m); pair = pair; timeframe = timeframe } in
    (
      record layout { selected_pair = pair; panels = layout.panels ++ panel ∷ [] },
      ground arith,
      (
        omega (arith, length-append layout.panels (panel ∷ [])),
        good,
        All-append_one layout.panels panel valid (chart_id-is_valid (suc m) (omega arith), good),
        ids_differ-append_one layout.panels panel differ free,
      ),
      omega (arith, length-append layout.panels (panel ∷ [])),
      refl,
    )
