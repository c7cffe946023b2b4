-- ===== src/Frontend/RoundTrip.antt =====
-- The routes of apps/frontend/src/state.ts that are written and parsed.
use cryptox.Base.{
  ℕ, ◌==◌, ◌≡◌, refl, arith, Bool, true, false, not, ◌&&◌, Option, none, some, [], ◌∷◌, Codes,
  codes, Bool-cases, inl, inr,
}
use cryptox.Frontend.Routes.{
  Screen, market, strategy, backtest, search, leaderboard, news, settings, Route, add_part, split,
  is_text, parse_app_route, app_route_path,
}

-- Whether each code point passes a test.
abbrev pub has_no : ℕ → Codes → Bool
has_no d [] = true
has_no d (c ∷ cs) = not (c == d) && has_no d cs

split_plain : (s : Codes) → has_no b'/' s ≡ true → split s ≡ (s, [])
unfolding split
split_plain [] h = refl
split_plain (c ∷ cs) h = elim (Bool-cases (c == b'/')) [
  | inl slash ↦ absurd (ground arith)
  | inr plain ↦ rw (split_plain cs (ground arith), plain) refl
]

-- The screens that the path of a resource leads back to.
abbrev pub shows_resource : Screen → Bool
shows_resource backtest = true
shows_resource search = true
shows_resource screen = false

abbrev pub is_market : Screen → Bool
is_market market = true
is_market screen = false

abbrev leads_back : Screen → Option Codes → Bool → Bool
leads_back screen none true = is_market screen
leads_back screen (some id) true = false
leads_back screen none false = true
leads_back screen (some id) false = is_text id && shows_resource screen

-- A registration of the market screen, a screen without a resource, or a backtest or a search run
-- with a resource that has a name.
abbrev pub is_canonical : Route → Bool
is_canonical route = leads_back route.screen route.resource_id route.register

module _ (encode : Codes → Codes) (decode : Codes → Option Codes)
    (back : (s : Codes) → decode (encode s) ≡ some s)
    (escaped : (s : Codes) → has_no b'/' (encode s) ≡ true)
    (shown : (c : ℕ) (cs : Codes) → is_text (encode (c ∷ cs)) ≡ true)
    (plain : (s : Codes) → has_no b'%' s ≡ true → decode s ≡ some s) where
  add_part_shown : (c : ℕ) (cs : Codes) → add_part (encode (c ∷ cs)) [] ≡ encode (c ∷ cs) ∷ []
  add_part_shown c cs = cases (encode (c ∷ cs)) (shown c cs)
    where
      cases : (s : Codes) → is_text s ≡ true → add_part s [] ≡ s ∷ []
      cases [] h = cc
      cases (d ∷ ds) h = refl

  route_back :
      (screen : Screen) (id : Option Codes) (register : Bool)
      → leads_back screen id register ≡ true
      → parse_app_route encode decode (
          app_route_path encode decode
            (record { screen = screen; resource_id = id; register = register }))
        ≡ some (record { screen = screen; resource_id = id; register = register })
  unfolding parse_app_route app_route_path split
  route_back market none true h = rw (plain (codes "register") refl) refl
  route_back market none false h = rw (plain (codes "dashboard") refl) refl
  route_back strategy none false h = rw (plain (codes "strategy") refl) refl
  route_back backtest none false h = rw (plain (codes "backtest") refl) refl
  route_back search none false h = rw (plain (codes "search") refl) refl
  route_back leaderboard none false h = rw (plain (codes "leaderboard") refl) refl
  route_back news none false h = rw (plain (codes "news") refl) refl
  route_back settings none false h = rw (plain (codes "settings") refl) refl
  route_back backtest (some (c ∷ cs)) false h =
      rw
        (
          split_plain (encode (c ∷ cs)) (escaped (c ∷ cs)),
          add_part_shown c cs,
          plain (codes "experiments") refl,
          back (c ∷ cs),
        )
        refl
  route_back search (some (c ∷ cs)) false h =
      rw
        (
          split_plain (encode (c ∷ cs)) (escaped (c ∷ cs)),
          add_part_shown c cs,
          plain (codes "search-runs") refl,
          back (c ∷ cs),
        )
        refl
  route_back backtest (some []) false h = cc
  route_back search (some []) false h = cc
  route_back market (some id) false h = absurd (ground arith)
  route_back strategy (some id) false h = absurd (ground arith)
  route_back leaderboard (some id) false h = absurd (ground arith)
  route_back news (some id) false h = absurd (ground arith)
  route_back settings (some id) false h = absurd (ground arith)
  route_back screen (some id) true h = cc
  route_back strategy none true h = cc
  route_back backtest none true h = cc
  route_back search none true h = cc
  route_back leaderboard none true h = cc
  route_back news none true h = cc
  route_back settings none true h = cc

-- Let the coding of a part of a path be undone by the decoding, hold no slash, and be empty for the
-- empty text alone, and let a text without a percent sign decode to itself. Then the path of a
-- canonical route is parsed as that route.
pub parse_app_route-app_route_path :
    (encode : Codes → Codes) (decode : Codes → Option Codes)
    → ((s : Codes) → decode (encode s) ≡ some s)
    → ((s : Codes) → has_no b'/' (encode s) ≡ true)
    → ((c : ℕ) (cs : Codes) → is_text (encode (c ∷ cs)) ≡ true)
    → ((s : Codes) → has_no b'%' s ≡ true → decode s ≡ some s)
    → (route : Route) → is_canonical route ≡ true
    → parse_app_route encode decode (app_route_path encode decode route) ≡ some route
parse_app_route-app_route_path encode decode back escaped shown plain route h =
    route_back encode decode back escaped shown plain route.screen route.resource_id route.register
      h
