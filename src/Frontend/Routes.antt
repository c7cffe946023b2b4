-- ===== src/Frontend/Routes.antt =====
-- The routes of apps/frontend/src/state.ts: `parseAppRoute` and `appRoutePath`, over the coding of
-- the parts of a path, and their round trip.
use cryptox.Base.{
  ℕ, ◌==◌, Bool, true, false, ◌&&◌, if◌then◌else◌, Option, none, some, List, [], ◌∷◌, ◌++◌, Codes,
  codes, same,
}

pub data Screen : Type 0 where
  market strategy backtest search leaderboard news settings : Screen

pub record Route : Type 0 where
  pub screen : Screen
  pub resource_id : Option Codes
  pub register : Bool

unfoldable pub screen_text : Screen → Codes
screen_text market = codes "market"
screen_text strategy = codes "strategy"
screen_text backtest = codes "backtest"
screen_text search = codes "search"
screen_text leaderboard = codes "leaderboard"
screen_text news = codes "news"
screen_text settings = codes "settings"

abbrev pub to_screen : Screen → Route
to_screen screen = record { screen = screen; resource_id = none; register = false }

abbrev pub to_resource : Screen → Codes → Route
to_resource screen id = record { screen = screen; resource_id = some id; register = false }

-- The parts of a text between slashes, without the empty ones.
abbrev pub add_part : Codes → List Codes → List Codes
add_part [] parts = parts
add_part (c ∷ cs) parts = (c ∷ cs) ∷ parts

-- The first part and the rest.
abbrev pub split_code : ℕ → Codes × List Codes → Codes × List Codes
split_code c (part, parts) = if c == b'/' then ([], add_part part parts) else (c ∷ part, parts)

unfoldable pub split : Codes → Codes × List Codes
split [] = ([], [])
split (c ∷ cs) = split_code c (split cs)

-- `pathname.split("/").filter(Boolean)`
unfoldable pub path_parts : Codes → List Codes
path_parts pathname = add_part (split pathname).0 (split pathname).1

-- The part of a screen: `dashboard` is the market.
unfoldable pub screen_of : Codes → Screen
unfolding screen_text
screen_of part =
    if same part (codes "strategy")
    then strategy
    else if same part (codes "backtest")
    then backtest
    else if same part (codes "search")
    then search
    else if same part (codes "leaderboard")
    then leaderboard
    else if same part (codes "news")
    then news
    else if same part (codes "settings")
    then settings
    else market

abbrev pub is_text : Codes → Bool
is_text [] = false
is_text (c ∷ cs) = true

abbrev pub truthy : Option Codes → Bool
truthy none = false
truthy (some id) = is_text id

unfoldable pub route_of_first : Codes → Route
unfolding screen_of
route_of_first part =
    if same part (codes "login")
    then to_screen market
    else if same part (codes "register")
    then record { screen = market; resource_id = none; register = true }
    else to_screen (screen_of part)

unfoldable pub route_of : List Codes → Route
unfolding route_of_first
route_of [] = to_screen market
route_of (part ∷ []) = route_of_first part
route_of (part ∷ id ∷ rest) =
    if same part (codes "experiments") && is_text id
    then to_resource backtest id
    else if same part (codes "search-runs") && is_text id
    then to_resource search id
    else route_of_first part

abbrev pub join_part : Option Codes → Option (List Codes) → Option (List Codes)
join_part (some part) (some parts) = some (part ∷ parts)
join_part (some part) none = none
join_part none parts = none

module _ (encode : Codes → Codes) (decode : Codes → Option Codes) where
  -- `decode` is decodeURIComponent, which throws on a malformed text (`none`).
  unfoldable pub decode_parts : List Codes → Option (List Codes)
  decode_parts [] = some []
  decode_parts (part ∷ parts) = join_part (decode part) (decode_parts parts)

  abbrev pub map_route : Option (List Codes) → Option Route
  map_route none = none
  map_route (some parts) = some (route_of parts)

  unfoldable pub parse_app_route : Codes → Option Route
  unfolding decode_parts path_parts route_of
  parse_app_route pathname = map_route (decode_parts (path_parts pathname))

  abbrev pub resource_base : Screen → Codes
  resource_base backtest = codes "/experiments/"
  resource_base screen = codes "/search-runs/"

  abbrev pub screen_path : Screen → Codes
  screen_path market = codes "/dashboard"
  screen_path screen = b'/' ∷ screen_text screen

  unfoldable pub resource_path : Screen → Option Codes → Codes
  resource_path screen none = screen_path screen
  resource_path screen (some []) = screen_path screen
  resource_path screen (some (c ∷ cs)) = resource_base screen ++ encode (c ∷ cs)

  unfoldable pub app_route_path : Route → Codes
  unfolding resource_path screen_text
  app_route_path route =
      if route.register then codes "/register" else resource_path route.screen route.resource_id
