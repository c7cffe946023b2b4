-- ===== src/Frontend/Candles.antt =====
-- The candles of a chart: `mergeCandle` of apps/frontend/src/state.ts, and the summary of the
-- connections of the charts.
use Prim.Native.String.{String}
use cryptox.Base.{
  ◌==◌, leb, ltb, Bool, not, ◌&&◌, ◌||◌, if◌then◌else◌, none, some, List, [], ◌∷◌, ◌++◌, length,
  any, all, sort_by, lookup_by, Text, Codes, codes, same,
}
use cryptox.Backtesting.Decimal.{Number}
use cryptox.Frontend.Layout.{Panel}

pub record UiCandle : Type 0 where
  pub timestamp : Text
  pub open_price : Number
  pub high : Number
  pub low : Number
  pub close : Number
  pub volume : Number
  pub is_closed : Bool

abbrev pub by_time : UiCandle → Text
by_time candle = candle.timestamp

abbrev pub not_later : UiCandle → UiCandle → Bool
not_later left right = leb left.timestamp right.timestamp

-- A candle that is still open does not replace a closed one.
unfoldable pub replacement : UiCandle → UiCandle → UiCandle
replacement current incoming =
    if current.is_closed && not incoming.is_closed then current else incoming

-- The first candle of that time is replaced.
unfoldable pub replace_first : UiCandle → List UiCandle → List UiCandle
unfolding replacement
replace_first incoming [] = []
replace_first incoming (candle ∷ rest) =
    if candle.timestamp == incoming.timestamp
    then replacement candle incoming ∷ rest
    else candle ∷ replace_first incoming rest

unfoldable pub merge_candle : List UiCandle → UiCandle → List UiCandle
unfolding replace_first
merge_candle history incoming = elim (lookup_by by_time incoming.timestamp history) [
  | none ↦ sort_by not_later (history ++ incoming ∷ [])
  | some current ↦ replace_first incoming history
]

pub data Tone : Type 0 where
  is_connected is_pending is_error is_paused : Tone

pub record Summary : Type 0 where
  pub label : Codes
  pub tone : Tone

abbrev pub is_state : String → Codes → Bool
is_state name state = same state (codes name)

-- The state of all charts in one label.
unfoldable pub market_connection_summary : List Codes → Bool → Summary
market_connection_summary states realtime_enabled =
    if not realtime_enabled
    then record { label = codes "Realtime paused"; tone = is_paused }
    else if any (λ s. is_state "ERROR" s || is_state "DISCONNECTED" s) states
    then record { label = codes "Connection error"; tone = is_error }
    else if any (is_state "RECONNECTING") states
    then record { label = codes "Reconnecting"; tone = is_pending }
    else if any (is_state "CONNECTING") states
    then record { label = codes "Connecting"; tone = is_pending }
    else if ltb 0 (length states) && all (is_state "CONNECTED") states
    then record { label = codes "Receiving data"; tone = is_connected }
    else record { label = codes "Waiting for connection"; tone = is_pending }

unfoldable pub can_add_chart : List Panel → Bool
can_add_chart panels = ltb (length panels) 4
