-- ===== src/MarketData/Manager.antt =====
-- `MarketDataSubscriptionManager` of modules/market-data/application/subscription-manager.ts. A
-- method that awaits is a function for each part between two awaits, over the generation that it
-- holds; what it awaits ends with one of the parts that follow.
use cryptox.Base.{
  ℕ, ◌+◌, ◌*◌, ◌^◌, min, max, ◌==◌, leb, Bool, true, false, not, ◌&&◌, ◌||◌, if◌then◌else◌, Option,
  none, some, List, [], ◌∷◌, Text, sort_by, set_by,
}
use cryptox.Backtesting.Trading.{Timeframe}
use cryptox.Backtesting.Inputs.{same_timeframe}

pub data Status : Type 0 where
  connected reconnecting disconnected : Status

pub record Subscription : Type 0 where
  pub pair : Text
  pub timeframe : Timeframe

-- A timer holds the generation that its callback connects. `statuses` are those reported, the last
-- one first, and `closed` the connections that were closed.
pub record Manager : Type 0 where
  pub desired : List Subscription
  pub connection : Option ℕ
  pub reconnect_timer : Option ℕ
  pub generation : ℕ
  pub reconnect_attempt : ℕ
  pub stopped : Bool
  pub statuses : List Status
  pub closed : List ℕ

abbrev pub is_empty_list {ℓ} : {A : Type ℓ} → List A → Bool
is_empty_list [] = true
is_empty_list (a ∷ as') = false

abbrev pub is_set {ℓ} : {A : Type ℓ} → Option A → Bool
is_set none = false
is_set (some a) = true

abbrev pub close_old : Option ℕ → List ℕ → List ℕ
close_old none closed = closed
close_old (some c) closed = c ∷ closed

abbrev pub report : Status → Manager → Manager
report status m = record m { statuses = status ∷ m.statuses }

-- `generation !== this.generation || this.stopped || this.desired.length === 0`
abbrev pub is_stale : ℕ → Manager → Bool
is_stale generation m = not (generation == m.generation) || m.stopped || is_empty_list m.desired

abbrev pub same_subscriptions : List Subscription → List Subscription → Bool
same_subscriptions [] [] = true
same_subscriptions [] (b ∷ bs) = false
same_subscriptions (a ∷ as') [] = false
same_subscriptions (a ∷ as') (b ∷ bs) =
    a.pair == b.pair && same_timeframe a.timeframe b.timeframe && same_subscriptions as' bs

-- `key_text` writes `${pair}|${timeframe}`.
module _ (key_text : Subscription → Text) where
  abbrev pub keyed : List Subscription → List Subscription → List Subscription
  keyed acc [] = acc
  keyed acc (s ∷ ss) = keyed (set_by key_text s acc) ss

  unfoldable pub normalize : List Subscription → List Subscription
  normalize subscriptions = sort_by (λ a b. leb (key_text a) (key_text b)) (keyed [] subscriptions)

  -- `setSubscriptions` until it has closed the old connection. Its end has the generation after.
  unfoldable pub set_subscriptions : List Subscription → Manager → Manager
  unfolding normalize
  set_subscriptions subscriptions m =
      let next = normalize subscriptions in
      if m.stopped
        || (same_subscriptions next m.desired
            && (is_empty_list next || is_set m.connection || is_set m.reconnect_timer))
      then m
      else record m {
        desired = next;
        generation = m.generation + 1;
        reconnect_timer = none;
        connection = none;
        closed = close_old m.connection m.closed;
      }

-- `connect` until the provider answers.
unfoldable pub connect : ℕ → Manager → Manager
connect generation m = if is_stale generation m then m else report reconnecting m

-- The end of `setSubscriptions`.
unfoldable pub subscriptions_closed : ℕ → Bool → Manager → Manager
unfolding connect
subscriptions_closed generation next_is_empty m =
    if not (generation == m.generation) || m.stopped
    then m
    else let m' = record m { reconnect_attempt = 0 } in
      if next_is_empty then report disconnected m' else connect generation m'

-- `stop`, until it has closed the connection and after.
unfoldable pub stop : Manager → Manager
stop m = if m.stopped then m else record m {
  stopped = true;
  generation = m.generation + 1;
  reconnect_timer = none;
  connection = none;
  closed = close_old m.connection m.closed;
}

unfoldable pub stop_closed : Manager → Manager
stop_closed m = report disconnected (record m { desired = [] })

-- The provider has opened a connection for `connect`.
unfoldable pub connection_opened : ℕ → ℕ → Manager → Manager
connection_opened generation c m =
    if is_stale generation m
    then record m { closed = c ∷ m.closed }
    else record m { connection = some c }

-- `scheduleReconnect`; what the scheduled delay is does not matter to the state.
module _ (maximum_attempts : ℕ) where
  unfoldable pub schedule_reconnect : ℕ → Manager → Manager
  schedule_reconnect generation m =
      if is_set m.reconnect_timer || is_stale generation m
      then m
      else if leb maximum_attempts m.reconnect_attempt
      then report disconnected m
      else record m {
        reconnect_attempt = m.reconnect_attempt + 1;
        reconnect_timer = some generation;
      }

  -- The handler of `connect` for an error.
  unfoldable pub connection_failed : ℕ → Manager → Manager
  unfolding schedule_reconnect
  connection_failed generation m =
      let m' = record m { connection = none } in
      if is_stale generation m' then m' else schedule_reconnect generation (report disconnected m')

  -- `finishConnection` after `onConnected`, and its handler for an error.
  unfoldable pub connection_ready : ℕ → Manager → Manager
  connection_ready generation m =
      if is_stale generation m then m else report connected (record m { reconnect_attempt = 0 })

  unfoldable pub connection_unready : ℕ → Manager → Manager
  unfolding schedule_reconnect
  connection_unready generation m =
      if is_stale generation m then m else schedule_reconnect generation (report reconnecting m)

  unfoldable pub handle_disconnect : ℕ → Manager → Manager
  unfolding schedule_reconnect
  handle_disconnect generation m =
      if is_stale generation m
      then m
      else schedule_reconnect (m.generation + 1)
          (report reconnecting (record m { generation = m.generation + 1; connection = none }))

-- The callback of the timer.
unfoldable pub timer_fired : Manager → Manager
unfolding connect
timer_fired m = elim m.reconnect_timer [
  | none ↦ m
  | some generation ↦ connect generation (record m { reconnect_timer = none })
]

-- `baseDelay` and `delay` of `scheduleReconnect`, without and with the jitter's answer.
unfoldable pub base_delay : (base maximum attempt : ℕ) → ℕ
base_delay base maximum attempt = min maximum (base * 2 ^ min attempt 10)

unfoldable pub reconnect_delay : (base maximum attempt : ℕ) → Option ℕ → ℕ
unfolding base_delay
reconnect_delay base maximum attempt none = max 0 (min maximum (base_delay base maximum attempt))
reconnect_delay base maximum attempt (some jitter) = max 0 (min maximum jitter)
