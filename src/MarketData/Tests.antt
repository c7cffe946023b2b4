-- ===== src/MarketData/Tests.antt =====
-- The theorems on modules/market-data/domain/rules.ts at ranges of minutes.
use cryptox.Base.{
  sort_by, insert_by, set_by, Text, ℕ, ◌+◌, ◌*◌, ◌/◌, inl, Option, none, ◌++◌, replicate, ◌%◌, ◌≡◌,
  refl, arith, ◌==◌, if◌then◌else◌, negsuc, Bool, true, false, not, some, List, [], ◌∷◌, pos, ℤ,
  Dates, nat_abs, ok, ◌>>=◌, ◌>>◌, throw_if, tmod,
}
use cryptox.Backtesting.Decimal.{Number, finite}
use cryptox.Backtesting.Trading.{m1, Candle}
use cryptox.Backtesting.Inputs.{same_timeframe}
use cryptox.MarketData.Rules.{
  missing_ranges, scan, is_existing, timeframe_seconds, parse_timestamp, validate_range,
}
use cryptox.MarketData.Manager.{
  connected, reconnecting, disconnected, Subscription, Manager, is_stale, set_subscriptions, stop,
  connection_opened, connection_failed, handle_disconnect, timer_fired,
}
use cryptox.MarketData.Reconnects.{
  Sound, Steps, here, next, stops, opens, Steps-Sound, Steps-Silent, handle_disconnect-strands,
  Drops, reopened, connection_failed-Drops,
}
use cryptox.MarketData.Missing.{covers, covers-missing_ranges}
use cryptox.MarketData.Ranges.{IsRange, validate_range-IsRange}

abbrev dates : Dates
dates = record { parse = λ t. some (pos t); to_iso = nat_abs }

abbrev price : Number
price = finite (record { units = pos 10; scale = 0 })

abbrev candle : ℕ → Bool → Candle
candle minute is_closed = record {
  pair = 7;
  timeframe = m1;
  timestamp = 60000 * minute;
  opening = price;
  high = price;
  low = price;
  close = price;
  volume = price;
  is_closed = is_closed;
}

-- The second minute is stored; the fourth has yet to close.
abbrev stored : List Candle
stored = candle 1 true ∷ candle 3 false ∷ []

gaps :
    missing_ranges dates stored 0 240000 m1
    ≡ record { from = 0; to = 60000 } ∷ record { from = 120000; to = 240000 } ∷ []
unfolding missing_ranges scan is_existing timeframe_seconds
gaps = refl

covers-missing_ranges_example :
    covers (missing_ranges dates stored 0 240000 m1) 180000 ≡ not (is_existing dates stored 180000)
unfolding timeframe_seconds
covers-missing_ranges_example = covers-missing_ranges dates stored 0 240000 3 m1 (omega arith)

-- Texts of all times: those since 1970 are even.
abbrev all_dates : Dates
all_dates = record {
  parse = λ t. if t % 2 == 0 then some (pos (t / 2)) else some (negsuc (t / 2));
  to_iso = λ ms. elim ms [ pos n ↦ 2 * n | negsuc n ↦ 2 * n + 1 ];
}

reads_back : (ms : ℤ) → all_dates.parse (all_dates.to_iso ms) ≡ some ms
reads_back (pos n) =
    let e : (2 * n % 2 == 0) ≡ true = ground arith in
    let d : 2 * n / 2 ≡ n = omega arith in rw (e, d) refl
reads_back (negsuc n) =
    let e : ((2 * n + 1) % 2 == 0) ≡ false = ground arith in
    let d : (2 * n + 1) / 2 ≡ n = omega arith in rw (e, d) refl

accepted : validate_range all_dates (λ t. true) (some 0) (some 240000) m1 100000 ≡ ok (0, 240000)
unfolding validate_range parse_timestamp timeframe_seconds ◌>>=◌ ◌>>◌ throw_if tmod
accepted = refl

validate_range-IsRange_example : IsRange all_dates (λ t. true) reads_back m1 100000 (0, 240000)
validate_range-IsRange_example =
    validate_range-IsRange all_dates (λ t. true) reads_back (some 0) (some 240000) m1 100000
      (0, 240000) accepted

abbrev key_text : Subscription → Text
key_text s = s.pair

abbrev charts : List Subscription
charts = record { pair = 7; timeframe = m1 } ∷ []

-- The manager with a chart, connected or about to connect.
abbrev manager : Option ℕ → Option ℕ → Bool → Manager
manager connection reconnect_timer stopped = record {
  desired = charts;
  connection = connection;
  reconnect_timer = reconnect_timer;
  generation = 4;
  reconnect_attempt = 1;
  stopped = stopped;
  statuses = connected ∷ [];
  closed = [];
}

-- A connection opens after the manager was stopped.
abbrev late : Manager
late = connection_opened 4 12 (stop (manager (some 11) none false))

late-Steps : Steps key_text 8 (manager (some 11) none false) late
late-Steps = next (next here (stops refl)) (opens 4 12 refl)

closes_both : late.closed ≡ 12 ∷ 11 ∷ []
unfolding stop connection_opened
closes_both = refl

Steps-Sound_example : Sound 8 late
Steps-Sound_example =
    Steps-Sound key_text 8 (manager (some 11) none false) late (omega arith, inl refl) late-Steps

Steps-Silent_example :
    ((connection_opened 4 12 (manager none none true)).stopped ≡ true)
    × (n : ℕ) × ((connection_opened 4 12 (manager none none true)).statuses
        ≡ replicate n disconnected ++ connected ∷ [])
Steps-Silent_example =
    Steps-Silent key_text 8 (manager none none true)
      (connection_opened 4 12 (manager none none true)) refl (next here (opens 4 12 refl))

abbrev stranded : Manager
stranded = timer_fired (handle_disconnect 8 4 (manager (some 11) (some 4) false))

handle_disconnect-strands_example :
    (stranded.connection ≡ none)
    × (stranded.reconnect_timer ≡ none)
    × (stranded.statuses ≡ reconnecting ∷ connected ∷ [])
    × (stranded.stopped ≡ false)
    × is_stale 4 stranded ≡ true
handle_disconnect-strands_example =
    handle_disconnect-strands 8 4 (manager (some 11) (some 4) false) refl refl

-- The manager of a connection that is being opened, and one chart more.
abbrev opening : Manager
opening = manager none none false

abbrev more_charts : List Subscription
more_charts = record { pair = 90; timeframe = m1 } ∷ charts

abbrev renewed : Manager
renewed = reopened 5 12 (set_subscriptions key_text more_charts opening)

connection_failed-Drops_example : Drops 12 renewed (connection_failed 8 4 renewed)
unfolding set_subscriptions sort_by insert_by set_by same_timeframe
connection_failed-Drops_example =
    connection_failed-Drops 8 key_text more_charts 12 opening refl refl refl
