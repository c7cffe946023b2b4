-- ===== src/MarketData/Ranges.antt =====
-- What `parseTimestamp` and `validateRange` of modules/market-data/domain/rules.ts accept.
use cryptox.Base.{
  ◌≡◌, arith, Bool, true, false, not, ◌&&◌, if◌then◌else◌, Option, none, some, ℤ, pos, ◌<ℤ◌, leb_ℤ,
  eqb_ℤ, tmod, Result, ok, err, Text, Dates, Ensures, returned, thrown, Ensures-bind, Ensures-eq,
  then-Ensures, if-Ensures, throw_if-eq-ok,
}
use cryptox.Backtesting.Trading.{Timeframe}
use cryptox.MarketData.Rules.{
  MarketError, invalid_range, interval, is_after, is_no_later, parse_timestamp, validate_range,
}

module _ (dates : Dates) (ends_in_z : Text → Bool)
    (reads_back : (ms : ℤ) → dates.parse (dates.to_iso ms) ≡ some ms) where
  -- A printed time on the grid of a timeframe, which is not in the future unless that is allowed.
  pub record OnGrid (timeframe : Timeframe) (now : Text) (allow_future : Bool) (t : Text)
      : Type 0 where
    pub ms : ℤ
    pub parses : dates.parse t ≡ some ms
    pub on_grid : eqb_ℤ (tmod ms (pos (interval timeframe))) (pos 0) ≡ true
    pub in_time : (not allow_future && is_after ms (dates.parse now)) ≡ false

  parse_timestamp-OnGrid :
      (value : Option Text) (timeframe : Timeframe) (now : Text) (allow_future : Bool)
      → Ensures
          (OnGrid timeframe now allow_future)
          (parse_timestamp dates ends_in_z value timeframe now allow_future)
  unfolding parse_timestamp
  parse_timestamp-OnGrid none timeframe now allow_future = thrown
  parse_timestamp-OnGrid (some value) timeframe now allow_future = go (dates.parse value)
    where
      go :
          (parsed : Option ℤ)
          → Ensures
              (OnGrid timeframe now allow_future)
              (elim parsed as (λ _. Result MarketError Text) [
                | none ↦ err invalid_range
                | some ms ↦
                    if not (ends_in_z value)
                    then err invalid_range
                    else if not (eqb_ℤ (tmod ms (pos (interval timeframe))) (pos 0))
                    then err invalid_range
                    else if not allow_future && is_after ms (dates.parse now)
                    then err invalid_range
                    else ok (dates.to_iso ms)
              ])
      go none = thrown
      go (some ms) =
          if-Ensures (not (ends_in_z value)) _ _ (λ h. thrown)
            (λ utc.
              if-Ensures (not (eqb_ℤ (tmod ms (pos (interval timeframe))) (pos 0))) _ _
                (λ h. thrown)
                (λ grid.
                  if-Ensures (not allow_future && is_after ms (dates.parse now)) _ _ (λ h. thrown)
                    (λ late. returned (record {
                      ms = ms;
                      parses = reads_back ms;
                      on_grid = ground arith;
                      in_time = late;
                    }))))

  -- A range that is accepted: both ends are on the grid, the start is not in the future, and the end
  -- is after it.
  pub record IsRange (timeframe : Timeframe) (now : Text) (range : Text × Text) : Type 0 where
    pub start : OnGrid timeframe now false range.0
    pub end : OnGrid timeframe now true range.1
    pub ordered : start.ms <ℤ end.ms

  validate_range-Ensures :
      (from to : Option Text) (timeframe : Timeframe) (now : Text)
      → Ensures (IsRange timeframe now) (validate_range dates ends_in_z from to timeframe now)
  unfolding validate_range
  validate_range-Ensures from to timeframe now =
      Ensures-bind _ (parse_timestamp-OnGrid from timeframe now false) (λ a start.
        Ensures-bind _ (parse_timestamp-OnGrid to timeframe now true) (λ b end.
          then-Ensures _ _ (λ u passes. returned (record {
            start = start;
            end = end;
            ordered = later a b start end (throw_if-eq-ok _ _ passes);
          }))))
    where
      later :
          (a b : Text) (start : OnGrid timeframe now false a) (end : OnGrid timeframe now true b)
          → is_no_later dates ends_in_z (dates.parse b) (dates.parse a) ≡ false
          → start.ms <ℤ end.ms
      later a b start end h =
          let h' : leb_ℤ end.ms start.ms ≡ false = rw (end.parses, start.parses) at h in
          ground arith

  -- Where printed times are read back, a range that `validateRange` accepts is a range: both ends on
  -- the grid of the timeframe, the start not in the future, and the end after it.
  pub validate_range-IsRange :
      (from to : Option Text) (timeframe : Timeframe) (now : Text) (range : Text × Text)
      → validate_range dates ends_in_z from to timeframe now ≡ ok range
      → IsRange timeframe now range
  validate_range-IsRange from to timeframe now range h =
      Ensures-eq {P = IsRange timeframe now} (validate_range-Ensures from to timeframe now) h
