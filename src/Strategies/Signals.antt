-- ===== src/Strategies/Signals.antt =====
-- `runtimeCombine` of modules/strategy/application/service.ts.
use cryptox.Base.{
  ℕ, suc, ◌==◌, ltb, Bool, true, false, ◌&&◌, if◌then◌else◌, Option, none, some, List, [], ◌∷◌, map,
  find_first, ℤ, pos, neg_ℤ, ltb_ℤ, Text,
}
use cryptox.Strategies.Records.{
  Signal, buy, sell, hold, majority_vote, Component, Thresholds, Composite,
}
use cryptox.Strategies.Composites.{or_thresholds}

pub record Vote : Type 0 where
  pub strategy_definition_id : Text
  pub signal : Signal

pub record Selected : Type 0 where
  pub component : Component
  pub signal : Signal

abbrev signal_or_hold : Option Vote → Signal
signal_or_hold none = hold
signal_or_hold (some vote) = vote.signal

unfoldable pub select : List Vote → Component → Selected
select votes c = record {
  component = c;
  signal =
      signal_or_hold
        (find_first (λ (v : Vote). v.strategy_definition_id == c.strategy_definition_id) votes);
}

abbrev pub same_signal : Signal → Signal → Bool
same_signal buy buy = true
same_signal sell sell = true
same_signal hold hold = true
same_signal a b = false

unfoldable pub count_of : Signal → List Selected → ℕ
count_of signal [] = 0
count_of signal (v ∷ votes) =
    let rest = count_of signal votes in if same_signal v.signal signal then suc rest else rest

unfoldable pub majority : List Selected → Signal
majority votes =
    if ltb (count_of sell votes) (count_of buy votes)
      && ltb (count_of hold votes) (count_of buy votes)
    then buy
    else if ltb (count_of buy votes) (count_of sell votes)
        && ltb (count_of hold votes) (count_of sell votes)
    then sell
    else hold

abbrev negated : Option ℤ → Option ℤ
negated none = none
negated (some w) = some (neg_ℤ w)

-- The weight times 1, -1 or 0.
unfoldable pub weighted : Selected → Option ℤ
weighted v = elim v.signal [
  | buy ↦ v.component.weight
  | sell ↦ negated v.component.weight
  | hold ↦ elim v.component.weight [ none ↦ none | some w ↦ some (pos 0) ]
]

unfoldable pub score : (Option ℤ → Option ℤ → Option ℤ) → List Selected → Option ℤ → Option ℤ
score plus [] sum = sum
score plus (v ∷ votes) sum = score plus votes (plus sum (weighted v))

abbrev exceeds : Option ℤ → Option ℤ → Bool
exceeds none b = false
exceeds (some a) none = false
exceeds (some a) (some b) = ltb_ℤ b a

unfoldable pub by_score : Option ℤ → Thresholds → Signal
by_score total t = if exceeds total t.buy then buy else if exceeds t.sell total then sell else hold

-- `plus` is the sum of two numbers.
unfoldable pub combine_signals : (Option ℤ → Option ℤ → Option ℤ) → Composite → List Vote → Signal
combine_signals plus definition votes = elim definition.components [
  | [] ↦ hold
  | c ∷ components ↦ elim definition.method [
    | majority_vote ↦ majority (map (select votes) definition.components)
    | method ↦
        by_score (score plus (map (select votes) definition.components) (some (pos 0)))
          (or_thresholds definition.thresholds)
  ]
]
