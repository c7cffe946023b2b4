-- ===== src/Strategies/CompositeStore.antt =====
-- The composites in memory of modules/strategy/application/service.ts.
use cryptox.Base.{
  ◌==◌, leb, Bool, not, ◌&&◌, ◌||◌, if◌then◌else◌, none, some, List, map, any, keep, sort_by,
  lookup_by, set_by, Result, ok, err, Text, is_blank,
}
use cryptox.Strategies.Records.{
  CompositeKey, Composite, OwnedComposite, Store, StrategyFault, composite_strategy_not_found,
  validation_error, composite_id, same_key,
}

abbrev pub owns_composite : Text → OwnedComposite → Bool
owns_composite user item = item.owner_user_id == user

abbrev composite_of : OwnedComposite → Composite
composite_of item = item.value

unfoldable pub insert_composite : Text → Composite → Store → Store
insert_composite user c s = record s {
  composites =
      set_by composite_id (record { owner_user_id = user; value = record c { user_id = user } })
        s.composites;
}

abbrev is_older : Composite → Composite → Bool
is_older a b =
    not (leb b.created_at a.created_at) || (a.created_at == b.created_at && leb a.id b.id)

unfoldable pub list_composites : Text → Store → List Composite
list_composites user s =
    sort_by is_older (map composite_of (keep (owns_composite user) s.composites))

unfoldable pub read_composite : Text → Text → Store → Result StrategyFault Composite
read_composite user id s = elim (lookup_by composite_id id s.composites) [
  | none ↦ err composite_strategy_not_found
  | some item ↦ if owns_composite user item then ok item.value else err composite_strategy_not_found
]

abbrev pub in_composite_family : Text → CompositeKey → OwnedComposite → Bool
in_composite_family user key item =
    owns_composite user item && same_key item.value.logical_family_key key

unfoldable pub list_composite_family : Text → CompositeKey → Store → List Composite
list_composite_family user key s =
    map composite_of (keep (in_composite_family user key) s.composites)

abbrev is_other_or_foreign : Text → Text → OwnedComposite → Bool
is_other_or_foreign user id item = not (item.value.id == id && owns_composite user item)

-- Whether anything was deleted. `id` has no white space around it.
unfoldable pub delete_composite : Text → Text → Store → Result StrategyFault (Bool × Store)
delete_composite user id s =
    if is_blank user || is_blank id
    then err validation_error
    else ok (
      any (λ item. not (is_other_or_foreign user id item)) s.composites,
      record s { composites = keep (is_other_or_foreign user id) s.composites },
    )
