-- ===== src/Strategies/Shown.antt =====
-- The overlays that `normalizeVisualization` of modules/strategy/application/service.ts lets through.
use cryptox.Base.{
  ℕ, suc, ◌+◌, ◌-◌, ◌≤◌, ◌≡◌, refl, arith, Bool, true, false, not, ◌||◌, Bool-cases, Option-cases,
  inl, inr, Option, none, some, List, [], ◌∷◌, length, take, length-take, length-drop, all, All,
  leb_ℤ, Text,
}
use cryptox.Strategies.Overlays.{
  OverlayKind, line, zone, markers, unknown, DraftPoint, Draft, Point, at, band, mark, Overlay,
  points_in, normalize_point, normalize_points, has_kind, put_overlay, normalize_from,
  normalize_visualization,
}

-- Points of the kind of their overlay; a zone goes from its low to its high.
abbrev pub is_point_of : OverlayKind → Point → Bool
is_point_of line (at time value) = true
is_point_of zone (band time low high) = leb_ℤ low high
is_point_of markers (mark time value signal) = true
is_point_of kind point = false

abbrev pub IsShown : Text → Overlay → Type 0
IsShown definition_id o =
    (o.strategy_definition_id ≡ definition_id)
    × (1 ≤ length o.points)
    × (length o.points ≤ 5000)
    × (all (is_point_of o.kind) o.points ≡ true)

normalize_point-fits :
    (kind : OverlayKind) (p : DraftPoint) (q : Point)
    → normalize_point kind p ≡ some q
    → is_point_of kind q ≡ true
unfolding normalize_point
normalize_point-fits line p q h = ground arith
normalize_point-fits zone p q h = ground arith
normalize_point-fits markers p q h = ground arith
normalize_point-fits unknown p q h = ground arith

normalize_points-fit :
    (kind : OverlayKind) (points : List DraftPoint)
    → (all (is_point_of kind) (normalize_points kind points) ≡ true)
      × (length (normalize_points kind points) ≤ length points)
unfolding normalize_points
normalize_points-fit kind [] = (refl, omega arith)
normalize_points-fit kind (p ∷ points) =
    let (fit, short) = normalize_points-fit kind points in
    elim (Option-cases (normalize_point kind p)) [
      | inl none_left ↦ rw none_left (fit, omega (arith, short))
      | inr (q, made) ↦
          rw made (ground (arith, fit, normalize_point-fits kind p q made), omega (arith, short))
    ]

points_in-short : (points : Option (List DraftPoint)) → length (points_in points) ≤ 5000
points_in-short none = omega arith
points_in-short (some points) = omega (arith, length-drop (length points - 5000) points)

put_overlay-AllShown :
    (definition_id : Text) (index : ℕ) (draft : Draft) (points : List Point) (rest : List Overlay)
    → all (is_point_of draft.kind) points ≡ true
    → length points ≤ 5000
    → All (IsShown definition_id) rest
    → All (IsShown definition_id) (put_overlay definition_id index draft points rest)
put_overlay-AllShown definition_id index draft [] rest fit short shown = shown
put_overlay-AllShown definition_id index draft (p ∷ points) rest fit short shown =
    ((refl, omega arith, short, fit), shown)

put_overlay-length :
    (definition_id : Text) (index : ℕ) (draft : Draft) (points : List Point) (rest : List Overlay)
    → length (put_overlay definition_id index draft points rest) ≤ length rest + 1
put_overlay-length definition_id index draft [] rest = omega arith
put_overlay-length definition_id index draft (p ∷ points) rest = omega arith

normalize_from-AllShown :
    (definition_id : Text) (index : ℕ) (drafts : List Draft)
    → All (IsShown definition_id) (normalize_from definition_id index drafts)
      × (length (normalize_from definition_id index drafts) ≤ length drafts)
unfolding normalize_from
normalize_from-AllShown definition_id index [] = (tt, omega arith)
normalize_from-AllShown definition_id index (draft ∷ drafts) =
    let (shown, short) = normalize_from-AllShown definition_id (suc index) drafts in
    let points = points_in draft.points in
    let (fit, few) = normalize_points-fit draft.kind points in
    elim (Bool-cases (not draft.is_record || not (has_kind draft.kind))) [
      | inl skips ↦ rw skips (shown, omega (arith, short))
      | inr draws ↦ rw draws (
        put_overlay-AllShown definition_id index draft (normalize_points draft.kind points) _ fit
            (omega (arith, few, points_in-short draft.points)) shown,
        omega (
          arith,
          short,
          put_overlay-length definition_id index draft (normalize_points draft.kind points)
              (normalize_from definition_id (suc index) drafts),
        ),
      )
    ]

-- Whatever a plugin draws, at most 32 overlays of the definition are shown, each with at least one and at
-- most 5000 points of its kind, a zone from its low to its high.
pub normalize_visualization-AllShown :
    (definition_id : Text) (drafts : Option (List Draft))
    → All (IsShown definition_id) (normalize_visualization definition_id drafts)
      × (length (normalize_visualization definition_id drafts) ≤ 32)
unfolding normalize_visualization
normalize_visualization-AllShown definition_id none = (tt, omega arith)
normalize_visualization-AllShown definition_id (some drafts) =
    let (shown, short) = normalize_from-AllShown definition_id 0 (take 32 drafts) in
    (shown, omega (arith, short, length-take 32 drafts))
