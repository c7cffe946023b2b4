-- ===== src/Strategies/DrawingTests.antt =====
-- Overlays that a plugin draws, and the theorem at them.
use cryptox.Base.{
  All, length, ◌≤◌, ◌≡◌, refl, true, Option, none, some, List, [], ◌∷◌, pos, Text, codes, trim,
}
use cryptox.Strategies.Overlays.{
  OverlayKind, zone, DraftPoint, Draft, band, normalize_point, normalize_points, normalize_from,
  normalize_visualization,
}
use cryptox.Strategies.Shown.{IsShown, normalize_visualization-AllShown}

-- A zone that is upside down, a point without a time, and an overlay of no kind.
abbrev point : Option Text → DraftPoint
point time = record {
  is_record = true;
  time = time;
  value = none;
  low = some (pos 9);
  high = some (pos 4);
  signal = none;
}

abbrev drafts : List Draft
drafts =
    record { is_record = true; kind = OverlayKind.unknown; label = none; id = none; points = none }
    ∷ record {
      is_record = true;
      kind = zone;
      label = some (codes " ");
      id = some (codes " z ");
      points = some (point (some 77) ∷ point none ∷ []);
    }
    ∷ []

draws :
    normalize_visualization 100 (some drafts)
    ≡ record {
      strategy_definition_id = 100;
      local_id = codes "z";
      kind = zone;
      label = codes "ZONE overlay";
      points = band 77 (pos 4) (pos 9) ∷ [];
    }
      ∷ []
unfolding normalize_visualization normalize_from normalize_points normalize_point trim
draws = refl

normalize_visualization-AllShown_example :
    All (IsShown 100) (normalize_visualization 100 (some drafts))
    × (length (normalize_visualization 100 (some drafts)) ≤ 32)
normalize_visualization-AllShown_example = normalize_visualization-AllShown 100 (some drafts)
