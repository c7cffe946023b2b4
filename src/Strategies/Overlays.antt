-- ===== src/Strategies/Overlays.antt =====
-- `normalizeVisualization` of modules/strategy/application/service.ts, on drafts of overlays that may be
-- of any shape.
use cryptox.Base.{
  ℕ, suc, ◌-◌, Bool, true, false, not, ◌||◌, if◌then◌else◌, Option, none, some, List, [], ◌∷◌, ◌++◌,
  length, take, drop, ℤ, leb_ℤ, Text, Codes, codes, trim, print,
}
use cryptox.Strategies.Records.{Signal}

pub data OverlayKind : Type 0 where
  line zone markers : OverlayKind
  -- Any other value.
  unknown : OverlayKind

-- A point that a plugin draws: whether it is a record, the time, where that is a text, the numbers,
-- where they are finite, and the signal, where it is one.
pub record DraftPoint : Type 0 where
  pub is_record : Bool
  pub time : Option Text
  pub value : Option ℤ
  pub low : Option ℤ
  pub high : Option ℤ
  pub signal : Option Signal

-- `none` where the label or the id is no text, or the points are no array.
pub record Draft : Type 0 where
  pub is_record : Bool
  pub kind : OverlayKind
  pub label : Option Codes
  pub id : Option Codes
  pub points : Option (List DraftPoint)

pub data Point : Type 0 where
  at : Text → ℤ → Point
  band : Text → ℤ → ℤ → Point
  mark : Text → ℤ → Signal → Point

-- The id is `<definition>:<local id>`.
pub record Overlay : Type 0 where
  pub strategy_definition_id : Text
  pub local_id : Codes
  pub kind : OverlayKind
  pub label : Codes
  pub points : List Point

abbrev pub is_filled : Codes → Bool
is_filled [] = false
is_filled (c ∷ cs) = true

abbrev pub kind_name : OverlayKind → Codes
kind_name line = codes "LINE"
kind_name zone = codes "ZONE"
kind_name markers = codes "SIGNAL"
kind_name unknown = []

abbrev pub given_or : Option Codes → Codes → Codes
given_or none default = default
given_or (some s) default = if is_filled (trim s) then s else default

abbrev pub trimmed_or : Option Codes → Codes → Codes
trimmed_or none default = default
trimmed_or (some s) default = if is_filled (trim s) then trim s else default

-- `slice(-n)`
abbrev pub take_last : ℕ → List DraftPoint → List DraftPoint
take_last n points = drop (length points - n) points

abbrev pub points_in : Option (List DraftPoint) → List DraftPoint
points_in none = []
points_in (some points) = take_last 5000 points

abbrev line_point : Option Text → Option ℤ → Option Point
line_point (some time) (some value) = some (at time value)
line_point (some time) none = none
line_point none value = none

abbrev min_ℤ : ℤ → ℤ → ℤ
min_ℤ a b = if leb_ℤ a b then a else b

abbrev max_ℤ : ℤ → ℤ → ℤ
max_ℤ a b = if leb_ℤ a b then b else a

abbrev zone_point : Option Text → Option ℤ → Option ℤ → Option Point
zone_point (some time) (some low) (some high) = some (band time (min_ℤ low high) (max_ℤ low high))
zone_point (some time) (some low) none = none
zone_point (some time) none high = none
zone_point none low high = none

abbrev marker_point : Option Text → Option ℤ → Option Signal → Option Point
marker_point (some time) (some value) (some signal) = some (mark time value signal)
marker_point (some time) (some value) none = none
marker_point (some time) none signal = none
marker_point none value signal = none

unfoldable pub normalize_point : OverlayKind → DraftPoint → Option Point
normalize_point kind p =
    if p.is_record
    then elim kind [
      | line ↦ line_point p.time p.value
      | zone ↦ zone_point p.time p.low p.high
      | markers ↦ marker_point p.time p.value p.signal
      | unknown ↦ none
    ]
    else none

abbrev put_some : Option Point → List Point → List Point
put_some none points = points
put_some (some p) points = p ∷ points

unfoldable pub normalize_points : OverlayKind → List DraftPoint → List Point
normalize_points kind [] = []
normalize_points kind (p ∷ points) =
    put_some (normalize_point kind p) (normalize_points kind points)

abbrev is_empty_list : List Point → Bool
is_empty_list [] = true
is_empty_list (p ∷ points) = false

abbrev pub has_kind : OverlayKind → Bool
has_kind unknown = false
has_kind kind = true

abbrev pub overlay_of : Text → ℕ → Draft → List Point → Overlay
overlay_of definition_id index draft points = record {
  strategy_definition_id = definition_id;
  local_id = trimmed_or draft.id (codes "overlay-" ++ print (suc index));
  kind = draft.kind;
  label = given_or draft.label (kind_name draft.kind ++ codes " overlay");
  points = points;
}

abbrev pub put_overlay : Text → ℕ → Draft → List Point → List Overlay → List Overlay
put_overlay definition_id index draft [] rest = rest
put_overlay definition_id index draft (p ∷ points) rest =
    overlay_of definition_id index draft (p ∷ points) ∷ rest

-- The overlays from an index on.
unfoldable pub normalize_from : Text → ℕ → List Draft → List Overlay
normalize_from definition_id index [] = []
normalize_from definition_id index (draft ∷ drafts) =
    let rest = normalize_from definition_id (suc index) drafts in
    if not draft.is_record || not (has_kind draft.kind)
    then rest
    else put_overlay definition_id index draft
        (normalize_points draft.kind (points_in draft.points)) rest

-- `none` where the plugin gives no array.
unfoldable pub normalize_visualization : Text → Option (List Draft) → List Overlay
normalize_visualization definition_id none = []
normalize_visualization definition_id (some drafts) =
    normalize_from definition_id 0 (take 32 drafts)
