-- ===== src/Ax/Orientation.antt =====
-- packages/simgadget/src/ax/orientation.ts.
pub mod Laws
use simgadget.Prelude.{if◌then◌else◌, Bool, true, false, List, [], ◌∷◌}
use simgadget.Prelude.Int.{ℤ, ◌-ℤ◌, ltb_ℤ}

pub data Orientation : Type 0 where
  auto portrait landscape_right upside_down landscape_left : Orientation

-- `getEffectiveOrientation`
pub get_effective_orientation : Orientation → ℤ → ℤ → Orientation
get_effective_orientation auto w h = if ltb_ℤ h w then landscape_right else portrait
get_effective_orientation orientation w h = orientation

-- `transformPointToPortrait`
unfoldable pub transform_point_to_portrait : ℤ → ℤ → Orientation → ℤ → ℤ → ℤ × ℤ
transform_point_to_portrait x y portrait w h = (x, y)
transform_point_to_portrait x y auto w h = (x, y)
transform_point_to_portrait x y landscape_right w h = (y, w -ℤ x)
transform_point_to_portrait x y landscape_left w h = (h -ℤ y, x)
transform_point_to_portrait x y upside_down w h = (w -ℤ x, h -ℤ y)

abbrev pub is_landscape : Orientation → Bool
is_landscape landscape_left = true
is_landscape landscape_right = true
is_landscape _ = false

abbrev same_aspect : Bool → Bool → Bool
same_aspect true b = b
same_aspect false true = false
same_aspect false false = true

-- `reconcileHint`
pub reconcile_hint : Orientation → Bool → Orientation
reconcile_hint auto landscape = auto
reconcile_hint hint landscape = if same_aspect (is_landscape hint) landscape then hint else auto

-- `candidateOrientations`
unfoldable pub candidate_orientations : Bool → List Orientation
candidate_orientations landscape =
    if landscape then landscape_right ∷ landscape_left ∷ [] else portrait ∷ upside_down ∷ []
