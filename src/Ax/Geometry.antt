-- ===== src/Ax/Geometry.antt =====
-- packages/simgadget/src/ax/tree.ts: points and frames.
pub mod Laws
use simgadget.Prelude.{if◌then◌else◌, Bool, false, ◌&&◌, Option, none, some}
use simgadget.Prelude.Int.{ℤ, pos, ◌+ℤ◌, ◌-ℤ◌, leb_ℤ, ltb_ℤ, max_ℤ, half_ℤ}
use simgadget.Ax.Element.{Frame, RawKeys, has_no_size}

-- `frameContains`
unfoldable pub frame_contains : Frame → ℤ → ℤ → Bool
frame_contains f x y =
    leb_ℤ f.x x && leb_ℤ x (f.x +ℤ f.width) && leb_ℤ f.y y && leb_ℤ y (f.y +ℤ f.height)

-- `distanceOutsideFrame`
pub distance_outside_frame : Frame → ℤ → ℤ → ℤ
distance_outside_frame f x y =
    let dx = max_ℤ (max_ℤ (f.x -ℤ x) (x -ℤ (f.x +ℤ f.width))) (pos 0) in
    let dy = max_ℤ (max_ℤ (f.y -ℤ y) (y -ℤ (f.y +ℤ f.height))) (pos 0) in max_ℤ dx dy

-- `HIT_SLOP`: 44 points.
abbrev pub hit_slop : ℤ
hit_slop = pos 264

-- `isRemotelyHosted`
pub is_remotely_hosted : Frame → ℤ → ℤ → Bool
is_remotely_hosted f x y =
    if has_no_size f then false else ltb_ℤ hit_slop (distance_outside_frame f x y)

abbrev pub centre_of_frame : Option Frame → Option (ℤ × ℤ)
centre_of_frame none = none
centre_of_frame (some f) =
    if has_no_size f then none else some (f.x +ℤ half_ℤ f.width, f.y +ℤ half_ℤ f.height)

-- `centreOf`
pub centre_of : RawKeys → Option (ℤ × ℤ)
centre_of element = centre_of_frame element.frame
