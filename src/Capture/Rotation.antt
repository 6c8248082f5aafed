-- ===== src/Capture/Rotation.antt =====
-- A turned screenshot and a tap agree about where things are.
use simgadget.Prelude.{ℕ, zero, suc, ◌/◌, if◌then◌else◌, ◌≡◌, refl, ap, Option, none, some}
use simgadget.Prelude.Int.{ℤ, ◌-ℤ◌, sub-sub_ℤ}
use simgadget.Ax.Orientation.{
  Orientation, auto, portrait, landscape_right, upside_down, landscape_left,
  transform_point_to_portrait, is_landscape,
}
use simgadget.Capture.Args.{rotation_for_orientation}

-- Where a point of an image of this width and height comes to be when the image is turned
-- clockwise by so many quarters.
abbrev pub turned : ℕ → ℤ → ℤ → ℤ × ℤ → ℤ × ℤ
turned zero w h p = p
turned (suc n) w h (x, y) = turned n h w (h -ℤ y, x)

abbrev pub quarters : Option ℕ → ℕ
quarters none = 0
quarters (some degrees) = degrees / 90

-- The size of the portrait capture of a screen whose interface is so wide and so high.
abbrev pub captured : Orientation → ℤ → ℤ → ℤ × ℤ
captured o w h = if is_landscape o then (h, w) else (w, h)

-- The pixel that a tap at a point of the interface reaches is the one that stands at that point of
-- the screenshot, once the portrait capture has been turned for the orientation.
pub turned-transform :
    (o : Orientation) (x y w h : ℤ)
    → turned
        (quarters (rotation_for_orientation o))
        (captured o w h).0
        (captured o w h).1
        (transform_point_to_portrait x y o w h)
      ≡ (x, y)
unfolding rotation_for_orientation transform_point_to_portrait
turned-transform auto x y w h = refl
turned-transform portrait x y w h = refl
turned-transform landscape_right x y w h = ap (λ a. (a, y)) (sub-sub_ℤ w x)
turned-transform landscape_left x y w h = rw (sub-sub_ℤ w x, sub-sub_ℤ h y) refl
turned-transform upside_down x y w h = rw (sub-sub_ℤ w x, sub-sub_ℤ h y) refl
