-- ===== src/Ax/Orientation/Laws.antt =====
-- Hints, aspects and the transform of points.
use simgadget.Prelude.{if◌then◌else◌, ◌≡◌, ◌≢◌, arith}
use simgadget.Prelude.Int.{ℤ, pos, ◌≤ℤ◌, ltb_ℤ, int_laws}
use simgadget.Ax.Orientation.{
  Orientation, auto, portrait, landscape_right, upside_down, landscape_left,
  get_effective_orientation, transform_point_to_portrait, is_landscape, reconcile_hint,
}

-- After a root frame has been reconciled with the hint, the effective orientation has the aspect
-- that the frame shows; a hint that the frame agrees with survives, and one that it contradicts
-- is retired.
pub reconcile_hint_sound :
    (hint : Orientation) (w h : ℤ)
    → let r = reconcile_hint hint (ltb_ℤ h w) in
      (is_landscape (get_effective_orientation r w h) ≡ ltb_ℤ h w)
      × (is_landscape hint ≡ ltb_ℤ h w → r ≡ hint)
      × (is_landscape hint ≢ ltb_ℤ h w → r ≡ auto)
unfolding reconcile_hint get_effective_orientation
reconcile_hint_sound hint w h = ground arith

-- A point of the logical screen lands on the portrait screen, whichever way the screen is up.
pub transform_in_bounds :
    (x y w h : ℤ) (o : Orientation)
    → pos 0 ≤ℤ x
    → x ≤ℤ w
    → pos 0 ≤ℤ y
    → y ≤ℤ h
    → let p = transform_point_to_portrait x y o w h in
      (pos 0 ≤ℤ p.0)
      × (p.0 ≤ℤ (if is_landscape o then h else w))
      × (pos 0 ≤ℤ p.1)
      × (p.1 ≤ℤ (if is_landscape o then w else h))
unfolding transform_point_to_portrait
transform_in_bounds x y w h auto a b c d = omega int_laws
transform_in_bounds x y w h portrait a b c d = omega int_laws
transform_in_bounds x y w h landscape_right a b c d = omega int_laws
transform_in_bounds x y w h upside_down a b c d = omega int_laws
transform_in_bounds x y w h landscape_left a b c d = omega int_laws
