-- ===== src/Ax/Geometry/Laws.antt =====
-- What the tests on points and frames decide.
use simgadget.Prelude.{◌≡◌, refl, ◌↔◌, true, false, some, arith, inl, inr, Bool-cases}
use simgadget.Prelude.Int.{ℤ, pos, negsuc, ◌+ℤ◌, ◌-ℤ◌, ◌≤ℤ◌, ltb_ℤ, max_ℤ-le_iff, half_ℤ, int_laws}
use simgadget.Ax.Element.{Frame, RawKeys, has_no_size}
use simgadget.Ax.Geometry.{distance_outside_frame, is_remotely_hosted, hit_slop, centre_of}

-- The point lies in the frame, edges included.
pub record Inside (f : Frame) (x y : ℤ) : Type 0 where
  pub left : f.x ≤ℤ x
  pub right : x ≤ℤ f.x +ℤ f.width
  pub top : f.y ≤ℤ y
  pub bottom : y ≤ℤ f.y +ℤ f.height

-- The frame with a margin on each side.
abbrev pub widened : ℤ → Frame → Frame
widened d f = record {
  x = f.x -ℤ d;
  y = f.y -ℤ d;
  width = f.width +ℤ d +ℤ d;
  height = f.height +ℤ d +ℤ d;
}

-- The distance is within a bound of at least 0 exactly when the frame, widened by the bound, holds
-- the point; so it is 0 exactly when the frame itself does.
distance-le_iff :
    (f : Frame) (x y d : ℤ)
    → pos 0 ≤ℤ d
    → (distance_outside_frame f x y ≤ℤ d) ↔ Inside (widened d f) x y
unfolding distance_outside_frame
distance-le_iff f x y d nonneg = (
  λ h.
      let (across, down) = (max_ℤ-le_iff _ _ _).0 h in
      let (sides, _) = (max_ℤ-le_iff _ _ _).0 across in
      let (left, right) = (max_ℤ-le_iff _ _ _).0 sides in
      let (ends, _) = (max_ℤ-le_iff _ _ _).0 down in
      let (top, bottom) = (max_ℤ-le_iff _ _ _).0 ends in
      record {
        left = omega int_laws;
        right = omega int_laws;
        top = omega int_laws;
        bottom = omega int_laws;
      },
  λ inside. (max_ℤ-le_iff _ _ _).1 (
    (max_ℤ-le_iff _ _ _).1 ((max_ℤ-le_iff _ _ _).1 (omega int_laws, omega int_laws), nonneg),
    (max_ℤ-le_iff _ _ _).1 ((max_ℤ-le_iff _ _ _).1 (omega int_laws, omega int_laws), nonneg),
  ),
)

far_of : (a b : ℤ) → (b ≤ℤ a → ⊥) → ltb_ℤ a b ≡ true
far_of a b h = ground arith

-- A point read is taken for one from a remote view exactly when its frame has a size and the point
-- lies outside the frame widened by 44 points on each side.
is_remotely_hosted_iff :
    (f : Frame) (x y : ℤ)
    → (is_remotely_hosted f x y ≡ true)
      ↔ ((has_no_size f ≡ false) × (¬ Inside (widened hit_slop f) x y))
unfolding is_remotely_hosted
is_remotely_hosted_iff f x y =
    let within = distance-le_iff f x y hit_slop (omega arith) in
    elim (Bool-cases (has_no_size f)) [
      | inl flat ↦ ground arith
      | inr sized ↦ rw sized (
        λ far. (refl, λ inside. ground (arith, within.1 inside)),
        λ (_, out). far_of hit_slop (distance_outside_frame f x y) (λ h. out (within.0 h)),
      )
    ]

half_bounds : (a : ℤ) → pos 0 ≤ℤ a → (pos 0 ≤ℤ half_ℤ a) × (half_ℤ a ≤ℤ a)
unfolding half_ℤ
half_bounds (pos n) h = omega arith
half_bounds (negsuc n) h = absurd (omega arith)

-- An element whose frame has a size, neither side negative, is aimed at in a point of its frame.
centre_of-Inside :
    (k : RawKeys) (f : Frame)
    → k.frame ≡ some f
    → has_no_size f ≡ false
    → pos 0 ≤ℤ f.width
    → pos 0 ≤ℤ f.height
    → (c : ℤ × ℤ) × (centre_of k ≡ some c) × Inside f c.0 c.1
unfolding centre_of
centre_of-Inside k f framed sized wide tall = (
  (f.x +ℤ half_ℤ f.width, f.y +ℤ half_ℤ f.height),
  rw (framed, sized) refl,
  let across = half_bounds f.width wide in
      let down = half_bounds f.height tall in
      record {
        left = omega int_laws;
        right = omega int_laws;
        top = omega int_laws;
        bottom = omega int_laws;
      },
)
