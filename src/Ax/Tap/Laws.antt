-- ===== src/Ax/Tap/Laws.antt =====
-- What the rules of a tap guarantee.
use simgadget.Prelude.{◌≡◌, ◌≢◌, true, false, Option, none, some, arith}
use simgadget.Prelude.Text.{Text, text_eq_iff}
use simgadget.Ax.Element.{Frame, AxKeys, to_raw, opt_str}
use simgadget.Ax.Match.{encloses, same_element, same_id, same_place}
use simgadget.Ax.Tap.{hit_test_reaches, normal_label, frame_inside, same_given_id}

same_given_id-same_id :
    (a b : Option Text) → same_given_id a b ≡ true → same_id (opt_str a) (opt_str b) ≡ true
same_given_id-same_id none b h = cc
same_given_id-same_id (some a) none h = cc
same_given_id-same_id (some a) (some b) h = ground (arith, text_eq_iff a b)

frame_inside-same_place : (a b : Option Frame) → frame_inside a b ≡ true → same_place a b ≡ true
frame_inside-same_place none b h = cc
frame_inside-same_place (some a) none h = cc
frame_inside-same_place (some a) (some b) h = ground arith

-- What a hit test accepts, `sameElement` accepts too; so the hit test is the stricter of the two.
hit_test_reaches-same_element :
    (target point : AxKeys)
    → hit_test_reaches target (some point) ≡ true
    → same_element (to_raw target) (to_raw point) ≡ true
unfolding hit_test_reaches same_element to_raw
hit_test_reaches-same_element target point h = ground (
  arith,
  same_given_id-same_id target.ax_unique_id point.ax_unique_id,
  text_eq_iff (normal_label target) (normal_label point),
  frame_inside-same_place target.frame point.frame,
)

-- A cover is refused: something drawn over the target that bears another name, or none, and sticks
-- out of it, does not count as the target, although it may enclose it.
hit_test_refuses_cover :
    (target point : AxKeys) (t p : Frame)
    → target.frame ≡ some t
    → point.frame ≡ some p
    → same_given_id target.ax_unique_id point.ax_unique_id ≡ false
    → normal_label target ≢ normal_label point
    → encloses t p ≡ false
    → hit_test_reaches target (some point) ≡ false
unfolding hit_test_reaches
hit_test_refuses_cover target point t p tf pf other_id other_label out =
    ground (arith, text_eq_iff (normal_label target) (normal_label point))
