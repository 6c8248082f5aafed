-- ===== src/Ax/Locate.antt =====
-- packages/simgadget/src/ax/tree.ts: `locateInTree`.
pub mod First
use simgadget.Prelude.{if◌then◌else◌, Bool, false, ◌&&◌, Option, none, some, [], ◌∷◌}
use simgadget.Prelude.Int.{ℤ, ◌-ℤ◌, ltb_ℤ, abs_ℤ}
use simgadget.Prelude.Text.{Text, text_eq}
use simgadget.Prelude.Forest.{nil, cons}
use simgadget.Ax.Element.{Frame, point, RawKeys, RawTree, Value, str}
use simgadget.Ax.Geometry.{frame_contains}

-- `candidate === s`, at a text `s`
abbrev is_str : Text → Value → Bool
is_str s (str t) = text_eq t s
is_str s _ = false

-- `label != null && label !== "" && candidate.AXLabel === label`; the key holds a text or nothing.
abbrev identifies_by_label : Value → Value → Bool
identifies_by_label (str []) candidate = false
identifies_by_label (str (c ∷ s)) candidate = is_str (c ∷ s) candidate
identifies_by_label _ candidate = false

-- `identifies`, of the wanted identifier and label and a candidate's.
abbrev identifies : Value → Value → RawKeys → Bool
identifies (str (c ∷ s)) label candidate = is_str (c ∷ s) candidate.ax_unique_id
identifies _ label candidate = identifies_by_label label candidate.ax_label

module _ (element : RawKeys) (wanted : Frame) (x y : ℤ) where
  -- The test in `visit`, of a candidate that has the frame.
  pub fits : RawKeys → Frame → Bool
  fits candidate frame =
      identifies element.ax_unique_id element.ax_label candidate
      && ltb_ℤ (abs_ℤ (frame.width -ℤ wanted.width)) point
      && ltb_ℤ (abs_ℤ (frame.height -ℤ wanted.height)) point
      && frame_contains frame x y

  abbrev hit_frame : RawKeys → Option Frame → Option Frame
  hit_frame candidate none = none
  hit_frame candidate (some frame) = if fits candidate frame then some frame else none

  pub hit : RawKeys → Option Frame
  hit candidate = hit_frame candidate candidate.frame

  -- The inner `visit`, over an array, with `found` passed along.
  pub visit : RawTree → Option Frame → Option Frame
  visit nil found = found
  visit (cons candidate children rest) found =
      let below = visit children none in
      let next : Option Frame = elim found [
        | some f ↦ some f
        | none ↦ elim (hit candidate) [ some f ↦ some f | none ↦ below ]
      ] in
      visit rest next

abbrev locate_frame : RawTree → RawKeys → ℤ → ℤ → Option Frame → Option Frame
locate_frame elements element x y none = none
locate_frame elements element x y (some wanted) = visit element wanted x y elements none

-- `locateInTree`
pub locate_in_tree : RawTree → RawKeys → ℤ → ℤ → Option Frame
unfolding visit
locate_in_tree elements element x y = locate_frame elements element x y element.frame
