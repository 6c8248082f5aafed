-- ===== src/Simulator/Sizing.antt =====
-- packages/simgadget/src/simulator.ts: `screenSize`, `portraitPointDimensions`,
-- `portraitResizeDimensions` and `captureOrientation`. Each read is told from outside.
pub mod Laws
use simgadget.Prelude.{if◌then◌else◌, Bool, ◌||◌, Option, none, some}
use simgadget.Prelude.Int.{ℤ, pos, eqb_ℤ, leb_ℤ}
use simgadget.Prelude.Forest.{nil, cons}
use simgadget.Prelude.Run.{Reply, value, throws, Run, done, act, and_then}
use simgadget.Ax.Element.{Frame, RawTree, is_degenerate_tree}
use simgadget.Ax.Orientation.{Orientation, auto, get_effective_orientation}
use simgadget.Simulator.Describing.{
  Verdict, Failure, unreadable, not_found, Outside, Act, describes_all, notes_root_frame,
  diagnose_empty_tree,
}

-- What the outside answers: as to `describeScreen`, and the second read without pruning.
pub record Sizer : Type 0 where
  pub outside : Outside
  pub describe_again : Reply Failure RawTree

-- The frame of the first element.
abbrev pub first_frame : RawTree → Option Frame
first_frame nil = none
first_frame (cons root children rest) = root.frame

-- `screenFrom`
abbrev pub size_of : Option Frame → Run Act Failure (ℤ × ℤ)
size_of none = done (value (pos 0, pos 0))
size_of (some frame) = act (notes_root_frame frame) (value (frame.width, frame.height))

abbrev pub if_readable : Verdict → RawTree → Run Act Failure RawTree
if_readable verdict elements =
    if is_degenerate_tree elements
    then done (throws (unreadable verdict))
    else done (value elements)

-- `portraitPoints`, and what `portraitPointDimensions` gives.
abbrev pub portrait_points : Option (ℤ × ℤ) → Option (ℤ × ℤ)
portrait_points none = none
portrait_points (some (w, h)) = if eqb_ℤ w (pos 0) || eqb_ℤ h (pos 0) then none else some (w, h)

-- `portraitPointDimensions`, with what is cached, and what `describe` answers.
unfoldable pub portrait_point_dimensions :
    Option (ℤ × ℤ)
    → Reply Failure (Option (ℤ × ℤ))
    → Option (ℤ × ℤ) × Reply Failure (Option (ℤ × ℤ))
portrait_point_dimensions (some cached) described = (some cached, value (some cached))
portrait_point_dimensions none (throws f) = (none, throws f)
portrait_point_dimensions none (value dimensions) =
    (portrait_points dimensions, value (portrait_points dimensions))

-- `pointDimensions`
abbrev pub upright : ℤ × ℤ → ℤ × ℤ
upright (w, h) = if leb_ℤ w h then (w, h) else (h, w)

-- `captureOrientation`, where the dimensions are those that a read gives.
unfoldable pub capture_orientation :
    Orientation → Reply Failure (Option (ℤ × ℤ)) → Reply Failure Orientation
capture_orientation auto (throws f) = throws f
capture_orientation auto (value none) = value (get_effective_orientation auto (pos 0) (pos 0))
capture_orientation auto (value (some (w, h))) = value (get_effective_orientation auto w h)
capture_orientation hint dimensions = value (get_effective_orientation hint (pos 0) (pos 0))

module _ (s : Sizer) where
  -- After the diagnosis: one more read where its cure took.
  abbrev pub size_again : RawTree → Verdict × Bool → Run Act Failure RawTree
  size_again elements (verdict, recovered) =
      and_then (if recovered then act describes_all s.describe_again else done (value elements))
        (if_readable verdict)

  abbrev pub diagnosed : RawTree → Run Act Failure RawTree
  diagnosed elements =
      if is_degenerate_tree elements
      then and_then (diagnose_empty_tree s.outside) (size_again elements)
      else done (value elements)

  -- `screenSize`
  unfoldable pub screen_size : Run Act Failure (ℤ × ℤ)
  screen_size =
      if s.outside.deleted
      then done (throws not_found)
      else and_then (and_then (act describes_all s.outside.describe_all) diagnosed)
          (λ elements. size_of (first_frame elements))

  abbrev pub resize_from : Option (ℤ × ℤ) × Reply Failure (Option (ℤ × ℤ)) → Run Act Failure (ℤ × ℤ)
  unfolding screen_size
  resize_from (cached, throws f) = done (throws f)
  resize_from (cached, value (some dimensions)) = done (value dimensions)
  resize_from (cached, value none) = and_then screen_size λ size. done (value (upright size))

  -- `portraitResizeDimensions`
  unfoldable pub portrait_resize_dimensions :
      Option (ℤ × ℤ) → Reply Failure (Option (ℤ × ℤ)) → Run Act Failure (ℤ × ℤ)
  unfolding portrait_point_dimensions
  portrait_resize_dimensions cached described =
      resize_from (portrait_point_dimensions cached described)
