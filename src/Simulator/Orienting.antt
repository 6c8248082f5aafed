-- ===== src/Simulator/Orienting.antt =====
-- packages/simgadget/src/simulator.ts: the orientation of a handle, `noteRootFrame`,
-- `logicalDimensions`, `portraitTransform`, `probeOrientation` and `detectOrientation`. What the
-- screen answers is told from outside.
pub mod Probing
pub mod Agreement
use simgadget.Prelude.{
  if◌then◌else◌, Bool, false, not, ◌&&◌, List, [], ◌∷◌, Option, none, some, filter,
}
use simgadget.Prelude.Int.{ℤ, pos, ltb_ℤ, eqb_ℤ}
use simgadget.Prelude.Text.{Text, text_eq}
use simgadget.Prelude.Forest.{nil, cons}
use simgadget.Ax.Element.{Frame, RawTree, AxKeys}
use simgadget.Ax.Geometry.{centre_of_frame}
use simgadget.Ax.Orientation.{
  Orientation, portrait, get_effective_orientation, transform_point_to_portrait, reconcile_hint,
  candidate_orientations,
}
use simgadget.Ax.Probe.{Candidate, collect_probe_candidates, uniquely_labelled}

-- The fields of a handle that coordinates depend on.
pub record Handle : Type 0 where
  pub screen_dims : Option (ℤ × ℤ)
  pub orientation_hint : Orientation

-- `elements[0]?.frame`
abbrev pub root_frame : RawTree → Option Frame
root_frame nil = none
root_frame (cons el children rest) = el.frame

-- `frame.width && frame.height`
abbrev pub sized : Frame → Bool
sized f = not (eqb_ℤ f.width (pos 0)) && not (eqb_ℤ f.height (pos 0))

-- `noteRootFrame`
unfoldable pub note_root_frame : Frame → Handle → Handle
note_root_frame frame h =
    if sized frame
    then record {
      screen_dims = some (frame.width, frame.height);
      orientation_hint = reconcile_hint h.orientation_hint (ltb_ℤ frame.height frame.width);
    }
    else h

abbrev note_if_sized : Option Frame → Handle → Handle
note_if_sized none h = h
note_if_sized (some frame) h = note_root_frame frame h

-- `logicalDimensions`, on the tree that `describeAll` gives if it is asked: the handle after it
-- has the dimensions.
logical_dimensions : RawTree → Handle → Handle
logical_dimensions described h = elim h.screen_dims [
  | some dims ↦ h
  | none ↦ note_if_sized (root_frame described) h
]

abbrev pub transformed : Handle → ℤ × ℤ → ℤ × ℤ
transformed h (x, y) = elim h.screen_dims [
  | none ↦ (x, y)
  | some (w, height) ↦
      transform_point_to_portrait x y (get_effective_orientation h.orientation_hint w height) w
        height
]

-- `toPortrait`, by `portraitTransform`: the handle after it, and the point.
unfoldable pub to_portrait : RawTree → Handle → ℤ × ℤ → Handle × (ℤ × ℤ)
unfolding logical_dimensions
to_portrait described h p =
    let measured = logical_dimensions described h in (measured, transformed measured p)

-- What the screen answers to a probe: the whole-screen read, or nothing where that fails, and the
-- point reads on the portrait screen, where nothing is an empty point or a failure.
pub record Screen : Type 0 where
  pub describe_all : Option RawTree
  pub read_point : ℤ × ℤ → Option AxKeys

-- `pointElement?.AXLabel === probe.label`
abbrev is_labelled : Text → Option AxKeys → Bool
is_labelled label none = false
is_labelled label (some element) = elim element.ax_label [ none ↦ false | some l ↦ text_eq l label ]

module _ (read_point : ℤ × ℤ → Option AxKeys) (w h : ℤ) where
  -- Whether a probe answers where its centre would be in an orientation.
  abbrev pub answers : Candidate → ℤ × ℤ → Orientation → Bool
  answers probe (x, y) o =
      is_labelled probe.label (read_point (transform_point_to_portrait x y o w h))

  -- The orientations that a probe matches; a probe without a centre is passed over.
  abbrev pub matches_at : Candidate → Option (ℤ × ℤ) → List Orientation → List Orientation
  matches_at probe none candidates = []
  matches_at probe (some centre) candidates = filter (answers probe centre) candidates

  pub matches : Candidate → List Orientation → List Orientation
  matches probe = matches_at probe (centre_of_frame (some probe.frame))

  -- `candidates[0]`
  abbrev pub first_of : List Orientation → Orientation
  first_of [] = portrait
  first_of (o ∷ os) = o

  -- One match is definitive; else the next probe is tried.
  abbrev pub settled : List Orientation → Orientation → Orientation
  settled [] rest = rest
  settled (o ∷ []) rest = o
  settled (o ∷ p ∷ os) rest = rest

  -- The loop over the probes.
  pub settle : List Orientation → List Candidate → Orientation
  unfolding matches
  settle candidates [] = first_of candidates
  settle candidates (probe ∷ probes) = settled (matches probe candidates) (settle candidates probes)

-- `probeOrientation` on a tree whose root has a frame.
abbrev probe_screen : (ℤ × ℤ → Option AxKeys) → RawTree → Frame → Orientation
probe_screen read_point tree root =
    if sized root
    then settle read_point root.width root.height
        (candidate_orientations (ltb_ℤ root.height root.width))
        (uniquely_labelled (collect_probe_candidates root.width root.height tree))
    else portrait

-- `probeOrientation`
pub probe_orientation : Screen → Orientation
unfolding settle
probe_orientation screen = elim screen.describe_all [
  | none ↦ portrait
  | some tree ↦ elim (root_frame tree) [
    | none ↦ portrait
    | some root ↦ probe_screen screen.read_point tree root
  ]
]

-- `detectOrientation`
pub detect_orientation : Screen → Handle → Handle
unfolding probe_orientation
detect_orientation screen h = record {
  screen_dims = none;
  orientation_hint = probe_orientation screen;
}
