-- ===== src/Simulator/Describing.antt =====
-- packages/simgadget/src/simulator.ts: `describeScreen`, `diagnoseEmptyTree`,
-- `readScreenTree` and `screenFrom`.
-- Each read is told from outside, with the cures that run beneath it.
pub mod Laws
use simgadget.Prelude.{
  ℕ, zero, suc, if◌then◌else◌, Bool, true, false, List, [], ◌∷◌, ◌++◌, Option, none, some,
}
use simgadget.Prelude.Int.{ℤ, pos}
use simgadget.Prelude.Text.{Text}
use simgadget.Prelude.Forest.{nil, cons, map_forest}
use simgadget.Prelude.Run.{Reply, value, throws, Run, done, act, and_then}
use simgadget.Ax.Element.{Frame, RawTree, AxTree, to_raw, is_degenerate_tree}
use simgadget.Ax.Prune.{prune_tree}
use simgadget.Ax.Remote.{translate_remote_subtrees}

pub data Verdict : Type 0 where
  booting unrecoverable : Verdict

-- `AccessibilityUnreadableError`, `SimulatorNotFoundError`, or another error that a read ends with.
pub data Failure : Type 0 where
  unreadable : Verdict → Failure
  not_found : Failure
  failed : Text → Failure

-- Whether the simulator was deleted, and what the outside answers: the up to three reads of the screen in their places, the unpruned read
-- with its ladder of cures, the point reads, and whether restarting the bridge helps.
pub record Outside : Type 0 where
  pub deleted : Bool
  pub first_read : Reply Failure RawTree
  pub describe_all : Reply Failure RawTree
  pub second_read : Reply Failure RawTree
  pub point_answers : ℕ → Bool
  pub restart_helps : Bool
  pub last_read : Reply Failure RawTree

pub data Act : Type 0 where
  reads_screen describes_all recovers : Act
  probes_point : ℕ → Act
  notes_root_frame : Frame → Act

pub record ScreenRead : Type 0 where
  pub elements : AxTree
  pub screen : ℤ × ℤ

-- The end of `readScreenTree`.
abbrev pub pruned : Reply Failure RawTree → Reply Failure AxTree
pruned (throws f) = throws f
pruned (value tree) = value (prune_tree (translate_remote_subtrees tree))

-- `isDegenerateTree` on pruned elements
unfoldable pub is_degenerate : AxTree → Bool
is_degenerate elements = is_degenerate_tree (map_forest to_raw elements)

abbrev pub read_screen_tree : Reply Failure RawTree → Run Act Failure AxTree
read_screen_tree reply = act reads_screen (pruned reply)

-- `DIAGNOSTIC_POINT_PROBES`
abbrev pub diagnostic_point_probes : ℕ
diagnostic_point_probes = 3

-- The loop of `diagnoseEmptyTree`, by the attempts left: whether a point answered.
unfoldable pub probe_points : (ℕ → Bool) → ℕ → ℕ → List Act × Bool
probe_points answers zero attempt = ([], false)
probe_points answers (suc left) attempt =
    let rest = probe_points answers left (suc attempt) in
    if answers attempt
    then (probes_point attempt ∷ [], true)
    else (probes_point attempt ∷ rest.0, rest.1)

-- The verdict of a diagnosis, and whether its cure took.
abbrev pub diagnosis : Bool → Bool → Verdict × Bool
diagnosis false recovered = (booting, false)
diagnosis true recovered = (unrecoverable, recovered)

abbrev pub or_unreadable : Verdict → AxTree → Run Act Failure AxTree
or_unreadable verdict elements =
    if is_degenerate elements then done (throws (unreadable verdict)) else done (value elements)

-- The frame of the first element.
abbrev pub root_frame : AxTree → Option Frame
root_frame nil = none
root_frame (cons root children rest) = root.frame

abbrev pub screen_from : AxTree → Run Act Failure ScreenRead
screen_from elements = elim (root_frame elements) [
  | none ↦ done (value (record { elements = elements; screen = (pos 0, pos 0) }))
  | some frame ↦
      act (notes_root_frame frame)
        (value (record { elements = elements; screen = (frame.width, frame.height) }))
]

module _ (o : Outside) where
  abbrev pub probed : List Act × Bool
  unfolding probe_points
  probed = probe_points o.point_answers diagnostic_point_probes 0

  -- `diagnoseEmptyTree`
  unfoldable pub diagnose_empty_tree : Run Act Failure (Verdict × Bool)
  diagnose_empty_tree = record {
    acts = probed.0 ++ (if probed.1 then recovers ∷ [] else []);
    ended = value (diagnosis probed.1 o.restart_helps);
  }

  -- After the diagnosis: one more read where its cure took.
  abbrev pub conclude : AxTree → Verdict × Bool → Run Act Failure AxTree
  conclude elements (verdict, recovered) =
      and_then (if recovered then read_screen_tree o.last_read else done (value elements))
        λ now. or_unreadable verdict now

  -- After the ladder of cures.
  abbrev pub diagnosed : AxTree → Run Act Failure AxTree
  unfolding diagnose_empty_tree
  diagnosed elements =
      if is_degenerate elements
      then and_then diagnose_empty_tree (conclude elements)
      else done (value elements)

  -- What follows `describeAll`.
  abbrev pub read_again : AxTree → RawTree → Run Act Failure AxTree
  unfolding diagnose_empty_tree
  read_again elements all =
      and_then
        (if is_degenerate_tree all then done (value elements) else read_screen_tree o.second_read)
        diagnosed

  -- What follows the first read.
  abbrev pub cured : AxTree → Run Act Failure AxTree
  unfolding diagnose_empty_tree
  cured elements =
      if is_degenerate elements
      then and_then (act describes_all o.describe_all) (read_again elements)
      else done (value elements)

  unfoldable pub describe_screen : Run Act Failure ScreenRead
  unfolding diagnose_empty_tree
  describe_screen =
      if o.deleted
      then done (throws not_found)
      else and_then (and_then (read_screen_tree o.first_read) cured) screen_from
