-- ===== src/Simulator/Ladder.antt =====
-- packages/simgadget/src/simulator.ts: the read within `describeAll`, with its ladder of cures. What
-- is thrown is an error by its message, which `withAccessibilityRecovery` around it judges.
pub mod Laws
use simgadget.Prelude.{if◌then◌else◌, Bool, [], ◌∷◌}
use simgadget.Prelude.Text.{Text}
use simgadget.Prelude.Run.{Reply, value, Run, done, act, after, and_then}
use simgadget.Ax.Element.{RawTree, is_degenerate_tree}

-- What is answered: the up to three reads in their places, the shutdown of the companion, whether
-- the registry has the simulator as one that has answered, and whether a restart of its bridge helps.
pub record Rungs : Type 0 where
  pub first : Reply Text RawTree
  pub shutdown : Reply {0, 0} Text Unit
  pub second : Reply Text RawTree
  pub answered : Bool
  pub recovered : Bool
  pub third : Reply Text RawTree

pub data Rung : Type 0 where
  reads marks_answered shuts_companion_down recovers : Rung

-- `usable(elements)`, for its effect: what is usable marks the simulator.
abbrev pub marked : RawTree → Run Rung Text RawTree
marked elements =
    if is_degenerate_tree elements
    then done (value elements)
    else act marks_answered (value elements)

-- `if (usable(elements)) return elements`, and what follows it.
abbrev pub unless_usable : Run Rung Text RawTree → RawTree → Run Rung Text RawTree
unless_usable rest elements = if is_degenerate_tree elements then rest else marked elements

module _ (o : Rungs) where
  -- The last rung, where `elements` is what the second read gave.
  abbrev pub bridge_rung : RawTree → Run Rung Text RawTree
  bridge_rung elements =
      if o.answered
      then after (recovers ∷ [])
          (if o.recovered then and_then (act reads o.third) marked else done (value elements))
      else done (value elements)

  abbrev pub second_read : RawTree → Run Rung Text RawTree
  second_read elements = unless_usable (bridge_rung elements) elements

  abbrev pub companion_rung : Run Rung Text RawTree
  companion_rung =
      and_then (act shuts_companion_down o.shutdown)
        λ down. and_then (act reads o.second) second_read

  unfoldable pub climb : Run Rung Text RawTree
  climb = and_then (act reads o.first) (unless_usable companion_rung)
