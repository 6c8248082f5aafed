-- ===== src/Simulator/Recovery.antt =====
-- packages/simgadget/src/simulator.ts: curing a wedged accessibility bridge. Each segment of code
-- between two waits is one function; what the code waits for comes from outside.
pub mod Spacing
pub mod Shared
use simgadget.Prelude.{ℕ, suc, ◌+◌, ◌-◌, if◌then◌else◌, List, [], ◌∷◌, Option, none, some}
use simgadget.Prelude.Text.{Text}
use simgadget.Registry.{
  Registry, last_recovery_at, set_last_recovery_at, recovery_in_flight, set_recovery_in_flight,
  mark_answered,
}
use simgadget.Ax.Recovery.{Elapsed, at_least}

-- `RECOVERY_COOLDOWN_MS`
abbrev pub recovery_cooldown_ms : ℕ
recovery_cooldown_ms = 60000

-- What the handles of a process share: the clock, the registry, the promises made so far, and the
-- restarts ordered, each with its udid and time, the latest first.
pub record World : Type 0 where
  pub now : ℕ
  pub registry : Registry
  pub promises : ℕ
  pub restarts : List (Text × ℕ)

abbrev pub since : ℕ → Option ℕ → Elapsed
since now none = none
since now (some last) = some (now - last)

-- `msSinceRecovery`
pub ms_since_recovery : Text → World → Elapsed
ms_since_recovery udid w = since w.now (last_recovery_at udid w.registry)

-- What a caller of `recoverWedgedAccessibility` gets: somebody's attempt, or a refusal.
pub data Answer : Type 0 where
  shares : ℕ → Answer
  refused : Answer
  attempts : ℕ → Answer

-- The attempt starts: a restart is ordered, and the time and the promise are noted.
abbrev pub launch : Text → World → World
launch udid w = record w {
  registry =
      set_recovery_in_flight udid (some w.promises) (set_last_recovery_at udid w.now w.registry);
  promises = suc w.promises;
  restarts = (udid, w.now) ∷ w.restarts;
}

abbrev begin_unshared : Text → World → World × Answer
begin_unshared udid w =
    if at_least recovery_cooldown_ms (ms_since_recovery udid w)
    then (launch udid w, attempts w.promises)
    else (w, refused)

-- `recoverWedgedAccessibility` up to its wait.
pub begin_recovery : Text → World → World × Answer
unfolding ms_since_recovery
begin_recovery udid w = elim (recovery_in_flight udid w.registry) [
  | some promise ↦ (w, shares promise)
  | none ↦ begin_unshared udid w
]

-- Its `finally`, once the attempt is over.
pub end_recovery : Text → World → World
end_recovery udid w = record w {
  registry = set_last_recovery_at udid w.now (set_recovery_in_flight udid none w.registry);
}

-- What may happen between two waits: a handle on some udid finds its bridge wedged, an attempt
-- ends, a read is answered, or time passes.
pub data Event : Type 0 where
  wedged : Text → Event
  ended : Text → Event
  answered : Text → Event
  passed : ℕ → Event

pub step : World → Event → World
unfolding begin_recovery end_recovery
step w (wedged udid) = (begin_recovery udid w).0
step w (ended udid) = end_recovery udid w
step w (answered udid) = record w { registry = mark_answered udid w.registry }
step w (passed ms) = record w { now = w.now + ms }

pub run : World → List Event → World
unfolding step
run w [] = w
run w (e ∷ es) = run (step w e) es

-- A process that has just started.
abbrev pub new_world : ℕ → World
new_world start = record { now = start; registry = []; promises = 0; restarts = [] }
