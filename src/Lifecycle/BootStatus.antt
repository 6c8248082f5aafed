-- ===== src/Lifecycle/BootStatus.antt =====
-- packages/simgadget/src/lifecycle.ts: `waitForBootStatus`, from the start of its timer, as the events
-- that reach it: the process ends or cannot be run, the timer falls due, the code after the
-- promise goes on. What `exitCode` then holds comes with the event.
pub mod Laws
use simgadget.Prelude.{
  if◌then◌else◌, Bool, true, false, ◌&&◌, not, List, [], ◌∷◌, Option, none, some, is_some,
}
use simgadget.Prelude.Int.{ℤ}

pub data BootEvent : Type 0 where
  exits fails : Option ℤ → BootEvent
  falls_due resumes : BootEvent

-- `settled`, whether the timer is pending, `child.exitCode`, whether the call has gone on, and
-- whether it has killed the process.
pub record BootWait : Type 0 where
  pub settled : Bool
  pub armed : Bool
  pub exit_code : Option ℤ
  pub resumed : Bool
  pub killed : Bool

abbrev pub began : BootWait
began = record { settled = false; armed = true; exit_code = none; resumed = false; killed = false }

-- `settle`, which calls the timer off.
abbrev pub settle : BootWait → BootWait
settle w = if w.settled then w else record w { settled = true; armed = false }

-- An exit code that is there stays.
abbrev pub kept : Option ℤ → Option ℤ → Option ℤ
kept none code = code
kept (some n) code = some n

-- One event, or nothing where it cannot come: a timer that fell due or was called off, or the
-- rest of a call that is not settled or has gone on.
unfoldable pub step : BootEvent → BootWait → Option BootWait
step (exits code) w = some (settle (record w { exit_code = kept w.exit_code code }))
step (fails code) w = some (settle (record w { exit_code = kept w.exit_code code }))
step falls_due w = if w.armed then some (settle (record w { armed = false })) else none
step resumes w =
    if w.settled && not w.resumed
    then some (record w { resumed = true; killed = not (is_some w.exit_code) })
    else none

abbrev pub and_on : Option BootWait → (BootWait → Option BootWait) → Option BootWait
and_on none next = none
and_on (some w) next = next w

unfoldable pub wait_for_boot_status : List BootEvent → BootWait → Option BootWait
unfolding step
wait_for_boot_status [] w = some w
wait_for_boot_status (event ∷ later) w = and_on (step event w) (wait_for_boot_status later)
