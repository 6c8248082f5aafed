-- ===== src/Lifecycle/Boot.antt =====
-- packages/simgadget/src/lifecycle.ts: `waitUntilDriveable`. The clock is a parameter: how long
-- each wait takes is told from outside, and so is what each read of the accessibility tree gives.
pub mod Loop
use simgadget.Prelude.{
  ℕ, zero, suc, ◌+◌, ◌-◌, ◌/◌, if◌then◌else◌, Bool, true, false, ◌&&◌, ◌||◌, not, List, [], ◌∷◌,
  Option, none, some, leb, ltb, ◌==◌,
}

-- The constants, in milliseconds.
abbrev pub boot_ready_timeout_ms : ℕ
boot_ready_timeout_ms = 55000

abbrev pub boot_settle_ms : ℕ
boot_settle_ms = 8000

abbrev recovery_tail_ms : ℕ
recovery_tail_ms = 12000

abbrev bridge_recovery_min_poll_ms : ℕ
bridge_recovery_min_poll_ms = 8000

abbrev pub boot_poll_interval_ms : ℕ
boot_poll_interval_ms = 2000

-- `BootRecoveryCheck`
pub record BootRecoveryCheck : Type 0 where
  pub elapsed : ℕ
  pub budget : ℕ
  pub since_poll_start : ℕ

-- `shouldAttemptBootRecovery`; `budget - elapsed` may be negative there, and is small then too.
pub should_attempt_boot_recovery : BootRecoveryCheck → Bool
should_attempt_boot_recovery check =
    leb check.budget (recovery_tail_ms + check.elapsed)
    && ltb bridge_recovery_min_poll_ms check.since_poll_start

-- One turn of the loop, as the outside decides it: how long the read takes, and the root frame's
-- width and height where there is one; how long a restart takes, should there be one; and how much
-- longer than asked the sleep is.
pub record Turn : Type 0 where
  pub read_takes : ℕ
  pub frame : Option (ℕ × ℕ)
  pub restart_takes : ℕ
  pub oversleeps : ℕ

-- `ReadyResult`
pub record ReadyResult : Type 0 where
  pub ready : Bool
  pub waited_ms : ℕ
  pub recovery_tried : Bool
  pub recovered : Bool

-- What the outside sees: the reads, the restarts, and that the simulator is marked as having
-- answered, each with its time.
pub data Act : Type 0 where
  reads restarts marks_answered : ℕ → Act

-- `frame && frame.width && frame.height`
abbrev pub usable_frame : Option (ℕ × ℕ) → Bool
usable_frame none = false
usable_frame (some (w, h)) = not (w == 0) && not (h == 0)

-- When the wait started, when the polling did, and the budget.
pub record Waiting : Type 0 where
  pub started : ℕ
  pub polling_started : ℕ
  pub budget : ℕ

-- Whether a restart is due at a time.
abbrev pub due : Waiting → Bool → ℕ → Bool
due w tried now =
    not tried
    && should_attempt_boot_recovery (record {
      elapsed = now - w.started;
      budget = w.budget;
      since_poll_start = now - w.polling_started;
    })

-- The `while` loop at a time, on the turns that the outside has for it and on fuel; out of fuel it
-- returns nothing.
pub poll : ℕ → (ℕ → Turn) → ℕ → Waiting → Bool → ℕ → Option (List Act × ReadyResult)
unfolding should_attempt_boot_recovery
poll zero turns n w tried now = none
poll (suc fuel) turns n w tried now =
    let turn = turns n in
    let read_at = now + turn.read_takes in
    let restarting = due w tried read_at in
    let slept =
      (if restarting then read_at + turn.restart_takes else read_at)
      + boot_poll_interval_ms
      + turn.oversleeps in
    let rest = poll fuel turns (suc n) w (tried || restarting) slept in
    if ltb (now - w.started) w.budget
    then if usable_frame turn.frame
      then some (
        reads now ∷ marks_answered read_at ∷ [],
        record {
          ready = true;
          waited_ms = read_at - w.started;
          recovery_tried = tried;
          recovered = tried;
        },
      )
      else elim rest [
        | none ↦ none
        | some (acts, result) ↦
            some (reads now ∷ (if restarting then restarts read_at ∷ acts else acts), result)
      ]
    else some (
      [],
      record {
        ready = false;
        waited_ms = now - w.started;
        recovery_tried = tried;
        recovered = false;
      },
    )

-- `waitUntilDriveable`: the wait for the boot status, which ends by its cap, and the settle, with
-- how much longer than asked it takes; then the loop.
pub wait_until_driveable : ℕ → (ℕ → Turn) → ℕ → ℕ → ℕ → ℕ → Option (List Act × ReadyResult)
unfolding poll
wait_until_driveable fuel turns timeout started boot_status_takes oversleeps =
    let polling = started + boot_status_takes + boot_settle_ms + oversleeps in
    poll fuel turns 0 (record { started = started; polling_started = polling; budget = timeout })
      false polling

-- As many turns as the budget has intervals, and one for the check that ends the loop.
abbrev pub enough_fuel : ℕ → ℕ
enough_fuel timeout = suc (suc (timeout / boot_poll_interval_ms))
