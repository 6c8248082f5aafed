-- ===== src/Lifecycle/Boot/Loop.antt =====
-- The loop ends, restarts at most once and late, and reports what happened.
use simgadget.Prelude.{
  ℕ, zero, suc, ◌+◌, ◌-◌, ◌*◌, ◌/◌, ◌≤◌, ◌<◌, ◌≡◌, refl, if◌then◌else◌, Bool, true, false, ◌&&◌,
  ◌||◌, List, [], ◌∷◌, Option, some, ltb, arith, All, Bool-cases, inl, inr,
}
use simgadget.Lifecycle.Boot.{
  boot_poll_interval_ms, boot_settle_ms, should_attempt_boot_recovery, Turn, ReadyResult, Act,
  reads, restarts, marks_answered, usable_frame, Waiting, due, poll, wait_until_driveable,
  enough_fuel,
}

abbrev restart_count : List Act → ℕ
restart_count [] = 0
restart_count (restarts t ∷ acts) = suc (restart_count acts)
restart_count (_ ∷ acts) = restart_count acts

abbrev answer_count : List Act → ℕ
answer_count [] = 0
answer_count (marks_answered t ∷ acts) = suc (answer_count acts)
answer_count (_ ∷ acts) = answer_count acts

-- A restart is made in the last 12 seconds of the budget or later, and after more than 8 seconds of
-- polling.
abbrev Late : Waiting → Act → Type 0
Late w (restarts t) = (w.budget ≤ 12000 + (t - w.started)) × (8000 < t - w.polling_started)
Late w (reads t) = Unit
Late w (marks_answered t) = Unit

abbrev one_if : Bool → ℕ
one_if true = 1
one_if false = 0

-- What a wait that begins with `tried` did and reported.
pub record Report (w : Waiting) (tried : Bool) (acts : List Act) (result : ReadyResult)
    : Type 0 where
  pub restarted : one_if tried + restart_count acts ≡ one_if result.recovery_tried
  late : All (Late w) acts
  pub answered : answer_count acts ≡ one_if result.ready
  pub recovered : result.recovered ≡ (result.ready && result.recovery_tried)
  pub waited : result.ready ≡ false → w.budget ≤ result.waited_ms

due-Late :
    (w : Waiting) (tried : Bool) (t : ℕ)
    → due w tried t ≡ true
    → (tried ≡ false) × Late w (restarts t)
unfolding should_attempt_boot_recovery
due-Late w tried t h = (ground arith, (ground arith, ground arith))

-- When the turn's read is over, and when its sleep is.
abbrev read_at : Turn → ℕ → ℕ
read_at turn now = now + turn.read_takes

abbrev slept : Waiting → Bool → Turn → ℕ → ℕ
slept w tried turn now =
    (if due w tried (read_at turn now)
      then read_at turn now + turn.restart_takes
      else read_at turn now)
    + boot_poll_interval_ms
    + turn.oversleeps

slept-later :
    (w : Waiting) (tried : Bool) (turn : Turn) (now : ℕ) → now + 2000 ≤ slept w tried turn now
slept-later w tried turn now = elim (Bool-cases (due w tried (read_at turn now))) [
  | inl is_due ↦ rw (is_due, slept) (ground arith)
  | inr not_due ↦ rw (not_due, slept) (ground arith)
]

-- The wait returns, and what it returns is so.
abbrev pub Reports : Waiting → Bool → Option (List Act × ReadyResult) → Type 0
Reports w tried outcome =
    (acts : List Act) × ((result : ReadyResult) × ((outcome ≡ some (acts, result))
        × Report w tried acts result))

restarted_once :
    (tried now_due : Bool) (acts : List Act) (result : ReadyResult)
    → tried ≡ false
    → now_due ≡ true
    → one_if (tried || now_due) + restart_count acts ≡ one_if result.recovery_tried
    → one_if tried + suc (restart_count acts) ≡ one_if result.recovery_tried
restarted_once tried now_due acts result first is_due h = ground arith

as_before :
    (tried now_due : Bool) (acts : List Act) (result : ReadyResult)
    → now_due ≡ false
    → one_if (tried || now_due) + restart_count acts ≡ one_if result.recovery_tried
    → one_if tried + restart_count acts ≡ one_if result.recovery_tried
as_before tried now_due acts result not_due h = ground arith

-- A turn whose read gives no frame, when the wait after it is known.
silent-Report :
    (k : ℕ) (turns : ℕ → Turn) (n : ℕ) (w : Waiting) (tried : Bool) (now : ℕ)
    → ltb (now - w.started) w.budget ≡ true
    → usable_frame (turns n).frame ≡ false
    → Reports w (tried || due w tried (read_at (turns n) now)) (
        poll k turns
          (suc n)
          w
          (tried || due w tried (read_at (turns n) now))
          (slept w tried (turns n) now))
    → Reports w tried (poll (suc k) turns n w tried now)
unfolding poll
silent-Report k turns n w tried now going silent (acts, (result, (same, report))) =
    elim (Bool-cases (due w tried (read_at (turns n) now))) [
      | inl is_due ↦
          let (first, late) = due-Late w tried (read_at (turns n) now) is_due in
          rw (going, silent, same, is_due, poll)
            (
              _,
              (
                _,
                (
                  refl,
                  record {
                    restarted = restarted_once tried _ acts result first is_due report.restarted;
                    late = (tt, (late, report.late));
                    answered = report.answered;
                    recovered = report.recovered;
                    waited = report.waited;
                  },
                ),
              ),
            )
      | inr not_due ↦
          rw (going, silent, same, not_due, poll)
            (
              _,
              (
                _,
                (
                  refl,
                  record {
                    restarted = as_before tried _ acts result not_due report.restarted;
                    late = (tt, report.late);
                    answered = report.answered;
                    recovered = report.recovered;
                    waited = report.waited;
                  },
                ),
              ),
            )
    ]

-- A turn, when what holds if its read gives no frame is known.
turn-Report :
    (k : ℕ) (turns : ℕ → Turn) (n : ℕ) (w : Waiting) (tried : Bool) (now : ℕ)
    → (ltb (now - w.started) w.budget ≡ true
        → usable_frame (turns n).frame ≡ false
        → Reports w tried (poll (suc k) turns n w tried now))
    → Reports w tried (poll (suc k) turns n w tried now)
unfolding poll
turn-Report k turns n w tried now silent_case = elim (Bool-cases (ltb (now - w.started) w.budget)) [
  | inr over ↦
      rw (over, poll)
        (
          [],
          (
            _,
            (
              refl,
              record {
                restarted = ground arith;
                late = tt;
                answered = refl;
                recovered = refl;
                waited = λ e. ground arith;
              },
            ),
          ),
        )
  | inl going ↦ elim (Bool-cases (usable_frame (turns n).frame)) [
    | inl answered ↦
        rw (going, answered, poll)
          (
            _,
            (
              _,
              (
                refl,
                record {
                  restarted = ground arith;
                  late = (tt, (tt, tt));
                  answered = refl;
                  recovered = refl;
                  waited = λ e. cc;
                },
              ),
            ),
          )
    | inr silent ↦ silent_case going silent
  ]
]

poll-Report :
    (k : ℕ) (turns : ℕ → Turn) (n : ℕ) (w : Waiting) (tried : Bool) (now : ℕ)
    → w.started ≤ now
    → w.budget ≤ (now - w.started) + 2000 * k
    → Reports w tried (poll (suc k) turns n w tried now)
poll-Report zero turns n w tried now begun enough =
    turn-Report zero turns n w tried now (λ going silent. absurd (ground arith))
poll-Report (suc k) turns n w tried now begun enough =
    turn-Report (suc k) turns n w tried now λ going silent.
      let later = slept-later w tried (turns n) now in
      silent-Report (suc k) turns n w tried now going silent (
        poll-Report k turns (suc n) w (tried || due w tried (read_at (turns n) now))
          (slept w tried (turns n) now) (omega arith) (omega arith))

-- Whatever the reads give and however long everything takes, the wait returns within as many turns
-- as its budget has intervals of two seconds. It restarts the bridge at most once, only in the last
-- 12 seconds of the budget or later and after more than 8 seconds of polling, and says whether it
-- did; it marks the simulator as having answered once if it reports that it is ready, and never if
-- not; it reports a recovery exactly if it is ready after a restart; and if it is not ready then it
-- has used up its budget.
pub wait_until_driveable-Report :
    (turns : ℕ → Turn) (timeout started boot_status_takes oversleeps : ℕ)
    → Reports
        (record {
          started = started;
          polling_started = started + boot_status_takes + boot_settle_ms + oversleeps;
          budget = timeout;
        })
        false
        (wait_until_driveable
          (enough_fuel timeout)
          turns
          timeout
          started
          boot_status_takes
          oversleeps)
unfolding wait_until_driveable
wait_until_driveable-Report turns timeout started boot_status_takes oversleeps =
    poll-Report (suc (timeout / 2000)) turns 0
      (record {
        started = started;
        polling_started = started + boot_status_takes + boot_settle_ms + oversleeps;
        budget = timeout;
      })
      false (started + boot_status_takes + boot_settle_ms + oversleeps) (omega arith) (omega arith)
