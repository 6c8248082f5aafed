-- ===== src/Simulator/Reading.antt =====
-- packages/simgadget/src/simulator.ts: `withAccessibilityRecovery`, run by one handle at a time.
-- What the world answers is an argument: the k-th read, restart and probe, and how long each takes.
pub mod Probing
pub mod Retrying
pub mod Report
use simgadget.Prelude.{
  ℕ, zero, suc, ◌+◌, ltb, if◌then◌else◌, Bool, true, false, not, Option, none, some,
}
use simgadget.Prelude.Text.{Text}
use simgadget.Ax.Recovery.{at_least, is_wedge_error, should_recover}
use simgadget.Simulator.Recovery.{recovery_cooldown_ms, since}

-- What a read gives: a value, or an error by its message.
pub data Reply {ℓ} (A : Type ℓ) : Type ℓ where
  value : A → Reply A
  error : Text → Reply A

pub record Outside {ℓ} (A : Type ℓ) : Type ℓ where
  pub read : ℕ → Reply A
  pub read_ms : ℕ → ℕ
  pub restart : ℕ → Bool
  pub restart_ms : ℕ → ℕ
  pub probe : ℕ → Bool
  pub probe_ms : ℕ → ℕ

-- The handle's view of its simulator: the clock, what the registry has of it (no attempt is in
-- flight but its own), and how often each thing was done.
pub record Handle : Type 0 where
  pub now : ℕ
  pub answered : Bool
  pub last : Option ℕ
  pub reads : ℕ
  pub restarts : ℕ
  pub probes : ℕ

-- What a caller gets: the value, the read's own error, or `SimulatorNotAnsweringError` with its
-- `recoveryTried`.
pub data Outcome {ℓ} (A : Type ℓ) : Type ℓ where
  done : A → Outcome A
  failed : Text → Outcome A
  not_answering : Bool → Outcome A

-- `RECOVERY_PROBE_INTERVAL_MS`, `RECOVERY_PROBE_TIMEOUT_MS`, `POST_RECOVERY_READ_DELAY_MS`,
-- `POST_RECOVERY_READ_ATTEMPTS`
abbrev pub probe_interval_ms : ℕ
probe_interval_ms = 1000

abbrev pub probe_timeout_ms : ℕ
probe_timeout_ms = 20000

abbrev pub read_delay_ms : ℕ
read_delay_ms = 500

abbrev pub read_attempts : ℕ
read_attempts = 3

module _ {ℓ} {A : Type ℓ} (o : Outside A) where
  -- The loop `do { … } while (!recovered && now < deadline)`; `none` means that the fuel ran out.
  pub probe_until : ℕ → ℕ → Handle → Option (Handle × Bool)
  probe_until zero deadline h = none
  probe_until (suc fuel) deadline h =
      let asked = record h {
        now = h.now + probe_interval_ms + o.probe_ms h.probes;
        probes = suc h.probes;
      } in
      let again = probe_until fuel deadline asked in
      if o.probe h.probes
      then some (asked, true)
      else if ltb asked.now deadline
      then again
      else some (asked, false)

  abbrev closing : Option (Handle × Bool) → Option (Handle × Bool)
  closing none = none
  closing (some (h, recovered)) = some (record h { last = some h.now }, recovered)

  -- `recoverWedgedAccessibility`: the restart, the probes, and the time noted at its end. The
  -- fuel is the number of probes that fit in the window.
  pub recover : Handle → Option (Handle × Bool)
  unfolding probe_until
  recover h =
      let restarted = record h {
        now = h.now + o.restart_ms h.restarts;
        restarts = suc h.restarts;
      } in
      let probed = probe_until 20 (restarted.now + probe_timeout_ms) restarted in
      if not (at_least recovery_cooldown_ms (since h.now h.last))
      then some (h, false)
      else if o.restart h.restarts
      then closing probed
      else closing (some (restarted, false))

  abbrev pub after_read : Handle → Handle
  after_read h = record h { now = h.now + o.read_ms h.reads; reads = suc h.reads }

  -- The loop of attempts after a recovery, by the attempts left.
  pub retry : ℕ → Handle → Handle × Outcome A
  retry zero h = (h, not_answering true)
  retry (suc left) h =
      let waited = record h { now = h.now + read_delay_ms } in
      let asked = after_read waited in
      let again = retry left asked in
      elim (o.read h.reads) [
        | value a ↦ (asked, done a)
        | error e ↦ if is_wedge_error e then again else (asked, failed e)
      ]

  abbrev pub recovered_or_not : Option (Handle × Bool) → Option (Handle × Outcome A)
  unfolding retry
  recovered_or_not none = none
  recovered_or_not (some (h, true)) = some (retry read_attempts h)
  recovered_or_not (some (h, false)) = some (h, not_answering true)

  -- `withAccessibilityRecovery`
  pub with_accessibility_recovery : Handle → Option (Handle × Outcome A)
  unfolding retry
  with_accessibility_recovery h =
      let asked = after_read h in
      elim (o.read h.reads) [
        | value a ↦ some (asked, done a)
        | error e ↦
            if not (is_wedge_error e)
            then some (asked, failed e)
            else if should_recover asked.answered e (since asked.now asked.last)
                recovery_cooldown_ms
            then recovered_or_not (recover asked)
            else some (asked, not_answering false)
      ]
