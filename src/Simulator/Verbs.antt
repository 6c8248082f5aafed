-- ===== src/Simulator/Verbs.antt =====
-- packages/simgadget/src/simulator.ts: the verbs of a handle, as one caller runs them. What the
-- parts of it that other modules are about give, the boot loop, the transform, the lookup of the
-- sheet and the probe of the orientation, is told from outside, and so is the file system.
pub mod Acts
use simgadget.Prelude.{
  ℕ, if◌then◌else◌, Bool, true, false, [], ◌∷◌, ◌++◌, Option, none, some, get_or,
}
use simgadget.Prelude.Int.{ℤ}
use simgadget.Prelude.Text.{Text, text}
use simgadget.Prelude.Run.{Reply, value, throws, Run, done, act, after, and_then}
use simgadget.Ax.Element.{AxKeys}
use simgadget.Ax.Orientation.{Orientation}
use simgadget.Lifecycle.Boot.{ReadyResult, boot_ready_timeout_ms}
use simgadget.Lifecycle.Devices.{SimInfo}
use simgadget.Lifecycle.Printed.{parse_launch_pid, is_already_booted_error}
use simgadget.Simulator.Calls.{
  Failure, not_found, app_bundle_not_found, Act, closes_companion, shuts_companion_down,
  reopens_companion, forgets, stops_recording, waits_ready, Host, message_of, run_simctl,
  run_plainly, ask_device, xcrun,
}

-- What the verbs keep: whether the handle is deleted, whether it records, and `lastBoot`.
pub record Handle : Type 0 where
  pub udid : Text
  pub deleted : Bool
  pub recording : Bool
  pub last_boot : Option ReadyResult

pub record World : Type 0 where
  pub host : Host
  pub ready : ℕ → ReadyResult
  pub transform : Reply Failure (ℤ × ℤ → ℤ × ℤ)
  pub sheet : Reply Failure (Option AxKeys)
  pub adopted : Reply Failure Orientation
  pub resolve : Text → Text
  pub exists : Text → Bool

-- `assertNotDeleted`, and what follows it.
abbrev pub unless_deleted {ℓ} : {A : Type ℓ} → Handle → Run Act Failure A → Run Act Failure A
unless_deleted h r = if h.deleted then done (throws not_found) else r

-- A run whose failure is swallowed.
abbrev pub tolerated {ℓ} : {A : Type ℓ} → Run Act Failure A → Run Act Failure (Unit {0})
tolerated r = record { acts = r.acts; ended = value tt }

-- Where `simctl boot` has failed.
abbrev pub unless_booted : Host → Reply Failure Text → Reply {0, 0} Failure Unit
unfolding is_already_booted_error
unless_booted host (value stdout) = value tt
unless_booted host (throws error) =
    if is_already_booted_error (message_of host error) then value tt else throws error

abbrev pub or_missing : Option SimInfo → Run Act Failure Text
or_missing none = done (throws not_found)
or_missing (some device) = done (value device.state)

-- `recordBoot`, where there is a result.
abbrev pub recorded : Handle → Reply Failure ReadyResult → Handle
recorded h (value result) = record h { last_boot = some result }
recorded h (throws f) = h

-- The `catch` of `delete`, and what follows it.
abbrev pub erased : Handle → Reply Failure Text → Handle × Run Act Failure (Unit {0})
erased h (value stdout) = (record h { deleted = true }, act forgets (value tt))
erased h (throws not_found) = (record h { deleted = true }, act forgets (throws not_found))
erased h (throws error) = (h, act reopens_companion (throws error))

module _ (w : World) where
  -- `state`
  unfoldable pub state : Handle → Run Act Failure Text
  state h = unless_deleted h (and_then (ask_device w.host h.udid) or_missing)

  -- `showWindow`
  unfoldable pub show_window : Handle → Run Act Failure (Unit {0})
  show_window h = unless_deleted h (
      and_then (run_plainly w.host (text "open") (text "-a" ∷ text "Simulator.app" ∷ []))
        λ stdout. done (value tt))

  abbrev pub boot_command : Text → Run Act Failure (Unit {0})
  boot_command udid =
      let r = run_simctl w.host (text "boot" ∷ udid ∷ []) in
      record { acts = r.acts; ended = unless_booted w.host r.ended }

  abbrev pub wait : Option ℕ → Run Act Failure ReadyResult
  wait budget =
      let ms = get_or budget boot_ready_timeout_ms in act (waits_ready ms) (value (w.ready ms))

  -- `boot`, before its result is recorded.
  unfoldable pub booted : Handle → Option ℕ → Run Act Failure ReadyResult
  unfolding show_window
  booted h budget =
      unless_deleted h
        (and_then (boot_command h.udid) λ done. and_then (show_window h) λ shown. wait budget)

  -- `boot`
  unfoldable pub boot : Handle → Option ℕ → Handle × Run Act Failure ReadyResult
  unfolding booted
  boot h budget = (recorded h (booted h budget).ended, booted h budget)

  -- `waitReady`
  unfoldable pub wait_ready : Handle → Option ℕ → Handle × Run Act Failure ReadyResult
  wait_ready h budget = let r = unless_deleted h (wait budget) in (recorded h r.ended, r)

  abbrev pub shutdown_command : Text → Run Act Failure (Unit {0})
  shutdown_command udid =
      tolerated (run_plainly w.host xcrun (text "simctl" ∷ text "shutdown" ∷ udid ∷ []))

  -- `shutdown`
  unfoldable pub shutdown : Handle → Run Act Failure (Unit {0})
  shutdown h = unless_deleted h (shutdown_command h.udid)

  -- The `try` of `delete`.
  abbrev pub erase : Text → Run Act Failure Text
  erase udid =
      and_then (shutdown_command udid) λ down. run_simctl w.host (text "delete" ∷ udid ∷ [])

  -- `delete` of a handle that has stopped its recording.
  abbrev pub delete_quiet : Handle → Handle × Run Act Failure (Unit {0})
  delete_quiet h =
      let tried = erase h.udid in
      let (after_it, rest) = erased h tried.ended in
      (after_it, after (closes_companion ∷ tried.acts) rest)

  -- `delete`
  unfoldable pub delete : Handle → Handle × Run Act Failure (Unit {0})
  delete h =
      let (after_it, rest) = delete_quiet (record h { recording = false }) in
      if h.deleted
      then (h, done (throws not_found))
      else (after_it, after (if h.recording then stops_recording ∷ [] else []) rest)

  abbrev pub install_at : Handle → Text → Run Act Failure (Unit {0})
  install_at h absolute_path =
      if w.exists absolute_path
      then and_then (run_simctl w.host (text "install" ∷ h.udid ∷ absolute_path ∷ []))
          (λ stdout. done (value tt))
      else done (throws (app_bundle_not_found absolute_path))

  -- `installApp`
  unfoldable pub install_app : Handle → Text → Run Act Failure (Unit {0})
  install_app h app_path = unless_deleted h (install_at h (w.resolve app_path))

  -- `launchApp`
  unfoldable pub launch_app : Handle → Text → Bool → Run Act Failure (Option ℕ)
  launch_app h bundle_id terminate_running = unless_deleted h (
      and_then
        (run_simctl w.host (
          text "launch"
          ∷ ((if terminate_running then text "--terminate-running-process" ∷ [] else [])
              ++ h.udid ∷ bundle_id ∷ [])))
        λ stdout. done (value (parse_launch_pid stdout)))

  -- `restartBridge`
  unfoldable pub restart_bridge : Handle → Run Act Failure (Unit {0})
  restart_bridge h = unless_deleted h (
      and_then
        (run_simctl w.host (
          text "spawn"
          ∷ h.udid
          ∷ text "launchctl"
          ∷ text "stop"
          ∷ text "com.apple.CoreSimulator.bridge"
          ∷ []))
        λ stdout. done (value tt))

  -- `releaseCompanion`
  unfoldable pub release_companion : Handle → Run Act Failure (Unit {0})
  release_companion h = unless_deleted h (act shuts_companion_down (value tt))
