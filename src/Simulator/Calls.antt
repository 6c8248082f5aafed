-- ===== src/Simulator/Calls.antt =====
-- packages/simgadget/src/simulator.ts: what the verbs of a handle call, `runSimctl`,
-- `mapSimctlError` and `withClient`; lifecycle.ts: `findDevice` as it asks simctl. What programs
-- print and what the companion answers is told from outside.
pub mod Laws
pub mod Acts
pub mod Playing
use simgadget.Prelude.{ℕ, if◌then◌else◌, Bool, List, [], ◌∷◌, Option, none}
use simgadget.Prelude.Int.{ℤ}
use simgadget.Prelude.Text.{Text, text}
use simgadget.Prelude.Run.{Reply, value, throws, Run, done, act, after, and_then}
use simgadget.Ax.Element.{AxKeys, RawTree}
use simgadget.Ax.Recovery.{is_wedge_error}
use simgadget.Lifecycle.Devices.{Listing, SimInfo, find_device, is_invalid_device_error}

-- idb's `HIDButtonType` and `HIDOrientationType`
pub data Button : Type 0 where
  home lock side_button siri apple_pay : Button

pub data OrientationType : Type 0 where
  portrait portrait_upside_down landscape_left landscape_right : OrientationType

-- What the code asks a client for, the reads under recovery left out.
pub data Request : Type 0 where
  reads_gate : Request
  sets_orientation : OrientationType → Request
  types : List ℕ → Request
  swipes : ℤ × ℤ → ℤ × ℤ → Option ℤ → Option ℤ → Request
  presses : Button → Option ℤ → Request

-- The errors of the verbs and of the making of handles: `SimulatorNotFoundError`, `UntypeableTextError`, `TypingBlockedError`,
-- the `SimGadgetError` of a missing bundle, a `TypeError` with the bad name,
-- `DeviceTypeNotFoundError`, the `SimGadgetError` of a missing runtime, and one that comes from
-- below, by its message.
pub data Failure : Type 0 where
  not_found : Failure
  untypeable : List ℕ → Failure
  typing_blocked : AxKeys → Failure
  app_bundle_not_found : Text → Failure
  unknown_name : Text → Failure
  device_type_not_found : Text → List Text → Failure
  no_ios_runtime : Failure
  failed : Text → Failure

-- What a verb does: it runs a program, asks a client for something, exclusively or not, and so on.
-- `waits_ready` is `waitUntilDriveable` with its budget.
pub data Act : Type 0 where
  runs : Text → List Text → Act
  asks : Request → Bool → Act
  closes_companion shuts_companion_down reopens_companion forgets stops_recording : Act
  detects_orientation finds_sheet : Act
  sleeps waits_ready : ℕ → Act

-- What programs print, or the message of their failure; what `JSON.parse` makes of a list of
-- devices; what clients answer; and the prose of the errors that have their own.
pub record Host : Type 0 where
  pub run : Text → List Text → Reply Text Text
  pub parse : Text → Reply Text Listing
  pub gate : Reply Failure (Option RawTree)
  pub answer : Request → Reply {0, 0} Failure Unit
  pub prose : Failure → Text

-- `mapSimctlError`
abbrev pub map_simctl_error : Text → Failure
map_simctl_error message = if is_invalid_device_error message then not_found else failed message

abbrev pub or_mapped {ℓ} : {A : Type ℓ} → Reply Text A → Reply Failure A
or_mapped (value a) = value a
or_mapped (throws message) = throws (map_simctl_error message)

abbrev pub as_failed {ℓ} : {A : Type ℓ} → Reply Text A → Reply Failure A
as_failed (value a) = value a
as_failed (throws message) = throws (failed message)

abbrev pub xcrun : Text
xcrun = text "xcrun"

abbrev pub listing_args : List Text
listing_args = text "simctl" ∷ text "list" ∷ text "devices" ∷ text "-j" ∷ []

-- The `catch` of `withClient`: by the error, and by what asking simctl for the device gave.
abbrev pub resolved : Failure → Reply Failure (Option SimInfo) → Failure
resolved error (value none) = not_found
resolved error _ = error

module _ (host : Host) where
  -- `error.message`
  abbrev pub message_of : Failure → Text
  message_of (failed message) = message
  message_of error = host.prose error

  -- `runSimctl`
  abbrev pub run_simctl : List Text → Run Act Failure Text
  run_simctl args =
      act (runs xcrun (text "simctl" ∷ args)) (or_mapped (host.run xcrun (text "simctl" ∷ args)))

  -- `simctl`, with its failure as it comes.
  abbrev pub run_plainly : Text → List Text → Run Act Failure Text
  run_plainly program args = act (runs program args) (as_failed (host.run program args))

  -- `findDevice`
  abbrev pub ask_device : Text → Run Act Failure (Option SimInfo)
  ask_device udid = and_then (run_plainly xcrun listing_args) λ stdout.
      and_then (done (as_failed (host.parse stdout)))
        λ listing. done (value (find_device listing udid))

  abbrev pub blamed {ℓ} : {A : Type ℓ} → Text → Failure → Run Act Failure A
  blamed udid error =
      if is_wedge_error (message_of error)
      then done (throws error)
      else (let asked = ask_device udid in
          record { acts = asked.acts; ended = throws (resolved error asked.ended) })

  abbrev pub or_blamed {ℓ} : {A : Type ℓ} → Text → Reply Failure A → Run Act Failure A
  or_blamed udid (value a) = done (value a)
  or_blamed udid (throws error) = blamed udid error

  -- `withClient`
  unfoldable pub with_client {ℓ} :
      {A : Type ℓ} → Text → Request → Bool → Reply Failure A → Run Act Failure A
  with_client udid request exclusive reply =
      after (asks request exclusive ∷ []) (or_blamed udid reply)
