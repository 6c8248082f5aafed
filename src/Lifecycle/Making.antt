-- ===== src/Lifecycle/Making.antt =====
-- packages/simgadget/src/lifecycle.ts: `createSimulatorWith` and `attachSimulatorWith`, which make
-- handles.
pub mod Laws
pub mod Opening
use simgadget.Prelude.{
  ℕ, if◌then◌else◌, Bool, true, false, List, [], ◌∷◌, Option, none, some, get_or, map,
}
use simgadget.Prelude.Text.{Text, text, non_empty}
use simgadget.Prelude.Run.{Reply, value, throws, Run, done, act, after, and_then}
use simgadget.Lifecycle.Devices.{
  DeviceTypeInfo, RuntimeInfo, SimInfo, pick_device_type, pick_latest_runtime,
}
use simgadget.Lifecycle.Printed.{derive_device_name}
use simgadget.Simulator.Calls.{
  Failure, not_found, device_type_not_found, no_ios_runtime, Act, reopens_companion, as_failed,
  run_plainly, ask_device, xcrun,
}
use simgadget.Simulator.Verbs.{Handle, World, boot}

-- `CreateOptions`
pub record CreateOptions : Type 0 where
  pub device_type : Option Text
  pub name : Option Text
  pub boot : Option Bool
  pub budget_ms : Option ℕ

-- The world of a call, `toLowerCase`, and what `JSON.parse` makes of the two lists.
pub record Maker : Type 0 where
  pub world : World
  pub lower : Text → Text
  pub parse_types : Text → Reply Text (List DeviceTypeInfo)
  pub parse_runtimes : Text → Reply Text (List RuntimeInfo)

-- A handle that was made, with the name and the device type that it was given.
pub record Made : Type 0 where
  pub handle : Handle
  pub name : Text
  pub device_type : Option DeviceTypeInfo

-- A new handle.
abbrev pub fresh : Text → Handle
fresh udid = record { udid = udid; deleted = false; recording = false; last_boot = none }

abbrev pub types_args : List Text
types_args = text "simctl" ∷ text "list" ∷ text "devicetypes" ∷ text "-j" ∷ []

abbrev pub runtimes_args : List Text
runtimes_args = text "simctl" ∷ text "list" ∷ text "runtimes" ∷ text "-j" ∷ []

abbrev pub create_args : Text → DeviceTypeInfo → Text → List Text
create_args name type runtime =
    text "simctl" ∷ text "create" ∷ name ∷ type.identifier ∷ runtime ∷ []

-- `opts?.deviceType || "iPhone"`
abbrev pub keyword_of : Option Text → Text
keyword_of none = text "iPhone"
keyword_of (some keyword) = if non_empty keyword then keyword else text "iPhone"

module _ (k : Maker) where
  -- A list that simctl prints, parsed.
  abbrev pub listed {ℓ} : {A : Type ℓ} → List Text → (Text → Reply Text A) → Run Act Failure A
  listed args parse =
      and_then (run_plainly k.world.host xcrun args) λ stdout. done (as_failed (parse stdout))

  -- `handle.boot` where it is wanted, and the handle.
  unfoldable pub booted_if : Bool → Option ℕ → Made → Run Act Failure Made
  unfolding boot
  booted_if false budget made = done (value made)
  booted_if true budget made =
      let (handle, r) = boot k.world made.handle budget in
      and_then r λ ready. done (value (record made { handle = handle }))

  -- From `simctl create` on.
  abbrev pub create_as : CreateOptions → Text → DeviceTypeInfo → Text → Run Act Failure Made
  create_as opts name type runtime =
      and_then (run_plainly k.world.host xcrun (create_args name type runtime)) λ udid.
        after (reopens_companion ∷ []) (
          booted_if (get_or opts.boot true) opts.budget_ms
            (record { handle = fresh udid; name = name; device_type = some type }))

  abbrev pub with_runtime : CreateOptions → DeviceTypeInfo → Option Text → Run Act Failure Made
  with_runtime opts type none = done (throws no_ios_runtime)
  with_runtime opts type (some runtime) =
      create_as opts (derive_device_name k.lower (keyword_of opts.device_type) opts.name) type
        runtime

  abbrev pub with_type :
      CreateOptions → List DeviceTypeInfo → Option DeviceTypeInfo → Run Act Failure Made
  with_type opts types none =
      done (throws (device_type_not_found (keyword_of opts.device_type) (map (λ t. t.name) types)))
  with_type opts types (some type) =
      and_then (listed runtimes_args k.parse_runtimes)
        λ runtimes. with_runtime opts type (pick_latest_runtime runtimes)

  -- `createSimulatorWith`
  unfoldable pub create_simulator : CreateOptions → Run Act Failure Made
  create_simulator opts =
      and_then (listed types_args k.parse_types)
        λ types. with_type opts types (pick_device_type k.lower types (keyword_of opts.device_type))

  abbrev pub attached : Text → Option SimInfo → Run Act Failure Made
  attached udid none = done (throws not_found)
  attached udid (some device) =
      act reopens_companion
        (value (record { handle = fresh udid; name = device.name; device_type = none }))

  -- `attachSimulatorWith`
  unfoldable pub attach_simulator : Text → Run Act Failure Made
  attach_simulator udid = and_then (ask_device k.world.host udid) (attached udid)
