-- ===== src/Lifecycle/Devices.antt =====
-- packages/simgadget/src/lifecycle.ts: what is read from the lists that `simctl` prints.
pub mod Laws
use simgadget.Prelude.{Bool, ◌&&◌, ◌||◌, List, [], ◌∷◌, ◌++◌, Option, none, some, find, filter}
use simgadget.Prelude.Text.{Text, text, text_eq, starts_with, includes}
use simgadget.Ax.Element.{Value, str}

-- `SimInfo`
pub record SimInfo : Type 0 where
  pub udid : Text
  pub name : Text
  pub state : Text
  pub device_type_identifier : Text
  pub runtime_identifier : Text

-- A device of the JSON, by its keys that are read; one that is no object has them undefined.
pub record Device : Type 0 where
  pub udid : Value
  pub name : Value
  pub state : Value
  pub device_type_identifier : Value

-- What stands under a runtime.
pub data Bucket : Type 0 where
  no_array : Bucket
  array : List Device → Bucket

-- The JSON: its `devices` key, where that is an object, with its entries in their order.
pub data Listing : Type 0 where
  no_object : Listing
  entries : List (Text × Bucket) → Listing

-- `typeof value === "string" ? value : fallback`
abbrev pub string_or : Text → Value → Text
string_or fallback (str s) = s
string_or fallback _ = fallback

-- `continue` or `result.push(…)`
abbrev pub parsed_device : Text → Device → List SimInfo
parsed_device runtime device = elim device.udid [
  | str udid ↦
      record {
        udid = udid;
        name = string_or [] device.name;
        state = string_or (text "Shutdown") device.state;
        device_type_identifier = string_or [] device.device_type_identifier;
        runtime_identifier = runtime;
      }
      ∷ []
  | _ ↦ []
]

abbrev pub parsed_bucket : Text → List Device → List SimInfo
parsed_bucket runtime [] = []
parsed_bucket runtime (device ∷ devices) =
    parsed_device runtime device ++ parsed_bucket runtime devices

abbrev pub parsed_entries : List (Text × Bucket) → List SimInfo
parsed_entries [] = []
parsed_entries ((runtime, no_array) ∷ rest) = parsed_entries rest
parsed_entries ((runtime, array devices) ∷ rest) =
    parsed_bucket runtime devices ++ parsed_entries rest

-- `parseDevices`
pub parse_devices : Listing → List SimInfo
parse_devices no_object = []
parse_devices (entries es) = parsed_entries es

-- `findDevice`, on what `simctl` printed.
pub find_device : Listing → Text → Option SimInfo
unfolding parse_devices
find_device listing udid = find (λ d. text_eq d.udid udid) (parse_devices listing)

-- `DeviceTypeInfo`
pub record DeviceTypeInfo : Type 0 where
  pub identifier : Text
  pub name : Text

-- `pickDeviceType`; `lower` is `toLowerCase`. Where none fits, it throws.
unfoldable pub pick_device_type : (Text → Text) → List DeviceTypeInfo → Text → Option DeviceTypeInfo
pick_device_type lower list keyword = find (λ dt. includes (lower keyword) (lower dt.name)) list

-- `RuntimeInfo`
pub record RuntimeInfo : Type 0 where
  pub identifier : Text
  pub name : Text
  pub is_available : Bool

abbrev pub usable : RuntimeInfo → Bool
usable r = r.is_available && starts_with (text "iOS") r.name

-- `list[list.length - 1]`
abbrev pub last? {ℓ} : {A : Type ℓ} → List A → Option A
last? [] = none
last? (x ∷ []) = some x
last? (x ∷ y ∷ ys) = last? (y ∷ ys)

-- `pickLatestRuntime`; where there is none, it throws.
unfoldable pub pick_latest_runtime : List RuntimeInfo → Option Text
pick_latest_runtime list = elim (last? (filter usable list)) [
  | none ↦ none
  | some r ↦ some r.identifier
]

-- `isInvalidDeviceError`
unfoldable pub is_invalid_device_error : Text → Bool
is_invalid_device_error message =
    includes (text "Invalid device:") message
    || includes (text "Invalid device or device pair:") message
