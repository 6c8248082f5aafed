-- ===== src/Lifecycle/Making/Laws.antt =====
-- What the making of a handle leaves behind.
use mathlib.Core.List.{append-nil}
use mathlib.Core.Path.{subst}
use simgadget.Prelude.{
  ◌≡◌, refl, if◌then◌else◌, Bool, true, false, List, [], ◌∷◌, ◌++◌, Option, none, some, ◌∙◌, ap,
  sym, get_or,
}
use simgadget.Prelude.Text.{Text}
use simgadget.Prelude.Run.{Reply, value, throws, Run, done, and_then-value, value-inj}
use simgadget.Lifecycle.Boot.{ReadyResult}
use simgadget.Lifecycle.Devices.{DeviceTypeInfo, RuntimeInfo, pick_device_type, pick_latest_runtime}
use simgadget.Lifecycle.Printed.{derive_device_name}
use simgadget.Simulator.Calls.{Act, runs, reopens_companion, Failure, xcrun, as_failed, run_plainly}
use simgadget.Simulator.Verbs.{Handle, boot, booted, recorded}
use simgadget.Lifecycle.Making.{
  Maker, CreateOptions, Made, fresh, types_args, runtimes_args, create_args, keyword_of, listed,
  booted_if, create_as, with_runtime, with_type, create_simulator,
}

-- What the boot of a new simulator does, where it is wanted.
abbrev pub boot_acts : Maker → CreateOptions → Text → List Act
boot_acts k opts udid =
    if get_or opts.boot true then (booted k.world (fresh udid) opts.budget_ms).acts else []

abbrev pub name_of : Maker → CreateOptions → Text
name_of k opts = derive_device_name k.lower (keyword_of opts.device_type) opts.name

-- How a handle on a new simulator came about.
pub record Plan (k : Maker) (opts : CreateOptions) (acts : List Act) (made : Made) : Type 0 where
  pub types : List DeviceTypeInfo
  pub type : DeviceTypeInfo
  pub runtimes : List RuntimeInfo
  pub runtime : Text
  pub picked : pick_device_type k.lower types (keyword_of opts.device_type) ≡ some type
  pub latest : pick_latest_runtime runtimes ≡ some runtime
  pub named : made.name ≡ name_of k opts
  pub typed : made.device_type ≡ some type
  pub created :
      k.world.host.run xcrun (create_args (name_of k opts) type runtime) ≡ value made.handle.udid
  pub live : made.handle.deleted ≡ false
  pub done_so :
      acts
      ≡ runs xcrun types_args
        ∷ runs xcrun runtimes_args
        ∷ runs xcrun (create_args (name_of k opts) type runtime)
        ∷ reopens_companion
        ∷ boot_acts k opts made.handle.udid

as_failed-value {ℓ} :
    {A : Type ℓ} (reply : Reply Text A) (a : A) → as_failed reply ≡ value a → reply ≡ value a
as_failed-value (value b) a same = ap value (value-inj b a same)
as_failed-value (throws message) a same = cc

listed-acts {ℓ} :
    {A : Type ℓ} (k : Maker) (args : List Text) (parse : Text → Reply Text A) (a : A)
    → (listed k args parse).ended ≡ value a
    → (listed k args parse).acts ≡ runs xcrun args ∷ []
listed-acts k args parse a returned =
    let (stdout, printed, parsed, acts) =
      and_then-value (run_plainly k.world.host xcrun args)
        (λ stdout. done (as_failed (parse stdout))) a returned in
    acts

recorded-same :
    (h : Handle) (reply : Reply Failure ReadyResult)
    → ((recorded h reply).udid ≡ h.udid) × ((recorded h reply).deleted ≡ h.deleted)
recorded-same h (value result) = (refl, refl)
recorded-same h (throws f) = (refl, refl)

module _ (k : Maker) (opts : CreateOptions) (made : Made) where
  booted_if-made :
      (wanted : Bool) (m : Made)
      → (booted_if k wanted opts.budget_ms m).ended ≡ value made
      → (h : Handle) × (made ≡ record m { handle = h })
        × (h.udid ≡ m.handle.udid)
        × (h.deleted ≡ m.handle.deleted)
        × ((booted_if k wanted opts.budget_ms m).acts
            ≡ (if wanted then (booted k.world m.handle opts.budget_ms).acts else []))
  unfolding booted_if boot
  booted_if-made false m returned = (m.handle, sym (value-inj m made returned), refl, refl, refl)
  booted_if-made true m returned =
      let (ready, came_up, ended, acts) =
        and_then-value (booted k.world m.handle opts.budget_ms) _ made returned in
      let same = recorded-same m.handle (booted k.world m.handle opts.budget_ms).ended in
      (_, sym (value-inj _ made ended), same.0, same.1, acts ∙ append-nil _)

  create_as-Plan :
      (types : List DeviceTypeInfo) (type : DeviceTypeInfo) (runtimes : List RuntimeInfo)
      (runtime : Text)
      → pick_device_type k.lower types (keyword_of opts.device_type) ≡ some type
      → pick_latest_runtime runtimes ≡ some runtime
      → let r = create_as k opts (name_of k opts) type runtime in
        r.ended ≡ value made
        → Plan k opts (runs xcrun types_args ∷ runs xcrun runtimes_args ∷ r.acts) made
  create_as-Plan types type runtimes runtime picked latest returned =
      let args = create_args (name_of k opts) type runtime in
      let (udid, printed, up, acts) =
        and_then-value (run_plainly k.world.host xcrun args) _ made returned in
      let (h, same, same_udid, same_deleted, boots) =
        booted_if-made (get_or opts.boot true)
          (record { handle = fresh udid; name = name_of k opts; device_type = some type }) up in
      let is_udid : made.handle.udid ≡ udid = ap (λ m. m.handle.udid) same ∙ same_udid in
      record {
        types = types;
        type = type;
        runtimes = runtimes;
        runtime = runtime;
        picked = picked;
        latest = latest;
        named = ap (λ m. m.name) same;
        typed = ap (λ m. m.device_type) same;
        created = as_failed-value _ udid printed ∙ ap value (sym is_udid);
        live = ap (λ m. m.handle.deleted) same ∙ same_deleted;
        done_so =
            ap (λ rest. runs xcrun types_args ∷ runs xcrun runtimes_args ∷ rest)
              (acts ∙ ap (λ rest. runs xcrun args ∷ reopens_companion ∷ rest) boots)
            ∙ ap
                (λ u.
                  runs xcrun types_args
                  ∷ runs xcrun runtimes_args
                  ∷ runs xcrun args
                  ∷ reopens_companion
                  ∷ boot_acts k opts u)
                (sym is_udid);
      }

  with_runtime-Plan :
      (types : List DeviceTypeInfo) (type : DeviceTypeInfo) (runtimes : List RuntimeInfo)
      (found : Option Text)
      → pick_device_type k.lower types (keyword_of opts.device_type) ≡ some type
      → pick_latest_runtime runtimes ≡ found
      → let r = with_runtime k opts type found in
        r.ended ≡ value made
        → Plan k opts (runs xcrun types_args ∷ runs xcrun runtimes_args ∷ r.acts) made
  with_runtime-Plan types type runtimes none picked latest returned = cc
  with_runtime-Plan types type runtimes (some runtime) picked latest returned =
      create_as-Plan types type runtimes runtime picked latest returned

  with_type-Plan :
      (types : List DeviceTypeInfo) (found : Option DeviceTypeInfo)
      → pick_device_type k.lower types (keyword_of opts.device_type) ≡ found
      → let r = with_type k opts types found in
        r.ended ≡ value made → Plan k opts (runs xcrun types_args ∷ r.acts) made
  with_type-Plan types none missing returned = cc
  with_type-Plan types (some type) picked returned =
      let (runtimes, listing, rest, acts) =
        and_then-value (listed k runtimes_args k.parse_runtimes)
          (λ runtimes. with_runtime k opts type (pick_latest_runtime runtimes)) made returned in
      let listed_so = listed-acts k runtimes_args k.parse_runtimes runtimes listing in
      subst (λ xs. Plan k opts (runs xcrun types_args ∷ xs) made)
        (sym (
          acts
          ∙ ap (λ xs. xs ++ (with_runtime k opts type (pick_latest_runtime runtimes)).acts)
              listed_so))
        (with_runtime-Plan types type runtimes (pick_latest_runtime runtimes) picked refl rest)

  made-Plan :
      (create_simulator k opts).ended ≡ value made → Plan k opts (create_simulator k opts).acts made
  unfolding create_simulator
  made-Plan returned =
      let next : List DeviceTypeInfo → Run Act Failure Made = λ types.
        with_type k opts types (pick_device_type k.lower types (keyword_of opts.device_type)) in
      let (types, listing, rest, acts) =
        and_then-value (listed k types_args k.parse_types) next made returned in
      let listed_so = listed-acts k types_args k.parse_types types listing in
      subst (λ xs. Plan k opts xs made) (sym (acts ∙ ap (λ xs. xs ++ (next types).acts) listed_so))
        (with_type-Plan types _ refl rest)

pub create_simulator-Plan :
    (k : Maker) (opts : CreateOptions) (made : Made)
    → (create_simulator k opts).ended ≡ value made
    → Plan k opts (create_simulator k opts).acts made
create_simulator-Plan k opts made returned = made-Plan k opts made returned
