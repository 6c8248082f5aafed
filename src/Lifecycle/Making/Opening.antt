-- ===== src/Lifecycle/Making/Opening.antt =====
-- A handle that was made, and the companion manager (idb/companionManager.ts).
use simgadget.Prelude.{
  ◌≡◌, refl, Bool, true, false, List, [], ◌∷◌, ◌++◌, Option, none, some, All, ◌∙◌, ap, sym, get_or,
  if◌then◌else◌,
}
use simgadget.Prelude.Text.{Text, member}
use simgadget.Prelude.Run.{value, and_then-value, value-inj}
use simgadget.Lifecycle.Devices.{SimInfo}
use simgadget.Idb.Companions.{Manager, Event, run}
use simgadget.Simulator.Calls.{reopens_companion, ask_device}
use simgadget.Simulator.Calls.Playing.{
  Plays, Plays-shut, Quiet, shut_behind, shut_behind-Quiet, shut_behind-append,
}
use simgadget.Simulator.Verbs.{booted}
use simgadget.Simulator.Verbs.Acts.{booted-All}
use simgadget.Lifecycle.Making.{
  Maker, CreateOptions, Made, fresh, create_simulator, attached, attach_simulator,
}
use simgadget.Lifecycle.Making.Laws.{create_simulator-Plan}

boot_acts-Quiet :
    (k : Maker) (opts : CreateOptions) (udid : Text) (wanted : Bool)
    → All Quiet (if wanted then (booted k.world (fresh udid) opts.budget_ms).acts else [])
boot_acts-Quiet k opts udid true =
    booted-All Quiet (λ program args. tt) k.world (fresh udid) opts.budget_ms (λ ms. tt)
boot_acts-Quiet k opts udid false = tt

-- When `createSimulator` has returned a handle, its simulator is open to new companions, even if it was
-- closed before, whatever else happened at the manager of the companions, so long as no other handle
-- closed or reopened it.
pub create_simulator-open :
    (k : Maker) (opts : CreateOptions) (made : Made) (es : List Event) (m : Manager)
    → (create_simulator k opts).ended ≡ value made
    → Plays made.handle.udid (create_simulator k opts).acts es
    → member made.handle.udid (run m es).closed ≡ false
create_simulator-open k opts made es m returned played =
    let plan = create_simulator-Plan k opts made returned in
    Plays-shut made.handle.udid _ es m played
    ∙ ap (λ acts. shut_behind acts (member made.handle.udid m.closed)) plan.done_so
    ∙ shut_behind-Quiet _ false (boot_acts-Quiet k opts made.handle.udid (get_or opts.boot true))

attached-made :
    (k : Maker) (udid : Text) (found : Option SimInfo) (made : Made)
    → (attached k udid found).ended ≡ value made
    → ((attached k udid found).acts ≡ reopens_companion ∷ []) × (made.handle.udid ≡ udid)
attached-made k udid none made returned = cc
attached-made k udid (some device) made returned =
    (refl, ap (λ m. m.handle.udid) (sym (value-inj _ made returned)))

-- When `attachSimulator` has returned a handle, it is on the simulator asked for, which is open to new
-- companions, whatever else happened at the manager of the companions, so long as no other handle
-- closed or reopened it.
pub attach_simulator-open :
    (k : Maker) (udid : Text) (made : Made) (es : List Event) (m : Manager)
    → (attach_simulator k udid).ended ≡ value made
    → Plays udid (attach_simulator k udid).acts es
    → (made.handle.udid ≡ udid) × (member udid (run m es).closed ≡ false)
unfolding attach_simulator
attach_simulator-open k udid made es m returned played =
    let (found, asked, at, acts) =
      and_then-value (ask_device k.world.host udid) (attached k udid) made returned in
    let (reopened, same) = attached-made k udid found made at in
    (
      same,
      Plays-shut udid _ es m played
          ∙ ap (λ xs. shut_behind xs (member udid m.closed))
              (acts ∙ ap (λ xs. (ask_device k.world.host udid).acts ++ xs) reopened)
          ∙ shut_behind-append (ask_device k.world.host udid).acts (reopens_companion ∷ [])
              (member udid m.closed),
    )
