-- ===== src/Simulator/Using/Deleting.antt =====
-- What a deletion leaves behind in the companion manager (idb/companionManager.ts).
use simgadget.Prelude.{◌≡◌, refl, if◌then◌else◌, Bool, true, false, List, [], ◌∷◌, ◌++◌, ◌∙◌, sym}
use simgadget.Prelude.Text.{Text, member}
use simgadget.Prelude.Run.{Reply, value, throws}
use simgadget.Idb.Companions.{Manager, Event, run}
use simgadget.Simulator.Calls.{Failure, not_found, Act, stops_recording}
use simgadget.Simulator.Calls.Playing.{Plays, shut_behind, Plays-shut}
use simgadget.Simulator.Verbs.{Handle, World, delete, delete_quiet, erase, erased}
use simgadget.Simulator.Using.Deleted.{delete-eq}

erased-shut :
    (h : Handle) (reply : Reply Failure Text)
    → h.deleted ≡ false
    → shut_behind (erased h reply).1.acts true ≡ (erased h reply).0.deleted
erased-shut h (value stdout) live = refl
erased-shut h (throws not_found) live = refl
erased-shut h (throws error) live = sym live

stopping-shut :
    (recording : Bool) (acts : List Act) (before : Bool)
    → shut_behind ((if recording then stops_recording ∷ [] else []) ++ acts) before
      ≡ shut_behind acts before
stopping-shut true acts before = refl
stopping-shut false acts before = refl

delete-shut :
    (w : World) (h : Handle) (before : Bool)
    → h.deleted ≡ false
    → shut_behind (delete w h).1.acts before ≡ (delete w h).0.deleted
delete-shut w h before live =
    let quiet = record h { recording = false } in
    rw (delete-eq w h live) (
      stopping-shut h.recording (delete_quiet w quiet).1.acts before
      ∙ erased-shut quiet (erase w h.udid).ended live)

-- A deletion, with the manager of the companions at work meanwhile. When it is over, the simulator is
-- closed to new companions if the handle is deleted, and open to them if it is not; whatever else
-- happened at the manager, so long as no other handle closed or reopened the simulator.
pub delete-closed :
    (w : World) (h : Handle) (es : List Event) (m : Manager)
    → h.deleted ≡ false
    → Plays h.udid (delete w h).1.acts es
    → member h.udid (run m es).closed ≡ (delete w h).0.deleted
delete-closed w h es m live p =
    Plays-shut h.udid _ es m p ∙ delete-shut w h (member h.udid m.closed) live
