-- ===== src/Simulator/Using/Deleted.antt =====
-- The verbs of a handle after its deletion.
use simgadget.Prelude.{◌≡◌, ◌⊎◌, refl, if◌then◌else◌, Bool, true, false, [], ◌∷◌}
use simgadget.Prelude.Text.{Text}
use simgadget.Prelude.Run.{Reply, value, throws, Run, done, after}
use simgadget.Simulator.Calls.{Failure, not_found, Act, stops_recording}
use simgadget.Simulator.Verbs.{Handle, World, delete, delete_quiet}
use simgadget.Simulator.Using.{Result}

-- A call that does nothing, and throws `SimulatorNotFoundError`.
abbrev pub Refused : Run Act Failure Result → Type 0
Refused r = (r.acts ≡ []) × (r.ended ≡ throws not_found)

-- Whether a deletion came to an end that makes the handle stale.
abbrev pub Final : Reply {0, 0} Failure Unit → Type 0
Final ended = (ended ≡ value tt) ⊎ (ended ≡ throws not_found)

if_false-eq {ℓ} : {A : Type ℓ} (b : Bool) (x y : A) → b ≡ false → (if b then x else y) ≡ y
if_false-eq b x y e = rw (e) refl

-- `delete` of a handle that is not stale.
pub delete-eq :
    (w : World) (h : Handle)
    → h.deleted ≡ false
    → let (after_it, rest) = delete_quiet w (record h { recording = false }) in
      delete w h ≡ (after_it, after (if h.recording then stops_recording ∷ [] else []) rest)
unfolding delete
delete-eq w h live = if_false-eq h.deleted _ _ live

pub stale-eq :
    (w : World) (h : Handle) → h.deleted ≡ true → delete w h ≡ (h, done (throws not_found))
unfolding delete
stale-eq w h stale = rw (stale) refl
