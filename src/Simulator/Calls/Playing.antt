-- ===== src/Simulator/Calls/Playing.antt =====
-- What the acts of a handle are for the companion manager (idb/companionManager.ts).
use simgadget.Prelude.{◌≡◌, refl, Bool, true, false, List, [], ◌∷◌, ◌++◌, ◌∙◌, ap, All}
use simgadget.Prelude.Text.{Text, member}
use simgadget.Idb.Companions.{Manager, Event, closes, reopens, step, run}
use simgadget.Idb.Companions.Closed.{Foreign, step-closed, closed-after}
use simgadget.Simulator.Calls.{Act, closes_companion, reopens_companion}

-- What an act of the handle is for the manager.
abbrev pub event_of : Text → Act → List Event
event_of udid closes_companion = closes udid ∷ []
event_of udid reopens_companion = reopens udid ∷ []
event_of udid _ = []

-- The events at the manager while a handle acts: its own, in order, and others of all kinds in
-- between, so long as no other handle closes or reopens the simulator.
pub data Plays (udid : Text) : List Act → List Event → Type 0 where
  over : Plays udid [] []
  meanwhile :
      (acts : List Act) (e : Event) (es : List Event)
      → Foreign udid e
      → Plays udid acts es
      → Plays udid acts (e ∷ es)
  plays :
      (a : Act) (acts : List Act) (es : List Event)
      → Plays udid acts es
      → Plays udid (a ∷ acts) (event_of udid a ++ es)

-- Whether the simulator is closed behind an act, and behind some, where it was or was not before.
abbrev pub shut_by : Act → Bool → Bool
shut_by closes_companion before = true
shut_by reopens_companion before = false
shut_by _ before = before

abbrev pub shut_behind : List Act → Bool → Bool
shut_behind [] before = before
shut_behind (a ∷ acts) before = shut_behind acts (shut_by a before)

pub shut_behind-append :
    (xs ys : List Act) (before : Bool)
    → shut_behind (xs ++ ys) before ≡ shut_behind ys (shut_behind xs before)
shut_behind-append [] ys before = refl
shut_behind-append (a ∷ xs) ys before = shut_behind-append xs ys (shut_by a before)

run_events-shut :
    (udid : Text) (a : Act) (es : List Event) (m : Manager)
    → (n : Manager) × (run m (event_of udid a ++ es) ≡ run n es)
      × (member udid n.closed ≡ shut_by a (member udid m.closed))
unfolding run
run_events-shut udid closes_companion es m = (step m (closes udid), refl, (closed-after udid m).0)
run_events-shut udid reopens_companion es m = (step m (reopens udid), refl, (closed-after udid m).1)
run_events-shut udid _ es m = (m, refl, refl)

-- What a play leaves.
pub Plays-shut :
    (udid : Text) (acts : List Act) (es : List Event) (m : Manager)
    → Plays udid acts es
    → member udid (run m es).closed ≡ shut_behind acts (member udid m.closed)
unfolding run
Plays-shut udid acts es m over = refl
Plays-shut udid acts es m (meanwhile _ e rest foreign p) =
    Plays-shut udid acts rest (step m e) p ∙ ap (shut_behind acts) (step-closed udid m e foreign)
Plays-shut udid acts es m (plays a more rest p) =
    let (n, same, shut) = run_events-shut udid a rest m in
    ap (λ k. member udid k.closed) same ∙ Plays-shut udid more rest n p ∙ ap (shut_behind more) shut

-- An act that neither closes nor reopens.
abbrev pub Quiet : Act → Type 0
Quiet closes_companion = ⊥
Quiet reopens_companion = ⊥
Quiet _ = Unit

shut_by-Quiet : (a : Act) (before : Bool) → Quiet a → shut_by a before ≡ before
shut_by-Quiet closes_companion before q = absurd q
shut_by-Quiet reopens_companion before q = absurd q
shut_by-Quiet _ before q = refl

pub shut_behind-Quiet :
    (acts : List Act) (before : Bool) → All Quiet acts → shut_behind acts before ≡ before
shut_behind-Quiet [] before quiet = refl
shut_behind-Quiet (a ∷ acts) before (q, quiet) =
    shut_behind-Quiet acts (shut_by a before) quiet ∙ shut_by-Quiet a before q
