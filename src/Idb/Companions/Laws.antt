-- ===== src/Idb/Companions/Laws.antt =====
-- One companion for each simulator, none forgotten, and none stopped in another's place.
use simgadget.Prelude.{
  ℕ, ◌≡◌, ◌≢◌, ◌⊎◌, refl, inl, inr, if◌then◌else◌, Bool, true, false, List, Option, none, some,
  arith, Bool-cases,
}
use simgadget.Prelude.Text.{Text, member}
use simgadget.Prelude.Dict.{get}
use simgadget.Idb.Companions.{
  Stage, published, Manager, new_manager, update, is_live, deregistered, retire, cold, warm,
  companion_for, gone, Event, retires, exits, step, run, Answer, refused, gives, with_found,
  retire_at,
}
use simgadget.Idb.Companions.Invariant.{Untended, Inv}
use simgadget.Idb.Companions.Invariant.{stays_registered}
use simgadget.Idb.Companions.Kept.{run-Inv}

pub tended_by-Inv :
    (m : Manager) (g : ℕ)
    → Inv m
    → Untended (m.instances g)
    → (get (m.instances g).udid m.spawning ≡ some g)
      ⊎ (get (m.instances g).udid m.companions ≡ some g)
tended_by-Inv m g inv u = elim (inv.kept g u) [
  | inr at ↦ inr at
  | inl early ↦ elim (Bool-cases (m.instances g).settled) [
    | inr unsettled ↦ inl (inv.unsettled g unsettled)
    | inl settled ↦ elim ((inv.sound g).done settled) [
      | inl void ↦ ground (arith, (inv.sound g).void void)
      | inr over ↦ ground arith
    ]
  ]
]

single-Inv :
    (m : Manager) (g h : ℕ)
    → Inv m
    → Untended (m.instances g)
    → Untended (m.instances h)
    → (m.instances g).udid ≡ (m.instances h).udid
    → g ≡ h
single-Inv m g h inv u v same = ground (
  arith,
  tended_by-Inv m g inv u,
  tended_by-Inv m h inv v,
  inv.single (m.instances g).udid g h,
  inv.single (m.instances g).udid h g,
)

-- However calls, failures and deaths interleave: a companion process that runs and has been sent no
-- signal is the one registered for its simulator or the one that its spawn is under way for, so a
-- shutdown or the next call finds it; and no simulator has two of them.
pub one_known_companion :
    (es : List Event)
    → let m = run new_manager es in
      (g : ℕ)
      → Untended (m.instances g)
      → ((get (m.instances g).udid m.spawning ≡ some g)
          ⊎ (get (m.instances g).udid m.companions ≡ some g))
        × ((h : ℕ) → Untended (m.instances h) → (m.instances g).udid ≡ (m.instances h).udid → g ≡ h)
one_known_companion es g u =
    let m = run new_manager es in
    (tended_by-Inv m g (run-Inv es) u, λ h v same. single-Inv m g h (run-Inv es) u v same)

gives-found :
    (m : Manager) (udid : Text) (found : Option ℕ) (g : ℕ)
    → (with_found udid found m).1 ≡ gives g
    → (found ≡ some g) × (is_live (m.instances g) ≡ true)
unfolding with_found warm cold
gives-found m udid none g e = ground arith
gives-found m udid (some h) g e = ground arith

gives-allowed :
    (shut : Bool) (m : Manager) (rest : Manager × Answer) (g : ℕ)
    → (if shut then (m, refused) else rest).1 ≡ gives g
    → (shut ≡ false) × (rest.1 ≡ gives g)
gives-allowed true m rest g e = ground arith
gives-allowed false m rest g e = (refl, e)

-- A companion that a call is given was spawned for the simulator asked for, its channel has come up,
-- its process runs, and the simulator is not closed.
companion_for-gives :
    (es : List Event) (udid : Text) (g : ℕ)
    → let m = run new_manager es in
      (companion_for udid m).1 ≡ gives g
      → (member udid m.closed ≡ false)
        × ((m.instances g).udid ≡ udid)
        × ((m.instances g).stage ≡ published)
        × ((m.instances g).alive ≡ true)
unfolding companion_for
companion_for-gives es udid g e =
    let m = run new_manager es in
    let inv = run-Inv es in
    let (open_for, given) = gives-allowed (member udid m.closed) m _ g e in
    let (at, live) = gives-found m udid (get udid m.companions) g given in
    let (same, out) = inv.registered udid g at in
    (open_for, same, out, ground (arith, (inv.sound g).seen, (inv.sound g).unhooked))

keeps-retire_at :
    (m : Manager) (udid : Text) (g h : ℕ) (s : Stage)
    → get udid m.companions ≡ some h
    → h ≢ g
    → get udid (retire_at s g m).companions ≡ some h
unfolding retire_at retire
keeps-retire_at m udid g h published at other =
    stays_registered g (m.instances g).udid udid _ m.companions h refl at other
keeps-retire_at m udid g h _ at other = at

keeps-exit :
    (m : Manager) (udid : Text) (g h : ℕ) (code : Option ℕ) (running hooked : Bool)
    → get udid m.companions ≡ some h
    → h ≢ g
    → get udid
        (if running
          then record m {
            companions =
                if hooked
                then deregistered g
                    (get (m.instances g).udid m.companions)
                    (m.instances g).udid
                    m.companions
                else m.companions;
            instances = update m.instances g (gone code (m.instances g));
          }
          else m).companions
      ≡ some h
keeps-exit m udid g h code false hooked at other = at
keeps-exit m udid g h code true false at other = at
keeps-exit m udid g h code true true at other =
    stays_registered g (m.instances g).udid udid _ m.companions h refl at other

-- Neither the retirement of a companion nor its death takes any other out of the table: a late one
-- leaves the replacement in place.
late_end_spares :
    (m : Manager) (udid : Text) (g h : ℕ) (code : Option ℕ)
    → get udid m.companions ≡ some h
    → h ≢ g
    → (get udid (step m (retires g)).companions ≡ some h)
      × (get udid (step m (exits g code)).companions ≡ some h)
unfolding step
late_end_spares m udid g h code at other =
    (keeps-retire_at m udid g h _ at other, keeps-exit m udid g h code _ _ at other)
