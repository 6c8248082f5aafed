-- ===== src/Idb/Companions/Steps.antt =====
-- What each event does to one companion, and that the invariant is kept by it.
use simgadget.Prelude.{
  ℕ, ◌≡◌, ◌≢◌, ◌⊎◌, refl, inl, inr, if◌then◌else◌, Bool, true, false, not, ◌&&◌, Option, some,
  arith, Bool-cases,
}
use simgadget.Prelude.Text.{text_eq_iff}
use simgadget.Prelude.Dict.{get, delete, get-put, get-delete}
use simgadget.Idb.Companions.{
  Stage, absent, resolving, binding, connecting, published, Instance, Manager, update, is_live,
  is_over, with_instance, deregistered, retire, resolved, unresolved, bound, unbound, connected,
  unconnected, register, gone,
}
use simgadget.Idb.Companions.Invariant.{Sound, Inv, Changes, with_instance-Inv, deregistered-Inv}

-- A change that may also be none.
abbrev pub Evolves : Instance → Instance → Type 0
Evolves i i' = (i ≡ i') ⊎ Changes i i'

unchanged-Inv :
    (m : Manager) (g : ℕ) (i' : Instance) → Inv m → m.instances g ≡ i' → Inv (with_instance g i' m)
unchanged-Inv m g i' inv same = record {
  sound = λ h. ground (arith, inv.sound h);
  fresh = λ h le. ground (arith, inv.fresh h);
  registered = λ udid h e. ground (arith, inv.registered udid h);
  spawned = λ udid h e. ground (arith, inv.spawned udid h);
  unsettled = λ h e. ground (arith, inv.unsettled h);
  kept = λ h u. ground (arith, inv.kept h);
  single = λ udid h k e f. inv.single udid h k e f;
}

pub Evolves-Inv :
    (m : Manager) (g : ℕ) (i' : Instance)
    → Inv m
    → Evolves (m.instances g) i'
    → Inv (with_instance g i' m)
Evolves-Inv m g i' inv (inl same) = unchanged-Inv m g i' inv same
Evolves-Inv m g i' inv (inr c) = with_instance-Inv m g i' inv c

pub resolved-Evolves : (s : Stage) (i : Instance) → Sound i → i.stage ≡ s → Evolves i (resolved s i)
resolved-Evolves resolving i sound e = inr (record {
  sound = ground (arith, sound.unborn e);
  there = ground arith;
  udid = refl;
  settled = refl;
  published = ground arith;
  tended = ground arith;
})
resolved-Evolves _ i sound e = inl refl

pub unresolved-Evolves :
    (s : Stage) (i : Instance) → Sound i → i.stage ≡ s → Evolves i (unresolved s i)
unresolved-Evolves resolving i sound e = inr (record {
  sound = ground (arith, sound.unborn e);
  there = ground arith;
  udid = refl;
  settled = refl;
  published = ground arith;
  tended = ground (arith, sound.unborn e);
})
unresolved-Evolves _ i sound e = inl refl

pub bound-Evolves :
    (s : Stage) (up : Bool) (i : Instance)
    → Sound i
    → i.stage ≡ s
    → i.alive ≡ up
    → Evolves i (bound s up i)
bound-Evolves binding true i sound e running = inr (record {
  sound = ground arith;
  there = ground arith;
  udid = refl;
  settled = refl;
  published = ground arith;
  tended = ground arith;
})
bound-Evolves binding false i sound e running = inl refl
bound-Evolves _ up i sound e running = inl refl

pub unbound-Evolves : (s : Stage) (i : Instance) → Sound i → i.stage ≡ s → Evolves i (unbound s i)
unbound-Evolves binding i sound e = inr (record {
  sound = ground arith;
  there = ground arith;
  udid = refl;
  settled = refl;
  published = ground arith;
  tended = ground arith;
})
unbound-Evolves _ i sound e = inl refl

pub unconnected-Evolves :
    (s : Stage) (i : Instance) → Sound i → i.stage ≡ s → Evolves i (unconnected s i)
unconnected-Evolves connecting i sound e = inr (record {
  sound = ground arith;
  there = ground arith;
  udid = refl;
  settled = refl;
  published = ground arith;
  tended = ground arith;
})
unconnected-Evolves _ i sound e = inl refl

signalled-Changes :
    (i : Instance) → Sound i → i.stage ≡ published → Changes i (record i { signalled = true })
signalled-Changes i sound e = record {
  sound =
      ground (arith, sound.live, sound.seen, sound.void, sound.unborn, sound.unhooked, sound.done);
  there = ground arith;
  udid = refl;
  settled = refl;
  published = λ p. p;
  tended = ground arith;
}

pub retire-Inv :
    (m : Manager) (g : ℕ) → Inv m → (m.instances g).stage ≡ published → Inv (retire g m)
unfolding retire
retire-Inv m g inv e = elim (Bool-cases (is_live (m.instances g))) [
  | inl live ↦
      let i' : Instance = record (m.instances g) { signalled = true } in
      rw live (
        deregistered-Inv (with_instance g i' m) g (m.instances g).udid
          (with_instance-Inv m g i' inv (signalled-Changes _ (inv.sound g) e)) (λ u. ground arith))
  | inr dead ↦
      rw dead
        (deregistered-Inv m g (m.instances g).udid inv (λ u. ground (arith, (inv.sound g).live)))
]

gone-Changes :
    (code : Option ℕ) (i : Instance)
    → Sound i
    → i.alive ≡ true
    → i.stage ≢ absent
    → Changes i (gone code i)
gone-Changes code i sound running there = record {
  sound =
      ground (arith, sound.live, sound.seen, sound.void, sound.unborn, sound.unhooked, sound.done);
  there = there;
  udid = refl;
  settled = refl;
  published = λ p. p;
  tended = ground arith;
}

pub exit_by-Inv :
    (m : Manager) (g : ℕ) (code : Option ℕ) (running hooked : Bool)
    → Inv m
    → (m.instances g).alive ≡ running
    → Inv (
        if running
        then record m {
          companions =
              if hooked
              then deregistered g
                  (get (m.instances g).udid m.companions)
                  (m.instances g).udid
                  m.companions
              else m.companions;
          instances = update m.instances g (gone code (m.instances g));
        }
        else m)
exit_by-Inv m g code false hooked inv e = inv
exit_by-Inv m g code true hooked inv e =
    let changed : Inv (with_instance g (gone code (m.instances g)) m) =
      with_instance-Inv m g _ inv
        (gone-Changes code _ (inv.sound g) e (λ a. ground (arith, (inv.sound g).void a))) in
    unhook hooked changed
  where
    unhook :
        (hooked : Bool)
        → Inv (with_instance g (gone code (m.instances g)) m)
        → Inv (record m {
          companions =
              if hooked
              then deregistered g
                  (get (m.instances g).udid m.companions)
                  (m.instances g).udid
                  m.companions
              else m.companions;
          instances = update m.instances g (gone code (m.instances g));
        })
    unhook false changed = changed
    unhook true changed =
        deregistered-Inv (with_instance g (gone code (m.instances g)) m) g (m.instances g).udid
          changed (λ u. ground arith)

pub connect_by-Inv :
    (m : Manager) (g : ℕ) (s : Stage)
    → Inv m
    → (m.instances g).stage ≡ s
    → Inv (record m {
      companions = register s (m.instances g).udid g m.companions;
      instances = update m.instances g (connected s (m.instances g));
    })
connect_by-Inv m g connecting inv e =
    let i = m.instances g in
    let unready : i.settled ≡ false = ground (arith, (inv.sound g).done) in
    let here : get i.udid m.spawning ≡ some g = inv.unsettled g unready in
    let u = i.udid in
    record {
      sound = λ h. ground (arith, inv.sound h, (inv.sound g).live, (inv.sound g).seen);
      fresh = λ h le. ground (arith, inv.fresh h, inv.fresh g);
      registered =
          λ j h p. ground (arith, inv.registered j h, get-put j u g m.companions, text_eq_iff u j);
      spawned = λ j h p. ground (arith, inv.spawned j h);
      unsettled = λ h p. ground (arith, inv.unsettled h);
      kept = λ h p. ground (
        arith,
        inv.kept h,
        get-put (m.instances h).udid u g m.companions,
        get-put u u g m.companions,
        text_eq_iff u (m.instances h).udid,
        text_eq_iff u u,
        inv.single u h g,
        inv.registered u h,
      );
      single = λ j h k p q.
          ground (arith, inv.single j h k, get-put j u g m.companions, text_eq_iff u j);
    }
connect_by-Inv m g _ inv e = unchanged-Inv m g (m.instances g) inv refl

pub settle_by-Inv :
    (m : Manager) (g : ℕ) (over settled : Bool)
    → Inv m
    → is_over (m.instances g).stage ≡ over
    → (m.instances g).settled ≡ settled
    → Inv (
        if over && not settled
        then record m {
          spawning = delete (m.instances g).udid m.spawning;
          instances = update m.instances g (record (m.instances g) { settled = true });
        }
        else m)
settle_by-Inv m g false settled inv e f = inv
settle_by-Inv m g true true inv e f = inv
settle_by-Inv m g true false inv e f =
    let i = m.instances g in
    let u = i.udid in
    let here : get u m.spawning ≡ some g = inv.unsettled g f in
    record {
      sound = λ h.
          ground (arith, inv.sound h, (inv.sound g).live, (inv.sound g).seen, (inv.sound g).unborn);
      fresh = λ h le. ground (arith, inv.fresh h, inv.fresh g);
      registered = λ j h p. ground (arith, inv.registered j h);
      spawned =
          λ j h p. ground (arith, inv.spawned j h, get-delete j u m.spawning, text_eq_iff u j);
      unsettled = λ h p. ground (
        arith,
        inv.unsettled h,
        get-delete (m.instances h).udid u m.spawning,
        text_eq_iff u (m.instances h).udid,
      );
      kept = λ h p. ground (arith, inv.kept h);
      single = λ j h k p q. ground (arith, inv.single j h k, get-delete j u m.spawning);
    }
