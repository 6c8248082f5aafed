-- ===== src/Idb/Companions/Invariant.antt =====
-- What holds of the companion manager between any two waits.
use mathlib.Core.Path.{subst}
use simgadget.Prelude.{
  ℕ, ◌≤◌, ◌≡◌, ◌≢◌, ◌⊎◌, refl, inl, inr, true, false, Option, none, some, arith,
}
use simgadget.Prelude.Text.{Text, text_eq_iff}
use simgadget.Prelude.Dict.{Dict, get, get-put, get-delete}
use simgadget.Idb.Companions.{
  absent, resolving, connecting, published, Instance, Manager, nobody, is_live, is_over,
  with_instance, deregistered, begin_spawn,
}

-- Of one companion: what the code sees of its child is right, and where its spawn has come to.
pub record Sound (i : Instance) : Type 0 where
  pub live : i.alive ≡ true → is_live i ≡ true
  pub seen : i.hooked ≡ true → i.alive ≡ false → i.exited ≡ true
  pub void : i.stage ≡ absent → i.alive ≡ false
  pub unborn : i.stage ≡ resolving → (i.alive ≡ false) × (i.hooked ≡ false) × (is_live i ≡ true)
  pub unhooked : i.hooked ≡ false → (i.stage ≢ connecting) × (i.stage ≢ published)
  pub done : i.settled ≡ true → (i.stage ≡ absent) ⊎ (is_over i.stage ≡ true)

-- The child runs, and the code has sent it no signal.
abbrev pub Untended : Instance → Type 0
Untended i = (i.alive ≡ true) × (i.signalled ≡ false)

pub record Inv (m : Manager) : Type 0 where
  pub sound : (g : ℕ) → Sound (m.instances g)
  pub fresh : (g : ℕ) → m.next_generation ≤ g → m.instances g ≡ nobody
  pub registered :
      (udid : Text) (g : ℕ)
      → get udid m.companions ≡ some g
      → ((m.instances g).udid ≡ udid) × ((m.instances g).stage ≡ published)
  pub spawned :
      (udid : Text) (g : ℕ)
      → get udid m.spawning ≡ some g
      → ((m.instances g).udid ≡ udid) × ((m.instances g).settled ≡ false)
  pub unsettled :
      (g : ℕ) → (m.instances g).settled ≡ false → get (m.instances g).udid m.spawning ≡ some g
  pub kept :
      (g : ℕ)
      → Untended (m.instances g)
      → (is_over (m.instances g).stage ≡ false) ⊎ (get (m.instances g).udid m.companions ≡ some g)
  pub single :
      (udid : Text) (g h : ℕ)
      → get udid m.companions ≡ some g
      → get udid m.spawning ≡ some h
      → g ≡ h

-- A companion that changes within its life: it stays the same simulator's, and in the same place.
pub record Changes (i i' : Instance) : Type 0 where
  pub sound : Sound i'
  pub there : i.stage ≢ absent
  pub udid : i'.udid ≡ i.udid
  pub settled : i'.settled ≡ i.settled
  pub published : i.stage ≡ published → i'.stage ≡ published
  pub tended :
      Untended i' → (Untended i × (is_over i.stage ≡ is_over i'.stage)) ⊎ (is_over i'.stage ≡ false)

pub with_instance-Inv :
    (m : Manager) (g : ℕ) (i' : Instance)
    → Inv m
    → Changes (m.instances g) i'
    → Inv (with_instance g i' m)
with_instance-Inv m g i' inv c = record {
  sound = λ h. ground (arith, inv.sound h, c.sound);
  fresh = λ h le. ground (arith, inv.fresh h, inv.fresh g, c.there);
  registered = λ udid h e. ground (arith, inv.registered udid h, c.udid, c.published);
  spawned = λ udid h e. ground (arith, inv.spawned udid h, c.udid, c.settled);
  unsettled = λ h e. ground (arith, inv.unsettled h, c.udid, c.settled);
  kept = λ h u. ground (arith, inv.kept h, c.udid, c.tended);
  single = λ udid h k e f. ground (arith, inv.single udid h k);
}

pub get-deregistered :
    (g : ℕ) (u j : Text) (o : Option ℕ) (companions : Dict ℕ) (k : ℕ)
    → get u companions ≡ o
    → get j (deregistered g o u companions) ≡ some k
    → get j companions ≡ some k
get-deregistered g u j none companions k e h = h
get-deregistered g u j (some l) companions k e h = ground (arith, get-delete j u companions)

pub stays_registered :
    (g : ℕ) (u j : Text) (o : Option ℕ) (companions : Dict ℕ) (k : ℕ)
    → get u companions ≡ o
    → get j companions ≡ some k
    → k ≢ g
    → get j (deregistered g o u companions) ≡ some k
stays_registered g u j none companions k e h other = h
stays_registered g u j (some l) companions k e h other =
    ground (arith, get-delete j u companions, text_eq_iff u j)

-- One that is dead or signalled may leave the table.
pub deregistered-Inv :
    (m : Manager) (g : ℕ) (udid : Text)
    → Inv m
    → ¬ (Untended (m.instances g))
    → Inv (record m { companions = deregistered g (get udid m.companions) udid m.companions })
deregistered-Inv m g udid inv tended = record {
  sound = inv.sound;
  fresh = inv.fresh;
  registered = λ j h e. inv.registered j h (was j h e);
  spawned = inv.spawned;
  unsettled = inv.unsettled;
  kept = λ h u. elim (inv.kept h u) [
    | inl early ↦ inl early
    | inr at ↦ inr (
        stays_registered g udid (m.instances h).udid _ m.companions h refl at
          (λ e. tended (subst (λ k. Untended (m.instances k)) e u)))
  ];
  single = λ j h k e f. inv.single j h k (was j h e) f;
}
  where
    was :
        (j : Text) (h : ℕ)
        → get j (deregistered g (get udid m.companions) udid m.companions) ≡ some h
        → get j m.companions ≡ some h
    was j h e = get-deregistered g udid j _ m.companions h refl e

-- A spawn begins where neither a companion nor a spawn is noted.
pub begin_spawn-Inv :
    (m : Manager) (udid : Text)
    → Inv m
    → get udid m.companions ≡ none
    → get udid m.spawning ≡ none
    → Inv (begin_spawn udid m)
unfolding begin_spawn
begin_spawn-Inv m udid inv cold quiet = record {
  sound = λ h. ground (arith, inv.sound h);
  fresh = λ h le. ground (arith, inv.fresh h);
  registered = λ j h e. ground (arith, inv.registered j h, inv.fresh h);
  spawned = λ j h e. ground (
    arith,
    inv.spawned j h,
    inv.fresh h,
    get-put j udid m.next_generation m.spawning,
    text_eq_iff udid j,
  );
  unsettled = λ h e. ground (
    arith,
    inv.unsettled h,
    inv.fresh h,
    get-put (m.instances h).udid udid m.next_generation m.spawning,
    get-put udid udid m.next_generation m.spawning,
    text_eq_iff udid (m.instances h).udid,
    text_eq_iff udid udid,
  );
  kept = λ h u. ground (arith, inv.kept h);
  single = λ j h k e f.
      ground
        (arith, inv.single j h k, get-put j udid m.next_generation m.spawning, text_eq_iff udid j);
}
