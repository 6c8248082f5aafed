-- ===== src/Idb/Companions/Kept.antt =====
-- Whatever happens, the companion manager keeps its invariant.
use simgadget.Prelude.{
  ℕ, ◌≡◌, refl, inl, inr, if◌then◌else◌, Bool, true, false, List, [], ◌∷◌, Option, none, some,
  arith, Option-cases,
}
use simgadget.Prelude.Text.{Text, text_eq_iff, member}
use simgadget.Prelude.Dict.{get, get-delete}
use simgadget.Idb.Companions.{
  Stage, published, Manager, new_manager, is_live, retire, cold, warm, companion_for, stop,
  shutdown, Event, asks, shuts_down, shuts_all_down, shutdown_each, keys, stops, closes, reopens,
  resolves, fails_to_resolve, binds, fails_to_bind, connects, fails_to_connect, settles, retires,
  exits, step, run, Answer, refused, gives, with_found, retire_at,
}
use simgadget.Idb.Companions.Invariant.{Inv, begin_spawn-Inv}
use simgadget.Idb.Companions.Steps.{
  retire-Inv, exit_by-Inv, connect_by-Inv, settle_by-Inv, Evolves-Inv, resolved-Evolves,
  unresolved-Evolves, bound-Evolves, unbound-Evolves, unconnected-Evolves,
}

-- A companion that is retired is no longer registered.
pub retire-gone :
    (m : Manager) (udid : Text) (g : ℕ)
    → Inv m
    → get udid m.companions ≡ some g
    → get udid (retire g m).companions ≡ none
unfolding retire
retire-gone m udid g inv at =
    let (same, _) = inv.registered udid g at in
    rw (same, at) (ground (arith, get-delete udid udid m.companions, text_eq_iff udid udid))

retire-spawning : (m : Manager) (g : ℕ) → (retire g m).spawning ≡ m.spawning
unfolding retire
retire-spawning m g = refl

cold-Inv : (m : Manager) (udid : Text) → Inv m → get udid m.companions ≡ none → Inv (cold udid m).0
unfolding cold
cold-Inv m udid inv none_at = elim (Option-cases (get udid m.spawning)) [
  | inl quiet ↦ rw (quiet, cold) (begin_spawn-Inv m udid inv none_at quiet)
  | inr (g, under_way) ↦ rw (under_way, cold) inv
]

-- What holds after both branches of a test holds after the test.
pub either-keeps {ℓ} :
    (P : Manager → Type ℓ) (test : Bool) (x y : Manager × Answer)
    → P x.0
    → P y.0
    → P (if test then x else y).0
either-keeps P true x y first second = first
either-keeps P false x y first second = second

warm-Inv :
    (m : Manager) (udid : Text) (g : ℕ)
    → Inv m
    → get udid m.companions ≡ some g
    → Inv (warm udid g m).0
unfolding warm
warm-Inv m udid g inv at =
    either-keeps Inv (is_live (m.instances g)) (m, gives g) (cold udid (retire g m)) inv
      (cold-Inv (retire g m) udid (retire-Inv m g inv (inv.registered udid g at).1)
        (retire-gone m udid g inv at))

looked_up-Inv :
    (m : Manager) (udid : Text) (found : Option ℕ)
    → Inv m
    → get udid m.companions ≡ found
    → Inv (with_found udid found m).0
unfolding with_found
looked_up-Inv m udid none inv e = cold-Inv m udid inv e
looked_up-Inv m udid (some g) inv e = warm-Inv m udid g inv e

companion_for-Inv : (m : Manager) (udid : Text) → Inv m → Inv (companion_for udid m).0
unfolding companion_for
companion_for-Inv m udid inv =
    either-keeps Inv (member udid m.closed) (m, refused) _ inv
      (looked_up-Inv m udid (get udid m.companions) inv refl)

stop-Inv : (m : Manager) (udid : Text) → Inv m → Inv (stop udid m)
unfolding stop
stop-Inv m udid inv = elim (Option-cases (get udid m.companions)) [
  | inl nothing ↦ rw (nothing, stop) inv
  | inr (g, at) ↦ rw (at, stop) (retire-Inv m g inv (inv.registered udid g at).1)
]

shutdown-Inv : (m : Manager) (udid : Text) → Inv m → Inv (shutdown udid m)
unfolding shutdown
shutdown-Inv m udid inv = elim (Option-cases (get udid m.spawning)) [
  | inl quiet ↦ rw (quiet, shutdown) (stop-Inv m udid inv)
  | inr (g, under_way) ↦ rw (under_way, shutdown) inv
]

-- The invariant does not read which simulators are closed.
with_closed-Inv : (m : Manager) (closed : List Text) → Inv m → Inv (record m { closed = closed })
with_closed-Inv m closed inv = record {
  sound = inv.sound;
  fresh = inv.fresh;
  registered = inv.registered;
  spawned = inv.spawned;
  unsettled = inv.unsettled;
  kept = inv.kept;
  single = inv.single;
}

retires_by-Inv :
    (m : Manager) (g : ℕ) (s : Stage) → Inv m → (m.instances g).stage ≡ s → Inv (retire_at s g m)
unfolding retire_at
retires_by-Inv m g published inv e = retire-Inv m g inv e
retires_by-Inv m g _ inv e = inv

shutdown_each-Inv : (m : Manager) (udids : List Text) → Inv m → Inv (shutdown_each udids m)
unfolding shutdown_each
shutdown_each-Inv m [] inv = inv
shutdown_each-Inv m (udid ∷ udids) inv =
    shutdown_each-Inv (shutdown udid m) udids (shutdown-Inv m udid inv)

pub step-Inv : (m : Manager) (e : Event) → Inv m → Inv (step m e)
unfolding step
step-Inv m (asks udid) inv = companion_for-Inv m udid inv
step-Inv m (shuts_down udid) inv = shutdown-Inv m udid inv
step-Inv m shuts_all_down inv = shutdown_each-Inv m (keys m.companions) inv
step-Inv m (stops udid) inv = stop-Inv m udid inv
step-Inv m (closes udid) inv =
    shutdown-Inv (record m { closed = udid ∷ m.closed }) udid (with_closed-Inv m _ inv)
step-Inv m (reopens udid) inv = with_closed-Inv m _ inv
step-Inv m (resolves g) inv = Evolves-Inv m g _ inv (resolved-Evolves _ _ (inv.sound g) refl)
step-Inv m (fails_to_resolve g) inv =
    Evolves-Inv m g _ inv (unresolved-Evolves _ _ (inv.sound g) refl)
step-Inv m (binds g) inv = Evolves-Inv m g _ inv (bound-Evolves _ _ _ (inv.sound g) refl refl)
step-Inv m (fails_to_bind g) inv = Evolves-Inv m g _ inv (unbound-Evolves _ _ (inv.sound g) refl)
step-Inv m (connects g) inv = connect_by-Inv m g _ inv refl
step-Inv m (fails_to_connect g) inv =
    Evolves-Inv m g _ inv (unconnected-Evolves _ _ (inv.sound g) refl)
step-Inv m (settles g) inv = settle_by-Inv m g _ _ inv refl refl
step-Inv m (retires g) inv = retires_by-Inv m g _ inv refl
step-Inv m (exits g code) inv = exit_by-Inv m g code _ _ inv refl

new_manager-Inv : Inv new_manager
unfolding get
new_manager-Inv = record {
  sound = λ g. record {
    live = ground arith;
    seen = ground arith;
    void = ground arith;
    unborn = ground arith;
    unhooked = ground arith;
    done = ground arith;
  };
  fresh = λ g le. refl;
  registered = λ udid g e. ground arith;
  spawned = λ udid g e. ground arith;
  unsettled = λ g e. ground arith;
  kept = λ g u. ground arith;
  single = λ udid g h e f. ground arith;
}

pub run_from-Inv : (m : Manager) (es : List Event) → Inv m → Inv (run m es)
unfolding run
run_from-Inv m [] inv = inv
run_from-Inv m (e ∷ es) inv = run_from-Inv (step m e) es (step-Inv m e inv)

pub run-Inv : (es : List Event) → Inv (run new_manager es)
run-Inv es = run_from-Inv new_manager es new_manager-Inv
