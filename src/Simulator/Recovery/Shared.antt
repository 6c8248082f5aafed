-- ===== src/Simulator/Recovery/Shared.antt =====
-- Handles that find one simulator wedged share one attempt.
use simgadget.Prelude.{
  ℕ, if◌then◌else◌, ◌≡◌, refl, ap, ◌∙◌, inl, inr, false, List, [], ◌∷◌, Option, none, some, All,
  Bool-cases, Option-cases,
}
use simgadget.Prelude.Text.{Text, text_eq, text_eq_iff}
use simgadget.Registry.{Registry, recovery_in_flight, set_last_recovery_at, set_recovery_in_flight}
use simgadget.Registry.Laws.{recovery_in_flight-write}
use simgadget.Ax.Recovery.{at_least}
use simgadget.Simulator.Recovery.{
  World, recovery_cooldown_ms, ms_since_recovery, launch, begin_recovery, end_recovery, Event,
  wedged, ended, answered, passed, step, run, shares,
}
use simgadget.Simulator.Recovery.Spacing.{times}

-- The attempt on `u` does not end.
abbrev NotEnded : Text → Event → Type 0
NotEnded u (ended v) = text_eq v u ≡ false
NotEnded u _ = Unit

-- An attempt is under way, and these restarts of the bridge have been ordered.
pub record UnderWay (u : Text) (p : ℕ) (ts : List ℕ) (w : World) : Type 0 where
  in_flight : recovery_in_flight u w.registry ≡ some p
  pub ordered : times u w.restarts ≡ ts

flight-launch :
    (u v : Text) (now : ℕ) (p : Option ℕ) (r : Registry)
    → recovery_in_flight u (set_recovery_in_flight v p (set_last_recovery_at v now r))
      ≡ (if text_eq v u then p else recovery_in_flight u r)
flight-launch u v now p r =
    (recovery_in_flight-write v u now p (set_last_recovery_at v now r)).2
    ∙ ap (λ l. if text_eq v u then p else l) (recovery_in_flight-write v u now p r).1

flight-end :
    (u v : Text) (now : ℕ) (r : Registry)
    → recovery_in_flight u (set_last_recovery_at v now (set_recovery_in_flight v none r))
      ≡ (if text_eq v u then none else recovery_in_flight u r)
flight-end u v now r =
    (recovery_in_flight-write v u now none (set_recovery_in_flight v none r)).1
    ∙ (recovery_in_flight-write v u now none r).2

module _ (u : Text) (p : ℕ) (ts : List ℕ) where
  launch-UnderWay :
      (v : Text) (w : World)
      → text_eq v u ≡ false
      → UnderWay u p ts w
      → UnderWay u p ts (launch v w)
  launch-UnderWay v w other h = record {
    in_flight = rw (flight-launch u v w.now (some w.promises) w.registry, other) h.in_flight;
    ordered = rw other h.ordered;
  }

  begin-UnderWay :
      (v : Text) (w : World) → UnderWay u p ts w → UnderWay u p ts (begin_recovery v w).0
  unfolding begin_recovery
  begin-UnderWay v w h = elim (Option-cases (recovery_in_flight v w.registry)) [
    | inr (q, shared) ↦ rw (shared, begin_recovery) h
    | inl free ↦ elim (Bool-cases (text_eq v u)) [
      | inl same ↦ absurd (clash ((text_eq_iff v u).0 same) free)
      | inr other ↦ elim (Bool-cases (at_least recovery_cooldown_ms (ms_since_recovery v w))) [
        | inl due ↦ rw (free, begin_recovery) (rw due (launch-UnderWay v w other h))
        | inr early ↦ rw (free, begin_recovery) (rw early h)
      ]
    ]
  ]
    where
      clash : v ≡ u → recovery_in_flight v w.registry ≡ none → ⊥
      clash same free = cc (h.in_flight)

  step-UnderWay :
      (w : World) (e : Event) → NotEnded u e → UnderWay u p ts w → UnderWay u p ts (step w e)
  unfolding step end_recovery
  step-UnderWay w (wedged v) n h = begin-UnderWay v w h
  step-UnderWay w (ended v) n h = record {
    in_flight = rw (flight-end u v w.now w.registry, n) h.in_flight;
    ordered = h.ordered;
  }
  step-UnderWay w (answered v) n h = record {
    in_flight = rw (recovery_in_flight-write v u 0 none w.registry).0 h.in_flight;
    ordered = h.ordered;
  }
  step-UnderWay w (passed ms) n h = record { in_flight = h.in_flight; ordered = h.ordered }

  run-UnderWay :
      (w : World) (es : List Event)
      → All (NotEnded u) es
      → UnderWay u p ts w
      → UnderWay u p ts (run w es)
  unfolding run
  run-UnderWay w [] n h = h
  run-UnderWay w (e ∷ es) (n, ns) h = run-UnderWay (step w e) es ns (step-UnderWay w e n h)

-- From the order of a restart until that attempt ends, whoever finds the simulator wedged is given
-- the attempt's own promise, and no further restart is ordered for it, whatever else happens.
begin_recovery-shares :
    (u : Text) (w : World) (p : ℕ) (es : List Event)
    → recovery_in_flight u w.registry ≡ some p
    → All (NotEnded u) es
    → (begin_recovery u (run w es) ≡ (run w es, shares p))
      × (times u (run w es).restarts ≡ times u w.restarts)
unfolding begin_recovery
begin_recovery-shares u w p es flying going =
    let h =
      run-UnderWay u p (times u w.restarts) w es going
        (record { in_flight = flying; ordered = refl }) in
    (rw (h.in_flight, begin_recovery) refl, h.ordered)
