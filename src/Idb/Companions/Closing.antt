-- ===== src/Idb/Companions/Closing.antt =====
-- What closing a simulator guarantees.
use simgadget.Prelude.{
  ℕ, ◌≡◌, ◌≢◌, refl, inl, inr, if◌then◌else◌, Bool, true, false, not, List, [], ◌∷◌, Option, none,
  filter, All, some, arith, Bool-cases, Option-cases,
}
use simgadget.Prelude.Text.{Text, text_eq, text_eq_iff, member}
use simgadget.Prelude.Dict.{Dict, get, delete, get-put, get-delete}
use simgadget.Idb.Companions.{
  Stage, connecting, published, Instance, Manager, new_manager, update, is_live, deregistered,
  retire, begin_spawn, cold, warm, companion_for, stop, shutdown, close, reopen, register, Event,
  asks, shuts_down, shuts_all_down, shutdown_each, keys, stops, closes, reopens, resolves,
  fails_to_resolve, binds, fails_to_bind, connects, fails_to_connect, settles, retires, exits, step,
  run, refused, gives, with_found, retire_at,
}
use simgadget.Idb.Companions.Invariant.{Inv}
use simgadget.Idb.Companions.Invariant.{get-deregistered}
use simgadget.Idb.Companions.Laws.{tended_by-Inv}
use simgadget.Idb.Companions.Kept.{run-Inv, run_from-Inv, step-Inv, retire-gone, either-keeps}

-- The simulator is closed, and nothing of it is registered or under way.
pub record Shut (udid : Text) (m : Manager) : Type 0 where
  pub closed : member udid m.closed ≡ true
  pub no_companion : get udid m.companions ≡ none
  pub no_spawn : get udid m.spawning ≡ none

-- No event but its reopening.
abbrev pub NoReopen : Text → Event → Type 0
NoReopen udid (reopens other) = other ≢ udid
NoReopen udid _ = Unit

none_left :
    (g : ℕ) (u j : Text) (companions : Dict ℕ)
    → get j companions ≡ none
    → get j (deregistered g (get u companions) u companions) ≡ none
none_left g u j companions e =
    elim (Option-cases (get j (deregistered g (get u companions) u companions))) [
      | inl nothing ↦ nothing
      | inr (h, at) ↦ ground (arith, get-deregistered g u j _ companions h refl at)
    ]

retire-Shut : (udid : Text) (m : Manager) (g : ℕ) → Shut udid m → Shut udid (retire g m)
unfolding retire
retire-Shut udid m g s = record {
  closed = s.closed;
  no_companion = none_left g (m.instances g).udid udid m.companions s.no_companion;
  no_spawn = s.no_spawn;
}

cold-Shut : (udid j : Text) (m : Manager) → j ≢ udid → Shut udid m → Shut udid (cold j m).0
unfolding cold begin_spawn
cold-Shut udid j m other s = elim (Option-cases (get j m.spawning)) [
  | inl quiet ↦
      rw (quiet, cold)
        (record {
          closed = s.closed;
          no_companion = s.no_companion;
          no_spawn =
              ground (
                arith,
                s.no_spawn,
                get-put udid j m.next_generation m.spawning,
                text_eq_iff j udid,
              );
        })
  | inr (g, under_way) ↦ rw (under_way, cold) s
]

found-Shut :
    (udid j : Text) (found : Option ℕ) (m : Manager)
    → j ≢ udid
    → Shut udid m
    → Shut udid (with_found j found m).0
unfolding with_found warm
found-Shut udid j none m other s = cold-Shut udid j m other s
found-Shut udid j (some g) m other s =
    either-keeps (Shut udid) (is_live (m.instances g)) (m, gives g) _ s
      (cold-Shut udid j (retire g m) other (retire-Shut udid m g s))

ask-Shut : (udid j : Text) (m : Manager) → Shut udid m → Shut udid (companion_for j m).0
unfolding companion_for
ask-Shut udid j m s = elim (Bool-cases (member j m.closed)) [
  | inl shut ↦ rw (shut, companion_for) s
  | inr not_shut ↦
      rw (not_shut, companion_for)
        (found-Shut udid j (get j m.companions) m
          (λ same.
            let open_for : member udid m.closed ≡ false = rw (← same) not_shut in cc (s.closed))
          s)
]

stop-Shut : (udid j : Text) (m : Manager) → Shut udid m → Shut udid (stop j m)
unfolding stop
stop-Shut udid j m s = elim (Option-cases (get j m.companions)) [
  | inl nothing ↦ rw (nothing, stop) s
  | inr (g, at) ↦ rw (at, stop) (retire-Shut udid m g s)
]

shutdown-Shut : (udid j : Text) (m : Manager) → Shut udid m → Shut udid (shutdown j m)
unfolding shutdown
shutdown-Shut udid j m s = elim (Option-cases (get j m.spawning)) [
  | inl quiet ↦ rw (quiet, shutdown) (stop-Shut udid j m s)
  | inr (g, under_way) ↦ rw (under_way, shutdown) s
]

shutdown_each-Shut :
    (udid : Text) (udids : List Text) (m : Manager)
    → Shut udid m
    → Shut udid (shutdown_each udids m)
unfolding shutdown_each
shutdown_each-Shut udid [] m s = s
shutdown_each-Shut udid (j ∷ udids) m s =
    shutdown_each-Shut udid udids (shutdown j m) (shutdown-Shut udid j m s)

close-Shut : (udid j : Text) (m : Manager) → Shut udid m → Shut udid (close j m)
unfolding close member
close-Shut udid j m s =
    shutdown-Shut udid j (record m { closed = j ∷ m.closed })
      (record {
        closed = ground (arith, s.closed);
        no_companion = s.no_companion;
        no_spawn = s.no_spawn;
      })

member-reopened :
    (udid j : Text) (closed : List Text)
    → j ≢ udid
    → member udid closed ≡ true
    → member udid (filter (λ x. not (text_eq x j)) closed) ≡ true
unfolding member
member-reopened udid j [] other e = e
member-reopened udid j (x ∷ xs) other e = ground (
  arith,
  text_eq_iff x j,
  text_eq_iff udid x,
  text_eq_iff x udid,
  member-reopened udid j xs other,
)

reopen-Shut : (udid j : Text) (m : Manager) → j ≢ udid → Shut udid m → Shut udid (reopen j m)
unfolding reopen
reopen-Shut udid j m other s = record {
  closed = member-reopened udid j m.closed other s.closed;
  no_companion = s.no_companion;
  no_spawn = s.no_spawn;
}

connect-Shut :
    (udid : Text) (m : Manager) (g : ℕ) (stage : Stage)
    → Inv m
    → Shut udid m
    → (m.instances g).stage ≡ stage
    → get udid (register stage (m.instances g).udid g m.companions) ≡ none
connect-Shut udid m g connecting inv s e =
    let unready : (m.instances g).settled ≡ false = ground (arith, (inv.sound g).done) in
    ground (
      arith,
      get-put udid (m.instances g).udid g m.companions,
      text_eq_iff (m.instances g).udid udid,
      inv.unsettled g unready,
      s.no_companion,
      s.no_spawn,
    )
connect-Shut udid m g _ inv s e = s.no_companion

retire_at-Shut :
    (udid : Text) (m : Manager) (g : ℕ) (stage : Stage)
    → Shut udid m
    → Shut udid (retire_at stage g m)
unfolding retire_at
retire_at-Shut udid m g published s = retire-Shut udid m g s
retire_at-Shut udid m g _ s = s

-- Only the instances have changed.
instances-Shut :
    (udid : Text) (m : Manager) (instances : ℕ → Instance)
    → Shut udid m
    → Shut udid (record m { instances = instances })
instances-Shut udid m instances s = record {
  closed = s.closed;
  no_companion = s.no_companion;
  no_spawn = s.no_spawn;
}

settle-Shut :
    (udid : Text) (m : Manager) (g : ℕ) (test : Bool) (i : Instance)
    → Shut udid m
    → Shut udid (
        if test
        then record m {
          spawning = delete (m.instances g).udid m.spawning;
          instances = update m.instances g i;
        }
        else m)
settle-Shut udid m g false i s = s
settle-Shut udid m g true i s = record {
  closed = s.closed;
  no_companion = s.no_companion;
  no_spawn = ground (arith, get-delete udid (m.instances g).udid m.spawning, s.no_spawn);
}

exit-Shut :
    (udid : Text) (m : Manager) (g : ℕ) (running hooked : Bool) (i : Instance)
    → Shut udid m
    → Shut udid (
        if running
        then record m {
          companions =
              if hooked
              then deregistered g
                  (get (m.instances g).udid m.companions)
                  (m.instances g).udid
                  m.companions
              else m.companions;
          instances = update m.instances g i;
        }
        else m)
exit-Shut udid m g false hooked i s = s
exit-Shut udid m g true false i s = instances-Shut udid m _ s
exit-Shut udid m g true true i s = record {
  closed = s.closed;
  no_companion = none_left g (m.instances g).udid udid m.companions s.no_companion;
  no_spawn = s.no_spawn;
}

step-Shut :
    (udid : Text) (m : Manager) (e : Event)
    → Inv m
    → NoReopen udid e
    → Shut udid m
    → Shut udid (step m e)
unfolding step
step-Shut udid m (asks j) inv same s = ask-Shut udid j m s
step-Shut udid m (shuts_down j) inv same s = shutdown-Shut udid j m s
step-Shut udid m shuts_all_down inv same s = shutdown_each-Shut udid (keys m.companions) m s
step-Shut udid m (stops j) inv same s = stop-Shut udid j m s
step-Shut udid m (closes j) inv same s = close-Shut udid j m s
step-Shut udid m (reopens j) inv other s = reopen-Shut udid j m other s
step-Shut udid m (connects g) inv same s = record {
  closed = s.closed;
  no_companion = connect-Shut udid m g _ inv s refl;
  no_spawn = s.no_spawn;
}
step-Shut udid m (settles g) inv same s = settle-Shut udid m g _ _ s
step-Shut udid m (retires g) inv same s = retire_at-Shut udid m g _ s
step-Shut udid m (exits g code) inv same s = exit-Shut udid m g _ _ _ s
step-Shut udid m (resolves g) inv same s = instances-Shut udid m _ s
step-Shut udid m (fails_to_resolve g) inv same s = instances-Shut udid m _ s
step-Shut udid m (binds g) inv same s = instances-Shut udid m _ s
step-Shut udid m (fails_to_bind g) inv same s = instances-Shut udid m _ s
step-Shut udid m (fails_to_connect g) inv same s = instances-Shut udid m _ s

run-Shut :
    (udid : Text) (m : Manager) (es : List Event)
    → Inv m
    → All (NoReopen udid) es
    → Shut udid m
    → Shut udid (run m es)
unfolding run
run-Shut udid m [] inv none_of_them s = s
run-Shut udid m (e ∷ es) inv (first, rest) s =
    run-Shut udid (step m e) es (step-Inv m e inv) rest (step-Shut udid m e inv first s)

stopped-Shut :
    (udid : Text) (m : Manager)
    → Inv m
    → member udid m.closed ≡ true
    → get udid m.spawning ≡ none
    → Shut udid (stop udid m)
unfolding stop retire
stopped-Shut udid m inv shut quiet = elim (Option-cases (get udid m.companions)) [
  | inl nothing ↦
      rw (nothing, stop) (record { closed = shut; no_companion = nothing; no_spawn = quiet })
  | inr (g, at) ↦
      rw (at, stop)
        (record { closed = shut; no_companion = retire-gone m udid g inv at; no_spawn = quiet })
]

refused-closed :
    (udid : Text) (m : Manager) → member udid m.closed ≡ true → companion_for udid m ≡ (m, refused)
unfolding companion_for
refused-closed udid m shut = rw (shut, companion_for) refl

told-closed :
    (udid : Text) (m : Manager)
    → Inv m
    → Shut udid m
    → (g : ℕ) → (m.instances g).alive ≡ true
    → (m.instances g).udid ≡ udid
    → (m.instances g).signalled ≡ true
told-closed udid m inv s g running same = elim (Bool-cases (m.instances g).signalled) [
  | inl told ↦ told
  | inr untold ↦
      ground (arith, tended_by-Inv m g inv (running, untold), s.no_companion, s.no_spawn, same)
]

-- Once `close` has waited for the spawn under way, if there was one, and has stopped the companion:
-- whatever happens after that, short of a `reopen`, no companion of the simulator is registered or
-- under way, a call for one is refused and changes nothing, and each process of it that still runs has
-- been told to stop.
closed_stays :
    (udid : Text) (before after : List Event)
    → member udid (run new_manager before).closed ≡ true
    → get udid (run new_manager before).spawning ≡ none
    → All (NoReopen udid) after
    → let m = run (step (run new_manager before) (stops udid)) after in
      Shut udid m
      × (companion_for udid m ≡ (m, refused))
      × ((g : ℕ)
          → (m.instances g).alive ≡ true
          → (m.instances g).udid ≡ udid
          → (m.instances g).signalled ≡ true)
unfolding step
closed_stays udid before after shut quiet only =
    let m = run (step (run new_manager before) (stops udid)) after in
    let stopped : Inv (step (run new_manager before) (stops udid)) =
      step-Inv _ (stops udid) (run-Inv before) in
    let inv : Inv m = run_from-Inv _ after stopped in
    let s : Shut udid m =
      run-Shut udid _ after stopped only (stopped-Shut udid _ (run-Inv before) shut quiet) in
    (s, refused-closed udid m s.closed, told-closed udid m inv s)
