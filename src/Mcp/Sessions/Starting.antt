-- ===== src/Mcp/Sessions/Starting.antt =====
-- At most one creation is under way for a session id.
use simgadget.Prelude.{
  ◌≡◌, refl, inl, inr, true, false, List, [], ◌∷◌, some, arith, All, Bool-cases,
}
use simgadget.Prelude.Text.{Text, text_eq, text_eq_iff, text_eq_refl, member}
use simgadget.Prelude.Dict.{get-put_self}
use simgadget.Mcp.Sessions.{
  Sim, Sessions, ok, refused, already_starting, Ending, fine, not_found, failed, drop,
  with_session_end, create_begin, create_end, attach_end, destroy_end, shutdown_end, World, Event,
  without, session_of, create_begins, create_ends, attach_begins, attach_ends, destroy_begins,
  destroy_ends, session_ends, drops, shuts_down, step, run,
}

-- The creation for `id` does not end.
abbrev NotCreated : Text → Event → Type 0
NotCreated id (create_ends other ending) = text_eq other id ≡ false
NotCreated id _ = Unit

member-without_other :
    (id other : Text) (s : List Text)
    → text_eq other id ≡ false
    → member id s ≡ true
    → member id (without other s) ≡ true
unfolding member
member-without_other id other [] ne h = h
member-without_other id other (x ∷ s) ne h = ground (
  arith,
  text_eq_iff x other,
  text_eq_iff x id,
  text_eq_iff other id,
  member-without_other id other s ne,
)

member-without_self : (id : Text) (s : List Text) → member id (without id s) ≡ false
unfolding member
member-without_self id [] = refl
member-without_self id (x ∷ s) = ground (arith, member-without_self id s)

step-starting :
    (id : Text) (w : World) (e : Event)
    → NotCreated id e
    → member id w.registry.starting ≡ true
    → member id (step w e).registry.starting ≡ true
unfolding step create_begin create_end attach_end destroy_end with_session_end drop shutdown_end
    member
step-starting id w (create_begins other) n h = ground arith
step-starting id w (create_ends other (fine sim)) n h = member-without_other id other _ n h
step-starting id w (create_ends other _) n h = member-without_other id other _ n h
step-starting id w (attach_begins other) n h = h
step-starting id w (attach_ends other sim state) n h = ground arith
step-starting id w (destroy_begins other) n h = h
step-starting id w (destroy_ends other (fine _)) n h = h
step-starting id w (destroy_ends other _) n h = h
step-starting id w (session_ends other (fine _)) n h = h
step-starting id w (session_ends other _) n h = h
step-starting id w (drops other) n h = h
step-starting id w (shuts_down cleanup) n h = h

run-starting :
    (id : Text) (w : World) (es : List Event)
    → All (NotCreated id) es
    → member id w.registry.starting ≡ true
    → member id (run w es).registry.starting ≡ true
unfolding run
run-starting id w [] n h = h
run-starting id w (e ∷ es) (n, ns) h = run-starting id (step w e) es ns (step-starting id w e n h)

create_begins-starting :
    (id : Text) (w : World) → member id (step w (create_begins id)).registry.starting ≡ true
unfolding step create_begin
create_begins-starting id w = elim (Bool-cases (member id w.registry.starting)) [
  | inl busy ↦ rw busy busy
  | inr free ↦ rw free (unfold member in ground (arith, text_eq_refl id))
]

-- From the moment that a creation for an id is let through until it ends, every further one for
-- that id is refused, whatever else happens in between, a shutdown included.
create_begin_exclusive :
    (id : Text) (w : World) (es : List Event)
    → All (NotCreated id) es
    → create_begin id (run (step w (create_begins id)) es).registry ≡ refused (already_starting id)
unfolding create_begin
create_begin_exclusive id w es going =
    rw (run-starting id (step w (create_begins id)) es going (create_begins-starting id w)) refl

-- However a creation ends, the next one for the id is let through; and where it went well, the id
-- now has a session on the simulator that was made, an owned one.
create_end_frees :
    (id : Text) (ending : Ending Sim) (s : Sessions)
    → (create_begin id (create_end id ending s)
        ≡ ok
            (record (create_end id ending s) { starting = id ∷ (create_end id ending s).starting }))
      × ((sim : Sim)
          → ending ≡ fine sim
          → session_of id (create_end id ending s) ≡ some (record { sim = sim; owned = true }))
unfolding create_begin create_end session_of
create_end_frees id (fine sim) s = (
  rw (member-without_self id s.starting) refl,
  λ made e.
      let same : sim ≡ made = ground arith in
      rw (get-put_self id (record { sim = sim; owned = true }) s.sessions, same) refl,
)
create_end_frees id not_found s = (rw (member-without_self id s.starting) refl, λ sim e. cc)
create_end_frees id failed s = (rw (member-without_self id s.starting) refl, λ sim e. cc)
