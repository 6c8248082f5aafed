-- ===== src/Mcp/Sessions/Ownership.antt =====
-- Only simulators that this server created are ever deleted.
use mathlib.Core.List.{map}
use simgadget.Prelude.{
  ◌≡◌, inl, inr, Bool, true, ◌&&◌, List, [], ◌∷◌, some, arith, All, All-append, Bool-cases,
  Option-cases,
}
use simgadget.Prelude.Text.{Text, text, text_eq, text_eq_refl, member}
use simgadget.Prelude.Dict.{Dict, get, put, delete}
use simgadget.Mcp.Sessions.{
  Sim, SimSession, Ending, fine, not_found, failed, require, drop, with_session_end, create_begin,
  create_end, attach_end, Teardown, deletes, releases, teardown_of, destroy_begin, destroy_end,
  values, shutdown_teardowns, shutdown_end, World, Event, create_begins, create_ends, attach_begins,
  attach_ends, destroy_begins, destroy_ends, session_ends, drops, shuts_down, order, step, run,
  new_world,
}

-- A session that is owned is of a created simulator.
abbrev OwnedMade : List Text → Text × SimSession → Type 0
OwnedMade created (id, session) = session.owned ≡ true → member session.sim.udid created ≡ true

-- A simulator that is deleted is a created one.
abbrev pub DeletesMade : List Text → Teardown → Type 0
DeletesMade created (deletes udid) = member udid created ≡ true
DeletesMade created (releases udid) = Unit

pub record Inv (w : World) : Type 0 where
  pub owned : All (OwnedMade w.created) w.registry.sessions
  pub deleted : All (DeletesMade w.created) w.ordered

All-put :
    (c : List Text) (id : Text) (v : SimSession) (m : Dict SimSession)
    → OwnedMade c (id, v)
    → All (OwnedMade c) m
    → All (OwnedMade c) (put id v m)
unfolding put
All-put c id v [] h a = (h, tt)
All-put c id v ((k, w) ∷ m) h (p, a) = elim (Bool-cases (text_eq k id)) [
  | inl same ↦ rw (same, All) (h, a)
  | inr other ↦ rw (other, All) (p, All-put c id v m h a)
]

All-delete :
    (c : List Text) (id : Text) (m : Dict SimSession)
    → All (OwnedMade c) m
    → All (OwnedMade c) (delete id m)
unfolding delete
All-delete c id [] a = tt
All-delete c id ((k, w) ∷ m) (p, a) = elim (Bool-cases (text_eq k id)) [
  | inl same ↦ rw (same, All) (All-delete c id m a)
  | inr other ↦ rw (other, All) (p, All-delete c id m a)
]

All-get :
    (c : List Text) (id : Text) (m : Dict SimSession) (v : SimSession)
    → All (OwnedMade c) m
    → get id m ≡ some v
    → OwnedMade c (id, v)
unfolding get
All-get c id [] v a e = cc
All-get c id ((k, w) ∷ m) v (p, a) e = elim (Bool-cases (text_eq k id)) [
  | inl same ↦ let eq : w ≡ v = ground arith in rw (← eq) p
  | inr other ↦ All-get c id m v a (ground arith)
]

teardown-DeletesMade :
    (c : List Text) (cleanup : Bool) (id : Text) (v : SimSession)
    → OwnedMade c (id, v)
    → DeletesMade c (teardown_of cleanup v)
teardown-DeletesMade c cleanup id v h = elim (Bool-cases (v.owned && cleanup)) [
  | inl both ↦ rw (both, DeletesMade) (h (ground arith))
  | inr not_both ↦ rw (not_both, DeletesMade) tt
]

-- Making one more simulator keeps what is known.
member-cons : (u v : Text) (c : List Text) → member u c ≡ true → member u (v ∷ c) ≡ true
unfolding member
member-cons u v c h = ground arith

member-head : (u : Text) (c : List Text) → member u (u ∷ c) ≡ true
unfolding member
member-head u c = ground (arith, text_eq_refl u)

All-owned_cons :
    (v : Text) (c : List Text) (m : Dict SimSession)
    → All (OwnedMade c) m
    → All (OwnedMade (v ∷ c)) m
All-owned_cons v c [] a = tt
All-owned_cons v c ((k, w) ∷ m) (p, a) =
    (λ o. member-cons w.sim.udid v c (p o), All-owned_cons v c m a)

All-deletes_cons :
    (v : Text) (c : List Text) (ts : List Teardown)
    → All (DeletesMade c) ts
    → All (DeletesMade (v ∷ c)) ts
All-deletes_cons v c [] a = tt
All-deletes_cons v c (deletes u ∷ ts) (p, a) = (member-cons u v c p, All-deletes_cons v c ts a)
All-deletes_cons v c (releases u ∷ ts) (p, a) = (tt, All-deletes_cons v c ts a)

create_end-Inv :
    (w : World) (id : Text) (ending : Ending Sim) → Inv w → Inv (step w (create_ends id ending))
unfolding step create_end
create_end-Inv w id (fine sim) inv = record {
  owned =
      All-put (sim.udid ∷ w.created) id _ w.registry.sessions (λ _. member-head sim.udid w.created)
        (All-owned_cons sim.udid w.created w.registry.sessions inv.owned);
  deleted = All-deletes_cons sim.udid w.created w.ordered inv.deleted;
}
create_end-Inv w id not_found inv = record { owned = inv.owned; deleted = inv.deleted }
create_end-Inv w id failed inv = record { owned = inv.owned; deleted = inv.deleted }

destroy_begin-Inv :
    (w : World) (id : Text)
    → Inv w
    → All (DeletesMade w.created) (order (destroy_begin id w.registry) w.ordered)
unfolding destroy_begin require
destroy_begin-Inv w id inv = elim (Option-cases (get id w.registry.sessions)) [
  | inl missing ↦ rw (missing, destroy_begin, order) inv.deleted
  | inr (v, found) ↦
      rw (found, destroy_begin, order)
        (
          teardown-DeletesMade w.created true id v
              (All-get w.created id w.registry.sessions v inv.owned found),
          inv.deleted,
        )
]

shutdown-DeletesMade :
    (c : List Text) (cleanup : Bool) (m : Dict SimSession)
    → All (OwnedMade c) m
    → All (DeletesMade c) (map (teardown_of cleanup) (values m))
shutdown-DeletesMade c cleanup [] a = tt
shutdown-DeletesMade c cleanup ((k, v) ∷ m) (p, a) =
    (teardown-DeletesMade c cleanup k v p, shutdown-DeletesMade c cleanup m a)

step-Inv : (w : World) (e : Event) → Inv w → Inv (step w e)
unfolding step create_begin attach_end destroy_end with_session_end drop shutdown_end
step-Inv w (create_begins id) inv = elim (Bool-cases (member id w.registry.starting)) [
  | inl busy ↦ rw busy (record { owned = inv.owned; deleted = inv.deleted })
  | inr free ↦ rw free (record { owned = inv.owned; deleted = inv.deleted })
]
step-Inv w (create_ends id ending) inv = create_end-Inv w id ending inv
step-Inv w (attach_begins id) inv = inv
step-Inv w (attach_ends id sim state) inv = elim (Bool-cases (text_eq state (text "Booted"))) [
  | inl up ↦ rw up (record {
    owned = All-put w.created id _ w.registry.sessions (λ e. cc) inv.owned;
    deleted = inv.deleted;
  })
  | inr down ↦ rw down (record { owned = inv.owned; deleted = inv.deleted })
]
step-Inv w (destroy_begins id) inv = record {
  owned = inv.owned;
  deleted = destroy_begin-Inv w id inv;
}
step-Inv w (destroy_ends id failed) inv = record { owned = inv.owned; deleted = inv.deleted }
step-Inv w (destroy_ends id _) inv = record {
  owned = All-delete w.created id w.registry.sessions inv.owned;
  deleted = inv.deleted;
}
step-Inv w (session_ends id not_found) inv = record {
  owned = All-delete w.created id w.registry.sessions inv.owned;
  deleted = inv.deleted;
}
step-Inv w (session_ends id _) inv = record { owned = inv.owned; deleted = inv.deleted }
step-Inv w (drops id) inv = record {
  owned = All-delete w.created id w.registry.sessions inv.owned;
  deleted = inv.deleted;
}
step-Inv w (shuts_down cleanup) inv = record {
  owned = tt;
  deleted =
      unfold shutdown_teardowns in
      All-append (DeletesMade w.created) (shutdown_teardowns cleanup w.registry) w.ordered
        (shutdown-DeletesMade w.created cleanup w.registry.sessions inv.owned) inv.deleted;
}

run-Inv : (w : World) (es : List Event) → Inv w → Inv (run w es)
unfolding run
run-Inv w [] inv = inv
run-Inv w (e ∷ es) inv = run-Inv (step w e) es (step-Inv w e inv)

-- However calls interleave, and however what they wait for ends, a new server only ever deletes
-- simulators that it created itself; what it attached to is at most let go.
pub run-DeletesMade :
    (es : List Event) → All (DeletesMade (run new_world es).created) (run new_world es).ordered
run-DeletesMade es = (run-Inv new_world es (record { owned = tt; deleted = tt })).deleted
