-- ===== src/Mcp/Sessions/Teardowns.antt =====
-- What the end of a server, and a second attach, do to the sessions.
use simgadget.Prelude.{
  ◌≡◌, refl, ap, inl, inr, Bool, true, false, not, List, [], ◌∷◌, some, arith, Bool-cases, filter,
  map,
}
use simgadget.Prelude.Text.{Text, text, text_eq}
use simgadget.Prelude.Dict.{get, put, get-put_self}
use simgadget.Mcp.Sessions.{
  Sim, SimSession, Sessions, ok, refused, already_attached, require, teardown_of, Teardown, deletes,
  releases, values, shutdown_teardowns, shutdown_end, session_of, attach_begin, attach_end,
  no_session, or_same,
}

-- The simulators that a list of teardowns deletes, and those that it lets go.
abbrev pub deleted : List Teardown → List Text
deleted [] = []
deleted (deletes udid ∷ ts) = udid ∷ deleted ts
deleted (releases udid ∷ ts) = deleted ts

abbrev released : List Teardown → List Text
released [] = []
released (deletes udid ∷ ts) = released ts
released (releases udid ∷ ts) = udid ∷ released ts

abbrev pub udids : (SimSession → Bool) → List SimSession → List Text
udids test ss = map (λ session. session.sim.udid) (filter test ss)

deleted-of : (ss : List SimSession) → deleted (map (teardown_of true) ss) ≡ udids (λ s. s.owned) ss
deleted-of [] = refl
deleted-of (s ∷ ss) = elim (Bool-cases s.owned) [
  | inl own ↦ rw (own, deleted) (ap (λ r. s.sim.udid ∷ r) (deleted-of ss))
  | inr adopted ↦ rw (adopted, deleted) (deleted-of ss)
]

released-of :
    (ss : List SimSession) → released (map (teardown_of true) ss) ≡ udids (λ s. not s.owned) ss
released-of [] = refl
released-of (s ∷ ss) = elim (Bool-cases s.owned) [
  | inl own ↦ rw (own, released) (released-of ss)
  | inr adopted ↦ rw (adopted, released) (ap (λ r. s.sim.udid ∷ r) (released-of ss))
]

kept-of : (ss : List SimSession) → deleted (map (teardown_of false) ss) ≡ []
kept-of [] = refl
kept-of (s ∷ ss) = elim (Bool-cases s.owned) [
  | inl own ↦ rw (own, deleted) (kept-of ss)
  | inr adopted ↦ rw (adopted, deleted) (kept-of ss)
]

-- A shutdown that cleans up deletes exactly the simulators of the owned sessions and lets exactly
-- the adopted ones go, each once and in the order of the sessions; one that does not clean up
-- deletes none; and afterwards no id has a session.
shutdown_partitions :
    (s : Sessions)
    → (deleted (shutdown_teardowns true s) ≡ udids (λ session. session.owned) (values s.sessions))
      × (released (shutdown_teardowns true s)
          ≡ udids (λ session. not session.owned) (values s.sessions))
      × (deleted (shutdown_teardowns false s) ≡ [])
      × ((id : Text) → require id (shutdown_end s) ≡ refused (no_session id))
unfolding shutdown_teardowns shutdown_end require get
shutdown_partitions s =
    let all = values s.sessions in (deleted-of all, released-of all, kept-of all, λ id. refl)

-- After an attach has ended well, one that begins for the same id is refused; but one that had
-- begun before that, and whose simulator is booted as well, replaces the session of the first.
pub attach_overlap_replaces :
    (id : Text) (first second : Sim) (s after_first : Sessions)
    → attach_end id first (text "Booted") s ≡ ok after_first
    → (attach_begin id after_first ≡ refused (already_attached id first))
      × (or_same after_first (attach_end id second (text "Booted") after_first)
          ≡ record after_first {
            sessions = put id (record { sim = second; owned = false }) after_first.sessions;
          })
      × (session_of id (or_same after_first (attach_end id second (text "Booted") after_first))
          ≡ some (record { sim = second; owned = false }))
unfolding attach_begin attach_end session_of text_eq
attach_overlap_replaces id first second s after_first e =
    let shape : record s { sessions = put id (record { sim = first; owned = false }) s.sessions }
        ≡ after_first =
      ground arith in
    (
      rw (← shape, attach_begin, get-put_self id (record { sim = first; owned = false }) s.sessions)
          refl,
      refl,
      get-put_self id (record { sim = second; owned = false }) after_first.sessions,
    )
