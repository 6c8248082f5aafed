-- ===== src/Mcp/Sessions.antt =====
-- packages/simgadget-mcp/src/sessions.ts: `SessionRegistry`. Each segment of a method between two
-- waits is one function, since other calls run in between; what is waited for comes from outside.
pub mod Ownership
pub mod Starting
pub mod Teardowns
use simgadget.Prelude.{
  if◌then◌else◌, Bool, true, false, ◌&&◌, List, [], ◌∷◌, ◌++◌, Option, none, some, map, filter, not,
}
use simgadget.Prelude.Text.{Text, text, text_eq, member}
use simgadget.Prelude.Dict.{Dict, get, put, delete}

-- A handle, as far as the registry reads it.
pub record Sim : Type 0 where
  pub udid : Text
  pub name : Text

-- `SimSession`
pub record SimSession : Type 0 where
  pub sim : Sim
  pub owned : Bool

-- The fields of `SessionRegistry`; the set `starting` is a list.
pub record Sessions : Type 0 where
  pub sessions : Dict SimSession
  pub starting : List Text

abbrev new_sessions : Sessions
new_sessions = record { sessions = []; starting = [] }

-- Why a call is refused by the registry itself.
pub data Refusal : Type 0 where
  no_session already_starting : Text → Refusal
  already_attached : Text → Sim → Refusal
  not_booted : Sim → Text → Refusal

pub data Result {ℓ} (A : Type ℓ) : Type ℓ where
  ok : A → Result A
  refused : Refusal → Result A

-- How something that was waited for ended.
pub data Ending {ℓ} (A : Type ℓ) : Type ℓ where
  fine : A → Ending A
  not_found : Ending A
  failed : Ending A

-- `get`
pub session_of : Text → Sessions → Option SimSession
session_of id s = get id s.sessions

-- `require`
pub require : Text → Sessions → Result SimSession
require id s = elim (get id s.sessions) [
  | none ↦ refused (no_session id)
  | some session ↦ ok session
]

-- `drop`
pub drop : Text → Sessions → Sessions
drop id s = record s { sessions = delete id s.sessions }

-- `withSession` begins with `require`; this is its `catch`.
pub with_session_end {ℓ} : {A : Type ℓ} → Text → Ending A → Sessions → Sessions
unfolding drop
with_session_end id (fine a) s = s
with_session_end id not_found s = drop id s
with_session_end id failed s = s

-- `starting.delete(id)`
abbrev pub without : Text → List Text → List Text
without id = filter (λ x. not (text_eq x id))

-- `create` up to its wait.
pub create_begin : Text → Sessions → Result Sessions
create_begin id s =
    if member id s.starting
    then refused (already_starting id)
    else ok (record s { starting = id ∷ s.starting })

-- The rest of `create`, its `finally` included.
pub create_end : Text → Ending Sim → Sessions → Sessions
create_end id (fine sim) s = record {
  sessions = put id (record { sim = sim; owned = true }) s.sessions;
  starting = without id s.starting;
}
create_end id _ s = record s { starting = without id s.starting }

-- `attach` up to its first wait.
pub attach_begin : Text → Sessions → Result (Unit {0})
attach_begin id s = elim (get id s.sessions) [
  | some existing ↦ refused (already_attached id existing.sim)
  | none ↦ ok tt
]

abbrev adopted : Text → Sim → Sessions → Sessions
adopted id sim s = record s { sessions = put id (record { sim = sim; owned = false }) s.sessions }

-- The rest of `attach`, after the handle and its state came back.
unfoldable pub attach_end : Text → Sim → Text → Sessions → Result Sessions
attach_end id sim state s =
    if text_eq state (text "Booted") then ok (adopted id sim s) else refused (not_booted sim state)

-- What is ordered of a simulator when its session goes.
pub data Teardown : Type 0 where
  deletes releases : Text → Teardown

abbrev pub teardown_of : Bool → SimSession → Teardown
teardown_of deleting session =
    if session.owned && deleting then deletes session.sim.udid else releases session.sim.udid

-- `destroy` up to its wait: the session, and the teardown that is ordered.
pub destroy_begin : Text → Sessions → Result (SimSession × Teardown)
unfolding require
destroy_begin id s = elim (require id s) [
  | refused r ↦ refused r
  | ok session ↦ ok (session, teardown_of true session)
]

-- The rest of `destroy`: the session goes unless the teardown failed for another reason.
pub destroy_end : Text → Ending (Unit {0}) → Sessions → Sessions
destroy_end id (fine _) s = record s { sessions = delete id s.sessions }
destroy_end id not_found s = record s { sessions = delete id s.sessions }
destroy_end id failed s = s

abbrev pub values : Dict SimSession → List SimSession
values = map (λ entry. entry.1)

-- `shutdown`: the recordings that are stopped, and then the teardowns that are ordered.
unfoldable pub shutdown_stops : Sessions → List Text
shutdown_stops s = map (λ session. session.sim.udid) (values s.sessions)

pub shutdown_teardowns : Bool → Sessions → List Teardown
shutdown_teardowns cleanup s = map (teardown_of cleanup) (values s.sessions)

pub shutdown_end : Sessions → Sessions
shutdown_end s = record s { sessions = [] }

-- Everything that can happen to a registry, and what the outside sees of it: the simulators that
-- were created for it, and the teardowns that it ordered, the latest first.
pub record World : Type 0 where
  pub registry : Sessions
  pub created : List Text
  pub ordered : List Teardown

pub data Event : Type 0 where
  create_begins : Text → Event
  create_ends : Text → Ending Sim → Event
  attach_begins : Text → Event
  attach_ends : Text → Sim → Text → Event
  destroy_begins : Text → Event
  destroy_ends : Text → Ending (Unit {0}) → Event
  session_ends : Text → Ending (Unit {0}) → Event
  drops : Text → Event
  shuts_down : Bool → Event

abbrev pub or_same : Sessions → Result Sessions → Sessions
or_same s (ok t) = t
or_same s (refused r) = s

abbrev pub made : Ending Sim → List Text → List Text
made (fine sim) created = sim.udid ∷ created
made _ created = created

abbrev pub order : Result (SimSession × Teardown) → List Teardown → List Teardown
order (ok (session, t)) ordered = t ∷ ordered
order (refused r) ordered = ordered

pub step : World → Event → World
unfolding create_begin create_end attach_end destroy_begin destroy_end with_session_end drop
    shutdown_teardowns shutdown_end
step w (create_begins id) = record w { registry = or_same w.registry (create_begin id w.registry) }
step w (create_ends id ending) = record w {
  registry = create_end id ending w.registry;
  created = made ending w.created;
}
step w (attach_begins id) = w
step w (attach_ends id sim state) = record w {
  registry = or_same w.registry (attach_end id sim state w.registry);
}
step w (destroy_begins id) = record w { ordered = order (destroy_begin id w.registry) w.ordered }
step w (destroy_ends id ending) = record w { registry = destroy_end id ending w.registry }
step w (session_ends id ending) = record w { registry = with_session_end id ending w.registry }
step w (drops id) = record w { registry = drop id w.registry }
step w (shuts_down cleanup) = record w {
  registry = shutdown_end w.registry;
  ordered = shutdown_teardowns cleanup w.registry ++ w.ordered;
}

pub run : World → List Event → World
unfolding step
run w [] = w
run w (e ∷ es) = run (step w e) es

abbrev pub new_world : World
new_world = record { registry = new_sessions; created = []; ordered = [] }
