-- ===== src/Idb/Companions.antt =====
-- packages/simgadget/src/idb/companionManager.ts: `CompanionManager`, with the companions that it
-- spawns. Each segment of a method between two waits is one function, since other calls run in
-- between; what is waited for, and the death of a child, are events from outside.
pub mod Invariant
pub mod Steps
pub mod Kept
pub mod Laws
pub mod Closing
pub mod Closed
use simgadget.Prelude.{
  ℕ, suc, ◌==◌, if◌then◌else◌, Bool, true, false, not, ◌&&◌, List, [], ◌∷◌, Option, none, some,
  filter,
}
use simgadget.Prelude.Text.{Text, text_eq, member}
use simgadget.Prelude.Dict.{Dict, get, put, delete}

-- How far `spawn` has come: it waits for the binary, for the socket that the child reports, or for
-- the channel; or it has come to its end. `absent` is a generation that is not given out yet.
pub data Stage : Type 0 where
  absent resolving binding connecting published failed : Stage

-- `Companion`, by its generation, with its child. `alive` is the truth about the child; the code
-- sees `exited` and `exit_code`, which stays `none` for a child that a signal has killed.
-- `signalled` says whether the code has sent it a signal, and `hooked` whether the handler of its
-- exit is installed. `settled` is the `finally` of its spawn.
pub record Instance : Type 0 where
  pub udid : Text
  pub stage : Stage
  pub alive : Bool
  pub hooked : Bool
  pub exited : Bool
  pub exit_code : Option ℕ
  pub signalled : Bool
  pub settled : Bool

abbrev pub nobody : Instance
nobody = record {
  udid = [];
  stage = absent;
  alive = false;
  hooked = false;
  exited = false;
  exit_code = none;
  signalled = false;
  settled = true;
}

-- The fields of `CompanionManager`, less `locks`: a companion and a promise of one are named by the
-- generation. `instances` has every companion that was ever spawned.
pub record Manager : Type 0 where
  pub companions : Dict ℕ
  pub spawning : Dict ℕ
  pub closed : List Text
  pub next_generation : ℕ
  pub instances : ℕ → Instance

abbrev pub update {ℓ} : {A : Type ℓ} → (ℕ → A) → ℕ → A → ℕ → A
update f g a h = if g == h then a else f h

abbrev pub new_manager : Manager
new_manager = record {
  companions = [];
  spawning = [];
  closed = [];
  next_generation = 1;
  instances = λ g. nobody;
}

-- `!companion.exited && companion.child.exitCode === null`
abbrev pub is_live : Instance → Bool
is_live i = elim i.exit_code [ none ↦ not i.exited | some code ↦ false ]

-- `companions.get(udid) === companion` and the `delete` that it guards.
abbrev pub deregistered : ℕ → Option ℕ → Text → Dict ℕ → Dict ℕ
deregistered g none udid companions = companions
deregistered g (some h) udid companions = if h == g then delete udid companions else companions

-- `retire` up to its wait; SIGKILL follows where SIGTERM is not obeyed within three seconds.
unfoldable pub retire : ℕ → Manager → Manager
retire g m =
    let i = m.instances g in
    record m {
      companions = deregistered g (get i.udid m.companions) i.udid m.companions;
      instances =
          if is_live i then update m.instances g (record i { signalled = true }) else m.instances;
    }

-- What a caller of `companionFor` gets: `SimulatorNotFoundError`, a companion, or the promise of one.
pub data Answer : Type 0 where
  refused : Answer
  gives waits : ℕ → Answer

-- `spawn` up to its wait for the binary, and the promise noted.
unfoldable pub begin_spawn : Text → Manager → Manager
begin_spawn udid m = record m {
  spawning = put udid m.next_generation m.spawning;
  next_generation = suc m.next_generation;
  instances =
      update m.instances m.next_generation
        (record nobody { udid = udid; stage = resolving; settled = false });
}

abbrev pub cold : Text → Manager → Manager × Answer
unfolding begin_spawn
cold udid m = elim (get udid m.spawning) [
  | some g ↦ (m, waits g)
  | none ↦ (begin_spawn udid m, waits m.next_generation)
]

abbrev pub warm : Text → ℕ → Manager → Manager × Answer
unfolding begin_spawn retire
warm udid g m = if is_live (m.instances g) then (m, gives g) else cold udid (retire g m)

abbrev pub with_found : Text → Option ℕ → Manager → Manager × Answer
unfolding begin_spawn retire
with_found udid none m = cold udid m
with_found udid (some g) m = warm udid g m

-- `companionFor`. To retire a companion that is dead takes no wait for anything from outside.
unfoldable pub companion_for : Text → Manager → Manager × Answer
unfolding begin_spawn retire
companion_for udid m =
    if member udid m.closed then (m, refused) else with_found udid (get udid m.companions) m

-- The second half of `shutdown`, behind the wait for a spawn in flight.
unfoldable pub stop : Text → Manager → Manager
unfolding retire
stop udid m = elim (get udid m.companions) [ none ↦ m | some g ↦ retire g m ]

-- `shutdown` up to its first wait.
unfoldable pub shutdown : Text → Manager → Manager
unfolding stop
shutdown udid m = elim (get udid m.spawning) [ none ↦ stop udid m | some g ↦ m ]

-- The keys of `companions`, in their order.
abbrev pub keys : Dict ℕ → List Text
keys [] = []
keys ((udid, g) ∷ rest) = udid ∷ keys rest

unfoldable pub shutdown_each : List Text → Manager → Manager
unfolding shutdown
shutdown_each [] m = m
shutdown_each (udid ∷ udids) m = shutdown_each udids (shutdown udid m)

-- `shutdownAll` up to its first wait.
unfoldable pub shutdown_all : Manager → Manager
unfolding shutdown_each
shutdown_all m = shutdown_each (keys m.companions) m

-- `close` up to its first wait.
unfoldable pub close : Text → Manager → Manager
unfolding shutdown
close udid m = shutdown udid (record m { closed = udid ∷ m.closed })

-- `reopen`
unfoldable pub reopen : Text → Manager → Manager
reopen udid m = record m { closed = filter (λ x. not (text_eq x udid)) m.closed }

-- The segments of `spawn`. Where something that is waited for fails, so does the spawn; the child
-- that it has by then is killed.
abbrev pub resolved : Stage → Instance → Instance
resolved resolving i = record i { stage = binding; alive = true }
resolved _ i = i

abbrev pub unresolved : Stage → Instance → Instance
unresolved resolving i = record i { stage = failed }
unresolved _ i = i

-- `awaitReadiness` resolves; once the child is seen to exit it can only fail.
abbrev pub bound : Stage → Bool → Instance → Instance
bound binding true i = record i { stage = connecting; hooked = true }
bound _ _ i = i

abbrev pub unbound : Stage → Instance → Instance
unbound binding i = record i { stage = failed; signalled = true }
unbound _ i = i

abbrev pub connected : Stage → Instance → Instance
connected connecting i = record i { stage = published }
connected _ i = i

abbrev pub unconnected : Stage → Instance → Instance
unconnected connecting i = record i { stage = failed; signalled = true }
unconnected _ i = i

abbrev pub register : Stage → Text → ℕ → Dict ℕ → Dict ℕ
register connecting udid g companions = put udid g companions
register _ udid g companions = companions

-- The child is gone: what `child.exitCode` says, and what the handler does where it is installed.
abbrev pub gone : Option ℕ → Instance → Instance
gone code i = record i { alive = false; exited = i.hooked; exit_code = code }

abbrev pub retire_at : Stage → ℕ → Manager → Manager
unfolding retire
retire_at published g m = retire g m
retire_at _ g m = m

abbrev pub is_over : Stage → Bool
is_over published = true
is_over failed = true
is_over _ = false

-- What may happen between two waits. Only a companion that was handed out is retired by its user.
pub data Event : Type 0 where
  shuts_all_down : Event
  asks shuts_down stops closes reopens : Text → Event
  resolves fails_to_resolve binds fails_to_bind connects fails_to_connect settles retires :
      ℕ → Event
  exits : ℕ → Option ℕ → Event

abbrev pub with_instance : ℕ → Instance → Manager → Manager
with_instance g i m = record m { instances = update m.instances g i }

unfoldable pub step : Manager → Event → Manager
unfolding companion_for shutdown shutdown_all stop close reopen retire begin_spawn
step m (asks udid) = (companion_for udid m).0
step m (shuts_down udid) = shutdown udid m
step m shuts_all_down = shutdown_all m
step m (stops udid) = stop udid m
step m (closes udid) = close udid m
step m (reopens udid) = reopen udid m
step m (resolves g) = with_instance g (resolved (m.instances g).stage (m.instances g)) m
step m (fails_to_resolve g) = with_instance g (unresolved (m.instances g).stage (m.instances g)) m
step m (binds g) =
    with_instance g (bound (m.instances g).stage (m.instances g).alive (m.instances g)) m
step m (fails_to_bind g) = with_instance g (unbound (m.instances g).stage (m.instances g)) m
step m (connects g) =
    let i = m.instances g in
    record m {
      companions = register i.stage i.udid g m.companions;
      instances = update m.instances g (connected i.stage i);
    }
step m (fails_to_connect g) = with_instance g (unconnected (m.instances g).stage (m.instances g)) m
step m (settles g) =
    let i = m.instances g in
    if is_over i.stage && not i.settled
    then record m {
      spawning = delete i.udid m.spawning;
      instances = update m.instances g (record i { settled = true });
    }
    else m
step m (retires g) = retire_at (m.instances g).stage g m
step m (exits g code) =
    let i = m.instances g in
    if i.alive
    then record m {
      companions =
          if i.hooked
          then deregistered g (get i.udid m.companions) i.udid m.companions
          else m.companions;
      instances = update m.instances g (gone code i);
    }
    else m

unfoldable pub run : Manager → List Event → Manager
unfolding step
run m [] = m
run m (e ∷ es) = run (step m e) es
