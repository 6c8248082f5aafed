-- ===== src/Tests/Companions.antt =====
-- packages/simgadget/src/idb/companionManager.ts: the theorems at concrete runs.
use simgadget.Prelude.{
  ℕ, ◌≤◌, ◌≡◌, ◌⊎◌, refl, false, if◌then◌else◌, List, [], ◌∷◌, ◌++◌, Option, none, some, arith,
}
use simgadget.Prelude.Text.{Text, text, text_eq, member}
use simgadget.Prelude.Dict.{get, put, delete}
use simgadget.Prelude.Run.{value, throws}
use simgadget.Idb.Companions.{
  Event, asks, resolves, binds, connects, settles, closes, exits, new_manager, run, step,
  companion_for,
}
use simgadget.Idb.Companions.Invariant.{Untended}
use simgadget.Idb.Companions.Laws.{one_known_companion}
use simgadget.Idb.Exclusive.{new_chains, enqueues, starts, ends, settled}
use simgadget.Idb.Exclusive
use simgadget.Idb.Exclusive.Laws.{exclusive_in_order, waiting_call_moves, Moving}
use simgadget.Idb.Calling.{Outside, with_client, unavailable}
use simgadget.Idb.Calling.Laws.{with_client-Course, Course, work_count}
use simgadget.Idb.Output.{receive}
use simgadget.Idb.Output.Report.{receive-first_report, first_report, concat}

abbrev phone : Text
phone = text "A1"

-- One companion is spawned and comes up.
abbrev spawned : List Event
spawned = asks phone ∷ resolves 1 ∷ binds 1 ∷ connects 1 ∷ settles 1 ∷ []

-- It dies, and another takes its place.
abbrev respawned : List Event
respawned = spawned ++ exits 1 none ∷ asks phone ∷ resolves 2 ∷ binds 2 ∷ connects 2 ∷ []

one_known_companion_example :
    let m = run new_manager spawned in
    ((get (m.instances 1).udid m.spawning ≡ some 1)
      ⊎ (get (m.instances 1).udid m.companions ≡ some 1))
    × ((h : ℕ)
        → Untended (m.instances h)
        → (m.instances 1).udid ≡ (m.instances h).udid
        → ◌≡◌ {A = ℕ} 1 h)
unfolding run step get put delete text_eq member companion_for
one_known_companion_example = one_known_companion spawned 1 (refl, refl)

abbrev closing : List Event
closing = spawned ++ closes phone ∷ []

abbrev two_calls : List Exclusive.Event
two_calls = enqueues phone ∷ enqueues phone ∷ starts 0 ∷ []

exclusive_in_order_example :
    ((Exclusive.run new_chains (two_calls ++ ends 0 ∷ starts 1 ∷ [])).jobs 0).progress ≡ settled
unfolding Exclusive.run get put text_eq
exclusive_in_order_example =
    exclusive_in_order (two_calls ++ ends 0 ∷ starts 1 ∷ []) 0 1 (omega arith) refl (λ e. cc) tt

waiting_call_moves_example : Moving (Exclusive.run new_chains two_calls) 1
unfolding Exclusive.run get put text_eq
waiting_call_moves_example = waiting_call_moves two_calls 1 refl

-- The channel of the first companion is dead.
abbrev lost : Outside ℕ
lost = record {
  first_companion = value 1;
  first_work = λ g. throws (record { code = some unavailable; message = text "14 UNAVAILABLE" });
  exited = λ g. false;
  exit_code = λ g. none;
  second_companion = value 2;
  second_work = λ g. value 7;
}

with_client-Course_example :
    Course lost false (with_client lost false) × (work_count (with_client lost false).acts ≤ 2)
with_client-Course_example = with_client-Course lost false

-- A line that is wholly "p" reports it.
abbrev says_p : Text → Option Text
says_p line = if text_eq line (text "p") then some line else none

receive-first_report_example :
    receive says_p [] ((98 ∷ 10 ∷ 112 ∷ []) ∷ (10 ∷ []) ∷ [])
    ≡ first_report says_p [] (concat ((98 ∷ 10 ∷ 112 ∷ []) ∷ (10 ∷ []) ∷ []))
receive-first_report_example = receive-first_report says_p ((98 ∷ 10 ∷ 112 ∷ []) ∷ (10 ∷ []) ∷ [])
