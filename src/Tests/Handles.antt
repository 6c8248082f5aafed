-- ===== src/Tests/Handles.antt =====
-- packages/simgadget/src/simulator.ts: recordings and verbs of a handle at concrete runs.
use simgadget.Prelude.{◌≡◌, ◌≢◌, refl, true, false, List, [], ◌∷◌, some, none, arith}
use simgadget.Prelude.Text.{text, member, is_space, includes, starts_with}
use simgadget.Prelude.Run.{value, throws}
use simgadget.Ax.Orientation.{portrait}
use simgadget.Idb.Companions.{new_manager, closes, stops, reopens}
use simgadget.Idb.Companions as Companions
use simgadget.Lifecycle.Devices.{no_object, pick_device_type, pick_latest_runtime}
use simgadget.Lifecycle.Printed.{parse_launch_pid, derive_device_name}
use simgadget.Lifecycle.Printed.Laws.{parse_launch_pid-line, launch_line}
use simgadget.Lifecycle.Making.{Maker, CreateOptions, Made, create_simulator, booted_if}
use simgadget.Lifecycle.Making.Opening.{create_simulator-open}
use simgadget.Simulator.Reading as Reading
use simgadget.Simulator.Pointing.{Pointer}
use simgadget.Simulator.Recording.{Event, starts, says, goes_on, new_recorder, run, unborn, through}
use simgadget.Simulator.Recording.Slot.{slot_runs}
use simgadget.Simulator.Calls.{
  Host, reads_gate, asks, failed, closes_companion, reopens_companion, forgets, with_client,
}
use simgadget.Simulator.Calls.Laws as CallLaws
use simgadget.Simulator.Calls.Laws.{call-Course}
use simgadget.Simulator.Calls.Playing.{meanwhile, plays, over}
use simgadget.Simulator.Verbs.{Handle, World, delete}
use simgadget.Simulator.Inputs.{type_text}
use simgadget.Simulator.Inputs.Typing as TypingLaws
use simgadget.Simulator.Inputs.Typing.{type_text-Course}
use simgadget.Simulator.Inputs.Ordered.{Ordered}
use simgadget.Simulator.Using.Deleting.{delete-closed}

-- One recording starts, is announced and goes on.
abbrev one_recording : List Event
one_recording = starts (text "a.mp4") ∷ says 0 (text "Recording started") ∷ goes_on 0 ∷ []

slot_runs_example :
    let r = run new_recorder one_recording in
    (r.recording ≡ some 0
      → ((r.children 0).start ≡ through)
        × ((r.children 0).closed ≡ false)
        × ((r.children 0).interrupted ≡ false))
    × ((r.children 0).start ≢ unborn
        → (r.children 0).closed ≡ false
        → (r.children 0).interrupted ≡ false
        → (r.children 0).tracked ≡ true)
slot_runs_example = slot_runs one_recording 0

-- A host on which everything works, and the process prints "A1" whatever it is asked.
abbrev host : Host
host = record {
  run = λ program args. value (text "A1");
  parse = λ stdout. value no_object;
  gate = value none;
  answer = λ request. value tt;
  prose = λ f. [];
}

abbrev world : World
world = record {
  host = host;
  ready = λ ms. record { ready = true; waited_ms = 1; recovery_tried = false; recovered = false };
  transform = value (λ p. p);
  sheet = value none;
  adopted = value portrait;
  resolve = λ path. path;
  exists = λ path. true;
}

abbrev handle : Handle
handle = record { udid = text "A1"; deleted = false; recording = false; last_boot = none }

call-Course_example :
    let r =
      with_client host {A = Unit {0}}
        (text "A1")
        reads_gate
        false
        (throws (failed (text "boom"))) in
    CallLaws.Course {A = Unit {0}} host
      (text "A1")
      (asks reads_gate false)
      (throws (failed (text "boom")))
      r.acts
      r.ended
call-Course_example = call-Course host (text "A1") reads_gate false (throws (failed (text "boom")))

delete-closed_example :
    member
      (text "A1")
      (Companions.run new_manager (closes (text "A1") ∷ stops (text "A1") ∷ [])).closed
    ≡ (delete world handle).0.deleted
unfolding delete
delete-closed_example =
    delete-closed world handle (closes (text "A1") ∷ stops (text "A1") ∷ []) new_manager refl (
      plays closes_companion _ _ (
        meanwhile _ (stops (text "A1")) [] tt
          (plays _ _ [] (plays _ _ [] (plays forgets [] [] over)))))

type_text-Course_example :
    TypingLaws.Course world
      (text "hi")
      (type_text world handle (text "hi")).acts
      (type_text world handle (text "hi")).ended
type_text-Course_example = type_text-Course world handle (text "hi") refl

abbrev maker : Maker
maker = record {
  world = world;
  lower = λ s. s;
  parse_types = λ json. value (record { identifier = text "t"; name = text "iPhone 17" } ∷ []);
  parse_runtimes = λ json.
      value (record { identifier = text "r"; name = text "iOS 26"; is_available = true } ∷ []);
}

abbrev options : CreateOptions
options = record {
  device_type = none;
  name = some (text "mine");
  boot = some false;
  budget_ms = none;
}

abbrev made : Made
made = record {
  handle = handle;
  name = text "mine";
  device_type = some (record { identifier = text "t"; name = text "iPhone 17" });
}

create_simulator-open_example :
    member (text "A1") (Companions.run new_manager (reopens (text "A1") ∷ [])).closed ≡ false
unfolding create_simulator booted_if pick_device_type pick_latest_runtime derive_device_name
    includes starts_with
create_simulator-open_example =
    create_simulator-open maker options made (reopens (text "A1") ∷ []) new_manager refl
      (plays _ _ _ (plays _ _ _ (plays _ _ _ (plays reopens_companion [] [] over))))

parse_launch_pid-line_example :
    parse_launch_pid (launch_line (text "com.example.app") 18900) ≡ some 18900
unfolding is_space
parse_launch_pid-line_example =
    parse_launch_pid-line b'c' (text "om.example.app") 18900 refl (omega arith) (omega arith)

-- Nothing is at any point, and the screen cannot be read.
abbrev pointer : Pointer
pointer = record {
  companion = record {
    by_marker = λ key marker k. Reading.value none;
    screen = λ k. Reading.error (text "gone");
    read_ms = λ k. 5;
    restart = λ k. false;
    restart_ms = λ k. 0;
    probe = λ k. false;
    probe_ms = λ k. 0;
  };
  to_portrait = λ at. Reading.value at;
  by_point = λ at k. Reading.value none;
  answering = λ k. true;
}

abbrev reader : Reading.Handle
reader = record { now = 0; answered = true; last = none; reads = 0; restarts = 0; probes = 0 }
