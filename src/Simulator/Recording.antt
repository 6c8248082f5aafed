-- ===== src/Simulator/Recording.antt =====
-- packages/simgadget/src/simulator.ts: `startRecording` and `stopRecording` of a handle that is not
-- deleted, in segments between waits; capture.ts: what becomes of a recording's process,
-- `waitForRecordingStart`, `trackRecording` and `stopRecordingProcess`.
pub mod Slot
pub mod Overlap
use simgadget.Prelude.{
  ℕ, suc, ◌==◌, if◌then◌else◌, Bool, true, false, List, [], ◌∷◌, ◌++◌, Option, none, some,
}
use simgadget.Prelude.Text.{Text, text, includes}
use simgadget.Idb.Companions.{update}

-- How `startRecording` fares with one process: it waits for the start, it is about to go on, it is
-- through, or it has thrown. `unborn` is a number that is not given out yet.
pub data Start : Type 0 where
  unborn pending ready through threw : Start

-- A process of `simctl io recordVideo`: what it has said on stderr so far, its `exitCode`, whether it
-- has closed, whether `activeRecordings` has it, and whether it was interrupted.
pub record Child : Type 0 where
  pub path : Text
  pub start : Start
  pub output : Text
  pub exit_code : Option ℕ
  pub closed : Bool
  pub tracked : Bool
  pub interrupted : Bool

abbrev pub no_child : Child
no_child = record {
  path = [];
  start = unborn;
  output = [];
  exit_code = none;
  closed = false;
  tracked = false;
  interrupted = false;
}

-- `recording`, by the number of its process, and all the processes.
pub record Recorder : Type 0 where
  pub recording : Option ℕ
  pub children : ℕ → Child
  pub next : ℕ

abbrev pub new_recorder : Recorder
new_recorder = record { recording = none; children = λ n. no_child; next = 0 }

-- The process spawned, and its listeners.
abbrev pub spawned : Text → Recorder → Recorder
spawned path r = record r {
  children =
      update r.children r.next (record no_child { path = path; start = pending; tracked = true });
  next = suc r.next;
}

-- `startRecording` up to its wait; `none` is the refusal of a second recording.
abbrev pub begun : Text → Recorder → Option ℕ → Option Recorder
begun path r (some active) = none
begun path r none = some (spawned path r)

unfoldable pub start_begin : Text → Recorder → Option Recorder
start_begin path r = begun path r r.recording

-- `settle`: what comes first counts.
abbrev pub settle : Start → Start → Start
settle pending outcome = outcome
settle start outcome = start

-- The listener on stderr.
abbrev pub said : Text → Child → Child
said message c =
    if includes (text "Recording started") message
    then record c { start = settle c.start ready }
    else record c { output = c.output ++ message }

-- The listeners on `close`, in their order.
abbrev pub shut : Child → Child
shut c = record c { start = settle c.start threw; closed = true; tracked = false }

-- The timer: a process without an exit code is taken to record.
abbrev pub fell_due : Option ℕ → Start
fell_due none = ready
fell_due (some code) = threw

abbrev pub overdue : Child → Child
overdue c = record c { start = settle c.start (fell_due c.exit_code) }

abbrev pub cleared : ℕ → Option ℕ → Option ℕ
cleared n none = none
cleared n (some m) = if m == n then none else some m

-- The rest of `startRecording`.
abbrev pub published_as : Start → Bool → ℕ → Option ℕ → Option ℕ
published_as ready false n recording = some n
published_as _ closed n recording = recording

abbrev pub went_on : Start → Start
went_on ready = through
went_on start = start

-- `stopRecording`: the process that is interrupted, or none where there is no recording.
unfoldable pub stop_recording : Recorder → Recorder × Option ℕ
stop_recording r = elim r.recording [
  | none ↦ (r, none)
  | some n ↦ (
    record r {
      recording = none;
      children =
          update r.children n (record (r.children n) { tracked = false; interrupted = true });
    },
    some n,
  )
]

-- What may happen between two waits: calls, and what a process does.
pub data Event : Type 0 where
  starts : Text → Event
  goes_on : ℕ → Event
  stops : Event
  says : ℕ → Text → Event
  exits : ℕ → Option ℕ → Event
  closes errs times_out : ℕ → Event

abbrev pub or_same : Recorder → Option Recorder → Recorder
or_same r none = r
or_same r (some s) = s

abbrev pub with_child : ℕ → Child → Recorder → Recorder
with_child n c r = record r { children = update r.children n c }

-- A process that was never started does nothing.
abbrev pub is_born : Start → Bool
is_born unborn = false
is_born _ = true

unfoldable pub step : Recorder → Event → Recorder
unfolding start_begin stop_recording
step r (starts path) = or_same r (start_begin path r)
step r (goes_on n) =
    let c = r.children n in
    record r {
      recording = published_as c.start c.closed n r.recording;
      children = update r.children n (record c { start = went_on c.start });
    }
step r stops = (stop_recording r).0
step r (says n message) =
    if is_born (r.children n).start then with_child n (said message (r.children n)) r else r
step r (exits n code) =
    if is_born (r.children n).start
    then with_child n (record (r.children n) { exit_code = code }) r
    else r
step r (closes n) =
    if is_born (r.children n).start
    then record r {
      recording = cleared n r.recording;
      children = update r.children n (shut (r.children n));
    }
    else r
step r (errs n) =
    if is_born (r.children n).start
    then with_child n (record (r.children n) { start = settle (r.children n).start threw }) r
    else r
step r (times_out n) =
    if is_born (r.children n).start then with_child n (overdue (r.children n)) r else r

unfoldable pub run : Recorder → List Event → Recorder
unfolding step
run r [] = r
run r (e ∷ es) = run (step r e) es
