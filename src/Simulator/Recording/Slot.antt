-- ===== src/Simulator/Recording/Slot.antt =====
-- What the slot for the recording of a handle holds.
use simgadget.Prelude.{
  ℕ, ◌≤◌, ◌≡◌, ◌≢◌, ◌⊎◌, refl, inl, inr, if◌then◌else◌, true, false, List, [], ◌∷◌, Option, none,
  some, arith, Bool-cases, Option-cases,
}
use simgadget.Prelude.Text.{Text, text, includes}
use simgadget.Idb.Companions.{update}
use simgadget.Simulator.Recording.{
  Start, unborn, pending, ready, through, threw, Child, no_child, Recorder, new_recorder,
  start_begin, begun, settle, said, shut, overdue, fell_due, cleared, stop_recording, Event, starts,
  goes_on, stops, says, exits, closes, errs, times_out, or_same, with_child, is_born, step, run,
}

-- The slot holds a process that has started, has not closed, and was not interrupted; and
-- `activeRecordings` has each process that runs and was not interrupted.
pub record Inv (r : Recorder) : Type 0 where
  pub fresh : (n : ℕ) → r.next ≤ n → r.children n ≡ no_child
  pub slot :
      (n : ℕ)
      → r.recording ≡ some n
      → ((r.children n).start ≡ through)
        × ((r.children n).closed ≡ false)
        × ((r.children n).interrupted ≡ false)
  pub early :
      (n : ℕ)
      → ((r.children n).start ≡ pending) ⊎ ((r.children n).start ≡ ready)
      → (r.children n).interrupted ≡ false
  pub watched :
      (n : ℕ)
      → (r.children n).start ≢ unborn
      → (r.children n).closed ≡ false
      → (r.children n).interrupted ≡ false
      → (r.children n).tracked ≡ true

start_begin-Inv :
    (r : Recorder) (path : Text) (active : Option ℕ)
    → Inv r
    → r.recording ≡ active
    → Inv (or_same r (begun path r active))
start_begin-Inv r path (some n) inv e = inv
start_begin-Inv r path none inv e = record {
  fresh = λ n le. ground (arith, inv.fresh n);
  slot = λ n f. ground arith;
  early = λ n f. ground (arith, inv.early n);
  watched = λ n f g h. ground (arith, inv.watched n);
}

goes_on-Inv : (r : Recorder) (n : ℕ) → Inv r → Inv (step r (goes_on n))
unfolding step
goes_on-Inv r n inv = record {
  fresh = λ m le. ground (arith, inv.fresh m, inv.fresh n);
  slot = λ m e. ground (arith, inv.slot m, inv.early n);
  early = λ m e. ground (arith, inv.early m, inv.early n);
  watched = λ m e f g. ground (arith, inv.watched m, inv.watched n);
}

stops-Inv : (r : Recorder) → Inv r → Inv (stop_recording r).0
unfolding stop_recording
stops-Inv r inv = elim (Option-cases r.recording) [
  | inl nothing ↦ rw (nothing, stop_recording) inv
  | inr (n, active) ↦
      rw (active, stop_recording)
        (record {
          fresh = λ m le. ground (arith, inv.fresh m, inv.fresh n, inv.slot n);
          slot = λ m e. ground arith;
          early = λ m e. ground (arith, inv.early m, inv.slot n);
          watched = λ m e f g. ground (arith, inv.watched m);
        })
]

-- A process that changes by what it says, or by the timer.
record Changes (c c' : Child) : Type 0 where
  born : c.start ≢ unborn
  through_still : c.start ≡ through → c'.start ≡ through
  begins : (c'.start ≡ pending) ⊎ (c'.start ≡ ready) → (c.start ≡ pending) ⊎ (c.start ≡ ready)
  closed : c'.closed ≡ c.closed
  tracked : c'.tracked ≡ c.tracked
  interrupted : c'.interrupted ≡ c.interrupted

with_child-Inv :
    (r : Recorder) (n : ℕ) (c : Child) → Inv r → Changes (r.children n) c → Inv (with_child n c r)
with_child-Inv r n c inv change = record {
  fresh = λ m le. ground (arith, inv.fresh m, inv.fresh n, change.born);
  slot = λ m e. ground (arith, inv.slot m, change.through_still, change.closed, change.interrupted);
  early = λ m e. ground (arith, inv.early m, change.begins, change.interrupted);
  watched = λ m e f g.
      ground (arith, inv.watched m, change.born, change.closed, change.tracked, change.interrupted);
}

-- What a settled start may be.
settled-Changes :
    (c : Child) (outcome : Start)
    → (outcome ≡ ready) ⊎ (outcome ≡ threw)
    → c.start ≢ unborn
    → Changes c (record c { start = settle c.start outcome })
settled-Changes c outcome which born = record {
  born = born;
  through_still = ground arith;
  begins = ground arith;
  closed = refl;
  tracked = refl;
  interrupted = refl;
}

said-Changes : (message : Text) (c : Child) → c.start ≢ unborn → Changes c (said message c)
said-Changes message c born = elim (Bool-cases (includes (text "Recording started") message)) [
  | inl announced ↦ rw (announced, said) (settled-Changes c ready (inl refl) born)
  | inr other ↦
      rw (other, said)
        (record {
          born = born;
          through_still = λ e. e;
          begins = λ e. e;
          closed = refl;
          tracked = refl;
          interrupted = refl;
        })
]

fell_due_cases : (code : Option ℕ) → (fell_due code ≡ ready) ⊎ (fell_due code ≡ threw)
fell_due_cases none = inl refl
fell_due_cases (some code) = inr refl

overdue-Changes : (c : Child) → c.start ≢ unborn → Changes c (overdue c)
overdue-Changes c born = settled-Changes c (fell_due c.exit_code) (fell_due_cases c.exit_code) born

-- An event of a process that was started.
born-Inv :
    (r s : Recorder) (start : Start)
    → Inv r
    → (start ≢ unborn → Inv s)
    → Inv (if is_born start then s else r)
born-Inv r s unborn inv next = inv
born-Inv r s pending inv next = next (λ e. cc)
born-Inv r s ready inv next = next (λ e. cc)
born-Inv r s through inv next = next (λ e. cc)
born-Inv r s threw inv next = next (λ e. cc)

shut-Inv :
    (r : Recorder) (n : ℕ)
    → Inv r
    → (r.children n).start ≢ unborn
    → Inv (record r {
      recording = cleared n r.recording;
      children = update r.children n (shut (r.children n));
    })
shut-Inv r n inv born = record {
  fresh = λ m le. ground (arith, inv.fresh m, inv.fresh n);
  slot = λ m e. ground (arith, inv.slot m);
  early = λ m e. ground (arith, inv.early m);
  watched = λ m e f g. ground (arith, inv.watched m);
}

step-Inv : (r : Recorder) (e : Event) → Inv r → Inv (step r e)
unfolding step start_begin
step-Inv r (starts path) inv = start_begin-Inv r path r.recording inv refl
step-Inv r (goes_on n) inv = goes_on-Inv r n inv
step-Inv r stops inv = stops-Inv r inv
step-Inv r (says n message) inv =
    born-Inv r _ _ inv λ born. with_child-Inv r n _ inv (said-Changes message _ born)
step-Inv r (exits n code) inv = born-Inv r _ _ inv λ born. with_child-Inv r n _ inv (record {
  born = born;
  through_still = λ e. e;
  begins = λ e. e;
  closed = refl;
  tracked = refl;
  interrupted = refl;
})
step-Inv r (closes n) inv = born-Inv r _ _ inv λ born. shut-Inv r n inv born
step-Inv r (errs n) inv =
    born-Inv r _ _ inv λ born. with_child-Inv r n _ inv (settled-Changes _ threw (inr refl) born)
step-Inv r (times_out n) inv =
    born-Inv r _ _ inv λ born. with_child-Inv r n _ inv (overdue-Changes _ born)

run_from-Inv : (r : Recorder) (es : List Event) → Inv r → Inv (run r es)
unfolding run
run_from-Inv r [] inv = inv
run_from-Inv r (e ∷ es) inv = run_from-Inv (step r e) es (step-Inv r e inv)

new_recorder-Inv : Inv new_recorder
new_recorder-Inv = record {
  fresh = λ n le. refl;
  slot = λ n e. ground arith;
  early = λ n e. ground arith;
  watched = λ n e f g. ground arith;
}

-- However calls and what processes do interleave: the process that the handle takes for its recording
-- has said that it records or was taken to, has not closed, and was not interrupted; and each process
-- that may still run uninterrupted is one that is interrupted when this process exits.
pub slot_runs :
    (es : List Event) (n : ℕ)
    → let r = run new_recorder es in
      (r.recording ≡ some n
        → ((r.children n).start ≡ through)
          × ((r.children n).closed ≡ false)
          × ((r.children n).interrupted ≡ false))
      × ((r.children n).start ≢ unborn
          → (r.children n).closed ≡ false
          → (r.children n).interrupted ≡ false
          → (r.children n).tracked ≡ true)
slot_runs es n =
    let inv = run_from-Inv new_recorder es new_recorder-Inv in (inv.slot n, inv.watched n)
