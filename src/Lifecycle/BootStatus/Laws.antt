-- ===== src/Lifecycle/BootStatus/Laws.antt =====
-- The wait for the boot status leaves no timer and no process behind, and can always end.
use simgadget.Prelude.{
  ◌≡◌, refl, if◌then◌else◌, Bool, true, false, ◌&&◌, ◌||◌, not, List, [], ◌∷◌, Option, none, some,
  is_some, arith,
}
use simgadget.Prelude.Int.{ℤ}
use simgadget.Lifecycle.BootStatus.{
  BootEvent, falls_due, resumes, BootWait, began, settle, kept, step, and_on, wait_for_boot_status,
}

-- The timer is pending just until the call is settled; only a settled call goes on; one that
-- went on has killed the process or seen its exit code; and nothing else kills it.
abbrev tidy : Bool → Bool → Bool → Bool → Bool → Bool
tidy settled armed gone resumed killed =
    (if settled then not armed else armed)
    && (not resumed || settled)
    && (not resumed || (killed || gone))
    && (not killed || resumed)

abbrev pub is_tidy : BootWait → Bool
is_tidy w = tidy w.settled w.armed (is_some w.exit_code) w.resumed w.killed

-- The events that end a wait: the timer where it is pending, and the rest of the call.
abbrev pub last_events : BootWait → List BootEvent
last_events w =
    if w.resumed then [] else if w.settled then resumes ∷ [] else falls_due ∷ resumes ∷ []

ended-tidy :
    (w : BootWait) (code : Option ℤ)
    → is_tidy w ≡ true
    → is_tidy (settle (record w { exit_code = kept w.exit_code code })) ≡ true
ended-tidy w code tidy_before = ground arith

step-tidy :
    (event : BootEvent) (w after : BootWait)
    → is_tidy w ≡ true
    → step event w ≡ some after
    → is_tidy after ≡ true
unfolding step
step-tidy event w after tidy_before stepped = ground arith

-- One step and then the rest, where all of it can come.
step_then :
    (reached : Option BootWait) (next : BootWait → Option BootWait) (after : BootWait)
    → and_on reached next ≡ some after
    → (between : BootWait) × (reached ≡ some between) × (next between ≡ some after)
step_then none next after came = cc
step_then (some w) next after came = (w, refl, came)

wait_for_boot_status-tidy :
    (events : List BootEvent) (w after : BootWait)
    → is_tidy w ≡ true
    → wait_for_boot_status events w ≡ some after
    → is_tidy after ≡ true
unfolding wait_for_boot_status
wait_for_boot_status-tidy [] w after tidy_before came = grind arith
wait_for_boot_status-tidy (event ∷ later) w after tidy_before came =
    let (between, stepped, rest) =
      step_then (step event w) (wait_for_boot_status later) after came in
    wait_for_boot_status-tidy later between after (step-tidy event w between tidy_before stepped)
      rest

last_events-end :
    (settled armed resumed killed : Bool) (code : Option ℤ)
    → let w : BootWait = record {
      settled = settled;
      armed = armed;
      exit_code = code;
      resumed = resumed;
      killed = killed;
    } in
      is_tidy w ≡ true
      → (last : BootWait) × (wait_for_boot_status (last_events w) w ≡ some last)
        × (last.resumed ≡ true)
unfolding wait_for_boot_status step
last_events-end settled armed true killed code tidy_before = (_, refl, refl)
last_events-end true armed false killed code tidy_before = (_, refl, refl)
last_events-end false true false killed code tidy_before = (_, refl, refl)
last_events-end false false false killed code tidy_before = cc

-- However the events come, the timer of the boot status is pending just until the wait is
-- settled, only a settled wait goes on, and one that went on has killed its process or seen its
-- exit code. And from wherever it stands the wait can end: at once, where it is settled, and
-- once its timer falls due where it is not.
pub wait_for_boot_status-ends :
    (events : List BootEvent) (w : BootWait)
    → wait_for_boot_status events began ≡ some w
    → (is_tidy w ≡ true)
      × (last : BootWait) × (wait_for_boot_status (last_events w) w ≡ some last)
      × (last.resumed ≡ true)
wait_for_boot_status-ends events w came =
    let neat = wait_for_boot_status-tidy events began w refl came in
    let (last, ended, resumed) =
      last_events-end w.settled w.armed w.resumed w.killed w.exit_code neat in
    (neat, last, ended, resumed)
