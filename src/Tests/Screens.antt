-- ===== src/Tests/Screens.antt =====
-- packages/simgadget/src/simulator.ts and capture.ts: the theorems at concrete screens.
use simgadget.Prelude.{
  ℕ, ◌≡◌, refl, true, false, not, if◌then◌else◌, List, [], ◌∷◌, ◌++◌, Option, none, some, any, All,
  ◌==◌,
}
use simgadget.Prelude.Int.{ℤ, pos, ltb_ℤ, ◌-ℤ◌, ◌+ℤ◌, half_ℤ}
use simgadget.Prelude.Text.{Text, text, text_eq}
use simgadget.Prelude.Forest.{nil}
use simgadget.Prelude.Run.{value}
use simgadget.Ax.Element.{AxKeys, RawTree, is_degenerate_tree}
use simgadget.Ax.Orientation.{
  portrait, upside_down, landscape_left, transform_point_to_portrait, candidate_orientations,
}
use simgadget.Ax.Probe.{collect_probe_candidates, uniquely_labelled}
use simgadget.Ax.Tap.{TapGesture, absent}
use simgadget.Capture.Args.{ScreenshotArgs, RecordingArgs, rotation_for_orientation}
use simgadget.Capture.Rotation.{turned-transform, turned, quarters}
use simgadget.Capture.Pipeline.{
  ScreenshotOptions, CaptureGeometry, Effect, removes, Host, capture_screenshot,
}
use simgadget.Capture.Pipeline.Laws.{capture_screenshot-plan, capture_plan}
use simgadget.Simulator.Recovery.{World, wedged, ended, passed, Event, run}
use simgadget.Simulator.Reading.{Outside, error, Outcome, with_accessibility_recovery}
use simgadget.Simulator.Reading.Report.{with_accessibility_recovery-Report, Report}
use simgadget.Simulator.Describing.{describe_screen, diagnose_empty_tree, probe_points}
use simgadget.Simulator.Describing.Laws.{describe_screen-Tells, points_verdict, TellsScreen}
use simgadget.Simulator.Sizing.{Sizer, first_frame, screen_size}
use simgadget.Simulator.Sizing.Laws.{screen_size-Measured, size_in, Measured}
use simgadget.Simulator.Finding.{Companion, find_by_label}
use simgadget.Simulator.Ladder.{Rungs, climb}
use simgadget.Simulator.Ladder.Laws.{climb-Fits, Fits}
use simgadget.Simulator.Tapping.{label, tap}
use simgadget.Simulator.Tapping.Laws.{tap-Allowed, Allowed}
use simgadget.Simulator.Orienting.{Screen, probe_orientation, first_of}
use simgadget.Simulator.Orienting.Probing.{probe_orientation-true, answers_in, probes_of}
use simgadget.Tests.Samples.{frame_at, window_frame, screen_tree, element}

abbrev save_button : AxKeys
save_button = element (some (text "Save")) (some (text "Button")) none (frame_at 20 120 60 24)

-- A screen that shows nothing but one button, whatever is asked.
abbrev one_button : simgadget.Simulator.Tapping.Outside
one_button = record {
  find_by_label = λ query. value (some save_button);
  find_by_identifier = λ id. value none;
  to_portrait = λ p. value p;
  read_point = λ p. value (some save_button);
  activate = λ key name. none;
  find_again = λ key name. value none;
  touch_fails = none;
}

abbrev plain : TapGesture
plain = record { duration = absent; count = none }

tap-Allowed_example :
    All
      (Allowed one_button (text "Save") plain save_button)
      (tap one_button (label (text "Save")) plain).acts
tap-Allowed_example = tap-Allowed one_button (text "Save") plain save_button refl

abbrev phone : Text
phone = text "A1B2"

abbrev busy_day : List Event
busy_day = wedged phone ∷ ended phone ∷ passed 70000 ∷ wedged phone ∷ []

abbrev recovering : World
recovering = record {
  now = 5;
  registry =
      (
        phone,
        record { has_answered = true; last_recovery_at = some 5; recovery_in_flight = some 0 },
      )
      ∷ [];
  promises = 1;
  restarts = (phone, 5) ∷ [];
}

-- Every read meets the wedge.
abbrev wedge : Outside ℕ
wedge = record {
  read = λ k. error (text "No translation object returned for simulator");
  read_ms = λ k. 20;
  restart = λ k. true;
  restart_ms = λ k. 500;
  probe = λ k. false;
  probe_ms = λ k. 30;
}

abbrev handle : simgadget.Simulator.Reading.Handle
handle = record { now = 0; answered = true; last = none; reads = 0; restarts = 0; probes = 0 }

with_accessibility_recovery-Report_example :
    (after : simgadget.Simulator.Reading.Handle) × (out : Outcome ℕ) × (with_accessibility_recovery
        wedge handle
      ≡ some (after, out))
    × Report wedge handle after out
with_accessibility_recovery-Report_example = with_accessibility_recovery-Report wedge handle

turned-transform_example :
    turned
      (quarters (rotation_for_orientation landscape_left))
      (pos 390)
      (pos 844)
      (transform_point_to_portrait (pos 100) (pos 20) landscape_left (pos 844) (pos 390))
    ≡ (pos 100, pos 20)
turned-transform_example = turned-transform landscape_left (pos 100) (pos 20) (pos 844) (pos 390)

abbrev shot : ScreenshotArgs
shot = record {
  udid = phone;
  output_path = text "--help";
  format = some (text "png");
  display = none;
  mask = none;
}

abbrev recording : RecordingArgs
recording = record {
  udid = phone;
  output_path = text "-o.mov";
  codec = none;
  display = none;
  mask = none;
  force = true;
}

abbrev capture_host : Host ℕ
capture_host = record {
  run = λ command args. some (record { stdout = []; stderr = [] });
  read_file = λ file. some 7;
  write_file = λ file. true;
  show = λ n. text "90";
  join = λ directory name. directory ++ (text "/" ++ name);
  resolve = λ path. path;
  parse_sips_dimensions = λ out. some (record { width = 390; height = 844 });
}

abbrev options : ScreenshotOptions
options = record { format = none; quality = none; display = none; mask = none; path = none }

abbrev upright : CaptureGeometry
upright = record { orientation = landscape_left; resize = none }

capture_screenshot-plan_example :
    (carried_out : List Effect) × ((rest : List Effect) × ((carried_out ++ rest
          ≡ capture_plan capture_host (text "/tmp/c") phone options upright)
        × ((capture_screenshot capture_host (text "/tmp/c") phone options upright).effects
            ≡ carried_out ++ removes (text "/tmp/c") ∷ [])))
capture_screenshot-plan_example =
    (capture_screenshot-plan capture_host (text "/tmp/c") phone options upright).1

-- A screen held upside down: its upper half in portrait is the lower one, where `Allow` is.
abbrev upside_down_point : ℤ × ℤ → Option AxKeys
upside_down_point (x, y) = some (
    if ltb_ℤ y (pos 2532)
    then element (some (text "Allow")) none none (frame_at 100 700 90 40)
    else save_button)

abbrev flipped : Screen
flipped = record { describe_all = some screen_tree; read_point = upside_down_point }

probe_orientation-true_example : probe_orientation flipped ≡ (
    if any
      (λ probe. not (answers_in upside_down_point (pos 2340) (pos 5064) portrait probe))
      (probes_of screen_tree window_frame)
    then upside_down
    else first_of upside_down_point (pos 2340) (pos 5064) (candidate_orientations false))
unfolding collect_probe_candidates uniquely_labelled text_eq answers_in transform_point_to_portrait
    ◌-ℤ◌ ◌+ℤ◌ half_ℤ
probe_orientation-true_example =
    probe_orientation-true flipped screen_tree window_frame upside_down refl refl refl (λ e. cc)
      refl (refl, (refl, tt))

-- A simulator that answers the second point read but shows nothing until its bridge is restarted.
abbrev wedged_screen : simgadget.Simulator.Describing.Outside
wedged_screen = record {
  deleted = false;
  first_read = value nil;
  describe_all = value nil;
  second_read = value nil;
  point_answers = λ n. n == 1;
  restart_helps = true;
  last_read = value screen_tree;
}

describe_screen-Tells_example :
    TellsScreen (points_verdict wedged_screen) (describe_screen wedged_screen).ended
describe_screen-Tells_example = describe_screen-Tells wedged_screen tt tt tt tt

-- A companion that finds nothing by a marker, but shows the screen.
abbrev unmarked : Companion
unmarked = record {
  by_marker = λ key name k. simgadget.Simulator.Reading.value none;
  screen = λ k. simgadget.Simulator.Reading.value screen_tree;
  read_ms = λ k. 20;
  restart = λ k. true;
  restart_ms = λ k. 500;
  probe = λ k. false;
  probe_ms = λ k. 30;
}

-- Empty reads of a simulator that has answered before, until its bridge is restarted.
abbrev emptied : Rungs
emptied = record {
  first = value nil;
  shutdown = value tt;
  second = value nil;
  answered = true;
  recovered = true;
  third = value screen_tree;
}

climb-Fits_example : Fits true (climb emptied)
climb-Fits_example = climb-Fits emptied

-- The wedged simulator shows its screen once it is read again.
abbrev wedged_sizer : Sizer
wedged_sizer = record { outside = wedged_screen; describe_again = value screen_tree }

screen_size-Measured_example :
    (wedged_screen.deleted ≡ false)
    × (tree : RawTree) × Measured wedged_sizer tree
    × (size_in (first_frame tree) ≡ size_in (first_frame screen_tree))
unfolding screen_size diagnose_empty_tree probe_points is_degenerate_tree
screen_size-Measured_example =
    screen_size-Measured wedged_sizer (size_in (first_frame screen_tree)) refl
