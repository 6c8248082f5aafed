-- ===== src/Tests/Devices.antt =====
-- packages/simgadget/src/lifecycle.ts and idb: the theorems at concrete devices and texts.
use simgadget.Prelude.{ℕ, ◌≡◌, refl, true, false, List, [], ◌∷◌, none, some}
use simgadget.Prelude.Text.{Text, text}
use simgadget.Ax.Element.{undefined, str}
use simgadget.Idb.Keymap.{unmapped_characters}
use simgadget.Idb.Typing.{HidEvent, type_text, sends}
use simgadget.Idb.Typing.Laws.{type_text-read, keyboard_run, us_layout}
use simgadget.Lifecycle.Devices.{Device}
use simgadget.Lifecycle.Boot.{Turn, wait_until_driveable, enough_fuel}
use simgadget.Lifecycle.Boot.Loop.{wait_until_driveable-Report, Reports}
use simgadget.Lifecycle.BootStatus.{
  BootEvent, exits, falls_due, resumes, BootWait, wait_for_boot_status, step,
}
use simgadget.Lifecycle.BootStatus.Laws.{wait_for_boot_status-ends, is_tidy, last_events}

type_text-read_example :
    (events : List HidEvent) × (type_text (text "Hi!") ≡ sends events)
    × (keyboard_run us_layout (record { shifted = false; typed = [] }) events
        ≡ record { shifted = false; typed = text "Hi!" })
unfolding unmapped_characters
type_text-read_example = type_text-read (text "Hi!") refl

abbrev device : Text → Device
device udid = record {
  udid = str udid;
  name = str (text "iPhone");
  state = undefined;
  device_type_identifier = undefined;
}

abbrev silent : ℕ → Turn
silent n = record { read_takes = 100; frame = none; restart_takes = 400; oversleeps = 1 }

wait_until_driveable-Report_example :
    Reports
      (record { started = 1000; polling_started = 29010; budget = 55000 })
      false
      (wait_until_driveable (enough_fuel 55000) silent 55000 1000 20000 10)
wait_until_driveable-Report_example = wait_until_driveable-Report silent 55000 1000 20000 10

-- The timer falls due first, and the process that is then killed ends by a signal.
abbrev late_boot : List BootEvent
late_boot = falls_due ∷ resumes ∷ exits none ∷ []

abbrev given_up : BootWait
given_up = record { settled = true; armed = false; exit_code = none; resumed = true; killed = true }

wait_for_boot_status-ends_example :
    (is_tidy given_up ≡ true)
    × (last : BootWait) × (wait_for_boot_status (last_events given_up) given_up ≡ some last)
    × (last.resumed ≡ true)
unfolding wait_for_boot_status step
wait_for_boot_status-ends_example = wait_for_boot_status-ends late_boot given_up refl
