-- ===== src/Tests/Elements.antt =====
-- packages/simgadget/src/ax: the theorems on elements and trees, on a small screen.
use simgadget.Prelude.{◌≡◌, refl, false, List, [], ◌∷◌, none, some, map, filter}
use simgadget.Prelude.Int.{pos, ◌-ℤ◌, abs_ℤ}
use simgadget.Prelude.Text.{text, text_eq}
use simgadget.Prelude.Forest.{nil, cons, chains, map_forest}
use simgadget.Ax.Element.{AxKeys}
use simgadget.Ax.Prune.{prune_tree}
use simgadget.Ax.Prune.Chains.{prune_tree-chains, survivors, is_kept}
use simgadget.Ax.Remote.{visit, same_size}
use simgadget.Ax.Remote.Host.{visit-host, place}
use simgadget.Ax.Tap.{TapGesture, absent, element_disabled, decide_tap_verb}
use simgadget.Ax.Probe.{Candidate}
use simgadget.Tests.Samples.{frame_at, window_frame, host, sheet, screen_tree, element}

prune_tree-chains_example :
    chains [] (prune_tree screen_tree) ≡ map survivors (filter is_kept (chains [] screen_tree))
prune_tree-chains_example = prune_tree-chains screen_tree

visit-host_example :
    visit (pos 0, pos 0) (some window_frame) (cons host sheet nil)
    ≡ cons
        (record host { frame = some window_frame })
        (map_forest (place (pos 0, pos 0 -ℤ pos 2856)) sheet)
        nil
unfolding text_eq same_size abs_ℤ ◌-ℤ◌
visit-host_example =
    visit-host (pos 0, pos 0) window_frame (frame_at 0 476 390 844) host sheet refl refl refl
      (refl, tt, tt)

abbrev disabled_switch : AxKeys
disabled_switch =
    element (some (text "Wi-Fi")) (some (text "Switch")) (some false) (frame_at 300 120 60 24)

abbrev plain : TapGesture
plain = record { duration = absent; count = none }

disabled_refused : decide_tap_verb disabled_switch plain ≡ element_disabled
unfolding decide_tap_verb
disabled_refused = refl

abbrev stepper : AxKeys
stepper = element (some (text "Increment")) (some (text "Button")) none (frame_at 300 800 40 30)

abbrev toolbar : AxKeys
toolbar = element none (some (text "Toolbar")) none (frame_at 0 790 390 54)

abbrev candidates : List Candidate
candidates =
    record { frame = frame_at 20 120 60 24; label = text "Save" }
    ∷ record { frame = frame_at 20 220 60 24; label = text "Save" }
    ∷ record { frame = frame_at 100 700 90 40; label = text "Allow" }
    ∷ []
