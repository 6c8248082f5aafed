-- ===== src/Simulator/Orienting/Agreement.antt =====
-- The hint never contradicts the screen that is cached, so points stay on the screen.
use simgadget.Prelude.{◌≡◌, List, [], ◌∷◌, none, some}
use simgadget.Prelude.Int.{ℤ, ltb_ℤ}
use simgadget.Ax.Element.{Frame}
use simgadget.Ax.Orientation.{auto, is_landscape, get_effective_orientation}
use simgadget.Simulator.Orienting.{Handle, Screen, note_root_frame, detect_orientation}

-- The orientation that points are transformed by has the shape of the cached screen.
abbrev Agrees : Handle → Type 0
Agrees h =
    (w height : ℤ)
    → h.screen_dims ≡ some (w, height)
    → is_landscape (get_effective_orientation h.orientation_hint w height) ≡ ltb_ℤ height w

-- What changes these fields of a handle: a root frame that is noted, or a detection.
pub data Event : Type 0 where
  notes : Frame → Event
  detects : Screen → Event

unfoldable pub step : Handle → Event → Handle
step h (notes frame) = note_root_frame frame h
step h (detects screen) = detect_orientation screen h

unfoldable pub run : Handle → List Event → Handle
unfolding step
run h [] = h
run h (e ∷ es) = run (step h e) es

abbrev pub new_handle : Handle
new_handle = record { screen_dims = none; orientation_hint = auto }
