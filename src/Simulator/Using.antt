-- ===== src/Simulator/Using.antt =====
-- packages/simgadget/src/simulator.ts: the verbs of a handle, called one after the other.
pub mod Deleted
pub mod Deleting
pub mod Exclusive
use simgadget.Prelude.{ℕ, Bool, List, [], ◌∷◌, Option}
use simgadget.Prelude.Int.{ℤ}
use simgadget.Prelude.Text.{Text}
use simgadget.Prelude.Run.{value, Run, done, and_then}
use simgadget.Lifecycle.Boot.{ReadyResult}
use simgadget.Simulator.Calls.{Failure, Act}
use simgadget.Simulator.Verbs.{
  Handle, World, state, show_window, boot, wait_ready, shutdown, delete, install_app, launch_app,
  restart_bridge, release_companion,
}
use simgadget.Simulator.Inputs.{RotateResult, rotate, type_text, swipe, press_button}

-- A call of a verb.
pub data Verb : Type 0 where
  states shows_window shuts_down deletes restarts_bridge releases_companion : Verb
  boots waits : Option ℕ → Verb
  installs rotates : Text → Verb
  launches : Text → Bool → Verb
  types : List ℕ → Verb
  swipes : ℤ × ℤ → ℤ × ℤ → Option ℤ → Option ℤ → Verb
  presses : Text → Option ℤ → Verb

-- What a call returns.
pub data Result : Type 0 where
  nothing : Result
  is_in : Text → Result
  is_ready : ReadyResult → Result
  has_pid : Option ℕ → Result
  has_rotated : RotateResult → Result

abbrev pub returning {ℓ} : {A : Type ℓ} → (A → Result) → Run Act Failure A → Run Act Failure Result
returning result r = and_then r λ a. done (value (result a))

abbrev pub void : Unit {0} → Result
void u = nothing

unfoldable pub perform : World → Handle → Verb → Handle × Run Act Failure Result
unfolding state show_window boot wait_ready shutdown delete install_app launch_app rotate type_text
    swipe press_button restart_bridge release_companion
perform w h states = (h, returning is_in (state w h))
perform w h shows_window = (h, returning void (show_window w h))
perform w h shuts_down = (h, returning void (shutdown w h))
perform w h deletes = ((delete w h).0, returning void (delete w h).1)
perform w h restarts_bridge = (h, returning void (restart_bridge w h))
perform w h releases_companion = (h, returning void (release_companion w h))
perform w h (boots budget) = ((boot w h budget).0, returning is_ready (boot w h budget).1)
perform w h (waits budget) =
    ((wait_ready w h budget).0, returning is_ready (wait_ready w h budget).1)
perform w h (installs path) = (h, returning void (install_app w h path))
perform w h (rotates to) = (h, returning has_rotated (rotate w h to))
perform w h (launches bundle terminate) = (h, returning has_pid (launch_app w h bundle terminate))
perform w h (types cs) = (h, returning void (type_text w h cs))
perform w h (swipes from to delta duration) = (h, returning void (swipe w h from to delta duration))
perform w h (presses button duration) = (h, returning void (press_button w h button duration))

-- Calls one after the other, each in a world of its own.
unfoldable pub perform_all : Handle → List (World × Verb) → Handle × List (Run Act Failure Result)
unfolding perform
perform_all h [] = (h, [])
perform_all h ((w, v) ∷ calls) =
    let (next, r) = perform w h v in let (last, rs) = perform_all next calls in (last, r ∷ rs)
