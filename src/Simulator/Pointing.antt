-- ===== src/Simulator/Pointing.antt =====
-- packages/simgadget/src/simulator.ts: `describePoint` and `readPoint`, on a simulator that was not
-- deleted. The marks that a simulator has answered are the registry's.
pub mod Laws
use simgadget.Prelude.{ℕ, if◌then◌else◌, Bool, false, ◌&&◌, Option, none, some}
use simgadget.Prelude.Int.{ℤ, round_to}
use simgadget.Ax.Element.{Frame, RawKeys, AxKeys, RawTree, to_raw}
use simgadget.Ax.Geometry.{is_remotely_hosted}
use simgadget.Ax.Locate.{locate_in_tree}
use simgadget.Ax.Recovery.{is_wedge_error}
use simgadget.Simulator.Reading.{
  Reply, value, error, Handle, Outcome, done, failed, not_answering, with_accessibility_recovery,
}
use simgadget.Simulator.Finding.{Companion, reading, reported, screen_elements, Found}

-- What the outside answers: the transform of the point; the k-th read of a point; and whether the
-- screen can be read just then, where that read failed.
pub record Pointer : Type 0 where
  pub companion : Companion
  pub to_portrait : ℤ × ℤ → Reply (ℤ × ℤ)
  pub by_point : ℤ × ℤ → ℕ → Reply (Option RawKeys)
  pub answering : ℕ → Bool

abbrev pub rounded : ℤ × ℤ → ℤ × ℤ
rounded (x, y) = (round_to 6 x, round_to 6 y)

-- One attempt of `readPoint`: an error of a wedge is an empty point where the screen can be read.
unfoldable pub read_point_once : Bool → Reply (Option RawKeys) → Reply (Option AxKeys)
read_point_once answering (value none) = value none
read_point_once answering (value (some element)) = value (some (reported element))
read_point_once answering (error e) = if is_wedge_error e && answering then value none else error e

abbrev pub needs_correction : Option Frame → ℤ × ℤ → Bool
needs_correction none (x, y) = false
needs_correction (some frame) (x, y) = is_remotely_hosted frame x y

abbrev pub with_frame : AxKeys → Option Frame → AxKeys
with_frame element none = element
with_frame element (some frame) = record element { frame = some frame }

-- What the read of the screen makes of the element; one that fails leaves it as it is.
abbrev pub corrected : AxKeys → ℤ × ℤ → Option (Handle × Outcome RawTree) → Found
corrected element at none = none
corrected element (x, y) (some (h, done tree)) = some (
  h,
  done (some (with_frame element (locate_in_tree (screen_elements tree) (to_raw element) x y))),
)
corrected element at (some (h, failed e)) = some (h, done (some element))
corrected element at (some (h, not_answering tried)) = some (h, done (some element))

module _ (p : Pointer) where
  -- `readPoint`, at a point in portrait
  unfoldable pub read_point : ℤ × ℤ → Handle → Found
  unfolding read_point_once
  read_point at h =
      with_accessibility_recovery
        (reading p.companion (λ k. read_point_once (p.answering k) (p.by_point (rounded at) k))) h

  abbrev pub correct : ℤ × ℤ → AxKeys → Handle → Found
  correct at element h =
      let screen = with_accessibility_recovery (reading p.companion p.companion.screen) h in
      if needs_correction element.frame at
      then corrected element at screen
      else some (h, done (some element))

  abbrev pub correct_found : ℤ × ℤ → Found → Found
  correct_found at none = none
  correct_found at (some (h, done none)) = some (h, done none)
  correct_found at (some (h, done (some element))) = correct at element h
  correct_found at (some (h, failed e)) = some (h, failed e)
  correct_found at (some (h, not_answering tried)) = some (h, not_answering tried)

  abbrev pub describe_from : ℤ × ℤ → Handle → Reply (ℤ × ℤ) → Found
  unfolding read_point
  describe_from at h (value portrait) = correct_found at (read_point portrait h)
  describe_from at h (error e) = some (h, failed e)

  -- `describePoint`
  unfoldable pub describe_point : ℤ × ℤ → Handle → Found
  unfolding read_point
  describe_point at h = describe_from at h (p.to_portrait at)
