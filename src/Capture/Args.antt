-- ===== src/Capture/Args.antt =====
-- packages/simgadget/src/capture.ts: the pure argument builders.
pub mod Laws
use simgadget.Prelude.{ℕ, if◌then◌else◌, Bool, List, [], ◌∷◌, ◌++◌, Option, none, some, min, max}
use simgadget.Prelude.Text.{Text, text, is_empty}
use simgadget.Ax.Orientation.{
  Orientation, auto, portrait, landscape_right, upside_down, landscape_left,
}

-- `rotationForOrientation`: degrees clockwise.
unfoldable pub rotation_for_orientation : Orientation → Option ℕ
rotation_for_orientation landscape_right = some 90
rotation_for_orientation landscape_left = some 270
rotation_for_orientation upside_down = some 180
rotation_for_orientation portrait = none
rotation_for_orientation auto = none

-- A width and a height.
pub record Size : Type 0 where
  pub width : ℕ
  pub height : ℕ

-- `pointDimensions`
unfoldable pub point_dimensions : Size → Size
point_dimensions frame = record {
  width = min frame.width frame.height;
  height = max frame.width frame.height;
}

-- `...(value ? [`--name=${value}`] : [])`
abbrev pub option_arg : Text → Option Text → List Text
option_arg name none = []
option_arg name (some value) = if is_empty value then [] else (name ++ value) ∷ []

-- `ScreenshotArgs`; the display and the mask are texts of a fixed set.
pub record ScreenshotArgs : Type 0 where
  pub udid : Text
  pub output_path : Text
  pub format : Option Text
  pub display : Option Text
  pub mask : Option Text

-- `screenshotArgs`
pub screenshot_args : ScreenshotArgs → List Text
screenshot_args opts =
    text "simctl"
    ∷ text "io"
    ∷ opts.udid
    ∷ text "screenshot"
    ∷ (option_arg (text "--type=") opts.format
        ++ (option_arg (text "--display=") opts.display
            ++ (option_arg (text "--mask=") opts.mask ++ (text "--" ∷ opts.output_path ∷ []))))

-- `RecordingArgs`
pub record RecordingArgs : Type 0 where
  pub udid : Text
  pub output_path : Text
  pub codec : Option Text
  pub display : Option Text
  pub mask : Option Text
  pub force : Bool

-- `recordingArgs`
pub recording_args : RecordingArgs → List Text
recording_args opts =
    text "simctl"
    ∷ text "io"
    ∷ opts.udid
    ∷ text "recordVideo"
    ∷ (option_arg (text "--codec=") opts.codec
        ++ (option_arg (text "--display=") opts.display
            ++ (option_arg (text "--mask=") opts.mask
                ++ ((if opts.force then text "--force" ∷ [] else [])
                    ++ (text "--" ∷ opts.output_path ∷ [])))))

-- `SipsArgs`
pub record SipsArgs : Type 0 where
  pub input : Text
  pub output : Text
  pub resize : Option Size
  pub rotate : Option ℕ
  pub format : Option Text
  pub quality : Option ℕ

-- `sipsArgs`; `String(n)` is `show`.
module _ (show : ℕ → Text) where
  abbrev resize_args : Option Size → List Text
  resize_args none = []
  resize_args (some size) = text "-z" ∷ show size.height ∷ show size.width ∷ []

  abbrev rotate_args : Option ℕ → List Text
  rotate_args none = []
  rotate_args (some degrees) = text "--rotate" ∷ show degrees ∷ []

  abbrev format_args : Option Text → List Text
  format_args none = []
  format_args (some f) = if is_empty f then [] else text "-s" ∷ text "format" ∷ f ∷ []

  abbrev quality_args : Option ℕ → List Text
  quality_args none = []
  quality_args (some q) = text "-s" ∷ text "formatOptions" ∷ show q ∷ []

  unfoldable pub sips_args : SipsArgs → List Text
  sips_args opts =
      resize_args opts.resize
      ++ rotate_args opts.rotate
      ++ format_args opts.format
      ++ quality_args opts.quality
      ++ opts.input ∷ text "--out" ∷ opts.output ∷ []

-- `sipsQueryArgs`
unfoldable pub sips_query_args : Text → List Text
sips_query_args file = text "-g" ∷ text "pixelWidth" ∷ text "-g" ∷ text "pixelHeight" ∷ file ∷ []
