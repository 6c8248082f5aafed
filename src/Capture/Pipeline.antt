-- ===== src/Capture/Pipeline.antt =====
-- packages/simgadget/src/capture.ts: `captureScreenshot` and `measureImage`. A command that is run,
-- a file that is read or written and the removal of the directory are effects, in their order.
pub mod Keeps
pub mod Laws
use simgadget.Prelude.{
  ℕ, if◌then◌else◌, Bool, ◌&&◌, ◌||◌, not, List, [], ◌∷◌, ◌++◌, Option, none, some, get_or, is_some,
}
use simgadget.Prelude.Text.{Text, text, text_eq, is_empty, includes}
use simgadget.Ax.Orientation.{Orientation}
use simgadget.Capture.Args.{
  rotation_for_orientation, Size, screenshot_args, SipsArgs, sips_args, sips_query_args,
}

-- `ScreenshotOptions`, less `resizeTo`, which the handle has resolved.
pub record ScreenshotOptions : Type 0 where
  pub format : Option Text
  pub quality : Option ℕ
  pub display : Option Text
  pub mask : Option Text
  pub path : Option Text

-- `CaptureGeometry`
pub record CaptureGeometry : Type 0 where
  pub orientation : Orientation
  pub resize : Option Size

-- `deps.run(command, args)`, and the files that are read, written and removed.
pub data Effect : Type 0 where
  runs : Text → List Text → Effect
  reads : Text → Effect
  writes : Text → Effect
  removes : Text → Effect

-- What a command printed.
pub record Printed : Type 0 where
  pub stdout : Text
  pub stderr : Text

-- Everything that the pipeline is told: what commands print, or nothing where they fail; what files
-- hold; whether a write goes well; and the library's functions on numbers, sizes and paths.
pub record Host (Data : Type 0) : Type 0 where
  pub run : Text → List Text → Option Printed
  pub read_file : Text → Option Data
  pub write_file : Text → Bool
  pub show : ℕ → Text
  pub join : Text → Text → Text
  pub resolve : Text → Text
  pub parse_sips_dimensions : Text → Option Size

pub data Outcome {ℓ} (A : Type ℓ) : Type ℓ where
  returns : A → Outcome A
  throws : Outcome A

-- A run of code: its effects, and how it ended.
pub record Run {ℓ} (A : Type ℓ) : Type ℓ where
  pub effects : List Effect
  pub outcome : Outcome A

abbrev after {ℓ} : {A : Type ℓ} → List Effect → Run A → Run A
after effects r = record { effects = effects ++ r.effects; outcome = r.outcome }

module _ {ℓ κ} {A : Type ℓ} {B : Type κ} where
  -- One piece of code and then the next, unless the first throws.
  abbrev pub and_then : Run A → (A → Run B) → Run B
  and_then r next = elim r.outcome [
    | returns a ↦ after r.effects (next a)
    | throws ↦ record { effects = r.effects; outcome = throws }
  ]

abbrev pub done {ℓ} : {A : Type ℓ} → A → Run A
done a = record { effects = []; outcome = returns a }

abbrev pub answered {ℓ} : {A : Type ℓ} → Option A → Outcome A
answered none = throws
answered (some a) = returns a

-- `Screenshot`
pub record Screenshot (Data : Type 0) : Type 0 where
  pub data_read : Data
  pub format : Text
  pub width : ℕ
  pub height : ℕ
  pub orientation : Orientation

-- What stands on stderr is a failure unless it tells of the screenshot.
abbrev pub checked : Printed → Run (Unit {0})
checked printed =
    if not (is_empty printed.stderr) && not (includes (text "Wrote screenshot to") printed.stderr)
    then record { effects = []; outcome = throws }
    else done tt

module _ {Data : Type 0} (host : Host Data) where
  abbrev pub run_command : Text → List Text → Run Printed
  run_command command args = record {
    effects = runs command args ∷ [];
    outcome = answered (host.run command args);
  }

  abbrev sips : SipsArgs → Run Printed
  sips args = run_command (text "sips") (sips_args host.show args)

  -- `measureImage`
  pub measure_image : Text → Run Size
  measure_image file = and_then (run_command (text "sips") (sips_query_args file)) λ printed.
      record { effects = []; outcome = answered (host.parse_sips_dimensions printed.stdout) }

  -- The capture.
  pub capture : Text → Text → Text → ScreenshotOptions → Run (Unit {0})
  capture udid raw capture_format opts =
      and_then
        (run_command (text "xcrun") (
          screenshot_args (record {
            udid = udid;
            output_path = raw;
            format = some capture_format;
            display = opts.display;
            mask = opts.mask;
          })))
        checked

  -- The first pass of sips, where there is something for it to do; it returns the current file.
  pub resized : Text → Text → Text → ScreenshotOptions → Text → Option Size → Run Text
  resized directory format capture_format opts current resize =
      let resized_path = host.join directory (text "resized." ++ format) in
      if is_some resize || not (text_eq format capture_format)
      then and_then
          (sips (record {
            input = current;
            output = resized_path;
            resize = resize;
            rotate = none;
            format = some format;
            quality = if text_eq format (text "jpeg") then some (get_or opts.quality 80) else none;
          }))
          (λ printed. done resized_path)
      else done current

  -- The second pass, where the interface is not upright.
  pub rotated : Text → Text → Text → Orientation → Run Text
  rotated directory format current orientation = elim (rotation_for_orientation orientation) [
    | none ↦ done current
    | some degrees ↦
        let output = host.join directory (text "rotated." ++ format) in
        and_then
          (sips (record {
            input = current;
            output = output;
            resize = none;
            rotate = some degrees;
            format = none;
            quality = none;
          }))
          λ printed. done output
  ]

  -- `if (opts.path) await writeFile(…)`
  pub written : Option Text → Run (Unit {0})
  written none = done tt
  written (some path) = if is_empty path then done tt else record {
    effects = writes (host.resolve path) ∷ [];
    outcome = if host.write_file (host.resolve path) then returns tt else throws;
  }

  abbrev pub read : Text → Run Data
  read file = record { effects = reads file ∷ []; outcome = answered (host.read_file file) }

  -- The body of the `try`.
  pub capture_in : Text → Text → ScreenshotOptions → CaptureGeometry → Run (Screenshot Data)
  unfolding capture resized rotated measure_image written
  capture_in directory udid opts geometry =
      let format = get_or opts.format (text "png") in
      let capture_format = if text_eq format (text "jpeg") then text "png" else format in
      let raw = host.join directory (text "capture." ++ capture_format) in
      and_then (capture udid raw capture_format opts) λ captured.
        and_then (resized directory format capture_format opts raw geometry.resize) λ small.
          and_then (rotated directory format small geometry.orientation) λ upright.
            and_then (read upright) λ bytes. and_then (measure_image upright) λ size.
              and_then (written opts.path) λ kept. done (record {
                data_read = bytes;
                format = format;
                width = size.width;
                height = size.height;
                orientation = geometry.orientation;
              })

  -- `captureScreenshot`, once its directory is made; the `finally` removes that.
  pub capture_screenshot : Text → Text → ScreenshotOptions → CaptureGeometry → Run (Screenshot Data)
  unfolding capture_in
  capture_screenshot directory udid opts geometry =
      let body = capture_in directory udid opts geometry in
      record { effects = body.effects ++ removes directory ∷ []; outcome = body.outcome }
