-- ===== src/Capture/Pipeline/Laws.antt =====
-- What a capture does to the outside, on every path through it.
use simgadget.Prelude.{
  if◌then◌else◌, ◌≡◌, refl, ap, inl, inr, ◌&&◌, ◌||◌, not, List, [], ◌∷◌, ◌++◌, Option, none, some,
  Bool-cases, Option-cases, get_or, is_some,
}
use simgadget.Prelude.Text.{Text, text, text_eq, is_empty, includes}
use simgadget.Ax.Orientation.{Orientation}
use simgadget.Capture.Args.{
  rotation_for_orientation, Size, screenshot_args, sips_args, sips_query_args,
}
use simgadget.Capture.Pipeline.{
  ScreenshotOptions, CaptureGeometry, Effect, runs, reads, writes, removes, Printed, Host, returns,
  throws, and_then, done, answered, Screenshot, run_command, checked, measure_image, capture,
  resized, rotated, written, capture_in, capture_screenshot,
}
use simgadget.Capture.Pipeline.Keeps.{
  Keeps, Keeps-and_then, Keeps-one, Keeps-done, Keeps-ends, Keeps-tells, Any,
}

module _ {Data : Type 0} (host : Host Data) where
  -- The calls of `deps.run` in their order, the files between them, and at last the caller's own
  -- file: what a capture is meant to do.
  abbrev small_file : Text → Text → Text → Option Size → Text
  small_file directory format capture_format resize =
      if is_some resize || not (text_eq format capture_format)
      then host.join directory (text "resized." ++ format)
      else host.join directory (text "capture." ++ capture_format)

  abbrev resize_plan : Text → Text → Text → ScreenshotOptions → Option Size → List Effect
  resize_plan directory format capture_format opts resize =
      if is_some resize || not (text_eq format capture_format)
      then runs (text "sips") (
          sips_args host.show (record {
            input = host.join directory (text "capture." ++ capture_format);
            output = host.join directory (text "resized." ++ format);
            resize = resize;
            rotate = none;
            format = some format;
            quality = if text_eq format (text "jpeg") then some (get_or opts.quality 80) else none;
          }))
        ∷ []
      else []

  abbrev final_file : Text → Text → Text → Orientation → Text
  final_file directory format small orientation = elim (rotation_for_orientation orientation) [
    | none ↦ small
    | some degrees ↦ host.join directory (text "rotated." ++ format)
  ]

  abbrev rotate_plan : Text → Text → Text → Orientation → List Effect
  rotate_plan directory format small orientation = elim (rotation_for_orientation orientation) [
    | none ↦ []
    | some degrees ↦
        runs (text "sips") (
          sips_args host.show (record {
            input = small;
            output = host.join directory (text "rotated." ++ format);
            resize = none;
            rotate = some degrees;
            format = none;
            quality = none;
          }))
        ∷ []
  ]

  abbrev write_plan : Option Text → List Effect
  write_plan none = []
  write_plan (some path) = if is_empty path then [] else writes (host.resolve path) ∷ []

  Keeps-command {ℓ κ} :
      {A : Type ℓ} (command : Text) (args : List Text) (Good : A → Type κ) (a : A)
      → Good a
      → Keeps
          (and_then (run_command host command args) (λ printed. done a))
          (runs command args ∷ [])
          Good
  Keeps-command command args Good a good =
      Keeps-and_then Any Good (runs command args ∷ []) (answered (host.run command args))
        (λ printed. done a) (runs command args ∷ []) []
        (Keeps-one Any (runs command args) (host.run command args) (λ printed e. tt))
        (λ printed known. Keeps-done Good a good)

  resized-Keeps :
      (directory format capture_format : Text) (opts : ScreenshotOptions) (resize : Option Size)
      → Keeps
          (resized host directory format capture_format opts
            (host.join directory (text "capture." ++ capture_format))
            resize)
          (resize_plan directory format capture_format opts resize)
          (λ file. file ≡ small_file directory format capture_format resize)
  unfolding resized
  resized-Keeps directory format capture_format opts resize =
      elim (Bool-cases (is_some resize || not (text_eq format capture_format))) [
        | inl needed ↦ rw (needed, resized) (Keeps-command _ _ _ _ refl)
        | inr spared ↦ rw (spared, resized) (Keeps-done _ _ refl)
      ]

  rotated-Keeps :
      (directory format small : Text) (orientation : Orientation)
      → Keeps
          (rotated host directory format small orientation)
          (rotate_plan directory format small orientation)
          (λ file. file ≡ final_file directory format small orientation)
  unfolding rotated
  rotated-Keeps directory format small orientation =
      elim (Option-cases (rotation_for_orientation orientation)) [
        | inl upright ↦ rw (upright, rotated, rotate_plan, final_file) (Keeps-done _ _ refl)
        | inr (degrees, turned) ↦
            rw (turned, rotated, rotate_plan, final_file) (Keeps-command _ _ _ _ refl)
      ]

  checked-Keeps : (printed : Printed) → Keeps (checked printed) [] Any
  checked-Keeps printed =
      elim (Bool-cases (
        not (is_empty printed.stderr)
        && not (includes (text "Wrote screenshot to") printed.stderr))) [
          | inl bad ↦ rw (bad, checked) (Keeps-ends throws)
          | inr good ↦ rw (good, checked) (Keeps-ends (returns tt))
        ]

  capture-Keeps :
      (udid raw capture_format : Text) (opts : ScreenshotOptions)
      → Keeps
          (capture host udid raw capture_format opts)
          (runs (text "xcrun") (
              screenshot_args (record {
                udid = udid;
                output_path = raw;
                format = some capture_format;
                display = opts.display;
                mask = opts.mask;
              }))
            ∷ [])
          Any
  unfolding capture
  capture-Keeps udid raw capture_format opts =
      Keeps-and_then Any Any _ _ _ _ [] (Keeps-one Any _ _ (λ printed e. tt))
        (λ printed known. checked-Keeps printed)

  measure_image-Keeps :
      (file : Text)
      → Keeps (measure_image host file) (runs (text "sips") (sips_query_args file) ∷ []) Any
  unfolding measure_image
  measure_image-Keeps file =
      Keeps-and_then Any Any _ _ _ _ [] (Keeps-one Any _ _ (λ printed e. tt))
        (λ printed known. Keeps-ends (answered (host.parse_sips_dimensions printed.stdout)))

  written-Keeps : (path : Option Text) → Keeps (written host path) (write_plan path) Any
  unfolding written
  written-Keeps none = Keeps-done Any tt tt
  written-Keeps (some path) = elim (Bool-cases (is_empty path)) [
    | inl empty ↦ rw (empty, written) (Keeps-done Any tt tt)
    | inr given ↦ rw (given, written) (Keeps-tells (writes (host.resolve path)) _)
  ]

  -- The whole plan of a capture.
  abbrev pub capture_plan : Text → Text → ScreenshotOptions → CaptureGeometry → List Effect
  capture_plan directory udid opts geometry =
      let format = get_or opts.format (text "png") in
      let capture_format = if text_eq format (text "jpeg") then text "png" else format in
      let small = small_file directory format capture_format geometry.resize in
      let upright = final_file directory format small geometry.orientation in
      runs (text "xcrun") (
        screenshot_args (record {
          udid = udid;
          output_path = host.join directory (text "capture." ++ capture_format);
          format = some capture_format;
          display = opts.display;
          mask = opts.mask;
        }))
      ∷ (resize_plan directory format capture_format opts geometry.resize
          ++ (rotate_plan directory format small geometry.orientation
              ++ (reads upright
                  ∷ runs (text "sips") (sips_query_args upright)
                  ∷ (write_plan opts.path ++ []))))

  capture_in-Keeps :
      (directory udid : Text) (opts : ScreenshotOptions) (geometry : CaptureGeometry)
      → Keeps
          (capture_in host directory udid opts geometry)
          (capture_plan directory udid opts geometry)
          Any
  unfolding capture_in
  capture_in-Keeps directory udid opts geometry =
      Keeps-and_then Any Any _ _ _ _ _ (capture-Keeps udid _ _ opts) λ captured known.
        Keeps-and_then _ Any _ _ _ _ _ (resized-Keeps directory _ _ opts geometry.resize)
          λ small is_small. rw is_small (
            Keeps-and_then _ Any _ _ _ _ _ (rotated-Keeps directory _ _ geometry.orientation)
              λ upright is_upright. rw is_upright (
                Keeps-and_then Any Any _ _ _ _ _ (Keeps-one Any _ _ (λ b e. tt)) λ bytes got.
                  Keeps-and_then Any Any _ _ _ _ _ (measure_image-Keeps _) λ size measured.
                    Keeps-and_then Any Any _ _ _ _ _ (written-Keeps opts.path)
                      λ kept stored. Keeps-ends (returns _)))

  -- A capture that returns has carried out the whole plan: the capture, then the resize and the
  -- rotation where the options and the orientation ask for them, each reading what the one before
  -- it wrote, then the read and the measurement of the last file, then the caller's copy. One that
  -- throws has carried out a first part of it. Either way the directory is removed after that.
  pub capture_screenshot-plan :
      (directory udid : Text) (opts : ScreenshotOptions) (geometry : CaptureGeometry)
      → ((shot : Screenshot Data)
          → (capture_screenshot host directory udid opts geometry).outcome ≡ returns shot
          → (capture_screenshot host directory udid opts geometry).effects
            ≡ capture_plan directory udid opts geometry ++ removes directory ∷ [])
        × ((carried_out : List Effect) × ((rest : List Effect) × ((carried_out ++ rest
                  ≡ capture_plan directory udid opts geometry)
                × ((capture_screenshot host directory udid opts geometry).effects
                    ≡ carried_out ++ removes directory ∷ []))))
  unfolding capture_screenshot
  capture_screenshot-plan directory udid opts geometry =
      let body = capture_in-Keeps directory udid opts geometry in
      let (rest, e) = body.part in
      (
        λ shot returned. ap (λ es. es ++ removes directory ∷ []) (body.full shot returned).0,
        ((capture_in host directory udid opts geometry).effects, (rest, (e, refl))),
      )
