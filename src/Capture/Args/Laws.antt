-- ===== src/Capture/Args/Laws.antt =====
-- A path behind the separator is a path, whatever it begins with.
use simgadget.Prelude.{
  if◌then◌else◌, ◌≡◌, refl, ◌∙◌, inl, inr, Bool, true, false, List, [], ◌∷◌, ◌++◌, Option, none,
  some, Bool-cases,
}
use simgadget.Prelude.Text.{Text, text, text_eq, is_empty}
use simgadget.Capture.Args.{
  option_arg, ScreenshotArgs, screenshot_args, RecordingArgs, recording_args,
}

-- The positional arguments of a command line: those behind the first `--`.
abbrev pub positional : List Text → List Text
positional [] = []
positional (arg ∷ args) = if text_eq arg (text "--") then args else positional args

positional-option :
    (name : Text) (value : Option Text) (args : List Text)
    → ((v : Text) → text_eq (name ++ v) (text "--") ≡ false)
    → positional (option_arg name value ++ args) ≡ positional args
positional-option name none args h = refl
positional-option name (some v) args h = elim (Bool-cases (is_empty v)) [
  | inl none_given ↦ rw none_given refl
  | inr given ↦ rw (given, h v) refl
]

positional-verb :
    (udid verb : Text) (args : List Text)
    → text_eq udid (text "--") ≡ false
    → text_eq verb (text "--") ≡ false
    → positional (text "simctl" ∷ text "io" ∷ udid ∷ verb ∷ args) ≡ positional args
unfolding text_eq
positional-verb udid verb args h k = rw (h, k) refl

forced :
    {path : Text} (force : Bool)
    → positional ((if force then text "--force" ∷ [] else []) ++ text "--" ∷ path ∷ []) ≡ path ∷ []
unfolding text_eq
forced true = refl
forced false = refl

-- Of a screenshot's command line the one positional argument is the output path, also where that
-- path begins with a dash; so it is for a recording. The udid is not the separator itself.
args-positional :
    (shot : ScreenshotArgs) (recording : RecordingArgs)
    → text_eq shot.udid (text "--") ≡ false
    → text_eq recording.udid (text "--") ≡ false
    → (positional (screenshot_args shot) ≡ shot.output_path ∷ [])
      × (positional (recording_args recording) ≡ recording.output_path ∷ [])
unfolding screenshot_args recording_args text_eq
args-positional shot recording shot_udid recording_udid = (
  positional-verb shot.udid (text "screenshot") _ shot_udid refl
      ∙ positional-option (text "--type=") shot.format _ (λ v. refl)
      ∙ positional-option (text "--display=") shot.display _ (λ v. refl)
      ∙ positional-option (text "--mask=") shot.mask _ (λ v. refl),
  positional-verb recording.udid (text "recordVideo") _ recording_udid refl
      ∙ positional-option (text "--codec=") recording.codec _ (λ v. refl)
      ∙ positional-option (text "--display=") recording.display _ (λ v. refl)
      ∙ positional-option (text "--mask=") recording.mask _ (λ v. refl)
      ∙ forced recording.force,
)
