-- ===== src/Simulator/Inputs.antt =====
-- packages/simgadget/src/simulator.ts: `rotate`, `typeText` with its gate, `swipe` and `pressButton`.
pub mod Typing
pub mod Ordered
use simgadget.Prelude.{
  ℕ, ◌==◌, if◌then◌else◌, Bool, true, false, List, [], ◌∷◌, Option, none, some, get_or,
}
use simgadget.Prelude.Int.{ℤ, round_to}
use simgadget.Prelude.Text.{Text, text, text_eq}
use simgadget.Prelude.Run.{Reply, value, throws, Run, done, act, after, and_then}
use simgadget.Ax.Element.{AxKeys, RawTree}
use simgadget.Ax.Input.{editing_secure_field}
use simgadget.Ax.Orientation.{Orientation}
use simgadget.Idb.Keymap.{unmapped_characters}
use simgadget.Simulator.Calls.{
  Button, home, lock, side_button, siri, apple_pay, OrientationType, portrait, portrait_upside_down,
  landscape_left, landscape_right, Request, reads_gate, sets_orientation, types, swipes, presses,
  Failure, untypeable, typing_blocked, unknown_name, Act, detects_orientation, finds_sheet, sleeps,
  with_client,
}
use simgadget.Simulator.Verbs.{Handle, World, unless_deleted}

abbrev pub or_else {ℓ} : {A : Type ℓ} → A → Reply Failure A → A
or_else fallback (value a) = a
or_else fallback (throws f) = fallback

-- A run whose failure has a value for it.
abbrev pub falling_back {ℓ} : {A : Type ℓ} → A → Run Act Failure A → Run Act Failure A
falling_back fallback r = record { acts = r.acts; ended = value (or_else fallback r.ended) }

-- `HID_BUTTON`
abbrev pub hid_button : Text → Option Button
hid_button name =
    if text_eq name (text "home")
    then some home
    else if text_eq name (text "lock")
    then some lock
    else if text_eq name (text "side-button")
    then some side_button
    else if text_eq name (text "siri")
    then some siri
    else if text_eq name (text "apple-pay")
    then some apple_pay
    else none

-- `HID_ORIENTATION`
abbrev pub hid_orientation : Text → Option OrientationType
hid_orientation name =
    if text_eq name (text "portrait")
    then some portrait
    else if text_eq name (text "upside_down")
    then some portrait_upside_down
    else if text_eq name (text "landscape_left")
    then some landscape_right
    else if text_eq name (text "landscape_right")
    then some landscape_left
    else none

-- `ROTATION_SETTLE_MS`
abbrev pub rotation_settle_ms : ℕ
rotation_settle_ms = 1500

-- `RotateResult`
pub record RotateResult : Type 0 where
  pub requested : Text
  pub adopted : Orientation

abbrev pub occurs : ℕ → List ℕ → Bool
occurs c [] = false
occurs c (d ∷ ds) = if c == d then true else occurs c ds

-- `[...new Set(list)]`, behind the elements that the set has.
abbrev pub distinct : List ℕ → List ℕ → List ℕ
distinct seen [] = []
distinct seen (c ∷ cs) =
    let rest = distinct (c ∷ seen) cs in if occurs c seen then distinct seen cs else c ∷ rest

abbrev pub rounded : ℤ × ℤ → ℤ × ℤ
rounded (x, y) = (round_to 6 x, round_to 6 y)

abbrev pub secure_in : Option RawTree → Bool
secure_in none = false
secure_in (some roots) = get_or (editing_secure_field roots) false

module _ (w : World) where
  abbrev pub rotate_to : Handle → Text → OrientationType → Run Act Failure RotateResult
  rotate_to h to hid =
      and_then
        (with_client w.host h.udid (sets_orientation hid) false
          (w.host.answer (sets_orientation hid)))
        λ set. after (sleeps rotation_settle_ms ∷ []) (
          and_then (act detects_orientation w.adopted)
            λ adopted. done (value (record { requested = to; adopted = adopted })))

  -- `rotate`
  unfoldable pub rotate : Handle → Text → Run Act Failure RotateResult
  rotate h to = unless_deleted h (elim (hid_orientation to) [
    | none ↦ done (throws (unknown_name to))
    | some hid ↦ rotate_to h to hid
  ])

  -- A request that is exclusive.
  abbrev pub exclusive_call : Handle → Request → Run Act Failure (Unit {0})
  exclusive_call h request = with_client w.host h.udid request true (w.host.answer request)

  -- `editingSecureField`
  abbrev pub editing_secure_field_now : Handle → Run Act Failure Bool
  editing_secure_field_now h = falling_back false (
      and_then (with_client w.host h.udid reads_gate false w.host.gate)
        λ info. done (value (secure_in info)))

  -- `strongPasswordSheet`; its read is told from outside.
  abbrev pub strong_password_sheet : Run Act Failure (Option AxKeys)
  strong_password_sheet = act finds_sheet (value (or_else none w.sheet))

  -- `typingBlocker`
  abbrev pub typing_blocker : Handle → Run Act Failure (Option AxKeys)
  typing_blocker h =
      and_then (editing_secure_field_now h)
        λ editing. if editing then strong_password_sheet else done (value none)

  abbrev pub type_unless : Handle → List ℕ → Option AxKeys → Run Act Failure (Unit {0})
  type_unless h cs none = exclusive_call h (types cs)
  type_unless h cs (some blocker) = done (throws (typing_blocked blocker))

  abbrev pub type_mapped : Handle → List ℕ → List ℕ → Run Act Failure (Unit {0})
  type_mapped h cs [] = and_then (typing_blocker h) (type_unless h cs)
  type_mapped h cs (c ∷ more) = done (throws (untypeable (c ∷ more)))

  -- `typeText`
  unfoldable pub type_text : Handle → List ℕ → Run Act Failure (Unit {0})
  type_text h cs = unless_deleted h (type_mapped h cs (distinct [] (unmapped_characters cs)))

  -- `swipe`
  unfoldable pub swipe : Handle → ℤ × ℤ → ℤ × ℤ → Option ℤ → Option ℤ → Run Act Failure (Unit {0})
  swipe h from to delta duration = unless_deleted h (
      and_then (done w.transform) λ transform.
        exclusive_call h
          (swipes (rounded (transform from)) (rounded (transform to)) delta duration))

  -- `pressButton`
  unfoldable pub press_button : Handle → Text → Option ℤ → Run Act Failure (Unit {0})
  press_button h button duration = unless_deleted h (elim (hid_button button) [
    | none ↦ done (throws (unknown_name button))
    | some hid ↦ exclusive_call h (presses hid duration)
  ])
