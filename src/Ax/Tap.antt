-- ===== src/Ax/Tap.antt =====
-- packages/simgadget/src/ax/tap.ts: the rules that a tap decides by. Durations are in milliseconds.
pub mod Laws
use simgadget.Prelude.{
  ℕ, ◌==◌, if◌then◌else◌, Bool, true, false, ◌&&◌, ◌||◌, Option, none, some, get_or,
}
use simgadget.Prelude.Int.{ℤ, pos, eqb_ℤ, max_ℤ}
use simgadget.Prelude.Text.{Text, text, text_eq, non_empty}
use simgadget.Ax.Element.{Frame, AxKeys, to_raw, Value, str, num, string_of, opt_str}
use simgadget.Ax.Match.{is_toggle, normal, encloses}

-- `MIN_TAP_HOLD_SECONDS`, a tenth of a second.
abbrev pub min_tap_hold : ℤ
min_tap_hold = pos 100

-- A requested duration: none, not a finite number, or finite.
pub data Duration : Type 0 where
  absent : Duration
  not_finite : Duration
  finite : ℤ → Duration

abbrev asked : Duration → ℤ
asked (finite d) = d
asked _ = pos 0

-- `holdSeconds`
unfoldable pub hold : Duration → ℤ
hold requested = max_ℤ (asked requested) min_tap_hold

pub data TapVerb : Type 0 where
  touch activation element_disabled toggle_needs_plain_tap : TapVerb

pub record TapGesture : Type 0 where
  pub duration : Duration
  pub count : Option ℕ

abbrev pub is_absent : Duration → Bool
is_absent absent = true
is_absent _ = false

abbrev is_disabled : Option Bool → Bool
is_disabled (some false) = true
is_disabled _ = false

-- `decideTapVerb`
unfoldable pub decide_tap_verb : AxKeys → TapGesture → TapVerb
decide_tap_verb element gesture =
    if is_disabled element.enabled
    then element_disabled
    else if is_toggle (to_raw element)
    then (if is_absent gesture.duration && (get_or gesture.count 1 == 1)
        then activation
        else toggle_needs_plain_tap)
    else touch

-- `typeof targetId === "string" && targetId && targetId === pointId`
abbrev pub same_given_id : Option Text → Option Text → Bool
same_given_id (some a) (some b) = non_empty a && text_eq a b
same_given_id _ _ = false

abbrev pub normal_label : AxKeys → Text
normal_label e = normal (opt_str e.ax_label)

abbrev pub frame_inside : Option Frame → Option Frame → Bool
frame_inside (some outer) (some inner) = encloses outer inner
frame_inside _ _ = false

abbrev reaches : AxKeys → AxKeys → Bool
reaches target point =
    same_given_id target.ax_unique_id point.ax_unique_id
    || (non_empty (normal_label target) && text_eq (normal_label target) (normal_label point))
    || frame_inside target.frame point.frame

-- `hitTestReaches`
unfoldable pub hit_test_reaches : AxKeys → Option AxKeys → Bool
hit_test_reaches target none = false
hit_test_reaches target (some point) = reaches target point

-- `value === text || value === n`
abbrev is_state : Text → ℤ → Value → Bool
is_state t n (str s) = text_eq s t
is_state t n (num m) = eqb_ℤ m n
is_state t n _ = false

-- `toggleState`
unfoldable pub toggle_state : Value → Text
toggle_state value =
    if is_state (text "1") (pos 1) value
    then text "on"
    else if is_state (text "0") (pos 0) value
    then text "off"
    else string_of value
