-- ===== src/Simulator/Tapping.antt =====
-- packages/simgadget/src/simulator.ts: `tap`, `activateToggle` and `sendTouch`. What the screen
-- and the companion answer is told from outside.
pub mod Laws
use simgadget.Prelude.{ℕ, if◌then◌else◌, Bool, true, false, [], Option, none, some, get_or}
use simgadget.Prelude.Int.{ℤ, round_to}
use simgadget.Prelude.Text.{Text, non_empty}
use simgadget.Prelude.Run.{Reply, value, throws, Run, done, act, and_then}
use simgadget.Ax.Element.{AxKeys, Scalar, to_raw}
use simgadget.Ax.Geometry.{centre_of}
use simgadget.Ax.Recovery.{is_no_element_error}
use simgadget.Ax.Tap.{
  hold, is_absent, TapVerb, activation, element_disabled, toggle_needs_plain_tap, TapGesture,
  decide_tap_verb, hit_test_reaches,
}

-- `TapTarget`
pub data TapTarget : Type 0 where
  label : Text → TapTarget
  place : ℤ → ℤ → TapTarget

-- Which key an activation names its element by.
pub data SearchableKey : Type 0 where
  unique_id by_label : SearchableKey

-- The errors of a tap; `failed` is one that comes from below.
pub data Failure : Type 0 where
  element_not_found : Text → Failure
  disabled : AxKeys → Failure
  toggle_gesture : AxKeys → Bool → Failure
  unusable_frame : Text → Failure
  obstructed : AxKeys → Option AxKeys → ℤ × ℤ → Failure
  failed : Text → Failure

-- What the outside answers: the lookups, the transform, the point reads, the activations and the
-- touches. An activation that goes wrong has its message.
pub record Outside : Type 0 where
  pub find_by_label : Text → Reply Failure (Option AxKeys)
  pub find_by_identifier : Text → Reply Failure (Option AxKeys)
  pub to_portrait : ℤ × ℤ → Reply Failure (ℤ × ℤ)
  pub read_point : ℤ × ℤ → Reply Failure (Option AxKeys)
  pub activate : SearchableKey → Text → Option Text
  pub find_again : SearchableKey → Text → Reply Failure (Option AxKeys)
  pub touch_fails : Option Failure

-- What a tap does to the simulator, the point read before it included.
pub data Act : Type 0 where
  hit_tests : ℤ × ℤ → Act
  activates : SearchableKey → Text → Act
  touches : ℤ × ℤ → ℕ → ℤ → Act

-- `TapResult`
pub data TapResult : Type 0 where
  touched : Option AxKeys → ℤ × ℤ → ℕ → ℤ → TapResult
  activated : AxKeys → Option Scalar → Option Scalar → TapResult

-- `toggleValue`
abbrev toggle_value : Option AxKeys → Option Scalar
toggle_value none = none
toggle_value (some element) = element.ax_value

-- `Math.round` of both coordinates, which are sixths of a point.
abbrev pub rounded : ℤ × ℤ → ℤ × ℤ
rounded (x, y) = (round_to 6 x, round_to 6 y)

-- How the activation of an element names it.
abbrev pub search_key : Option Text → SearchableKey
search_key none = by_label
search_key (some id) = if non_empty id then unique_id else by_label

abbrev pub search_name : AxKeys → Text → Text
search_name element query = elim (search_key element.ax_unique_id) [
  | unique_id ↦ get_or element.ax_unique_id []
  | by_label ↦ get_or element.ax_label query
]

-- How the action ended: the element was pressed, or the action does not reach it, or it went wrong.
abbrev pub pressed : Option Text → Reply Failure Bool
pressed none = value true
pressed (some message) =
    if is_no_element_error message then value false else throws (failed message)

abbrev pub or_unusable : Text → Option TapResult → Run Act Failure TapResult
or_unusable query (some r) = done (value r)
or_unusable query none = done (throws (unusable_frame query))

module _ (o : Outside) where
  abbrev pub sent : Reply Failure (Unit {0})
  sent = elim o.touch_fails [ none ↦ value tt | some f ↦ throws f ]

  -- `sendTouch`
  abbrev send_touch : ℤ × ℤ → ℕ → ℤ → Run Act Failure (Unit {0})
  send_touch point count seconds = act (touches point count seconds) sent

  -- The second lookup of `activateToggle`, by identifier where there is one.
  abbrev pub look_again : AxKeys → Text → Reply Failure (Option AxKeys)
  look_again element query = elim (search_key element.ax_unique_id) [
    | unique_id ↦ o.find_again unique_id (get_or element.ax_unique_id [])
    | by_label ↦ o.find_again by_label query
  ]

  abbrev pub read_back : AxKeys → Text → Bool → Run Act Failure (Option TapResult)
  read_back element query true =
      and_then (done (look_again element query))
        λ after. done (value (some (activated element element.ax_value (toggle_value after))))
  read_back element query false = done (value none)

  -- `activateToggle`; none where the action cannot reach the element.
  pub activate_toggle : AxKeys → Text → Run Act Failure (Option TapResult)
  activate_toggle element query =
      let key = search_key element.ax_unique_id in
      let name = search_name element query in
      and_then (act (activates key name) (pressed (o.activate key name))) (read_back element query)

  -- A touch at a point, and its result.
  abbrev pub touch_at : Option AxKeys → ℤ × ℤ → ℤ × ℤ → ℕ → ℤ → Run Act Failure TapResult
  touch_at element point spoken count seconds =
      and_then (send_touch point count seconds)
        λ sent. done (value (touched element spoken count seconds))

  -- The toggle's attempt without a frame.
  abbrev pub frameless : TapVerb → AxKeys → Text → Run Act Failure TapResult
  unfolding activate_toggle
  frameless activation element query = and_then (activate_toggle element query) (or_unusable query)
  frameless _ element query = done (throws (unusable_frame query))

  abbrev pub or_touch :
      AxKeys → ℤ × ℤ → ℤ × ℤ → ℕ → ℤ → Option TapResult → Run Act Failure TapResult
  or_touch element point spoken count seconds (some r) = done (value r)
  or_touch element point spoken count seconds none =
      touch_at (some element) point spoken count seconds

  -- What follows a hit test that lets the tap through.
  abbrev pub operate : TapVerb → AxKeys → Text → ℤ × ℤ → ℤ × ℤ → ℕ → ℤ → Run Act Failure TapResult
  unfolding activate_toggle
  operate activation element query point spoken count seconds =
      and_then (activate_toggle element query) (or_touch element point spoken count seconds)
  operate _ element query point spoken count seconds =
      touch_at (some element) point spoken count seconds

  -- From the centre on.
  abbrev pub aim : TapVerb → AxKeys → Text → ℤ × ℤ → ℕ → ℤ → Run Act Failure TapResult
  aim verb element query centre count seconds = and_then (done (o.to_portrait centre)) λ portrait.
      let point = rounded portrait in
      let spoken = rounded centre in
      and_then (act (hit_tests point) (o.read_point point)) λ at_point.
        if hit_test_reaches element at_point
        then operate verb element query point spoken count seconds
        else done (throws (obstructed element at_point spoken))

  -- The tap of an element that was found, by its verb.
  abbrev pub tap_element : AxKeys → Text → TapGesture → TapVerb → Run Act Failure TapResult
  tap_element element query gesture element_disabled = done (throws (disabled element))
  tap_element element query gesture toggle_needs_plain_tap =
      done (throws (toggle_gesture element (is_absent gesture.duration)))
  tap_element element query gesture verb = elim (centre_of (to_raw element)) [
    | none ↦ frameless verb element query
    | some centre ↦ aim verb element query centre (get_or gesture.count 1) (hold gesture.duration)
  ]

  -- `tap`
  pub tap : TapTarget → TapGesture → Run Act Failure TapResult
  tap (place x y) gesture = and_then (done (o.to_portrait (x, y))) λ portrait.
      touch_at none portrait (rounded (x, y)) (get_or gesture.count 1) (hold gesture.duration)
  tap (label query) gesture = and_then (done (o.find_by_label query)) λ found. elim found [
    | none ↦ done (throws (element_not_found query))
    | some element ↦ tap_element element query gesture (decide_tap_verb element gesture)
  ]
