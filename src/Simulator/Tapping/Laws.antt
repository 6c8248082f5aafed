-- ===== src/Simulator/Tapping/Laws.antt =====
-- A tap by label touches only what its hit test let through.
use simgadget.Prelude.{
  ℕ, ◌≡◌, refl, ◌⊎◌, inl, inr, Bool, true, false, [], ◌∷◌, Option, none, some, All, Bool-cases,
  Option-cases,
}
use simgadget.Prelude.Int.{ℤ}
use simgadget.Prelude.Text.{Text}
use simgadget.Prelude.Run.{value, All-and_then}
use simgadget.Ax.Element.{AxKeys, to_raw}
use simgadget.Ax.Geometry.{centre_of}
use simgadget.Ax.Tap.{
  TapVerb, touch, activation, element_disabled, toggle_needs_plain_tap, TapGesture, decide_tap_verb,
  hit_test_reaches,
}
use simgadget.Simulator.Tapping.{
  label, SearchableKey, Outside, Act, hit_tests, activates, touches, TapResult, rounded, search_key,
  search_name, pressed, activate_toggle, frameless, operate, aim, tap_element, tap, touch_at, sent,
  look_again, read_back, or_touch, or_unusable,
}

module _ (o : Outside) (query : Text) (gesture : TapGesture) where
  -- The hit test at the point where the centre of an element lies reaches the element.
  abbrev Cleared : AxKeys → ℤ × ℤ → Type 0
  Cleared element point =
      (centre : ℤ × ℤ) × ((portrait : ℤ × ℤ) × ((at_point : Option AxKeys) × ((centre_of
                (to_raw element)
              ≡ some centre)
            × ((o.to_portrait centre ≡ value portrait)
                × ((point ≡ rounded portrait)
                    × ((o.read_point point ≡ value at_point)
                        × (hit_test_reaches element at_point ≡ true)))))))

  -- What is allowed when this element was found.
  abbrev pub Allowed : AxKeys → Act → Type 0
  Allowed element (hit_tests point) = Unit
  Allowed element (activates key name) =
      (decide_tap_verb element gesture ≡ activation)
      × ((centre_of (to_raw element) ≡ none) ⊎ ((point : ℤ × ℤ) × Cleared element point))
  Allowed element (touches point count seconds) = Cleared element point

  touch-Allowed :
      (element : AxKeys) (point spoken : ℤ × ℤ) (count : ℕ) (seconds : ℤ)
      → Cleared element point
      → All (Allowed element) (touch_at o (some element) point spoken count seconds).acts
  touch-Allowed element point spoken count seconds clear =
      All-and_then (Allowed element) (touches point count seconds ∷ []) (sent o) _ (clear, tt)
        (λ sent e. tt)

  activate-Allowed :
      (element : AxKeys)
      → decide_tap_verb element gesture ≡ activation
      → ((centre_of (to_raw element) ≡ none) ⊎ ((point : ℤ × ℤ) × Cleared element point))
      → All (Allowed element) (activate_toggle o element query).acts
  unfolding activate_toggle
  activate-Allowed element verb clear =
      All-and_then (Allowed element) (activates key (search_name element query) ∷ [])
        (pressed (o.activate key (search_name element query))) (read_back o element query)
        ((verb, clear), tt) (λ reached e. read_back-Allowed reached)
    where
      key : SearchableKey
      key = search_key element.ax_unique_id

      read_back-Allowed :
          (reached : Bool) → All (Allowed element) (read_back o element query reached).acts
      read_back-Allowed true =
          All-and_then (Allowed element) [] (look_again o element query) _ tt (λ after e. tt)
      read_back-Allowed false = tt

  operate-Allowed :
      (verb : TapVerb) (element : AxKeys) (point spoken : ℤ × ℤ) (count : ℕ) (seconds : ℤ)
      → decide_tap_verb element gesture ≡ verb
      → Cleared element point
      → All (Allowed element) (operate o verb element query point spoken count seconds).acts
  unfolding operate
  operate-Allowed activation element point spoken count seconds is_verb clear =
      All-and_then (Allowed element) _ (activate_toggle o element query).ended _
        (activate-Allowed element is_verb (inr (point, clear)))
        (λ result e. fallback-Allowed result)
    where
      fallback-Allowed :
          (result : Option TapResult)
          → All (Allowed element) (or_touch o element point spoken count seconds result).acts
      fallback-Allowed (some r) = tt
      fallback-Allowed none = touch-Allowed element point spoken count seconds clear
  operate-Allowed _ element point spoken count seconds is_verb clear =
      touch-Allowed element point spoken count seconds clear

  frameless-Allowed :
      (verb : TapVerb) (element : AxKeys)
      → decide_tap_verb element gesture ≡ verb
      → centre_of (to_raw element) ≡ none
      → All (Allowed element) (frameless o verb element query).acts
  unfolding frameless
  frameless-Allowed activation element is_verb no_centre =
      All-and_then (Allowed element) _ (activate_toggle o element query).ended _
        (activate-Allowed element is_verb (inl no_centre)) (λ result e. given_up-Allowed result)
    where
      given_up-Allowed :
          (result : Option TapResult) → All (Allowed element) (or_unusable query result).acts
      given_up-Allowed (some r) = tt
      given_up-Allowed none = tt
  frameless-Allowed _ element is_verb no_centre = tt

  aim-Allowed :
      (verb : TapVerb) (element : AxKeys) (centre : ℤ × ℤ) (count : ℕ) (seconds : ℤ)
      → decide_tap_verb element gesture ≡ verb
      → centre_of (to_raw element) ≡ some centre
      → All (Allowed element) (aim o verb element query centre count seconds).acts
  aim-Allowed verb element centre count seconds is_verb has_centre =
      All-and_then (Allowed element) [] (o.to_portrait centre) _ tt λ portrait moved.
        All-and_then (Allowed element) (hit_tests (rounded portrait) ∷ [])
          (o.read_point (rounded portrait)) _ (tt, tt)
          λ at_point read. elim (Bool-cases (hit_test_reaches element at_point)) [
            | inl reached ↦ rw reached (
                operate-Allowed verb element (rounded portrait) (rounded centre) count seconds
                  is_verb
                  (centre, (portrait, (at_point, (has_centre, (moved, (refl, (read, reached))))))))
            | inr covered ↦ rw (covered, All) tt
          ]

  tap_element-Allowed :
      (verb : TapVerb) (element : AxKeys)
      → decide_tap_verb element gesture ≡ verb
      → All (Allowed element) (tap_element o element query gesture verb).acts
  tap_element-Allowed element_disabled element is_verb = tt
  tap_element-Allowed toggle_needs_plain_tap element is_verb = tt
  tap_element-Allowed touch element is_verb = elim (Option-cases (centre_of (to_raw element))) [
    | inl no_centre ↦
        rw (no_centre, tap_element) (frameless-Allowed touch element is_verb no_centre)
    | inr (centre, has_centre) ↦
        rw (has_centre, tap_element) (aim-Allowed touch element centre _ _ is_verb has_centre)
  ]
  tap_element-Allowed activation element is_verb =
      elim (Option-cases (centre_of (to_raw element))) [
        | inl no_centre ↦
            rw (no_centre, tap_element) (frameless-Allowed activation element is_verb no_centre)
        | inr (centre, has_centre) ↦
            rw (has_centre, tap_element)
              (aim-Allowed activation element centre _ _ is_verb has_centre)
      ]

  -- What a tap by label does when an element was found: it touches a point only if that is where the
  -- element's centre lies on the portrait screen and a point read there gave something that the tap
  -- reaches; and it activates only a toggle that is not disabled, by a plain tap, whose point was
  -- cleared in the same way, or which has no frame to aim at.
  pub tap-Allowed :
      (element : AxKeys)
      → o.find_by_label query ≡ value (some element)
      → All (Allowed element) (tap o (label query) gesture).acts
  unfolding tap
  tap-Allowed element found =
      rw (found, tap) (tap_element-Allowed (decide_tap_verb element gesture) element refl)
