-- ===== src/Simulator/Inputs/Ordered.antt =====
-- Which requests to the companion are exclusive.
use simgadget.Prelude.{
  ◌≡◌, refl, Bool, true, false, List, [], ◌∷◌, All, Option, none, some, inl, inr, Option-cases, ℕ,
  if◌then◌else◌,
}
use simgadget.Prelude.Int.{ℤ}
use simgadget.Prelude.Text.{Text}
use simgadget.Prelude.Run.{Reply, value, done, act, All-then}
use simgadget.Ax.Element.{AxKeys}
use simgadget.Simulator.Calls.{
  Request, reads_gate, sets_orientation, types, swipes, presses, Act, asks, detects_orientation,
  Failure, with_client,
}
use simgadget.Simulator.Calls.Acts.{with_client-All}
use simgadget.Simulator.Verbs.{Handle, World}
use simgadget.Simulator.Verbs.Acts.{unless_deleted-All}
use simgadget.Simulator.Inputs.{
  rotate, type_text, swipe, press_button, type_mapped, type_unless, typing_blocker,
  editing_secure_field_now, strong_password_sheet, hid_button, hid_orientation,
}

-- The requests that put events into the simulator.
abbrev pub is_input : Request → Bool
is_input (types cs) = true
is_input (swipes from to delta duration) = true
is_input (presses button duration) = true
is_input _ = false

-- A call of the companion is exclusive just where it puts events in.
abbrev pub Ordered : Act → Type 0
Ordered (asks request exclusive) = exclusive ≡ is_input request
Ordered _ = Unit

module _ (w : World) (h : Handle) where
  call-Ordered {ℓ} :
      {A : Type ℓ} (request : Request) (exclusive : Bool) (reply : Reply Failure A)
      → exclusive ≡ is_input request
      → All Ordered (with_client w.host h.udid request exclusive reply).acts
  call-Ordered request exclusive reply ordered =
      with_client-All Ordered w.host h.udid tt request exclusive reply ordered

  pub rotate-Ordered : (to : Text) → All Ordered (rotate w h to).acts
  unfolding rotate
  rotate-Ordered to = unless_deleted-All Ordered h _ (elim (Option-cases (hid_orientation to)) [
    | inl unknown ↦ rw (unknown) tt
    | inr (hid, known) ↦ rw (known) (
        All-then Ordered (with_client w.host h.udid (sets_orientation hid) false _) _
          (call-Ordered (sets_orientation hid) false _ refl)
          (λ set.
            (tt, All-then Ordered (act detects_orientation w.adopted) _ (tt, tt) (λ adopted. tt))))
  ])

  pub press_button-Ordered :
      (button : Text) (duration : Option ℤ) → All Ordered (press_button w h button duration).acts
  unfolding press_button
  press_button-Ordered button duration =
      unless_deleted-All Ordered h _ (elim (Option-cases (hid_button button)) [
        | inl unknown ↦ rw (unknown) tt
        | inr (hid, known) ↦ rw (known) (call-Ordered (presses hid duration) true _ refl)
      ])

  pub swipe-Ordered :
      (from to : ℤ × ℤ) (delta duration : Option ℤ)
      → All Ordered (swipe w h from to delta duration).acts
  unfolding swipe
  swipe-Ordered from to delta duration =
      unless_deleted-All Ordered h _
        (All-then Ordered (done w.transform) _ tt (λ transform. call-Ordered _ true _ refl))

  type_unless-Ordered :
      (cs : List ℕ) (blocker : Option AxKeys) → All Ordered (type_unless w h cs blocker).acts
  type_unless-Ordered cs none = call-Ordered (types cs) true _ refl
  type_unless-Ordered cs (some blocker) = tt

  sheet-Ordered :
      (editing : Bool)
      → All Ordered (if editing then strong_password_sheet w else done (value none)).acts
  sheet-Ordered true = (tt, tt)
  sheet-Ordered false = tt

  mapped-Ordered : (cs bad : List ℕ) → All Ordered (type_mapped w h cs bad).acts
  mapped-Ordered cs [] =
      All-then Ordered (typing_blocker w h) _
        (All-then Ordered (editing_secure_field_now w h)
          (λ editing. if editing then strong_password_sheet w else done (value none))
          (All-then Ordered (with_client w.host h.udid reads_gate false w.host.gate) _
            (call-Ordered reads_gate false w.host.gate refl) (λ info. tt))
          (λ editing. sheet-Ordered editing))
        (λ blocker. type_unless-Ordered cs blocker)
  mapped-Ordered cs (c ∷ more) = tt

  pub type_text-Ordered : (cs : List ℕ) → All Ordered (type_text w h cs).acts
  unfolding type_text
  type_text-Ordered cs = unless_deleted-All Ordered h _ (mapped-Ordered cs _)
