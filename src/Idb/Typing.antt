-- ===== src/Idb/Typing.antt =====
-- packages/simgadget/src/idb/client.ts: `IdbClient.typeText`.
pub mod Laws
use simgadget.Prelude.{ℕ, if◌then◌else◌, List, [], ◌∷◌, ◌++◌, Option, none, some}
use simgadget.Idb.Keymap.{hid_key_shift, KeyStroke, stroke_of, unmapped_characters}

-- A press of a key in a direction, by its keycode.
pub data HidEvent : Type 0 where
  down up : ℕ → HidEvent

-- The events of one stroke.
abbrev pub events_of : KeyStroke → List HidEvent
events_of stroke =
    (if stroke.shift then down hid_key_shift ∷ [] else [])
    ++ down stroke.keycode ∷ up stroke.keycode ∷ []
    ++ (if stroke.shift then up hid_key_shift ∷ [] else [])

-- The loop over the characters; one that has no stroke throws, which `typeText` has ruled out.
pub key_events : List ℕ → Option (List HidEvent)
key_events [] = some []
key_events (c ∷ cs) = elim (stroke_of c) [
  | none ↦ none
  | some stroke ↦ elim (key_events cs) [
    | none ↦ none
    | some events ↦ some (events_of stroke ++ events)
  ]
]

-- What `typeText` does: it refuses, it throws on a missing stroke, or it sends events.
pub data Typing : Type 0 where
  cannot_type : List ℕ → Typing
  throws : Typing
  sends : List HidEvent → Typing

-- `typeText`; the characters of the refusal are shown without repetition, which is left out.
pub type_text : List ℕ → Typing
unfolding unmapped_characters key_events
type_text cs = elim (unmapped_characters cs) [
  | bad ∷ more ↦ cannot_type (bad ∷ more)
  | [] ↦ elim (key_events cs) [ none ↦ throws | some events ↦ sends events ]
]
