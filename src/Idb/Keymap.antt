-- ===== src/Idb/Keymap.antt =====
-- packages/simgadget/src/idb/keymap.ts. A character is its code point.
use simgadget.Prelude.{
  ℕ, Bool, true, false, List, [], ◌∷◌, ◌++◌, Option, none, some, ◌==◌, if◌then◌else◌, filter,
  is_some, not,
}

-- `HID_KEY_SHIFT`
abbrev pub hid_key_shift : ℕ
hid_key_shift = 225

-- `KeyStroke`
pub record KeyStroke : Type 0 where
  pub keycode : ℕ
  pub shift : Bool

pub record Entry : Type 0 where
  pub char : ℕ
  pub stroke : KeyStroke

abbrev entry : ℕ → ℕ → Bool → Entry
entry char keycode shift = record {
  char = char;
  stroke = record { keycode = keycode; shift = shift };
}

abbrev small_letters : List Entry
small_letters =
    entry 97 4 false
    ∷ entry 98 5 false
    ∷ entry 99 6 false
    ∷ entry 100 7 false
    ∷ entry 101 8 false
    ∷ entry 102 9 false
    ∷ entry 103 10 false
    ∷ entry 104 11 false
    ∷ entry 105 12 false
    ∷ entry 106 13 false
    ∷ entry 107 14 false
    ∷ entry 108 15 false
    ∷ entry 109 16 false
    ∷ entry 110 17 false
    ∷ entry 111 18 false
    ∷ entry 112 19 false
    ∷ entry 113 20 false
    ∷ entry 114 21 false
    ∷ entry 115 22 false
    ∷ entry 116 23 false
    ∷ entry 117 24 false
    ∷ entry 118 25 false
    ∷ entry 119 26 false
    ∷ entry 120 27 false
    ∷ entry 121 28 false
    ∷ entry 122 29 false
    ∷ []

abbrev capital_letters : List Entry
capital_letters =
    entry 65 4 true
    ∷ entry 66 5 true
    ∷ entry 67 6 true
    ∷ entry 68 7 true
    ∷ entry 69 8 true
    ∷ entry 70 9 true
    ∷ entry 71 10 true
    ∷ entry 72 11 true
    ∷ entry 73 12 true
    ∷ entry 74 13 true
    ∷ entry 75 14 true
    ∷ entry 76 15 true
    ∷ entry 77 16 true
    ∷ entry 78 17 true
    ∷ entry 79 18 true
    ∷ entry 80 19 true
    ∷ entry 81 20 true
    ∷ entry 82 21 true
    ∷ entry 83 22 true
    ∷ entry 84 23 true
    ∷ entry 85 24 true
    ∷ entry 86 25 true
    ∷ entry 87 26 true
    ∷ entry 88 27 true
    ∷ entry 89 28 true
    ∷ entry 90 29 true
    ∷ []

abbrev digits : List Entry
digits =
    entry 49 30 false
    ∷ entry 50 31 false
    ∷ entry 51 32 false
    ∷ entry 52 33 false
    ∷ entry 53 34 false
    ∷ entry 54 35 false
    ∷ entry 55 36 false
    ∷ entry 56 37 false
    ∷ entry 57 38 false
    ∷ entry 48 39 false
    ∷ []

abbrev plain_signs : List Entry
plain_signs =
    entry 10 40 false
    ∷ entry 59 51 false
    ∷ entry 61 46 false
    ∷ entry 44 54 false
    ∷ entry 45 45 false
    ∷ entry 46 55 false
    ∷ entry 47 56 false
    ∷ entry 96 53 false
    ∷ entry 91 47 false
    ∷ entry 92 49 false
    ∷ entry 93 48 false
    ∷ entry 39 52 false
    ∷ entry 32 44 false
    ∷ []

abbrev shifted_signs : List Entry
shifted_signs =
    entry 33 30 true
    ∷ entry 64 31 true
    ∷ entry 35 32 true
    ∷ entry 36 33 true
    ∷ entry 37 34 true
    ∷ entry 94 35 true
    ∷ entry 38 36 true
    ∷ entry 42 37 true
    ∷ entry 40 38 true
    ∷ entry 41 39 true
    ∷ entry 95 45 true
    ∷ entry 43 46 true
    ∷ entry 123 47 true
    ∷ entry 125 48 true
    ∷ entry 58 51 true
    ∷ entry 34 52 true
    ∷ entry 124 49 true
    ∷ entry 60 54 true
    ∷ entry 62 55 true
    ∷ entry 63 56 true
    ∷ entry 126 53 true
    ∷ []

-- `KEY_MAP`
abbrev pub key_map : List Entry
key_map = small_letters ++ capital_letters ++ digits ++ plain_signs ++ shifted_signs

-- `table[c]`
abbrev pub look_up : ℕ → List Entry → Option KeyStroke
look_up c [] = none
look_up c (e ∷ es) = if e.char == c then some e.stroke else look_up c es

unfoldable pub stroke_of : ℕ → Option KeyStroke
stroke_of c = look_up c key_map

-- `unmappedCharacters`
unfoldable pub unmapped_characters : List ℕ → List ℕ
unfolding stroke_of
unmapped_characters = filter (λ c. not (is_some (stroke_of c)))
