-- ===== src/Idb/Typing/Laws.antt =====
-- What a keyboard makes of the events that `typeText` sends.
use mathlib.Core.List.{append-nil, append_assoc}
use simgadget.Prelude.{
  ℕ, if◌then◌else◌, ◌≡◌, refl, ap, sym, inl, inr, Bool, true, false, ◌&&◌, List, [], ◌∷◌, ◌++◌,
  Option, none, some, arith, ◌==◌, Bool-cases, Option-cases, all, is_some, not, ◌<◌, ◌≤◌, zero, suc,
  ◌||◌, leb, ltb,
}
use simgadget.Idb.Keymap.{
  hid_key_shift, KeyStroke, Entry, key_map, look_up, stroke_of, unmapped_characters,
}
use simgadget.Idb.Typing.{HidEvent, down, up, events_of, key_events, sends, type_text}

-- A keyboard: whether shift is held, and the text so far; a key that is no character is not read.
pub record Keyboard : Type 0 where
  pub shifted : Bool
  pub typed : List ℕ

abbrev same_bool : Bool → Bool → Bool
same_bool true b = b
same_bool false b = not b

same_bool-eq : (a b : Bool) → same_bool a b ≡ true → a ≡ b
same_bool-eq true b e = ground arith
same_bool-eq false b e = ground arith

-- The character on a key, with or without shift.
abbrev char_in : List Entry → ℕ → Bool → Option ℕ
char_in [] k s = none
char_in (e ∷ es) k s =
    if (e.stroke.keycode == k) && same_bool e.stroke.shift s then some e.char else char_in es k s

abbrev is_char : Option ℕ → ℕ → Bool
is_char none c = false
is_char (some d) c = d == c

-- Keyboards whose keys carry the characters that `layout` gives.
module _ (layout : ℕ → Bool → Option ℕ) where
  abbrev press : Keyboard → HidEvent → Keyboard
  press b (down k) =
      if k == hid_key_shift
      then record b { shifted = true }
      else elim (layout k b.shifted) [ none ↦ b | some c ↦ record b { typed = b.typed ++ c ∷ [] } ]
  press b (up k) = if k == hid_key_shift then record b { shifted = false } else b

  abbrev pub keyboard_run : Keyboard → List HidEvent → Keyboard
  keyboard_run b [] = b
  keyboard_run b (e ∷ es) = keyboard_run (press b e) es

  -- The layout has the entry's character where the entry says.
  abbrev readable : Entry → Bool
  readable e =
      not (e.stroke.keycode == hid_key_shift)
      && is_char (layout e.stroke.keycode e.stroke.shift) e.char

  readable-look_up :
      (c : ℕ) (es : List Entry) (s : KeyStroke)
      → all readable es ≡ true
      → look_up c es ≡ some s
      → readable (record { char = c; stroke = s }) ≡ true
  readable-look_up c [] s a e = cc
  readable-look_up c (e ∷ es) s a found = elim (Bool-cases (e.char == c)) [
    | inl here ↦
        let stroke : e.stroke ≡ s = ground arith in
        let char : e.char ≡ c = ground arith in
        let head : readable e ≡ true = ground arith in rw (← stroke, ← char) head
    | inr there ↦ readable-look_up c es s (ground arith) (ground arith)
  ]

  readable-parts :
      (c : ℕ) (s : KeyStroke)
      → readable (record { char = c; stroke = s }) ≡ true
      → ((s.keycode == hid_key_shift) ≡ false) × (layout s.keycode s.shift ≡ some c)
  readable-parts c s h = (ground arith, ground arith)

  run-append :
      (b : Keyboard) (xs ys : List HidEvent)
      → keyboard_run b (xs ++ ys) ≡ keyboard_run (keyboard_run b xs) ys
  run-append b [] ys = refl
  run-append b (x ∷ xs) ys = run-append (press b x) xs ys

  -- One stroke types its character, and leaves shift as it was.
  stroke-types :
      (c : ℕ) (s : KeyStroke) (t : List ℕ)
      → readable (record { char = c; stroke = s }) ≡ true
      → keyboard_run (record { shifted = false; typed = t }) (events_of s)
        ≡ record { shifted = false; typed = t ++ c ∷ [] }
  stroke-types c s t h =
      let (other, char) = readable-parts c s h in
      elim (Bool-cases s.shift) [
        | inl shifted ↦
            let at : layout s.keycode true ≡ some c = rw (← shifted) char in
            rw (shifted, other, at) refl
        | inr plain ↦
            let at : layout s.keycode false ≡ some c = rw (← plain) char in
            rw (plain, other, at) refl
      ]

-- The layout that the table describes, the first character where it has several on a key.
pub us_layout : ℕ → Bool → Option ℕ
us_layout = char_in key_map

table_readable : all (readable us_layout) key_map ≡ true
unfolding us_layout
table_readable = refl

stroke-readable :
    (c : ℕ) (s : KeyStroke)
    → stroke_of c ≡ some s
    → readable us_layout (record { char = c; stroke = s }) ≡ true
unfolding stroke_of
stroke-readable c s = readable-look_up us_layout c key_map s table_readable

-- What the loop over the characters sends is read back as those characters.
key_events-read :
    (cs : List ℕ) (events : List HidEvent) (t : List ℕ)
    → key_events cs ≡ some events
    → keyboard_run us_layout (record { shifted = false; typed = t }) events
      ≡ record { shifted = false; typed = t ++ cs }
unfolding key_events
key_events-read [] events t e =
    let none_sent : [] ≡ events = ground arith in
    rw (← none_sent) (ap (λ u. record { shifted = false; typed = u }) (sym (append-nil t)))
key_events-read (c ∷ cs) events t e = elim (Option-cases (stroke_of c)) [
  | inl missing ↦ absurd (ground arith)
  | inr (s, found) ↦ elim (Option-cases (key_events cs)) [
    | inl missing ↦ absurd (ground arith)
    | inr (rest, then_sent) ↦
        let all_sent : events_of s ++ rest ≡ events = ground arith in
        let first = stroke-types us_layout c s t (stroke-readable c s found) in
        let after = key_events-read cs rest (t ++ c ∷ []) then_sent in
        rw
          (
            ← all_sent,
            run-append us_layout (record { shifted = false; typed = t }) (events_of s) rest,
            first,
            after,
          )
          (ap (λ u. record { shifted = false; typed = u }) (append_assoc t (c ∷ []) cs))
  ]
]

key_events-sent :
    (cs : List ℕ)
    → unmapped_characters cs ≡ []
    → (events : List HidEvent) × (key_events cs ≡ some events)
unfolding key_events unmapped_characters
key_events-sent [] none_bad = ([], refl)
key_events-sent (c ∷ cs) none_bad = elim (Option-cases (stroke_of c)) [
  | inl missing ↦ absurd (ground arith)
  | inr (s, found) ↦
      let (rest, sent) = key_events-sent cs (ground arith) in
      (events_of s ++ rest, rw (found, key_events, sent) refl)
]

-- A text whose characters all have strokes is sent, and a keyboard with the layout of the table
-- reads exactly that text from the events, with shift released in the end.
pub type_text-read :
    (cs : List ℕ)
    → unmapped_characters cs ≡ []
    → (events : List HidEvent) × (type_text cs ≡ sends events)
      × (keyboard_run us_layout (record { shifted = false; typed = [] }) events
          ≡ record { shifted = false; typed = cs })
unfolding type_text
type_text-read cs none_bad =
    let (events, sent) = key_events-sent cs none_bad in
    (events, rw (none_bad, type_text, sent) refl, key_events-read cs events [] sent)

-- From space to `~`, or the newline.
abbrev pub printable : ℕ → Bool
printable c = c == 10 || leb 32 c && leb c 126

abbrev all_below : ℕ → (ℕ → Bool) → Bool
all_below zero p = true
all_below (suc n) p = p n && all_below n p

all_below-at : (n c : ℕ) (p : ℕ → Bool) → all_below n p ≡ true → c < n → p c ≡ true
all_below-at zero c p h lt = absurd (omega arith)
all_below-at (suc n) c p h lt = elim (Bool-cases (c == n)) [
  | inl last ↦ let same : c ≡ n = ground arith in rw same (ground arith)
  | inr before ↦ all_below-at n c p (ground arith) (ground arith)
]

look_up-above :
    (c : ℕ) (es : List Entry) → all (λ e. ltb e.char 127) es ≡ true → 127 ≤ c → look_up c es ≡ none
look_up-above c [] a le = refl
look_up-above c (e ∷ es) a le = ground (arith, look_up-above c es)

table_below : all (λ e. ltb e.char 127) key_map ≡ true
table_below = refl

abbrev exact : ℕ → Bool
exact c = same_bool (is_some (look_up c key_map)) (printable c)

table_exact : all_below 127 exact ≡ true
table_exact = refl

-- The characters that can be typed are exactly those from space to `~`, and the newline.
stroke_of-printable : (c : ℕ) → is_some (stroke_of c) ≡ printable c
unfolding stroke_of
stroke_of-printable c = elim (Bool-cases (ltb c 127)) [
  | inl below ↦ same_bool-eq _ _ (all_below-at 127 c exact table_exact (ground arith))
  | inr above ↦ rw (look_up-above c key_map table_below (ground arith)) (ground arith)
]
