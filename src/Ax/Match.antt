-- ===== src/Ax/Match.antt =====
-- packages/simgadget/src/ax/tree.ts: matching by text, `matchInTree`, `best`, `sameElement` and toggles.
pub mod Best
pub mod Found
pub mod Exact
use simgadget.Prelude.{
  ℕ, ◌+◌, ltb, leb, ◌==◌, if◌then◌else◌, Bool, true, false, ◌&&◌, ◌||◌, List, [], ◌∷◌, ◌++◌, Option,
  none, some, head?,
}
use simgadget.Prelude.Int.{◌+ℤ◌, ◌-ℤ◌, leb_ℤ}
use simgadget.Prelude.Text.{Text, text, text_eq, non_empty, is_space, trim, includes, member}
use simgadget.Prelude.Forest.{nil, cons}
use simgadget.Ax.Element.{Frame, point, RawKeys, RawTree, AxKeys, Value, str, num, string_of}
use simgadget.Ax.Canonical.{canonicalise}
use simgadget.Ax.Prune.{actionable_types}

-- The first three replacements of `normaliseForMatch`; the fourth puts a space for a space.
fold_char : ℕ → ℕ
fold_char c =
    if c == 0x2018 || c == 0x2019 || c == 0x201b || c == 0x2bc
    then b'\''
    else if c == 0x201c || c == 0x201d || c == 0x201f
    then b'"'
    else if (leb 0x2010 c && leb c 0x2015) || c == 0x2212
    then b'-'
    else c

-- `text.replace(/\s+/g, " ")`; the flag says that the last character was a space.
collapse : Bool → Text → Text
collapse spaced [] = []
collapse spaced (c ∷ s) =
    let rest = collapse (is_space c) s in
    if is_space c then (if spaced then rest else 32 ∷ rest) else c ∷ rest

fold_chars : Text → Text
unfolding fold_char
fold_chars [] = []
fold_chars (c ∷ s) = fold_char c ∷ fold_chars s

-- `normaliseForMatch`
unfoldable pub normalise_for_match : Text → Text
unfolding fold_chars collapse
normalise_for_match s = trim (collapse false (fold_chars s))

-- `typeof v === "string" ? normaliseForMatch(v) : ""`
abbrev pub normal : Value → Text
normal (str s) = normalise_for_match s
normal _ = []

-- `t && t.includes(needle)`
abbrev pub says : Text → Text → Bool
says needle t = non_empty t && includes needle t

-- `element.AXUniqueId === label`
abbrev pub is_id : Text → Value → Bool
is_id label (str id) = text_eq id label
is_id label _ = false

pub record Hits : Type 0 where
  pub label_hits : List RawKeys
  pub value_hits : List RawKeys
  pub id_hits : List RawKeys

-- `hits.push(element)`
abbrev push : List RawKeys → RawKeys → List RawKeys
push hits element = hits ++ element ∷ []

module _ (needle label : Text) where
  -- The body of `visit` for one element.
  pub note : RawKeys → Hits → Hits
  note element hits =
      if says needle (normal element.ax_label)
      then record hits { label_hits = push hits.label_hits element }
      else if says needle (normal element.ax_value)
      then record hits { value_hits = push hits.value_hits element }
      else if is_id label element.ax_unique_id
      then record hits { id_hits = push hits.id_hits element }
      else hits

  -- The inner `visit`, over an array, with the three lists passed along.
  pub visit : RawTree → Hits → Hits
  visit nil hits = hits
  visit (cons element children rest) hits = visit rest (visit children (note element hits))

-- `ACTIONABLE_TYPES.has(String(element.type))`
pub is_actionable : RawKeys → Bool
is_actionable element = member (string_of element.type) actionable_types

module _ (needle : Text) where
  -- `[label, value].find((t) => t.includes(needle)) === needle`
  abbrev is_exact : RawKeys → Bool
  is_exact element =
      if includes needle (normal element.ax_label)
      then text_eq (normal element.ax_label) needle
      else includes needle (normal element.ax_value) && text_eq (normal element.ax_value) needle

  pub score : RawKeys → ℕ
  score element = (if is_exact element then 2 else 0) + (if is_actionable element then 1 else 0)

  -- The `reduce` of `best`.
  pub prefer : RawKeys → List RawKeys → RawKeys
  prefer chosen [] = chosen
  prefer chosen (candidate ∷ rest) =
      prefer (if ltb (score chosen) (score candidate) then candidate else chosen) rest

  -- `best`
  pub best : List RawKeys → Option RawKeys
  best [] = none
  best (only ∷ []) = some only
  best (first ∷ second ∷ rest) = some (prefer first (second ∷ rest))

abbrev pub no_hits : Hits
no_hits = record { label_hits = []; value_hits = []; id_hits = [] }

-- `best(labelHits) ?? best(valueHits) ?? idHits[0]`
pub choose : Text → Hits → Option RawKeys
choose needle hits = elim (best needle hits.label_hits) [
  | some hit ↦ some hit
  | none ↦ elim (best needle hits.value_hits) [ some hit ↦ some hit | none ↦ head? hits.id_hits ]
]

abbrev pub canonical_hit : Option RawKeys → Option AxKeys
canonical_hit none = none
canonical_hit (some hit) = some (canonicalise hit)

-- `matchInTree`
pub match_in_tree : RawTree → Text → Option AxKeys
unfolding visit choose
match_in_tree elements label =
    let needle = normalise_for_match label in
    canonical_hit (choose needle (visit needle label elements no_hits))

abbrev toggle_type : Value → Bool
toggle_type (str t) =
    text_eq t (text "Switch") || text_eq t (text "CheckBox") || text_eq t (text "Toggle")
toggle_type _ = false

abbrev has_state : Value → Bool
has_state (str s) = true
has_state (num n) = true
has_state _ = false

-- `isToggle`
unfoldable pub is_toggle : RawKeys → Bool
is_toggle element = toggle_type element.type && has_state element.ax_value

-- `encloses`, with a point of slack on each edge.
unfoldable pub encloses : Frame → Frame → Bool
encloses outer inner =
    leb_ℤ (outer.x -ℤ point) inner.x
    && leb_ℤ (outer.y -ℤ point) inner.y
    && leb_ℤ (inner.x +ℤ inner.width) (outer.x +ℤ outer.width +ℤ point)
    && leb_ℤ (inner.y +ℤ inner.height) (outer.y +ℤ outer.height +ℤ point)

-- Two identifiers, both texts and not empty, that are equal.
abbrev pub same_id : Value → Value → Bool
same_id (str a) (str b) = non_empty a && non_empty b && text_eq a b
same_id _ _ = false

-- Two labels, equal and not empty once normalised.
abbrev pub same_label : Value → Value → Bool
same_label a b = non_empty (normal a) && non_empty (normal b) && text_eq (normal a) (normal b)

abbrev pub same_place : Option Frame → Option Frame → Bool
same_place (some fa) (some fb) = encloses fa fb || encloses fb fa
same_place _ _ = false

-- `sameElement`
unfoldable pub same_element : RawKeys → RawKeys → Bool
same_element a b =
    same_id a.ax_unique_id b.ax_unique_id
    || same_label a.ax_label b.ax_label
    || same_place a.frame b.frame
