-- ===== src/Idb/Output/Tail.antt =====
-- What is kept of a companion's stderr: the last lines that are not blank.
use mathlib.Core.List.{append_assoc, append-nil}
use simgadget.Prelude.{
  ℕ, zero, suc, ◌-◌, ◌≤◌, ◌<◌, ltb, ◌≡◌, refl, sym, ap, ◌∙◌, inl, inr, if◌then◌else◌, Bool, List,
  [], ◌∷◌, ◌++◌, length, length-append, filter, filter-append, arith, Bool-cases,
}
use simgadget.Prelude.Text.{Text, trim, non_empty}
use simgadget.Idb.Output.{stderr_keep_lines, shift, keep_line, keep_lines, keep_output, split_lines}

abbrev pub drop {ℓ} : {A : Type ℓ} → ℕ → List A → List A
drop zero xs = xs
drop (suc n) [] = []
drop (suc n) (x ∷ xs) = drop n xs

-- The last `n` of a list, or all of it.
abbrev pub last_of {ℓ} : {A : Type ℓ} → ℕ → List A → List A
last_of n xs = drop (length xs - n) xs

module _ {ℓ} {A : Type ℓ} where
  shift-drop :
      (n : ℕ) (xs ys : List A) → n < length xs → shift (drop n xs ++ ys) ≡ drop (suc n) (xs ++ ys)
  shift-drop zero [] ys lt = absurd (omega arith)
  shift-drop zero (x ∷ xs) ys lt = refl
  shift-drop (suc n) [] ys lt = absurd (omega arith)
  shift-drop (suc n) (x ∷ xs) ys lt = shift-drop n xs ys (omega arith)

  length-drop : (n : ℕ) (xs : List A) → length (drop n xs) ≡ length xs - n
  length-drop zero xs = omega arith
  length-drop (suc n) [] = omega arith
  length-drop (suc n) (x ∷ xs) = omega (arith, length-drop n xs)

  -- One more at the end of what is kept.
  keep-last_of :
      (n : ℕ) (xs : List A) (x : A)
      → 0 < n
      → (if ltb n (length (last_of n xs ++ x ∷ []))
          then shift (last_of n xs ++ x ∷ [])
          else last_of n xs ++ x ∷ [])
        ≡ last_of n (xs ++ x ∷ [])
  keep-last_of n xs x pos = elim (Bool-cases (ltb n (length (last_of n xs ++ x ∷ [])))) [
    | inl full ↦
        let many : n ≤ length xs =
          ground (arith, length-append (last_of n xs) (x ∷ []), length-drop (length xs - n) xs) in
        let one_more : length (xs ++ x ∷ []) - n ≡ suc (length xs - n) =
          omega (arith, length-append xs (x ∷ [])) in
        rw (full, one_more) (shift-drop (length xs - n) xs (x ∷ []) (omega arith))
    | inr room ↦
        let few : length xs < n =
          ground (arith, length-append (last_of n xs) (x ∷ []), length-drop (length xs - n) xs) in
        let all_kept : length xs - n ≡ 0 = omega arith in
        let still : length (xs ++ x ∷ []) - n ≡ 0 = omega (arith, length-append xs (x ∷ [])) in
        rw (room, all_kept, still) refl
  ]

abbrev pub filled : Text → Bool
filled line = non_empty (trim line)

keep_line-last :
    (xs : List Text) (line : Text)
    → keep_line (last_of stderr_keep_lines xs) line
      ≡ last_of stderr_keep_lines (xs ++ filter filled (line ∷ []))
unfolding keep_line
keep_line-last xs line = elim (Bool-cases (filled line)) [
  | inl says ↦ rw says (keep-last_of stderr_keep_lines xs line (omega arith))
  | inr blank ↦ rw (blank, append-nil) refl
]

keep_lines-last :
    (xs lines : List Text)
    → keep_lines (last_of stderr_keep_lines xs) lines
      ≡ last_of stderr_keep_lines (xs ++ filter filled lines)
unfolding keep_lines
keep_lines-last xs [] = rw append-nil refl
keep_lines-last xs (line ∷ lines) =
    ap (λ tail. keep_lines tail lines) (keep_line-last xs line)
    ∙ keep_lines-last (xs ++ filter filled (line ∷ [])) lines
    ∙ ap (last_of stderr_keep_lines) (
        append_assoc xs (filter filled (line ∷ [])) (filter filled lines)
        ∙ ap (λ ys. xs ++ ys) (sym (filter-append filled (line ∷ []) lines)))

-- The lines of all chunks, each chunk cut by itself.
abbrev pub lines_of : List Text → List Text
lines_of [] = []
lines_of (chunk ∷ chunks) = split_lines [] chunk ++ lines_of chunks

keep_output-from :
    (xs chunks : List Text)
    → keep_output (last_of stderr_keep_lines xs) chunks
      ≡ last_of stderr_keep_lines (xs ++ filter filled (lines_of chunks))
unfolding keep_output
keep_output-from xs [] = rw append-nil refl
keep_output-from xs (chunk ∷ chunks) =
    ap (λ tail. keep_output tail chunks) (keep_lines-last xs (split_lines [] chunk))
    ∙ keep_output-from (xs ++ filter filled (split_lines [] chunk)) chunks
    ∙ ap (last_of stderr_keep_lines) (
        append_assoc xs (filter filled (split_lines [] chunk)) (filter filled (lines_of chunks))
        ∙ ap (λ ys. xs ++ ys) (sym (filter-append filled (split_lines [] chunk) (lines_of chunks))))

-- The tail that is kept of a companion's stderr is its last twenty lines that are not blank, in their
-- order, or all of them where there are fewer; never more than twenty are kept.
keep_output-last :
    (chunks : List Text)
    → (keep_output [] chunks ≡ last_of stderr_keep_lines (filter filled (lines_of chunks)))
      × (length (keep_output [] chunks) ≤ stderr_keep_lines)
keep_output-last chunks =
    let lines = filter filled (lines_of chunks) in
    let same : keep_output [] chunks ≡ last_of stderr_keep_lines lines =
      keep_output-from [] chunks in
    (same, rw same (omega (arith, length-drop (length lines - stderr_keep_lines) lines)))
