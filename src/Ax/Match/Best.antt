-- ===== src/Ax/Match/Best.antt =====
-- What `best` picks among several elements that match.
use mathlib.Core.List.{append_assoc}
use simgadget.Prelude.{
  ℕ, ◌≤◌, ◌<◌, ltb, ◌≡◌, refl, inl, inr, List, [], ◌∷◌, ◌++◌, some, arith, All, All-append,
  Bool-cases,
}
use simgadget.Prelude.Text.{Text}
use simgadget.Ax.Element.{RawKeys}
use simgadget.Ax.Match.{score, prefer, best}

module _ (needle : Text) where
  -- `x` stands in the list, beats all before it and is not beaten by any after it.
  pub record IsFirstBest (xs : List RawKeys) (x : RawKeys) : Type 0 where
    pub before : List RawKeys
    pub after : List RawKeys
    pub split : xs ≡ before ++ x ∷ after
    pub beats : All (λ y. score needle y < score needle x) before
    pub unbeaten : All (λ y. score needle y ≤ score needle x) after

  All-weaken :
      (s t : ℕ) (xs : List RawKeys)
      → s < t
      → All (λ y. score needle y ≤ s) xs
      → All (λ y. score needle y < t) xs
  All-weaken s t [] h a = tt
  All-weaken s t (x ∷ xs) h (p, a) = (omega arith, All-weaken s t xs h a)

  All-stronger :
      (s t : ℕ) (xs : List RawKeys)
      → s ≤ t
      → All (λ y. score needle y < s) xs
      → All (λ y. score needle y < t) xs
  All-stronger s t [] h a = tt
  All-stronger s t (x ∷ xs) h (p, a) = (omega arith, All-stronger s t xs h a)

  -- The loop invariant of `reduce`: what has been seen is `before`, the chosen one and `passed`.
  prefer-IsFirstBest :
      (before : List RawKeys) (chosen : RawKeys) (passed rest : List RawKeys)
      → All (λ y. score needle y < score needle chosen) before
      → All (λ y. score needle y ≤ score needle chosen) passed
      → IsFirstBest (before ++ chosen ∷ (passed ++ rest)) (prefer needle chosen rest)
  unfolding prefer
  prefer-IsFirstBest before chosen passed [] b p = record {
    before = before;
    after = passed ++ [];
    split = refl;
    beats = b;
    unbeaten = All-append _ passed [] p tt;
  }
  prefer-IsFirstBest before chosen passed (c ∷ rest) b p =
      elim (Bool-cases (ltb (score needle chosen) (score needle c))) [
        | inl better ↦
            rw (better, ← append_assoc before (chosen ∷ passed) (c ∷ rest))
              (prefer-IsFirstBest (before ++ chosen ∷ passed) c [] rest
                (All-append _ before (chosen ∷ passed)
                  (All-stronger (score needle chosen) (score needle c) before (ground arith) b)
                  (ground arith, All-weaken _ _ passed (ground arith) p))
                tt)
        | inr worse ↦
            rw (worse, ← append_assoc passed (c ∷ []) rest)
              (prefer-IsFirstBest before chosen (passed ++ c ∷ []) rest b
                (All-append _ passed (c ∷ []) p (ground arith, tt)))
      ]

  -- `best` picks from any list but the empty one, and what it picks is the first element of the
  -- highest score.
  pub best-IsFirstBest :
      (x : RawKeys) (xs : List RawKeys)
      → (y : RawKeys) × (best needle (x ∷ xs) ≡ some y) × IsFirstBest (x ∷ xs) y
  unfolding best
  best-IsFirstBest x [] =
      (x, refl, record { before = []; after = []; split = refl; beats = tt; unbeaten = tt })
  best-IsFirstBest x (z ∷ xs) =
      (prefer needle x (z ∷ xs), refl, prefer-IsFirstBest [] x [] (z ∷ xs) tt tt)
