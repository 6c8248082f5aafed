-- ===== src/Prelude/Lists.antt =====
-- Lists measured by native numbers and tested by Booleans, under the library's names.
use Prim.Native.Nat.{ℕ, suc, ◌+◌}
use mathlib.Core.Path.{◌≡◌, refl}
use mathlib.Core.Logic.{inl, inr}
use mathlib.Core.Bool.{Bool, true, false, ◌&&◌, ◌||◌}
use mathlib.Core.Option.{Option, none, some}
use mathlib.Core.List.{List, [], ◌∷◌, ◌++◌}
use native.Mathlib.Omega.{arith}
use simgadget.Prelude.Tests.{if◌then◌else◌, Bool-cases}

module _ {ℓ} {A : Type ℓ} where
  abbrev pub length : List A → ℕ
  length [] = 0
  length (x ∷ xs) = suc (length xs)

  pub length-append : (xs ys : List A) → length (xs ++ ys) ≡ length xs + length ys
  length-append [] ys = omega arith
  length-append (x ∷ xs) ys = omega (arith, length-append xs ys)

  abbrev pub head? : List A → Option A
  head? [] = none
  head? (x ∷ xs) = some x

  abbrev pub all : (A → Bool) → List A → Bool
  all p [] = true
  all p (x ∷ xs) = p x && all p xs

  abbrev pub any : (A → Bool) → List A → Bool
  any p [] = false
  any p (x ∷ xs) = p x || any p xs

  -- `xs.filter(p)`
  abbrev pub filter : (A → Bool) → List A → List A
  filter p [] = []
  filter p (x ∷ xs) = if p x then x ∷ filter p xs else filter p xs

  -- `xs.find(p)`
  abbrev pub find : (A → Bool) → List A → Option A
  find p [] = none
  find p (x ∷ xs) = if p x then some x else find p xs

  pub filter-append :
      (p : A → Bool) (xs ys : List A) → filter p (xs ++ ys) ≡ filter p xs ++ filter p ys
  filter-append p [] ys = refl
  filter-append p (x ∷ xs) ys = ground (arith, filter-append p xs ys)

  -- The first hit in a list of two parts.
  find-append :
      (p : A → Bool) (xs ys : List A)
      → find p (xs ++ ys) ≡ elim (find p xs) [ none ↦ find p ys | some x ↦ some x ]
  find-append p [] ys = refl
  find-append p (x ∷ xs) ys = ground (arith, find-append p xs ys)

module _ {ℓ κ} {A : Type ℓ} (P : A → Type κ) where
  abbrev pub All : List A → Type κ
  All [] = Unit
  All (x ∷ xs) = P x × All xs

  pub All-append : (xs ys : List A) → All xs → All ys → All (xs ++ ys)
  All-append [] ys h k = k
  All-append (x ∷ xs) ys (p, h) k = (p, All-append xs ys h k)

module _ {ℓ} {A : Type ℓ} where
  -- Every item that a filter leaves passes its test.
  pub filter-All : (p : A → Bool) (xs : List A) → All (λ x. p x ≡ true) (filter p xs)
  filter-All p [] = tt
  filter-All p (x ∷ xs) = elim (Bool-cases (p x)) [
    | inl pass ↦ rw (pass, All) (pass, filter-All p xs)
    | inr fail ↦ rw (fail, All) (filter-All p xs)
  ]

  pub filter-eq-nil : (p : A → Bool) (xs : List A) → All (λ x. p x ≡ false) xs → filter p xs ≡ []
  filter-eq-nil p [] h = refl
  filter-eq-nil p (x ∷ xs) (fail, h) = rw fail (filter-eq-nil p xs h)

  pub All-of_filter-eq-nil :
      (p : A → Bool) (xs : List A) → filter p xs ≡ [] → All (λ x. p x ≡ false) xs
  All-of_filter-eq-nil p [] e = tt
  All-of_filter-eq-nil p (x ∷ xs) e = elim (Bool-cases (p x)) [
    | inl pass ↦ ground arith
    | inr fail ↦ (fail, All-of_filter-eq-nil p xs (ground arith))
  ]

module _ {ℓ κ} {A : Type ℓ} (P : A → Type κ) where
  -- What holds of all holds of the item at a place.
  pub All-at : (before : List A) (x : A) (after : List A) → All P (before ++ x ∷ after) → P x
  All-at [] x after (p, h) = p
  All-at (y ∷ before) x after (p, h) = All-at before x after h

  pub All-filter_at :
      (p : A → Bool) (before : List A) (x : A) (after : List A)
      → p x ≡ true
      → All P (filter p (before ++ x ∷ after))
      → P x
  All-filter_at p [] x after pass h = (rw (pass, All) at h).0
  All-filter_at p (y ∷ before) x after pass h = elim (Bool-cases (p y)) [
    | inl kept ↦ All-filter_at p before x after pass (rw (kept, All) at h).1
    | inr out ↦ All-filter_at p before x after pass (rw (out, All) at h)
  ]
