-- ===== src/Idb/Binary/Walk.antt =====
-- The walk up to a companion that was built from the submodule.
use simgadget.Prelude.{
  ℕ, zero, suc, ◌<◌, ◌≤◌, ◌≡◌, ◌⊎◌, refl, inl, inr, Bool, true, false, Option, none, some, length,
  arith, Bool-cases,
}
use simgadget.Prelude.Text.{Text, text_eq, text_eq_iff}
use simgadget.Idb.Binary.{find_vendor_companion}

-- The n-th directory on the way up.
abbrev pub up : (Text → Text) → ℕ → Text → Text
up dirname zero dir = dir
up dirname (suc n) dir = up dirname n (dirname dir)

module _ (dirname candidate : Text → Text) (exists : Text → Bool)
    (shorter : (d : Text) → (dirname d ≡ d) ⊎ (length (dirname d) < length d)) where
  -- What a walk finds: the candidate of the nearest directory that has one; or nothing, and no
  -- directory up to the root, which is its own parent, has one.
  abbrev pub Nearest : Text → Option Text → Type 0
  Nearest dir (some found) =
      (n : ℕ) × (found ≡ candidate (up dirname n dir))
      × (exists found ≡ true)
      × ((k : ℕ) → k < n → exists (candidate (up dirname k dir)) ≡ false)
  Nearest dir none =
      (n : ℕ) × (dirname (up dirname n dir) ≡ up dirname n dir)
      × ((k : ℕ) → k ≤ n → exists (candidate (up dirname k dir)) ≡ false)

  later :
      (dir : Text) (n k : ℕ)
      → exists (candidate dir) ≡ false
      → ((j : ℕ) → j < n → exists (candidate (up dirname j (dirname dir))) ≡ false)
      → k < suc n
      → exists (candidate (up dirname k dir)) ≡ false
  later dir n zero here above lt = here
  later dir n (suc k) here above lt = above k (omega arith)

  above-Nearest :
      (dir : Text) (found : Option Text)
      → exists (candidate dir) ≡ false
      → Nearest (dirname dir) found
      → Nearest dir found
  above-Nearest dir (some found) here (n, same, there, before) =
      (suc n, same, there, λ k lt. later dir n k here before lt)
  above-Nearest dir none here (n, root, before) =
      (suc n, root, λ k le. later dir (suc n) k here (λ j lt. before j (omega arith)) (omega arith))

  walk-Nearest :
      (fuel : ℕ) (dir : Text)
      → length dir < fuel
      → (found : Option Text) × (find_vendor_companion fuel dirname candidate exists dir
          ≡ some found)
        × Nearest dir found
  unfolding find_vendor_companion
  walk-Nearest zero dir lt = absurd (omega arith)
  walk-Nearest (suc fuel) dir lt = elim (Bool-cases (exists (candidate dir))) [
    | inl there ↦
        (some (candidate dir), rw (there) refl, (zero, refl, there, λ k lt. absurd (omega arith)))
    | inr missing ↦ elim (Bool-cases (text_eq (dirname dir) dir)) [
      | inl root ↦ (
        none,
        rw (missing, root) refl,
        (
          zero,
          (text_eq_iff (dirname dir) dir).0 root,
          λ k le. later dir zero k missing (λ j lt. absurd (omega arith)) (omega arith),
        ),
      )
      | inr below ↦
          let smaller : length (dirname dir) < fuel =
            ground (arith, shorter dir, text_eq_iff (dirname dir) dir) in
          let (found, same, nearest) = walk-Nearest fuel (dirname dir) smaller in
          (found, rw (missing, below) same, above-Nearest dir found missing nearest)
    ]
  ]

  -- The walk comes to an end on as much fuel as the path has characters and one more, provided that
  -- each directory but the root has a shorter path above it. It finds the companion of the nearest
  -- directory that has one, or nothing where no directory up to the root has one.
  find_vendor_companion-Nearest :
      (start : Text)
      → (found : Option Text) × (find_vendor_companion
            (suc (length start))
            dirname
            candidate
            exists
            start
          ≡ some found)
        × Nearest start found
  find_vendor_companion-Nearest start = walk-Nearest (suc (length start)) start (omega arith)
