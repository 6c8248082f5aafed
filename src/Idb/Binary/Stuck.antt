-- ===== src/Idb/Binary/Stuck.antt =====
-- A resolution with an override in force.
use simgadget.Prelude.{
  ℕ, zero, suc, ◌+◌, ◌<◌, ◌≤◌, ◌==◌, ◌≡◌, inl, inr, Bool-cases, refl, Bool, true, false, none, some,
  arith, ap, ◌∙◌,
}
use simgadget.Prelude.Text.{Text, non_empty}
use simgadget.Prelude.Run.{Reply, Reply-cases, value-inj, value, throws}
use simgadget.Idb.Binary.{
  Failure, World, Machine, expand_tilde, local_companion, unless_local, resolve_once, resolve,
}

-- An attempt in a world where the machine is as told.
abbrev pub attempt_on : (ℕ → World) → ℕ → Reply Failure Text
attempt_on worlds k = (resolve_once (worlds k)).ended

resolve_once-local :
    (w : World) (path : Text)
    → w.local ≡ value (some path)
    → non_empty path ≡ true
    → (resolve_once w).ended ≡ value path
unfolding resolve_once unless_local
resolve_once-local w path there filled = rw (there, unless_local, filled) refl

resolve-none :
    (fuel : ℕ) (attempt : ℕ → Reply Failure Text) (usable : ℕ → Text → Bool) (path : Text) (k : ℕ)
    → ((j : ℕ) → attempt j ≡ value path)
    → ((j : ℕ) → usable j path ≡ false)
    → resolve fuel attempt usable k ≡ none
unfolding resolve
resolve-none zero attempt usable path k always never = refl
resolve-none (suc fuel) attempt usable path k always never =
    rw (resolve, always k, never k) (resolve-none fuel attempt usable path (suc k) always never)

overridden-eq :
    (m : Machine) (override : Text)
    → m.idb_path_set ≡ false
    → m.override ≡ some override
    → non_empty override ≡ true
    → m.exists (expand_tilde m.home override) ≡ true
    → local_companion m ≡ value (some (expand_tilde m.home override))
unfolding local_companion
overridden-eq m override no_idb set filled there =
    rw (local_companion, no_idb, set, filled, there) refl

-- Where the variable for the companion names a file that is there but cannot be executed, and that
-- stays so, a resolution never comes to an end, on any fuel: each attempt gives that file again.
pub unusable_override_stuck :
    (m : Machine) (override : Text) (worlds : ℕ → World) (usable : ℕ → Text → Bool) (fuel : ℕ)
    → m.idb_path_set ≡ false
    → m.override ≡ some override
    → non_empty override ≡ true
    → m.exists (expand_tilde m.home override) ≡ true
    → non_empty (expand_tilde m.home override) ≡ true
    → ((k : ℕ) → (worlds k).local ≡ local_companion m)
    → ((k : ℕ) → usable k (expand_tilde m.home override) ≡ false)
    → resolve fuel (attempt_on worlds) usable 0 ≡ none
unusable_override_stuck m override worlds usable fuel no_idb set filled there named local never =
    let given = overridden-eq m override no_idb set filled there in
    resolve-none fuel (attempt_on worlds) usable (expand_tilde m.home override) 0
      (λ j. resolve_once-local (worlds j) (expand_tilde m.home override) (local j ∙ given) named)
      never

-- What a resolution gives: an error of an attempt, or a companion of one that can be executed then.
abbrev pub Given : (ℕ → Reply Failure Text) → (ℕ → Text → Bool) → Reply Failure Text → Type 0
Given attempt usable (throws f) = (j : ℕ) × (attempt j ≡ throws f)
Given attempt usable (value binary) =
    (j : ℕ) × (attempt j ≡ value binary) × (usable j binary ≡ true)

-- An attempt that ends the loop.
abbrev pub Settles : (ℕ → Text → Bool) → ℕ → Reply Failure Text → Type 0
Settles usable j (throws f) = Unit
Settles usable j (value binary) = usable j binary ≡ true

unsettled :
    (usable : ℕ → Text → Bool) (j : ℕ) (reply : Reply Failure Text) (binary : Text)
    → reply ≡ value binary
    → usable j binary ≡ false
    → Settles usable j reply
    → ⊥
unsettled usable j (throws f) binary same fails settles = cc
unsettled usable j (value b) binary same fails settles =
    let renamed : usable j b ≡ false = ap (usable j) (value-inj b binary same) ∙ fails in cc

module _ (attempt : ℕ → Reply Failure Text) (usable : ℕ → Text → Bool) (j : ℕ)
    (settles : Settles usable j (attempt j)) where
  from-Given :
      (fuel k : ℕ)
      → k ≤ j
      → j < k + fuel
      → (reply : Reply Failure Text) × (resolve fuel attempt usable k ≡ some reply)
        × Given attempt usable reply
  unfolding resolve
  from-Given zero k le lt = absurd (omega arith)
  from-Given (suc fuel) k le lt = elim (Reply-cases (attempt k)) [
    | inr (f, failed) ↦ (throws f, rw (resolve, failed) refl, (k, failed))
    | inl (binary, gave) ↦ elim (Bool-cases (usable k binary)) [
      | inl works ↦ (value binary, rw (resolve, gave, works) refl, (k, gave, works))
      | inr fails ↦ elim (Bool-cases (k == j)) [
        | inl last ↦
            let same : k ≡ j = ground arith in
            absurd
              (unsettled usable j (attempt j) binary (rw (← same) gave) (rw (← same) fails) settles)
        | inr early ↦
            let (reply, given, from) = from-Given fuel (suc k) (ground arith) (omega arith) in
            (reply, rw (resolve, gave, fails) given, from)
      ]
    ]
  ]

  -- A resolution comes to an end once an attempt fails, or gives a companion that can be executed when
  -- it is looked at, within the fuel. What it gives is the error of an attempt, or the companion of an
  -- attempt that can be executed then: never a path that has gone.
  pub resolve-Given :
      (fuel : ℕ)
      → j < fuel
      → (reply : Reply Failure Text) × (resolve fuel attempt usable 0 ≡ some reply)
        × Given attempt usable reply
  resolve-Given fuel lt = from-Given fuel 0 (omega arith) (omega arith)
