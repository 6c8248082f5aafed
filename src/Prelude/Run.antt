-- ===== src/Prelude/Run.antt =====
-- Code that acts on the outside: what it does, in order, and how it ends.
use mathlib.Core.Path.{◌≡◌, refl, ap}
use mathlib.Core.Logic.{◌⊎◌, inl, inr}
use mathlib.Core.List.{List, [], ◌∷◌, ◌++◌}
use mathlib.Core.Bool.{Bool, true, false}
use simgadget.Prelude.Tests.{if◌then◌else◌}
use simgadget.Prelude.Lists.{All, All-append}

-- A value, or what is thrown.
pub data Reply {ℓ κ} (F : Type ℓ) (A : Type κ) : Type (ℓ ⊔ κ) where
  value : A → Reply F A
  throws : F → Reply F A

pub Reply-cases {ℓ κ} :
    {F : Type ℓ} {A : Type κ} (r : Reply F A)
    → ((a : A) × (r ≡ value a)) ⊎ ((f : F) × (r ≡ throws f))
Reply-cases (value a) = inl (a, refl)
Reply-cases (throws f) = inr (f, refl)

abbrev value_or {ℓ κ} : {F : Type ℓ} {A : Type κ} → A → Reply F A → A
value_or a (value b) = b
value_or a (throws f) = a

pub value-inj {ℓ κ} :
    {F : Type ℓ} {A : Type κ} (a b : A) → ◌≡◌ {A = Reply F A} (value a) (value b) → a ≡ b
value-inj a b same = ap (value_or a) same

pub record Run {ι ℓ κ} (Act : Type ι) (F : Type ℓ) (A : Type κ) : Type (ι ⊔ ℓ ⊔ κ) where
  pub acts : List Act
  pub ended : Reply F A

module _ {ι ℓ} {Act : Type ι} {F : Type ℓ} where
  abbrev pub done {κ} : {A : Type κ} → Reply F A → Run Act F A
  done reply = record { acts = []; ended = reply }

  abbrev pub act {κ} : {A : Type κ} → Act → Reply F A → Run Act F A
  act a reply = record { acts = a ∷ []; ended = reply }

  abbrev pub after {κ} : {A : Type κ} → List Act → Run Act F A → Run Act F A
  after acts r = record { acts = acts ++ r.acts; ended = r.ended }

  -- One piece of code and then the next, unless the first throws.
  abbrev pub and_then {κ μ} :
      {A : Type κ} {B : Type μ} → Run Act F A → (A → Run Act F B) → Run Act F B
  and_then r next = elim r.ended [
    | value a ↦ after r.acts (next a)
    | throws f ↦ record { acts = r.acts; ended = throws f }
  ]

  -- What holds of all that one piece does, and of all that the next does, holds of both.
  pub All-and_then {κ μ ν} :
      {A : Type κ} {B : Type μ} (P : Act → Type ν) (acts : List Act) (ended : Reply F A)
      (next : A → Run Act F B)
      → All P acts
      → ((a : A) → ended ≡ value a → All P (next a).acts)
      → All P (and_then (record { acts = acts; ended = ended }) next).acts
  All-and_then P acts (value a) next first second =
      All-append P acts (next a).acts first (second a refl)
  All-and_then P acts (throws f) next first second = first

  -- The same, where the next piece does well whatever the first ended with.
  pub All-then {κ μ ν} :
      {A : Type κ} {B : Type μ} (P : Act → Type ν) (r : Run Act F A) (next : A → Run Act F B)
      → All P r.acts
      → ((a : A) → All P (next a).acts)
      → All P (and_then r next).acts
  All-then P r next first second = All-and_then P r.acts r.ended next first (λ a e. second a)

  and_then_of-value {κ μ} :
      {A : Type κ} {B : Type μ} (acts : List Act) (ended : Reply F A) (next : A → Run Act F B)
      (b : B)
      → let r = and_then (record { acts = acts; ended = ended }) next in
        r.ended ≡ value b
        → (a : A) × (ended ≡ value a)
          × ((next a).ended ≡ value b)
          × (r.acts ≡ acts ++ (next a).acts)
  and_then_of-value acts (value a) next b returned = (a, refl, returned, refl)
  and_then_of-value acts (throws f) next b returned = cc

  -- Where two pieces of code return, so does the first, and what they do is what both do.
  pub and_then-value {κ μ} :
      {A : Type κ} {B : Type μ} (r : Run Act F A) (next : A → Run Act F B) (b : B)
      → (and_then r next).ended ≡ value b
      → (a : A) × (r.ended ≡ value a)
        × ((next a).ended ≡ value b)
        × ((and_then r next).acts ≡ r.acts ++ (next a).acts)
  and_then-value r next b returned = and_then_of-value r.acts r.ended next b returned

  -- What returns behind a guard has passed it.
  pub guarded-value {κ} :
      {A : Type κ} (test : Bool) (r : Run Act F A) (f : F) (a : A)
      → (if test then r else done (throws f)).ended ≡ value a
      → (test ≡ true) × (r.ended ≡ value a)
  guarded-value true r f a returned = (refl, returned)
  guarded-value false r f a returned = cc
