-- ===== src/Capture/Pipeline/Keeps.antt =====
-- What it is for a run of a capture to keep to a plan, and how plans are joined.
use mathlib.Core.Path.{subst}
use mathlib.Core.List.{append_assoc}
use simgadget.Prelude.{◌≡◌, refl, sym, ap, ◌∙◌, List, [], ◌∷◌, ◌++◌, Option, none, some, arith}
use simgadget.Capture.Pipeline.{Effect, Outcome, returns, throws, Run, and_then, done, answered}

-- A run keeps to a plan: it does what the plan says and returns a good value, or it throws after
-- some first part of it.
pub record Keeps {ℓ κ} {A : Type ℓ} (r : Run A) (plan : List Effect) (Good : A → Type κ)
    : Type (ℓ ⊔ κ) where
  pub full : (a : A) → r.outcome ≡ returns a → (r.effects ≡ plan) × Good a
  pub part : (rest : List Effect) × (r.effects ++ rest ≡ plan)

module _ {ℓ κ μ ν} {A : Type ℓ} {B : Type κ} (Good : A → Type μ) (Fine : B → Type ν) where
  pub Keeps-and_then :
      (effects : List Effect) (outcome : Outcome A) (next : A → Run B) (plan more : List Effect)
      → Keeps (record { effects = effects; outcome = outcome }) plan Good
      → ((a : A) → Good a → Keeps (next a) more Fine)
      → Keeps (and_then (record { effects = effects; outcome = outcome }) next) (plan ++ more) Fine
  Keeps-and_then effects throws next plan more first second = record {
    full = λ b e. cc;
    part =
        let (rest, e) = first.part in
        (rest ++ more, sym (append_assoc effects rest more) ∙ ap (λ xs. xs ++ more) e);
  }
  Keeps-and_then effects (returns a) next plan more first second =
      let (same, good) = first.full a refl in
      let after = second a good in
      record {
        full = λ b e. let (e2, fine) = after.full b e in (rw (same, e2) refl, fine);
        part =
            let (rest, e) = after.part in
            (rest, rw same (append_assoc plan (next a).effects rest ∙ ap (λ xs. plan ++ xs) e));
      }

module _ {ℓ κ} {A : Type ℓ} (Good : A → Type κ) where
  -- One effect, whatever comes of it.
  pub Keeps-one :
      (e : Effect) (o : Option A)
      → ((a : A) → o ≡ some a → Good a)
      → Keeps (record { effects = e ∷ []; outcome = answered o }) (e ∷ []) Good
  Keeps-one e none good = record { full = λ a e. cc; part = ([], refl) }
  Keeps-one e (some b) good = record {
    full = λ a same. (refl, good a (ground arith));
    part = ([], refl);
  }

  pub Keeps-done : (a : A) → Good a → Keeps (done a) [] Good
  Keeps-done a good = record {
    full = λ b e. (refl, subst Good (ground arith) good);
    part = ([], refl);
  }

-- Nothing more is known of a value.
abbrev pub Any {ℓ} : {A : Type ℓ} → A → Type 0
Any a = Unit

pub Keeps-ends {ℓ} :
    {A : Type ℓ} (o : Outcome A) → Keeps (record { effects = []; outcome = o }) [] Any
Keeps-ends o = record { full = λ a e. (refl, tt); part = ([], refl) }

pub Keeps-tells {ℓ} :
    {A : Type ℓ} (e : Effect) (o : Outcome A)
    → Keeps (record { effects = e ∷ []; outcome = o }) (e ∷ []) Any
Keeps-tells e o = record { full = λ a same. (refl, tt); part = ([], refl) }
