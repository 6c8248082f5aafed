-- ===== src/Ax/Canonical/Laws.antt =====
-- What `canonicalise` promises of the elements that the library hands out.
use simgadget.Prelude.{◌≡◌, refl, ◌≢◌, Bool, Option, none, some, [], ◌∷◌}
use simgadget.Prelude.Text.{Text}
use simgadget.Ax.Element.{
  RawKeys, AxKeys, Value, undefined, str, Scalar, word, number, to_raw, opt_str, opt_scalar,
  opt_bool,
}
use simgadget.Ax.Canonical.{canonicalise, filled, scalar, boolean}

abbrev IsFilled : Option Text → Type 0
IsFilled none = Unit
IsFilled (some s) = s ≢ []

abbrev IsFilledScalar : Option Scalar → Type 0
IsFilledScalar none = Unit
IsFilledScalar (some (word s)) = s ≢ []
IsFilledScalar (some (number n)) = Unit

-- No key holds an empty text.
pub record IsCanonical (e : AxKeys) : Type 0 where
  pub label : IsFilled e.ax_label
  pub value : IsFilledScalar e.ax_value
  pub id : IsFilled e.ax_unique_id
  pub type : IsFilled e.type

filled-IsFilled : (v : Value) → IsFilled (filled v)
filled-IsFilled undefined = tt
filled-IsFilled (str []) = tt
filled-IsFilled (str (c ∷ s)) = λ e. cc
filled-IsFilled _ = tt

scalar-IsFilled : (v : Value) → IsFilledScalar (scalar v)
scalar-IsFilled undefined = tt
scalar-IsFilled (str []) = tt
scalar-IsFilled (str (c ∷ s)) = λ e. cc
scalar-IsFilled _ = tt

canonicalise-IsCanonical : (k : RawKeys) → IsCanonical (canonicalise k)
unfolding canonicalise
canonicalise-IsCanonical k = record {
  label = filled-IsFilled k.ax_label;
  value = scalar-IsFilled k.ax_value;
  id = filled-IsFilled k.ax_unique_id;
  type = filled-IsFilled k.type;
}

filled-opt_str : (o : Option Text) → IsFilled o → filled (opt_str o) ≡ o
filled-opt_str none h = refl
filled-opt_str (some []) h = absurd (h refl)
filled-opt_str (some (c ∷ s)) h = refl

scalar-opt_scalar : (o : Option Scalar) → IsFilledScalar o → scalar (opt_scalar o) ≡ o
scalar-opt_scalar none h = refl
scalar-opt_scalar (some (word [])) h = absurd (h refl)
scalar-opt_scalar (some (word (c ∷ s))) h = refl
scalar-opt_scalar (some (number n)) h = refl

boolean-opt_bool : (o : Option Bool) → boolean (opt_bool o) ≡ o
boolean-opt_bool none = refl
boolean-opt_bool (some b) = refl

-- A canonical element stays as it is when it is reduced again.
canonicalise-to_raw : (e : AxKeys) → IsCanonical e → canonicalise (to_raw e) ≡ e
unfolding canonicalise to_raw
canonicalise-to_raw e c = λ i. record {
  ax_label = filled-opt_str e.ax_label c.label i;
  frame = e.frame;
  ax_value = scalar-opt_scalar e.ax_value c.value i;
  ax_unique_id = filled-opt_str e.ax_unique_id c.id i;
  type = filled-opt_str e.type c.type i;
  enabled = boolean-opt_bool e.enabled i;
}

-- Whatever the companion sends, the element handed out holds no empty label, value, identifier or
-- type, and reducing it again as if it were raw changes nothing.
canonicalise_sound :
    (k : RawKeys)
    → IsCanonical (canonicalise k) × (canonicalise (to_raw (canonicalise k)) ≡ canonicalise k)
canonicalise_sound k =
    (canonicalise-IsCanonical k, canonicalise-to_raw _ (canonicalise-IsCanonical k))
