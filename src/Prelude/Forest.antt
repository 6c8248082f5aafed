-- ===== src/Prelude/Forest.antt =====
-- An array of tree nodes: `cons` is an array whose first element has the keys `a` and the children
-- given next, followed by the rest of the array. An absent `children` is the empty array.
use mathlib.Core.Path.{◌≡◌, refl, ap}
use mathlib.Core.List.{List, [], ◌∷◌, ◌++◌, append_assoc}
use native.Mathlib.Omega.{arith}

pub data Forest {ℓ} (A : Type ℓ) : Type ℓ where
  nil : Forest A
  cons : A → Forest A → Forest A → Forest A

module _ {ℓ} {A : Type ℓ} where
  -- `[...xs, ...ys]`
  unfoldable pub append : Forest A → Forest A → Forest A
  append nil ys = ys
  append (cons a children rest) ys = cons a children (append rest ys)

  append-nil_right : (xs : Forest A) → append xs nil ≡ xs
  unfolding append
  append-nil_right nil = refl
  append-nil_right (cons a children rest) = ap (cons a children) (append-nil_right rest)

  -- Each node in document order.
  unfoldable pub preorder : Forest A → List A
  preorder nil = []
  preorder (cons a children rest) = a ∷ (preorder children ++ preorder rest)

  -- Each node in document order, as its own keys before those of the nodes that it lies in,
  -- innermost first. `above` is what the whole forest lies in.
  unfoldable pub chains : List A → Forest A → List (List A)
  chains above nil = []
  chains above (cons a children rest) =
      (a ∷ above) ∷ (chains (a ∷ above) children ++ chains above rest)

  pub chains-append :
      (above : List A) (xs ys : Forest A)
      → chains above (append xs ys) ≡ chains above xs ++ chains above ys
  unfolding append chains
  chains-append above nil ys = refl
  chains-append above (cons a children rest) ys = ground (
    arith,
    chains-append above rest ys,
    append_assoc (chains (a ∷ above) children) (chains above rest) (chains above ys),
  )

-- The same shape with other keys.
unfoldable pub map_forest {ℓ κ} : {A : Type ℓ} {B : Type κ} → (A → B) → Forest A → Forest B
map_forest f nil = nil
map_forest f (cons a children rest) = cons (f a) (map_forest f children) (map_forest f rest)
