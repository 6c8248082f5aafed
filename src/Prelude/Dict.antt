-- ===== src/Prelude/Dict.antt =====
-- A `Map` whose keys are texts, as an association list that holds each key once.
use mathlib.Core.Path.{◌≡◌, refl}
use mathlib.Core.List.{List, [], ◌∷◌}
use mathlib.Core.Option.{Option, none, some}
use native.Mathlib.Omega.{arith}
use simgadget.Prelude.Tests.{if◌then◌else◌}
use simgadget.Prelude.Text.{Text, text_eq, text_eq_iff, text_eq_refl}

abbrev pub Dict {ℓ} : Type ℓ → Type ℓ
Dict V = List (Text × V)

module _ {ℓ} {V : Type ℓ} where
  -- `map.get(key)`
  unfoldable pub get : Text → Dict V → Option V
  get key [] = none
  get key ((k, v) ∷ m) = if text_eq k key then some v else get key m

  -- `map.set(key, value)`: a key that is there keeps its place.
  unfoldable pub put : Text → V → Dict V → Dict V
  put key value [] = (key, value) ∷ []
  put key value ((k, v) ∷ m) = if text_eq k key then (k, value) ∷ m else (k, v) ∷ put key value m

  -- `map.delete(key)`
  unfoldable pub delete : Text → Dict V → Dict V
  delete key [] = []
  delete key ((k, v) ∷ m) = if text_eq k key then delete key m else (k, v) ∷ delete key m

  pub get-put :
      (j k : Text) (v : V) (m : Dict V)
      → get j (put k v m) ≡ (if text_eq k j then some v else get j m)
  unfolding get put
  get-put j k v [] = refl
  get-put j k v ((i, w) ∷ m) =
      ground (arith, text_eq_iff k j, text_eq_iff i k, text_eq_iff i j, get-put j k v m)

  pub get-delete :
      (j k : Text) (m : Dict V) → get j (delete k m) ≡ (if text_eq k j then none else get j m)
  unfolding get delete
  get-delete j k [] = ground arith
  get-delete j k ((i, w) ∷ m) =
      ground (arith, text_eq_iff k j, text_eq_iff i k, text_eq_iff i j, get-delete j k m)

  pub get-put_self : (k : Text) (v : V) (m : Dict V) → get k (put k v m) ≡ some v
  get-put_self k v m = simp (get-put, text_eq_refl)
