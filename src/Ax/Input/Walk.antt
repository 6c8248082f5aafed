-- ===== src/Ax/Input/Walk.antt =====
-- The walk with a stack ends, and asks every element of the tree.
use simgadget.Prelude.{
  ℕ, zero, suc, ◌+◌, ◌<◌, ◌≡◌, refl, Bool, false, ◌||◌, List, [], ◌∷◌, ◌++◌, some, arith, any,
}
use simgadget.Prelude.Forest.{nil, cons, preorder}
use simgadget.Ax.Element.{RawKeys, RawTree}
use simgadget.Ax.Input.{Stack, is_secure_editing, push_all, walk, count_nodes, editing_secure_field}

-- Whether some element on the stack, or under one, is asked and says yes.
abbrev asks : RawTree → Bool
asks t = any is_secure_editing (preorder t)

abbrev asks_stack : Stack → Bool
asks_stack [] = false
asks_stack ((k, children) ∷ stack) = is_secure_editing k || asks children || asks_stack stack

abbrev size : Stack → ℕ
size [] = 0
size ((k, children) ∷ stack) = suc (count_nodes children + size stack)

any-append : (p : RawKeys → Bool) (xs ys : List RawKeys) → any p (xs ++ ys) ≡ any p xs || any p ys
any-append p [] ys = refl
any-append p (x ∷ xs) ys = ground (arith, any-append p xs ys)

push_all-asks :
    (t : RawTree) (stack : Stack) → asks_stack (push_all t stack) ≡ asks t || asks_stack stack
unfolding push_all preorder
push_all-asks nil stack = refl
push_all-asks (cons k children rest) stack = ground (
  arith,
  push_all-asks rest ((k, children) ∷ stack),
  any-append is_secure_editing (preorder children) (preorder rest),
)

push_all-size : (t : RawTree) (stack : Stack) → size (push_all t stack) ≡ count_nodes t + size stack
unfolding push_all count_nodes
push_all-size nil stack = omega arith
push_all-size (cons k children rest) stack =
    omega (arith, push_all-size rest ((k, children) ∷ stack))

walk-asks :
    (fuel : ℕ) (stack : Stack) → size stack < fuel → walk fuel stack ≡ some (asks_stack stack)
unfolding walk
walk-asks zero stack h = absurd (omega arith)
walk-asks (suc fuel) [] h = refl
walk-asks (suc fuel) ((k, children) ∷ stack) h = ground (
  arith,
  push_all-size children stack,
  push_all-asks children stack,
  walk-asks fuel (push_all children stack),
)

-- The walk ends within as many rounds as there are elements and one more, and says yes exactly when
-- some element of the tree is both being edited and a secure field, in whatever order it asks.
editing_secure_field-any :
    (roots : RawTree) → editing_secure_field roots ≡ some (any is_secure_editing (preorder roots))
unfolding editing_secure_field
editing_secure_field-any roots = ground (
  arith,
  push_all-size roots [],
  push_all-asks roots [],
  walk-asks (suc (count_nodes roots)) (push_all roots []),
)
