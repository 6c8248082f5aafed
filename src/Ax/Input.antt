-- ===== src/Ax/Input.antt =====
-- packages/simgadget/src/ax/input.ts: whether a masked field has the keyboard.
pub mod Walk
use simgadget.Prelude.{
  ℕ, zero, suc, ◌+◌, if◌then◌else◌, Bool, true, false, ◌&&◌, List, [], ◌∷◌, Option, none, some,
}
use simgadget.Prelude.Text.{Text, text, member}
use simgadget.Prelude.Forest.{nil, cons}
use simgadget.Ax.Element.{RawKeys, RawTree, Value, str}

-- `traits.filter((t): t is string => typeof t === "string")`
texts : List Value → List Text
texts [] = []
texts (str t ∷ rest) = t ∷ texts rest
texts (_ ∷ rest) = texts rest

abbrev texts_of : Option (List Value) → List Text
unfolding texts
texts_of none = []
texts_of (some traits) = texts traits

-- `traitsOf`
traits_of : RawKeys → List Text
unfolding texts
traits_of element = texts_of element.traits

-- `traits.includes(EDITING_TRAIT) && traits.includes(SECURE_FIELD_TRAIT)`
unfoldable pub is_secure_editing : RawKeys → Bool
unfolding traits_of
is_secure_editing element =
    member (text "IsEditing") (traits_of element)
    && member (text "SecureTextField") (traits_of element)

-- The stack, its top first: an element and its children.
abbrev pub Stack : Type 0
Stack = List (RawKeys × RawTree)

-- `for (const child of children) stack.push(child)`
pub push_all : RawTree → Stack → Stack
push_all nil stack = stack
push_all (cons element children rest) stack = push_all rest ((element, children) ∷ stack)

-- The `while` loop; `none` means that the fuel ran out.
pub walk : ℕ → Stack → Option Bool
walk zero stack = none
walk (suc fuel) [] = some false
walk (suc fuel) ((element, children) ∷ stack) =
    let rest = walk fuel (push_all children stack) in
    if is_secure_editing element then some true else rest

-- The number of elements, which is how often the loop can pop one.
pub count_nodes : RawTree → ℕ
count_nodes nil = 0
count_nodes (cons element children rest) = suc (count_nodes children + count_nodes rest)

-- `editingSecureField`
pub editing_secure_field : RawTree → Option Bool
unfolding walk push_all count_nodes
editing_secure_field roots = walk (suc (count_nodes roots)) (push_all roots [])
