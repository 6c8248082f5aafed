-- ===== src/Ax/Prune.antt =====
-- packages/simgadget/src/ax/tree.ts: `isInteresting` and `pruneTree`.
pub mod Chains
use simgadget.Prelude.{if◌then◌else◌, Bool, false, not, ◌&&◌, ◌||◌, List, [], ◌∷◌}
use simgadget.Prelude.Text.{Text, text, non_empty, trim, member}
use simgadget.Prelude.Forest.{nil, cons, append}
use simgadget.Ax.Element.{RawKeys, RawTree, AxTree, Value, str, string_of}
use simgadget.Ax.Canonical.{canonicalise}

-- `ACTIONABLE_TYPES`
abbrev pub actionable_types : List Text
actionable_types =
    text "Button"
    ∷ text "Cell"
    ∷ text "CheckBox"
    ∷ text "ComboBox"
    ∷ text "Link"
    ∷ text "PopUpButton"
    ∷ text "RadioButton"
    ∷ text "ScrollBar"
    ∷ text "SearchField"
    ∷ text "SecureTextField"
    ∷ text "Slider"
    ∷ text "Stepper"
    ∷ text "Switch"
    ∷ text "TabButton"
    ∷ text "TextArea"
    ∷ text "TextField"
    ∷ []

-- `CONTAINER_TYPES`
abbrev container_types : List Text
container_types = text "Any" ∷ text "Group" ∷ text "Other" ∷ text "Unknown" ∷ []

-- `typeof value === "string" && value.trim()`
abbrev says_something : Value → Bool
says_something (str s) = non_empty (trim s)
says_something _ = false

-- `typeof id === "string" && !!id`
abbrev pub names : Value → Bool
names (str s) = non_empty s
names _ = false

-- `isInteresting`
unfoldable pub is_interesting : RawKeys → Bool
is_interesting element =
    says_something element.ax_label
    || says_something element.ax_value
    || member (string_of element.type) actionable_types
    || (names element.ax_unique_id && not (member (string_of element.type) container_types))

-- The tail of `visit`: a node that is dropped leaves its kept descendants.
abbrev keep : RawKeys → AxTree → AxTree
keep element kept = if is_interesting element then cons (canonicalise element) kept nil else kept

-- The inner `visit`, over an array: `children.flatMap(visit)`.
pub visit : RawTree → AxTree
visit nil = nil
visit (cons element children rest) = append (keep element (visit children)) (visit rest)

-- `pruneTree`
pub prune_tree : RawTree → AxTree
prune_tree nil = nil
prune_tree (cons root children rest) = cons (canonicalise root) (visit children) (prune_tree rest)
