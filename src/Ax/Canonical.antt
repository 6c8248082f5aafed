-- ===== src/Ax/Canonical.antt =====
-- packages/simgadget/src/ax/tree.ts: `canonicalise` and `reconcileType`.
pub mod Laws
use simgadget.Prelude.{if◌then◌else◌, Bool, Option, none, some}
use simgadget.Prelude.Text.{Text, text, is_empty, text_eq}
use simgadget.Ax.Element.{RawKeys, AxKeys, Value, str, num, bool, Scalar, word, number}

-- `typeof value === "string" && value !== ""`
abbrev pub filled : Value → Option Text
filled (str s) = if is_empty s then none else some s
filled _ = none

abbrev pub scalar : Value → Option Scalar
scalar (num n) = some (number n)
scalar (str s) = if is_empty s then none else some (word s)
scalar _ = none

abbrev pub boolean : Value → Option Bool
boolean (bool b) = some b
boolean _ = none

-- `canonicalise`
pub canonicalise : RawKeys → AxKeys
canonicalise element = record {
  ax_label = filled element.ax_label;
  frame = element.frame;
  ax_value = scalar element.ax_value;
  ax_unique_id = filled element.ax_unique_id;
  type = filled element.type;
  enabled = boolean element.enabled;
}

-- The table `bySubrole`.
by_subrole : Text → Option Text
by_subrole s =
    if text_eq s (text "AXSearchField")
    then some (text "SearchField")
    else if text_eq s (text "AXSwitch")
    then some (text "Switch")
    else if text_eq s (text "AXTabButton")
    then some (text "Button")
    else none

abbrev plain_type : Text → Text
plain_type type = if text_eq type (text "Heading") then text "StaticText" else type

abbrev mapped_type : Text → Value → Text
unfolding by_subrole
mapped_type type (str subrole) = elim (by_subrole subrole) [
  | some mapped ↦ mapped
  | none ↦ plain_type type
]
mapped_type type _ = plain_type type

-- `reconcileType`
unfoldable pub reconcile_type : Value → Value → Option Text
unfolding by_subrole
reconcile_type (str type) subrole = some (mapped_type type subrole)
reconcile_type _ subrole = none
