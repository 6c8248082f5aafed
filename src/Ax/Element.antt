-- ===== src/Ax/Element.antt =====
-- packages/simgadget/src/ax/tree.ts: the elements, as the companion reports them and as the library
-- hands them out. Coordinates are integers, in sixths of a point.
use simgadget.Prelude.{
  ℕ, zero, suc, ◌+◌, ◌/◌, ◌%◌, ◌==◌, if◌then◌else◌, Bool, true, false, ◌&&◌, List, [], ◌∷◌, Option,
  none, some,
}
use simgadget.Prelude.Int.{ℤ, pos, negsuc, eqb_ℤ}
use simgadget.Prelude.Text.{Text, text}
use simgadget.Prelude.Forest.{Forest, nil, cons}

-- One point.
abbrev pub point : ℤ
point = pos 6

pub record Frame : Type 0 where
  pub x : ℤ
  pub y : ℤ
  pub width : ℤ
  pub height : ℤ

-- A JavaScript value, as the companion's JSON holds one. `other` is any object, by its text.
pub data Value : Type 0 where
  undefined null : Value
  str : Text → Value
  num : ℤ → Value
  bool : Bool → Value
  other : Text → Value

-- The keys of `RawAXElement` that the library reads; the children stand in the `Forest`.
pub record RawKeys : Type 0 where
  pub frame : Option Frame
  pub ax_label : Value
  pub ax_value : Value
  pub ax_unique_id : Value
  pub type : Value
  pub subrole : Value
  pub enabled : Value
  pub traits : Option (List Value)

-- `RawAXElement[]`
abbrev pub RawTree : Type 0
RawTree = Forest RawKeys

-- What `AXElement` may have as `AXValue`.
pub data Scalar : Type 0 where
  word : Text → Scalar
  number : ℤ → Scalar

-- The keys of `AXElement`.
pub record AxKeys : Type 0 where
  pub ax_label : Option Text
  pub frame : Option Frame
  pub ax_value : Option Scalar
  pub ax_unique_id : Option Text
  pub type : Option Text
  pub enabled : Option Bool

-- `AXElement[]`
abbrev pub AxTree : Type 0
AxTree = Forest AxKeys

-- The numerals of a number, least significant digit last.
unfoldable pub show_digits : ℕ → ℕ → Text → Text
show_digits zero n done = done
show_digits (suc fuel) n done =
    let more = show_digits fuel (n / 10) ((n % 10 + b'0') ∷ done) in if n == 0 then done else more

abbrev show_ℕ : ℕ → Text
unfolding show_digits
show_ℕ n = if n == 0 then text "0" else show_digits n n []

abbrev show_ℤ : ℤ → Text
unfolding show_digits
show_ℤ (pos n) = show_ℕ n
show_ℤ (negsuc n) = b'-' ∷ show_ℕ (suc n)

-- `String(value)`
unfoldable pub string_of : Value → Text
unfolding show_digits
string_of undefined = text "undefined"
string_of null = text "null"
string_of (str s) = s
string_of (num n) = show_ℤ n
string_of (bool true) = text "true"
string_of (bool false) = text "false"
string_of (other s) = s

-- An `AXElement` where a `RawAXElement` is expected.
abbrev pub opt_str : Option Text → Value
opt_str none = undefined
opt_str (some s) = str s

abbrev pub opt_scalar : Option Scalar → Value
opt_scalar none = undefined
opt_scalar (some (word s)) = str s
opt_scalar (some (number n)) = num n

abbrev pub opt_bool : Option Bool → Value
opt_bool none = undefined
opt_bool (some b) = bool b

unfoldable pub to_raw : AxKeys → RawKeys
to_raw e = record {
  frame = e.frame;
  ax_label = opt_str e.ax_label;
  ax_value = opt_scalar e.ax_value;
  ax_unique_id = opt_str e.ax_unique_id;
  type = opt_str e.type;
  subrole = undefined;
  enabled = opt_bool e.enabled;
  traits = none;
}

-- `!frame.width && !frame.height`
abbrev pub has_no_size : Frame → Bool
has_no_size f = eqb_ℤ f.width (pos 0) && eqb_ℤ f.height (pos 0)

abbrev no_size_frame : Option Frame → Bool
no_size_frame none = false
no_size_frame (some f) = has_no_size f

-- `isDegenerateTree`
unfoldable pub is_degenerate_tree : RawTree → Bool
is_degenerate_tree nil = true
is_degenerate_tree (cons root children rest) = no_size_frame root.frame
