-- ===== src/Lifecycle/Printed.antt =====
-- packages/simgadget/src/lifecycle.ts: `parseLaunchPid`, `deriveDeviceName` and
-- `isAlreadyBootedError`.
pub mod Laws
use simgadget.Prelude.{
  ℕ, suc, ◌+◌, ◌-◌, ◌*◌, leb, ltb, ◌==◌, if◌then◌else◌, Bool, true, false, ◌&&◌, ◌||◌, [], ◌∷◌,
  ◌++◌, Option, none, some, map,
}
use simgadget.Prelude.Text.{Text, text, non_empty, starts_with, is_space, trim, trim_start}
use simgadget.Ax.Recovery.{fold_case}
use mathlib.Core.List.{reverse}

abbrev pub is_digit : ℕ → Bool
is_digit c = leb b'0' c && leb c b'9'

-- The number that a reversed text begins with, and what stands behind it. There is none where the
-- text does not begin with a digit.
pub record Numeral : Type 0 where
  pub digits : ℕ
  pub number : ℕ
  pub rest : Text

unfoldable pub numeral : Text → Numeral
numeral [] = record { digits = 0; number = 0; rest = [] }
numeral (c ∷ s) =
    let more = numeral s in
    if is_digit c
    then record {
      digits = suc more.digits;
      number = (c - b'0') + 10 * more.number;
      rest = more.rest;
    }
    else record { digits = 0; number = 0; rest = c ∷ s }

-- `[:\s]`
abbrev pub is_delimiter : ℕ → Bool
is_delimiter c = c == b':' || is_space c

abbrev pub delimited : Text → Bool
delimited [] = false
delimited (c ∷ s) = is_delimiter c

-- `Number.MAX_SAFE_INTEGER`
abbrev pub max_safe_integer : ℕ
max_safe_integer = 9007199254740991

-- `Number.isSafeInteger(pid) && pid > 0`
abbrev pub is_pid : ℕ → Bool
is_pid n = leb n max_safe_integer && ltb 0 n

abbrev pub pid_of : Numeral → Option ℕ
pid_of n = if ltb 0 n.digits && delimited n.rest && is_pid n.number then some n.number else none

-- `parseLaunchPid`; what has been trimmed has no spaces for `\s*` at its end.
unfoldable pub parse_launch_pid : Text → Option ℕ
unfolding numeral
parse_launch_pid stdout = pid_of (numeral (reverse (trim stdout)))

-- `replace(/\s+/g, "-")`, where the character before was a space or not.
unfoldable pub dashed : Bool → Text → Text
dashed in_space [] = []
dashed in_space (c ∷ s) =
    let spaced = dashed true s in
    let plain = dashed false s in
    if is_space c then (if in_space then spaced else b'-' ∷ spaced) else c ∷ plain

-- `deriveDeviceName`; `lower` is `toLowerCase`, and a name is given or not.
unfoldable pub derive_device_name : (Text → Text) → Text → Option Text → Text
unfolding dashed
derive_device_name lower keyword none = text "simgadget-" ++ dashed false (lower keyword)
derive_device_name lower keyword (some name) =
    if non_empty name then name else text "simgadget-" ++ dashed false (lower keyword)

-- What stands behind a prefix.
unfoldable pub behind : Text → Text → Option Text
behind [] s = some s
behind (p ∷ ps) [] = none
behind (p ∷ ps) (c ∷ s) = if p == c then behind ps s else none

abbrev pub booted_next : Option Text → Bool
booted_next none = false
booted_next (some rest) = starts_with (text "booted") (trim_start rest)

abbrev pub booted_from : Text → Bool
unfolding behind
booted_from s = booted_next (behind (text "unable to boot device in current state:") s)

abbrev pub booted_within : Text → Bool
booted_within [] = false
booted_within (c ∷ s) = booted_from (c ∷ s) || booted_within s

-- `isAlreadyBootedError`
unfoldable pub is_already_booted_error : Text → Bool
unfolding fold_case behind
is_already_booted_error message = booted_within (map fold_case message)
