-- ===== src/Ax/Recovery.antt =====
-- packages/simgadget/src/ax/recovery.ts: when a failed read is worth a restart of the bridge.
pub mod Laws
use simgadget.Prelude.{
  ℕ, ◌+◌, leb, if◌then◌else◌, Bool, true, false, ◌&&◌, not, Option, none, some, map,
}
use simgadget.Prelude.Text.{Text, text, includes}

-- The case folding of the flag `i`, on the letters that the patterns hold.
unfoldable pub fold_case : ℕ → ℕ
fold_case c = if leb b'A' c && leb c b'Z' then c + 32 else c

-- `isWedgeError`
unfoldable pub is_wedge_error : Text → Bool
unfolding fold_case
is_wedge_error message = includes (text "no translation object") (map fold_case message)

-- `isNoElementError`
unfoldable pub is_no_element_error : Text → Bool
unfolding fold_case
is_no_element_error message = includes (text "found no element") (map fold_case message)

-- Milliseconds; `none` is an infinite number.
abbrev pub Elapsed : Type 0
Elapsed = Option ℕ

abbrev pub at_least : ℕ → Elapsed → Bool
at_least ms none = true
at_least ms (some elapsed) = leb ms elapsed

-- `shouldRecover`
pub should_recover : Bool → Text → Elapsed → ℕ → Bool
should_recover answered message ms_since_last_attempt cooldown_ms =
    if not (is_wedge_error message)
    then false
    else if not answered
    then false
    else at_least cooldown_ms ms_since_last_attempt
