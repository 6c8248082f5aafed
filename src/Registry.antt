-- ===== src/Registry.antt =====
-- packages/simgadget/src/internal/registry.ts: what is known of each simulator, by its udid.
pub mod Laws
use simgadget.Prelude.{ℕ, Bool, true, false, Option, none, some}
use simgadget.Prelude.Text.{Text}
use simgadget.Prelude.Dict.{Dict, get, put, delete}

-- A promise is known by its number.
pub record RecoveryEntry : Type 0 where
  pub has_answered : Bool
  pub last_recovery_at : Option ℕ
  pub recovery_in_flight : Option ℕ

-- `emptyEntry`
abbrev pub empty_entry : RecoveryEntry
empty_entry = record { has_answered = false; last_recovery_at = none; recovery_in_flight = none }

-- `RecoveryRegistry`, its `entries`
abbrev pub Registry : Type 0
Registry = Dict RecoveryEntry

abbrev pub or_empty : Option RecoveryEntry → RecoveryEntry
or_empty none = empty_entry
or_empty (some e) = e

-- `entry`: the entry of a udid, made where there is none. The writes below go through it.
unfoldable pub entry : Text → Registry → RecoveryEntry
entry udid r = or_empty (get udid r)

unfoldable pub has_answered : Text → Registry → Bool
has_answered udid r = (or_empty (get udid r)).has_answered

unfoldable pub mark_answered : Text → Registry → Registry
unfolding entry
mark_answered udid r = put udid (record (entry udid r) { has_answered = true }) r

unfoldable pub last_recovery_at : Text → Registry → Option ℕ
last_recovery_at udid r = (or_empty (get udid r)).last_recovery_at

pub set_last_recovery_at : Text → ℕ → Registry → Registry
unfolding entry
set_last_recovery_at udid at r = put udid (record (entry udid r) { last_recovery_at = some at }) r

unfoldable pub recovery_in_flight : Text → Registry → Option ℕ
recovery_in_flight udid r = (or_empty (get udid r)).recovery_in_flight

pub set_recovery_in_flight : Text → Option ℕ → Registry → Registry
unfolding entry
set_recovery_in_flight udid promise r =
    put udid (record (entry udid r) { recovery_in_flight = promise }) r

pub forget : Text → Registry → Registry
forget udid r = delete udid r
