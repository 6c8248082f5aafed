-- ===== src/Registry/Laws.antt =====
-- The registry as a function from udids to entries: each write changes one field of one udid.
use simgadget.Prelude.{ℕ, if◌then◌else◌, ◌≡◌, refl, true, Option, some, arith}
use simgadget.Prelude.Text.{Text, text_eq, text_eq_iff}
use simgadget.Prelude.Dict.{get, put, get-put, get-delete}
use simgadget.Registry.{
  RecoveryEntry, Registry, empty_entry, or_empty, entry, mark_answered, last_recovery_at,
  set_last_recovery_at, recovery_in_flight, set_recovery_in_flight, forget,
}

get-write :
    (u v : Text) (e : RecoveryEntry) (f : RecoveryEntry → RecoveryEntry) (r : Registry)
    → e ≡ f (or_empty (get u r))
    → or_empty (get v (put u e r))
      ≡ (if text_eq u v then f (or_empty (get v r)) else or_empty (get v r))
get-write u v e f r same = ground (arith, get-put v u e r, text_eq_iff u v)

-- The entry of a udid after each of the four writes to a udid, its own or another's.
entry-write :
    (u v : Text) (at : ℕ) (p : Option ℕ) (r : Registry)
    → (entry v (mark_answered u r)
        ≡ (if text_eq u v then record (entry v r) { has_answered = true } else entry v r))
      × (entry v (set_last_recovery_at u at r)
          ≡ (if text_eq u v then record (entry v r) { last_recovery_at = some at } else entry v r))
      × (entry v (set_recovery_in_flight u p r)
          ≡ (if text_eq u v then record (entry v r) { recovery_in_flight = p } else entry v r))
      × (entry v (forget u r) ≡ (if text_eq u v then empty_entry else entry v r))
unfolding mark_answered set_last_recovery_at set_recovery_in_flight forget entry
entry-write u v at p r =
    let was = or_empty (get u r) in
    (
      get-write u v (record was { has_answered = true }) (λ e. record e { has_answered = true }) r
          refl,
      get-write u v (record was { last_recovery_at = some at })
          (λ e. record e { last_recovery_at = some at }) r refl,
      get-write u v (record was { recovery_in_flight = p })
          (λ e. record e { recovery_in_flight = p }) r refl,
      ground (arith, get-delete v u r),
    )

-- The same, field by field, for the readers.
pub last_recovery_at-write :
    (u v : Text) (at : ℕ) (p : Option ℕ) (r : Registry)
    → (last_recovery_at v (mark_answered u r) ≡ last_recovery_at v r)
      × (last_recovery_at v (set_last_recovery_at u at r)
          ≡ (if text_eq u v then some at else last_recovery_at v r))
      × (last_recovery_at v (set_recovery_in_flight u p r) ≡ last_recovery_at v r)
unfolding last_recovery_at entry
last_recovery_at-write u v at p r =
    let (marked, set_last, set_flight, _) = entry-write u v at p r in
    (ground (arith, marked), ground (arith, set_last), ground (arith, set_flight))

pub recovery_in_flight-write :
    (u v : Text) (at : ℕ) (p : Option ℕ) (r : Registry)
    → (recovery_in_flight v (mark_answered u r) ≡ recovery_in_flight v r)
      × (recovery_in_flight v (set_last_recovery_at u at r) ≡ recovery_in_flight v r)
      × (recovery_in_flight v (set_recovery_in_flight u p r)
          ≡ (if text_eq u v then p else recovery_in_flight v r))
unfolding recovery_in_flight entry
recovery_in_flight-write u v at p r =
    let (marked, set_last, set_flight, _) = entry-write u v at p r in
    (ground (arith, marked), ground (arith, set_last), ground (arith, set_flight))
