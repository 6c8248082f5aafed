-- ===== src/Simulator/Calls/Acts.antt =====
-- What holds of all that a call does.
use simgadget.Prelude.{◌≡◌, refl, Bool, All, inl, inr, Bool-cases}
use simgadget.Prelude.Text.{Text}
use simgadget.Prelude.Run.{Reply, Reply-cases, value, throws}
use simgadget.Ax.Recovery.{is_wedge_error}
use simgadget.Simulator.Calls.{
  Host, Request, Act, asks, runs, Failure, message_of, with_client, ask_device, or_blamed, blamed,
  listing_args, xcrun, resolved,
}

module _ {κ} (P : Act → Type κ) (host : Host) (udid : Text)
    (lists : P (runs xcrun listing_args)) where
  pub ask_device-All : All P (ask_device host udid).acts
  ask_device-All = elim (Reply-cases (host.run xcrun listing_args)) [
    | inl (stdout, printed) ↦ rw (printed) (elim (Reply-cases (host.parse stdout)) [
      | inl (listing, parsed) ↦ rw (parsed) (lists, tt)
      | inr (message, bad) ↦ rw (bad) (lists, tt)
    ])
    | inr (message, bad) ↦ rw (bad) (lists, tt)
  ]

  pub or_blamed-All {ℓ} :
      {A : Type ℓ} (reply : Reply Failure A) → All P (or_blamed host udid reply).acts
  or_blamed-All (value a) = tt
  or_blamed-All (throws error) = elim (Bool-cases (is_wedge_error (message_of host error))) [
    | inl wedge ↦ rw (wedge) tt
    | inr no_wedge ↦ rw (no_wedge) ask_device-All
  ]

  pub with_client-All {ℓ} :
      {A : Type ℓ} (request : Request) (exclusive : Bool) (reply : Reply Failure A)
      → P (asks request exclusive)
      → All P (with_client host udid request exclusive reply).acts
  unfolding with_client
  with_client-All request exclusive reply first = (first, or_blamed-All reply)

-- Blame is always an error.
pub blamed-throws {ℓ} :
    {A : Type ℓ} (host : Host) (udid : Text) (error : Failure)
    → (f : Failure) × ((blamed host {A = A} udid error).ended ≡ throws f)
blamed-throws host udid error = elim (Bool-cases (is_wedge_error (message_of host error))) [
  | inl wedge ↦ (error, rw (wedge) refl)
  | inr no_wedge ↦ (resolved error (ask_device host udid).ended, rw (no_wedge) refl)
]
