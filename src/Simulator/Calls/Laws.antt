-- ===== src/Simulator/Calls/Laws.antt =====
-- How the failure of a companion is reported.
use simgadget.Prelude.{
  ◌≡◌, Bool, true, false, List, [], ◌∷◌, none, some, inl, inr, Bool-cases, Option-cases,
}
use simgadget.Prelude.Text.{Text}
use simgadget.Prelude.Run.{Reply, Reply-cases, value, throws}
use simgadget.Ax.Recovery.{is_wedge_error}
use simgadget.Lifecycle.Devices.{Listing, find_device, SimInfo}
use simgadget.Simulator.Calls.{
  Host, Request, Act, asks, runs, Failure, not_found, message_of, with_client, ask_device, blamed,
  resolved, listing_args, xcrun,
}

-- How a call ends, and what it does, by what the companion replied.
pub data Course {ℓ} {A : Type ℓ} (host : Host) (udid : Text) (first : Act)
    : Reply Failure A → List Act → Reply Failure A → Type ℓ where
  answered : (a : A) → Course host udid first (value a) (first ∷ []) (value a)
  wedged :
      (error : Failure)
      → is_wedge_error (message_of host error) ≡ true
      → Course host udid first (throws error) (first ∷ []) (throws error)
  gone :
      (error : Failure) (stdout : Text) (listing : Listing)
      → is_wedge_error (message_of host error) ≡ false
      → host.run xcrun listing_args ≡ value stdout
      → host.parse stdout ≡ value listing
      → find_device listing udid ≡ none
      → Course host udid first
          (throws error)
          (first ∷ runs xcrun listing_args ∷ [])
          (throws not_found)
  still_there :
      (error : Failure) (stdout : Text) (listing : Listing) (device : SimInfo)
      → is_wedge_error (message_of host error) ≡ false
      → host.run xcrun listing_args ≡ value stdout
      → host.parse stdout ≡ value listing
      → find_device listing udid ≡ some device
      → Course host udid first (throws error) (first ∷ runs xcrun listing_args ∷ []) (throws error)
  unprinted :
      (error : Failure) (message : Text)
      → is_wedge_error (message_of host error) ≡ false
      → host.run xcrun listing_args ≡ throws message
      → Course host udid first (throws error) (first ∷ runs xcrun listing_args ∷ []) (throws error)
  unparsed :
      (error : Failure) (stdout message : Text)
      → is_wedge_error (message_of host error) ≡ false
      → host.run xcrun listing_args ≡ value stdout
      → host.parse stdout ≡ throws message
      → Course host udid first (throws error) (first ∷ runs xcrun listing_args ∷ []) (throws error)

module _ {ℓ} {A : Type ℓ} (host : Host) (udid : Text) (first : Act) where
  gone_or_not :
      (error : Failure) (stdout : Text) (listing : Listing)
      → is_wedge_error (message_of host error) ≡ false
      → host.run xcrun listing_args ≡ value stdout
      → host.parse stdout ≡ value listing
      → Course {A = A} host udid first
          (throws error)
          (first ∷ runs xcrun listing_args ∷ [])
          (throws (resolved error (value (find_device listing udid))))
  gone_or_not error stdout listing no_wedge printed parsed =
      elim (Option-cases (find_device listing udid)) [
        | inl missing ↦ rw (missing) (gone error stdout listing no_wedge printed parsed missing)
        | inr (device, found) ↦
            rw (found) (still_there error stdout listing device no_wedge printed parsed found)
      ]

  printed-Course :
      (error : Failure) (stdout : Text)
      → is_wedge_error (message_of host error) ≡ false
      → host.run xcrun listing_args ≡ value stdout
      → let asked = ask_device host udid in
        Course {A = A} host udid first
          (throws error)
          (first ∷ asked.acts)
          (throws (resolved error asked.ended))
  printed-Course error stdout no_wedge printed = elim (Reply-cases (host.parse stdout)) [
    | inl (listing, parsed) ↦
        rw (printed, parsed) (gone_or_not error stdout listing no_wedge printed parsed)
    | inr (message, bad) ↦ rw (printed, bad) (unparsed error stdout message no_wedge printed bad)
  ]

  blamed-Course :
      (error : Failure)
      → let r = blamed host {A = A} udid error in
        Course host udid first (throws error) (first ∷ r.acts) r.ended
  blamed-Course error = elim (Bool-cases (is_wedge_error (message_of host error))) [
    | inl wedge ↦ rw (wedge) (wedged error wedge)
    | inr no_wedge ↦ rw (no_wedge) (elim (Reply-cases (host.run xcrun listing_args)) [
      | inl (stdout, printed) ↦ printed-Course error stdout no_wedge printed
      | inr (message, bad) ↦ rw (bad) (unprinted error message no_wedge bad)
    ])
  ]

-- A call of a companion for a simulator, however it goes. Its error stands as it came, except where
-- it is none of a wedged bridge and simctl, asked for its devices then, prints a list without the
-- simulator: then, and only then, it is replaced by `SimulatorNotFoundError`. Simctl is not asked at all
-- where the call succeeded or the bridge is wedged.
pub call-Course {ℓ} :
    {A : Type ℓ} (host : Host) (udid : Text) (request : Request) (exclusive : Bool)
    (reply : Reply Failure A)
    → let r = with_client host udid request exclusive reply in
      Course host udid (asks request exclusive) reply r.acts r.ended
unfolding with_client
call-Course host udid request exclusive (value a) = answered a
call-Course host udid request exclusive (throws error) =
    blamed-Course host udid (asks request exclusive) error
