-- ===== src/Idb/Calling.antt =====
-- packages/simgadget/src/idb/companionManager.ts: `withClient` and `isDeadChannel`, as one call runs
-- them. What `companionFor`, the work and the child answer is an argument.
pub mod Laws
use simgadget.Prelude.{ℕ, if◌then◌else◌, Bool, true, false, ◌||◌, [], ◌∷◌, Option, some, is_some}
use simgadget.Prelude.Text.{Text}
use simgadget.Prelude.Run.{Reply, value, throws, Run, done, act, after, and_then}

-- The statuses of gRPC that the code tells apart.
pub data Status : Type 0 where
  unavailable deadline_exceeded other_status : Status

-- An error, with its `code` where it has one.
pub record Failure : Type 0 where
  pub code : Option Status
  pub message : Text

-- What the first and the second `companionFor` give, by generation; what the work does on the client
-- of a generation, the first time and the second; and what the companion says of its child then.
pub record Outside {ℓ} (A : Type ℓ) : Type ℓ where
  pub first_companion : Reply Failure ℕ
  pub first_work : ℕ → Reply Failure A
  pub exited : ℕ → Bool
  pub exit_code : ℕ → Option ℕ
  pub second_companion : Reply Failure ℕ
  pub second_work : ℕ → Reply Failure A

pub data Act : Type 0 where
  asks : Act
  works retires : ℕ → Act

abbrev pub is_lost : Option Status → Bool
is_lost (some unavailable) = true
is_lost (some deadline_exceeded) = true
is_lost _ = false

module _ {ℓ} {A : Type ℓ} (o : Outside A) where
  unfoldable pub is_dead_channel : ℕ → Failure → Bool
  is_dead_channel g error = o.exited g || is_some (o.exit_code g) || is_lost error.code

  -- The second try, on another companion.
  abbrev pub revived : ℕ → Run Act Failure A
  revived g =
      after (retires g ∷ [])
        (and_then (act asks o.second_companion) λ h. act (works h) (o.second_work h))

  -- The `catch` of `withClient`.
  abbrev pub caught : Bool → ℕ → Reply Failure A → Run Act Failure A
  unfolding is_dead_channel
  caught exclusive g (value a) = done (value a)
  caught exclusive g (throws error) =
      if exclusive
      then done (throws error)
      else if is_dead_channel g error
      then revived g
      else done (throws error)

  -- `run` of `withClient`; the exclusive one is chained by `exclusively`.
  unfoldable pub with_client : Bool → Run Act Failure A
  unfolding is_dead_channel
  with_client exclusive =
      and_then (act asks o.first_companion)
        λ g. after (works g ∷ []) (caught exclusive g (o.first_work g))
