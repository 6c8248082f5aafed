-- ===== src/Idb/Calling/Laws.antt =====
-- How often the work of a call is done, and on what.
use simgadget.Prelude.{
  ℕ, suc, ◌≤◌, ◌≡◌, ◌⊎◌, refl, inl, inr, if◌then◌else◌, Bool, true, false, List, [], ◌∷◌, arith,
  Bool-cases,
}
use simgadget.Prelude.Run.{Reply, value, throws, Run, act, after, and_then}
use simgadget.Idb.Calling.{
  Failure, Outside, Act, asks, works, retires, is_dead_channel, caught, with_client,
}

abbrev pub work_count : List Act → ℕ
work_count [] = 0
work_count (works g ∷ acts) = suc (work_count acts)
work_count (_ ∷ acts) = work_count acts

module _ {ℓ} {A : Type ℓ} (o : Outside A) where
  -- The ways a call can go: what is done, in order, and how it ends.
  pub data Course (exclusive : Bool) : Run Act Failure A → Type ℓ where
    no_companion :
        (e : Failure)
        → o.first_companion ≡ throws e
        → Course exclusive (record { acts = asks ∷ []; ended = throws e })
    worked :
        (g : ℕ) (a : A)
        → o.first_work g ≡ value a
        → Course exclusive (record { acts = asks ∷ works g ∷ []; ended = value a })
    gave_up :
        (g : ℕ) (e : Failure)
        → o.first_work g ≡ throws e
        → (exclusive ≡ true) ⊎ (is_dead_channel o g e ≡ false)
        → Course exclusive (record { acts = asks ∷ works g ∷ []; ended = throws e })
    no_second :
        (g : ℕ) (e f : Failure)
        → exclusive ≡ false
        → o.first_work g ≡ throws e
        → is_dead_channel o g e ≡ true
        → o.second_companion ≡ throws f
        → Course exclusive
            (record { acts = asks ∷ works g ∷ retires g ∷ asks ∷ []; ended = throws f })
    retried :
        (g h : ℕ) (e : Failure)
        → exclusive ≡ false
        → o.first_work g ≡ throws e
        → is_dead_channel o g e ≡ true
        → o.second_companion ≡ value h
        → Course exclusive (record {
          acts = asks ∷ works g ∷ retires g ∷ asks ∷ works h ∷ [];
          ended = o.second_work h;
        })

  revived-Course :
      (g : ℕ) (e : Failure) (second : Reply Failure ℕ)
      → o.first_work g ≡ throws e
      → is_dead_channel o g e ≡ true
      → o.second_companion ≡ second
      → Course false (
          after
            (asks ∷ works g ∷ retires g ∷ [])
            (and_then (act asks second) λ h. act (works h) (o.second_work h)))
  revived-Course g e (throws f) failed dead none_there = no_second g e f refl failed dead none_there
  revived-Course g e (value h) failed dead there = retried g h e refl failed dead there

  caught-Course :
      (exclusive : Bool) (g : ℕ) (first : Reply Failure A)
      → o.first_work g ≡ first
      → Course exclusive (after (asks ∷ works g ∷ []) (caught o exclusive g first))
  unfolding caught
  caught-Course exclusive g (value a) e = worked g a e
  caught-Course true g (throws f) e = gave_up g f e (inl refl)
  caught-Course false g (throws f) e = elim (Bool-cases (is_dead_channel o g f)) [
    | inr alive ↦ rw alive (gave_up g f e (inr alive))
    | inl dead ↦ rw dead (revived-Course g f o.second_companion e dead refl)
  ]

  begun-Course :
      (exclusive : Bool) (first : Reply Failure ℕ)
      → o.first_companion ≡ first
      → Course exclusive (
          and_then
            (act asks first)
            λ g. after (works g ∷ []) (caught o exclusive g (o.first_work g)))
  begun-Course exclusive (throws f) e = no_companion f e
  begun-Course exclusive (value g) e = caught-Course exclusive g (o.first_work g) refl

  Course-count :
      (exclusive : Bool) {r : Run Act Failure A}
      → Course exclusive r
      → work_count r.acts ≤ (if exclusive then 1 else 2)
  Course-count true (no_companion e at) = omega arith
  Course-count false (no_companion e at) = omega arith
  Course-count true (worked g a at) = omega arith
  Course-count false (worked g a at) = omega arith
  Course-count true (gave_up g e at why) = omega arith
  Course-count false (gave_up g e at why) = omega arith
  Course-count true (no_second g e f shared at dead none_there) = absurd (ground arith)
  Course-count false (no_second g e f shared at dead none_there) = omega arith
  Course-count true (retried g h e shared at dead there) = absurd (ground arith)
  Course-count false (retried g h e shared at dead there) = omega arith

  -- A call goes one of the five ways: there is no companion; the work succeeds; it fails, and the call
  -- is exclusive or the channel is alive, and then the error is the work's own; or the call is not
  -- exclusive and the channel is dead, and then the companion that failed is retired, another is asked
  -- for, and the work is done once more on that one, with its outcome. So exclusive work is done at
  -- most once and other work at most twice.
  pub with_client-Course :
      (exclusive : Bool)
      → Course exclusive (with_client o exclusive)
        × (work_count (with_client o exclusive).acts ≤ (if exclusive then 1 else 2))
  unfolding with_client
  with_client-Course exclusive =
      let c = begun-Course exclusive o.first_companion refl in (c, Course-count exclusive c)
