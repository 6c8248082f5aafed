-- ===== src/Idb/Exclusive/Order.antt =====
-- What holds of the chains of exclusive calls at any time.
use simgadget.Prelude.{
  ℕ, ◌≤◌, ◌<◌, ◌≡◌, ◌≢◌, ◌⊎◌, refl, inl, inr, Bool, true, false, List, [], ◌∷◌, Option, none, some,
  arith, Option-cases,
}
use simgadget.Prelude.Text.{Text, text_eq_iff}
use simgadget.Prelude.Dict.{Dict, get, get-put, get-delete}
use simgadget.Idb.Companions.{update}
use simgadget.Idb.Exclusive.{
  Progress, absent, waiting, running, settled, Job, no_job, Chains, new_chains, exclusively,
  is_free, started, ended, dropped, drop_if, Event, enqueues, starts, ends, drops, step, run,
}

abbrev pub Same : Job → Job → Type 0
Same i j = (i.udid ≡ j.udid) × (i.progress ≢ absent) × (j.progress ≢ absent)

abbrev pub HasStarted : Progress → Type 0
HasStarted absent = ⊥
HasStarted waiting = ⊥
HasStarted running = Unit
HasStarted settled = Unit

pub record Inv (c : Chains) : Type 0 where
  pub fresh : (j : ℕ) → c.next ≤ j → c.jobs j ≡ no_job
  pub prior : (j i : ℕ) → (c.jobs j).after ≡ some i → (i < j) × Same (c.jobs i) (c.jobs j)
  pub behind_none :
      (j k : ℕ)
      → k < j
      → Same (c.jobs k) (c.jobs j)
      → (c.jobs j).after ≡ none
      → (c.jobs k).progress ≡ settled
  pub behind_some :
      (j k i : ℕ) → k < j → Same (c.jobs k) (c.jobs j) → (c.jobs j).after ≡ some i → k ≤ i
  pub in_order :
      (i j : ℕ)
      → i < j
      → Same (c.jobs i) (c.jobs j)
      → HasStarted (c.jobs j).progress
      → (c.jobs i).progress ≡ settled
  pub tail :
      (udid : Text) (t : ℕ)
      → get udid c.locks ≡ some t
      → ((c.jobs t).udid ≡ udid) × ((c.jobs t).progress ≢ absent)
  pub last :
      (udid : Text) (t k : ℕ)
      → get udid c.locks ≡ some t
      → (c.jobs k).udid ≡ udid
      → (c.jobs k).progress ≢ absent
      → k ≤ t
  pub free :
      (udid : Text) (k : ℕ)
      → get udid c.locks ≡ none
      → (c.jobs k).udid ≡ udid
      → (c.jobs k).progress ≢ absent
      → (c.jobs k).progress ≡ settled

enqueue-Inv : (c : Chains) (udid : Text) → Inv c → Inv (exclusively udid c)
unfolding exclusively
enqueue-Inv c udid inv = record {
  fresh = λ j le. ground (arith, inv.fresh j);
  prior = λ j i e. ground (arith, inv.prior j i, inv.fresh c.next, inv.fresh i, inv.tail udid i);
  behind_none = λ j k lt same e.
      ground (arith, inv.behind_none j k, inv.free udid k, inv.fresh j, inv.fresh k);
  behind_some = λ j k i lt same e.
      ground (arith, inv.behind_some j k i, inv.last udid i k, inv.fresh j, inv.fresh k);
  in_order = λ i j lt same e. ground (arith, inv.in_order i j, inv.fresh j);
  tail = λ u t e.
      ground (arith, inv.tail u t, inv.fresh t, get-put u udid c.next c.locks, text_eq_iff udid u);
  last = λ u t k e f p.
      ground
        (arith, inv.last u t k, inv.fresh k, get-put u udid c.next c.locks, text_eq_iff udid u);
  free =
      λ u k e f p. ground (arith, inv.free u k, get-put u udid c.next c.locks, text_eq_iff udid u);
}

-- A call's own progress, from `p` on.
record Onward (p p' : Progress) : Type 0 where
  there : p ≢ absent → p' ≢ absent
  absent_still : p ≡ absent → p' ≡ absent
  settled_still : p ≡ settled → p' ≡ settled

-- All calls before one that waits for nothing have settled.
free_order :
    (c : Chains) (j k : ℕ)
    → Inv c
    → k < j
    → Same (c.jobs k) (c.jobs j)
    → is_free (c.jobs j).after c ≡ true
    → (c.jobs k).progress ≡ settled
free_order c j k inv lt same is_free_now = elim (Option-cases (c.jobs j).after) [
  | inl first ↦ inv.behind_none j k lt same first
  | inr (i, e) ↦ ground (arith, inv.behind_some j k i lt same e, inv.prior j i e, inv.in_order k i)
]

progress-Inv :
    (c : Chains) (j : ℕ) (p' : Progress)
    → Inv c
    → Onward (c.jobs j).progress p'
    → (HasStarted p' → HasStarted (c.jobs j).progress ⊎ (is_free (c.jobs j).after c ≡ true))
    → Inv (record c { jobs = update c.jobs j (record (c.jobs j) { progress = p' }) })
progress-Inv c j p' inv on start = record {
  fresh = λ k le. ground (arith, inv.fresh k, inv.fresh j, on.absent_still);
  prior = λ k i e. ground (arith, inv.prior k i, on.there);
  behind_none =
      λ k i lt same e. ground (arith, inv.behind_none k i, on.absent_still, on.settled_still);
  behind_some = λ k l i lt same e. ground (arith, inv.behind_some k l i, on.absent_still);
  in_order = λ i k lt same e.
      ground
        (arith, inv.in_order i k, start, free_order c j i inv, on.absent_still, on.settled_still);
  tail = λ u t e. ground (arith, inv.tail u t, on.there);
  last = λ u t k e f p. ground (arith, inv.last u t k, on.absent_still);
  free = λ u k e f p. ground (arith, inv.free u k, on.absent_still, on.settled_still);
}

started-Onward : (p : Progress) (free : Bool) → Onward p (started p free)
started-Onward waiting true = ground arith
started-Onward waiting false = ground arith
started-Onward _ free = ground arith

started_free :
    (p : Progress) (free : Bool) → HasStarted (started p free) → HasStarted p ⊎ (free ≡ true)
started_free waiting true h = inr refl
started_free waiting false h = absurd h
started_free absent free h = absurd h
started_free running free h = inl tt
started_free settled free h = inl tt

ended-Onward : (p : Progress) → Onward p (ended p)
ended-Onward p = ground arith

ended_started : (p : Progress) → HasStarted (ended p) → HasStarted p
ended_started absent h = absurd h
ended_started waiting h = absurd h
ended_started running h = tt
ended_started settled h = tt

dropped-lookup :
    (j : ℕ) (u v : Text) (o : Option ℕ) (locks : Dict ℕ) (t : ℕ)
    → get u locks ≡ o
    → get v (dropped j o u locks) ≡ some t
    → get v locks ≡ some t
dropped-lookup j u v none locks t e h = h
dropped-lookup j u v (some l) locks t e h = ground (arith, get-delete v u locks)

-- A lock that is gone was gone before, or was the tail that is dropped.
dropped-free :
    (j : ℕ) (u v : Text) (o : Option ℕ) (locks : Dict ℕ)
    → get u locks ≡ o
    → get v (dropped j o u locks) ≡ none
    → (get v locks ≡ none) ⊎ (get v locks ≡ some j)
dropped-free j u v none locks e h = inl h
dropped-free j u v (some l) locks e h = ground (arith, get-delete v u locks, text_eq_iff u v)

drop_if-Inv :
    (c : Chains) (j : ℕ) (p : Progress) → Inv c → (c.jobs j).progress ≡ p → Inv (drop_if p j c)
drop_if-Inv c j settled inv done = record {
  fresh = inv.fresh;
  prior = inv.prior;
  behind_none = inv.behind_none;
  behind_some = inv.behind_some;
  in_order = inv.in_order;
  tail = λ u t e. inv.tail u t (dropped-lookup j _ u _ c.locks t refl e);
  last = λ u t k e f p. inv.last u t k (dropped-lookup j _ u _ c.locks t refl e) f p;
  free = λ u k e f p. elim (dropped-free j _ u _ c.locks refl e) [
    | inl before ↦ inv.free u k before f p
    | inr was ↦ ground (arith, inv.last u j k was f p, inv.tail u j was, inv.in_order k j)
  ];
}
drop_if-Inv c j _ inv done = inv

step-Inv : (c : Chains) (e : Event) → Inv c → Inv (step c e)
unfolding step
step-Inv c (enqueues udid) inv = enqueue-Inv c udid inv
step-Inv c (starts j) inv = progress-Inv c j _ inv (started-Onward _ _) (λ h. started_free _ _ h)
step-Inv c (ends j) inv = progress-Inv c j _ inv (ended-Onward _) (λ h. inl (ended_started _ h))
step-Inv c (drops j) inv = drop_if-Inv c j _ inv refl

new_chains-Inv : Inv new_chains
unfolding get
new_chains-Inv = record {
  fresh = λ j le. refl;
  prior = λ j i e. ground arith;
  behind_none = λ j k lt same e. ground arith;
  behind_some = λ j k i lt same e. ground arith;
  in_order = λ i j lt same e. ground arith;
  tail = λ u t e. ground arith;
  last = λ u t k e f p. ground arith;
  free = λ u k e f p. ground arith;
}

run_from-Inv : (c : Chains) (es : List Event) → Inv c → Inv (run c es)
unfolding run
run_from-Inv c [] inv = inv
run_from-Inv c (e ∷ es) inv = run_from-Inv (step c e) es (step-Inv c e inv)

pub run-Inv : (es : List Event) → Inv (run new_chains es)
run-Inv es = run_from-Inv new_chains es new_chains-Inv
