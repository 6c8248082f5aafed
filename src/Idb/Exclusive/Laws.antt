-- ===== src/Idb/Exclusive/Laws.antt =====
-- Exclusive calls for one simulator run one at a time, in the order in which they came.
use mathlib.Core.Path.{subst}
use simgadget.Prelude.{
  ℕ, zero, suc, ◌≤◌, ◌<◌, ◌≡◌, ◌≢◌, ◌⊎◌, refl, ◌∙◌, inl, inr, true, List, some, arith, Option-cases,
}
use simgadget.Idb.Exclusive.{
  Progress, absent, waiting, running, settled, Chains, new_chains, is_free, Event, step, run,
  starts,
}
use simgadget.Idb.Exclusive.Order.{HasStarted, Inv, run-Inv}

-- Two exclusive calls for one simulator never run together, and one that came later has not started
-- before an earlier one has ended, with a value or with an error.
pub exclusive_in_order :
    (es : List Event) (i j : ℕ)
    → let c = run new_chains es in
      i < j
      → (c.jobs i).udid ≡ (c.jobs j).udid
      → (c.jobs i).progress ≢ absent
      → HasStarted (c.jobs j).progress
      → (c.jobs i).progress ≡ settled
exclusive_in_order es i j lt same there begun =
    (run-Inv es).in_order i j lt (same, there, (λ e. subst HasStarted e begun)) begun

-- What lets a waiting call go on: an earlier call of the simulator runs, or it or an earlier one is
-- free to start, and starts when it is run next.
abbrev pub Moving : Chains → ℕ → Type 0
Moving c j =
    (i : ℕ) × (i ≤ j)
    × ((c.jobs i).udid ≡ (c.jobs j).udid)
    × (((c.jobs i).progress ≡ running)
        ⊎ (((c.jobs i).progress ≡ waiting) × (((step c (starts i)).jobs i).progress ≡ running)))

starts-free :
    (c : Chains) (i : ℕ)
    → (c.jobs i).progress ≡ waiting
    → is_free (c.jobs i).after c ≡ true
    → ((step c (starts i)).jobs i).progress ≡ running
unfolding step
starts-free c i wait free = ground arith

-- The call just before, by how far it has come.
Moving-by :
    (c : Chains) (j i : ℕ) (p : Progress)
    → Inv c
    → (c.jobs j).progress ≡ waiting
    → (c.jobs j).after ≡ some i
    → (c.jobs i).progress ≡ p
    → (p ≡ waiting → Moving c i)
    → Moving c j
Moving-by c j i absent inv wait e at earlier = ground (arith, inv.prior j i e)
Moving-by c j i settled inv wait e at earlier =
    (j, omega arith, refl, inr (wait, starts-free c j wait (rw e (rw at refl))))
Moving-by c j i running inv wait e at earlier =
    let (lt, (same, _, _)) = inv.prior j i e in (i, omega arith, same, inl at)
Moving-by c j i waiting inv wait e at earlier =
    let (lt, (same, _, _)) = inv.prior j i e in
    let (k, le, alike, moves) = earlier refl in (k, omega arith, alike ∙ same, moves)

Moving-below : (c : Chains) (n j : ℕ) → Inv c → j < n → (c.jobs j).progress ≡ waiting → Moving c j
Moving-below c zero j inv lt wait = absurd (omega arith)
Moving-below c (suc n) j inv lt wait = elim (Option-cases (c.jobs j).after) [
  | inl first ↦ (j, omega arith, refl, inr (wait, starts-free c j wait (rw first refl)))
  | inr (i, e) ↦
      Moving-by c j i (c.jobs i).progress inv wait e refl
        (λ at. Moving-below c n i inv (omega (arith, (inv.prior j i e).0)) at)
]

-- No exclusive call waits in vain: at any time, for each one that waits, some call of its simulator
-- that came no later runs, or waits and can start at once. A call that failed holds none up.
pub waiting_call_moves :
    (es : List Event) (j : ℕ)
    → ((run new_chains es).jobs j).progress ≡ waiting
    → Moving (run new_chains es) j
waiting_call_moves es j wait =
    Moving-below (run new_chains es) (suc j) j (run-Inv es) (omega arith) wait
