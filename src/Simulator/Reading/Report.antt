-- ===== src/Simulator/Reading/Report.antt =====
-- What a read under recovery does and answers, on every path.
use simgadget.Prelude.{
  suc, ◌+◌, ◌≤◌, ◌<◌, ◌≡◌, ◌⊎◌, refl, sym, ◌∙◌, inl, inr, Bool, true, false, some, Option, arith,
  Bool-cases,
}
use simgadget.Prelude.Text.{Text}
use simgadget.Ax.Recovery.Laws.{should_recover_iff}
use simgadget.Ax.Recovery.{is_wedge_error, should_recover}
use simgadget.Simulator.Recovery.{recovery_cooldown_ms, since}
use simgadget.Simulator.Reading.{
  error, Outside, Handle, Outcome, done, failed, not_answering, recover, retry, after_read,
  with_accessibility_recovery, recovered_or_not, read_attempts,
}
use simgadget.Simulator.Reading.Probing.{Due, recover-total}
use simgadget.Simulator.Reading.Retrying.{Tells, Wedged, Reply-cases, retry-Retried}

module _ {ℓ} {A : Type ℓ} (o : Outside A) where
  pub record Report (h h' : Handle) (out : Outcome A) : Type ℓ where
    pub later : h.now ≤ h'.now
    pub some_read : h.reads < h'.reads
    pub few_reads : h'.reads ≤ h.reads + 4
    pub restarts : (h'.restarts ≡ h.restarts) ⊎ (h'.restarts ≡ suc h.restarts)
    pub earned : h'.restarts ≡ suc h.restarts → (h.answered ≡ true) × Due o (after_read o h)
    pub tells : Tells o h h' out

  -- A read that ends without a restart.
  unrestarted-Report :
      (h : Handle) (out : Outcome A)
      → Tells o h (after_read o h) out
      → Report h (after_read o h) out
  unrestarted-Report h out tells = record {
    later = omega arith;
    some_read = omega arith;
    few_reads = omega arith;
    restarts = inl refl;
    earned = λ e. absurd (omega arith);
    tells = tells;
  }

  module _ (h : Handle) where
    abbrev asked : Handle
    asked = after_read o h

    -- What is to be shown of a read, under the name of what it gives.
    abbrev Reported : Option (Handle × Outcome A) → Type ℓ
    Reported given = (h' : Handle) × (out : Outcome A) × (given ≡ some (h', out)) × Report h h' out

    finished-Report :
        (h₁ : Handle) (b : Bool)
        → h.now ≤ h₁.now
        → h₁.restarts ≡ suc h.restarts
        → h₁.reads ≡ suc h.reads
        → (h.answered ≡ true) × Due o asked
        → Wedged o h₁
        → Reported (recovered_or_not o (some (h₁, b)))
    unfolding recovered_or_not
    finished-Report h₁ false later restarts reads earned (k, e, last, met, wedge) = (
      h₁,
      not_answering true,
      refl,
      record {
        later = later;
        some_read = omega (arith, reads);
        few_reads = omega (arith, reads);
        restarts = inr restarts;
        earned = λ _. earned;
        tells = (k, e, last, met, wedge, (λ _. restarts, λ _. refl));
      },
    )
    finished-Report h₁ true later restarts reads earned w =
        let r = retry-Retried o h read_attempts h₁ restarts w in
        (
          (retry o read_attempts h₁).0,
          (retry o read_attempts h₁).1,
          refl,
          record {
            later = omega (arith, later, r.later);
            some_read = omega (arith, reads, r.more);
            few_reads = omega (arith, reads, r.few);
            restarts = inr (r.restarts ∙ restarts);
            earned = λ _. earned;
            tells = r.tells;
          },
        )

    -- A restart that is due, and what follows it.
    restarted-Report :
        (e : Text)
        → o.read h.reads ≡ error e
        → is_wedge_error e ≡ true
        → (h.answered ≡ true) × Due o asked
        → Reported (recovered_or_not o (recover o asked))
    restarted-Report e got wedge earned =
        let (h₁, b, found, later, reads, restarts) = recover-total o asked earned.1 in
        rw found (
          finished-Report h₁ b (omega (arith, later)) restarts (omega (arith, reads)) earned
            (h.reads, e, sym reads, got, wedge))

    -- A read that met the wedge.
    wedged-Report :
        (e : Text)
        → o.read h.reads ≡ error e
        → is_wedge_error e ≡ true
        → Reported (with_accessibility_recovery o h)
    unfolding with_accessibility_recovery
    wedged-Report e got wedge =
        elim (Bool-cases
          (should_recover h.answered e (since asked.now h.last) recovery_cooldown_ms)) [
            | inr refused ↦ (
              asked,
              not_answering false,
              rw (got, with_accessibility_recovery) (rw (wedge, refused) refl),
              unrestarted-Report h (not_answering false)
                  (h.reads, e, refl, got, wedge, (λ e. cc, λ e. absurd (omega arith))),
            )
            | inl decided ↦
                let (_, before, due) =
                  (should_recover_iff h.answered e (since asked.now h.last) recovery_cooldown_ms).0
                    decided in
                rw (got, with_accessibility_recovery)
                  (rw (wedge, decided) (restarted-Report e got wedge (before, due)))
          ]

  -- A read under recovery comes to an end, after at least one and at most four reads and at most one
  -- restart, and that only for a simulator that has answered before and whose last restart is a
  -- cooldown ago. What it gives is what its last read gave, a value or an error that is not the
  -- wedge's; or, where the last read met the wedge, that the simulator does not answer, with whether
  -- a restart was ordered.
  pub with_accessibility_recovery-Report :
      (h : Handle)
      → (h' : Handle) × (out : Outcome A) × (with_accessibility_recovery o h ≡ some (h', out))
        × Report h h' out
  unfolding with_accessibility_recovery
  with_accessibility_recovery-Report h = elim (Reply-cases o (o.read h.reads)) [
    | inl (a, got) ↦ (
      after_read o h,
      done a,
      rw (got, with_accessibility_recovery) refl,
      unrestarted-Report h (done a) (h.reads, refl, got),
    )
    | inr (e, got) ↦ elim (Bool-cases (is_wedge_error e)) [
      | inl wedge ↦ wedged-Report h e got wedge
      | inr other ↦ (
        after_read o h,
        failed e,
        rw (got, with_accessibility_recovery) (rw other refl),
        unrestarted-Report h (failed e) (h.reads, refl, got, other),
      )
    ]
  ]
