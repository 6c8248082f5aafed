-- ===== src/Simulator/Reading/Retrying.antt =====
-- The reads that follow a restart that helped.
use simgadget.Prelude.{
  ℕ, zero, suc, ◌+◌, ◌≤◌, ◌≡◌, ◌↔◌, ◌⊎◌, refl, inl, inr, true, false, arith, Bool-cases,
}
use simgadget.Prelude.Text.{Text}
use simgadget.Ax.Recovery.{is_wedge_error}
use simgadget.Simulator.Reading.{
  Reply, value, error, Outside, Handle, Outcome, done, failed, not_answering, retry, after_read,
  read_delay_ms,
}

module _ {ℓ} {A : Type ℓ} (o : Outside A) where
  -- The outcome is what the last read gave: its value, its own error where that is not the wedge's,
  -- and else that the simulator does not answer, with whether a restart was ordered.
  abbrev pub Tells : Handle → Handle → Outcome A → Type ℓ
  Tells h h' (done a) = (k : ℕ) × (suc k ≡ h'.reads) × (o.read k ≡ value a)
  Tells h h' (failed e) =
      (k : ℕ) × (suc k ≡ h'.reads) × (o.read k ≡ error e) × (is_wedge_error e ≡ false)
  Tells h h' (not_answering tried) =
      (k : ℕ) × (e : Text) × (suc k ≡ h'.reads)
      × (o.read k ≡ error e)
      × (is_wedge_error e ≡ true)
      × ((tried ≡ true) ↔ (h'.restarts ≡ suc h.restarts))

  -- The last read met the wedge.
  abbrev pub Wedged : Handle → Type ℓ
  Wedged h =
      (k : ℕ) × (e : Text) × (suc k ≡ h.reads) × (o.read k ≡ error e) × (is_wedge_error e ≡ true)

  pub record Retried (h₀ h h' : Handle) (out : Outcome A) (left : ℕ) : Type ℓ where
    pub later : h.now ≤ h'.now
    pub more : h.reads ≤ h'.reads
    pub few : h'.reads ≤ h.reads + left
    pub restarts : h'.restarts ≡ h.restarts
    pub tells : Tells h₀ h' out

  pub Reply-cases : (r : Reply A) → ((a : A) × (r ≡ value a)) ⊎ ((e : Text) × (r ≡ error e))
  Reply-cases (value a) = inl (a, refl)
  Reply-cases (error e) = inr (e, refl)

  pub retry-Retried :
      (h₀ : Handle) (left : ℕ) (h : Handle)
      → h.restarts ≡ suc h₀.restarts
      → Wedged h
      → Retried h₀ h (retry o left h).0 (retry o left h).1 left
  unfolding retry
  retry-Retried h₀ zero h tried (k, e, last, met, wedge) = record {
    later = omega arith;
    more = omega arith;
    few = omega arith;
    restarts = refl;
    tells = (k, e, last, met, wedge, (λ _. tried, λ _. refl));
  }
  retry-Retried h₀ (suc left) h tried w = elim (Reply-cases (o.read h.reads)) [
    | inl (a, got) ↦
        rw (got, retry)
          (record {
            later = omega arith;
            more = omega arith;
            few = omega arith;
            restarts = refl;
            tells = (h.reads, refl, got);
          })
    | inr (e, got) ↦ elim (Bool-cases (is_wedge_error e)) [
      | inr other ↦
          rw (got, retry)
            (rw other (record {
              later = omega arith;
              more = omega arith;
              few = omega arith;
              restarts = refl;
              tells = (h.reads, refl, got, other);
            }))
      | inl wedge ↦
          let asked = after_read o (record h { now = h.now + read_delay_ms }) in
          let r = retry-Retried h₀ left asked tried (h.reads, e, refl, got, wedge) in
          rw (got, retry)
            (rw wedge (record {
              later = omega (arith, r.later);
              more = omega (arith, r.more);
              few = omega (arith, r.few);
              restarts = r.restarts;
              tells = r.tells;
            }))
    ]
  ]
