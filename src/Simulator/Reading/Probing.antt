-- ===== src/Simulator/Reading/Probing.antt =====
-- The probes after a restart come to an end within their fuel, and so does a restart.
use simgadget.Prelude.{
  ℕ, zero, suc, ◌+◌, ◌*◌, ◌≤◌, ◌<◌, ltb, ◌≡◌, refl, inl, inr, Bool, true, false, some, arith,
  Bool-cases,
}
use simgadget.Ax.Recovery.{at_least}
use simgadget.Simulator.Recovery.{recovery_cooldown_ms, since}
use simgadget.Simulator.Reading.{
  Outside, Handle, probe_until, recover, probe_timeout_ms, probe_interval_ms,
}

module _ {ℓ} {A : Type ℓ} (o : Outside A) where
  -- Only the clock and the probes have moved.
  pub record Probed (h h' : Handle) : Type 0 where
    pub later : h.now ≤ h'.now
    pub answered : h'.answered ≡ h.answered
    pub reads : h'.reads ≡ h.reads
    pub restarts : h'.restarts ≡ h.restarts

  probe_until-total :
      (fuel deadline : ℕ) (h : Handle)
      → 0 < fuel
      → deadline ≤ h.now + 1000 * fuel
      → (h' : Handle) × (b : Bool) × (probe_until o fuel deadline h ≡ some (h', b)) × Probed h h'
  unfolding probe_until
  probe_until-total zero deadline h pos enough = absurd (omega arith)
  probe_until-total (suc fuel) deadline h pos enough = elim (Bool-cases (o.probe h.probes)) [
    | inl up ↦ (probed, true, rw up refl, ground arith)
    | inr silent ↦ elim (Bool-cases (ltb probed.now deadline)) [
      | inl more ↦
          let (h', b, e, p) =
            probe_until-total fuel deadline probed (ground arith) (ground arith) in
          (
            h',
            b,
            rw (silent, more) e,
            record {
              later = omega (arith, p.later);
              answered = p.answered;
              reads = p.reads;
              restarts = p.restarts;
            },
          )
      | inr over ↦ (probed, false, rw (silent, over) refl, ground arith)
    ]
  ]
    where
      probed : Handle
      probed = record h {
        now = h.now + probe_interval_ms + o.probe_ms h.probes;
        probes = suc h.probes;
      }

  -- The time since the last restart allows another.
  abbrev pub Due : Handle → Type 0
  Due h = at_least recovery_cooldown_ms (since h.now h.last) ≡ true

  pub recover-total :
      (h : Handle)
      → Due h
      → (h' : Handle) × (b : Bool) × (recover o h ≡ some (h', b))
        × (h.now ≤ h'.now)
        × (h'.reads ≡ h.reads)
        × (h'.restarts ≡ suc h.restarts)
  unfolding recover
  recover-total h due = elim (Bool-cases (o.restart h.restarts)) [
    | inr fault ↦ (
      record restarted { last = some restarted.now },
      false,
      rw (due, fault) refl,
      omega arith,
      refl,
      refl,
    )
    | inl fine ↦
        let (h', b, e, p) =
          probe_until-total 20 (restarted.now + probe_timeout_ms) restarted (omega arith)
            (omega arith) in
        (
          record h' { last = some h'.now },
          b,
          rw (due, fine, e) refl,
          omega (arith, p.later),
          p.reads,
          p.restarts,
        )
  ]
    where
      restarted : Handle
      restarted = record h { now = h.now + o.restart_ms h.restarts; restarts = suc h.restarts }
