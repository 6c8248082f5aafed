-- ===== src/Simulator/Verbs/Acts.antt =====
-- What holds of all that a boot does.
use simgadget.Prelude.{List, [], ◌∷◌, All, inl, inr, Bool-cases, Option, ℕ}
use simgadget.Prelude.Text.{Text, text}
use simgadget.Prelude.Run.{Run, value, done, and_then, All-then}
use simgadget.Simulator.Calls.{Act, runs, waits_ready, Failure, run_plainly}
use simgadget.Simulator.Verbs.{
  Handle, World, unless_deleted, show_window, booted, boot_command, wait,
}

pub unless_deleted-All {ℓ κ} :
    {A : Type ℓ} (P : Act → Type κ) (h : Handle) (r : Run Act Failure A)
    → All P r.acts
    → All P (unless_deleted h r).acts
unless_deleted-All P h r holds = elim (Bool-cases h.deleted) [
  | inl stale ↦ rw (stale) tt
  | inr live ↦ rw (live) holds
]

module _ {κ} (P : Act → Type κ) (ran : (program : Text) (args : List Text) → P (runs program args))
    (w : World) (h : Handle) where
  pub show_window-All : All P (show_window w h).acts
  unfolding show_window
  show_window-All =
      let open_it = run_plainly w.host (text "open") (text "-a" ∷ text "Simulator.app" ∷ []) in
      unless_deleted-All P h (and_then open_it (λ stdout. done (value tt)))
        (All-then P open_it (λ stdout. done (value tt)) (ran _ _, tt) (λ stdout. tt))

  pub booted-All :
      (budget : Option ℕ) → ((ms : ℕ) → P (waits_ready ms)) → All P (booted w h budget).acts
  unfolding booted
  booted-All budget waited =
      unless_deleted-All P h
        (and_then (boot_command w h.udid) λ done. and_then (show_window w h) λ shown. wait w budget)
        (All-then P (boot_command w h.udid) _ (ran _ _, tt)
          (λ booted.
            All-then P (show_window w h) (λ shown. wait w budget) show_window-All
              (λ shown. (waited _, tt))))
