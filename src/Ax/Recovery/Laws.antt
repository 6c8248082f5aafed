-- ===== src/Ax/Recovery/Laws.antt =====
-- When a restart of the bridge is worth it.
use simgadget.Prelude.{ℕ, ◌≡◌, ◌↔◌, Bool, true, arith}
use simgadget.Prelude.Text.{Text}
use simgadget.Ax.Recovery.{Elapsed, at_least, is_wedge_error, should_recover}

-- Exactly for the one error that a restart cures, on a simulator that has answered before, and not
-- within the cooldown.
pub should_recover_iff :
    (answered : Bool) (message : Text) (ms : Elapsed) (cooldown : ℕ)
    → (should_recover answered message ms cooldown ≡ true)
      ↔ ((is_wedge_error message ≡ true) × (answered ≡ true) × (at_least cooldown ms ≡ true))
unfolding should_recover
should_recover_iff answered message ms cooldown = ground arith
