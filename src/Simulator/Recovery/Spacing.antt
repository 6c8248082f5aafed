-- ===== src/Simulator/Recovery/Spacing.antt =====
-- Restarts of one simulator's bridge are a cooldown apart, however the handles on it interleave.
use simgadget.Prelude.{ℕ, ◌+◌, ◌≤◌, if◌then◌else◌, List, [], ◌∷◌, Option, none, some}
use simgadget.Prelude.Text.{Text, text_eq}
use simgadget.Registry.{Registry, last_recovery_at}
use simgadget.Simulator.Recovery.{World, recovery_cooldown_ms}

-- The times at which one simulator's bridge was restarted, the latest first.
abbrev pub times : Text → List (Text × ℕ) → List ℕ
times u [] = []
times u ((v, t) ∷ rest) = if text_eq v u then t ∷ times u rest else times u rest

abbrev pub Spaced : List ℕ → Type 0
Spaced [] = Unit
Spaced (t ∷ []) = Unit
Spaced (t ∷ s ∷ rest) = (s + recovery_cooldown_ms ≤ t) × Spaced (s ∷ rest)

-- The time noted is past, and not before the latest restart.
abbrev Noted : List ℕ → Option ℕ → ℕ → Type 0
Noted [] none now = Unit
Noted [] (some last) now = last ≤ now
Noted (t ∷ ts) none now = ⊥
Noted (t ∷ ts) (some last) now = (t ≤ last) × (last ≤ now)

pub record Inv (u : Text) (w : World) : Type 0 where
  pub spaced : Spaced (times u w.restarts)
  pub noted : Noted (times u w.restarts) (last_recovery_at u w.registry) w.now
