-- ===== src/Simulator/Ladder/Laws.antt =====
-- What the ladder of cures does, and when.
use simgadget.Prelude.{
  ℕ, suc, ◌≤◌, ◌≡◌, refl, inl, inr, if◌then◌else◌, Bool, true, false, not, List, [], ◌∷◌, arith,
  Bool-cases,
}
use simgadget.Prelude.Text.{Text}
use simgadget.Prelude.Run.{Reply, value, throws, Run, done, act, after, and_then}
use simgadget.Ax.Element.{RawTree, is_degenerate_tree}
use simgadget.Simulator.Ladder.{
  Rungs, Rung, reads, marks_answered, shuts_companion_down, recovers, marked, unless_usable,
  bridge_rung, second_read, companion_rung, climb,
}

abbrev pub mark_count : List Rung → ℕ
mark_count [] = 0
mark_count (marks_answered ∷ acts) = suc (mark_count acts)
mark_count (_ ∷ acts) = mark_count acts

abbrev pub recovery_count : List Rung → ℕ
recovery_count [] = 0
recovery_count (recovers ∷ acts) = suc (recovery_count acts)
recovery_count (_ ∷ acts) = recovery_count acts

abbrev one_if : Bool → ℕ
one_if true = 1
one_if false = 0

-- A tree handed out marks the simulator once if it is usable, and else not; an error, never.
abbrev pub Marks : List Rung → Reply Text RawTree → Type 0
Marks acts (value tree) = mark_count acts ≡ one_if (not (is_degenerate_tree tree))
Marks acts (throws e) = mark_count acts ≡ 0

-- What a run does for one that has answered before or not.
pub record Fits (answered : Bool) (r : Run Rung Text RawTree) : Type 0 where
  pub marks : Marks r.acts r.ended
  pub restarts : recovery_count r.acts ≤ one_if answered

-- Neither a mark nor a restart.
abbrev Quiet : Rung → Type 0
Quiet reads = Unit
Quiet shuts_companion_down = Unit
Quiet _ = ⊥

Marks-Quiet :
    (a : Rung) (acts : List Rung) (ended : Reply Text RawTree)
    → Quiet a
    → Marks acts ended
    → Marks (a ∷ acts) ended
Marks-Quiet reads acts (value t) q m = m
Marks-Quiet reads acts (throws e) q m = m
Marks-Quiet shuts_companion_down acts (value t) q m = m
Marks-Quiet shuts_companion_down acts (throws e) q m = m
Marks-Quiet marks_answered acts ended q m = absurd q
Marks-Quiet recovers acts ended q m = absurd q

Marks-recovers :
    (acts : List Rung) (ended : Reply Text RawTree)
    → Marks acts ended
    → Marks (recovers ∷ acts) ended
Marks-recovers acts (value t) m = m
Marks-recovers acts (throws e) m = m

restarts-Quiet :
    (a : Rung) (acts : List Rung) → Quiet a → recovery_count (a ∷ acts) ≡ recovery_count acts
restarts-Quiet reads acts q = refl
restarts-Quiet shuts_companion_down acts q = refl
restarts-Quiet marks_answered acts q = absurd q
restarts-Quiet recovers acts q = absurd q

-- One act that neither marks nor restarts, and then what follows its answer.
Fits-act :
    (answered : Bool) {A : Type 0} (a : Rung) (reply : Reply Text A)
    (next : A → Run Rung Text RawTree)
    → Quiet a
    → ((x : A) → Fits answered (next x))
    → Fits answered (and_then (act a reply) next)
Fits-act answered a (value x) next quiet fits = record {
  marks = Marks-Quiet a (next x).acts (next x).ended quiet (fits x).marks;
  restarts = rw (restarts-Quiet a (next x).acts quiet) (fits x).restarts;
}
Fits-act answered a (throws e) next quiet fits = record {
  marks = Marks-Quiet a [] (throws e) quiet refl;
  restarts = rw (restarts-Quiet a [] quiet) (omega arith);
}

Fits-marked : (answered : Bool) (tree : RawTree) → Fits answered (marked tree)
Fits-marked answered tree = elim (Bool-cases (is_degenerate_tree tree)) [
  | inl empty ↦ rw (empty, marked) (record { marks = rw empty refl; restarts = omega arith })
  | inr usable ↦ rw (usable, marked) (record { marks = rw usable refl; restarts = omega arith })
]

-- A restart and what follows it, which orders no other.
Fits-recovers : (r : Run Rung Text RawTree) → Fits false r → Fits true (after (recovers ∷ []) r)
Fits-recovers r fits = record {
  marks = Marks-recovers r.acts r.ended fits.marks;
  restarts = omega (arith, fits.restarts);
}

Fits-unusable :
    (answered : Bool) (tree : RawTree)
    → is_degenerate_tree tree ≡ true
    → Fits answered (done (value tree))
Fits-unusable answered tree empty = record { marks = rw empty refl; restarts = omega arith }

Fits-bridge :
    (answered recovered : Bool) (third : Reply Text RawTree) (tree : RawTree)
    → is_degenerate_tree tree ≡ true
    → Fits answered (
        if answered
        then after
            (recovers ∷ [])
            (if recovered then and_then (act reads third) marked else done (value tree))
        else done (value tree))
Fits-bridge false recovered third tree empty = Fits-unusable false tree empty
Fits-bridge true false third tree empty =
    Fits-recovers (done (value tree)) (Fits-unusable false tree empty)
Fits-bridge true true third tree empty =
    Fits-recovers (and_then (act reads third) marked)
      (Fits-act false reads third marked tt (Fits-marked false))

Fits-unless_usable :
    (answered : Bool) (rest : Run Rung Text RawTree) (tree : RawTree)
    → (is_degenerate_tree tree ≡ true → Fits answered rest)
    → Fits answered (unless_usable rest tree)
Fits-unless_usable answered rest tree fits = elim (Bool-cases (is_degenerate_tree tree)) [
  | inl empty ↦ rw (empty, unless_usable) (fits empty)
  | inr usable ↦
      rw (usable, unless_usable) (record { marks = rw usable refl; restarts = omega arith })
]

-- Whatever is answered, a climb marks the simulator as having answered once if it hands out a usable
-- tree, and never if it hands out an empty one or throws; it orders at most one restart of the
-- bridge, and none for a simulator that has not answered before.
pub climb-Fits : (o : Rungs) → Fits o.answered (climb o)
unfolding climb
climb-Fits o = Fits-act o.answered reads o.first (unless_usable (companion_rung o)) tt λ first.
    Fits-unless_usable o.answered (companion_rung o) first λ empty.
      Fits-act o.answered shuts_companion_down o.shutdown
        (λ down. and_then (act reads o.second) (second_read o)) tt
        λ down. Fits-act o.answered reads o.second (second_read o) tt λ second.
          Fits-unless_usable o.answered (bridge_rung o second) second
            λ still. Fits-bridge o.answered o.recovered o.third second still
