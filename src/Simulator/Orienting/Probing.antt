-- ===== src/Simulator/Orienting/Probing.antt =====
-- A probe settles on the true orientation.
use simgadget.Prelude.{
  if◌then◌else◌, ◌≡◌, refl, sym, ◌∙◌, ◌≢◌, inl, inr, Bool, true, false, not, ◌||◌, List, [], ◌∷◌,
  Option, none, some, All, any, Bool-cases,
}
use simgadget.Prelude.Int.{ℤ, ltb_ℤ}
use simgadget.Ax.Element.{AxKeys, Frame, RawTree}
use simgadget.Ax.Geometry.{centre_of_frame}
use simgadget.Ax.Orientation.{
  Orientation, auto, portrait, upside_down, landscape_left, landscape_right, is_landscape,
  candidate_orientations,
}
use simgadget.Ax.Probe.{Candidate, collect_probe_candidates, uniquely_labelled}
use simgadget.Simulator.Orienting.{
  answers, matches_at, matches, settled, first_of, settle, Screen, root_frame, sized,
  probe_orientation,
}

if-same : (b : Bool) (o : Orientation) → (if b then o else o) ≡ o
if-same true o = refl
if-same false o = refl

if-or :
    (a b : Bool) (o p : Orientation)
    → (if a then o else (if b then o else p)) ≡ (if a || b then o else p)
if-or true b o p = refl
if-or false b o p = refl

module _ (read_point : ℤ × ℤ → Option AxKeys) (w h : ℤ) where
  -- A probe that has a centre answers there in an orientation.
  abbrev answers_at : Orientation → Candidate → Option (ℤ × ℤ) → Bool
  answers_at o probe none = true
  answers_at o probe (some centre) = answers read_point w h probe centre o

  unfoldable pub answers_in : Orientation → Candidate → Bool
  answers_in o probe = answers_at o probe (centre_of_frame (some probe.frame))

  -- One turn of the loop, where the probe answers in the first orientation, or in the second.
  turn-first :
      (truth other rest : Orientation) (probe : Candidate) (centre : Option (ℤ × ℤ))
      → answers_at truth probe centre ≡ true
      → settled read_point w h (matches_at read_point w h probe centre (truth ∷ other ∷ [])) rest
        ≡ (if not (answers_at other probe centre) then truth else rest)
  turn-first truth other rest probe none yes_here = refl
  turn-first truth other rest probe (some centre) yes_here =
      elim (Bool-cases (answers read_point w h probe centre other)) [
        | inl both ↦ rw (yes_here, both) refl
        | inr alone ↦ rw (yes_here, alone) refl
      ]

  turn-second :
      (truth other rest : Orientation) (probe : Candidate) (centre : Option (ℤ × ℤ))
      → answers_at truth probe centre ≡ true
      → settled read_point w h (matches_at read_point w h probe centre (other ∷ truth ∷ [])) rest
        ≡ (if not (answers_at other probe centre) then truth else rest)
  turn-second truth other rest probe none yes_here = refl
  turn-second truth other rest probe (some centre) yes_here =
      elim (Bool-cases (answers read_point w h probe centre other)) [
        | inl both ↦ rw (yes_here, both) refl
        | inr alone ↦ rw (yes_here, alone) refl
      ]

  settle-first :
      (truth other : Orientation) (probes : List Candidate)
      → All (λ probe. answers_in truth probe ≡ true) probes
      → settle read_point w h (truth ∷ other ∷ []) probes ≡ truth
  unfolding settle matches answers_in
  settle-first truth other [] honest = refl
  settle-first truth other (probe ∷ probes) (yes_here, honest) =
      turn-first truth other (settle read_point w h (truth ∷ other ∷ []) probes) probe
        (centre_of_frame (some probe.frame)) yes_here
      ∙ rw (settle-first truth other probes honest) (if-same (not (answers_in other probe)) truth)

  settle-true :
      (truth other : Orientation) (probes : List Candidate)
      → All (λ probe. answers_in truth probe ≡ true) probes
      → (settle read_point w h (truth ∷ other ∷ []) probes ≡ truth)
        × (settle read_point w h (other ∷ truth ∷ []) probes
            ≡ (if any (λ probe. not (answers_in other probe)) probes then truth else other))
  unfolding settle matches answers_in
  settle-true truth other [] honest = (refl, refl)
  settle-true truth other (probe ∷ probes) (yes_here, honest) = (
    settle-first truth other (probe ∷ probes) (yes_here, honest),
    turn-second truth other (settle read_point w h (other ∷ truth ∷ []) probes) probe
          (centre_of_frame (some probe.frame)) yes_here
        ∙ rw (settle-true truth other probes honest).1
            (if-or (not (answers_in other probe)) _ truth other),
  )

-- The orientation with the same shape of the screen.
abbrev opposite : Orientation → Orientation
opposite auto = auto
opposite portrait = upside_down
opposite upside_down = portrait
opposite landscape_right = landscape_left
opposite landscape_left = landscape_right

settle-candidates :
    (read_point : ℤ × ℤ → Option AxKeys) (w h : ℤ) (truth : Orientation) (probes : List Candidate)
    → truth ≢ auto
    → All (λ probe. answers_in read_point w h truth probe ≡ true) probes
    → settle read_point w h (candidate_orientations (is_landscape truth)) probes ≡ (
        if any (λ probe. not (answers_in read_point w h (opposite truth) probe)) probes
        then truth
        else first_of read_point w h (candidate_orientations (is_landscape truth)))
unfolding candidate_orientations
settle-candidates read_point w h auto probes real honest = absurd (real refl)
settle-candidates read_point w h portrait probes real honest =
    (settle-true read_point w h portrait upside_down probes honest).0
    ∙ sym (if-same (any (λ p. not (answers_in read_point w h upside_down p)) probes) portrait)
settle-candidates read_point w h landscape_right probes real honest =
    (settle-true read_point w h landscape_right landscape_left probes honest).0
    ∙ sym (
        if-same (any (λ p. not (answers_in read_point w h landscape_left p)) probes)
          landscape_right)
settle-candidates read_point w h upside_down probes real honest =
    (settle-true read_point w h upside_down portrait probes honest).1
settle-candidates read_point w h landscape_left probes real honest =
    (settle-true read_point w h landscape_left landscape_right probes honest).1

-- The probes of a screen.
abbrev pub probes_of : RawTree → Frame → List Candidate
probes_of tree root = uniquely_labelled (collect_probe_candidates root.width root.height tree)

-- Where the screen can be read, its root has a size, and every uniquely labelled element answers at
-- its own centre in the true orientation, which has the root's shape: detection gives the true
-- orientation if some such element does not answer where the opposite orientation would have it,
-- and else the first candidate of that shape.
pub probe_orientation-true :
    (screen : Screen) (tree : RawTree) (root : Frame) (truth : Orientation)
    → screen.describe_all ≡ some tree
    → root_frame tree ≡ some root
    → sized root ≡ true
    → truth ≢ auto
    → is_landscape truth ≡ ltb_ℤ root.height root.width
    → All
        (λ probe. answers_in screen.read_point root.width root.height truth probe ≡ true)
        (probes_of tree root)
    → probe_orientation screen ≡ (
        if any
          (λ probe.
            not (answers_in screen.read_point root.width root.height (opposite truth) probe))
          (probes_of tree root)
        then truth
        else first_of screen.read_point root.width root.height
            (candidate_orientations (ltb_ℤ root.height root.width)))
unfolding probe_orientation candidate_orientations
probe_orientation-true screen tree root truth described rooted has_size real shape honest =
    rw (described, probe_orientation)
      (rw (rooted, probe_orientation)
        (rw (has_size, probe_orientation)
          (rw (← shape) (
            settle-candidates screen.read_point root.width root.height truth (probes_of tree root)
              real honest))))
