-- ===== src/Ax/Probe.antt =====
-- packages/simgadget/src/ax/tree.ts: `collectProbeCandidates` and `uniquelyLabelled`.
pub mod Unique
use simgadget.Prelude.{
  ℕ, ◌+◌, ◌==◌, if◌then◌else◌, Bool, false, not, ◌&&◌, List, [], ◌∷◌, ◌++◌, Option, none, some,
  filter,
}
use simgadget.Prelude.Int.{ℤ, pos, eqb_ℤ}
use simgadget.Prelude.Text.{Text, text_eq}
use simgadget.Prelude.Forest.{nil, cons}
use simgadget.Ax.Element.{Frame, RawTree}
use simgadget.Ax.Canonical.{filled}

pub record Candidate : Type 0 where
  pub frame : Frame
  pub label : Text

module _ (screen_w screen_h : ℤ) where
  abbrev is_full_screen : Frame → Bool
  is_full_screen f =
      eqb_ℤ f.x (pos 0) && eqb_ℤ f.y (pos 0) && eqb_ℤ f.width screen_w && eqb_ℤ f.height screen_h

  abbrev has_area : Frame → Bool
  has_area f = not (eqb_ℤ f.width (pos 0)) && not (eqb_ℤ f.height (pos 0))

  -- What one element contributes; its label is a text or nothing.
  abbrev candidate_of : Option Frame → Option Text → List Candidate
  candidate_of (some f) (some label) =
      if has_area f && not (is_full_screen f) then record { frame = f; label = label } ∷ [] else []
  candidate_of _ _ = []

  -- `collectProbeCandidates`
  unfoldable pub collect_probe_candidates : RawTree → List Candidate
  collect_probe_candidates nil = []
  collect_probe_candidates (cons el children rest) =
      candidate_of el.frame (filled el.ax_label)
      ++ (collect_probe_candidates children ++ collect_probe_candidates rest)

-- The `Map` of counts, as an association list.
abbrev pub Counts : Type 0
Counts = List (Text × ℕ)

-- `counts.get(label)`
pub get_count : Text → Counts → Option ℕ
get_count label [] = none
get_count label ((l, n) ∷ counts) = if text_eq l label then some n else get_count label counts

-- `counts.set(label, (counts.get(label) || 0) + 1)`
pub bump : Text → Counts → Counts
bump label [] = (label, 1) ∷ []
bump label ((l, n) ∷ counts) =
    if text_eq l label then (l, n + 1) ∷ counts else (l, n) ∷ bump label counts

pub count_labels : List Candidate → Counts → Counts
unfolding bump
count_labels [] counts = counts
count_labels (c ∷ cs) counts = count_labels cs (bump c.label counts)

abbrev pub is_one : Option ℕ → Bool
is_one none = false
is_one (some n) = n == 1

-- `uniquelyLabelled`
unfoldable pub uniquely_labelled : List Candidate → List Candidate
unfolding count_labels get_count
uniquely_labelled candidates =
    filter (λ c. is_one (get_count c.label (count_labels candidates []))) candidates
