-- ===== src/Ax/Probe/Unique.antt =====
-- The candidates that are kept are those whose label occurs once.
use mathlib.Core.Path.{fun_ext}
use simgadget.Prelude.{
  ℕ, ◌+◌, ◌==◌, if◌then◌else◌, ◌≡◌, refl, ap, ◌∙◌, List, [], ◌∷◌, Option, none, some, get_or, arith,
  filter,
}
use simgadget.Prelude.Text.{Text, text_eq, text_eq_iff}
use simgadget.Ax.Probe.{Candidate, Counts, get_count, bump, count_labels, is_one, uniquely_labelled}

-- How often a label occurs among the candidates.
abbrev pub occurrences : Text → List Candidate → ℕ
occurrences label [] = 0
occurrences label (c ∷ cs) = (if text_eq c.label label then 1 else 0) + occurrences label cs

get_count-bump :
    (a b : Text) (counts : Counts)
    → get_count b (bump a counts)
      ≡ (if text_eq a b then some (get_or (get_count b counts) 0 + 1) else get_count b counts)
unfolding get_count bump
get_count-bump a b [] = ground arith
get_count-bump a b ((l, n) ∷ counts) =
    ground (arith, text_eq_iff a b, text_eq_iff l a, text_eq_iff l b, get_count-bump a b counts)

count_labels-occurrences :
    (label : Text) (cs : List Candidate) (counts : Counts)
    → get_or (get_count label (count_labels cs counts)) 0
      ≡ get_or (get_count label counts) 0 + occurrences label cs
unfolding count_labels
count_labels-occurrences label [] counts = omega arith
count_labels-occurrences label (c ∷ cs) counts = ground (
  arith,
  get_count-bump c.label label counts,
  count_labels-occurrences label cs (bump c.label counts),
)

is_one-get_or : (o : Option ℕ) → is_one o ≡ (get_or o 0 == 1)
is_one-get_or none = refl
is_one-get_or (some n) = refl

occurrences-lem :
    (label : Text) (cs : List Candidate)
    → get_or (get_count label (count_labels cs [])) 0 ≡ occurrences label cs
unfolding get_count
occurrences-lem label cs = omega (arith, count_labels-occurrences label cs [])

-- The candidates that identify one element: those whose label no other candidate has, in order.
uniquely_labelled-filter :
    (cs : List Candidate) → uniquely_labelled cs ≡ filter (λ c. occurrences c.label cs == 1) cs
unfolding uniquely_labelled
uniquely_labelled-filter cs =
    ap (λ p. filter p cs)
      (fun_ext (λ c.
        is_one-get_or (get_count c.label (count_labels cs []))
        ∙ ap (λ n. n == 1) (occurrences-lem c.label cs)))
