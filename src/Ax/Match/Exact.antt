-- ===== src/Ax/Match/Exact.antt =====
-- A control that is named exactly is not outranked by a description of it, and when nothing is found.
use mathlib.Core.Path.{subst}
use simgadget.Prelude.{
  ◌≤◌, ◌<◌, ◌≡◌, refl, sym, ap, ◌∙◌, ◌≢◌, ◌↔◌, Bool, true, false, List, [], ◌∷◌, ◌++◌, Option, none,
  some, arith, All, All-append, All-at, filter, filter-All, All-filter_at, filter-eq-nil,
  All-of_filter-eq-nil,
}
use simgadget.Prelude.Text.{Text, text_eq_iff, includes_self}
use simgadget.Prelude.Forest.{preorder}
use simgadget.Ax.Element.{RawKeys, RawTree}
use simgadget.Ax.Canonical.{canonicalise}
use simgadget.Ax.Match.{
  normal, normalise_for_match, says, Hits, best, choose, canonical_hit, match_in_tree, score,
  is_actionable,
}
use simgadget.Ax.Match.Best.{IsFirstBest, best-IsFirstBest}
use simgadget.Ax.Match.Found.{by_label, by_value, by_id, hits_of, match_in_tree-hits}

module _ (needle : Text) where
  All-score_le :
      (xs : List RawKeys) (y : RawKeys)
      → IsFirstBest needle xs y
      → All (λ x. score needle x ≤ score needle y) xs
  All-score_le xs y b =
      rw b.split
        (All-append _ b.before (y ∷ b.after) (weaken b.before b.beats) (omega arith, b.unbeaten))
    where
      weaken :
          (l : List RawKeys)
          → All (λ x. score needle x < score needle y) l
          → All (λ x. score needle x ≤ score needle y) l
      weaken [] h = tt
      weaken (x ∷ l) (p, h) = (omega arith, weaken l h)

  score-exact :
      (k l : RawKeys)
      → says needle (normal k.ax_label) ≡ true
      → score needle l ≤ score needle k
      → normal l.ax_label ≡ needle
      → (normal k.ax_label ≡ needle) × (is_actionable l ≡ true → is_actionable k ≡ true)
  unfolding score
  score-exact k l hit le e = ground (
    arith,
    text_eq_iff (normal k.ax_label) needle,
    text_eq_iff (normal l.ax_label) needle,
    includes_self needle,
  )

  -- The best of the elements that pass a test is at least as good as any one that passes it.
  best-filter :
      (p : RawKeys → Bool) (ks before : List RawKeys) (k : RawKeys) (after : List RawKeys)
      → ks ≡ before ++ k ∷ after
      → p k ≡ true
      → (y : RawKeys) × (best needle (filter p ks) ≡ some y)
        × (p y ≡ true)
        × (score needle k ≤ score needle y)
  best-filter p ks before k after at pass = go (filter p ks) refl
    where
      go :
          (xs : List RawKeys)
          → filter p ks ≡ xs
          → (y : RawKeys) × (best needle (filter p ks) ≡ some y)
            × (p y ≡ true)
            × (score needle k ≤ score needle y)
      go [] e =
          let none_pass = All-of_filter-eq-nil p ks e in
          let out = All-at (λ x. p x ≡ false) before k after (rw at at none_pass) in
          absurd (ground (arith, out))
      go (x ∷ r) e =
          let (y, chosen, b) = best-IsFirstBest needle x r in
          (
            y,
            ap (best needle) e ∙ chosen,
            All-at (λ z. p z ≡ true) b.before y b.after (rw (e ∙ b.split) at (filter-All p ks)),
            All-filter_at (λ z. score needle z ≤ score needle y) p before k after pass
                (rw at at (
                  subst (All (λ z. score needle z ≤ score needle y)) (sym e)
                    (All-score_le (x ∷ r) y b))),
          )

says_self : (s : Text) → s ≢ [] → says s s ≡ true
says_self s filled = ground (arith, includes_self s)

choose-label :
    (needle : Text) (h : Hits) {r : RawKeys}
    → best needle h.label_hits ≡ some r
    → choose needle h ≡ some r
unfolding choose
choose-label needle h e = ground arith

choose-eq-none_iff :
    (needle : Text) (ls vs is : List RawKeys)
    → (choose needle (record { label_hits = ls; value_hits = vs; id_hits = is }) ≡ none)
      ↔ ((ls ≡ []) × (vs ≡ []) × (is ≡ []))
unfolding choose best
choose-eq-none_iff needle ls vs is = ground arith

-- Where some element has exactly the label sought, typography aside, the answer has it too; and
-- where that element is a control, so is the answer.
match_in_tree_exact :
    (t : RawTree) (label : Text) (before : List RawKeys) (k : RawKeys) (after : List RawKeys)
    → preorder t ≡ before ++ k ∷ after
    → normal k.ax_label ≡ normalise_for_match label
    → normalise_for_match label ≢ []
    → (r : RawKeys) × (match_in_tree t label ≡ some (canonicalise r))
      × (normal r.ax_label ≡ normalise_for_match label)
      × (is_actionable k ≡ true → is_actionable r ≡ true)
match_in_tree_exact t label before k after at exact filled =
    let needle = normalise_for_match label in
    let named : by_label needle label k ≡ true = rw exact (says_self needle filled) in
    let (r, chosen, hit, le) =
      best-filter needle (by_label needle label) (preorder t) before k after at named in
    let (same, control) = score-exact needle r k hit le exact in
    (r, match_in_tree-hits t label ∙ ap canonical_hit (choose-label _ _ chosen), same, control)

canonical_hit-none : (o : Option RawKeys) → canonical_hit o ≡ none → o ≡ none
canonical_hit-none none e = refl
canonical_hit-none (some k) e = cc

-- Nothing is found exactly where no node has the text in its label or in its value, or is
-- identified by it.
match_in_tree-eq-none_iff :
    (t : RawTree) (label : Text)
    → let needle = normalise_for_match label in
      (match_in_tree t label ≡ none) ↔ (
        All (λ k. by_label needle label k ≡ false) (preorder t)
        × All (λ k. by_value needle label k ≡ false) (preorder t)
        × All (λ k. by_id needle label k ≡ false) (preorder t))
match_in_tree-eq-none_iff t label =
    let needle = normalise_for_match label in
    let h = hits_of t label in
    let both = choose-eq-none_iff needle h.label_hits h.value_hits h.id_hits in
    (
      λ e.
          let (no_label, no_value, no_id) =
            both.0 (canonical_hit-none _ (sym (match_in_tree-hits t label) ∙ e)) in
          (
            All-of_filter-eq-nil (by_label needle label) (preorder t) no_label,
            All-of_filter-eq-nil (by_value needle label) (preorder t) no_value,
            All-of_filter-eq-nil (by_id needle label) (preorder t) no_id,
          ),
      λ (no_label, no_value, no_id).
          match_in_tree-hits t label
          ∙ ap canonical_hit (
              both.1 (
                filter-eq-nil (by_label needle label) (preorder t) no_label,
                filter-eq-nil (by_value needle label) (preorder t) no_value,
                filter-eq-nil (by_id needle label) (preorder t) no_id,
              )),
    )
