-- ===== src/Ax/Match/Found.antt =====
-- What `matchInTree` finds: the three lists that its walk fills, and the order among them.
use mathlib.Core.List.{append_assoc, append-nil}
use simgadget.Prelude.{
  ◌≡◌, ap, ◌∙◌, Bool, not, ◌&&◌, List, [], ◌∷◌, ◌++◌, arith, filter, filter-append,
}
use simgadget.Prelude.Text.{Text}
use simgadget.Prelude.Forest.{nil, cons, preorder}
use simgadget.Ax.Element.{RawKeys, RawTree}
use simgadget.Ax.Match.{
  normal, normalise_for_match, says, is_id, Hits, no_hits, note, visit, choose, canonical_hit,
  match_in_tree,
}

module _ (needle label : Text) where
  abbrev pub by_label : RawKeys → Bool
  by_label k = says needle (normal k.ax_label)

  abbrev pub by_value : RawKeys → Bool
  by_value k = not (by_label k) && says needle (normal k.ax_value)

  abbrev pub by_id : RawKeys → Bool
  by_id k = not (by_label k) && not (says needle (normal k.ax_value)) && is_id label k.ax_unique_id

  -- The hits before a list of nodes, followed by those among the nodes.
  abbrev with_hits : Hits → List RawKeys → Hits
  with_hits h ks = record {
    label_hits = h.label_hits ++ filter by_label ks;
    value_hits = h.value_hits ++ filter by_value ks;
    id_hits = h.id_hits ++ filter by_id ks;
  }

  note-with_hits :
      (k : RawKeys) (h : Hits) (ks : List RawKeys)
      → with_hits (note needle label k h) ks ≡ with_hits h (k ∷ ks)
  unfolding note
  note-with_hits k h ks = ground (
    arith,
    append_assoc h.label_hits (k ∷ []) (filter by_label ks),
    append_assoc h.value_hits (k ∷ []) (filter by_value ks),
    append_assoc h.id_hits (k ∷ []) (filter by_id ks),
  )

  with_hits-append :
      (h : Hits) (ks ls : List RawKeys) → with_hits (with_hits h ks) ls ≡ with_hits h (ks ++ ls)
  with_hits-append h ks ls = simp (append_assoc, filter-append)

  visit-with_hits : (t : RawTree) (h : Hits) → visit needle label t h ≡ with_hits h (preorder t)
  unfolding visit preorder
  visit-with_hits nil h =
      ground (arith, append-nil h.label_hits, append-nil h.value_hits, append-nil h.id_hits)
  visit-with_hits (cons k children rest) h =
      let noted = note needle label k h in
      visit-with_hits rest (visit needle label children noted)
      ∙ ap (λ g. with_hits g (preorder rest)) (visit-with_hits children noted)
      ∙ with_hits-append noted (preorder children) (preorder rest)
      ∙ note-with_hits k h (preorder children ++ preorder rest)

-- The walk of the tree and its three lists, as filters of the nodes in document order.
abbrev pub hits_of : RawTree → Text → Hits
hits_of t label = with_hits (normalise_for_match label) label no_hits (preorder t)

pub match_in_tree-hits :
    (t : RawTree) (label : Text)
    → match_in_tree t label ≡ canonical_hit (choose (normalise_for_match label) (hits_of t label))
unfolding match_in_tree
match_in_tree-hits t label =
    ap (λ h. canonical_hit (choose (normalise_for_match label) h))
      (visit-with_hits (normalise_for_match label) label t no_hits)
