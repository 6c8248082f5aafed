-- ===== src/Ax/Prune/Chains.antt =====
-- Pruning seen through the chains of nodes: what is kept, in which order, and below what.
use mathlib.Core.List.{map-append}
use simgadget.Prelude.{
  if◌then◌else◌, ◌≡◌, refl, inl, inr, Bool, true, false, List, [], ◌∷◌, ◌++◌, map, filter,
  filter-append, arith, Bool-cases,
}
use simgadget.Prelude.Forest.{nil, cons, append, chains, chains-append}
use simgadget.Ax.Element.{RawKeys, RawTree, AxKeys}
use simgadget.Ax.Canonical.{canonicalise}
use simgadget.Ax.Prune.{is_interesting, visit, prune_tree}

-- A node's chain, itself first, with the nodes dropped that are neither a root nor interesting.
abbrev pub survivors : List RawKeys → List AxKeys
survivors [] = []
survivors (root ∷ []) = canonicalise root ∷ []
survivors (a ∷ b ∷ above) =
    if is_interesting a then canonicalise a ∷ survivors (b ∷ above) else survivors (b ∷ above)

-- Whether the node at the head of a chain is a root or interesting.
abbrev pub is_kept : List RawKeys → Bool
is_kept [] = false
is_kept (root ∷ []) = true
is_kept (a ∷ b ∷ above) = is_interesting a

abbrev kept_chains : List (List RawKeys) → List (List AxKeys)
kept_chains cs = map survivors (filter is_kept cs)

kept_chains-append :
    (xs ys : List (List RawKeys)) → kept_chains (xs ++ ys) ≡ kept_chains xs ++ kept_chains ys
kept_chains-append xs ys = rw (filter-append is_kept xs ys) (map-append _ _ _)

visit-chains :
    (b : RawKeys) (above : List RawKeys) (t : RawTree)
    → chains (survivors (b ∷ above)) (visit t) ≡ kept_chains (chains (b ∷ above) t)
unfolding visit chains append
visit-chains b above nil = refl
visit-chains b above (cons a children rest) = elim (Bool-cases (is_interesting a)) [
  | inl keep ↦ ground (
    arith,
    kept_chains-append (chains (a ∷ b ∷ above) children) (chains (b ∷ above) rest),
    visit-chains a (b ∷ above) children,
    visit-chains b above rest,
  )
  | inr drop ↦ ground (
    arith,
    kept_chains-append (chains (a ∷ b ∷ above) children) (chains (b ∷ above) rest),
    chains-append (survivors (b ∷ above)) (visit children) (visit rest),
    visit-chains a (b ∷ above) children,
    visit-chains b above rest,
  )
]

-- Pruning keeps exactly the roots and the interesting nodes, reduced to their canonical keys and in
-- document order, and each of them lies in exactly those of its ancestors that are kept.
pub prune_tree-chains :
    (t : RawTree) → chains [] (prune_tree t) ≡ map survivors (filter is_kept (chains [] t))
unfolding prune_tree chains
prune_tree-chains nil = refl
prune_tree-chains (cons root children rest) = ground (
  arith,
  kept_chains-append (chains (root ∷ []) children) (chains [] rest),
  visit-chains root [] children,
  prune_tree-chains rest,
)
