-- ===== src/Ax/Locate/First.antt =====
-- `locateInTree` answers with the first node in document order that fits, and with nothing only
-- where no node fits.
use mathlib.Core.Path.{subst}
use simgadget.Prelude.{
  sym, ◌≡◌, refl, ◌∙◌, ap, inl, inr, true, List, [], ◌∷◌, ◌++◌, Option, none, some, arith, All,
  Option-cases,
}
use simgadget.Prelude.Int.{ℤ}
use simgadget.Prelude.Forest.{nil, cons, preorder}
use simgadget.Ax.Element.{Frame, RawKeys, RawTree}
use simgadget.Ax.Locate.{hit, fits, visit, locate_in_tree, locate_frame}

module _ (element : RawKeys) (wanted : Frame) (x y : ℤ) where
  -- The frame of the first node of a list that fits.
  abbrev first_hit : List RawKeys → Option Frame
  first_hit [] = none
  first_hit (k ∷ ks) = elim (hit element wanted x y k) [ some f ↦ some f | none ↦ first_hit ks ]

  first_hit-append :
      (ks ls : List RawKeys)
      → first_hit (ks ++ ls) ≡ elim (first_hit ks) [ some f ↦ some f | none ↦ first_hit ls ]
  first_hit-append [] ls = refl
  first_hit-append (k ∷ ks) ls = ground (arith, first_hit-append ks ls)

  visit-first :
      (t : RawTree) (found : Option Frame)
      → visit element wanted x y t found
        ≡ elim found [ some f ↦ some f | none ↦ first_hit (preorder t) ]
  unfolding visit preorder
  visit-first nil found = ground arith
  visit-first (cons k children rest) (some f) = visit-first rest (some f)
  visit-first (cons k children rest) none = ground (
    arith,
    visit-first children none,
    first_hit-append (preorder children) (preorder rest),
    visit-first rest (hit element wanted x y k),
    visit-first rest (visit element wanted x y children none),
  )

  -- The nodes before the first hit do not fit; where there is none, no node does.
  abbrev pub FirstHit : List RawKeys → Option Frame → Type 0
  FirstHit ks none = All (λ k. hit element wanted x y k ≡ none) ks
  FirstHit ks (some f) =
      (before : List RawKeys) × (k : RawKeys) × (after : List RawKeys) × (ks ≡ before ++ k ∷ after)
      × All (λ k. hit element wanted x y k ≡ none) before
      × (k.frame ≡ some f)
      × (fits element wanted x y k f ≡ true)

  hit_sound :
      (k : RawKeys) (f : Frame)
      → hit element wanted x y k ≡ some f
      → (k.frame ≡ some f) × (fits element wanted x y k f ≡ true)
  unfolding hit
  hit_sound k f found = ground arith

  FirstHit-later :
      (k : RawKeys) (ks : List RawKeys)
      → hit element wanted x y k ≡ none
      → (r : Option Frame) → FirstHit ks r
      → FirstHit (k ∷ ks) r
  FirstHit-later k ks miss none h = (miss, h)
  FirstHit-later k ks miss (some f) (before, l, after, split, misses, framed, ok) =
      (k ∷ before, l, after, ap (◌∷◌ k) split, (miss, misses), framed, ok)

  first_hit-FirstHit : (ks : List RawKeys) → FirstHit ks (first_hit ks)
  first_hit-FirstHit [] = tt
  first_hit-FirstHit (k ∷ ks) = elim (Option-cases (hit element wanted x y k)) [
    | inl miss ↦
        rw (miss, FirstHit) (FirstHit-later k ks miss (first_hit ks) (first_hit-FirstHit ks))
    | inr (f, found) ↦
        rw (found, FirstHit) ([], k, ks, refl, tt, (hit_sound k f found).0, (hit_sound k f found).1)
  ]

-- The frame found is that of the first node in document order that is named like the element, has
-- its size and holds the point; nothing is found exactly where no node is and does.
locate_in_tree-FirstHit :
    (t : RawTree) (element : RawKeys) (wanted : Frame) (x y : ℤ)
    → element.frame ≡ some wanted
    → FirstHit element wanted x y (preorder t) (locate_in_tree t element x y)
unfolding locate_in_tree
locate_in_tree-FirstHit t element wanted x y framed =
    subst (FirstHit element wanted x y (preorder t))
      (sym (ap (locate_frame t element x y) framed ∙ visit-first element wanted x y t none))
      (first_hit-FirstHit element wanted x y (preorder t))
