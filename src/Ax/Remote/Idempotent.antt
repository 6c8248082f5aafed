-- ===== src/Ax/Remote/Idempotent.antt =====
-- The translation moves a tree once: what it leaves alone, and that a second run changes nothing.
use simgadget.Prelude.{
  ◌≡◌, refl, Bool, true, false, Option, none, some, arith, Bool-cases, inl, inr,
}
use simgadget.Prelude.Int.{ℤ, pos, add-sub_cancel, sub_self}
use simgadget.Prelude.Forest.{nil, cons, map_forest}
use simgadget.Ax.Element.{Frame, RawKeys, RawTree}
use simgadget.Ax.Remote.Host.{moved_by-zero}
use simgadget.Ax.Remote.{
  shift, same_size, is_host_type, offset_of, moved_by, or_else, visit, translate_remote_subtrees,
}

abbrev at_origin : Option Frame → Option Frame
at_origin none = none
at_origin (some f) = some (record f { x = pos 0; y = pos 0 })

-- A node's keys with the place of its frame forgotten, its size kept.
abbrev pub unplaced : RawKeys → RawKeys
unplaced k = record k { frame = at_origin k.frame }

unplaced-moved :
    (d : ℤ × ℤ) (k : RawKeys) → unplaced (record k { frame = moved_by d k.frame }) ≡ unplaced k
unfolding shift
unplaced-moved d k = ground arith

visit-unplaced :
    (d : ℤ × ℤ) (parent : Option Frame) (t : RawTree)
    → map_forest unplaced (visit d parent t) ≡ map_forest unplaced t
unfolding visit map_forest shift
visit-unplaced d parent nil = refl
visit-unplaced d parent (cons k children rest) = ground (
  arith,
  unplaced-moved (offset_of (is_host_type k.type) k.frame d parent) k,
  visit-unplaced (offset_of (is_host_type k.type) k.frame d parent)
      (or_else (moved_by (offset_of (is_host_type k.type) k.frame d parent) k.frame) parent)
      children,
  visit-unplaced d parent rest,
)

-- The translation changes neither the shape of the tree nor any key of a node but the origin of
-- its frame; sizes stay.
translate-unplaced :
    (t : RawTree) → map_forest unplaced (translate_remote_subtrees t) ≡ map_forest unplaced t
unfolding translate_remote_subtrees
translate-unplaced t = visit-unplaced (pos 0, pos 0) none t

-- Once moved, a node's offset is zero: a host lies on its parent's origin.
offset-again :
    (d : ℤ × ℤ) (f p : Option Frame) (host : Bool)
    → offset_of host (moved_by (offset_of host f d p) f) (pos 0, pos 0) p ≡ (pos 0, pos 0)
unfolding shift same_size
offset-again d none p false = refl
offset-again d none p true = refl
offset-again d (some f) none false = refl
offset-again d (some f) none true = refl
offset-again d (some f) (some p) false = refl
offset-again d (some f) (some p) true = elim (Bool-cases (same_size f p)) [
  | inl same ↦
      rw (same, add-sub_cancel f.x p.x, add-sub_cancel f.y p.y, sub_self p.x, sub_self p.y) refl
  | inr other ↦ rw other refl
]

visit-visit :
    (d : ℤ × ℤ) (parent : Option Frame) (t : RawTree)
    → visit (pos 0, pos 0) parent (visit d parent t) ≡ visit d parent t
unfolding visit
visit-visit d parent nil = refl
visit-visit d parent (cons k children rest) =
    let e = offset_of (is_host_type k.type) k.frame d parent in
    rw
      (
        offset-again d k.frame parent (is_host_type k.type),
        moved_by-zero (moved_by e k.frame),
        visit-visit e (or_else (moved_by e k.frame) parent) children,
        visit-visit d parent rest,
      )
      refl

-- Translating a translated tree changes nothing.
translate_idempotent :
    (t : RawTree)
    → translate_remote_subtrees (translate_remote_subtrees t) ≡ translate_remote_subtrees t
unfolding translate_remote_subtrees
translate_idempotent t = visit-visit (pos 0, pos 0) none t
