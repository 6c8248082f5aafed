-- ===== src/Ax/Remote/Host.antt =====
-- Where the translation puts a remote host and what it holds.
use simgadget.Prelude.{◌≡◌, refl, ap, true, false, Option, none, some, arith}
use simgadget.Prelude.Int.{ℤ, pos, ◌-ℤ◌, +ℤ-zero, add-sub_cancel}
use simgadget.Prelude.Forest.{nil, cons, map_forest}
use simgadget.Ax.Element.{Frame, RawKeys, RawTree}
use simgadget.Ax.Remote.{shift, same_size, is_host_type, moved_by, or_else, visit}

-- A node's keys with its frame moved by an offset.
abbrev pub place : ℤ × ℤ → RawKeys → RawKeys
place d k = record k { frame = moved_by d k.frame }

-- No node of the tree has the type of a remote host.
abbrev NoHost : RawTree → Type 0
NoHost nil = Unit
NoHost (cons k children rest) = (is_host_type k.type ≡ false) × NoHost children × NoHost rest

visit_of_NoHost :
    (d : ℤ × ℤ) (parent : Option Frame) (t : RawTree)
    → NoHost t
    → visit d parent t ≡ map_forest (place d) t
unfolding visit map_forest
visit_of_NoHost d parent nil h = refl
visit_of_NoHost d parent (cons k children rest) (plain, below, beside) = rw plain (
    ground (
      arith,
      visit_of_NoHost d (or_else (moved_by d k.frame) parent) children below,
      visit_of_NoHost d parent rest beside,
    ))

shift-zero : (f : Frame) → shift f (pos 0) (pos 0) ≡ f
unfolding shift
shift-zero f = ground (arith, +ℤ-zero f.x, +ℤ-zero f.y)

pub moved_by-zero : (f : Option Frame) → moved_by (pos 0, pos 0) f ≡ f
moved_by-zero none = refl
moved_by-zero (some f) = ap some (shift-zero f)

place-zero : (t : RawTree) → map_forest (place (pos 0, pos 0)) t ≡ t
unfolding map_forest
place-zero nil = refl
place-zero (cons k children rest) =
    ground (arith, moved_by-zero k.frame, place-zero children, place-zero rest)

-- A host of its parent's size lands on its parent's origin, with its own size, and everything that
-- it holds (no further host among it) moves by exactly as much, whatever the offset around it.
pub visit-host :
    (d : ℤ × ℤ) (p f : Frame) (k : RawKeys) (children : RawTree)
    → is_host_type k.type ≡ true
    → k.frame ≡ some f
    → same_size f p ≡ true
    → NoHost children
    → visit d (some p) (cons k children nil)
      ≡ cons
          (record k { frame = some (record f { x = p.x; y = p.y }) })
          (map_forest (place (p.x -ℤ f.x, p.y -ℤ f.y)) children)
          nil
unfolding visit shift
visit-host d p f k children host framed same plain =
    rw (host, framed, same)
      (ground (
        arith,
        visit_of_NoHost (p.x -ℤ f.x, p.y -ℤ f.y) (some (shift f (p.x -ℤ f.x) (p.y -ℤ f.y))) children
            plain,
        add-sub_cancel f.x p.x,
        add-sub_cancel f.y p.y,
      ))
