-- ===== src/Ax/Remote.antt =====
-- packages/simgadget/src/ax/tree.ts: `translateRemoteSubtrees`.
pub mod Host
pub mod Idempotent
use simgadget.Prelude.{if◌then◌else◌, Bool, true, false, ◌&&◌, Option, none, some}
use simgadget.Prelude.Int.{ℤ, pos, ◌+ℤ◌, ◌-ℤ◌, ltb_ℤ, abs_ℤ}
use simgadget.Prelude.Text.{Text, text, text_eq}
use simgadget.Prelude.Forest.{nil, cons}
use simgadget.Ax.Element.{Frame, point, RawTree, Value, str}

-- `REMOTE_HOST_TYPE`
abbrev remote_host_type : Text
remote_host_type = text "83"

pub shift : Frame → ℤ → ℤ → Frame
shift frame dx dy = record frame { x = frame.x +ℤ dx; y = frame.y +ℤ dy }

-- Equal to within a point.
unfoldable pub same_size : Frame → Frame → Bool
same_size a b =
    ltb_ℤ (abs_ℤ (a.width -ℤ b.width)) point && ltb_ℤ (abs_ℤ (a.height -ℤ b.height)) point

abbrev pub is_host_type : Value → Bool
is_host_type (str s) = text_eq s remote_host_type
is_host_type _ = false

-- The offset of a node and of what it holds: a host's is measured anew.
abbrev pub offset_of : Bool → Option Frame → ℤ × ℤ → Option Frame → ℤ × ℤ
offset_of true (some frame) (dx, dy) (some parent) =
    if same_size frame parent then (parent.x -ℤ frame.x, parent.y -ℤ frame.y) else (dx, dy)
offset_of _ _ d _ = d

abbrev pub moved_by : ℤ × ℤ → Option Frame → Option Frame
moved_by d none = none
moved_by d (some frame) = some (shift frame d.0 d.1)

-- `moved ?? parent`
abbrev pub or_else : Option Frame → Option Frame → Option Frame
or_else none parent = parent
or_else (some moved) parent = some moved

-- The inner `visit`, over an array of siblings, under the offset and the parent that they inherit.
pub visit : ℤ × ℤ → Option Frame → RawTree → RawTree
visit d parent nil = nil
visit d parent (cons element children rest) =
    let e = offset_of (is_host_type element.type) element.frame d parent in
    let moved = moved_by e element.frame in
    cons (record element { frame = moved }) (visit e (or_else moved parent) children)
      (visit d parent rest)

-- `translateRemoteSubtrees`
pub translate_remote_subtrees : RawTree → RawTree
unfolding visit
translate_remote_subtrees elements = visit (pos 0, pos 0) none elements
