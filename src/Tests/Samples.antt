-- ===== src/Tests/Samples.antt =====
-- A small screen, and the keys of its elements.
use simgadget.Prelude.{ℕ, ◌*◌, Bool, Option, none, some}
use simgadget.Prelude.Int.{pos}
use simgadget.Prelude.Text.{Text, text}
use simgadget.Prelude.Forest.{nil, cons}
use simgadget.Ax.Element.{Frame, RawKeys, RawTree, Value, undefined, str, AxKeys}

-- A frame in whole points.
abbrev pub frame_at : ℕ → ℕ → ℕ → ℕ → Frame
frame_at x y w h = record {
  x = pos (6 * x);
  y = pos (6 * y);
  width = pos (6 * w);
  height = pos (6 * h);
}

abbrev keys : Value → Value → Frame → RawKeys
keys label type frame = record {
  frame = some frame;
  ax_label = label;
  ax_value = undefined;
  ax_unique_id = undefined;
  type = type;
  subrole = undefined;
  enabled = undefined;
  traits = none;
}

abbrev pub window_frame : Frame
window_frame = frame_at 0 0 390 844

abbrev pub app : RawKeys
app = keys (str (text "Settings")) (str (text "Application")) window_frame

abbrev pub group : RawKeys
group = keys undefined (str (text "Group")) (frame_at 0 100 390 300)

abbrev pub save : RawKeys
save = keys (str (text "Save")) (str (text "Button")) (frame_at 20 120 60 24)

-- The host of a sheet that another process draws, of the size of the window but out of its place.
abbrev pub host : RawKeys
host = keys undefined (str (text "83")) (frame_at 0 476 390 844)

abbrev pub allow : RawKeys
allow = keys (str (text "Allow")) (str (text "Button")) (frame_at 100 700 90 40)

abbrev pub sheet : RawTree
sheet = cons allow nil nil

abbrev pub screen_tree : RawTree
screen_tree = cons app (cons group (cons save nil nil) (cons host sheet nil)) nil

abbrev pub element : Option Text → Option Text → Option Bool → Frame → AxKeys
element label type enabled frame = record {
  ax_label = label;
  frame = some frame;
  ax_value = none;
  ax_unique_id = none;
  type = type;
  enabled = enabled;
}
