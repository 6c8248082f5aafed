-- ===== src/Tests/Servers.antt =====
-- packages/simgadget-mcp/src: the theorems at concrete sessions, variables and arguments.
use simgadget.Prelude.{◌≡◌, refl, true, false, List, [], ◌∷◌, ◌++◌, some, All, arith}
use simgadget.Prelude.Text.{Text, text, text_eq, starts_with, is_empty}
use simgadget.Prelude.Dict.{Dict, put}
use simgadget.Mcp.Sessions.{
  Sim, Sessions, refused, already_attached, fine, create_begins, create_ends, attach_ends,
  destroy_begins, shuts_down, run, new_world, Event, attach_begin, attach_end, shutdown_stops,
}
use simgadget.Mcp.Sessions.Ownership.{run-DeletesMade, DeletesMade}
use simgadget.Mcp.Sessions.Teardowns.{attach_overlap_replaces}
use simgadget.Mcp.Paths.{ensure_absolute_path, is_absolute}
use simgadget.Mcp.Paths.Laws.{ensure_absolute_path-absolute}

abbrev mine : Sim
mine = record { udid = text "A"; name = text "mine" }

abbrev theirs : Sim
theirs = record { udid = text "B"; name = text "theirs" }

abbrev day : List Event
day =
    create_begins (text "qa")
    ∷ create_ends (text "qa") (fine mine)
    ∷ attach_ends (text "dev") theirs (text "Booted")
    ∷ destroy_begins (text "dev")
    ∷ shuts_down true
    ∷ []

run-DeletesMade_example : All (DeletesMade (run new_world day).created) (run new_world day).ordered
run-DeletesMade_example = run-DeletesMade day

abbrev busy : Sessions
busy = record { sessions = []; starting = text "qa" ∷ [] }

abbrev both : Sessions
both = record {
  sessions =
      (text "qa", record { sim = mine; owned = true })
      ∷ (text "dev", record { sim = theirs; owned = false })
      ∷ [];
  starting = [];
}

all_stopped : shutdown_stops both ≡ mine.udid ∷ theirs.udid ∷ []
unfolding shutdown_stops
all_stopped = refl

abbrev one_attached : Sessions
one_attached = record {
  sessions = (text "qa", record { sim = mine; owned = false }) ∷ [];
  starting = [];
}

attach_overlap_replaces_example :
    attach_begin (text "qa") one_attached ≡ refused (already_attached (text "qa") mine)
unfolding attach_end put text_eq
attach_overlap_replaces_example =
    (attach_overlap_replaces (text "qa") mine theirs (record { sessions = []; starting = [] })
      one_attached refl).0

abbrev old_only : Dict Text
old_only = (text "IOS_SIMULATOR_MCP_VERBOSE", text "1") ∷ []

abbrev join : Text → Text → Text
join first rest = first ++ (text "/" ++ rest)

join_absolute :
    (first rest : Text) → is_empty first ≡ false → is_absolute (join first rest) ≡ is_absolute first
join_absolute [] rest h = ground arith
join_absolute (c ∷ first) rest h = refl

ensure_absolute_path-absolute_example :
    is_absolute (ensure_absolute_path join (text "/Users/me") (some (text "out")) (text "a.png"))
    ≡ false
unfolding starts_with
ensure_absolute_path-absolute_example =
    ensure_absolute_path-absolute join (text "/Users/me") (some (text "out")) (text "a.png") refl
      refl join_absolute
