-- ===== src/Mcp/Paths.antt =====
-- packages/simgadget-mcp/src/paths.ts: `ensureAbsolutePath`. A path is a text; `path.join` and the
-- home directory are parameters.
pub mod Laws
use simgadget.Prelude.{if◌then◌else◌, Bool, false, ◌==◌, [], ◌∷◌, Option, none, some}
use simgadget.Prelude.Text.{Text, text, starts_with}

-- `path.isAbsolute`, on the systems that have simulators.
abbrev pub is_absolute : Text → Bool
is_absolute [] = false
is_absolute (c ∷ s) = c == b'/'

-- `path.slice(2)`
abbrev pub drop_two : Text → Text
drop_two (a ∷ b ∷ s) = s
drop_two _ = []

module _ (join : Text → Text → Text) (home : Text) where
  -- The directory for relative paths; `defaultOutputDir()` never gives the empty text.
  pub default_dir : Option Text → Text
  default_dir none = join home (text "Downloads")
  default_dir (some custom) =
      if starts_with (text "~/") custom then join home (drop_two custom) else custom

  pub ensure_absolute_path : Option Text → Text → Text
  unfolding default_dir
  ensure_absolute_path custom path =
      if is_absolute path
      then path
      else if starts_with (text "~/") path
      then join home (drop_two path)
      else join (default_dir custom) path
