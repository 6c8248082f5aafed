-- ===== src/Mcp/Env.antt =====
-- packages/simgadget-mcp/src/env.ts, and the reader of packages/simgadget/src/env.ts, which has the
-- same code. `process.env` is a dictionary; a reader's latch and its warnings are passed on.
pub mod Laws
use simgadget.Prelude.{
  if◌then◌else◌, Bool, ◌==◌, not, List, [], ◌∷◌, ◌++◌, Option, none, some, map, filter, get_or,
}
use simgadget.Prelude.Text.{Text, text, text_eq, is_empty, non_empty, member, trim}
use simgadget.Prelude.Dict.{Dict, get}

-- `process.env[name]`, where the empty string counts as unset.
unfoldable pub set_value : Dict Text → Text → Option Text
set_value env name = elim (get name env) [
  | none ↦ none
  | some value ↦ if is_empty value then none else some value
]

abbrev pub new_name : Text → Text
new_name name = text "SIMGADGET_" ++ name

abbrev pub old_name : Text → Text
old_name name = text "IOS_SIMULATOR_MCP_" ++ name

-- What a read gives: the value, the names that have been warned of, and those that are warned of now.
pub record Reading : Type 0 where
  pub value : Option Text
  pub warned : List Text
  pub warnings : List Text

-- `readEnv`
pub read_env : Dict Text → List Text → Text → Reading
read_env env warned name = elim (set_value env (new_name name)) [
  | some value ↦ record { value = some value; warned = warned; warnings = [] }
  | none ↦ elim (set_value env (old_name name)) [
    | none ↦ record { value = none; warned = warned; warnings = [] }
    | some value ↦
        if member name warned
        then record { value = some value; warned = warned; warnings = [] }
        else record { value = some value; warned = name ∷ warned; warnings = name ∷ [] }
  ]
]

-- Reads one after the other: the warnings that are written.
pub read_all : Dict Text → List Text → List Text → List Text
unfolding read_env
read_all env warned [] = []
read_all env warned (name ∷ names) =
    let reading = read_env env warned name in reading.warnings ++ read_all env reading.warned names

-- The accessors, on the value that is read; `lower` is `toLowerCase`.
module _ (lower : Text → Text) where
  -- `truthy`
  abbrev truthy : Option Text → Bool
  truthy value = member (lower (get_or value [])) (text "1" ∷ text "true" ∷ text "yes" ∷ [])

  -- `cleanupOnExit`
  abbrev cleanup_on_exit : Option Text → Bool
  cleanup_on_exit value = not (text_eq (lower (get_or value (text "true"))) (text "false"))

  -- `transport`
  abbrev pub transport : Option Text → Text
  transport value = lower (get_or value (text "http"))

-- `httpHost`
abbrev http_host : Option Text → Text
http_host value = get_or value (text "127.0.0.1")

-- `httpPort`; `number` is `Number`.
abbrev http_port {ℓ} : {N : Type ℓ} → (Text → N) → Option Text → N
http_port number value = number (get_or value (text "8008"))

-- `raw.split(",")`: the piece up to the first comma, and the rest.
abbrev split_commas : Text → Text → List Text
split_commas piece [] = piece ∷ []
split_commas piece (c ∷ s) =
    if c == b',' then piece ∷ split_commas [] s else split_commas (piece ++ c ∷ []) s

-- `allowedHosts`
unfoldable pub allowed_hosts : Option Text → List Text
allowed_hosts none = []
allowed_hosts (some raw) = filter non_empty (map trim (split_commas [] raw))

-- `filteredTools`
unfoldable pub filtered_tools : Option Text → List Text
filtered_tools none = []
filtered_tools (some raw) = map trim (split_commas [] raw)

-- `assertIdbPathUnset`: the name that it complains of.
unfoldable pub assert_idb_path_unset : Dict Text → Option Text
assert_idb_path_unset env = elim (set_value env (text "SIMGADGET_IDB_PATH")) [
  | some value ↦ some (text "SIMGADGET_IDB_PATH")
  | none ↦ elim (set_value env (text "IOS_SIMULATOR_MCP_IDB_PATH")) [
    | some value ↦ some (text "IOS_SIMULATOR_MCP_IDB_PATH")
    | none ↦ none
  ]
]
