-- ===== src/Idb/Binary.antt =====
-- packages/simgadget/src/idb/companionBinary.ts: where the companion comes from. What the disk, the
-- network and the machine answer is told from outside; a path is a text, and `path.join` a parameter.
pub mod Trust
pub mod Walk
pub mod Stuck
use simgadget.Prelude.{
  ℕ, zero, suc, if◌then◌else◌, Bool, true, ◌&&◌, List, [], ◌∷◌, ◌++◌, Option, none, some,
}
use simgadget.Prelude.Text.{Text, text, text_eq, non_empty, starts_with}
use simgadget.Prelude.Run.{Reply, value, throws, Run, done, act, and_then}

-- `CompanionDownloadError`, `UnsupportedArchitectureError`, and an error of another kind.
pub data Failure : Type 0 where
  download_failed unsupported_architecture other_failure : Failure

-- `CompanionLock`, less the keys that only a message shows.
pub record CompanionLock : Type 0 where
  pub url : Text
  pub sha256 : Text

-- How a rename fails: the target is there, or otherwise.
pub data RenameError : Type 0 where
  target_exists other_error : RenameError

-- When it is asked whether a file can be executed.
pub data Moment : Type 0 where
  before racing behind : Moment

-- `CompanionSource`, and what the disk answers.
pub record World : Type 0 where
  pub local : Reply Failure (Option Text)
  pub read_lock : Reply Failure CompanionLock
  pub fetch : Text → Text → Reply Failure Text
  pub join : List Text → Text
  pub cache_root : Text
  pub make_directory : Text → Reply {0, 0} Failure Unit
  pub make_scratch : Reply Failure Text
  pub extract : Text → Text → Reply {0, 0} Failure Unit
  pub unlink : Text → Reply {0, 0} Failure Unit
  pub exists : Text → Bool
  pub chmod : Text → Reply {0, 0} Failure Unit
  pub version : Text → Reply {0, 0} Failure Unit
  pub rename : Text → Text → Reply {0, 0} RenameError Unit
  pub is_usable : Moment → Text → Bool

-- What is done on the disk and the network.
pub data Act : Type 0 where
  makes removes unlinks marks_executable runs_version : Text → Act
  fetches extracts renames : Text → Text → Act

abbrev pub installed : Reply {0, 0} RenameError Unit → Bool → Reply {0, 0} Failure Unit
installed (value u) usable = value tt
installed (throws target_exists) true = value tt
installed (throws e) usable = throws other_failure

-- A failure that becomes one of the download.
abbrev pub of_download : Reply {0, 0} Failure Unit → Reply {0, 0} Failure Unit
of_download (value u) = value tt
of_download (throws f) = throws download_failed

module _ (w : World) where
  abbrev pub install_dir : CompanionLock → Text
  install_dir lock = w.join (w.cache_root ∷ text "companion" ∷ lock.sha256 ∷ [])

  abbrev pub binary_in : Text → Text
  binary_in directory = w.join (directory ∷ text "idb_companion" ∷ [])

  abbrev pub tarball_in : Text → Text
  tarball_in scratch = w.join (scratch ∷ text "companion.tar.gz" ∷ [])

  abbrev pub tree_in : Text → Text
  tree_in scratch = w.join (scratch ∷ text "tree" ∷ [])

  abbrev pub make : Text → Run Act Failure (Unit {0})
  make directory = act (makes directory) (w.make_directory directory)

  -- `smokeTest`
  abbrev pub smoke_test : Text → Run Act Failure (Unit {0})
  smoke_test binary = act (runs_version binary) (of_download (w.version binary))

  -- The rename, which may be lost to another process.
  abbrev pub install : CompanionLock → Text → Run Act Failure (Unit {0})
  install lock extracted = act (renames extracted (install_dir lock)) (
      installed (w.rename extracted (install_dir lock))
        (w.is_usable racing (binary_in (install_dir lock))))

  -- From the check for the binary on.
  abbrev pub unpacked : CompanionLock → Text → Run Act Failure (Unit {0})
  unpacked lock extracted =
      let binary = binary_in extracted in
      if w.exists binary
      then and_then (act (marks_executable binary) (w.chmod binary)) (λ marked.
        and_then (smoke_test binary) (λ runs.
          and_then (make (w.join (w.cache_root ∷ text "companion" ∷ [])))
            (λ made. install lock extracted)))
      else done (throws download_failed)

  -- Where the checksum is right.
  abbrev pub verified : CompanionLock → Text → Run Act Failure (Unit {0})
  verified lock scratch =
      let tarball = tarball_in scratch in
      let extracted = tree_in scratch in
      and_then (make extracted) λ made.
        and_then (act (extracts tarball extracted) (of_download (w.extract tarball extracted)))
          λ out. and_then (act (unlinks tarball) (w.unlink tarball)) λ gone. unpacked lock extracted

  -- The body of the `try` of `download`.
  abbrev pub download_into : CompanionLock → Text → Run Act Failure (Unit {0})
  download_into lock scratch =
      let tarball = tarball_in scratch in
      and_then (act (fetches lock.url tarball) (w.fetch lock.url tarball)) λ actual_sha.
        if text_eq actual_sha lock.sha256
        then verified lock scratch
        else done (throws download_failed)

  -- `download`; its `finally` removes the scratch directory.
  unfoldable pub download : CompanionLock → Run Act Failure (Unit {0})
  download lock = and_then (make (w.join (w.cache_root ∷ text "tmp" ∷ []))) λ made.
      and_then (done w.make_scratch) λ scratch.
        let body = download_into lock scratch in
        record { acts = body.acts ++ removes scratch ∷ []; ended = body.ended }

  unfoldable pub fetched : CompanionLock → Run Act Failure Text
  unfolding download
  fetched lock =
      let binary = binary_in (install_dir lock) in
      if w.is_usable before binary
      then done (value binary)
      else and_then (download lock) (λ installed.
        if w.is_usable behind binary then done (value binary) else done (throws download_failed))

  unfoldable pub unless_local : Option Text → Run Act Failure Text
  unfolding download
  unless_local none = and_then (done w.read_lock) fetched
  unless_local (some local) =
      if non_empty local then done (value local) else and_then (done w.read_lock) fetched

  -- `resolveOnce`
  unfoldable pub resolve_once : Run Act Failure Text
  unfolding download
  resolve_once = and_then (done w.local) unless_local

-- The machine: whether the variable of an idb path is set, the override by its variable, what `~/`
-- stands for, the platform, and the build from the submodule.
pub record Machine : Type 0 where
  pub idb_path_set : Bool
  pub override : Option Text
  pub home : Text → Text
  pub exists : Text → Bool
  pub darwin : Bool
  pub arm64 : Bool
  pub vendor : Option Text
  pub vendor_usable : Bool

-- `expandTilde`
abbrev pub behind_two : Text → Text
behind_two (c ∷ d ∷ rest) = rest
behind_two _ = []

abbrev pub expand_tilde : (Text → Text) → Text → Text
expand_tilde home p = if starts_with (text "~/") p then home (behind_two p) else p

-- `assertSupportedArchitecture`
abbrev pub assert_supported_architecture : Bool → Bool → Reply {0, 0} Failure Unit
assert_supported_architecture darwin arm64 =
    if darwin && arm64 then value tt else throws unsupported_architecture

-- `locallyBuiltCompanion`
abbrev pub locally_built_companion : Machine → Option Text
locally_built_companion m = if m.vendor_usable then m.vendor else none

abbrev pub overridden : Machine → Text → Reply Failure (Option Text)
overridden m override =
    let expanded = expand_tilde m.home override in
    if m.exists expanded then value (some expanded) else throws other_failure

abbrev pub built : Machine → Reply {0, 0} Failure Unit → Reply Failure (Option Text)
built m (value u) = value (locally_built_companion m)
built m (throws f) = throws f

-- `localCompanion`
unfoldable pub local_companion : Machine → Reply Failure (Option Text)
local_companion m = if m.idb_path_set then throws other_failure else elim m.override [
  | none ↦ built m (assert_supported_architecture m.darwin m.arm64)
  | some override ↦
      if non_empty override
      then overridden m override
      else built m (assert_supported_architecture m.darwin m.arm64)
]

-- The resolver of `createCompanionResolver` as one caller meets it from its k-th attempt on: what
-- each attempt gives, and whether the file can be executed then. Out of fuel it returns nothing.
unfoldable pub resolve :
    ℕ → (ℕ → Reply Failure Text) → (ℕ → Text → Bool) → ℕ → Option (Reply Failure Text)
resolve zero attempt usable k = none
resolve (suc fuel) attempt usable k =
    let again = resolve fuel attempt usable (suc k) in
    elim (attempt k) [
      | throws f ↦ some (throws f)
      | value binary ↦ if usable k binary then some (value binary) else again
    ]

-- `findVendorCompanion`, on fuel; `dirname` and the path of the candidate are parameters.
unfoldable pub find_vendor_companion :
    ℕ → (Text → Text) → (Text → Text) → (Text → Bool) → Text → Option (Option Text)
find_vendor_companion zero dirname candidate exists dir = none
find_vendor_companion (suc fuel) dirname candidate exists dir =
    let above = find_vendor_companion fuel dirname candidate exists (dirname dir) in
    if exists (candidate dir)
    then some (some (candidate dir))
    else if text_eq (dirname dir) dir
    then some none
    else above
