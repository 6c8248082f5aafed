-- ===== src/Idb/Binary/Trust.antt =====
-- What a companion that is handed out has been through.
use simgadget.Prelude.{
  ◌≡◌, refl, if◌then◌else◌, Bool, true, false, [], ◌∷◌, Option, none, some, ap, sym, ◌∙◌,
}
use simgadget.Prelude.Text.{Text, text, text_eq, text_eq_iff, non_empty}
use simgadget.Prelude.Run.{
  Reply, value, throws, done, act, and_then, and_then-value, guarded-value, value-inj,
}
use simgadget.Idb.Binary.{
  Failure, download_failed, CompanionLock, World, before, behind, Act, fetches, extracts, unlinks,
  marks_executable, install_dir, binary_in, tarball_in, tree_in, make, smoke_test, unpacked,
  verified, download_into, download, fetched, unless_local, resolve_once, of_download,
}

-- A download that was checked: it has the checksum of the lock, and the binary in it ran.
pub record Checked (w : World) (lock : CompanionLock) (scratch : Text) : Type 0 where
  pub right_sum : w.fetch lock.url (tarball_in w scratch) ≡ value lock.sha256
  pub unpacks : w.extract (tarball_in w scratch) (tree_in w scratch) ≡ value tt
  pub holds_binary : w.exists (binary_in w (tree_in w scratch)) ≡ true
  pub starts : w.version (binary_in w (tree_in w scratch)) ≡ value tt

-- Where a companion comes from: the machine has it; or it lies in the place of the lock's checksum
-- and could be executed at the first look; or it lies there after a download that was checked, and
-- could be executed then.
pub data Trusted (w : World) (binary : Text) : Type 0 where
  local : w.local ≡ value (some binary) → non_empty binary ≡ true → Trusted w binary
  cached :
      (lock : CompanionLock)
      → w.read_lock ≡ value lock
      → binary ≡ binary_in w (install_dir w lock)
      → w.is_usable before binary ≡ true
      → Trusted w binary
  downloaded :
      (lock : CompanionLock) (scratch : Text)
      → w.read_lock ≡ value lock
      → binary ≡ binary_in w (install_dir w lock)
      → Checked w lock scratch
      → w.is_usable behind binary ≡ true
      → Trusted w binary

of_download-value :
    (reply : Reply {0, 0} Failure Unit) → of_download reply ≡ value tt → reply ≡ value tt
of_download-value (value u) e = refl
of_download-value (throws f) e = cc

module _ (w : World) (lock : CompanionLock) where
  unpacked-checked :
      (extracted : Text)
      → (unpacked w lock extracted).ended ≡ value tt
      → (w.exists (binary_in w extracted) ≡ true) × (w.version (binary_in w extracted) ≡ value tt)
  unpacked-checked extracted returned =
      let binary = binary_in w extracted in
      let (there, opened) = guarded-value (w.exists binary) _ download_failed tt returned in
      let (marked, _, tried, _) =
        and_then-value (act (marks_executable binary) (w.chmod binary)) _ tt opened in
      let (ran, version, _, _) = and_then-value (smoke_test w binary) _ tt tried in
      (there, of_download-value (w.version binary) version)

  verified-checked :
      (scratch : Text)
      → (verified w lock scratch).ended ≡ value tt
      → (w.extract (tarball_in w scratch) (tree_in w scratch) ≡ value tt)
        × (w.exists (binary_in w (tree_in w scratch)) ≡ true)
        × (w.version (binary_in w (tree_in w scratch)) ≡ value tt)
  verified-checked scratch returned =
      let tarball = tarball_in w scratch in
      let extracted = tree_in w scratch in
      let (_, _, made, _) = and_then-value (make w extracted) _ tt returned in
      let (_, out, unpacking, _) =
        and_then-value
          (act (extracts tarball extracted) (of_download (w.extract tarball extracted))) _ tt
          made in
      let (_, _, gone, _) =
        and_then-value (act (unlinks tarball) (w.unlink tarball)) _ tt unpacking in
      let (there, version) = unpacked-checked extracted gone in
      (of_download-value (w.extract tarball extracted) out, there, version)

  download_into-Checked :
      (scratch : Text) → (download_into w lock scratch).ended ≡ value tt → Checked w lock scratch
  download_into-Checked scratch returned =
      let tarball = tarball_in w scratch in
      let (sum, got, compared, _) =
        and_then-value (act (fetches lock.url tarball) (w.fetch lock.url tarball)) _ tt returned in
      let (same, unpacking) =
        guarded-value (text_eq sum lock.sha256) (verified w lock scratch) download_failed tt
          compared in
      let (out, there, version) = verified-checked scratch unpacking in
      record {
        right_sum = got ∙ ap value ((text_eq_iff sum lock.sha256).0 same);
        unpacks = out;
        holds_binary = there;
        starts = version;
      }

  download-Checked : (download w lock).ended ≡ value tt → (scratch : Text) × Checked w lock scratch
  unfolding download
  download-Checked returned =
      let (_, _, made, _) =
        and_then-value (make w (w.join (w.cache_root ∷ text "tmp" ∷ []))) _ tt returned in
      let (scratch, _, body, _) = and_then-value (done w.make_scratch) _ tt made in
      (scratch, download_into-Checked scratch body)

module _ (w : World) (lock : CompanionLock) (binary : Text)
    (locked : w.read_lock ≡ value lock) where
  abbrev place : Text
  place = binary_in w (install_dir w lock)

  placed-Trusted :
      (test : Bool)
      → w.is_usable before place ≡ test
      → (if test
          then done {Act = Act} {F = Failure} (value place)
          else and_then (download w lock) (λ installed.
            if w.is_usable behind place
            then done (value place)
            else done (throws download_failed))).ended
        ≡ value binary
      → Trusted w binary
  placed-Trusted true there returned =
      let same = value-inj place binary returned in
      cached lock locked (sym same) (ap (w.is_usable before) (sym same) ∙ there)
  placed-Trusted false missing returned =
      let (_, down, looked, _) = and_then-value (download w lock) _ binary returned in
      let (usable, given) =
        guarded-value (w.is_usable behind place) (done {Act = Act} (value place)) download_failed
          binary looked in
      let same = value-inj place binary given in
      let (scratch, checked) = download-Checked w lock down in
      downloaded lock scratch locked (sym same) checked
        (ap (w.is_usable behind) (sym same) ∙ usable)

  fetched-Trusted : (fetched w lock).ended ≡ value binary → Trusted w binary
  unfolding fetched
  fetched-Trusted returned = placed-Trusted (w.is_usable before place) refl returned

locked-Trusted :
    (w : World) (binary : Text)
    → (and_then (done w.read_lock) (fetched w)).ended ≡ value binary
    → Trusted w binary
locked-Trusted w binary returned =
    let (lock, locked, given, _) = and_then-value (done w.read_lock) (fetched w) binary returned in
    fetched-Trusted w lock binary locked given

local-Trusted :
    (w : World) (binary : Text) (found : Option Text)
    → w.local ≡ value found
    → (unless_local w found).ended ≡ value binary
    → Trusted w binary
unfolding unless_local
local-Trusted w binary none there returned = locked-Trusted w binary returned
local-Trusted w binary (some []) there returned = locked-Trusted w binary returned
local-Trusted w binary (some (c ∷ s)) there returned =
    let same = value-inj (c ∷ s) binary returned in
    local (there ∙ ap (λ t. value (some t)) same) (ap non_empty (sym same))

-- The path of a companion that a resolution returns: the machine has it itself; or it lies in the
-- directory named by the checksum of the lock, and could be executed there at once; or it lies there
-- after a download whose checksum is the lock's and whose binary ran, and can be executed.
pub resolve_once-Trusted :
    (w : World) (binary : Text) → (resolve_once w).ended ≡ value binary → Trusted w binary
unfolding resolve_once
resolve_once-Trusted w binary returned =
    let (found, there, given, _) = and_then-value (done w.local) (unless_local w) binary returned in
    local-Trusted w binary found there given
