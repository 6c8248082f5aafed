-- ===== src/Tests/Binaries.antt =====
-- packages/simgadget/src/idb/companionBinary.ts: the theorems at concrete runs.
use simgadget.Prelude.{
  ℕ, zero, suc, ◌<◌, ◌≡◌, ◌⊎◌, refl, inl, inr, Bool, true, false, List, [], ◌∷◌, ◌++◌, none, some,
  length, arith,
}
use simgadget.Prelude.Text.{Text, text, text_eq, starts_with}
use simgadget.Prelude.Run.{Reply, value}
use simgadget.Idb.Binary.{
  World, Machine, before, racing, behind, resolve_once, unless_local, fetched, download,
  local_companion, resolve, Failure,
}
use simgadget.Idb.Binary.Trust.{resolve_once-Trusted, Trusted}
use simgadget.Idb.Binary.Stuck.{unusable_override_stuck, resolve-Given, Given, attempt_on}
use simgadget.Idb.Fetching.{Network, fetch_to_file}
use simgadget.Idb.Fetching.Laws.{fetch_to_file-Fetched, Fetched}

abbrev joined : List Text → Text
joined [] = []
joined (p ∷ ps) = p ++ b'/' ∷ joined ps

-- Nothing is there yet, and the download goes well.
abbrev world : World
world = record {
  local = value none;
  read_lock = value (record { url = text "u"; sha256 = text "s" });
  fetch = λ url to. value (text "s");
  join = joined;
  cache_root = text "c";
  make_directory = λ d. value tt;
  make_scratch = value (text "t");
  extract = λ from to. value tt;
  unlink = λ f. value tt;
  exists = λ f. true;
  chmod = λ f. value tt;
  version = λ f. value tt;
  rename = λ from to. value tt;
  is_usable = λ moment f. elim moment [ before ↦ false | racing ↦ false | behind ↦ true ];
}

resolve_once-Trusted_example : Trusted world (text "c/companion/s//idb_companion/")
unfolding resolve_once unless_local fetched download text_eq
resolve_once-Trusted_example =
    resolve_once-Trusted world (text "c/companion/s//idb_companion/") refl

-- A path is a row of letters, and its parent has one less.
abbrev parent : Text → Text
parent [] = []
parent (c ∷ s) = s

parent_shorter : (d : Text) → (parent d ≡ d) ⊎ (length (parent d) < length d)
parent_shorter [] = inl refl
parent_shorter (c ∷ s) = inr (omega arith)

-- The override names a file that cannot be executed.
abbrev machine : Machine
machine = record {
  idb_path_set = false;
  override = some (text "/x");
  home = λ p. p;
  exists = λ p. true;
  darwin = true;
  arm64 = true;
  vendor = none;
  vendor_usable = false;
}

unusable_override_stuck_example :
    resolve 9 (attempt_on (λ k. record world { local = local_companion machine })) (λ k p. false) 0
    ≡ none
unfolding starts_with
unusable_override_stuck_example =
    unusable_override_stuck machine (text "/x")
      (λ k. record world { local = local_companion machine }) (λ k p. false) 9 refl refl refl refl
      refl (λ k. refl) (λ k. refl)

-- The first companion has gone, and the second is there.
abbrev attempt : ℕ → Reply Failure Text
attempt k = value (text "x")

abbrev usable : ℕ → Text → Bool
usable zero p = false
usable (suc k) p = true

resolve-Given_example :
    (reply : Reply Failure Text) × (resolve 2 attempt usable 0 ≡ some reply)
    × Given attempt usable reply
resolve-Given_example = resolve-Given attempt usable 1 refl 2 (omega arith)

abbrev network : Network
network = record {
  protocol = λ url. some (text "https:");
  relative = λ location base. some location;
  request = λ url. value (record { status = 302; location = some (text "b"); body = value [] });
}

fetch_to_file-Fetched_example :
    Fetched network 5
      (fetch_to_file network (text "a")).acts
      (fetch_to_file network (text "a")).ended
fetch_to_file-Fetched_example = fetch_to_file-Fetched network (text "a")
