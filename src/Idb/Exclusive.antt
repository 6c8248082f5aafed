-- ===== src/Idb/Exclusive.antt =====
-- packages/simgadget/src/idb/companionManager.ts: `exclusively`, the chain of promises by which the
-- calls that must not interleave run one after another.
pub mod Order
pub mod Laws
use simgadget.Prelude.{
  ℕ, suc, ◌==◌, if◌then◌else◌, Bool, true, false, List, [], ◌∷◌, Option, none, some,
}
use simgadget.Prelude.Text.{Text}
use simgadget.Prelude.Dict.{Dict, get, put, delete}
use simgadget.Idb.Companions.{update}

pub data Progress : Type 0 where
  absent waiting running settled : Progress

-- One call: `next`, which starts once the tail `after` has settled, or at once where there is none;
-- its own tail settles with it, however it ends.
pub record Job : Type 0 where
  pub udid : Text
  pub after : Option ℕ
  pub progress : Progress

abbrev pub no_job : Job
no_job = record { udid = []; after = none; progress = absent }

-- `locks`, and the calls so far, by their number.
pub record Chains : Type 0 where
  pub locks : Dict ℕ
  pub jobs : ℕ → Job
  pub next : ℕ

abbrev pub new_chains : Chains
new_chains = record { locks = []; jobs = λ j. no_job; next = 0 }

-- `exclusively` itself.
unfoldable pub exclusively : Text → Chains → Chains
exclusively udid c = record {
  locks = put udid c.next c.locks;
  jobs =
      update c.jobs c.next (record { udid = udid; after = get udid c.locks; progress = waiting });
  next = suc c.next;
}

abbrev pub is_settled : Progress → Bool
is_settled settled = true
is_settled _ = false

-- Whether what a call waits for has settled.
abbrev pub is_free : Option ℕ → Chains → Bool
is_free none c = true
is_free (some i) c = is_settled (c.jobs i).progress

abbrev pub started : Progress → Bool → Progress
started waiting true = running
started p free = p

abbrev pub ended : Progress → Progress
ended running = settled
ended p = p

-- The handler on the tail: a tail that is still the last one is dropped.
abbrev pub dropped : ℕ → Option ℕ → Text → Dict ℕ → Dict ℕ
dropped j none udid locks = locks
dropped j (some t) udid locks = if t == j then delete udid locks else locks

abbrev pub drop_if : Progress → ℕ → Chains → Chains
drop_if settled j c = record c {
  locks = dropped j (get (c.jobs j).udid c.locks) (c.jobs j).udid c.locks;
}
drop_if _ j c = c

-- A call comes in, starts, ends with a value or an error, or has its tail dropped.
pub data Event : Type 0 where
  enqueues : Text → Event
  starts ends drops : ℕ → Event

unfoldable pub step : Chains → Event → Chains
unfolding exclusively
step c (enqueues udid) = exclusively udid c
step c (starts j) =
    let job = c.jobs j in
    record c {
      jobs = update c.jobs j (record job { progress = started job.progress (is_free job.after c) });
    }
step c (ends j) = record c {
  jobs = update c.jobs j (record (c.jobs j) { progress = ended (c.jobs j).progress });
}
step c (drops j) = drop_if (c.jobs j).progress j c

unfoldable pub run : Chains → List Event → Chains
unfolding step
run c [] = c
run c (e ∷ es) = run (step c e) es
