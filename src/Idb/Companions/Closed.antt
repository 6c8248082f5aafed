-- ===== src/Idb/Companions/Closed.antt =====
-- Which simulators are closed to new companions: only a `close` and a `reopen` change that.
use simgadget.Prelude.{
  ℕ, ◌≡◌, ◌≢◌, refl, inl, inr, if◌then◌else◌, Bool, true, false, not, List, [], ◌∷◌, Option, none,
  some, filter, arith, Bool-cases, Option-cases, ◌∙◌, ap,
}
use simgadget.Prelude.Text.{Text, text_eq, text_eq_iff, text_eq_refl, member}
use simgadget.Prelude.Dict.{get}
use simgadget.Idb.Companions.{
  Stage, published, Manager, is_live, retire, begin_spawn, cold, warm, with_found, companion_for,
  stop, shutdown, close, reopen, Event, asks, shuts_down, shuts_all_down, shutdown_each, keys,
  stops, closes, reopens, resolves, fails_to_resolve, binds, fails_to_bind, connects,
  fails_to_connect, settles, retires, exits, step, retire_at, gives,
}
use simgadget.Idb.Companions.Kept.{either-keeps}

-- An event that neither closes nor reopens the simulator.
abbrev pub Foreign : Text → Event → Type 0
Foreign udid (closes other) = other ≢ udid
Foreign udid (reopens other) = other ≢ udid
Foreign udid _ = Unit

cold-closed : (udid : Text) (m : Manager) → (cold udid m).0.closed ≡ m.closed
unfolding cold begin_spawn
cold-closed udid m = elim (Option-cases (get udid m.spawning)) [
  | inl quiet ↦ rw (quiet, cold) refl
  | inr (g, under_way) ↦ rw (under_way, cold) refl
]

retire-closed : (g : ℕ) (m : Manager) → (retire g m).closed ≡ m.closed
unfolding retire
retire-closed g m = refl

found-closed :
    (udid : Text) (found : Option ℕ) (m : Manager) → (with_found udid found m).0.closed ≡ m.closed
unfolding with_found warm
found-closed udid none m = cold-closed udid m
found-closed udid (some g) m =
    either-keeps (λ n. n.closed ≡ m.closed) (is_live (m.instances g)) (m, gives g) _ refl
      (cold-closed udid (retire g m) ∙ retire-closed g m)

asked-closed : (udid : Text) (m : Manager) → (companion_for udid m).0.closed ≡ m.closed
unfolding companion_for
asked-closed udid m = elim (Bool-cases (member udid m.closed)) [
  | inl shut ↦ rw (shut, companion_for) refl
  | inr not_shut ↦ rw (not_shut, companion_for) (found-closed udid (get udid m.companions) m)
]

stopped-closed : (udid : Text) (m : Manager) → (stop udid m).closed ≡ m.closed
unfolding stop retire
stopped-closed udid m = elim (Option-cases (get udid m.companions)) [
  | inl nothing ↦ rw (nothing, stop) refl
  | inr (g, at) ↦ rw (at, stop) refl
]

shut_down-closed : (udid : Text) (m : Manager) → (shutdown udid m).closed ≡ m.closed
unfolding shutdown
shut_down-closed udid m = elim (Option-cases (get udid m.spawning)) [
  | inl quiet ↦ rw (quiet, shutdown) (stopped-closed udid m)
  | inr (g, under_way) ↦ rw (under_way, shutdown) refl
]

shutdown_each-closed : (udids : List Text) (m : Manager) → (shutdown_each udids m).closed ≡ m.closed
unfolding shutdown_each
shutdown_each-closed [] m = refl
shutdown_each-closed (udid ∷ udids) m =
    shutdown_each-closed udids (shutdown udid m) ∙ shut_down-closed udid m

close-closed : (udid : Text) (m : Manager) → (close udid m).closed ≡ udid ∷ m.closed
unfolding close
close-closed udid m = shut_down-closed udid (record m { closed = udid ∷ m.closed })

retired-closed : (stage : Stage) (g : ℕ) (m : Manager) → (retire_at stage g m).closed ≡ m.closed
unfolding retire
retired-closed published g m = refl
retired-closed _ g m = refl

-- One of two managers that agree.
either-closed :
    (test : Bool) (a b : Manager) (closed : List Text)
    → a.closed ≡ closed
    → b.closed ≡ closed
    → (if test then a else b).closed ≡ closed
either-closed true a b closed e f = e
either-closed false a b closed e f = f

member-reopened_other :
    (udid j : Text) (closed : List Text)
    → j ≢ udid
    → member udid (filter (λ x. not (text_eq x j)) closed) ≡ member udid closed
unfolding member
member-reopened_other udid j [] other = refl
member-reopened_other udid j (x ∷ xs) other =
    ground (arith, text_eq_iff x j, text_eq_iff x udid, member-reopened_other udid j xs other)

member-reopened_self :
    (udid : Text) (closed : List Text)
    → member udid (filter (λ x. not (text_eq x udid)) closed) ≡ false
unfolding member
member-reopened_self udid [] = refl
member-reopened_self udid (x ∷ xs) = ground (arith, member-reopened_self udid xs)

-- An event that neither closes nor reopens the simulator leaves it as closed as it was.
pub step-closed :
    (udid : Text) (m : Manager) (e : Event)
    → Foreign udid e
    → member udid (step m e).closed ≡ member udid m.closed
unfolding step reopen member
step-closed udid m (asks j) u = ap (member udid) (asked-closed j m)
step-closed udid m shuts_all_down u = ap (member udid) (shutdown_each-closed (keys m.companions) m)
step-closed udid m (shuts_down j) u = ap (member udid) (shut_down-closed j m)
step-closed udid m (stops j) u = ap (member udid) (stopped-closed j m)
step-closed udid m (closes j) other =
    ap (member udid) (close-closed j m) ∙ ground (arith, text_eq_iff j udid)
step-closed udid m (reopens j) other = member-reopened_other udid j m.closed other
step-closed udid m (settles g) u = ap (member udid) (either-closed _ _ m m.closed refl refl)
step-closed udid m (retires g) u = ap (member udid) (retired-closed _ g m)
step-closed udid m (exits g code) u = ap (member udid) (either-closed _ _ m m.closed refl refl)
step-closed udid m (resolves g) u = refl
step-closed udid m (fails_to_resolve g) u = refl
step-closed udid m (binds g) u = refl
step-closed udid m (fails_to_bind g) u = refl
step-closed udid m (connects g) u = refl
step-closed udid m (fails_to_connect g) u = refl

-- After a `close` the simulator is closed, and after a `reopen` it is not.
pub closed-after :
    (udid : Text) (m : Manager)
    → (member udid (step m (closes udid)).closed ≡ true)
      × (member udid (step m (reopens udid)).closed ≡ false)
unfolding step reopen member
closed-after udid m = (
  ap (member udid) (close-closed udid m) ∙ ground (arith, text_eq_refl udid),
  member-reopened_self udid m.closed,
)
