-- ===== src/Simulator/Finding.antt =====
-- packages/simgadget/src/simulator.ts: `findByLabel` and `findByMarker`, on a simulator that was not
-- deleted. The marks that a simulator has answered are the registry's.
pub mod Laws
use simgadget.Prelude.{ℕ, if◌then◌else◌, Bool, true, false, Option, none, some}
use simgadget.Prelude.Text.{Text, text_eq}
use simgadget.Prelude.Forest.{map_forest}
use simgadget.Ax.Element.{Value, str, RawKeys, AxKeys, RawTree, to_raw, opt_str}
use simgadget.Ax.Canonical.{canonicalise, reconcile_type}
use simgadget.Ax.Match.{match_in_tree}
use simgadget.Ax.Prune.{prune_tree}
use simgadget.Ax.Recovery.{is_no_element_error}
use simgadget.Ax.Remote.{translate_remote_subtrees}
use simgadget.Simulator.Reading.{
  Reply, value, error, Outside, Handle, Outcome, done, failed, not_answering,
  with_accessibility_recovery,
}

pub data SearchableKey : Type 0 where
  label_key unique_id_key : SearchableKey

-- What the companion answers to the k-th read of the handle, by what is asked: a marker, or the
-- screen. The rest is as for any read under recovery.
pub record Companion : Type 0 where
  pub by_marker : SearchableKey → Text → ℕ → Reply (Option RawKeys)
  pub screen : ℕ → Reply RawTree
  pub read_ms : ℕ → ℕ
  pub restart : ℕ → Bool
  pub restart_ms : ℕ → ℕ
  pub probe : ℕ → Bool
  pub probe_ms : ℕ → ℕ

abbrev pub reading {ℓ} : {A : Type ℓ} → Companion → (ℕ → Reply A) → Outside A
reading c read = record {
  read = read;
  read_ms = c.read_ms;
  restart = c.restart;
  restart_ms = c.restart_ms;
  probe = c.probe;
  probe_ms = c.probe_ms;
}

-- `element.AXUniqueId === marker`
abbrev pub identified : Value → Text → Bool
identified (str id) marker = text_eq id marker
identified _ marker = false

-- Whether a hit is let through: one by identifier only if it is exact.
abbrev pub is_hit : SearchableKey → Text → RawKeys → Bool
is_hit label_key marker element = true
is_hit unique_id_key marker element = identified element.ax_unique_id marker

-- The element handed out, with the type that the tree would say.
abbrev pub reported : RawKeys → AxKeys
reported element =
    canonicalise (record element { type = opt_str (reconcile_type element.type element.subrole) })

-- One attempt of `findByMarker`.
unfoldable pub read_marker : SearchableKey → Text → Reply (Option RawKeys) → Reply (Option AxKeys)
read_marker key marker (value none) = value none
read_marker key marker (value (some element)) =
    if is_hit key marker element then value (some (reported element)) else value none
read_marker key marker (error e) = if is_no_element_error e then value none else error e

-- The screen as `readScreenTree` hands it to `matchInTree`.
abbrev pub screen_elements : RawTree → RawTree
screen_elements tree = map_forest to_raw (prune_tree (translate_remote_subtrees tree))

abbrev pub Found : Type 0
Found = Option (Handle × Outcome (Option AxKeys))

-- The next lookup, where one found nothing.
abbrev pub or_else : Found → (Handle → Found) → Found
or_else none next = none
or_else (some (h, done none)) next = next h
or_else (some (h, done (some element))) next = some (h, done (some element))
or_else (some (h, failed e)) next = some (h, failed e)
or_else (some (h, not_answering tried)) next = some (h, not_answering tried)

-- The last lookup, which takes a screen that cannot be read for one without the element.
abbrev pub matched : Text → Option (Handle × Outcome RawTree) → Found
matched label none = none
matched label (some (h, done tree)) = some (h, done (match_in_tree (screen_elements tree) label))
matched label (some (h, failed e)) = some (h, done none)
matched label (some (h, not_answering tried)) = some (h, done none)

module _ (c : Companion) where
  unfoldable pub find_by_marker : SearchableKey → Text → Handle → Found
  unfolding read_marker
  find_by_marker key marker h =
      with_accessibility_recovery
        (reading c (λ k. read_marker key marker (c.by_marker key marker k))) h

  unfoldable pub find_by_label : Text → Handle → Found
  unfolding find_by_marker
  find_by_label label h = or_else (find_by_marker label_key label h) λ h₁.
      or_else (find_by_marker unique_id_key label h₁)
        λ h₂. matched label (with_accessibility_recovery (reading c c.screen) h₂)
