-- ===== src/Simulator/Finding/Laws.antt =====
-- Whatever is found by label was reported by the companion under that name.
use simgadget.Prelude.{ℕ, ◌+◌, ◌*◌, ◌≤◌, ◌≡◌, false, Option, none, some}
use simgadget.Prelude.Text.{Text}
use simgadget.Ax.Element.{str, RawKeys, AxKeys, RawTree}
use simgadget.Ax.Match.{match_in_tree}
use simgadget.Ax.Recovery.{is_no_element_error}
use simgadget.Simulator.Reading.{value, error, Handle, Outcome, done, failed, not_answering}
use simgadget.Simulator.Reading.Report.{Report}
use simgadget.Simulator.Finding.{
  SearchableKey, label_key, unique_id_key, Companion, reported, screen_elements, Found,
}

-- What is known of a hit under a key: under an identifier, that it is the identifier of the element.
abbrev pub Exact : SearchableKey → Text → RawKeys → Type 0
Exact label_key marker raw = Unit
Exact unique_id_key marker raw = raw.ax_unique_id ≡ str marker

module _ (c : Companion) (name : Text) where
  -- Where an element that is found comes from.
  abbrev pub FoundBy : SearchableKey → AxKeys → Type 0
  FoundBy key e =
      (k : ℕ) × (raw : RawKeys) × (c.by_marker key name k ≡ value (some raw))
      × Exact key name raw
      × (e ≡ reported raw)

  abbrev pub FoundOn : AxKeys → Type 0
  FoundOn e =
      (k : ℕ) × (tree : RawTree) × (c.screen k ≡ value tree)
      × (match_in_tree (screen_elements tree) name ≡ some e)

  -- A query for a marker failed, and not because nothing has it.
  abbrev pub Fails : Type 0
  Fails =
      (key : SearchableKey) × (k : ℕ) × (m : Text) × (c.by_marker key name k ≡ error m)
      × (is_no_element_error m ≡ false)

  -- An outcome, where an element found is as `Source` says.
  abbrev pub Sourced : (AxKeys → Type 0) → Outcome (Option AxKeys) → Type 0
  Sourced Source (done (some e)) = Source e
  Sourced Source (done none) = Unit
  Sourced Source (failed m) = Fails
  Sourced Source (not_answering tried) = Fails

  -- `n` lookups end, each after at most four reads; what they find is as `Source` says; and where
  -- they find nothing each of them has read.
  abbrev pub Reached : ℕ → (AxKeys → Type 0) → Handle → Found → Type 0
  Reached n Source h found =
      (h' : Handle) × (out : Outcome (Option AxKeys)) × (found ≡ some (h', out))
      × (h'.reads ≤ h.reads + 4 * n)
      × Sourced Source out
      × (out ≡ done none → h.reads + n ≤ h'.reads)
