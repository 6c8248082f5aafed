-- ===== src/Simulator/Pointing/Laws.antt =====
-- What an element at a point is made of.
use simgadget.Prelude.{ℕ, ◌+◌, ◌≤◌, ◌≡◌, ◌⊎◌, true, false, ◌&&◌, Option, none, some}
use simgadget.Prelude.Int.{ℤ}
use simgadget.Prelude.Text.{Text}
use simgadget.Ax.Element.{Frame, RawKeys, AxKeys, RawTree, to_raw}
use simgadget.Ax.Geometry.{is_remotely_hosted}
use simgadget.Ax.Locate.{locate_in_tree}
use simgadget.Ax.Recovery.{is_wedge_error}
use simgadget.Simulator.Reading.{value, error, Handle, Outcome, done, failed, not_answering}
use simgadget.Simulator.Reading.Report.{Report}
use simgadget.Simulator.Finding.{reported, screen_elements, Found}
use simgadget.Simulator.Pointing.{Pointer, rounded}

module _ (p : Pointer) (at : ℤ × ℤ) where
  -- Nothing is there: the companion says so, or it fails as at a wedge while the screen can be read.
  abbrev pub Nothing : ℤ × ℤ → Type 0
  Nothing q =
      (k : ℕ) × ((p.by_point (rounded q) k ≡ value none)
        ⊎ ((m : Text) × (p.by_point (rounded q) k ≡ error m)
            × (is_wedge_error m ≡ true)
            × (p.answering k ≡ true)))

  -- The element that a read of the point gave.
  abbrev pub Hit : ℤ × ℤ → AxKeys → Type 0
  Hit q e =
      (k : ℕ) × (raw : RawKeys) × (p.by_point (rounded q) k ≡ value (some raw)) × (e ≡ reported raw)

  -- A read of the point that failed, and is not the wedge of a simulator whose screen can be read.
  abbrev pub Fails : ℤ × ℤ → Text → Type 0
  Fails q m =
      (k : ℕ) × (p.by_point (rounded q) k ≡ error m) × ((is_wedge_error m && p.answering k) ≡ false)

  abbrev pub Pointed : ℤ × ℤ → Outcome (Option AxKeys) → Type 0
  Pointed q (done none) = Nothing q
  Pointed q (done (some e)) = Hit q e
  Pointed q (failed m) = Fails q m
  Pointed q (not_answering tried) = (m : Text) × (is_wedge_error m ≡ true) × Fails q m

  -- The element of the point with another frame: its own lies far from the point, and the screen that
  -- was read then has it there.
  abbrev pub Moved : AxKeys → AxKeys → Type 0
  Moved e₀ e =
      (own : Frame) × (k : ℕ) × (tree : RawTree) × (frame : Frame) × (e₀.frame ≡ some own)
      × (is_remotely_hosted own at.0 at.1 ≡ true)
      × (p.companion.screen k ≡ value tree)
      × (locate_in_tree (screen_elements tree) (to_raw e₀) at.0 at.1 ≡ some frame)
      × (e ≡ record e₀ { frame = some frame })

  abbrev pub Corrected : AxKeys → Outcome (Option AxKeys) → Type 0
  Corrected e₀ (done none) = ⊥
  Corrected e₀ (done (some e)) = (e ≡ e₀) ⊎ Moved e₀ e
  Corrected e₀ (failed m) = ⊥
  Corrected e₀ (not_answering tried) = ⊥

  -- A read that came to an end after at most so many reads, and where an element was corrected.
  abbrev pub Ends : ℕ → (Outcome (Option AxKeys) → Type 0) → Handle → Found → Type 0
  Ends n Tells h found =
      (h' : Handle) × (out : Outcome (Option AxKeys)) × (found ≡ some (h', out))
      × (h'.reads ≤ h.reads + n)
      × Tells out

  -- How the element at the point is told.
  abbrev pub Answers : Outcome (Option AxKeys) → Type 0
  Answers (done none) = (q : ℤ × ℤ) × (p.to_portrait at ≡ value q) × Nothing q
  Answers (done (some e)) =
      (q : ℤ × ℤ) × (e₀ : AxKeys) × (p.to_portrait at ≡ value q)
      × Hit q e₀
      × ((e ≡ e₀) ⊎ Moved e₀ e)
  Answers (failed m) =
      (p.to_portrait at ≡ error m) ⊎ ((q : ℤ × ℤ) × (p.to_portrait at ≡ value q) × Fails q m)
  Answers (not_answering tried) =
      (q : ℤ × ℤ) × (m : Text) × (p.to_portrait at ≡ value q)
      × (is_wedge_error m ≡ true)
      × Fails q m
