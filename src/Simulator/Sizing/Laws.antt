-- ===== src/Simulator/Sizing/Laws.antt =====
-- A size that is handed out was read.
use simgadget.Prelude.{
  ◌≡◌, ◌⊎◌, refl, inl, inr, if◌then◌else◌, Bool, true, false, Option, none, some, ap, sym, ◌∙◌,
}
use simgadget.Prelude.Int.{ℤ, pos}
use simgadget.Prelude.Run.{Reply, value, throws, done, act, and_then, and_then-value, value-inj}
use simgadget.Ax.Element.{Frame, RawTree, is_degenerate_tree}
use simgadget.Simulator.Describing.{
  Verdict, Failure, unreadable, not_found, Act, describes_all, diagnose_empty_tree,
}
use simgadget.Simulator.Sizing.{
  Sizer, first_frame, size_of, if_readable, size_again, diagnosed, screen_size,
}

abbrev pub size_in : Option Frame → ℤ × ℤ
size_in none = (pos 0, pos 0)
size_in (some frame) = (frame.width, frame.height)

-- The tree that a size comes from.
pub record Measured (s : Sizer) (tree : RawTree) : Type 0 where
  pub usable : is_degenerate_tree tree ≡ false
  pub was_read : (s.outside.describe_all ≡ value tree) ⊎ (s.describe_again ≡ value tree)

-- What returns past a test that throws has failed the test.
past_test :
    (test : Bool) (verdict : Verdict) (elements tree : RawTree)
    → (if test then done {Act = Act} (throws (unreadable verdict)) else done (value elements)).ended
      ≡ value tree
    → (elements ≡ tree) × (test ≡ false)
past_test true verdict elements tree returned = cc
past_test false verdict elements tree returned = (value-inj elements tree returned, refl)

if_readable-value :
    (verdict : Verdict) (elements tree : RawTree)
    → (if_readable verdict elements).ended ≡ value tree
    → (elements ≡ tree) × (is_degenerate_tree tree ≡ false)
if_readable-value verdict elements tree returned =
    let (same, usable) = past_test (is_degenerate_tree elements) verdict elements tree returned in
    (same, ap is_degenerate_tree (sym same) ∙ usable)

again-value :
    (recovered : Bool) (elements now : RawTree) (reply : Reply Failure RawTree)
    → (if recovered then act describes_all reply else done (value elements)).ended ≡ value now
    → (elements ≡ now) ⊎ (reply ≡ value now)
again-value true elements now reply returned = inr returned
again-value false elements now reply returned = inl (value-inj elements now returned)

module _ (s : Sizer) where
  size_again-value :
      (elements tree : RawTree) (conclusion : Verdict × Bool)
      → (size_again s elements conclusion).ended ≡ value tree
      → ((elements ≡ tree) ⊎ (s.describe_again ≡ value tree)) × (is_degenerate_tree tree ≡ false)
  size_again-value elements tree (verdict, recovered) returned =
      let (now, read, judged, _) =
        and_then-value
          (if recovered then act describes_all s.describe_again else done (value elements))
          (if_readable verdict) tree returned in
      let (same, usable) = if_readable-value verdict now tree judged in
      (
        elim (again-value recovered elements now s.describe_again read) [
          | inl kept ↦ inl (kept ∙ same)
          | inr again ↦ inr (again ∙ ap value same)
        ],
        usable,
      )

  diagnosed_by-value :
      (test : Bool) (elements tree : RawTree)
      → is_degenerate_tree elements ≡ test
      → (if test
          then and_then (diagnose_empty_tree s.outside) (size_again s elements)
          else done (value elements)).ended
        ≡ value tree
      → ((elements ≡ tree) ⊎ (s.describe_again ≡ value tree)) × (is_degenerate_tree tree ≡ false)
  diagnosed_by-value true elements tree tested returned =
      let (conclusion, _, judged, _) =
        and_then-value (diagnose_empty_tree s.outside) (size_again s elements) tree returned in
      size_again-value elements tree conclusion judged
  diagnosed_by-value false elements tree tested returned =
      let same = value-inj elements tree returned in
      (inl same, ap is_degenerate_tree (sym same) ∙ tested)

  size_of-value :
      (frame : Option Frame) (size : ℤ × ℤ)
      → (size_of frame).ended ≡ value size
      → size_in frame ≡ size
  size_of-value none size returned = value-inj (pos 0, pos 0) size returned
  size_of-value (some frame) size returned = value-inj (frame.width, frame.height) size returned

  size_of-size_in : (frame : Option Frame) → (size_of frame).ended ≡ value (size_in frame)
  size_of-size_in none = refl
  size_of-size_in (some frame) = refl

  measured :
      (size : ℤ × ℤ)
      → (and_then
          (and_then (act describes_all s.outside.describe_all) (diagnosed s))
          (λ elements. size_of (first_frame elements))).ended
        ≡ value size
      → (tree : RawTree) × Measured s tree × (size_in (first_frame tree) ≡ size)
  measured size returned =
      let (tree, read, sized, _) =
        and_then-value (and_then (act describes_all s.outside.describe_all) (diagnosed s))
          (λ elements. size_of (first_frame elements)) size returned in
      let (elements, first, judged, _) =
        and_then-value (act describes_all s.outside.describe_all) (diagnosed s) tree read in
      let (came, usable) =
        diagnosed_by-value (is_degenerate_tree elements) elements tree refl judged in
      (
        tree,
        record {
          usable = usable;
          was_read = elim came [ inl same ↦ inl (first ∙ ap value same) | inr again ↦ inr again ];
        },
        size_of-value (first_frame tree) size sized,
      )

  size_unless_deleted :
      (gone : Bool) (size : ℤ × ℤ)
      → (if gone
          then done (throws not_found)
          else and_then
              (and_then (act describes_all s.outside.describe_all) (diagnosed s))
              (λ elements. size_of (first_frame elements))).ended
        ≡ value size
      → (gone ≡ false) × (tree : RawTree) × Measured s tree × (size_in (first_frame tree) ≡ size)
  size_unless_deleted true size returned = cc
  size_unless_deleted false size returned =
      let (tree, read, sized) = measured size returned in (refl, tree, read, sized)

  -- Where the size of the screen is handed out, the simulator was not deleted, and the size
  -- is the one in the first frame of a tree, zeros where there is none, that is not
  -- degenerate and that the first read or the one after the diagnosis answered.
  pub screen_size-Measured :
      (size : ℤ × ℤ)
      → (screen_size s).ended ≡ value size
      → (s.outside.deleted ≡ false)
        × (tree : RawTree) × Measured s tree
        × (size_in (first_frame tree) ≡ size)
  unfolding screen_size
  screen_size-Measured size returned = size_unless_deleted s.outside.deleted size returned

  screen_size-read :
      (tree : RawTree)
      → s.outside.deleted ≡ false
      → s.outside.describe_all ≡ value tree
      → is_degenerate_tree tree ≡ false
      → (screen_size s).ended ≡ value (size_in (first_frame tree))
  unfolding screen_size
  screen_size-read tree kept read usable =
      rw (kept, read, usable) (size_of-size_in (first_frame tree))
