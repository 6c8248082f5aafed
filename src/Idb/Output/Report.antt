-- ===== src/Idb/Output/Report.antt =====
-- The socket that a companion reports is found however its output is cut into chunks.
use mathlib.Core.List.{append_assoc, append-nil}
use simgadget.Prelude.{
  ℕ, zero, suc, ◌<◌, ◌==◌, ◌≡◌, refl, sym, ap, ◌∙◌, inl, inr, if◌then◌else◌, List, [], ◌∷◌, ◌++◌,
  Option, none, some, length, arith, Bool-cases, Option-cases,
}
use simgadget.Prelude.Text.{Text}
use simgadget.Idb.Output.{newline, cut, drain, on_data, receive}

abbrev pub first_of : Option Text → Option Text → Option Text
first_of none later = later
first_of (some path) later = some path

-- All the output at once.
abbrev pub concat : List Text → Text
concat [] = []
concat (chunk ∷ chunks) = chunk ++ concat chunks

module _ (reported : Text → Option Text) where
  -- The report of the first complete line that has one, by one pass over the output; `line` is what
  -- has been read of a line.
  abbrev pub first_report : Text → Text → Option Text
  first_report line [] = none
  first_report line (c ∷ s) =
      if c == newline
      then first_of (reported line) (first_report [] s)
      else first_report (line ++ c ∷ []) s

  cut-report :
      (line b more l r : Text)
      → cut b ≡ some (l, r)
      → first_report line (b ++ more)
        ≡ first_of (reported (line ++ l)) (first_report [] (r ++ more))
  unfolding cut
  cut-report line [] more l r e = cc
  cut-report line (c ∷ s) more l r e = elim (Bool-cases (c == newline)) [
    | inl ends ↦
        let taken : ◌≡◌ {A = Option (Text × Text)} (some ([], s)) (some (l, r)) =
          rw (ends, cut) at e in
        let nothing_before : [] ≡ l = cc in
        let all_behind : s ≡ r = cc in rw (ends, ← nothing_before, ← all_behind, append-nil) refl
    | inr goes_on ↦ elim (Option-cases (cut s)) [
      | inl nothing ↦ ground arith
      | inr ((l', r'), found) ↦ rw goes_on (
          ground
            (arith, cut-report (line ++ c ∷ []) s more l' r' found, append_assoc line (c ∷ []) l'))
    ]
  ]

  uncut-report : (line b : Text) → cut b ≡ none → first_report line b ≡ none
  unfolding cut
  uncut-report line [] e = refl
  uncut-report line (c ∷ s) e = ground (arith, uncut-report (line ++ c ∷ []) s)

  cut-shorter : (b l r : Text) → cut b ≡ some (l, r) → length r < length b
  unfolding cut
  cut-shorter [] l r e = cc
  cut-shorter (c ∷ s) l r e = elim (Option-cases (cut s)) [
    | inl nothing ↦ ground arith
    | inr ((l', r'), found) ↦ ground (arith, cut-shorter s l' r' found)
  ]

  -- What the loop has taken from the buffer, and what it leaves there, make up the whole.
  drain-report :
      (fuel : ℕ) (b more : Text)
      → length b < fuel
      → (first_report [] (b ++ more)
          ≡ first_of
              (drain reported fuel b).0
              (first_report [] ((drain reported fuel b).1 ++ more)))
        × ((drain reported fuel b).0 ≡ none → cut (drain reported fuel b).1 ≡ none)
  unfolding drain
  drain-report zero b more lt = absurd (omega arith)
  drain-report (suc fuel) b more lt = elim (Option-cases (cut b)) [
    | inl nothing ↦ rw (nothing, drain) (refl, λ e. nothing)
    | inr ((l, r), found) ↦ elim (Option-cases (reported l)) [
      | inr (path, told) ↦
          rw (found, told, drain) (cut-report [] b more l r found ∙ rw told refl, λ e. cc)
      | inl silent ↦
          let (whole, rest) = drain-report fuel r more (omega (arith, cut-shorter b l r found)) in
          rw (found, silent, drain) (cut-report [] b more l r found ∙ rw silent whole, rest)
    ]
  ]

  report-append_assoc :
      (buffer chunk : Text) (chunks : List Text)
      → first_report [] ((buffer ++ chunk) ++ concat chunks)
        ≡ first_report [] (buffer ++ concat (chunk ∷ chunks))
  report-append_assoc buffer chunk chunks =
      ap (first_report []) (append_assoc buffer chunk (concat chunks))

  receive-report :
      (buffer : Text) (chunks : List Text)
      → cut buffer ≡ none
      → receive reported buffer chunks ≡ first_report [] (buffer ++ concat chunks)
  unfolding receive on_data
  receive-report buffer [] e = sym (rw (append-nil buffer) (uncut-report [] buffer e))
  receive-report buffer (chunk ∷ chunks) e =
      let all = buffer ++ chunk in
      let (whole, rest) = drain-report (suc (length all)) all (concat chunks) (omega arith) in
      elim (Option-cases (drain reported (suc (length all)) all).0) [
        | inr (path, told) ↦
            rw (told, receive, on_data)
              (sym (rw told at (sym (report-append_assoc buffer chunk chunks) ∙ whole)))
        | inl silent ↦
            rw (silent, receive, on_data)
              (receive-report (drain reported (suc (length all)) all).1 chunks (rest silent)
                ∙ sym (rw silent at (sym (report-append_assoc buffer chunk chunks) ∙ whole)))
      ]

  -- Through whatever chunks the output of a companion arrives, the socket that it is taken to report is
  -- that of the first complete line which reports one, and there is none exactly if no such line has
  -- come.
  pub receive-first_report :
      (chunks : List Text) → receive reported [] chunks ≡ first_report [] (concat chunks)
  unfolding cut
  receive-first_report chunks = receive-report [] chunks refl
