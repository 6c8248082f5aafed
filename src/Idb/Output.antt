-- ===== src/Idb/Output.antt =====
-- packages/simgadget/src/idb/companionManager.ts: what is read of a companion's output, the report of
-- its socket on stdout (`awaitReadiness`) and the tail of its stderr (`spawn`).
pub mod Report
pub mod Tail
use simgadget.Prelude.{
  ℕ, zero, suc, ◌==◌, ltb, if◌then◌else◌, List, [], ◌∷◌, ◌++◌, Option, none, some, length,
}
use simgadget.Prelude.Text.{Text, trim, non_empty}

abbrev pub newline : ℕ
newline = 10

-- The slices before and behind the first newline.
unfoldable pub cut : Text → Option (Text × Text)
cut [] = none
cut (c ∷ s) =
    if c == newline
    then some ([], s)
    else elim (cut s) [ none ↦ none | some (line, rest) ↦ some (c ∷ line, rest) ]

-- What a line reports: its `grpc_path`, where it is JSON and has one.
module _ (reported : Text → Option Text) where
  -- The loop over the lines of the buffer, on fuel: what is reported, and what stays in the buffer.
  unfoldable pub drain : ℕ → Text → Option Text × Text
  unfolding cut
  drain zero buffer = (none, buffer)
  drain (suc fuel) buffer = elim (cut buffer) [
    | none ↦ (none, buffer)
    | some (line, rest) ↦ elim (reported line) [
      | some path ↦ (some path, rest)
      | none ↦ drain fuel rest
    ]
  ]

  -- One chunk of stdout. A line takes a character at least, so the fuel is enough.
  unfoldable pub on_data : Text → Text → Option Text × Text
  unfolding drain
  on_data buffer chunk = drain (suc (length (buffer ++ chunk))) (buffer ++ chunk)

  -- The chunks of stdout, until the socket is reported.
  unfoldable pub receive : Text → List Text → Option Text
  unfolding on_data
  receive buffer [] = none
  receive buffer (chunk ∷ chunks) = elim (on_data buffer chunk).0 [
    | some path ↦ some path
    | none ↦ receive (on_data buffer chunk).1 chunks
  ]

-- `STDERR_KEEP_LINES`
abbrev pub stderr_keep_lines : ℕ
stderr_keep_lines = 20

-- `stderrTail.shift()`
abbrev pub shift {ℓ} : {A : Type ℓ} → List A → List A
shift [] = []
shift (x ∷ xs) = xs

-- One line of a chunk of stderr.
unfoldable pub keep_line : List Text → Text → List Text
keep_line tail line =
    if non_empty (trim line)
    then (if ltb stderr_keep_lines (length (tail ++ line ∷ []))
        then shift (tail ++ line ∷ [])
        else tail ++ line ∷ [])
    else tail

-- `chunk.split("\n")`, where `line` is what has been read of a line.
unfoldable pub split_lines : Text → Text → List Text
split_lines line [] = line ∷ []
split_lines line (c ∷ s) =
    if c == newline then line ∷ split_lines [] s else split_lines (line ++ c ∷ []) s

unfoldable pub keep_lines : List Text → List Text → List Text
unfolding keep_line
keep_lines tail [] = tail
keep_lines tail (line ∷ lines) = keep_lines (keep_line tail line) lines

-- The chunks of stderr, in their order.
unfoldable pub keep_output : List Text → List Text → List Text
unfolding keep_lines split_lines
keep_output tail [] = tail
keep_output tail (chunk ∷ chunks) = keep_output (keep_lines tail (split_lines [] chunk)) chunks
