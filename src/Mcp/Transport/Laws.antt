-- ===== src/Mcp/Transport/Laws.antt =====
-- The two forms of a flag, and who is answered.
use simgadget.Prelude.{
  ◌≡◌, refl, Bool, true, ◌&&◌, not, ◌==◌, List, [], ◌∷◌, ◌++◌, none, some, arith,
}
use simgadget.Prelude.Text.{Text}
use simgadget.Mcp.Transport.{CliArgs, key_of, value_of, flag_of, takes_value, parse_from}

-- No `=` stands in a text.
abbrev no_eq : Text → Bool
no_eq [] = true
no_eq (c ∷ s) = not (c == b'=') && no_eq s

key_of-joined : (key value : Text) → no_eq key ≡ true → key_of (key ++ b'=' ∷ value) ≡ key
key_of-joined [] value h = refl
key_of-joined (c ∷ key) value h = ground (arith, key_of-joined key value)

value_of-joined :
    (key value : Text) → no_eq key ≡ true → value_of (key ++ b'=' ∷ value) ≡ some value
value_of-joined [] value h = refl
value_of-joined (c ∷ key) value h = ground (arith, value_of-joined key value)

key_of-plain : (key : Text) → no_eq key ≡ true → key_of key ≡ key
key_of-plain [] h = refl
key_of-plain (c ∷ key) h = ground (arith, key_of-plain key)

value_of-plain : (key : Text) → no_eq key ≡ true → value_of key ≡ none
value_of-plain [] h = refl
value_of-plain (c ∷ key) h = ground (arith, value_of-plain key)

-- A flag that takes a value is read alike with its value behind a `=` and with its value in the next
-- argument, wherever it stands among the arguments, after those that leave no flag waiting; and a
-- value may itself have a `=`, or look like a flag.
parse_from-forms :
    (flag value : Text) (out : CliArgs) (argv : List Text)
    → takes_value (flag_of flag) ≡ true
    → no_eq flag ≡ true
    → parse_from none out ((flag ++ b'=' ∷ value) ∷ argv)
      ≡ parse_from none out (flag ∷ value ∷ argv)
unfolding parse_from
parse_from-forms flag value out argv takes plain =
    rw
      (
        parse_from,
        value_of-joined flag value plain,
        value_of-plain flag plain,
        key_of-joined flag value plain,
        key_of-plain flag plain,
        takes,
        value_of-joined flag value plain,
      )
      refl
