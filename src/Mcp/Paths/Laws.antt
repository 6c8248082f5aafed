-- ===== src/Mcp/Paths/Laws.antt =====
-- When the path that comes out is absolute.
use simgadget.Prelude.{
  ◌≡◌, refl, ◌∙◌, inl, inr, Bool, true, false, ◌||◌, not, [], ◌∷◌, Option, none, some, arith,
  Bool-cases,
}
use simgadget.Prelude.Text.{Text, text, is_empty, starts_with}
use simgadget.Mcp.Paths.{is_absolute, drop_two, default_dir, ensure_absolute_path}

-- A default directory that is fit for use: none, an absolute one, or one below the home directory.
abbrev anchored : Option Text → Bool
anchored none = true
anchored (some custom) = is_absolute custom || starts_with (text "~/") custom

-- `readEnv` gives no empty text.
abbrev pub filled : Option Text → Bool
filled none = true
filled (some custom) = not (is_empty custom)

filled-absolute : (s : Text) → is_absolute s ≡ true → is_empty s ≡ false
filled-absolute [] h = ground arith
filled-absolute (c ∷ s) h = refl

-- Where the home directory is absolute, and `path.join` with a first part that is not empty gives
-- an absolute path exactly if that part is one: the result is absolute exactly if the caller's path
-- is absolute or begins with `~/`, or the default directory is absolute or begins with `~/` or is
-- not set. So a relative default directory lets a relative path through.
pub ensure_absolute_path-absolute :
    (join : Text → Text → Text) (home : Text) (custom : Option Text) (path : Text)
    → is_absolute home ≡ true
    → filled custom ≡ true
    → ((first rest : Text)
        → is_empty first ≡ false
        → is_absolute (join first rest) ≡ is_absolute first)
    → is_absolute (ensure_absolute_path join home custom path)
      ≡ (is_absolute path || starts_with (text "~/") path || anchored custom)
unfolding ensure_absolute_path
ensure_absolute_path-absolute join home custom path home_absolute set joined =
    elim (Bool-cases (is_absolute path)) [
      | inl absolute ↦ rw (absolute, ensure_absolute_path) (ground (arith, absolute))
      | inr relative ↦ elim (Bool-cases (starts_with (text "~/") path)) [
        | inl tilde ↦ rw (relative, tilde, ensure_absolute_path) (below_home (drop_two path))
        | inr bare ↦
            let (kept, anchor) = dir custom set in
            rw (relative, bare, ensure_absolute_path)
              (joined (default_dir join home custom) path kept ∙ anchor)
      ]
    ]
  where
    below_home : (rest : Text) → is_absolute (join home rest) ≡ true
    below_home rest = joined home rest (filled-absolute home home_absolute) ∙ home_absolute

    dir :
        (c : Option Text)
        → filled c ≡ true
        → (is_empty (default_dir join home c) ≡ false)
          × (is_absolute (default_dir join home c) ≡ anchored c)
    dir none h =
        unfold default_dir in
        (filled-absolute _ (below_home (text "Downloads")), below_home (text "Downloads"))
    dir (some c) h =
        unfold default_dir in
        elim (Bool-cases (starts_with (text "~/") c)) [
          | inl tilde ↦
              rw (tilde, default_dir)
                (
                  filled-absolute _ (below_home (drop_two c)),
                  ground (arith, below_home (drop_two c)),
                )
          | inr plain ↦ rw (plain, default_dir) (ground arith, ground arith)
        ]
