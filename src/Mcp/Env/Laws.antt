-- ===== src/Mcp/Env/Laws.antt =====
-- The new name wins, and an old one is warned of once.
use simgadget.Prelude.{
  ℕ, suc, if◌then◌else◌, ◌≡◌, refl, inl, inr, Bool, true, false, ◌&&◌, ◌||◌, not, List, [], ◌∷◌,
  arith, Bool-cases, Option-cases, is_some,
}
use simgadget.Prelude.Text.{Text, text_eq, text_eq_iff, member}
use simgadget.Prelude.Dict.{Dict}
use simgadget.Mcp.Env.{set_value, new_name, old_name, read_env, read_all}

-- How often a name stands in a list.
abbrev pub count : Text → List Text → ℕ
count x [] = 0
count x (y ∷ ys) = if text_eq y x then suc (count x ys) else count x ys

-- Only the old name of a variable is set.
pub only_old : Dict Text → Text → Bool
only_old env name =
    not (is_some (set_value env (new_name name))) && is_some (set_value env (old_name name))

read_env-quiet :
    (env : Dict Text) (warned : List Text) (name : Text)
    → (only_old env name && not (member name warned)) ≡ false
    → ((read_env env warned name).warnings ≡ []) × ((read_env env warned name).warned ≡ warned)
unfolding read_env only_old
read_env-quiet env warned name h = elim (Option-cases (set_value env (new_name name))) [
  | inr (value, new) ↦ rw (new, read_env) (refl, refl)
  | inl no_new ↦ elim (Option-cases (set_value env (old_name name))) [
    | inl no_old ↦ rw (no_new, no_old, read_env) (refl, refl)
    | inr (value, old) ↦
        let known : member name warned ≡ true = ground arith in
        rw (no_new, old, known, read_env) (refl, refl)
  ]
]

read_env-loud :
    (env : Dict Text) (warned : List Text) (name : Text)
    → (only_old env name && not (member name warned)) ≡ true
    → ((read_env env warned name).warnings ≡ name ∷ [])
      × ((read_env env warned name).warned ≡ name ∷ warned)
unfolding read_env only_old
read_env-loud env warned name h = elim (Option-cases (set_value env (new_name name))) [
  | inr (value, new) ↦ absurd (ground arith)
  | inl no_new ↦ elim (Option-cases (set_value env (old_name name))) [
    | inl no_old ↦ absurd (ground arith)
    | inr (value, old) ↦
        let unknown : member name warned ≡ false = ground arith in
        rw (no_new, old, unknown, read_env) (refl, refl)
  ]
]

-- The warnings that are left for a name, after those before.
abbrev left_for : Dict Text → Text → List Text → List Text → ℕ
left_for env x warned names =
    if only_old env x && not (member x warned) && member x names then 1 else 0

member_cons : (x y : Text) (ys : List Text) → member x (y ∷ ys) ≡ (text_eq y x || member x ys)
unfolding member
member_cons x y ys = refl

member_nil : (x : Text) → member x [] ≡ false
unfolding member
member_nil x = refl

loud_count :
    (env : Dict Text) (x name : Text) (warned names : List Text)
    → (only_old env name && not (member name warned)) ≡ true
    → (if text_eq name x
        then suc (left_for env x (name ∷ warned) names)
        else left_for env x (name ∷ warned) names)
      ≡ left_for env x warned (name ∷ names)
loud_count env x name warned names loud = elim (Bool-cases (text_eq name x)) [
  | inl same ↦
      let eq : name ≡ x = (text_eq_iff name x).0 same in
      let loud_x : (only_old env x && not (member x warned)) ≡ true = rw (← eq) loud in
      rw (same, member_cons x name warned, member_cons x name names) (ground arith)
  | inr other ↦
      rw (other, member_cons x name warned, member_cons x name names, other) (ground arith)
]

quiet_count :
    (env : Dict Text) (x name : Text) (warned names : List Text)
    → (only_old env name && not (member name warned)) ≡ false
    → left_for env x warned names ≡ left_for env x warned (name ∷ names)
quiet_count env x name warned names quiet = elim (Bool-cases (text_eq name x)) [
  | inl same ↦
      let eq : name ≡ x = (text_eq_iff name x).0 same in
      let quiet_x : (only_old env x && not (member x warned)) ≡ false = rw (← eq) quiet in
      rw (member_cons x name names, same) (ground arith)
  | inr other ↦ rw (member_cons x name names, other) (ground arith)
]

read_all-left :
    (env : Dict Text) (x : Text) (warned names : List Text)
    → count x (read_all env warned names) ≡ left_for env x warned names
unfolding read_all
read_all-left env x warned [] = ground (arith, member_nil x)
read_all-left env x warned (name ∷ names) =
    elim (Bool-cases (only_old env name && not (member name warned))) [
      | inl loud ↦
          let (warns, after) = read_env-loud env warned name loud in
          rw (warns, after, read_all-left env x (name ∷ warned) names)
            (loud_count env x name warned names loud)
      | inr quiet ↦
          let (warns, after) = read_env-quiet env warned name quiet in
          rw (warns, after, read_all-left env x warned names)
            (quiet_count env x name warned names quiet)
    ]

-- However often the variables are read, and in whatever order, the old name of one is warned of
-- exactly once if the variable is read and only its old name is set, and else never.
read_all-once :
    (env : Dict Text) (x : Text) (names : List Text)
    → count x (read_all env [] names) ≡ (if only_old env x && member x names then 1 else 0)
read_all-once env x names = rw (read_all-left env x [] names) (ground (arith, member_nil x))
