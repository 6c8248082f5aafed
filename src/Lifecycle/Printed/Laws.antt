-- ===== src/Lifecycle/Printed/Laws.antt =====
-- What is read of the reply of a launch.
use mathlib.Core.List.{append-nil, reverse, reverse_aux}
use simgadget.Prelude.{
  ℕ, zero, suc, ◌+◌, ◌-◌, ◌*◌, ◌/◌, ◌%◌, ◌≤◌, ◌<◌, ◌≡◌, refl, true, false, List, [], ◌∷◌, ◌++◌,
  some, length, arith, ap, ◌∙◌,
}
use simgadget.Prelude.Int.{pos}
use simgadget.Prelude.Text.{Text, is_space, trim, trim_start}
use simgadget.Ax.Element.{string_of, num, show_digits}
use simgadget.Lifecycle.Printed.{
  Numeral, numeral, is_digit, pid_of, parse_launch_pid, max_safe_integer,
}

reverse_aux-append {ℓ} :
    {A : Type ℓ} (xs ys r : List A) → reverse_aux (xs ++ ys) r ≡ reverse_aux ys (reverse_aux xs r)
reverse_aux-append [] ys r = refl
reverse_aux-append (x ∷ xs) ys r = reverse_aux-append xs ys (x ∷ r)

reverse_aux-reverse_aux {ℓ} :
    {A : Type ℓ} (xs t r : List A) → reverse_aux (reverse_aux xs t) r ≡ reverse_aux t (xs ++ r)
reverse_aux-reverse_aux [] t r = refl
reverse_aux-reverse_aux (x ∷ xs) t r = reverse_aux-reverse_aux xs (x ∷ t) r

-- The digits of a number, last one first, and what is read of them.
record Digits (n : ℕ) (ds : Text) : Type 0 where
  printed : (done : Text) → (fuel : ℕ) → n ≤ fuel → show_digits fuel n done ≡ reverse_aux ds done
  read :
      (c : ℕ) (rest : Text)
      → is_digit c ≡ false
      → numeral (ds ++ c ∷ rest) ≡ record { digits = length ds; number = n; rest = c ∷ rest }

show_digits-zero : (fuel : ℕ) (done : Text) → show_digits fuel 0 done ≡ done
unfolding show_digits
show_digits-zero zero done = refl
show_digits-zero (suc fuel) done = refl

show_digits-suc :
    (fuel n : ℕ) (done : Text)
    → 0 < n
    → show_digits (suc fuel) n done ≡ show_digits fuel (n / 10) ((n % 10 + b'0') ∷ done)
unfolding show_digits
show_digits-suc fuel n done positive = ground arith

numeral-stops :
    (c : ℕ) (rest : Text)
    → is_digit c ≡ false
    → numeral (c ∷ rest) ≡ record { digits = 0; number = 0; rest = c ∷ rest }
unfolding numeral
numeral-stops c rest e = rw (e) refl

numeral-goes_on :
    (d : ℕ) (s : Text) (m : Numeral)
    → is_digit d ≡ true
    → numeral s ≡ m
    → numeral (d ∷ s)
      ≡ record { digits = suc m.digits; number = (d - b'0') + 10 * m.number; rest = m.rest }
unfolding numeral
numeral-goes_on d s m e same = rw (e, same) refl

digit-eq : (n : ℕ) → is_digit (n % 10 + b'0') ≡ true
digit-eq n = ground arith

zero-Digits : Digits 0 []
zero-Digits = record {
  printed = λ done fuel le. show_digits-zero fuel done;
  read = λ c rest e. numeral-stops c rest e;
}

value-eq : (n : ℕ) → ((n % 10 + b'0') - b'0') + 10 * (n / 10) ≡ n
value-eq n = omega arith

printed_more :
    (n : ℕ) (ds : Text) (done : Text) (fuel : ℕ)
    → 0 < n
    → n ≤ fuel
    → Digits (n / 10) ds
    → show_digits fuel n done ≡ reverse_aux ds ((n % 10 + b'0') ∷ done)
printed_more n ds done zero positive le rest = absurd (omega arith)
printed_more n ds done (suc fuel) positive le rest =
    show_digits-suc fuel n done positive ∙ rest.printed ((n % 10 + b'0') ∷ done) fuel (omega arith)

next-Digits : (n : ℕ) (ds : Text) → 0 < n → Digits (n / 10) ds → Digits n ((n % 10 + b'0') ∷ ds)
next-Digits n ds positive rest = record {
  printed = λ done fuel le. printed_more n ds done fuel positive le rest;
  read = λ c more e.
      numeral-goes_on (n % 10 + b'0') (ds ++ c ∷ more) _ (digit-eq n) (rest.read c more e)
      ∙ ap (λ v. record { digits = suc (length ds); number = v; rest = c ∷ more }) (value-eq n);
}

Digits-of : (fuel n : ℕ) → n ≤ fuel → (ds : Text) × Digits n ds
Digits-of fuel zero le = ([], zero-Digits)
Digits-of zero (suc n) le = absurd (omega arith)
Digits-of (suc fuel) (suc n) le =
    let (ds, rest) = Digits-of fuel (suc n / 10) (omega arith) in
    ((suc n % 10 + b'0') ∷ ds, next-Digits (suc n) ds (omega arith) rest)

trim_start-eq : (c : ℕ) (s : Text) → is_space c ≡ false → trim_start (c ∷ s) ≡ c ∷ s
unfolding trim_start
trim_start-eq c s e = rw (e) refl

-- A text that begins with no space and ends with one line break.
trim-line :
    (c : ℕ) (s : Text) (d : ℕ) (back : Text)
    → is_space c ≡ false
    → is_space d ≡ false
    → reverse (c ∷ s) ≡ b'\n' ∷ d ∷ back
    → reverse (trim (c ∷ s)) ≡ d ∷ back
unfolding trim is_space
trim-line c s d back front last reversed =
    ap (λ t. reverse (reverse (trim_start (reverse t)))) (trim_start-eq c s front)
    ∙ ap (λ t. reverse (reverse (trim_start t))) reversed
    ∙ ap (λ t. reverse (reverse t)) (trim_start-eq d back last)
    ∙ reverse_aux-reverse_aux (d ∷ back) [] []
    ∙ append-nil (d ∷ back)

-- The reply of a launch, for a bundle identifier and a process.
abbrev pub launch_line : Text → ℕ → Text
launch_line bundle pid = bundle ++ b':' ∷ b' ' ∷ (string_of (num (pos pid)) ++ b'\n' ∷ [])

shown-eq : (n : ℕ) → 0 < n → string_of (num (pos n)) ≡ show_digits n n []
unfolding string_of
shown-eq n positive = ground arith

-- A reply read from its end.
line-reversed :
    (front ds : Text)
    → reverse (front ++ b':' ∷ b' ' ∷ (reverse ds ++ b'\n' ∷ []))
      ≡ b'\n' ∷ (ds ++ b' ' ∷ b':' ∷ reverse front)
line-reversed front ds =
    reverse_aux-append front (b':' ∷ b' ' ∷ (reverse ds ++ b'\n' ∷ [])) []
    ∙ reverse_aux-append (reverse ds) (b'\n' ∷ []) (b' ' ∷ b':' ∷ reverse front)
    ∙ ap (λ t. b'\n' ∷ t) (reverse_aux-reverse_aux ds [] (b' ' ∷ b':' ∷ reverse front))

space-digit : (n : ℕ) → is_space (n % 10 + b'0') ≡ false
unfolding is_space
space-digit n = ground arith

pid_of-eq :
    (digits n : ℕ) (rest : Text)
    → 0 < n
    → n ≤ max_safe_integer
    → pid_of (record { digits = suc digits; number = n; rest = b' ' ∷ rest }) ≡ some n
unfolding is_space
pid_of-eq digits n rest positive safe = ground arith

-- The process identifier that simctl prints, behind a bundle identifier, a colon and a space, is the
-- one that is read: whatever the bundle identifier, so long as it does not begin with a space, and
-- whatever the number, so long as it is positive and safe as an integer.
pub parse_launch_pid-line :
    (c : ℕ) (bundle : Text) (pid : ℕ)
    → is_space c ≡ false
    → 0 < pid
    → pid ≤ max_safe_integer
    → parse_launch_pid (launch_line (c ∷ bundle) pid) ≡ some pid
unfolding parse_launch_pid
parse_launch_pid-line c bundle zero front positive safe = absurd (omega arith)
parse_launch_pid-line c bundle (suc n) front positive safe =
    let (ds, lower) = Digits-of n (suc n / 10) (omega arith) in
    let digits = next-Digits (suc n) ds positive lower in
    let all_ds = (suc n % 10 + b'0') ∷ ds in
    let shown : string_of (num (pos (suc n))) ≡ reverse all_ds =
      shown-eq (suc n) positive ∙ digits.printed [] (suc n) (omega arith) in
    let reversed : reverse (launch_line (c ∷ bundle) (suc n))
        ≡ b'\n' ∷ (all_ds ++ b' ' ∷ b':' ∷ reverse (c ∷ bundle)) =
      ap (λ t. reverse (c ∷ bundle ++ b':' ∷ b' ' ∷ (t ++ b'\n' ∷ []))) shown
      ∙ line-reversed (c ∷ bundle) all_ds in
    ap (λ t. pid_of (numeral t))
      (trim-line c _ (suc n % 10 + b'0') _ front (space-digit (suc n)) reversed)
    ∙ ap pid_of (digits.read b' ' (b':' ∷ reverse (c ∷ bundle)) refl)
    ∙ pid_of-eq (length ds) (suc n) (b':' ∷ reverse (c ∷ bundle)) positive safe
