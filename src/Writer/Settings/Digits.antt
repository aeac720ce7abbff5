-- ===== src/Writer/Settings/Digits.antt =====
-- The integers of the settings of cmd/writer/main.go: printed digits are read back.
use apexio.Base.{
  ltb-lt, ltb-ge, ℕ, zero, suc, ◌+◌, ◌-◌, ◌*◌, ◌/◌, ◌%◌, ◌^◌, ◌<◌, ◌≤◌, ◌≡◌, refl, ◌∙◌, ap, true,
  false, [], ◌∷◌, ltb, Bool-cases, some, inl, inr, arith,
}
use apexio.Base.Int.{ℤ, pos, negsuc, ◌≤ℤ◌}
use apexio.Base.Text.{Text, is_empty}
use apexio.Os.{Env}
use apexio.Schema.Otlp.{digits, format_nat, format_int}
use apexio.Writer.Settings.Numbers.{atoi, parse_digits, read_sign, is_digit, leading_int}
use apexio.Writer.Settings.{env_int}

is_digit-digit : (n : ℕ) → is_digit (b'0' + n % 10) ≡ true
is_digit-digit n = ground arith

digit_value : (n : ℕ) → n / 10 * 10 + (b'0' + n % 10 - b'0') ≡ n
digit_value n = omega arith

small_value : (n : ℕ) → n < 10 → 0 * 10 + (b'0' + n % 10 - b'0') ≡ n
small_value n below = omega (arith, below)

parse_digits-step :
    (m c : ℕ) (s : Text)
    → is_digit c ≡ true
    → parse_digits m (c ∷ s) ≡ parse_digits (m * 10 + (c - b'0')) s
unfolding parse_digits
parse_digits-step m c s d = rw (d, parse_digits) refl

-- With more fuel than the number, its digits are read on top of nothing.
parse_digits-digits :
    (fuel n : ℕ) (acc : Text) → n < fuel → parse_digits 0 (digits fuel n acc) ≡ parse_digits n acc
unfolding digits
parse_digits-digits zero n acc below = ground (arith, below)
parse_digits-digits (suc fuel) n acc below = elim (Bool-cases (ltb n 10)) [
  | inl small ↦ rw (small) (
      parse_digits-step 0 (b'0' + n % 10) acc (is_digit-digit n)
      ∙ ap (λ m. parse_digits m acc) (small_value n (ltb-lt n 10 small)))
  | inr large ↦ rw (large) (
      parse_digits-digits fuel (n / 10) ((b'0' + n % 10) ∷ acc)
        (omega (arith, below, ltb-ge n 10 large))
      ∙ (parse_digits-step (n / 10) (b'0' + n % 10) acc (is_digit-digit n)
          ∙ ap (λ m. parse_digits m acc) (digit_value n)))
]

leading_int-step :
    (m c : ℕ) (s : Text)
    → is_digit c ≡ true
    → m * 10 + (c - b'0') ≤ 2 ^ 63
    → leading_int m (c ∷ s) ≡ leading_int (m * 10 + (c - b'0')) s
unfolding leading_int
leading_int-step m c s d fits = ground (arith, fits)

pub leading_int-digits :
    (fuel n : ℕ) (acc : Text)
    → n < fuel
    → n ≤ 2 ^ 63
    → leading_int 0 (digits fuel n acc) ≡ leading_int n acc
unfolding digits
leading_int-digits zero n acc below fits = ground (arith, below)
leading_int-digits (suc fuel) n acc below fits = elim (Bool-cases (ltb n 10)) [
  | inl small ↦ rw (small) (
      leading_int-step 0 (b'0' + n % 10) acc (is_digit-digit n) (omega (arith, fits))
      ∙ ap (λ m. leading_int m acc) (small_value n (ltb-lt n 10 small)))
  | inr large ↦ rw (large) (
      leading_int-digits fuel (n / 10) ((b'0' + n % 10) ∷ acc)
        (omega (arith, below, ltb-ge n 10 large)) (omega (arith, fits))
      ∙ (leading_int-step (n / 10) (b'0' + n % 10) acc (is_digit-digit n) (omega (arith, fits))
          ∙ ap (λ m. leading_int m acc) (digit_value n)))
]

-- Printed digits begin with a digit.
abbrev pub Digital : Text → Type 0
Digital [] = ⊥
Digital (c ∷ s) = is_digit c ≡ true

pub Digital-digits : (fuel n : ℕ) (acc : Text) → n < fuel → Digital (digits fuel n acc)
unfolding digits
Digital-digits zero n acc below = absurd (omega (arith, below))
Digital-digits (suc fuel) n acc below = elim (Bool-cases (ltb n 10)) [
  | inl small ↦ rw (small) (is_digit-digit n)
  | inr large ↦ rw (large) (
      Digital-digits fuel (n / 10) ((b'0' + n % 10) ∷ acc)
        (omega (arith, below, ltb-ge n 10 large)))
]

pub read_sign-Digital : (s : Text) → Digital s → read_sign s ≡ (false, s)
read_sign-Digital [] d = elim d [ ]
read_sign-Digital (c ∷ s) d = ground arith

pub is_empty-Digital : (s : Text) → Digital s → is_empty s ≡ false
is_empty-Digital [] d = elim d [ ]
is_empty-Digital (c ∷ s) d = refl

format_nat-Digital : (n : ℕ) → Digital (format_nat n)
format_nat-Digital n = Digital-digits (suc n) n [] (omega arith)

parse_digits-format_nat : (n : ℕ) → parse_digits 0 (format_nat n) ≡ some n
unfolding parse_digits
parse_digits-format_nat n = parse_digits-digits (suc n) n [] (omega arith)

atoi-format_nat : (n : ℕ) → n < 2 ^ 63 → atoi (format_nat n) ≡ some (pos n)
unfolding atoi
atoi-format_nat n fits = go (format_nat n) (format_nat-Digital n) (parse_digits-format_nat n)
  where
    go : (s : Text) → Digital s → parse_digits 0 s ≡ some n → atoi s ≡ some (pos n)
    go s d parsed = rw (read_sign-Digital s d, is_empty-Digital s d, parsed) (ground (arith, fits))

atoi-negative : (n : ℕ) → n < 2 ^ 63 → atoi (b'-' ∷ format_nat (suc n)) ≡ some (negsuc n)
unfolding atoi
atoi-negative n fits =
    go (format_nat (suc n)) (format_nat-Digital (suc n)) (parse_digits-format_nat (suc n))
  where
    go :
        (s : Text) → Digital s → parse_digits 0 s ≡ some (suc n) → atoi (b'-' ∷ s) ≡ some (negsuc n)
    go s d parsed = rw (is_empty-Digital s d, parsed) (ground (arith, fits))

atoi-format_int :
    (z : ℤ) → negsuc (2 ^ 63 - 1) ≤ℤ z → z ≤ℤ pos (2 ^ 63 - 1) → atoi (format_int z) ≡ some z
atoi-format_int (pos n) lo hi = atoi-format_nat n (omega (arith, hi))
atoi-format_int (negsuc n) lo hi = atoi-negative n (omega (arith, lo))

is_empty-format_int : (z : ℤ) → is_empty (format_int z) ≡ false
is_empty-format_int (pos n) = is_empty-Digital (format_nat n) (format_nat-Digital n)
is_empty-format_int (negsuc n) = refl

-- A variable that holds a printed 64-bit integer is read as that integer.
pub env_int-format_int :
    (env : Env) (key : Text) (fallback z : ℤ)
    → negsuc (2 ^ 63 - 1) ≤ℤ z
    → z ≤ℤ pos (2 ^ 63 - 1)
    → env key ≡ format_int z
    → env_int env key fallback ≡ z
unfolding env_int
env_int-format_int env key fallback z lo hi held =
    rw (held, is_empty-format_int z, atoi-format_int z lo hi) refl
