-- ===== src/Schema/Otlp/Decimal.antt =====
-- The decimal digits of `strconv.FormatInt`: the fuel of `digits` is enough.
use apexio.Base.{
  ltb-lt, ltb-ge, ℕ, zero, suc, ◌+◌, ◌-◌, ◌*◌, ◌/◌, ◌%◌, ◌<◌, ◌≡◌, refl, ◌∙◌, ap, [], ◌∷◌, ltb,
  Bool-cases, some, inl, inr, arith,
}
use apexio.Base.Int.{pos, negsuc}
use apexio.Base.Text.{Text, Unicode}
use apexio.Schema.Scan.{Floats}
use apexio.Schema.Otlp.{digits, any_value_to_string, int_value}

-- The number that digits stand for, behind a number that was read before them.
abbrev pub value_from : ℕ → Text → ℕ
value_from n [] = n
value_from n (c ∷ s) = value_from (n * 10 + (c - b'0')) s

last_digit : (n : ℕ) → n < 10 → 0 * 10 + (b'0' + n % 10 - b'0') ≡ n
last_digit n below = omega (arith, below)

digit_on : (n : ℕ) → n / 10 * 10 + (b'0' + n % 10 - b'0') ≡ n
digit_on n = omega arith

-- With more fuel than the number, the digits stand for it, in front of those that are there.
pub value_from-digits :
    (fuel n : ℕ) (acc : Text) → n < fuel → value_from 0 (digits fuel n acc) ≡ value_from n acc
unfolding digits
value_from-digits zero n acc below = ground (arith, below)
value_from-digits (suc fuel) n acc below = elim (Bool-cases (ltb n 10)) [
  | inl small ↦ rw (small) (ap (λ m. value_from m acc) (last_digit n (ltb-lt n 10 small)))
  | inr large ↦ rw (large) (
      value_from-digits fuel (n / 10) ((b'0' + n % 10) ∷ acc)
        (omega (arith, below, ltb-ge n 10 large))
      ∙ ap (λ m. value_from m acc) (digit_on n))
]

module _ ⦃u : Unicode⦄ ⦃f : Floats⦄ where
  -- `anyValueToString` prints an integer that is not negative as decimal digits that stand for it,
  -- and a negative one as a minus sign and the digits of its absolute value.
  pub value_from-any_value_to_string :
      (n : ℕ)
      → (value_from 0 (any_value_to_string (some (int_value (pos n)))) ≡ n)
        × (s : Text) × (any_value_to_string (some (int_value (negsuc n))) ≡ b'-' ∷ s)
        × (value_from 0 s ≡ suc n)
  unfolding any_value_to_string
  value_from-any_value_to_string n = (
    value_from-digits (suc n) n [] (omega arith),
    digits (suc (suc n)) (suc n) [],
    refl,
    value_from-digits (suc (suc n)) (suc n) [] (omega arith),
  )
