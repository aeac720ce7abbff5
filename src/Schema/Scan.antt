-- ===== src/Schema/Scan.antt =====
-- `fmt.Sscanf` with the verbs that pkg/schema/event.go uses.
use apexio.Base.{ℕ, ◌+◌, ◌-◌, ◌*◌, ◌/◌, ◌%◌, ◌^◌, Bool, true, false}
use apexio.Base.{◌&&◌, ◌||◌, Option, none, some, [], ◌∷◌, ltb, leb, ◌==◌, if◌then◌else◌}
use apexio.Base.Text.{Text, is_space}

-- The space that comes before a value. A newline among it is an error.
unfoldable pub skip_space : Text → Option Text
unfolding is_space
skip_space [] = some []
skip_space (c ∷ s) =
    let rest = skip_space s in if c == 0x0a then none else if is_space c then rest else some (c ∷ s)

abbrev is_digit : ℕ → Bool
is_digit c = leb b'0' c && leb c b'9'

-- The value of the longest run of digits in front, on top of `n`.
unfoldable pub digits_value : ℕ → Text → ℕ
digits_value n [] = n
digits_value n (c ∷ s) =
    let rest = digits_value (n * 10 + (c - b'0')) s in if is_digit c then rest else n

abbrev starts_with_digit : Text → Bool
starts_with_digit [] = false
starts_with_digit (c ∷ _) = is_digit c

abbrev uint_token : Text → Option ℕ
uint_token s =
    let n = digits_value 0 s in
    if starts_with_digit s then (if ltb n (2 ^ 64) then some n else none) else none

-- `fmt.Sscanf(v, "%d", &n)` into a uint64: no sign, and text behind the digits is left alone.
unfoldable pub scan_uint : Text → Option ℕ
unfolding skip_space digits_value
scan_uint v = elim (skip_space v) [ none ↦ none | some s ↦ uint_token s ]

-- A float64 by its bit pattern.
abbrev pub Float64 : Type 0
Float64 = ℕ

-- NaN and the infinities have all bits of the exponent set.
unfoldable pub is_finite : Float64 → Bool
is_finite w = if w / 2 ^ 52 % 2 ^ 11 == 0x7ff then false else true

abbrev pub nan : Float64
nan = 0x7ff8_0000_0000_0001

abbrev pub infinity : Float64
infinity = 0x7ff0_0000_0000_0000

abbrev pub neg_infinity : Float64
neg_infinity = 0xfff0_0000_0000_0000

-- `strconv.ParseFloat` on what is no special word, and the printing that OTLP values take.
pub record Floats : Type 0 where
  pub parse : Text → Option Float64
  pub format : Float64 → Text

-- The letter `c`, a capital, in either case.
abbrev letter : ℕ → ℕ → Bool
letter c d = d == c || d == c + 32

abbrev is_nan_word : Text → Bool
is_nan_word (a ∷ b ∷ c ∷ _) = letter b'N' a && letter b'A' b && letter b'N' c
is_nan_word _ = false

abbrev is_inf_word : Text → Bool
is_inf_word (a ∷ b ∷ c ∷ _) = letter b'I' a && letter b'N' b && letter b'F' c
is_inf_word _ = false

abbrev signed_inf : Text → Option Float64
signed_inf [] = none
signed_inf (c ∷ s) =
    if is_inf_word (c ∷ s)
    then some infinity
    else if c == b'+' && is_inf_word s
    then some infinity
    else if c == b'-' && is_inf_word s
    then some neg_infinity
    else none

module _ ⦃f : Floats⦄ where
  abbrev float_token : Text → Option Float64
  float_token s =
      if is_nan_word s then some nan else elim (signed_inf s) [ some w ↦ some w | none ↦ f.parse s ]

  -- `fmt.Sscanf(v, "%f", &f)`
  unfoldable pub scan_float : Text → Option Float64
  unfolding skip_space
  scan_float v = elim (skip_space v) [ none ↦ none | some s ↦ float_token s ]
