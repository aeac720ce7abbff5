-- ===== src/Writer/Settings/Units.antt =====
-- The durations of the settings of cmd/writer/main.go: a printed number with its unit is read back.
use mathlib.Core.Path.{subst}
use apexio.Base.{
  ltb-ge, ℕ, zero, suc, ◌+◌, ◌*◌, ◌/◌, ◌%◌, ◌^◌, ◌<◌, ◌≤◌, ◌≡◌, refl, ◌∙◌, ap, Bool, true, false,
  [], ◌∷◌, ◌++◌, ◌||◌, ltb, length, Bool-cases, Option, none, some, inl, inr, arith, if◌then◌else◌,
}
use apexio.Base.Int.{ℤ, pos}
use apexio.Base.Text.{Text, codes, is_empty, text_eq, text_eq_iff}
use apexio.Os.{Env}
use apexio.Schema.Otlp.{digits, format_nat}
use apexio.Writer.Settings.Numbers.{
  Fractions, is_digit, leading_int, take_unit, unit_map, starts_number, one_part, all_parts,
  parse_duration, read_fraction, with_unit, in_units, signed,
}
use apexio.Writer.Settings.{env_duration}
use apexio.Writer.Settings.Digits.{
  Digital, Digital-digits, leading_int-digits, read_sign-Digital, is_empty-Digital,
}

-- The units, with the suffix of each and its nanoseconds.
pub data TimeUnit : Type 0 where
  nanosecond microsecond millisecond second minute hour : TimeUnit

abbrev pub suffix : TimeUnit → Text
suffix nanosecond = codes "ns"
suffix microsecond = codes "us"
suffix millisecond = codes "ms"
suffix second = codes "s"
suffix minute = codes "m"
suffix hour = codes "h"

abbrev pub size : TimeUnit → ℕ
size nanosecond = 1
size microsecond = 1_000
size millisecond = 1_000_000
size second = 1_000_000_000
size minute = 60_000_000_000
size hour = 3_600_000_000_000

unit_map-suffix : (u : TimeUnit) → unit_map (suffix u) ≡ some (size u)
unfolding unit_map text_eq
unit_map-suffix nanosecond = refl
unit_map-suffix microsecond = refl
unit_map-suffix millisecond = refl
unit_map-suffix second = refl
unit_map-suffix minute = refl
unit_map-suffix hour = refl

take_unit-suffix : (u : TimeUnit) → take_unit (suffix u) ≡ (suffix u, [])
unfolding take_unit
take_unit-suffix nanosecond = refl
take_unit-suffix microsecond = refl
take_unit-suffix millisecond = refl
take_unit-suffix second = refl
take_unit-suffix minute = refl
take_unit-suffix hour = refl

leading_int-suffix : (n : ℕ) (u : TimeUnit) → leading_int n (suffix u) ≡ some (n, suffix u)
unfolding leading_int
leading_int-suffix n nanosecond = refl
leading_int-suffix n microsecond = refl
leading_int-suffix n millisecond = refl
leading_int-suffix n second = refl
leading_int-suffix n minute = refl
leading_int-suffix n hour = refl

read_fraction-suffix : (u : TimeUnit) → read_fraction (suffix u) ≡ (false, 0, 1, suffix u)
read_fraction-suffix nanosecond = refl
read_fraction-suffix microsecond = refl
read_fraction-suffix millisecond = refl
read_fraction-suffix second = refl
read_fraction-suffix minute = refl
read_fraction-suffix hour = refl

is_empty-suffix : (u : TimeUnit) → is_empty (suffix u) ≡ false
is_empty-suffix nanosecond = refl
is_empty-suffix microsecond = refl
is_empty-suffix millisecond = refl
is_empty-suffix second = refl
is_empty-suffix minute = refl
is_empty-suffix hour = refl

starts_number-Digital : (c : ℕ) → is_digit c ≡ true → starts_number c ≡ true
starts_number-Digital c d = ground (arith, d)

no_room : (u : TimeUnit) → ltb (length (suffix u)) 1 ≡ true → ⊥
no_room nanosecond h = cc
no_room microsecond h = cc
no_room millisecond h = cc
no_room second h = cc
no_room minute h = cc
no_room hour h = cc

sum_fits :
    (m : ℕ)
    → m < 2 ^ 63
    → (if ltb (2 ^ 63) ((0 + m) % 2 ^ 64) then none else some ((0 + m) % 2 ^ 64)) ≡ some m
sum_fits m fits = ground (arith, fits)

digits-append : (fuel n : ℕ) (acc t : Text) → digits fuel n acc ++ t ≡ digits fuel n (acc ++ t)
unfolding digits
digits-append zero n acc t = refl
digits-append (suc fuel) n acc t = elim (Bool-cases (ltb n 10)) [
  | inl small ↦ rw (small) refl
  | inr large ↦ rw (large) (digits-append fuel (n / 10) ((b'0' + n % 10) ∷ acc) t)
]

length-digits :
    (fuel n : ℕ) (acc : Text) → n < fuel → ltb (length acc) (length (digits fuel n acc)) ≡ true
unfolding digits
length-digits zero n acc below = absurd (omega (arith, below))
length-digits (suc fuel) n acc below = elim (Bool-cases (ltb n 10)) [
  | inl small ↦ rw (small) (ground arith)
  | inr large ↦ rw (large) (
      one_more (length acc) _ (
        length-digits fuel (n / 10) ((b'0' + n % 10) ∷ acc)
          (omega (arith, below, ltb-ge n 10 large))))
]
  where
    one_more : (a b : ℕ) → ltb (suc a) b ≡ true → ltb a b ≡ true
    one_more a b h = ground (arith, h)

module _ ⦃r : Fractions⦄ where
  signed_fits : (m : ℕ) → m < 2 ^ 63 → signed false (some m) ≡ some (pos m)
  signed_fits m fits = ground (arith, fits)

  in_units-whole :
      (n : ℕ) (u : TimeUnit) → n * size u < 2 ^ 63 → in_units n 0 1 (size u) ≡ some (n * size u)
  in_units-whole n nanosecond fits = ground (arith, fits)
  in_units-whole n microsecond fits = ground (arith, fits)
  in_units-whole n millisecond fits = ground (arith, fits)
  in_units-whole n second fits = ground (arith, fits)
  in_units-whole n minute fits = ground (arith, fits)
  in_units-whole n hour fits = ground (arith, fits)

  with_unit-suffix :
      (n : ℕ) (u : TimeUnit)
      → n * size u < 2 ^ 63
      → with_unit n 0 1 (take_unit (suffix u)) ≡ some (n * size u, [])
  with_unit-suffix n u fits =
      ap (with_unit n 0 1) (take_unit-suffix u)
      ∙ rw (is_empty-suffix u, unit_map-suffix u, in_units-whole n u fits) refl

  -- What follows the whole number.
  abbrev behind_int : ℕ → ℕ → Text → Option (ℕ × Text)
  behind_int n before t =
      let (post, f, scale, rest) = read_fraction t in
      if ltb (length t) before || post then with_unit n f scale (take_unit rest) else none

  behind_int-suffix :
      (n before : ℕ) (u : TimeUnit)
      → n * size u < 2 ^ 63
      → ltb (length (suffix u)) before ≡ true
      → behind_int n before (suffix u) ≡ some (n * size u, [])
  behind_int-suffix n before u fits shorter =
      ap
        (λ (o : Bool × ℕ × ℕ × Text).
          if ltb (length (suffix u)) before || o.0
          then with_unit n o.1 o.2 (take_unit o.3)
          else none)
        (read_fraction-suffix u)
      ∙ rw (shorter) (with_unit-suffix n u fits)

  one_part-printed :
      (c : ℕ) (s : Text) (n : ℕ) (u : TimeUnit)
      → Digital (c ∷ s)
      → leading_int 0 (c ∷ s) ≡ some (n, suffix u)
      → ltb (length (suffix u)) (suc (length s)) ≡ true
      → n * size u < 2 ^ 63
      → one_part (c ∷ s) ≡ some (n * size u, [])
  unfolding one_part
  one_part-printed c s n u d led shorter fits =
      rw (starts_number-Digital c d, led) (behind_int-suffix n (suc (length s)) u fits shorter)

  all_parts-printed :
      (s : Text) (n : ℕ) (u : TimeUnit)
      → Digital s
      → leading_int 0 s ≡ some (n, suffix u)
      → ltb (length (suffix u)) (length s) ≡ true
      → n * size u < 2 ^ 63
      → all_parts (length s) 0 s ≡ some (n * size u)
  unfolding all_parts
  all_parts-printed [] n u d led shorter fits = elim d [ ]
  all_parts-printed (c ∷ s) n u d led shorter fits =
      rw (one_part-printed c s n u d led shorter fits, all_parts) (sum_fits (n * size u) fits)

  parse_duration-printed :
      (s : Text) (n : ℕ) (u : TimeUnit)
      → Digital s
      → leading_int 0 s ≡ some (n, suffix u)
      → ltb (length (suffix u)) (length s) ≡ true
      → n * size u < 2 ^ 63
      → parse_duration s ≡ some (pos (n * size u))
  unfolding parse_duration
  parse_duration-printed s n u d led shorter fits =
      ap
        (λ (o : Bool × Text).
          if text_eq o.1 (codes "0")
          then some (pos 0)
          else if is_empty o.1
          then none
          else signed o.0 (all_parts (length o.1) 0 o.1))
        (read_sign-Digital s d)
      ∙ rw (not_zero, is_empty-Digital s d, all_parts-printed s n u d led shorter fits)
          (signed_fits (n * size u) fits)
    where
      not_zero : text_eq s (codes "0") ≡ false
      not_zero = elim (Bool-cases (text_eq s (codes "0"))) [
        | inl same ↦ absurd (
            no_room u (
              subst (λ t. ltb (length (suffix u)) (length t) ≡ true) ((text_eq_iff s _).0 same)
                shorter))
        | inr other ↦ other
      ]

  -- A variable that holds a printed whole number with a unit is read as that many nanoseconds, if
  -- they fit into 63 bits.
  pub env_duration-format_nat :
      (env : Env) (key : Text) (fallback : ℤ) (n : ℕ) (u : TimeUnit)
      → n * size u < 2 ^ 63
      → env key ≡ format_nat n ++ suffix u
      → env_duration env key fallback ≡ pos (n * size u)
  unfolding env_duration
  env_duration-format_nat env key fallback n u fits held =
      rw (held ∙ digits-append (suc n) n [] (suffix u)) (
        rw
          (
            is_empty-Digital _ (Digital-digits (suc n) n (suffix u) (omega arith)),
            parse_duration-printed (digits (suc n) n (suffix u)) n u
                (Digital-digits (suc n) n (suffix u) (omega arith))
                (leading_int-digits (suc n) n (suffix u) (omega arith) (below_limit u fits)
                  ∙ leading_int-suffix n u)
                (length-digits (suc n) n (suffix u) (omega arith)) fits,
          )
          refl)
    where
      below_limit : (u : TimeUnit) → n * size u < 2 ^ 63 → n ≤ 2 ^ 63
      below_limit nanosecond fits = omega (arith, fits)
      below_limit microsecond fits = omega (arith, fits)
      below_limit millisecond fits = omega (arith, fits)
      below_limit second fits = omega (arith, fits)
      below_limit minute fits = omega (arith, fits)
      below_limit hour fits = omega (arith, fits)
