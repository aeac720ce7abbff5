-- ===== src/Writer/Settings/Numbers.antt =====
-- The integers and durations that cmd/writer/main.go reads with `strconv.Atoi` and
-- `time.ParseDuration`. Their errors are dropped by the callers, so `none` is any of them.
use apexio.Base.{
  ℕ, zero, suc, ◌+◌, ◌-◌, ◌*◌, ◌/◌, ◌%◌, ◌^◌, Bool, true, false, not, ◌||◌, ◌&&◌, Option, none,
  some, [], ◌∷◌, length, ltb, leb, ◌==◌, if◌then◌else◌,
}
use apexio.Base.Int.{ℤ, pos, negsuc}
use apexio.Base.Text.{Text, codes, is_empty, text_eq}

abbrev pub is_digit : ℕ → Bool
is_digit c = leb b'0' c && leb c b'9'

abbrev pub negate : ℕ → ℤ
negate zero = pos 0
negate (suc n) = negsuc n

-- The digits of a whole text, on top of `n`.
unfoldable pub parse_digits : ℕ → Text → Option ℕ
parse_digits n [] = some n
parse_digits n (c ∷ s) =
    let rest = parse_digits (n * 10 + (c - b'0')) s in if is_digit c then rest else none

-- The sign in front of a number, and what is behind it.
abbrev pub read_sign : Text → Bool × Text
read_sign [] = (false, [])
read_sign (c ∷ s) =
    if c == b'-' then (true, s) else if c == b'+' then (false, s) else (false, c ∷ s)

abbrev pub in_int64 : Bool → Option ℕ → Option ℤ
in_int64 neg none = none
in_int64 true (some n) = if leb n (2 ^ 63) then some (negate n) else none
in_int64 false (some n) = if ltb n (2 ^ 63) then some (pos n) else none

-- `strconv.Atoi`
unfoldable pub atoi : Text → Option ℤ
atoi s = let (neg, t) = read_sign s in if is_empty t then none else in_int64 neg (parse_digits 0 t)

-- `leadingInt`: the digits in front, up to 2^63.
unfoldable pub leading_int : ℕ → Text → Option (ℕ × Text)
leading_int x [] = some (x, [])
leading_int x (c ∷ s) =
    let y = x * 10 + (c - b'0') in
    let rest = leading_int y s in
    if not (is_digit c)
    then some (x, c ∷ s)
    else if ltb (2 ^ 63 / 10) x || ltb (2 ^ 63) y
    then none
    else rest

-- `leadingFraction`: the digits in front, the power of ten they are over, and the rest. Digits
-- behind an overflow are skipped.
unfoldable pub leading_fraction : Bool → ℕ → ℕ → Text → ℕ × ℕ × Text
leading_fraction over x scale [] = (x, scale, [])
leading_fraction over x scale (c ∷ s) =
    let y = x * 10 + (c - b'0') in
    let skips = over || ltb ((2 ^ 63 - 1) / 10) x || ltb (2 ^ 63) y in
    let rest =
      leading_fraction skips (if skips then x else y) (if skips then scale else scale * 10) s in
    if is_digit c then rest else (x, scale, c ∷ s)

-- The fraction that may follow: whether it has a digit, its digits, their power of ten, the rest.
abbrev pub read_fraction : Text → Bool × ℕ × ℕ × Text
read_fraction [] = (false, 0, 1, [])
read_fraction (c ∷ s) =
    let (f, scale, rest) = leading_fraction false 0 1 s in
    if c == b'.' then (ltb (length rest) (length s), f, scale, rest) else (false, 0, 1, c ∷ s)

abbrev pub starts_number : ℕ → Bool
starts_number c = c == b'.' || is_digit c

-- The text up to the next number, and the rest.
unfoldable pub take_unit : Text → Text × Text
take_unit [] = ([], [])
take_unit (c ∷ s) =
    let (u, rest) = take_unit s in if starts_number c then ([], c ∷ s) else (c ∷ u, rest)

-- `unitMap`, in nanoseconds. The two letters before `s` are the micro sign and the Greek mu.
unfoldable pub unit_map : Text → Option ℕ
unit_map u =
    if text_eq u (codes "ns")
    then some 1
    else if text_eq u (codes "us") || text_eq u (0xb5 ∷ codes "s") || text_eq u (0x3bc ∷ codes "s")
    then some 1_000
    else if text_eq u (codes "ms")
    then some 1_000_000
    else if text_eq u (codes "s")
    then some 1_000_000_000
    else if text_eq u (codes "m")
    then some 60_000_000_000
    else if text_eq u (codes "h")
    then some 3_600_000_000_000
    else none

-- `uint64(float64(f) * (float64(unit) / scale))`, of which nothing is assumed.
pub record Fractions : Type 0 where
  pub fraction : ℕ → ℕ → ℕ → ℕ

module _ ⦃r : Fractions⦄ where
  abbrev pub in_units : ℕ → ℕ → ℕ → ℕ → Option ℕ
  in_units v f scale unit =
      let w = (v * unit + r.fraction f unit scale) % 2 ^ 64 in
      if ltb (2 ^ 63 / unit) v
      then none
      else if f == 0
      then some (v * unit)
      else if ltb (2 ^ 63) w
      then none
      else some w

  abbrev pub with_unit : ℕ → ℕ → ℕ → Text × Text → Option (ℕ × Text)
  with_unit v f scale (u, rest) = if is_empty u then none else elim (unit_map u) [
    | none ↦ none
    | some unit ↦ elim (in_units v f scale unit) [ none ↦ none | some w ↦ some (w, rest) ]
  ]

  -- One turn of the loop of `time.ParseDuration`: a number with its unit, in nanoseconds.
  unfoldable pub one_part : Text → Option (ℕ × Text)
  one_part [] = none
  one_part (c ∷ s) = if not (starts_number c) then none else elim (leading_int 0 (c ∷ s)) [
    | none ↦ none
    | some (v, t) ↦
        let (post, f, scale, rest) = read_fraction t in
        if ltb (length t) (suc (length s)) || post
        then with_unit v f scale (take_unit rest)
        else none
  ]

  -- The loop, on fuel: each turn takes a character at least.
  unfoldable pub all_parts : ℕ → ℕ → Text → Option ℕ
  all_parts fuel d [] = some d
  all_parts zero d (c ∷ s) = none
  all_parts (suc fuel) d (c ∷ s) = elim (one_part (c ∷ s)) [
    | none ↦ none
    | some (v, rest) ↦
        let sum = (d + v) % 2 ^ 64 in
        let later = all_parts fuel sum rest in if ltb (2 ^ 63) sum then none else later
  ]

  abbrev pub signed : Bool → Option ℕ → Option ℤ
  signed neg none = none
  signed true (some d) = some (negate d)
  signed false (some d) = if ltb (2 ^ 63 - 1) d then none else some (pos d)

  -- `time.ParseDuration`
  unfoldable pub parse_duration : Text → Option ℤ
  parse_duration s =
      let (neg, t) = read_sign s in
      if text_eq t (codes "0")
      then some (pos 0)
      else if is_empty t
      then none
      else signed neg (all_parts (length t) 0 t)
