-- ===== src/Base/Text.antt =====
-- Go's strings as lists of runes, with the functions of `strings` and `fmt` that the source calls.
pub mod Trim
use Prim.Native.Char.{code}
use apexio.Base.{
  ℕ, ◌+◌, ◌-◌, ◌≤◌, ◌≡◌, refl, ◌↔◌, Bool, true, false, ◌&&◌, ◌||◌, List, [], ◌∷◌, map, arith,
  String, ltb, leb, ◌==◌, if◌then◌else◌,
}

abbrev pub Text : Type 0
Text = List ℕ

-- The runes of a literal.
abbrev pub codes : String → Text
codes String.[] = []
codes (String.◌∷◌ c s) = code c ∷ codes s

unfoldable pub text_eq : Text → Text → Bool
text_eq [] [] = true
text_eq [] (_ ∷ _) = false
text_eq (_ ∷ _) [] = false
text_eq (a ∷ s) (b ∷ t) = a == b && text_eq s t

pub text_eq_iff : (s t : Text) → (text_eq s t ≡ true) ↔ (s ≡ t)
unfolding text_eq
text_eq_iff [] [] = (λ _. refl, λ _. refl)
text_eq_iff [] (b ∷ t) = (λ h. cc, λ h. cc)
text_eq_iff (a ∷ s) [] = (λ h. cc, λ h. cc)
text_eq_iff (a ∷ s) (b ∷ t) = ground (arith, text_eq_iff s t)

pub text_eq_refl : (s : Text) → text_eq s s ≡ true
text_eq_refl s = (text_eq_iff s s).1 refl

-- `s == ""`
abbrev pub is_empty {ℓ} : {A : Type ℓ} → List A → Bool
is_empty [] = true
is_empty (_ ∷ _) = false

-- `unicode.IsSpace`
unfoldable pub is_space : ℕ → Bool
is_space c =
    (leb 9 c && leb c 13)
    || c == 0x20
    || c == 0x85
    || c == 0xa0
    || c == 0x1680
    || (leb 0x2000 c && leb c 0x200a)
    || c == 0x2028
    || c == 0x2029
    || c == 0x202f
    || c == 0x205f
    || c == 0x3000

unfoldable pub trim_left : Text → Text
trim_left [] = []
trim_left (c ∷ s) = let rest = trim_left s in if is_space c then rest else c ∷ s

unfoldable pub trim_right : Text → Text
trim_right [] = []
trim_right (c ∷ s) = let rest = trim_right s in if is_empty rest && is_space c then [] else c ∷ rest

-- `strings.TrimSpace`
unfoldable pub trim_space : Text → Text
unfolding trim_left trim_right is_space
trim_space s = trim_right (trim_left s)

-- `strings.HasPrefix` and `strings.Contains`, with the text that is looked for first
unfoldable pub has_prefix : Text → Text → Bool
has_prefix [] s = true
has_prefix (_ ∷ _) [] = false
has_prefix (a ∷ p) (b ∷ s) = a == b && has_prefix p s

unfoldable pub contains : Text → Text → Bool
contains p [] = is_empty p
contains p (c ∷ s) = let rest = contains p s in has_prefix p (c ∷ s) || rest

abbrev onto_first : ℕ → List Text → List Text
onto_first c [] = (c ∷ []) ∷ []
onto_first c (p ∷ parts) = (c ∷ p) ∷ parts

-- `strings.Split` at a separator of one rune
unfoldable pub split : ℕ → Text → List Text
split sep [] = [] ∷ []
split sep (c ∷ s) = let parts = split sep s in if c == sep then [] ∷ parts else onto_first c parts

pub split-nonempty : (sep : ℕ) (s : Text) → is_empty (split sep s) ≡ false
unfolding split
split-nonempty sep [] = refl
split-nonempty sep (c ∷ s) = go (c == sep) (split sep s)
  where
    go :
        (b : Bool) (parts : List Text)
        → is_empty (if b then [] ∷ parts else onto_first c parts) ≡ false
    go true parts = refl
    go false [] = refl
    go false (p ∷ parts) = refl

-- What Go's Unicode tables supply: the upper and the lower case of a rune above ASCII, and the runes of a
-- byte slice.
pub record Unicode : Type 0 where
  pub upper : ℕ → ℕ
  pub lower : ℕ → ℕ
  pub of_bytes : List ℕ → Text

abbrev is_lower : ℕ → Bool
is_lower c = leb b'a' c && leb c b'z'

module _ ⦃u : Unicode⦄ where
  -- `unicode.ToUpper`
  unfoldable pub upper_rune : ℕ → ℕ
  upper_rune c = if ltb c 0x80 then (if is_lower c then c - 32 else c) else u.upper c

  -- `strings.ToUpper`
  unfoldable pub to_upper : Text → Text
  unfolding upper_rune
  to_upper = map upper_rune

  -- `unicode.ToLower`
  unfoldable pub lower_rune : ℕ → ℕ
  lower_rune c = if ltb c 0x80 then (if leb b'A' c && leb c b'Z' then c + 32 else c) else u.lower c

  -- `strings.ToLower`
  unfoldable pub to_lower : Text → Text
  unfolding lower_rune
  to_lower = map lower_rune

-- What the case tables are documented to do: the upper case of an upper case is itself and is
-- above ASCII or a letter of it, and white space is only ever mapped to itself.
pub record HasCases (u : Unicode) : Type 0 where
  pub upper_idem : (c : ℕ) → 0x80 ≤ c → upper_rune ⦃u = u⦄ (u.upper c) ≡ u.upper c
  pub upper-is_space : (c : ℕ) → 0x80 ≤ c → is_space (u.upper c) ≡ is_space c
