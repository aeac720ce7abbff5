-- ===== src/Base/Text/Trim.antt =====
-- `TrimSpace` and `ToUpper` are projections that commute.
use mathlib.Core.Path.{ap₂}
use apexio.Base.{ℕ, ◌≡◌, refl, ◌↔◌, true, [], ◌∷◌, map, All, arith}
use apexio.Base.Text.{
  Text, is_space, trim_left, trim_right, trim_space, is_empty, Unicode, upper_rune, to_upper,
  HasCases,
}

trim_left_idem : (s : Text) → trim_left (trim_left s) ≡ trim_left s
unfolding trim_left
trim_left_idem [] = refl
trim_left_idem (c ∷ s) = ground (arith, trim_left_idem s)

trim_right_idem : (s : Text) → trim_right (trim_right s) ≡ trim_right s
unfolding trim_right
trim_right_idem [] = refl
trim_right_idem (c ∷ s) = ground (arith, trim_right_idem s)

trim_left-trim_right : (s : Text) → trim_left (trim_right (trim_left s)) ≡ trim_right (trim_left s)
unfolding trim_left trim_right
trim_left-trim_right [] = refl
trim_left-trim_right (c ∷ s) = ground (arith, trim_left-trim_right s)

-- Trimming twice is trimming once.
pub trim_space_idem : (s : Text) → trim_space (trim_space s) ≡ trim_space s
unfolding trim_space
trim_space_idem s = rw (trim_left-trim_right s) (trim_right_idem (trim_left s))

is_empty-map : (f : ℕ → ℕ) (s : Text) → is_empty (map f s) ≡ is_empty s
is_empty-map f [] = refl
is_empty-map f (c ∷ s) = refl

module _ ⦃u : Unicode⦄ (h : HasCases u) where
  upper_rune_idem : (c : ℕ) → upper_rune (upper_rune c) ≡ upper_rune c
  unfolding upper_rune
  upper_rune_idem c = ground (arith, h.upper_idem c)

  upper_rune-is_space : (c : ℕ) → is_space (upper_rune c) ≡ is_space c
  unfolding upper_rune is_space
  upper_rune-is_space c = ground (arith, h.upper-is_space c)

  pub to_upper_idem : (s : Text) → to_upper (to_upper s) ≡ to_upper s
  unfolding to_upper
  to_upper_idem [] = refl
  to_upper_idem (c ∷ s) = ap₂ ◌∷◌ (upper_rune_idem c) (to_upper_idem s)

  trim_left-to_upper : (s : Text) → trim_left (to_upper s) ≡ to_upper (trim_left s)
  unfolding trim_left to_upper
  trim_left-to_upper [] = refl
  trim_left-to_upper (c ∷ s) = ground (arith, upper_rune-is_space c, trim_left-to_upper s)

  trim_right-to_upper : (s : Text) → trim_right (to_upper s) ≡ to_upper (trim_right s)
  unfolding trim_right to_upper
  trim_right-to_upper [] = refl
  trim_right-to_upper (c ∷ s) =
      ground (
        arith,
        upper_rune-is_space c,
        trim_right-to_upper s,
        is_empty-map upper_rune (trim_right s),
      )

  -- Case and outer white space do not interfere.
  pub trim_space-to_upper : (s : Text) → trim_space (to_upper s) ≡ to_upper (trim_space s)
  unfolding trim_space
  trim_space-to_upper s = rw trim_left-to_upper (trim_right-to_upper (trim_left s))

-- Nothing but white space.
abbrev pub IsBlank : Text → Type 0
IsBlank = All (λ c. is_space c ≡ true)

is_empty-trim_right : (s : Text) → is_empty (trim_right s) ≡ true → IsBlank s
unfolding trim_right
is_empty-trim_right [] h = tt
is_empty-trim_right (c ∷ s) h = ground (arith, is_empty-trim_right s)

trim_right-IsBlank : (s : Text) → IsBlank s → trim_right s ≡ []
unfolding trim_right
trim_right-IsBlank [] h = refl
trim_right-IsBlank (c ∷ s) h = ground (arith, trim_right-IsBlank s h.1)

IsBlank-trim_left : (s : Text) → IsBlank (trim_left s) → IsBlank s
unfolding trim_left
IsBlank-trim_left [] h = tt
IsBlank-trim_left (c ∷ s) h = ground (arith, IsBlank-trim_left s)

trim_left-IsBlank : (s : Text) → IsBlank s → trim_left s ≡ []
unfolding trim_left
trim_left-IsBlank [] h = refl
trim_left-IsBlank (c ∷ s) h = ground (arith, trim_left-IsBlank s h.1)

-- A text trims to nothing exactly when it is blank.
pub is_empty-trim_space : (s : Text) → (is_empty (trim_space s) ≡ true) ↔ IsBlank s
unfolding trim_space
is_empty-trim_space s = (
  λ h. IsBlank-trim_left s (is_empty-trim_right (trim_left s) h),
  λ h. rw (trim_left-IsBlank s h, trim_right) refl,
)
