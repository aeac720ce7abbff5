-- ===== src/Schema/Level/Normal.antt =====
-- What `NormalizeLogLevel` and `ValidLogLevel` make of one another.
use mathlib.Core.Bool.{false≢true}
use apexio.Base.{
  ◌≡◌, refl, sym, ◌∙◌, ap, ◌↔◌, ◌⊎◌, inl, inr, true, false, [], ◌∷◌, arith, Bool-cases,
}
use apexio.Base.Text.{Text, text_eq_iff, is_empty, trim_space, Unicode, to_upper, HasCases}
use apexio.Base.Text.Trim.{
  trim_space_idem, to_upper_idem, trim_space-to_upper, IsBlank, is_empty-trim_space,
}
use apexio.Schema.Level.{
  level_debug, level_info, level_warn, level_error, level_fatal, known_level, valid_log_level,
  normalize_log_level,
}

-- One of the five well-known levels.
abbrev pub IsLevel : Text → Type 0
IsLevel l =
    (l ≡ level_debug) ⊎ (l ≡ level_info) ⊎ (l ≡ level_warn) ⊎ (l ≡ level_error) ⊎ (l ≡ level_fatal)

pub known_level_iff : (l : Text) → (known_level l ≡ true) ↔ IsLevel l
unfolding known_level
known_level_iff l = ground (
  arith,
  text_eq_iff l level_debug,
  text_eq_iff l level_info,
  text_eq_iff l level_warn,
  text_eq_iff l level_error,
  text_eq_iff l level_fatal,
)

-- Each of the five levels is valid as it stands.
pub valid_log_level_of_IsLevel : ⦃u : Unicode⦄ → (l : Text) → IsLevel l → valid_log_level l ≡ true
unfolding valid_log_level known_level to_upper trim_space
valid_log_level_of_IsLevel l (inl e) = rw e refl
valid_log_level_of_IsLevel l (inr (inl e)) = rw e refl
valid_log_level_of_IsLevel l (inr (inr (inl e))) = rw e refl
valid_log_level_of_IsLevel l (inr (inr (inr (inl e)))) = rw e refl
valid_log_level_of_IsLevel l (inr (inr (inr (inr e)))) = rw e refl

module _ ⦃u : Unicode⦄ (h : HasCases u) where
  upper_trim_idem :
      (l : Text) → to_upper (trim_space (to_upper (trim_space l))) ≡ to_upper (trim_space l)
  upper_trim_idem l =
      rw (trim_space-to_upper h (trim_space l), trim_space_idem) (to_upper_idem h (trim_space l))

  upper_trim_info : to_upper (trim_space level_info) ≡ level_info
  unfolding to_upper trim_space
  upper_trim_info = refl

  normalize_blank :
      (l : Text) → is_empty (to_upper (trim_space l)) ≡ true → normalize_log_level l ≡ level_info
  unfolding normalize_log_level
  normalize_blank l e = rw e

  normalize_text :
      (l : Text)
      → is_empty (to_upper (trim_space l)) ≡ false
      → normalize_log_level l ≡ to_upper (trim_space l)
  unfolding normalize_log_level
  normalize_text l e = rw e

  -- A level in normal form stays as it is.
  pub normalize_log_level_idem :
      (l : Text) → normalize_log_level (normalize_log_level l) ≡ normalize_log_level l
  normalize_log_level_idem l = elim (Bool-cases (is_empty (to_upper (trim_space l)))) [
    | inl e ↦
        rw (normalize_blank l e)
          (normalize_text level_info (ap is_empty upper_trim_info) ∙ upper_trim_info)
    | inr e ↦
        rw (normalize_text l e)
          (normalize_text _ (ap is_empty (upper_trim_idem l) ∙ e) ∙ upper_trim_idem l)
  ]

  is_empty-to_upper : (s : Text) → is_empty (to_upper s) ≡ is_empty s
  unfolding to_upper
  is_empty-to_upper [] = refl
  is_empty-to_upper (c ∷ s) = refl

  -- With case tables as documented, the normal form of a level is one of the five exactly if the
  -- level is blank or valid.
  pub IsLevel-normalize_log_level :
      (l : Text) → IsLevel (normalize_log_level l) ↔ (IsBlank l ⊎ (valid_log_level l ≡ true))
  unfolding valid_log_level
  IsLevel-normalize_log_level l = elim (Bool-cases (is_empty (to_upper (trim_space l)))) [
    | inl e ↦ rw (normalize_blank l e) (
      λ _. inl ((is_empty-trim_space l).0 (sym (is_empty-to_upper (trim_space l)) ∙ e)),
      λ _. inr (inl refl),
    )
    | inr e ↦ rw (normalize_text l e) (
      λ k. inr ((known_level_iff _).1 k),
      λ d. elim d [
        | inl b ↦
            absurd
              (false≢true (sym e ∙ is_empty-to_upper (trim_space l) ∙ (is_empty-trim_space l).1 b))
        | inr k ↦ (known_level_iff _).0 k
      ],
    )
  ]
