-- ===== src/Broker/Memory/Interleaved/Lists.antt =====
-- Permutations of joined lists.
use mathlib.Core.List.{perm_middle, perm_append_comm}
use mathlib.Core.List.{Perm}
use mathlib.Core.List.Perm
use mathlib.Core.Path.{subst}
use apexio.Base.{◌≡◌, refl, sym, ◌∙◌, ap, List, [], ◌∷◌, ◌++◌, append_assoc}

abbrev pub concat {ℓ} : {A : Type ℓ} → List (List A) → List A
concat [] = []
concat (xs ∷ xss) = xs ++ concat xss

pub concat-append {ℓ} :
    {A : Type ℓ} (xss yss : List (List A)) → concat (xss ++ yss) ≡ concat xss ++ concat yss
concat-append [] yss = refl
concat-append (xs ∷ xss) yss =
    ap (λ l. xs ++ l) (concat-append xss yss) ∙ sym (append_assoc xs (concat xss) (concat yss))

-- An element moves from its place to the end of the first list, with or without those behind it.
pub moved {ℓ} :
    {A : Type ℓ} (made left before rest : List A) (d : A)
    → Perm ((made ++ d ∷ []) ++ (left ++ (before ++ rest))) (made ++ (left ++ (before ++ d ∷ rest)))
moved made left before rest d =
    subst (λ l. Perm l (made ++ (left ++ (before ++ d ∷ rest))))
      (sym (append_assoc made (d ∷ []) (left ++ (before ++ rest))))
      (Perm.append_left made (
        Perm.symm (
          Perm.trans (Perm.append_left left (perm_middle before rest))
            (perm_middle left (before ++ rest)))))

pub swapped {ℓ} :
    {A : Type ℓ} (before rest after : List A)
    → Perm (rest ++ (before ++ after)) (before ++ (rest ++ after))
swapped before rest after =
    subst (λ l. Perm l (before ++ (rest ++ after))) (append_assoc rest before after)
      (subst (Perm ((rest ++ before) ++ after)) (append_assoc before rest after)
        (Perm.append_right after (perm_append_comm rest before)))

pub moved_with {ℓ} :
    {A : Type ℓ} (made left before rest after : List A) (d : A)
    → Perm
        ((made ++ d ∷ []) ++ ((left ++ rest) ++ (before ++ after)))
        (made ++ (left ++ (before ++ d ∷ (rest ++ after))))
moved_with made left before rest after d =
    Perm.trans
      (Perm.append_left (made ++ d ∷ []) (
        subst (λ l. Perm l (left ++ (before ++ (rest ++ after))))
          (sym (append_assoc left rest (before ++ after)))
          (Perm.append_left left (swapped before rest after))))
      (moved made left before (rest ++ after) d)
