-- ===== src/Base/Dict.antt =====
-- Go maps keyed by text: an association list, with the nil map beside the made ones.
use mathlib.Core.Option.{or_else}
use apexio.Base.{◌≡◌, refl, Option, none, some, List, [], ◌∷◌, ◌++◌, arith, if◌then◌else◌}
use apexio.Base.Text.{Text, text_eq, text_eq_iff}

abbrev pub Dict {ℓ} : Type ℓ → Type ℓ
Dict V = List (Text × V)

module _ {ℓ} {V : Type ℓ} where
  -- `v, ok := m[k]`
  unfoldable pub lookup : Text → Dict V → Option V
  lookup k [] = none
  lookup k ((j, v) ∷ m) = if text_eq j k then some v else lookup k m

  -- `m[k] = v`
  unfoldable pub insert : Text → V → Dict V → Dict V
  insert k v [] = (k, v) ∷ []
  insert k v ((j, w) ∷ m) = if text_eq j k then (k, v) ∷ m else (j, w) ∷ insert k v m

  -- Every key is listed once, as in any Go map.
  abbrev pub NodupKeys : Dict V → Type ℓ
  NodupKeys [] = Unit
  NodupKeys ((k, _) ∷ m) = (lookup k m ≡ none) × NodupKeys m

  pub lookup-nil : (k : Text) → ◌≡◌ {A = Option V} (lookup k []) none
  unfolding lookup
  lookup-nil k = refl

  pub lookup-cons :
      (j k : Text) (v : V) (m : Dict V)
      → lookup k ((j, v) ∷ m) ≡ (if text_eq j k then some v else lookup k m)
  unfolding lookup
  lookup-cons j k v m = refl

  -- An entry that is put is read back, and the others stay.
  pub lookup-insert :
      (put read : Text) (new : V) (m : Dict V)
      → lookup read (insert put new m) ≡ (if text_eq put read then some new else lookup read m)
  unfolding insert lookup
  lookup-insert put read new [] = refl
  lookup-insert put read new ((old, w) ∷ m) = ground (
    arith,
    lookup-insert put read new m,
    text_eq_iff put read,
    text_eq_iff old put,
    text_eq_iff old read,
  )

  pub insert-NodupKeys : (k : Text) (v : V) (m : Dict V) → NodupKeys m → NodupKeys (insert k v m)
  unfolding insert
  insert-NodupKeys k v [] h = (lookup-nil k, tt)
  insert-NodupKeys k v ((j, w) ∷ m) (fresh, u) =
      ground
        (arith, text_eq_iff j k, text_eq_iff k j, insert-NodupKeys k v m u, lookup-insert k j v m)

  pub lookup-append :
      (k : Text) (m n : Dict V) → lookup k (m ++ n) ≡ or_else (lookup k m) (lookup k n)
  unfolding lookup or_else
  lookup-append k [] n = refl
  lookup-append k ((j, v) ∷ m) n = ground (arith, lookup-append k m n)

  -- A new key goes to the end.
  pub insert_fresh :
      (k : Text) (v : V) (m : Dict V) → lookup k m ≡ none → insert k v m ≡ m ++ (k, v) ∷ []
  unfolding insert lookup
  insert_fresh k v [] h = refl
  insert_fresh k v ((j, w) ∷ m) h = ground (arith, insert_fresh k v m)

  pub lookup-middle :
      (k : Text) (v : V) (m n : Dict V) → NodupKeys (m ++ (k, v) ∷ n) → lookup k m ≡ none
  unfolding lookup or_else
  lookup-middle k v [] n u = refl
  lookup-middle k v ((j, w) ∷ m) n (fresh, u) = ground (
    arith,
    text_eq_iff j k,
    text_eq_iff k j,
    lookup-middle k v m n u,
    lookup-append j m ((k, v) ∷ n),
    lookup-cons k j v n,
  )
