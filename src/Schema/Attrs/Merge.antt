-- ===== src/Schema/Attrs/Merge.antt =====
-- What the merged map holds under each key, and that the order of a `range` does not matter.
use mathlib.Core.Option.{or_else, none-ne-some}
use apexio.Base.{
  ◌≡◌, refl, ◌∙◌, false, Option, none, some, [], ◌∷◌, ◌++◌, append-nil, append_assoc, sym, ap,
  arith, if◌then◌else◌,
}
use apexio.Base.Text.{Text, is_empty, text_eq, text_eq_iff}
use apexio.Base.Dict.{
  Dict, lookup, insert, lookup-insert, lookup-cons, lookup-nil, insert_fresh, lookup-middle,
  NodupKeys, insert-NodupKeys,
}
use apexio.Schema.Attrs.{
  Attrs, entries, attr, merge_map, merge_maps, nil_if_empty, merge_attrs, copy_map, clone_map,
}

-- The entries of `m` win over those of `out`.
pub lookup-merge_map :
    (k : Text) (out m : Dict Text)
    → NodupKeys m
    → is_empty k ≡ false
    → lookup k (merge_map out m) ≡ or_else (lookup k m) (lookup k out)
unfolding merge_map or_else lookup
lookup-merge_map k out [] u ne = refl
lookup-merge_map k out ((j, v) ∷ m) (fresh, u) ne = ground (
  arith,
  text_eq_iff j k,
  lookup-insert j k v out,
  lookup-merge_map k out m u ne,
  lookup-merge_map k (insert j v out) m u ne,
)

-- The empty key is never stored.
lookup-merge_map_empty :
    (out m : Dict Text) → lookup [] out ≡ none → lookup [] (merge_map out m) ≡ none
unfolding merge_map text_eq
lookup-merge_map_empty out [] h = h
lookup-merge_map_empty out (([], v) ∷ m) h = lookup-merge_map_empty out m h
lookup-merge_map_empty out ((c ∷ j, v) ∷ m) h =
    lookup-merge_map_empty (insert (c ∷ j) v out) m (lookup-insert (c ∷ j) [] v out ∙ h)

merge_map-NodupKeys : (out m : Dict Text) → NodupKeys out → NodupKeys (merge_map out m)
unfolding merge_map
merge_map-NodupKeys out [] h = h
merge_map-NodupKeys out ((j, v) ∷ m) h = ground (
  arith,
  insert-NodupKeys j v out h,
  merge_map-NodupKeys out m h,
  merge_map-NodupKeys (insert j v out) m,
)

attr-nil_if_empty : (k : Text) (m : Dict Text) → attr (nil_if_empty m) k ≡ lookup k m
unfolding lookup
attr-nil_if_empty k [] = refl
attr-nil_if_empty k (e ∷ m) = refl

attr-entries : (k : Text) (m : Attrs) → attr m k ≡ lookup k (entries m)
unfolding lookup
attr-entries k none = refl
attr-entries k (some m) = refl

or_else-none : (a b : Option Text) → or_else b (or_else a none) ≡ or_else b a
unfolding or_else
or_else-none none b = refl
or_else-none (some v) b = refl

-- For two maps without repeated keys, the merged map holds under a key that is not empty the value
-- of the second map if that has one, else that of the first; under the empty key it holds nothing.
pub attr-merge_attrs :
    (k : Text) (a b : Attrs)
    → NodupKeys (entries a)
    → NodupKeys (entries b)
    → attr (merge_attrs (a ∷ b ∷ [])) k
      ≡ (if is_empty k then none else or_else (attr b k) (attr a k))
unfolding merge_attrs merge_maps
attr-merge_attrs [] a b ua ub =
    attr-nil_if_empty [] (merge_map (merge_map [] (entries a)) (entries b))
    ∙ lookup-merge_map_empty _ (entries b) (lookup-merge_map_empty [] (entries a) (lookup-nil []))
attr-merge_attrs (c ∷ k) a b ua ub =
    rw
      (
        attr-nil_if_empty,
        attr-entries (c ∷ k) a,
        attr-entries (c ∷ k) b,
        lookup-merge_map (c ∷ k) (merge_map [] (entries a)) (entries b) ub refl,
        lookup-merge_map (c ∷ k) [] (entries a) ua refl,
        lookup-nil,
      )
      (or_else-none (lookup (c ∷ k) (entries a)) (lookup (c ∷ k) (entries b)))

-- The maps that a merge or a clone gives: nil, or with entries, under keys that differ.
abbrev pub IsCanonical : Attrs → Type 0
IsCanonical none = Unit
IsCanonical (some []) = ⊥
IsCanonical (some (e ∷ m)) = NodupKeys (e ∷ m) × (lookup [] (e ∷ m) ≡ none)

nil_if_empty-IsCanonical :
    (m : Dict Text) → NodupKeys m → lookup [] m ≡ none → IsCanonical (nil_if_empty m)
nil_if_empty-IsCanonical [] u h = tt
nil_if_empty-IsCanonical (e ∷ m) u h = (u, h)

pub merge_attrs-IsCanonical : (a b : Attrs) → IsCanonical (merge_attrs (a ∷ b ∷ []))
unfolding merge_attrs merge_maps
merge_attrs-IsCanonical a b =
    nil_if_empty-IsCanonical _
      (merge_map-NodupKeys _ (entries b) (merge_map-NodupKeys [] (entries a) tt))
      (lookup-merge_map_empty _ (entries b) (lookup-merge_map_empty [] (entries a) (lookup-nil [])))

copy_map-append : (out m : Dict Text) → NodupKeys (out ++ m) → copy_map out m ≡ out ++ m
unfolding copy_map
copy_map-append out [] u = sym (append-nil out)
copy_map-append out ((k, v) ∷ m) u =
    rw (insert_fresh k v out (lookup-middle k v out m u)) (
      copy_map-append (out ++ (k, v) ∷ []) m (rw append_assoc u) ∙ append_assoc out ((k, v) ∷ []) m)

merge_map-append :
    (out m : Dict Text) → NodupKeys (out ++ m) → lookup [] m ≡ none → merge_map out m ≡ out ++ m
unfolding merge_map text_eq lookup
merge_map-append out [] u h = sym (append-nil out)
merge_map-append out (([], v) ∷ m) u h = absurd (none-ne-some v (sym h ∙ lookup-cons [] [] v m))
merge_map-append out ((c ∷ k, v) ∷ m) u h =
    rw (insert_fresh (c ∷ k) v out (lookup-middle (c ∷ k) v out m u)) (
      merge_map-append (out ++ (c ∷ k, v) ∷ []) m (rw append_assoc u) h
      ∙ append_assoc out ((c ∷ k, v) ∷ []) m)

-- A clone of such a map is the map.
pub clone_map_canonical : (m : Attrs) → IsCanonical m → clone_map m ≡ m
unfolding clone_map
clone_map_canonical none h = refl
clone_map_canonical (some []) h = elim h [ ]
clone_map_canonical (some (e ∷ m)) h = ap some (copy_map-append [] (e ∷ m) h.0)

-- Merged with the nil map, it is itself again.
pub merge_attrs_canonical : (m : Attrs) → IsCanonical m → merge_attrs (none ∷ m ∷ []) ≡ m
unfolding merge_attrs merge_maps merge_map
merge_attrs_canonical none h = refl
merge_attrs_canonical (some []) h = elim h [ ]
merge_attrs_canonical (some (e ∷ m)) h = ap nil_if_empty (merge_map-append [] (e ∷ m) h.0 h.1)
