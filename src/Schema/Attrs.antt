-- ===== src/Schema/Attrs.antt =====
-- The attribute maps of pkg/schema/event.go. `none` is the nil map, which reads as an empty one.
pub mod Merge
use apexio.Base.{ℕ, Option, none, some, List, [], ◌∷◌, leb, if◌then◌else◌}
use apexio.Base.Text.{Text, is_empty}
use apexio.Base.Dict.{Dict, lookup, insert}
use apexio.Schema.Scan.{scan_uint, Float64, Floats, scan_float}

abbrev pub Attrs : Type 0
Attrs = Option (Dict Text)

-- The entries that `range m` visits.
abbrev pub entries : Attrs → Dict Text
entries none = []
entries (some m) = m

-- `v, ok := attrs[k]`
abbrev pub attr : Attrs → Text → Option Text
attr none k = none
attr (some m) k = lookup k m

-- The inner loop of `mergeAttrs`.
unfoldable pub merge_map : Dict Text → Dict Text → Dict Text
merge_map out [] = out
merge_map out ((k, v) ∷ m) = merge_map (if is_empty k then out else insert k v out) m

unfoldable pub merge_maps : Dict Text → List Attrs → Dict Text
merge_maps out [] = out
merge_maps out (m ∷ ms) = merge_maps (merge_map out (entries m)) ms

abbrev pub nil_if_empty : Dict Text → Attrs
nil_if_empty [] = none
nil_if_empty (e ∷ m) = some (e ∷ m)

unfoldable pub merge_attrs : List Attrs → Attrs
merge_attrs maps = nil_if_empty (merge_maps [] maps)

-- The loop of `cloneMap`.
unfoldable pub copy_map : Dict Text → Dict Text → Dict Text
copy_map out [] = out
copy_map out ((k, v) ∷ m) = copy_map (insert k v out) m

unfoldable pub clone_map : Attrs → Attrs
clone_map none = none
clone_map (some []) = none
clone_map (some (e ∷ m)) = some (copy_map [] (e ∷ m))

unfoldable pub first_attr : Attrs → List Text → Text
first_attr attrs [] = []
first_attr attrs (k ∷ ks) =
    let rest = first_attr attrs ks in
    elim (attr attrs k) [ none ↦ rest | some v ↦ if is_empty v then rest else v ]

-- `uint16(n)` of a value that was scanned, if it fits.
abbrev fits_uint16 : Option ℕ → Option ℕ
fits_uint16 none = none
fits_uint16 (some n) = if leb n 65535 then some n else none

-- The value of the first key whose attribute is there, is not empty and is read by `scan`.
unfoldable pub parse_attr : (Text → Option ℕ) → Attrs → List Text → ℕ
parse_attr scan attrs [] = 0
parse_attr scan attrs (k ∷ ks) =
    let rest = parse_attr scan attrs ks in
    elim (attr attrs k) [
      | none ↦ rest
      | some v ↦ if is_empty v then rest else elim (scan v) [ none ↦ rest | some n ↦ n ]
    ]

unfoldable pub parse_uint16_attr : Attrs → List Text → ℕ
parse_uint16_attr = parse_attr (λ v. fits_uint16 (scan_uint v))

module _ ⦃f : Floats⦄ where
  unfoldable pub parse_float_attr : Attrs → List Text → Float64
  parse_float_attr = parse_attr scan_float
