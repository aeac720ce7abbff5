-- ===== src/Base/Int.antt =====
-- Signed integers over the native numbers, and the 64-bit words that Go's casts read as them.
use apexio.Base.{ℕ, suc, ◌+◌, ◌-◌, ◌%◌, ◌^◌, ◌≤◌, ◌<◌, ◌≡◌, Bool, arith, ltb, leb, if◌then◌else◌}

-- `negsuc n` is -(n + 1).
pub data ℤ : Type 0 where
  pos : ℕ → ℤ
  negsuc : ℕ → ℤ

abbrev pub pos_part : ℤ → ℕ
pos_part (pos n) = n
pos_part (negsuc n) = 0

abbrev pub neg_part : ℤ → ℕ
neg_part (pos n) = 0
neg_part (negsuc n) = suc n

infix 50 ◌≤ℤ◌
abbrev pub ◌≤ℤ◌ : ℤ → ℤ → Type 0
a ≤ℤ b = pos_part a + neg_part b ≤ pos_part b + neg_part a

abbrev pub leb_ℤ : ℤ → ℤ → Bool
leb_ℤ a b = leb (pos_part a + neg_part b) (pos_part b + neg_part a)

abbrev pub eqb_ℤ : ℤ → ℤ → Bool
eqb_ℤ a b = if leb_ℤ a b then leb_ℤ b a else leb_ℤ a b

-- Go's `int64(w)` of a `uint64` w.
unfoldable pub int64 : ℕ → ℤ
int64 w = if ltb w (2 ^ 63) then pos w else negsuc (2 ^ 64 - 1 - w)

-- Go's conversion of a signed value to an unsigned word of `m` values.
unfoldable pub wrap_to : ℕ → ℤ → ℕ
wrap_to m (pos n) = n % m
wrap_to m (negsuc n) = m - 1 - n % m

pub wrap_to-int64 : (w : ℕ) → w < 2 ^ 64 → wrap_to (2 ^ 64) (int64 w) ≡ w
unfolding int64 wrap_to
wrap_to-int64 w h = ground arith

pub int64-wrap_to :
    (z : ℤ) → negsuc (2 ^ 63 - 1) ≤ℤ z → z ≤ℤ pos (2 ^ 63 - 1) → int64 (wrap_to (2 ^ 64) z) ≡ z
unfolding int64 wrap_to
int64-wrap_to (pos n) lo hi = ground arith
int64-wrap_to (negsuc n) lo hi = ground arith

pub int64_bounds :
    (w : ℕ) → w < 2 ^ 64 → (negsuc (2 ^ 63 - 1) ≤ℤ int64 w) × (int64 w ≤ℤ pos (2 ^ 63 - 1))
unfolding int64
int64_bounds w h = ground arith

pub wrap_to-lt : (m : ℕ) (z : ℤ) → 0 < m → wrap_to m z < m
unfolding wrap_to
wrap_to-lt m (pos n) h = omega arith
wrap_to-lt m (negsuc n) h = omega arith

-- `c.Add(n)` of an `atomic.Uint64`
abbrev pub add_uint64 : ℕ → ℕ → ℕ
add_uint64 c n = (c + n) % 2 ^ 64
