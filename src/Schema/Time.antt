-- ===== src/Schema/Time.antt =====
-- The instants of `time.Time`, as far as pkg/schema uses them. The location is not kept, since
-- every value is converted by `UTC()`.
use apexio.Base.{refl, ℕ, ◌+◌, ◌-◌, ◌*◌, ◌/◌, ◌%◌, ◌^◌, ◌≡◌, Bool, ◌&&◌, arith}
use apexio.Base.{◌==◌}
use apexio.Base.Int.{◌≤ℤ◌, int64-wrap_to, ℤ, pos, negsuc, leb_ℤ, eqb_ℤ, wrap_to, int64}

-- Seconds since the Unix epoch, and nanoseconds within the second.
pub record Time : Type 0 where
  pub sec : ℤ
  pub nsec : ℕ

-- January 1 of year 1, the zero value of `time.Time`.
abbrev pub zero_time : Time
zero_time = record { sec = negsuc 62_135_596_799; nsec = 0 }

-- `t.IsZero()`
unfoldable pub is_zero : Time → Bool
is_zero t = eqb_ℤ t.sec (negsuc 62_135_596_799) && t.nsec == 0

-- `time.UnixMilli(ms)`, which rounds the seconds down.
unfoldable pub unix_milli : ℤ → Time
unix_milli (pos n) = record { sec = pos (n / 1000); nsec = n % 1000 * 1_000_000 }
unix_milli (negsuc n) = record { sec = negsuc (n / 1000); nsec = (999 - n % 1000) * 1_000_000 }

-- `time.Unix(0, ns)`
unfoldable pub unix_nano : ℤ → Time
unix_nano (pos n) = record { sec = pos (n / 1_000_000_000); nsec = n % 1_000_000_000 }
unix_nano (negsuc n) = record {
  sec = negsuc (n / 1_000_000_000);
  nsec = 999_999_999 - n % 1_000_000_000;
}

-- The exact milliseconds since the epoch, and `uint64(t.UnixMilli())`.
abbrev millis : ℤ → ℕ → ℤ
millis (pos s) ms = pos (s * 1000 + ms)
millis (negsuc s) ms = negsuc (s * 1000 + 999 - ms)

unfoldable pub milli_word : Time → ℕ
milli_word t = wrap_to (2 ^ 64) (millis t.sec (t.nsec / 1_000_000))

-- The years 0 to 9999, outside of which a time has no JSON form.
unfoldable pub in_json_years : Time → Bool
in_json_years t = leb_ℤ (negsuc 62_167_219_199) t.sec && leb_ℤ t.sec (pos 253_402_300_799)

-- The milliseconds of `unix_milli ms` are `ms`, as a word.
pub milli_word-unix_milli : (ms : ℤ) → milli_word (unix_milli ms) ≡ wrap_to (2 ^ 64) ms
unfolding milli_word unix_milli
milli_word-unix_milli (pos n) =
    let same : n / 1000 * 1000 + n % 1000 * 1_000_000 / 1_000_000 ≡ n = omega arith in rw same
milli_word-unix_milli (negsuc n) =
    let same : n / 1000 * 1000 + 999 - (999 - n % 1000) * 1_000_000 / 1_000_000 ≡ n = omega arith in
    rw same

-- A time of whole milliseconds whose count fits an `int64`.
pub record IsMilli (t : Time) : Type 0 where
  pub ms : ℤ
  pub fits_int64 : (negsuc (2 ^ 63 - 1) ≤ℤ ms) × (ms ≤ℤ pos (2 ^ 63 - 1))
  pub eq_unix_milli : t ≡ unix_milli ms

-- Such a time is read back from its word.
pub unix_milli-milli_word : (t : Time) → IsMilli t → unix_milli (int64 (milli_word t)) ≡ t
unix_milli-milli_word t h =
    rw (h.eq_unix_milli, milli_word-unix_milli, int64-wrap_to h.ms h.fits_int64.0 h.fits_int64.1)
      refl
