-- ===== src/Tests/Settings.antt =====
-- The settings of cmd/writer/main.go at concrete environments, and a run of its main.
use apexio.Base.{◌*◌, ◌/◌, ◌++◌, arith, ◌≡◌, refl, none, some}
use apexio.Base.Int.{pos, negsuc}
use apexio.Base.Text.{codes, text_eq}
use apexio.Os.{Env}
use apexio.Schema.Otlp.{digits, format_nat, format_int}
use apexio.Writer.Settings.{env_int, env_duration}
use apexio.Writer.Settings.Digits.{env_int-format_int}
use apexio.Writer.Settings.Numbers.{
  Fractions, atoi, parse_digits, parse_duration, all_parts, one_part, leading_int, leading_fraction,
  take_unit, unit_map,
}
use apexio.Writer.Settings.Units.{millisecond, env_duration-format_nat}

-- Whole numbers are what Go's floats give here.
instance pub fractions : Fractions
fractions = record { fraction = λ f unit scale. f * unit / scale }

atoi-plus : atoi (codes "+42") ≡ some (pos 42)
unfolding atoi parse_digits
atoi-plus = refl

atoi-least : atoi (codes "-9223372036854775808") ≡ some (negsuc 9_223_372_036_854_775_807)
unfolding atoi parse_digits
atoi-least = refl

atoi-overflow : atoi (codes "9223372036854775808") ≡ none
unfolding atoi parse_digits
atoi-overflow = refl

atoi-word : atoi (codes "4x") ≡ none
unfolding atoi parse_digits
atoi-word = refl

parse_duration-mixed : parse_duration (codes "-1h30m1.5s") ≡ some (negsuc 5_401_499_999_999)
unfolding fractions parse_duration all_parts one_part leading_int leading_fraction take_unit
    unit_map text_eq
parse_duration-mixed = refl

parse_duration-no_unit : parse_duration (codes "15") ≡ none
unfolding parse_duration all_parts one_part leading_int leading_fraction take_unit unit_map text_eq
parse_duration-no_unit = refl

parse_duration-zero : parse_duration (codes "0") ≡ some (pos 0)
unfolding parse_duration text_eq
parse_duration-zero = refl

abbrev two_hundred : Env
two_hundred key = codes "200"

printed-two_hundred : codes "200" ≡ format_int (pos 200)
unfolding digits
printed-two_hundred = refl

env_int-format_int_example : env_int two_hundred (codes "WRITER_BATCH_SIZE") (pos 50) ≡ pos 200
env_int-format_int_example =
    env_int-format_int two_hundred (codes "WRITER_BATCH_SIZE") (pos 50) (pos 200) (omega arith)
      (omega arith) printed-two_hundred

abbrev often : Env
often key = codes "1500ms"

printed-often : codes "1500ms" ≡ format_nat 1_500 ++ codes "ms"
unfolding digits
printed-often = refl

env_duration-format_nat_example :
    env_duration often (codes "WRITER_FLUSH_INTERVAL") (pos 1_000_000_000) ≡ pos 1_500_000_000
env_duration-format_nat_example =
    env_duration-format_nat often (codes "WRITER_FLUSH_INTERVAL") (pos 1_000_000_000) 1_500
      millisecond (omega arith) printed-often
