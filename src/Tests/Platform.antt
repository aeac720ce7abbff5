-- ===== src/Tests/Platform.antt =====
-- The parameters of the models at their simplest, for the tests.
use apexio.Base.{refl, none, [], arith}
use apexio.Base.Text.{Unicode, HasCases, upper_rune}
use apexio.Schema.Scan.{Floats}

-- Tables that leave what is above ASCII as it is.
instance abbrev pub unicode : Unicode
unicode = record { upper = λ c. c; lower = λ c. c; of_bytes = λ bytes. bytes }

pub unicode-HasCases : HasCases unicode
unfolding upper_rune
unicode-HasCases = record {
  upper_idem = λ c above. ground (arith, above);
  upper-is_space = λ c above. refl;
}

instance abbrev pub floats : Floats
floats = record { parse = λ s. none; format = λ x. [] }
