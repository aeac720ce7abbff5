-- ===== src/Schema/Otlp/Severity.antt =====
-- The order of the severity numbers and that of the levels they become.
use apexio.Base.{ℕ, ◌≤◌, ◌≡◌, arith, if◌then◌else◌}
use apexio.Base.Int.{pos}
use apexio.Base.Text.{Text, text_eq}
use apexio.Schema.Level.{level_debug, level_info, level_warn, level_error, level_fatal}
use apexio.Schema.Otlp.{severity_number_to_text}

-- How severe a level is.
abbrev pub rank : Text → ℕ
rank l =
    if text_eq l level_fatal
    then 4
    else if text_eq l level_error
    then 3
    else if text_eq l level_warn
    then 2
    else if text_eq l level_info
    then 1
    else 0

-- From DEBUG (5) on, a higher severity number has no lower level.
pub rank-severity_number_to_text_mono :
    (m n : ℕ)
    → 5 ≤ m
    → m ≤ n
    → rank (severity_number_to_text (pos m)) ≤ rank (severity_number_to_text (pos n))
unfolding severity_number_to_text text_eq
rank-severity_number_to_text_mono m n lo le = ground arith

-- The numbers of TRACE, 1 to 4, become INFO, and those of DEBUG, 5 to 8, become DEBUG.
pub severity_number_to_text_trace :
    (m n : ℕ)
    → 1 ≤ m
    → m ≤ 4
    → 5 ≤ n
    → n ≤ 8
    → (severity_number_to_text (pos m) ≡ level_info)
      × (severity_number_to_text (pos n) ≡ level_debug)
unfolding severity_number_to_text
severity_number_to_text_trace m n a b c d = ground arith
