-- ===== src/Schema/Event/Valid.antt =====
-- `Validate` decides a plain description of the events that the pipeline accepts.
use apexio.Base.{◌≡◌, ◌≢◌, ◌↔◌, ◌⊎◌, true, none, [], arith}
use apexio.Base.Text.{Unicode}
use apexio.Base.Text.Trim.{IsBlank, is_empty-trim_space}
use apexio.Schema.Time.{Time, zero_time, is_zero}
use apexio.Schema.Level.{valid_log_level}
use apexio.Schema.Event.{LogEvent, validate}

pub record IsValid ⦃u : Unicode⦄ (e : LogEvent) : Type 0 where
  pub has_message : ¬ IsBlank e.message
  pub has_service : ¬ IsBlank e.service
  pub level_known : (e.log_level ≡ []) ⊎ (valid_log_level e.log_level ≡ true)
  pub has_time : e.timestamp ≢ zero_time

pub is_zero_iff : (t : Time) → (is_zero t ≡ true) ↔ (t ≡ zero_time)
unfolding is_zero
is_zero_iff t = ground arith

-- `Validate` gives nil exactly if the message and the service are not blank, the level is empty or
-- known, and the time is not the zero time.
pub validate-none_iff : ⦃u : Unicode⦄ → (e : LogEvent) → (validate e ≡ none) ↔ IsValid e
unfolding validate
validate-none_iff e =
    ground
      (arith, is_empty-trim_space e.message, is_empty-trim_space e.service, is_zero_iff e.timestamp)
