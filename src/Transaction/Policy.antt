-- ===== src/Transaction/Policy.antt =====
-- rdm_dmx_async/transaction/policy.py. Durations are whole milliseconds, so that a negative delay
-- cannot be written.
use rdm_dmx_async.Base.{ℕ, Result, ok, value_error, Bool, true, false, ltb, leb, raise_if, ◌>>◌}
use rdm_dmx_async.Packets.Types.{NakReason, proxy_buffer_full}

pub record RetryPolicy : Type 0 where
  pub max_attempts : ℕ
  pub delay_between_attempts : ℕ
  pub timeout : ℕ
  pub max_ack_timer_polls : ℕ
  pub permanent_failures : NakReason → Bool

-- The default set: every reason but PROXY_BUFFER_FULL.
unfoldable pub default_permanent_failures : NakReason → Bool
default_permanent_failures proxy_buffer_full = false
default_permanent_failures _ = true

-- `__post_init__`
unfoldable pub post_init : RetryPolicy → Result RetryPolicy
post_init p = do
  raise_if (ltb p.max_attempts 1) value_error
  raise_if (leb p.timeout 0) value_error
  raise_if (ltb p.max_ack_timer_polls 1) value_error
  ok p

unfoldable pub is_permanent_failure : RetryPolicy → NakReason → Bool
is_permanent_failure p r = p.permanent_failures r

abbrev pub standard_policy : RetryPolicy
standard_policy = record {
  max_attempts = 3;
  delay_between_attempts = 0;
  timeout = 3000;
  max_ack_timer_polls = 3;
  permanent_failures = default_permanent_failures;
}
