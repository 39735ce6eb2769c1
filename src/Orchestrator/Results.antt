-- ===== src/Orchestrator/Results.antt =====
-- app/orchestrator.py: what a tick says about itself. Of the dictionary that it returns, the status
-- and `strategy_bucket_complete` are kept; the texts of details are left out.
use agente_tradin_ia_v2_mult.Common.{Bool, true, false}

pub data TickStatus : Type 0 where
  no_data no_new_candle retryable_error fatal_error gap_detected duplicate_candle aggregating
        incomplete_bucket hold rejected order_filled order_not_filled order_pending
        duplicate_suppressed close_rejected close_failed close_pending position_closed
        position_reduced :
      TickStatus

pub record TickResult : Type 0 where
  pub status : TickStatus
  pub strategy_bucket_complete : Bool

-- `FAILURE_TICK_STATUSES`
abbrev pub is_failure : TickStatus → Bool
is_failure retryable_error = true
is_failure fatal_error = true
is_failure gap_detected = true
is_failure _ = false

abbrev pub is_gap : TickStatus → Bool
is_gap gap_detected = true
is_gap _ = false

abbrev pub is_incomplete : TickStatus → Bool
is_incomplete incomplete_bucket = true
is_incomplete _ = false

-- `status not in ("no_new_candle", "duplicate_candle", "no_data")`
abbrev pub is_persisted : TickStatus → Bool
is_persisted no_new_candle = false
is_persisted duplicate_candle = false
is_persisted no_data = false
is_persisted _ = true
