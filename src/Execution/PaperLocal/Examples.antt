-- ===== src/Execution/PaperLocal/Examples.antt =====
-- The theorems on the simulated exchange at work on a position that turns around and on two orders.
use agente_tradin_ia_v2_mult.Common.{String, true, false, none, some, [], ◌∷◌, str_eq, ◌≡◌, refl}
use agente_tradin_ia_v2_mult.Common.Int.{ℤ, pos, ◌+ℤ◌, ◌-ℤ◌}
use agente_tradin_ia_v2_mult.Float.{Fixed, fixed_float}
use agente_tradin_ia_v2_mult.Persistence.Models.{buy, sell}
use agente_tradin_ia_v2_mult.Execution.Reconciliation.{Dict, get}
use agente_tradin_ia_v2_mult.OrderState.{filled, submitted}
use agente_tradin_ia_v2_mult.Risk.Engine.{ApprovedOrder}
use agente_tradin_ia_v2_mult.Execution.PaperLocal.Engine.{PaperEngine, submit, poll_order}
use agente_tradin_ia_v2_mult.Execution.PaperLocal.Polls.{
  Submission, expected_fill, run_submissions, poll_order-submit,
}
use agente_tradin_ia_v2_mult.Execution.PaperLocal.{PaperPosition, apply_to_position}
use agente_tradin_ia_v2_mult.Execution.PaperLocal.Net.{
  exact, net, signed, IsWithin, apply_to_position-IsWithin,
}

abbrev symbol : String
symbol = "BTCUSDT"

abbrev long : Dict (PaperPosition Fixed)
long =
    (
      symbol,
      record {
        symbol = symbol;
        side = buy;
        qty = pos 1_000_000;
        avg_entry_price = pos 100_000_000;
      },
    )
    ∷ []

abbrev short : Dict (PaperPosition Fixed)
short =
    (
      symbol,
      record {
        symbol = symbol;
        side = sell;
        qty = pos 2_000_000;
        avg_entry_price = pos 90_000_000;
      },
    )
    ∷ []

-- Selling 3 of a position of 1 leaves one of 2 on the other side.
apply_to_position-IsWithin_example :
    IsWithin 1_000_000_000_000
      (get symbol short)
      (net (get symbol long) +ℤ signed sell (pos 3_000_000))
    × ((other_symbol : String)
        → str_eq other_symbol symbol ≡ false
        → get other_symbol short ≡ get other_symbol long)
unfolding apply_to_position ◌-ℤ◌
apply_to_position-IsWithin_example =
    apply_to_position-IsWithin 1_000_000_000_000 symbol sell (pos 3_000_000) (pos 90_000_000) long
      short refl refl refl

-- A position is gone when a millionth of a millionth is left of it.
nearly_closed :
    apply_to_position {F = ℤ} ⦃f = exact 1_000_000_000_000⦄ symbol sell
      (pos 999_999)
      (pos 90_000_000)
      long
    ≡ some []
unfolding apply_to_position ◌-ℤ◌
nearly_closed = refl

abbrev engine : PaperEngine Fixed
engine = record {
  price_provider = λ _. pos 100_000_000;
  fee_rate = pos 600;
  slippage_bps = pos 5_000_000;
  partial_fill_ratio = none;
  snapshots = [];
  positions = [];
  next_fill = 1;
}

abbrev order : ApprovedOrder Fixed
order = record {
  signal_id = 3;
  symbol = symbol;
  side = buy;
  qty = pos 1_000_000;
  stop_loss = none;
  take_profit = none;
  is_close = false;
}

abbrev first : Submission Fixed
first = record { order = order; key = "0123456789abcdef0000"; reference_price = none }

abbrev second : Submission Fixed
second = record { order = order; key = "fedcba98765432100000"; reference_price = none }

poll_order-submit_example :
    poll_order "PAPER-0123456789abcdef"
      (run_submissions (second ∷ []) ((submit engine order first.key none).0))
    ≡ record {
      exchange_order_id = "PAPER-0123456789abcdef";
      status = filled;
      fills = expected_fill engine first ∷ [];
      fills_complete = true;
    }
unfolding submit
poll_order-submit_example =
    poll_order-submit engine first
      (record { exchange_order_id = "PAPER-0123456789abcdef"; status = submitted }) (second ∷ [])
      refl (refl, tt)
