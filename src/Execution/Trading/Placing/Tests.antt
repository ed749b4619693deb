-- ===== src/Execution/Trading/Placing/Tests.antt =====
-- An opening at concrete levels, in whole numbers (src/execution/trading.py).
use igthon.Prelude.{◌≡◌, ◌↔◌, ◌⊎◌, refl, ℕ, zero, suc, ◌≤◌, false, none, some, []}
use igthon.Prelude.Int.{pos}
use igthon.Num.Whole.{whole}
use igthon.Execution.Trading.{TradeConfig}
use igthon.Execution.Trading.Placing.{
  Signal, MarketData, OpenAnswers, Confirmation, ConfirmReply, confirmed, status_error, posted,
  market_refused, place, confirm_with_retry, confirm_loop, is_retried,
}
use igthon.Execution.Trading.Placing.Confirming.{IsFirst, confirm_with_retry-IsFirst}
use igthon.Execution.Trading.Placing.Row.{sent, open_position}
use igthon.Execution.Trading.Placing.Stored.{
  AllOf, IsRow, IsRefused, deal_after, open_position-IsRow,
}

abbrev signal : Signal
signal = record {
  epic = "E";
  direction = "BUY";
  bid = pos 100;
  offer = pos 101;
  spread = pos 1;
  level_follower = pos 90;
  level_win = pos 0;
  level_zero = pos 101;
  level_loose = pos 90;
  level_security = pos 90;
  level_margin = pos 103;
}

abbrev market : MarketData
market = record {
  market_status = some "TRADEABLE";
  market_order_preference = none;
  min_stop_rule = record { value = some (pos 2); is_percentage = false };
  max_stop_rule = record { value = none; is_percentage = false };
  min_deal_size = 1;
  scaling_factor = pos 1;
  point_value = record { contract_size = pos 1; lot_size = pos 0; rate = pos 1 };
  currency = "EUR";
  expiry = "-";
}

abbrev accepted : Confirmation
accepted = record { deal_status = some "ACCEPTED"; deal_id = some "D"; level = some (pos 102) }

-- The reference is not known at first.
abbrev late : ℕ → ConfirmReply
late zero = status_error none
late (suc zero) = status_error (some 404)
late (suc (suc n)) = confirmed accepted

abbrev open_answers : OpenAnswers
open_answers = record {
  market = some market;
  first_post = market_refused;
  second_post = posted (some "R");
  confirm = late;
  today = 3;
  time = 1000;
}

confirmed_late : confirm_with_retry late ≡ some accepted
unfolding confirm_with_retry confirm_loop is_retried
confirmed_late = refl

confirm_with_retry-IsFirst_example :
    (confirm_with_retry late ≡ some accepted) ↔ ((k : ℕ) × (k ≤ 4) × IsFirst late accepted 1 k)
confirm_with_retry-IsFirst_example = confirm_with_retry-IsFirst late accepted

abbrev config : TradeConfig
config = record {
  close_margin_minutes = 5;
  open_close_buffer_minutes = 60;
  allow_same_day_reopen = false;
  stop_min_distance_margin = pos 0;
  market_order_limit_slippage = pos 0;
  atr_period = 1;
  trailing = record { atr_k_pre = pos 2; atr_k_post = pos 2; trailing_step_ratio = pos 0 };
  broker_stop_noise_atr = pos 1;
}

open_position-IsRow_example :
    let row = (open_position whole config open_answers 7 [] signal 1 (pos 1)).position in
    let placed = place whole config market signal [] 1 (pos 1) in
    let reference = (sent whole open_answers placed []).0 in
    let confirmation = confirm_with_retry open_answers.confirm in
    ((row ≡ none) ↔ ((reference ≡ none) ⊎ IsRefused confirmation))
    × AllOf whole (IsRow whole reference (deal_after confirmation)) row
open_position-IsRow_example =
    open_position-IsRow whole config open_answers 7 [] signal 1 (pos 1) market refl
