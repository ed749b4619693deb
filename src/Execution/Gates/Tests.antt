-- ===== src/Execution/Gates/Tests.antt =====
-- The gates at concrete inputs, in whole numbers.
use igthon.Prelude.{◌≡◌, refl, ◌↔◌, ◌⊎◌, true, false, none, some, [], ◌∷◌, arith}
use igthon.Prelude.Int.{pos, ◌-ℤ◌, ◌*ℤ◌, ◌+ℤ◌}
use igthon.Num.{zero_float, ◌<f◌, neg}
use igthon.Num.Whole.{whole, whole-Ieee}
use igthon.Indicators.{efficiency_ratio, abs_steps, net_move}
use igthon.Execution.Gates.{
  Position, point, Closing, Opening, revert, is_text, closed_on_stop, recovery_revert_reason_open,
  should_revert_after_stop_loss, sign_of,
}
use igthon.Execution.Gates.Revert.{Reached, should_revert-exact}
use igthon.Execution.Gates.Curve.{
  Thresholds, Curve, ok, curve_supports_revert, risk_of, penetration_of, shape_verdict,
  adverse_steps, favourable_moves, efficiency_of, bar_of,
}
use igthon.Execution.Gates.Break.{IsBreak, IsFast, IsBeyond, curve_supports_revert_sound}

abbrev morning : Opening
morning = record {
  direction = "BUY";
  in_trading_hours = true;
  epic_already_open = false;
  closes_soon = false;
  allow_short = false;
  epic_traded_today = false;
}

abbrev long : Position
long = record {
  stop_history = point (some (pos 90)) none ∷ [];
  stop_update = some 1;
  level_follower = some (pos 97);
  date = none;
  time_open = none;
}

abbrev stopped : Closing
stopped = record {
  direction = some "BUY";
  reason_close = some "closed_externally";
  reason_open = some "five";
  euro = neg (pos 12);
  level_close = pos 89;
  original_stop = pos 90;
  stop_ratcheted = true;
}

should_revert-exact_example : (should_revert_after_stop_loss whole stopped ≡ revert) ↔ (
    (is_text stopped.reason_open recovery_revert_reason_open ≡ false)
    × (closed_on_stop stopped.reason_close ≡ true)
    × ((stopped.euro <f zero_float) ≡ true)
    × ((zero_float <f stopped.original_stop) ≡ true)
    × ((stopped.stop_ratcheted ≡ false)
        ⊎ (((zero_float <f stopped.level_close) ≡ true) × Reached stopped)))
should_revert-exact_example = should_revert-exact whole whole-Ieee stopped

abbrev thresholds : Thresholds
thresholds = record {
  min_impulse_ratio = pos 1;
  min_efficiency_k = pos 1;
  max_efficiency_bar = pos 1;
  max_favourable_ratio = pos 1;
  min_break_ratio = pos 0;
  min_curve_candles = 2;
}

-- A rise of one point, then a break of twelve through a stop ten points below the opening.
abbrev crash : Curve
crash = record {
  direction = some "BUY";
  level_open = pos 100;
  original_stop = pos 90;
  prices = pos 101 ∷ pos 89 ∷ [];
  current_price = pos 88;
  minutes_held = pos 2;
}

curve_supports_revert-crash : curve_supports_revert whole thresholds crash ≡ ok
unfolding curve_supports_revert risk_of penetration_of shape_verdict adverse_steps favourable_moves
    efficiency_of efficiency_ratio abs_steps net_move bar_of sign_of ◌-ℤ◌ ◌*ℤ◌ ◌+ℤ◌
curve_supports_revert-crash = refl

curve_supports_revert_sound_example :
    ((zero_float <f risk_of whole crash) ≡ true)
    × IsBeyond whole crash
    × (IsFast whole thresholds crash ⊎ IsBreak whole thresholds crash)
unfolding curve_supports_revert risk_of penetration_of shape_verdict adverse_steps favourable_moves
    efficiency_of efficiency_ratio abs_steps net_move bar_of sign_of ◌-ℤ◌ ◌*ℤ◌ ◌+ℤ◌
curve_supports_revert_sound_example =
    curve_supports_revert_sound whole whole-Ieee thresholds crash (omega arith) refl
