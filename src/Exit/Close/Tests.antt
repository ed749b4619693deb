-- ===== src/Exit/Close/Tests.antt =====
-- The close profile at concrete positions, in whole numbers.
use igthon.Prelude.{refl, ℕ, String, false, none, some, [], ◌∷◌, arith}
use igthon.Prelude.Ring.{keep_last}
use igthon.Prelude.Int.{pos, ◌≤ℤ◌, ◌+ℤ◌, ◌-ℤ◌, ◌*ℤ◌}
use igthon.Num.{zero_float}
use igthon.Num.Whole.{whole, whole-Ieee}
use igthon.Indicators.{
  atr, true_ranges, true_range, adverse_tick_noise, down_moves, noise_of, mean_of,
}
use igthon.Feed.Candle.{Candle, spread}
use igthon.Feed.Buffer.{EpicBuffer, last, bid_closes, offer_closes}
use igthon.Exit.Zones.{
  StopZone, underwater, breakeven_band, secure, profit, classify_zone, sign_for, sign, gain, beyond,
  loosens, tighten_only,
}
use igthon.Exit.Zones.Band.{breakeven_half}
use igthon.Exit.Zones.Group.{
  SmartGroupParams, default_smartgroup, plan_group_tightening, explain_group_tightening, walk,
  report_of, is_unpriceable, is_unprotected, counted, count, candidate_stop, tightens, value_at,
  euro_at, fill_level, haircut, plan_set, plan_get,
}
use igthon.Exit.Updaters.{
  smart_group_stop, breakeven_band_stop, breakeven_half_stop, trailing_ratchet_stop, propose,
}
use igthon.Exit.Zones.Profit.{default_ratchet}
use igthon.Exit.Close.{
  ExitPosition, CloseZoneProfit, evaluate, is_stopped, close_out_price, managed, references,
  margin_of, noise_margin, zone_at, context_of, buffer_since, opened_at, new_stop_in, updater_for,
  tighter_of, is_group_aware, group_member, member_with, plan_group,
}
use igthon.Exit.Close.Decision.{IsRatchet, min_advance_of, evaluate-IsRatchet}
use igthon.Exit.Close.Book.{plan_group-IsRatchet}

abbrev candle : ℕ → ℕ → Candle
candle time price = record {
  timestamp = time;
  bid_open = pos price;
  bid_close = pos price;
  bid_high = pos price;
  bid_low = pos price;
  offer_open = pos price;
  offer_close = pos price;
  offer_high = pos price;
  offer_low = pos price;
  volume = 1;
}

abbrev buffer : EpicBuffer
buffer = record { epic = "E"; max_candles = 10; candles = candle 1 104 ∷ candle 2 107 ∷ [] }

abbrev params : SmartGroupParams
params = record (default_smartgroup whole) { reconcile_margin_pct = pos 0; exec_slip_k = pos 0 }

abbrev settings : CloseZoneProfit
settings = record {
  atr_period = 1;
  noise_k = pos 1;
  stop_distance = λ entry direction buf extreme. entry;
  underwater = smart_group_stop params;
  breakeven_band = breakeven_band_stop;
  secure = breakeven_half_stop (pos 1);
  trailing = trailing_ratchet_stop (default_ratchet whole);
}

abbrev long : ExitPosition
long = record {
  id = 7;
  direction = "BUY";
  level_open = some (pos 100);
  level_zero = some (pos 100);
  level_margin = some (pos 110);
  level_follower = some (pos 90);
  euro_per_point = some (pos 2);
  min_stop_distance = some (pos 3);
  date = none;
  time_open = none;
}

advances : (z : StopZone) → zero_float ≤ℤ min_advance_of (updater_for whole settings z)
unfolding updater_for
advances underwater = omega arith
advances breakeven_band = omega arith
advances secure = omega arith
advances profit = omega arith

abbrev backstop : String
backstop = "stop"

evaluate-IsRatchet_example : IsRatchet long (pos 110)
unfolding evaluate last close_out_price sign_for is_stopped managed references margin_of
    noise_margin zone_at classify_zone context_of buffer_since opened_at new_stop_in updater_for
    tighter_of propose breakeven_half gain beyond sign tighten_only loosens atr true_ranges
    true_range keep_last spread ◌+ℤ◌ ◌-ℤ◌ ◌*ℤ◌
evaluate-IsRatchet_example =
    evaluate-IsRatchet whole whole-Ieee settings advances long (pos 115) buffer false none (pos 110)
      (λ level h. absurd (ground arith)) refl

plan_group-IsRatchet_example : IsRatchet long (pos 102)
unfolding evaluate last close_out_price sign_for is_stopped managed references margin_of
    noise_margin zone_at classify_zone context_of buffer_since opened_at new_stop_in updater_for
    tighter_of propose is_group_aware atr true_ranges true_range keep_last spread group_member
    member_with bid_closes offer_closes adverse_tick_noise down_moves noise_of mean_of plan_group
    plan_group_tightening explain_group_tightening walk report_of is_unpriceable is_unprotected
    counted count candidate_stop tightens value_at euro_at fill_level haircut plan_set plan_get ◌+ℤ◌
    ◌-ℤ◌ ◌*ℤ◌
plan_group-IsRatchet_example =
    plan_group-IsRatchet whole whole-Ieee settings params advances refl [] []
      (member_with whole params long (pos 105) buffer (candle 2 107)) (tt, tt) long (pos 105) buffer
      false (pos 102) refl refl
