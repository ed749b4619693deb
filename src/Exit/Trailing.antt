-- ===== src/Exit/Trailing.antt =====
-- The close rules without state (src/exit/trailing.py).
pub mod Ratchet
mod Tests
use igthon.Prelude.{String, Bool, ◌&&◌, ◌||◌, Option, none, some, if◌then◌else◌}
use igthon.Num.{Float, Arith, zero_float, ◌<f◌, ◌≤f◌, larger, smaller}

pub record TrailingConfig : Type 0 where
  pub atr_k_pre : Float
  pub atr_k_post : Float
  pub trailing_step_ratio : Float

unfoldable pub decide_close_reason : Float → Float → Float → Bool → Option String
decide_close_reason current_bid level_win level_loose is_close_hour =
    if is_close_hour
    then some "end_of_day"
    else if (zero_float <f level_win) && (level_win ≤f current_bid)
    then some "win"
    else if (zero_float <f level_loose) && (current_bid ≤f level_loose)
    then some "loose"
    else none

-- What a tick brings: the price, the statistics of the candles and the position's levels.
pub record Tick : Type 0 where
  pub current_price : Float
  pub atr_value : Float
  pub spread : Float
  pub level_zero : Float
  pub euro_per_point : Float
  pub euro_stop : Float
  pub noise_floor : Float

module _ (a : Arith) where
  open a use {sub, mul, div, lit}

  unfoldable pub floor_of : Float → Float → Float
  floor_of spread noise_floor = larger (larger (mul spread (lit 2 1)) noise_floor) zero_float

  -- The distance under its ceiling.
  unfoldable pub capped : Float → Float → Float → Float
  capped raw_distance euro_per_point euro_stop =
      if (zero_float <f euro_per_point) && (zero_float <f euro_stop)
      then smaller raw_distance (div euro_stop euro_per_point)
      else raw_distance

  unfoldable pub clamp_trailing_distance : Float → Float → Float → Float → Float → Float
  unfolding floor_of capped
  clamp_trailing_distance raw_distance spread euro_per_point euro_stop noise_floor =
      larger (capped raw_distance euro_per_point euro_stop) (floor_of spread noise_floor)

  -- The stop that trails the price, before the ratchet.
  unfoldable pub trailing_candidate : TrailingConfig → Float → Tick → Float
  unfolding clamp_trailing_distance
  trailing_candidate config sign t =
      let past_zero =
        (zero_float <f t.level_zero)
        && (zero_float ≤f mul sign (sub t.current_price t.level_zero)) in
      let k = if past_zero then config.atr_k_post else config.atr_k_pre in
      let distance =
        clamp_trailing_distance (mul k t.atr_value) t.spread t.euro_per_point t.euro_stop
          t.noise_floor in
      sub t.current_price (mul sign distance)

  unfoldable pub compute_trailing_stop : TrailingConfig → Float → Tick → Float → Option Float
  unfolding trailing_candidate
  compute_trailing_stop config sign t level_follower =
      if t.atr_value ≤f zero_float
      then none
      else let new_stop = trailing_candidate config sign t in
        if mul sign (sub new_stop level_follower) ≤f mul config.trailing_step_ratio t.atr_value
        then none
        else some new_stop
