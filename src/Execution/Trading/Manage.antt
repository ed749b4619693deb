-- ===== src/Execution/Trading/Manage.antt =====
-- A tick of an open position, and the stop that the user sets (src/execution/trading.py).
use igthon.Prelude.{String, Bool, false, not, ◌&&◌, Option, none, some, List, str_eq, if◌then◌else◌}
use igthon.Num.{Float, Arith, zero_float, ◌<f◌, ◌≤f◌, abs}
use igthon.Indicators.{atr}
use igthon.Feed.Candle.{Candle, spread}
use igthon.Feed.Buffer.{EpicBuffer, last}
use igthon.Exit.Trailing.{Tick, compute_trailing_stop, decide_close_reason}
use igthon.Exit.Zones.{StopZone, underwater, breakeven_band, secure, profit}
use igthon.Exit.Close.{
  CloseZoneProfit, CloseDecision, hold, close, update_stop, or_zero, evaluate, current_zone,
}
use igthon.Execution.Trading.{TradeConfig, TradedPosition, exit_view, is_epic_close_hour}
use igthon.Execution.Trading.Stops.{
  StopAnswers, is_favourable_stop_move, broker_stop_buffer, broker_stop_level,
  clamp_broker_stop_to_min_distance, ratchet_stop, pushed_stop, with_follower,
}
use igthon.Execution.Trading.Closing.{CloseAnswers, Closed, close_position}

-- What the service has, and what it is told during a tick.
pub record Service : Type 0 where
  pub config : TradeConfig
  pub close_profile : Option CloseZoneProfit
  pub market_order_unsupported : List String

pub record Tidings : Type 0 where
  pub minutes_to_close : Option Float
  pub stop_answers : StopAnswers
  pub close_answers : CloseAnswers

abbrev pub zone_value : StopZone → String
zone_value underwater = "underwater"
zone_value breakeven_band = "breakeven_band"
zone_value secure = "secure"
zone_value profit = "profit"

-- Is the stop that the user set still held, and is it to be released?
pub data ManualHold : Type 0 where
  no_hold held released : ManualHold

-- The refusals of a manual stop, or the moved stop and whether the broker took it.
pub data ManualStop : Type 0 where
  no_price_data must_be_above_offer must_be_below_bid : ManualStop
  moved : TradedPosition → Bool → ManualStop

module _ (a : Arith) (service : Service) where
  open a use {add}

  -- The position stays open.
  abbrev pub kept : TradedPosition → Closed
  kept p = record { position = p; closed = false; unsupported = service.market_order_unsupported }

  unfoldable pub close_now : Tidings → TradedPosition → Float → String → Closed
  unfolding close_position
  close_now tidings p level reason =
      close_position a service.config tidings.close_answers service.market_order_unsupported p level
        reason

  unfoldable pub trailing_tick : TradedPosition → Float → EpicBuffer → Candle → Tick
  unfolding atr spread
  trailing_tick p current_bid buf c = record {
    current_price = current_bid;
    atr_value = atr a buf.candles service.config.atr_period;
    spread = spread a c;
    level_zero = or_zero p.level_zero;
    euro_per_point = or_zero p.euro_per_point;
    euro_stop = abs (or_zero p.euro_stop);
    noise_floor = zero_float;
  }

  unfoldable pub trail : Tidings → TradedPosition → Float → EpicBuffer → Candle → TradedPosition
  unfolding trailing_tick compute_trailing_stop ratchet_stop broker_stop_buffer spread
  trail tidings p current_bid buf c =
      elim (compute_trailing_stop a service.config.trailing (a.lit 1 1)
        (trailing_tick p current_bid buf c) (or_zero p.level_follower)) [
          | none ↦ p
          | some new_stop ↦
              (ratchet_stop a tidings.stop_answers p new_stop current_bid (spread a c)
                (broker_stop_buffer a service.config (some buf))).0
        ]

  unfoldable pub update_trailing_stop :
      Tidings → TradedPosition → Float → Option EpicBuffer → TradedPosition
  unfolding last trail
  update_trailing_stop tidings p current_bid none = p
  update_trailing_stop tidings p current_bid (some buf) = elim (last buf) [
    | none ↦ p
    | some c ↦ trail tidings p current_bid buf c
  ]

  unfoldable pub check_and_close : Tidings → TradedPosition → Float → Option EpicBuffer → Closed
  unfolding decide_close_reason is_epic_close_hour update_trailing_stop close_now
  check_and_close tidings p current_bid maybe_buf =
      elim (decide_close_reason current_bid (or_zero p.level_win) (or_zero p.level_loose)
        (is_epic_close_hour a service.config tidings.minutes_to_close)) [
          | some reason ↦ close_now tidings p current_bid reason
          | none ↦ kept (
              if or_zero p.level_open <f current_bid
              then update_trailing_stop tidings p current_bid maybe_buf
              else p)
        ]

  unfoldable pub manual_hold : CloseZoneProfit → TradedPosition → Float → EpicBuffer → ManualHold
  unfolding current_zone exit_view
  manual_hold profile p current_bid buf = elim p.manual_stop_zone [
    | none ↦ no_hold
    | some manual_zone ↦
        if str_eq manual_zone ""
        then no_hold
        else elim (current_zone a profile (exit_view p) current_bid (some buf)) [
          | none ↦ held
          | some zone ↦ if str_eq (zone_value zone) manual_zone then held else released
        ]
  ]

  -- The stop moves if it tightens protection, or if there is none.
  unfoldable pub apply_stop :
      Tidings → TradedPosition → Float → EpicBuffer → Candle → Float → TradedPosition
  unfolding is_favourable_stop_move ratchet_stop broker_stop_buffer spread
  apply_stop tidings p current_bid buf c new_stop =
      let current = or_zero p.level_follower in
      if (zero_float <f current) && not (is_favourable_stop_move p.direction new_stop current)
      then p
      else (ratchet_stop a tidings.stop_answers p new_stop
          (if str_eq p.direction "SELL" then add current_bid (spread a c) else current_bid)
          (spread a c) (broker_stop_buffer a service.config (some buf))).0

  unfoldable pub apply_decision :
      Tidings → TradedPosition → Float → EpicBuffer → Candle → CloseDecision → TradedPosition
  unfolding apply_stop
  apply_decision tidings p current_bid buf c (update_stop s) =
      apply_stop tidings p current_bid buf c s
  apply_decision tidings p current_bid buf c hold = p
  apply_decision tidings p current_bid buf c (close reason) = p

  unfoldable pub under_hold :
      Tidings
      → TradedPosition
      → Float
      → EpicBuffer
      → Candle
      → CloseDecision
      → ManualHold
      → TradedPosition
  unfolding apply_decision
  under_hold tidings p current_bid buf c decision held = p
  under_hold tidings p current_bid buf c decision released =
      apply_decision tidings (record p { manual_stop_zone = none }) current_bid buf c decision
  under_hold tidings p current_bid buf c decision no_hold =
      apply_decision tidings p current_bid buf c decision

  unfoldable pub after_hold :
      Tidings
      → CloseZoneProfit
      → TradedPosition
      → Float
      → EpicBuffer
      → Candle
      → CloseDecision
      → TradedPosition
  unfolding manual_hold under_hold
  after_hold tidings profile p current_bid buf c decision =
      under_hold tidings p current_bid buf c decision (manual_hold profile p current_bid buf)

  unfoldable pub manage_with :
      Tidings
      → CloseZoneProfit
      → TradedPosition
      → Float
      → EpicBuffer
      → Candle
      → CloseDecision
      → Closed
  unfolding close_now after_hold
  manage_with tidings profile p current_bid buf c (close reason) =
      close_now tidings p current_bid reason
  manage_with tidings profile p current_bid buf c hold =
      kept (after_hold tidings profile p current_bid buf c hold)
  manage_with tidings profile p current_bid buf c (update_stop s) =
      kept (after_hold tidings profile p current_bid buf c (update_stop s))

  -- Without a profile or a candle, a short is held, and a long falls back on the fixed levels.
  unfoldable pub unprofiled : Tidings → TradedPosition → Float → Option EpicBuffer → Closed
  unfolding check_and_close
  unprofiled tidings p current_bid maybe_buf =
      if str_eq p.direction "SELL" then kept p else check_and_close tidings p current_bid maybe_buf

  unfoldable pub profiled :
      Tidings → CloseZoneProfit → TradedPosition → Float → Option EpicBuffer → Option Float → Closed
  unfolding last unprofiled manage_with evaluate exit_view is_epic_close_hour
  profiled tidings profile p current_bid none group_tighten = unprofiled tidings p current_bid none
  profiled tidings profile p current_bid (some buf) group_tighten = elim (last buf) [
    | none ↦ unprofiled tidings p current_bid (some buf)
    | some c ↦ manage_with tidings profile p current_bid buf c (
        evaluate a profile (exit_view p) current_bid buf
          (is_epic_close_hour a service.config tidings.minutes_to_close) group_tighten)
  ]

  unfoldable pub manage_position :
      Tidings → TradedPosition → Float → Option EpicBuffer → Option Float → Closed
  unfolding unprofiled profiled
  manage_position tidings p current_bid maybe_buf group_tighten = elim service.close_profile [
    | none ↦ unprofiled tidings p current_bid maybe_buf
    | some profile ↦ profiled tidings profile p current_bid maybe_buf group_tighten
  ]

  unfoldable pub manual_stop_level : TradedPosition → Float → Candle → EpicBuffer → Float
  unfolding broker_stop_level clamp_broker_stop_to_min_distance broker_stop_buffer spread
  manual_stop_level p target_level c buf =
      clamp_broker_stop_to_min_distance a p.direction
        (broker_stop_level a p.direction target_level (spread a c)
          (broker_stop_buffer a service.config (some buf)))
        c.bid_close p

  unfoldable pub captured_zone :
      TradedPosition → Option CloseZoneProfit → Float → EpicBuffer → Option String
  unfolding current_zone exit_view
  captured_zone p none current_bid buf = none
  captured_zone p (some profile) current_bid buf =
      elim (current_zone a profile (exit_view p) current_bid (some buf)) [
        | none ↦ none
        | some zone ↦ some (zone_value zone)
      ]

  unfoldable pub set_stop_manually :
      StopAnswers → TradedPosition → Float → Option EpicBuffer → Option CloseZoneProfit → ManualStop
  unfolding last spread manual_stop_level with_follower pushed_stop captured_zone
  set_stop_manually answers p target_level none profile = no_price_data
  set_stop_manually answers p target_level (some buf) profile = elim (last buf) [
    | none ↦ no_price_data
    | some c ↦
        let moved_follower = with_follower a p target_level in
        let (q, pushed) =
          pushed_stop a answers (manual_stop_level p target_level c buf) target_level
            (record moved_follower {
              manual_stop_zone = captured_zone moved_follower profile c.bid_close buf;
            }) in
        if str_eq p.direction "SELL"
        then (if target_level ≤f add c.bid_close (spread a c)
            then must_be_above_offer
            else moved q pushed)
        else if c.bid_close ≤f target_level
        then must_be_below_bid
        else moved q pushed
  ]
