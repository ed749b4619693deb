-- ===== src/Exit/Close.antt =====
-- The close profile (src/exit/close_zoneprofit.py and src/exit/base.py).
pub mod Decision
pub mod Book
mod Tests
use igthon.Prelude.{
  ℕ, ◌+◌, ◌*◌, String, Bool, true, false, ◌&&◌, ◌||◌, Option, none, some, List, [], ◌∷◌, map,
  str_eq, leb, if◌then◌else◌,
}
use igthon.Num.{Float, Arith, zero_float, ◌<f◌, ◌≤f◌, larger}
use igthon.Indicators.{atr, adverse_tick_noise}
use igthon.Feed.Candle.{Candle, spread}
use igthon.Feed.Buffer.{EpicBuffer, last, bid_closes, offer_closes, add}
use igthon.Exit.Zones.{
  StopZone, underwater, breakeven_band, secure, profit, StopContext, ◌>>=◌, sign_for, classify_zone,
}
use igthon.Exit.Zones.Group.{
  SmartGroupParams, GroupMember, GroupPlanReport, Plan, explain_group_tightening,
  plan_group_tightening,
}
use igthon.Exit.Updaters.{StopUpdater, smart_group_stop, is_smart_group, propose}

pub data CloseDecision : Type 0 where
  hold : CloseDecision
  close : String → CloseDecision
  update_stop : Float → CloseDecision

pub record OpenPlan : Type 0 where
  pub stop_level : Float
  pub level_zero : Float
  pub target_level : Float
  pub level_margin : Float
  pub profile : String

-- The columns of a position that the profile reads; a date counts days, a time
-- milliseconds.
pub record ExitPosition : Type 0 where
  pub id : ℕ
  pub direction : String
  pub level_open : Option Float
  pub level_zero : Option Float
  pub level_margin : Option Float
  pub level_follower : Option Float
  pub euro_per_point : Option Float
  pub min_stop_distance : Option Float
  pub date : Option ℕ
  pub time_open : Option ℕ

-- The stop distance is the policy's `initial_stop`.
pub record CloseZoneProfit : Type 0 where
  pub atr_period : ℕ
  pub noise_k : Float
  pub stop_distance : Float → String → EpicBuffer → Option Float → Float
  pub underwater : StopUpdater
  pub breakeven_band : StopUpdater
  pub secure : StopUpdater
  pub trailing : StopUpdater

-- The references a position is managed against.
pub record References : Type 0 where
  pub sign : Float
  pub level_zero : Float
  pub level_margin : Float
  pub level_profit : Float

-- `float(column or 0)`
abbrev pub or_zero : Option Float → Float
or_zero none = zero_float
or_zero (some x) = x

unfoldable pub opened_at : ExitPosition → Option ℕ
opened_at p = elim p.date [
  | none ↦ none
  | some day ↦ elim p.time_open [ none ↦ none | some time ↦ some (day * 86400000 + time) ]
]

-- The candles from a moment on, added one by one.
unfoldable pub added_since : ℕ → List Candle → EpicBuffer → EpicBuffer
unfolding add
added_since t [] b = b
added_since t (c ∷ cs) b =
    let taken = added_since t cs (add c b) in
    let left = added_since t cs b in if leb t c.timestamp then taken else left

unfoldable pub buffer_since : EpicBuffer → Option ℕ → EpicBuffer
unfolding added_since
buffer_since b none = b
buffer_since b (some t) = added_since t b.candles (record b { candles = [] })

abbrev pub decision_of : Option Float → CloseDecision
decision_of none = hold
decision_of (some s) = update_stop s

module _ (a : Arith) where
  open a use {add as add_float, sub, mul, lit}

  unfoldable pub close_out_price : Float → Float → Float → Float
  close_out_price current_bid spread sign =
      if sign <f zero_float then add_float current_bid spread else current_bid

  unfoldable pub noise_margin : Float → Float → Float
  noise_margin noise_k atr_value = mul noise_k atr_value

  -- The software backstop fires on the stop itself.
  unfoldable pub is_stopped : ExitPosition → Float → Bool
  unfolding sign_for
  is_stopped p price =
      (zero_float <f or_zero p.level_follower)
      && (mul (sign_for a p.direction) (sub price (or_zero p.level_follower)) ≤f zero_float)

  unfoldable pub member_with :
      SmartGroupParams → ExitPosition → Float → EpicBuffer → Candle → GroupMember
  unfolding sign_for close_out_price adverse_tick_noise bid_closes offer_closes spread
  member_with params p current_bid buf c =
      let s = sign_for a p.direction in
      let closes = if s <f zero_float then offer_closes buf else bid_closes buf in
      let noise =
        adverse_tick_noise a (map (λ x. mul s x) closes) params.noise_window params.noise_std_k in
      let min_stop_distance = or_zero p.min_stop_distance in
      record {
        position_id = p.id;
        level_open = or_zero p.level_open;
        level_follower = or_zero p.level_follower;
        euro_per_point = or_zero p.euro_per_point;
        current_price = close_out_price current_bid (spread a c) s;
        min_stop_distance = min_stop_distance;
        noise = noise;
        sign = s;
        exec_slip =
            mul params.exec_slip_k (add_float (spread a c) (larger noise min_stop_distance));
      }

  module _ (profile : CloseZoneProfit) where
    unfoldable pub initial_plan : Float → String → EpicBuffer → Option Float → OpenPlan
    unfolding sign_for noise_margin atr last
    initial_plan entry_level direction buf day_extreme =
        let level_zero =
          if str_eq direction "SELL"
          then entry_level
          else (elim (last buf) [ none ↦ entry_level | some c ↦ c.offer_close ]) in
        record {
          stop_level = profile.stop_distance entry_level direction buf day_extreme;
          level_zero = level_zero;
          target_level = zero_float;
          level_margin = add_float level_zero (
              mul (sign_for a direction)
                (noise_margin profile.noise_k (atr a buf.candles profile.atr_period)));
          profile = "close_zoneprofit";
        }

    unfoldable pub margin_of : ExitPosition → Float → Float
    unfolding sign_for noise_margin
    margin_of p atr_value =
        if or_zero p.level_margin ≤f zero_float
        then add_float (or_zero p.level_zero)
            (mul (sign_for a p.direction) (noise_margin profile.noise_k atr_value))
        else or_zero p.level_margin

    unfoldable pub references : ExitPosition → Float → References
    unfolding sign_for margin_of
    references p atr_value =
        let level_zero = or_zero p.level_zero in
        let level_margin = margin_of p atr_value in
        record {
          sign = sign_for a p.direction;
          level_zero = level_zero;
          level_margin = level_margin;
          level_profit = add_float level_margin (sub level_margin level_zero);
        }

    unfoldable pub zone_at : References → Float → StopZone
    unfolding classify_zone
    zone_at r price = classify_zone a price r.level_zero r.level_margin r.level_profit r.sign

    unfoldable pub current_zone : ExitPosition → Float → Option EpicBuffer → Option StopZone
    unfolding references zone_at close_out_price last atr spread
    current_zone p current_bid maybe_buf = do
      buf ← maybe_buf
      c ← last buf
      let r = references p (atr a buf.candles profile.atr_period)
      some (zone_at r (close_out_price current_bid (spread a c) r.sign))

    unfoldable pub is_group_aware : Bool
    is_group_aware = is_smart_group profile.underwater

    unfoldable pub group_member : ExitPosition → Float → Option EpicBuffer → Option GroupMember
    unfolding member_with last
    group_member p current_bid maybe_buf = elim profile.underwater [
      | smart_group_stop params ↦ do
        buf ← maybe_buf
        c ← last buf
        some (member_with params p current_bid buf c)
      | _ ↦ none
    ]

    unfoldable pub plan_group : List GroupMember → Plan
    unfolding plan_group_tightening
    plan_group members = elim profile.underwater [
      | smart_group_stop params ↦ plan_group_tightening a params members
      | _ ↦ []
    ]

    unfoldable pub explain_group : List GroupMember → Option GroupPlanReport
    unfolding explain_group_tightening
    explain_group members = elim profile.underwater [
      | smart_group_stop params ↦ some (explain_group_tightening a params members)
      | _ ↦ none
    ]

    unfoldable pub context_of :
        ExitPosition → Float → Float → EpicBuffer → Float → Option Float → StopContext
    unfolding references buffer_since opened_at
    context_of p price spread buf atr_value group_tighten =
        let r = references p atr_value in
        record {
          current_price = price;
          level_open = or_zero p.level_open;
          level_zero = r.level_zero;
          level_margin = r.level_margin;
          level_follower = or_zero p.level_follower;
          atr_value = atr_value;
          spread = spread;
          euro_per_point = or_zero p.euro_per_point;
          buf = buffer_since buf (opened_at p);
          direction = p.direction;
          min_stop_distance = or_zero p.min_stop_distance;
          group_tighten = group_tighten;
        }

    unfoldable pub updater_for : StopZone → StopUpdater
    updater_for profit = profile.trailing
    updater_for secure = profile.secure
    updater_for breakeven_band = profile.breakeven_band
    updater_for underwater = profile.underwater

    -- The group's level wins when it is tighter than the zone's.
    unfoldable pub tighter_of : Float → Option Float → Option Float → Option Float
    unfolding is_group_aware
    tighter_of sign none new_stop = new_stop
    tighter_of sign (some g) none = if is_group_aware then some g else none
    tighter_of sign (some g) (some s) =
        if is_group_aware && (zero_float <f mul sign (sub g s)) then some g else some s

    unfoldable pub new_stop_in : StopZone → Float → StopContext → Option Float
    unfolding updater_for tighter_of propose
    new_stop_in zone sign ctx = tighter_of sign ctx.group_tighten (propose a (updater_for zone) ctx)

    unfoldable pub managed :
        ExitPosition → Float → Float → EpicBuffer → Option Float → CloseDecision
    unfolding references zone_at atr context_of new_stop_in
    managed p price spread buf group_tighten =
        let atr_value = atr a buf.candles profile.atr_period in
        let r = references p atr_value in
        if atr_value ≤f zero_float
        then hold
        else decision_of (
            new_stop_in (zone_at r price) r.sign
              (context_of p price spread buf atr_value group_tighten))

    unfoldable pub evaluate :
        ExitPosition → Float → EpicBuffer → Bool → Option Float → CloseDecision
    unfolding close_out_price spread last is_stopped managed sign_for
    evaluate p current_bid buf is_close_hour group_tighten =
        if is_close_hour then close "end_of_day" else elim (last buf) [
          | none ↦ hold
          | some c ↦
              let price = close_out_price current_bid (spread a c) (sign_for a p.direction) in
              if is_stopped p price
              then close "stop"
              else managed p price (spread a c) buf group_tighten
        ]
