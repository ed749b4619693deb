-- ===== src/Execution/Trading/Placing.antt =====
-- The opening of a position at the broker (src/execution/trading.py). The broker's answers are given
-- to the operation, with their numbers as they are parsed.
pub mod Confirming
pub mod Stored
pub mod Row
mod Tests
use igthon.Prelude.{
  ℕ, zero, suc, ◌+◌, ◌-◌, ◌*◌, String, Bool, true, false, not, ◌&&◌, ◌||◌, Option, none, some, List,
  [], ◌∷◌, str_eq, contains, leb, max, if◌then◌else◌,
}
use igthon.Num.{Float, Arith, zero_float, ◌<f◌, ◌≤f◌, larger}
use igthon.Indicators.{same_float}
use igthon.Exit.Close.{or_zero}
use igthon.Execution.Trading.{TradeConfig}
use igthon.Execution.Trading.Closing.{limit_level}
use igthon.Execution.Trading.Stops.{nonempty, broker_stop_level}
use igthon.Execution.Trading.Sync.{PointValue}
use igthon.Execution.Trading.Sync.Loop.{euro_per_point}

abbrev pub confirm_max_attempts : ℕ
confirm_max_attempts = 4

-- A distance in the dealing rules.
pub record Rule : Type 0 where
  pub value : Option Float
  pub is_percentage : Bool

-- The answer to the request of the market. A scaling factor that is zero is one.
pub record MarketData : Type 0 where
  pub market_status : Option String
  pub market_order_preference : Option String
  pub min_stop_rule : Rule
  pub max_stop_rule : Rule
  pub min_deal_size : ℕ
  pub scaling_factor : Float
  pub point_value : PointValue
  pub currency : String
  pub expiry : String

-- The signal's side and levels.
pub record Signal : Type 0 where
  pub epic : String
  pub direction : String
  pub bid : Float
  pub offer : Float
  pub spread : Float
  pub level_follower : Float
  pub level_win : Float
  pub level_zero : Float
  pub level_loose : Float
  pub level_security : Float
  pub level_margin : Float

pub record OpenOrder : Type 0 where
  pub epic : String
  pub expiry : String
  pub direction : String
  pub size : ℕ
  pub currency : String
  pub stop_level : Float
  pub limit : Option Float

-- The answer to a POST: the deal's reference, the refusal of a market order, or another error.
pub data PostReply : Type 0 where
  posted : Option String → PostReply
  market_refused failed : PostReply

pub record Confirmation : Type 0 where
  pub deal_status : Option String
  pub deal_id : Option String
  pub level : Option Float

-- The answer to one request of the confirmation: an error of the broker's has a status or none.
pub data ConfirmReply : Type 0 where
  confirmed : Confirmation → ConfirmReply
  status_error : Option ℕ → ConfirmReply
  network_error : ConfirmReply

-- The answers during an opening; the confirmation is asked for with the number of the attempt.
pub record OpenAnswers : Type 0 where
  pub market : Option MarketData
  pub first_post : PostReply
  pub second_post : PostReply
  pub confirm : ℕ → ConfirmReply
  pub today : ℕ
  pub time : ℕ

-- What is computed before the order is sent.
pub record Placement : Type 0 where
  pub order : OpenOrder
  pub reference_price : Float
  pub stop_distance : Float
  pub min_stop_distance : Float
  pub follower_level : Float
  pub loose_level : Float
  pub broker_stop : Float
  pub quantity : ℕ
  pub epp : Float
  pub euro_risk : Float

unfoldable pub is_retried : Option ℕ → Bool
is_retried none = true
is_retried (some status) = leb 404 status && leb status 404 || leb 500 status

-- What an answer leads to, with what the later requests would.
abbrev pub after_reply : ConfirmReply → Option Confirmation → Option Confirmation
after_reply (confirmed c) rest = some c
after_reply (status_error status) rest = if is_retried status then rest else none
after_reply network_error rest = rest

-- The requests that are left, from an attempt on.
unfoldable pub confirm_loop : (ℕ → ConfirmReply) → ℕ → ℕ → Option Confirmation
unfolding is_retried
confirm_loop replies zero attempt = none
confirm_loop replies (suc left) attempt =
    let rest = confirm_loop replies left (suc attempt) in after_reply (replies attempt) rest

unfoldable pub confirm_with_retry : (ℕ → ConfirmReply) → Option Confirmation
unfolding confirm_loop
confirm_with_retry replies = confirm_loop replies confirm_max_attempts 1

unfoldable pub supports_market_orders : Option String → Bool
supports_market_orders none = true
supports_market_orders (some preference) = not (str_eq preference "NOT_AVAILABLE")

abbrev pub is_tradeable : Option String → Bool
is_tradeable none = false
is_tradeable (some status) = str_eq status "TRADEABLE"

abbrev pub reply_reference : PostReply → Option String
reply_reference (posted reference) = nonempty reference
reply_reference market_refused = none
reply_reference failed = none

-- The reference that an order comes back with, and the epics that are known to refuse market orders.
unfoldable pub post_open_order : OpenAnswers → OpenOrder → List String → Option String × List String
unfolding nonempty
post_open_order answers order unsupported = elim answers.first_post [
  | posted reference ↦ (nonempty reference, unsupported)
  | failed ↦ (none, unsupported)
  | market_refused ↦ elim order.limit [
    | some level ↦ (none, unsupported)
    | none ↦ (reply_reference answers.second_post, order.epic ∷ unsupported)
  ]
]

-- `max(int(min_deal_size), 1) * max(int(quantity_multiplier), 1)`
unfoldable pub order_quantity : ℕ → ℕ → ℕ
order_quantity min_deal_size multiplier = max min_deal_size 1 * max multiplier 1

module _ (a : Arith) where
  open a use {add, sub, mul, div, lit, round5}

  -- None is the default.
  unfoldable pub rule_to_price_distance : Rule → Float → Float → Option Float
  rule_to_price_distance rule reference_price scaling_factor = elim rule.value [
    | none ↦ none
    | some value ↦
        if rule.is_percentage
        then some (div (mul value reference_price) (lit 100 1))
        else some (div value scaling_factor)
  ]

  -- The least distance of a stop, with its margin.
  unfoldable pub padded_min_stop : TradeConfig → MarketData → Signal → Float
  unfolding rule_to_price_distance
  padded_min_stop config market s =
      mul (or_zero (rule_to_price_distance market.min_stop_rule s.bid market.scaling_factor))
        (add (lit 1 1) config.stop_min_distance_margin)

  -- The distance of the stop that the signal asks for.
  unfoldable pub asked_distance : Signal → Float
  asked_distance s =
      if str_eq s.direction "SELL" then sub s.level_security s.bid else sub s.bid s.level_security

  -- The stop and its distance, not nearer than the least one.
  unfoldable pub clamped_stop : Signal → Float → Float × Float
  unfolding asked_distance
  clamped_stop s min_stop =
      let distance = asked_distance s in
      if distance <f min_stop
      then (if str_eq s.direction "SELL" then add s.bid min_stop else sub s.bid min_stop, min_stop)
      else (s.level_security, distance)

  abbrev pub is_too_far : Option Float → Float → Bool
  is_too_far none distance = false
  is_too_far (some max_stop) distance = max_stop <f distance

  -- A level that was the stop moves with it.
  unfoldable pub moved_with_stop : Signal → Float → Float → Float
  moved_with_stop s stop level =
      let delta = sub stop s.level_security in
      if not (same_float delta zero_float) && same_float level s.level_security
      then add level delta
      else level

  unfoldable pub open_order :
      TradeConfig → MarketData → Signal → List String → ℕ → Float → Float → OpenOrder
  unfolding supports_market_orders limit_level
  open_order config market s unsupported quantity broker_stop reference_price =
      let use_market_order =
        supports_market_orders market.market_order_preference
        && not (contains unsupported s.epic) in
      record {
        epic = s.epic;
        expiry = market.expiry;
        direction = s.direction;
        size = quantity;
        currency = market.currency;
        stop_level = round5 broker_stop;
        limit =
            if use_market_order
            then none
            else some (round5 (limit_level a config s.direction reference_price));
      }

  unfoldable pub place :
      TradeConfig → MarketData → Signal → List String → ℕ → Float → Option Placement
  unfolding padded_min_stop clamped_stop rule_to_price_distance moved_with_stop open_order
      order_quantity broker_stop_level euro_per_point
  place config market s unsupported multiplier noise_buffer =
      let min_stop = padded_min_stop config market s in
      let (stop, distance) = clamped_stop s min_stop in
      let quantity = order_quantity market.min_deal_size multiplier in
      let epp = euro_per_point a market.point_value (lit quantity 1) in
      let broker_stop =
        broker_stop_level a s.direction stop (larger s.spread zero_float) noise_buffer in
      let reference_price = if str_eq s.direction "SELL" then s.bid else s.offer in
      if not (is_tradeable market.market_status)
        || is_too_far (rule_to_price_distance market.max_stop_rule s.bid market.scaling_factor)
            distance
      then none
      else some (record {
        order = open_order config market s unsupported quantity broker_stop reference_price;
        reference_price = reference_price;
        stop_distance = distance;
        min_stop_distance = min_stop;
        follower_level = moved_with_stop s stop s.level_follower;
        loose_level = moved_with_stop s stop s.level_loose;
        broker_stop = broker_stop;
        quantity = quantity;
        epp = epp;
        euro_risk =
            if same_float epp zero_float then mul (lit quantity 1) distance else mul distance epp;
      })
