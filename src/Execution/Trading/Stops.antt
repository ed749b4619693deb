-- ===== src/Execution/Trading/Stops.antt =====
-- The stop of a position: the software follower and the broker's order (src/execution/trading.py).
use igthon.Prelude.{
  ℕ, ◌+◌, String, Bool, true, false, not, ◌&&◌, Option, none, some, List, [], ◌∷◌, ◌++◌, str_eq,
  if◌then◌else◌,
}
use igthon.Num.{Float, Arith, zero_float, ◌<f◌, ◌≤f◌, larger, smaller}
use igthon.Indicators.{atr, same_float}
use igthon.Feed.Buffer.{EpicBuffer}
use igthon.Execution.Gates.{point}
use igthon.Exit.Close.{or_zero}
use igthon.Execution.Trading.{TradeConfig, TradedPosition}

-- The entries of the broker's list of positions: the epic and the deal, where it is given.
abbrev pub Listing : Type 0
Listing = List (String × Option String)

-- The broker's answers to an update of a stop: its list of positions, if it answers, and whether it
-- accepts the level.
pub record StopAnswers : Type 0 where
  pub listing : Option Listing
  pub accepts : Bool

-- A text that Python takes for true.
unfoldable pub nonempty : Option String → Option String
nonempty none = none
nonempty (some s) = if str_eq s "" then none else some s

-- The deal of the first entry for an epic, when there is one.
unfoldable pub deal_of : String → Listing → Option String
unfolding nonempty
deal_of epic [] = none
deal_of epic ((e, deal) ∷ entries) = if str_eq e epic then nonempty deal else deal_of epic entries

unfoldable pub listed_deal : String → Option Listing → Option String
unfolding deal_of
listed_deal epic none = none
listed_deal epic (some entries) = deal_of epic entries

-- The position keeps a deal that it learns.
unfoldable pub ensure_deal_id : Option Listing → TradedPosition → TradedPosition × Option String
unfolding nonempty listed_deal
ensure_deal_id listing p = elim (nonempty p.deal_id) [
  | some deal ↦ (p, some deal)
  | none ↦ elim (listed_deal p.epic listing) [
    | none ↦ (p, none)
    | some deal ↦ (record p { deal_id = some deal }, some deal)
  ]
]

unfoldable pub push_stop_to_ig : StopAnswers → TradedPosition → TradedPosition × Bool
unfolding ensure_deal_id
push_stop_to_ig answers p =
    let (p', deal) = ensure_deal_id answers.listing p in
    elim deal [ none ↦ (p', false) | some d ↦ (p', answers.accepts) ]

unfoldable pub is_favourable_stop_move : String → Float → Float → Bool
is_favourable_stop_move direction new_stop current =
    if str_eq direction "SELL" then new_stop <f current else current <f new_stop

unfoldable pub times : Option ℕ → ℕ
times none = 0
times (some n) = n

module _ (a : Arith) where
  open a use {add, sub, mul, round5}

  unfoldable pub append_stop_history : Float → Option Float → TradedPosition → TradedPosition
  append_stop_history level broker_level p = record p {
    stop_history =
        p.stop_history
        ++ point (some (round5 level))
            (elim broker_level [ none ↦ none | some b ↦ some (round5 b) ])
          ∷ [];
  }

  unfoldable pub broker_stop_level : String → Float → Float → Float → Float
  broker_stop_level direction software_stop spread buffer =
      let cushion = add spread (larger buffer zero_float) in
      if str_eq direction "SELL" then add software_stop cushion else sub software_stop cushion

  unfoldable pub broker_stop_buffer : TradeConfig → Option EpicBuffer → Float
  unfolding atr
  broker_stop_buffer config none = zero_float
  broker_stop_buffer config (some buf) =
      if config.broker_stop_noise_atr ≤f zero_float
      then zero_float
      else larger (mul config.broker_stop_noise_atr (atr a buf.candles config.atr_period))
          zero_float

  unfoldable pub clamp_broker_stop_to_min_distance : String → Float → Float → TradedPosition → Float
  clamp_broker_stop_to_min_distance direction broker_level current_price p =
      let min_dist = or_zero p.min_stop_distance in
      if min_dist ≤f zero_float
      then broker_level
      else if str_eq direction "SELL"
      then larger broker_level (add current_price min_dist)
      else smaller broker_level (sub current_price min_dist)

  unfoldable pub desired_broker_stop : TradedPosition → Float → Float → Float → Float → Float
  unfolding broker_stop_level clamp_broker_stop_to_min_distance
  desired_broker_stop p new_stop current_price spread buffer =
      clamp_broker_stop_to_min_distance p.direction
        (broker_stop_level p.direction new_stop spread buffer) current_price p

  unfoldable pub loosens_broker : TradedPosition → Float → Bool
  unfolding is_favourable_stop_move
  loosens_broker p desired =
      (zero_float <f or_zero p.level_stop)
      && not (is_favourable_stop_move p.direction desired (or_zero p.level_stop))

  -- The level to push: never a looser one than that which rests at the broker.
  unfoldable pub broker_target : TradedPosition → Float → Float
  unfolding loosens_broker
  broker_target p desired = if loosens_broker p desired then or_zero p.level_stop else desired

  unfoldable pub with_follower : TradedPosition → Float → TradedPosition
  unfolding times
  with_follower p new_stop = record p {
    level_follower = some (round5 new_stop);
    stop_update = some (times p.stop_update + 1);
  }

  -- `float(position.level_stop or target)`
  unfoldable pub last_accepted : Option Float → Float → Float
  last_accepted none target = target
  last_accepted (some x) target = if same_float x zero_float then target else x

  -- The push, and the levels that the broker accepts.
  unfoldable pub pushed_stop : StopAnswers → Float → Float → TradedPosition → TradedPosition × Bool
  unfolding push_stop_to_ig append_stop_history last_accepted
  pushed_stop answers target new_stop p =
      let (q, pushed) = push_stop_to_ig answers p in
      if pushed
      then (
        append_stop_history new_stop (some target)
            (record q { level_stop = some (round5 target); level_security = some (round5 target) }),
        true,
      )
      else (append_stop_history new_stop (some (last_accepted q.level_stop target)) q, false)

  -- Is the broker's level the one that it has?
  unfoldable pub is_pinned : TradedPosition → Float → Bool
  is_pinned p target =
      (zero_float <f or_zero p.level_stop)
      && same_float (round5 (or_zero p.level_stop)) (round5 target)

  unfoldable pub ratchet_to : StopAnswers → Float → Float → TradedPosition → TradedPosition × Bool
  unfolding is_pinned with_follower append_stop_history pushed_stop
  ratchet_to answers target new_stop p =
      if is_pinned p target
      then (
        append_stop_history new_stop (some (or_zero p.level_stop)) (with_follower p new_stop),
        true,
      )
      else pushed_stop answers target new_stop (with_follower p new_stop)

  unfoldable pub ratchet_stop :
      StopAnswers → TradedPosition → Float → Float → Float → Float → TradedPosition × Bool
  unfolding desired_broker_stop broker_target ratchet_to
  ratchet_stop answers p new_stop current_price spread buffer =
      ratchet_to answers
        (broker_target p (desired_broker_stop p new_stop current_price spread buffer)) new_stop p
