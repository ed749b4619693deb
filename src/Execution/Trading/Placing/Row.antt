-- ===== src/Execution/Trading/Placing/Row.antt =====
-- The row of a new position, and the opening as a whole (src/execution/trading.py).
use igthon.Prelude.{
  ℕ, String, Bool, true, false, Option, none, some, List, [], ◌∷◌, str_eq, if◌then◌else◌,
}
use igthon.Num.{Float, Arith, zero_float}
use igthon.Indicators.{same_float}
use igthon.Feed.Candle.{Candle, spread}
use igthon.Feed.Buffer.{EpicBuffer, last}
use igthon.Execution.Gates.{point}
use igthon.Exit.Close.{CloseZoneProfit, OpenPlan, initial_plan}
use igthon.Execution.Trading.{TradeConfig, TradedPosition}
use igthon.Execution.Trading.Stops.{nonempty, broker_stop_buffer}
use igthon.Execution.Trading.Sync.{reanchor_exit_references}
use igthon.Execution.Trading.Placing.{
  Signal, OpenAnswers, Placement, Confirmation, place, post_open_order, confirm_with_retry,
}

-- The position that is returned is the row that is left in the table; an error of the first request
-- is raised.
pub record Opened : Type 0 where
  pub position : Option TradedPosition
  pub unsupported : List String
  pub raised : Bool

unfoldable pub is_accepted : Confirmation → Bool
is_accepted c = elim c.deal_status [ none ↦ false | some status ↦ str_eq status "ACCEPTED" ]

module _ (a : Arith) where
  open a use {round3, round5, round6}

  -- The row that is written before the confirmation; the number is the next free one.
  unfoldable pub draft_row : OpenAnswers → ℕ → Signal → Placement → String → TradedPosition
  draft_row answers id s placed reference = record {
    id = id;
    epic = s.epic;
    direction = s.direction;
    deal_reference = some reference;
    deal_id = none;
    is_open = true;
    date = some answers.today;
    time_open = some answers.time;
    level_open = some (round5 s.bid);
    level_zero = some (round5 s.level_zero);
    level_margin = some (round5 s.level_margin);
    level_follower = some (round5 placed.follower_level);
    level_win = some (round5 s.level_win);
    level_loose = some (round5 placed.loose_level);
    level_stop = some (round5 placed.broker_stop);
    level_security = some (round5 placed.broker_stop);
    level_close = none;
    min_stop_distance = some (round5 placed.min_stop_distance);
    pip_spread = some (round5 s.spread);
    reason_open = some "auto";
    euro_per_point = if same_float placed.epp zero_float then none else some (round6 placed.epp);
    euro_stop = some (round3 placed.euro_risk);
    euro = none;
    euro_max = none;
    euro_min = none;
    win = none;
    quantity = some placed.quantity;
    reason_close = none;
    stop_update = none;
    stop_history =
        if same_float placed.follower_level zero_float
        then []
        else point (some (round5 placed.follower_level)) (some (round5 placed.broker_stop)) ∷ [];
    manual_stop_zone = none;
  }

  -- The row with the deal and the level of the confirmation.
  unfoldable pub confirmed_row : Signal → Placement → Confirmation → TradedPosition → TradedPosition
  unfolding nonempty reanchor_exit_references
  confirmed_row s placed c p = elim c.level [
    | none ↦ record p { deal_id = nonempty c.deal_id; level_open = some (round5 s.bid) }
    | some level ↦
        reanchor_exit_references a
          (record p { deal_id = nonempty c.deal_id; level_open = some (round5 level) })
          placed.reference_price level
  ]

  -- What is left of the row after the confirmation, if one came.
  unfoldable pub settle_open :
      Signal → Placement → Option Confirmation → TradedPosition → Option TradedPosition
  unfolding is_accepted confirmed_row
  settle_open s placed none p = some p
  settle_open s placed (some c) p =
      if is_accepted c then some (confirmed_row s placed c p) else none

  -- The reference of the order, if one is sent and taken, and the epics that are known to refuse
  -- market orders.
  unfoldable pub sent : OpenAnswers → Option Placement → List String → Option String × List String
  unfolding post_open_order
  sent answers none unsupported = (none, unsupported)
  sent answers (some placed) unsupported = post_open_order answers placed.order unsupported

  abbrev pub open_with :
      OpenAnswers → ℕ → Signal → Option Placement → Option String → Option TradedPosition
  open_with answers id s none reference = none
  open_with answers id s (some placed) none = none
  open_with answers id s (some placed) (some reference) =
      settle_open s placed (confirm_with_retry answers.confirm)
        (draft_row answers id s placed reference)

  unfoldable pub open_position :
      TradeConfig → OpenAnswers → ℕ → List String → Signal → ℕ → Float → Opened
  unfolding place sent settle_open draft_row confirm_with_retry
  open_position config answers id unsupported s multiplier noise_buffer = elim answers.market [
    | none ↦ record { position = none; unsupported = unsupported; raised = true }
    | some market ↦
        let placed = place a config market s unsupported multiplier noise_buffer in
        let reply = sent answers placed unsupported in
        record {
          position = open_with answers id s placed reply.0;
          unsupported = reply.1;
          raised = false;
        }
  ]

  -- The signal that an intent and the plan of the profile make: its three stops are one.
  unfoldable pub signal_of : String → String → Candle → OpenPlan → Signal
  unfolding spread
  signal_of epic direction c plan = record {
    epic = epic;
    direction = direction;
    bid = c.bid_close;
    offer = c.offer_close;
    spread = spread a c;
    level_follower = plan.stop_level;
    level_win = plan.target_level;
    level_zero = plan.level_zero;
    level_loose = plan.stop_level;
    level_security = plan.stop_level;
    level_margin = plan.level_margin;
  }

  -- The argument before the buffer is the extreme of the session, where that is known.
  unfoldable pub open_from_intent :
      TradeConfig
      → CloseZoneProfit
      → OpenAnswers
      → ℕ
      → List String
      → String
      → String
      → Option Float
      → EpicBuffer
      → ℕ
      → Opened
  unfolding last initial_plan signal_of broker_stop_buffer open_position
  open_from_intent config profile answers id unsupported epic direction extreme buf multiplier =
      elim (last buf) [
        | none ↦ record { position = none; unsupported = unsupported; raised = false }
        | some c ↦
            open_position config answers id unsupported
              (signal_of epic direction c
                (initial_plan a profile c.bid_close direction buf extreme))
              multiplier (broker_stop_buffer a config (some buf))
      ]
