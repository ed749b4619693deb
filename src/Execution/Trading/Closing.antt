-- ===== src/Execution/Trading/Closing.antt =====
-- The close of a position at the broker (src/execution/trading.py).
use igthon.Prelude.{
  ℕ, zero, suc, String, Bool, true, false, not, ◌||◌, Option, none, some, List, [], ◌∷◌, str_eq,
  contains, if◌then◌else◌,
}
use igthon.Num.{Float, Arith, zero_float, ◌<f◌, neg, abs, larger, smaller}
use igthon.Indicators.{same_float}
use igthon.Exit.Close.{or_zero}
use igthon.Execution.Trading.{TradeConfig, TradedPosition}
use igthon.Execution.Trading.Stops.{Listing, ensure_deal_id}

-- The answer to a DELETE: the deal's reference, an error 404, the refusal of a market order, or
-- another error.
pub data DeleteReply : Type 0 where
  deleted : Option String → DeleteReply
  missing market_unsupported failed : DeleteReply

-- What a confirmation carries.
pub record Confirm : Type 0 where
  pub deal_status : Option String
  pub level : Option Float
  pub profit : Option Float
  pub profit_currency : Option String

-- The broker's answers to a close, in the order of the calls that may be made: the list of
-- positions, the order, the order as a limit, the confirmation and the list that verifies a 404.
pub record CloseAnswers : Type 0 where
  pub listing : Option Listing
  pub first_delete : DeleteReply
  pub second_delete : DeleteReply
  pub confirm : Option Confirm
  pub verify : Option Listing

pub record CloseOrder : Type 0 where
  pub deal_id : String
  pub direction : String
  pub size : ℕ
  pub limit : Option Float

-- The result of `_fetch_close_result`.
pub record CloseResult : Type 0 where
  pub fill_level : Option Float
  pub profit : Option Float
  pub rejected : Bool

-- The service's set of epics that refuse market orders.
pub record Closed : Type 0 where
  pub position : TradedPosition
  pub closed : Bool
  pub unsupported : List String

-- `position.quantity or 1`
abbrev pub size_of : Option ℕ → ℕ
size_of none = 1
size_of (some zero) = 1
size_of (some (suc n)) = suc n

unfoldable pub close_direction : String → String
close_direction direction = if str_eq direction "SELL" then "BUY" else "SELL"

unfoldable pub is_listed : String → Listing → Bool
is_listed epic [] = false
is_listed epic ((e, deal) ∷ entries) = str_eq e epic || is_listed epic entries

-- Is the status given, and not that of an accepted deal?
unfoldable pub is_rejected : Option String → Bool
is_rejected none = false
is_rejected (some status) = not (str_eq status "ACCEPTED")

unfoldable pub is_euro : Option String → Bool
is_euro none = true
is_euro (some ccy) = contains ("" ∷ "EUR" ∷ "E" ∷ "€" ∷ []) ccy

-- A missing reference, or one that is empty, is not asked for.
unfoldable pub fetch_close_result : Option String → Option Confirm → CloseResult
unfolding is_rejected is_euro
fetch_close_result none confirm = record { fill_level = none; profit = none; rejected = false }
fetch_close_result (some reference) none = record {
  fill_level = none;
  profit = none;
  rejected = false;
}
fetch_close_result (some reference) (some c) =
    if str_eq reference ""
    then record { fill_level = none; profit = none; rejected = false }
    else if is_rejected c.deal_status
    then record { fill_level = none; profit = none; rejected = true }
    else record {
      fill_level = c.level;
      profit = if is_euro c.profit_currency then c.profit else none;
      rejected = false;
    }

module _ (a : Arith) where
  open a use {add, sub, mul, div, lit, round5, round3}

  unfoldable pub limit_level : TradeConfig → String → Float → Float
  limit_level config direction reference_price =
      let slippage = larger config.market_order_limit_slippage zero_float in
      if str_eq direction "BUY"
      then mul reference_price (add (lit 1 1) slippage)
      else mul reference_price (sub (lit 1 1) slippage)

  unfoldable pub to_marketable_limit : TradeConfig → CloseOrder → Float → CloseOrder
  unfolding limit_level
  to_marketable_limit config order reference_price = record order {
    limit = some (round5 (limit_level config order.direction reference_price));
  }

  -- The euros of a move, from the value of a point or from the planned risk.
  unfoldable pub euro_of_move : TradedPosition → Float → Float
  euro_of_move p move =
      if same_float (or_zero p.euro_per_point) zero_float
      then (let stop_distance = abs (sub (or_zero p.level_open) (or_zero p.level_loose)) in
          if zero_float <f stop_distance
          then div (mul move (or_zero p.euro_stop)) stop_distance
          else zero_float)
      else mul move (or_zero p.euro_per_point)

  unfoldable pub euro_pnl : TradedPosition → Float → Float
  unfolding euro_of_move
  euro_pnl p level =
      let move = sub level (or_zero p.level_open) in
      euro_of_move p (if str_eq p.direction "SELL" then neg move else move)

  -- The row of a position that the broker no longer has.
  unfoldable pub mark_phantom : TradedPosition → Float → TradedPosition
  unfolding euro_pnl
  mark_phantom p close_level = record p {
    is_open = false;
    level_close = some (round5 close_level);
    reason_close = some "not_found_in_ig";
    euro = some (round3 (euro_pnl p close_level));
    win = some (if zero_float <f euro_pnl p close_level then 1 else 0);
  }

  unfoldable pub mark_closed : TradedPosition → Float → Float → String → TradedPosition
  mark_closed p close_level pnl reason = record p {
    is_open = false;
    level_close = some (round5 close_level);
    reason_close = some reason;
    euro = some (round3 pnl);
    euro_max = some (round3 (larger pnl (or_zero p.euro_max)));
    euro_min = some (round3 (smaller pnl (or_zero p.euro_min)));
    win = some (if zero_float <f pnl then 1 else 0);
  }

  unfoldable pub handle_phantom_close :
      Option Listing → TradedPosition → Float → TradedPosition × Bool
  unfolding is_listed mark_phantom
  handle_phantom_close none p close_level = (p, false)
  handle_phantom_close (some entries) p close_level =
      if is_listed p.epic entries then (p, false) else (mark_phantom p close_level, true)

  -- The order as it is sent first, with the answer that counts, and the epics that are known to
  -- refuse market orders.
  unfoldable pub delete_close_order :
      CloseOrder → String → CloseAnswers → List String → DeleteReply × List String
  delete_close_order order epic answers unsupported = elim order.limit [
    | some level ↦ (answers.first_delete, unsupported)
    | none ↦ elim answers.first_delete [
      | market_unsupported ↦ (answers.second_delete, epic ∷ unsupported)
      | deleted reference ↦ (deleted reference, unsupported)
      | missing ↦ (missing, unsupported)
      | failed ↦ (failed, unsupported)
    ]
  ]

  unfoldable pub close_order :
      TradeConfig → List String → TradedPosition → String → Float → CloseOrder
  unfolding close_direction to_marketable_limit
  close_order config unsupported p deal close_level =
      let order : CloseOrder = record {
        deal_id = deal;
        direction = close_direction p.direction;
        size = size_of p.quantity;
        limit = none;
      } in
      if contains unsupported p.epic then to_marketable_limit config order close_level else order

  abbrev pub value_or : Option Float → Float → Float
  value_or none x = x
  value_or (some y) x = y

  -- What is done with the answer to a close that the broker took.
  unfoldable pub settle_close :
      CloseResult → TradedPosition → Float → String → TradedPosition × Bool
  unfolding euro_pnl mark_closed
  settle_close r p observed reason =
      let close_level = value_or r.fill_level observed in
      if r.rejected
      then (p, false)
      else (mark_closed p close_level (value_or r.profit (euro_pnl p close_level)) reason, true)

  unfoldable pub after_delete :
      DeleteReply → CloseAnswers → TradedPosition → Float → String → TradedPosition × Bool
  unfolding settle_close handle_phantom_close fetch_close_result
  after_delete (deleted reference) answers p close_level reason =
      settle_close (fetch_close_result reference answers.confirm) p close_level reason
  after_delete missing answers p close_level reason =
      handle_phantom_close answers.verify p close_level
  after_delete market_unsupported answers p close_level reason = (p, false)
  after_delete failed answers p close_level reason = (p, false)

  unfoldable pub close_position :
      TradeConfig → CloseAnswers → List String → TradedPosition → Float → String → Closed
  unfolding ensure_deal_id mark_phantom close_order delete_close_order after_delete
  close_position config answers unsupported p close_level reason =
      let (q, found) = ensure_deal_id answers.listing p in
      elim found [
        | none ↦ record {
          position = mark_phantom q close_level;
          closed = true;
          unsupported = unsupported;
        }
        | some deal ↦
            let (reply, known) =
              delete_close_order (close_order config unsupported q deal close_level) q.epic answers
                unsupported in
            let (closed_position, done) = after_delete reply answers q close_level reason in
            record { position = closed_position; closed = done; unsupported = known }
      ]
