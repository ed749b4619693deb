-- ===== src/Execution/Trading.antt =====
-- The trading service (src/execution/trading.py): its configuration, the columns of a position and
-- the gates of an opening. The broker's answers are given to the operations.
pub mod Stops
pub mod Closing
pub mod Manage
pub mod Once
pub mod Final
pub mod Matching
pub mod Greedy
pub mod Reconcile
pub mod Count
pub mod Sync
pub mod Placing
pub mod Ratchet
pub mod Ticks
mod Tests
use igthon.Prelude.{
  ℕ, String, Bool, true, false, not, ◌&&◌, Option, none, some, List, [], ◌∷◌, str_eq, ◌==◌,
  if◌then◌else◌,
}
use igthon.Num.{Float, Arith, ◌≤f◌}
use igthon.Execution.Gates.{StopEntry, Opening, OpenVerdict, evaluate_open_gates}
use igthon.Exit.Trailing.{TrailingConfig}
use igthon.Exit.Close.{ExitPosition}

pub record TradeConfig : Type 0 where
  pub close_margin_minutes : ℕ
  pub open_close_buffer_minutes : ℕ
  pub allow_same_day_reopen : Bool
  pub stop_min_distance_margin : Float
  pub market_order_limit_slippage : Float
  pub atr_period : ℕ
  pub trailing : TrailingConfig
  pub broker_stop_noise_atr : Float

-- The columns of `Position` that the service works with. A date counts days, a time milliseconds; the
-- time of the close and what is only shown (name, strategy, size, name of the profile) are left out.
pub record TradedPosition : Type 0 where
  pub id : ℕ
  pub epic : String
  pub direction : String
  pub deal_reference : Option String
  pub deal_id : Option String
  pub is_open : Bool
  pub date : Option ℕ
  pub time_open : Option ℕ
  pub level_open : Option Float
  pub level_zero : Option Float
  pub level_margin : Option Float
  pub level_follower : Option Float
  pub level_win : Option Float
  pub level_loose : Option Float
  pub level_stop : Option Float
  pub level_security : Option Float
  pub level_close : Option Float
  pub min_stop_distance : Option Float
  pub pip_spread : Option Float
  pub reason_open : Option String
  pub euro_per_point : Option Float
  pub euro_stop : Option Float
  pub euro : Option Float
  pub euro_max : Option Float
  pub euro_min : Option Float
  pub win : Option ℕ
  pub quantity : Option ℕ
  pub reason_close : Option String
  pub stop_update : Option ℕ
  pub stop_history : List StopEntry
  pub manual_stop_zone : Option String

-- The position as its close profile reads it.
unfoldable pub exit_view : TradedPosition → ExitPosition
exit_view p = record {
  id = p.id;
  direction = p.direction;
  level_open = p.level_open;
  level_zero = p.level_zero;
  level_margin = p.level_margin;
  level_follower = p.level_follower;
  euro_per_point = p.euro_per_point;
  min_stop_distance = p.min_stop_distance;
  date = p.date;
  time_open = p.time_open;
}

-- The open positions of an epic.
unfoldable pub open_of : String → List TradedPosition → List TradedPosition
open_of epic [] = []
open_of epic (p ∷ ps) =
    let rest = open_of epic ps in if str_eq p.epic epic && p.is_open then p ∷ rest else rest

-- `scalar_one_or_none` raises when there is more than one row.
unfoldable pub is_epic_open : String → List TradedPosition → Option Bool
unfolding open_of
is_epic_open epic table = elim (open_of epic table) [
  | [] ↦ some false
  | p ∷ [] ↦ some true
  | p ∷ q ∷ ps ↦ none
]

abbrev pub is_date : Option ℕ → ℕ → Bool
is_date none today = false
is_date (some day) today = day == today

unfoldable pub is_epic_traded_today : String → ℕ → List TradedPosition → Bool
is_epic_traded_today epic today [] = false
is_epic_traded_today epic today (p ∷ ps) =
    let rest = is_epic_traded_today epic today ps in
    if str_eq p.epic epic && is_date p.date today then true else rest

module _ (a : Arith) where
  open a use {add, lit}

  -- The argument is the minutes to the close of the epic's market, where that is known.
  unfoldable pub is_epic_close_hour : TradeConfig → Option Float → Bool
  is_epic_close_hour config none = false
  is_epic_close_hour config (some minutes) = minutes ≤f lit config.close_margin_minutes 1

  unfoldable pub is_epic_close_soon : TradeConfig → Option Float → Bool
  is_epic_close_soon config none = false
  is_epic_close_soon config (some minutes) =
      minutes ≤f add (lit config.close_margin_minutes 1) (lit config.open_close_buffer_minutes 1)

  -- The database is the table of the positions; `none` is the exception of `is_epic_open`.
  unfoldable pub can_open_intent :
      TradeConfig
      → List TradedPosition
      → ℕ
      → Option Float
      → String
      → String
      → Bool
      → Bool
      → Option OpenVerdict
  unfolding is_epic_open is_epic_traded_today is_epic_close_soon evaluate_open_gates
  can_open_intent config table today minutes epic direction allow_short allow_reopen =
      let traded_today =
        not allow_reopen
        && not config.allow_same_day_reopen
        && is_epic_traded_today epic today table in
      elim (is_epic_open epic table) [
        | none ↦ none
        | some already_open ↦ some (
            evaluate_open_gates (record {
              direction = direction;
              in_trading_hours = true;
              epic_already_open = already_open;
              closes_soon = is_epic_close_soon config minutes;
              allow_short = allow_short;
              epic_traded_today = traded_today;
            }))
      ]
