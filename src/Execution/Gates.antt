-- ===== src/Execution/Gates.antt =====
-- The gates before an opening (src/execution/gates.py). A verdict holds the values that the source
-- writes into its reason.
pub mod Allowed
pub mod Curve
pub mod Break
pub mod Revert
mod Tests
use igthon.Prelude.{
  ℕ, ◌*◌, ◌+◌, String, Bool, true, false, not, ◌&&◌, ◌||◌, Option, none, some, List, [], ◌∷◌,
  contains, str_eq, if◌then◌else◌, ◌==◌,
}
use igthon.Num.{Float, Arith, zero_float, ◌<f◌, ◌≤f◌, neg}

abbrev pub stop_loss_close_reasons : List String
stop_loss_close_reasons = "stop" ∷ "loose" ∷ "closed_externally" ∷ []

abbrev pub recovery_revert_reason_open : String
recovery_revert_reason_open = "recovery_revert"

-- `value == s`, where the value may be None.
abbrev pub is_text : Option String → String → Bool
is_text none s = false
is_text (some t) s = str_eq t s

unfoldable pub reverse_direction : Option String → String
reverse_direction direction = if is_text direction "SELL" then "BUY" else "SELL"

-- An entry of `Position.stop_history`, which is a dict with these keys or something else.
pub data StopEntry : Type 0 where
  point : Option Float → Option Float → StopEntry
  other : StopEntry

-- The columns of a position that the gates read.
pub record Position : Type 0 where
  pub stop_history : List StopEntry
  pub stop_update : Option ℕ
  pub level_follower : Option Float
  pub date : Option ℕ
  pub time_open : Option ℕ

-- A number that Python takes for true.
abbrev pub truthy : Option Float → Bool
truthy none = false
truthy (some x) = (x <f zero_float) || (zero_float <f x)

-- `history[0].get("level") or history[0].get("broker")`, if it is true.
unfoldable pub seeded_level : List StopEntry → Option Float
seeded_level [] = none
seeded_level (other ∷ h) = none
seeded_level (point level broker ∷ h) =
    if truthy level then level else if truthy broker then broker else none

unfoldable pub never_ratcheted : Option ℕ → Bool
never_ratcheted none = true
never_ratcheted (some n) = n == 0

unfoldable pub original_stop_level : Position → Float
unfolding seeded_level never_ratcheted
original_stop_level p = elim (seeded_level p.stop_history) [
  | some level ↦ level
  | none ↦
      if never_ratcheted p.stop_update
      then elim p.level_follower [ none ↦ zero_float | some level ↦ level ]
      else zero_float
]

-- Milliseconds; a date counts days.
unfoldable pub position_opened_at : Position → Option ℕ
position_opened_at p = elim p.date [
  | none ↦ none
  | some day ↦ elim p.time_open [ none ↦ none | some opened ↦ some (day * 86400000 + opened) ]
]

pub data RevertVerdict : Type 0 where
  revert second_hop : RevertVerdict
  not_a_stop : Option String → RevertVerdict
  not_a_loss : Float → RevertVerdict
  unknown_stop ratcheted : RevertVerdict

abbrev pub closed_on_stop : Option String → Bool
closed_on_stop none = false
closed_on_stop (some reason) = contains stop_loss_close_reasons reason

-- The arguments of `should_revert_after_stop_loss`.
pub record Closing : Type 0 where
  pub direction : Option String
  pub reason_close : Option String
  pub reason_open : Option String
  pub euro : Float
  pub level_close : Float
  pub original_stop : Float
  pub stop_ratcheted : Bool

module _ (a : Arith) where
  open a use {sub, mul, lit}

  unfoldable pub sign_of : Option String → Float
  sign_of direction = if is_text direction "SELL" then neg (lit 1 1) else lit 1 1

  -- The close level of a ratcheted stop is short of the original one.
  unfoldable pub is_short_of : Closing → Bool
  unfolding sign_of
  is_short_of c =
      (c.level_close ≤f zero_float)
      || (zero_float <f mul (sign_of c.direction) (sub c.level_close c.original_stop))

  unfoldable pub should_revert_after_stop_loss : Closing → RevertVerdict
  unfolding is_short_of
  should_revert_after_stop_loss c =
      if is_text c.reason_open recovery_revert_reason_open
      then second_hop
      else if not (closed_on_stop c.reason_close)
      then not_a_stop c.reason_close
      else if zero_float ≤f c.euro
      then not_a_loss c.euro
      else if c.original_stop ≤f zero_float
      then unknown_stop
      else if c.stop_ratcheted && is_short_of c
      then ratcheted
      else revert

pub data OpenVerdict : Type 0 where
  allowed outside_hours : OpenVerdict
  unknown_direction : String → OpenVerdict
  short_not_allowed already_open traded_today market_closes_soon : OpenVerdict

-- The arguments of `evaluate_open_gates`; the epic stands only in the reasons.
pub record Opening : Type 0 where
  pub direction : String
  pub in_trading_hours : Bool
  pub epic_already_open : Bool
  pub closes_soon : Bool
  pub allow_short : Bool
  pub epic_traded_today : Bool

unfoldable pub evaluate_open_gates : Opening → OpenVerdict
evaluate_open_gates o =
    if not o.in_trading_hours
    then outside_hours
    else if not (contains ("BUY" ∷ "SELL" ∷ []) o.direction)
    then unknown_direction o.direction
    else if str_eq o.direction "SELL" && not o.allow_short
    then short_not_allowed
    else if o.epic_already_open
    then already_open
    else if o.epic_traded_today
    then traded_today
    else if o.closes_soon
    then market_closes_soon
    else allowed
