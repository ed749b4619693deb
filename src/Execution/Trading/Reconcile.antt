-- ===== src/Execution/Trading/Reconcile.antt =====
-- The realized profits of a day and the forced closes (src/execution/trading.py).
use igthon.Prelude.{
  ℕ, zero, suc, ◌-◌, String, Bool, true, false, ◌&&◌, Option, none, some, List, [], ◌∷◌, contains,
  leb, str_eq, if◌then◌else◌,
}
use igthon.Num.{Float, Arith, zero_float, neg, larger, smaller}
use igthon.Feed.Store.{CandleRecord}
use igthon.Execution.Trading.{TradeConfig, TradedPosition}
use igthon.Execution.Trading.Closing.{CloseAnswers, Closed, close_position}
use igthon.Execution.Trading.Matching.{
  ClosedRow, Transaction, Pair, apply_transaction, matched_pairs,
}

abbrev pub nth {ℓ} : {A : Type ℓ} → ℕ → List A → Option A
nth n [] = none
nth zero (x ∷ xs) = some x
nth (suc n) (x ∷ xs) = nth n xs

abbrev pub put_at : ℕ → ClosedRow → List ClosedRow → List ClosedRow
put_at n row [] = []
put_at zero row (r ∷ rs) = row ∷ rs
put_at (suc n) row (r ∷ rs) = r ∷ put_at n row rs

abbrev pub has_profit : Transaction → Bool
has_profit t = elim t.profit_and_loss [ none ↦ false | some pnl ↦ true ]

unfoldable pub with_profit : List Transaction → List Transaction
with_profit [] = []
with_profit (t ∷ ts) = let rest = with_profit ts in if has_profit t then t ∷ rest else rest

-- The candles of an epic from a moment on, on the side that triggers the stop.
unfoldable pub session_extreme : ℕ → String → String → List CandleRecord → Option Float
session_extreme since epic direction [] = none
session_extreme since epic direction (r ∷ rs) =
    let is_sell = str_eq direction "SELL" in
    let value = if is_sell then r.candle.offer_high else r.candle.bid_low in
    let rest = session_extreme since epic direction rs in
    if str_eq r.epic epic && leb since r.candle.timestamp
    then (elim rest [
      | none ↦ some value
      | some x ↦ some (if is_sell then larger value x else smaller value x)
    ])
    else rest

-- What a forced close leaves: the rows, how many were closed, and the epics that are known to refuse
-- market orders.
pub record Forced : Type 0 where
  pub rows : List TradedPosition
  pub closed : ℕ
  pub unsupported : List String

module _ (a : Arith) where
  open a use {sub, div, lit}

  unfoldable pub apply_pair : List Transaction → Pair → List ClosedRow × ℕ → List ClosedRow × ℕ
  unfolding apply_transaction
  apply_pair transactions p (rows, updated) = elim (nth p.index rows) [
    | none ↦ (rows, updated)
    | some row ↦ elim (nth p.txn_index transactions) [
      | none ↦ (rows, updated)
      | some t ↦
          let (written, done) = apply_transaction a row t in
          (put_at p.index written rows, if done then suc updated else updated)
    ]
  ]

  -- The pair that was taken last comes first.
  unfoldable pub apply_pairs : List Transaction → List Pair → List ClosedRow → List ClosedRow × ℕ
  unfolding apply_pair
  apply_pairs transactions [] rows = (rows, 0)
  apply_pairs transactions (p ∷ ps) rows =
      apply_pair transactions p (apply_pairs transactions ps rows)

  -- The closed rows of a day, and the broker's transactions if it answers.
  unfoldable pub reconcile_realized_pnl :
      (Option String → Option String → Bool)
      → List ClosedRow
      → Option (List Transaction)
      → List ClosedRow × ℕ
  unfolding with_profit matched_pairs apply_pairs
  reconcile_realized_pnl names_match rows none = (rows, 0)
  reconcile_realized_pnl names_match rows (some transactions) =
      let known = with_profit transactions in
      apply_pairs known (matched_pairs a names_match rows known) rows

  -- From now to the close of today, in minutes; times of day in milliseconds.
  unfoldable pub epic_minutes_to_close : Option ℕ → ℕ → Option Float
  epic_minutes_to_close none now = none
  epic_minutes_to_close (some close) now =
      let seconds =
        if leb now close then lit (close - now) 1000 else neg (lit (now - close) 1000) in
      some (div seconds (lit 60 1))

  unfoldable pub close_manually :
      TradeConfig → CloseAnswers → List String → TradedPosition → Float → Closed
  unfolding close_position
  close_manually config answers unsupported p close_level =
      close_position a config answers unsupported p close_level "manual"

  -- A missing bid is zero.
  abbrev pub bid_or_zero : Option Float → Float
  bid_or_zero none = zero_float
  bid_or_zero (some bid) = bid

  module _ (config : TradeConfig) (answers : ℕ → CloseAnswers)
      (bid_of_market : String → Option (Option Float)) (reason : String) where
    -- One row, with the answers to its close; the bid is none where the request of the market fails.
    unfoldable pub attempt_close : List String → Bool → TradedPosition → Closed
    unfolding close_position
    attempt_close unsupported false p = record {
      position = p;
      closed = false;
      unsupported = unsupported;
    }
    attempt_close unsupported true p = elim (bid_of_market p.epic) [
      | none ↦ record { position = p; closed = false; unsupported = unsupported }
      | some bid ↦ close_position a config (answers p.id) unsupported p (bid_or_zero bid) reason
    ]

    -- The rows that are wanted are closed one after the other.
    unfoldable pub force_close :
        (TradedPosition → Bool) → List String → List TradedPosition → Forced
    unfolding attempt_close
    force_close wanted unsupported [] = record { rows = []; closed = 0; unsupported = unsupported }
    force_close wanted unsupported (p ∷ ps) =
        let attempt = attempt_close unsupported (wanted p) p in
        let rest = force_close wanted attempt.unsupported ps in
        record rest {
          rows = attempt.position ∷ rest.rows;
          closed = if attempt.closed then suc rest.closed else rest.closed;
        }

    unfoldable pub close_epics : List String → List String → List TradedPosition → Forced
    unfolding force_close
    close_epics epics unsupported table =
        force_close (λ p. p.is_open && contains epics p.epic) unsupported table

  unfoldable pub close_all_positions :
      TradeConfig
      → (ℕ → CloseAnswers)
      → (String → Option (Option Float))
      → List String
      → List TradedPosition
      → Forced
  unfolding force_close
  close_all_positions config answers bid_of_market unsupported table =
      force_close config answers bid_of_market "end_of_day" (λ p. p.is_open) unsupported table
