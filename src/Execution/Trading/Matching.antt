-- ===== src/Execution/Trading/Matching.antt =====
-- The closed positions of a day take the broker's figures (src/execution/trading.py). Times of day
-- count microseconds. Whether the names of a position and of a transaction match is a parameter: it
-- depends on the case and the blanks of texts.
use Prim.Native.Nat.{◌/◌, ◌%◌}
use igthon.Prelude.{
  ℕ, suc, String, Bool, true, false, not, ◌&&◌, ◌||◌, Option, none, some, List, [], ◌∷◌, ◌++◌,
  str_eq, ltb, ◌==◌, if◌then◌else◌,
}
use igthon.Num.{Float, Arith, zero_float, ◌<f◌, neg, abs, larger}
use igthon.Indicators.{same_float}
use igthon.Exit.Close.{or_zero}

abbrev pub reconcile_match_max_seconds : ℕ
reconcile_match_max_seconds = 900

-- The columns of a closed position that are compared and written.
pub record ClosedRow : Type 0 where
  pub epic_name : Option String
  pub direction : String
  pub time_open : Option ℕ
  pub time_close : Option ℕ
  pub level_open : Option Float
  pub level_close : Option Float
  pub euro_per_point : Option Float
  pub euro : Option Float
  pub win : Option ℕ
  pub time_open_broker : Option ℕ
  pub time_close_broker : Option ℕ

-- A transaction as it is parsed; a missing level is zero.
pub record Transaction : Type 0 where
  pub instrument_name : Option String
  pub profit_and_loss : Option Float
  pub open_level : Float
  pub close_level : Float
  pub open_time : Option ℕ
  pub close_time : Option ℕ

pub record Pair : Type 0 where
  pub cost : Float
  pub index : ℕ
  pub txn_index : ℕ

-- Tuples are compared item by item.
unfoldable pub comes_before : Pair → Pair → Bool
comes_before p q =
    (p.cost <f q.cost)
    || (not (q.cost <f p.cost)
        && (ltb p.index q.index || ((p.index == q.index) && ltb p.txn_index q.txn_index)))

unfoldable pub insert_pair : Pair → List Pair → List Pair
unfolding comes_before
insert_pair p [] = p ∷ []
insert_pair p (q ∷ qs) = if comes_before q p then q ∷ insert_pair p qs else p ∷ q ∷ qs

unfoldable pub sort_pairs : List Pair → List Pair
unfolding insert_pair
sort_pairs [] = []
sort_pairs (p ∷ ps) = insert_pair p (sort_pairs ps)

-- Two pairs of the same position or of the same transaction.
unfoldable pub shares : Pair → Pair → Bool
shares p q = (p.index == q.index) || (p.txn_index == q.txn_index)

-- Is the position or the transaction of a pair taken?
unfoldable pub is_taken : List Pair → Pair → Bool
unfolding shares
is_taken [] p = false
is_taken (q ∷ qs) p = shares q p || is_taken qs p

-- The loop that consumes the pairs, with those that it has taken.
unfoldable pub consume : List Pair → List Pair → List Pair
unfolding is_taken
consume chosen [] = chosen
consume chosen (p ∷ ps) =
    let skipped = consume chosen ps in
    let taken = consume (p ∷ chosen) ps in if is_taken chosen p then skipped else taken

unfoldable pub assign : List Pair → List Pair
unfolding sort_pairs consume
assign pairs = consume [] (sort_pairs pairs)

module _ (a : Arith) where
  open a use {add, sub, mul, div, lit, round3, round5}

  unfoldable pub seconds_of : ℕ → Float
  seconds_of t = add (lit (t / 1000000) 1) (lit (t % 1000000) 1000000)

  unfoldable pub seconds_between : Option ℕ → Option ℕ → Option Float
  unfolding seconds_of
  seconds_between (some left) (some right) = some (abs (sub (seconds_of left) (seconds_of right)))
  seconds_between none _ = none
  seconds_between (some left) none = none

  unfoldable pub gap_from : Option Float → Float → Float
  gap_from none level = zero_float
  gap_from (some x) level = abs (sub x level)

  unfoldable pub level_distance : ClosedRow → Transaction → Float
  unfolding gap_from
  level_distance row t =
      add (add zero_float (gap_from row.level_open t.open_level))
        (gap_from row.level_close t.close_level)

  -- The cost of the gaps that are known: the first is that of the close.
  unfoldable pub cost_of_gaps : Option Float → Option Float → Float → Option Float
  cost_of_gaps none none fallback = some fallback
  cost_of_gaps (some close_gap) none fallback =
      if lit reconcile_match_max_seconds 1 <f close_gap
      then none
      else some (add (mul (lit 2 1) close_gap) zero_float)
  cost_of_gaps none (some open_gap) fallback =
      if lit reconcile_match_max_seconds 1 <f open_gap
      then none
      else some (add (mul (lit 2 1) open_gap) open_gap)
  cost_of_gaps (some close_gap) (some open_gap) fallback =
      if lit reconcile_match_max_seconds 1 <f larger close_gap open_gap
      then none
      else some (add (mul (lit 2 1) close_gap) open_gap)

  unfoldable pub match_cost : ClosedRow → Transaction → Option Float
  unfolding seconds_between level_distance cost_of_gaps
  match_cost row t =
      cost_of_gaps (seconds_between row.time_close t.close_time)
        (seconds_between row.time_open t.open_time) (level_distance row t)

  -- The close level that agrees with the profit, when the broker gives none.
  unfoldable pub implied_close : ClosedRow → Float → Option Float
  implied_close row pnl =
      let base_open = or_zero row.level_open in
      let epp = or_zero row.euro_per_point in
      let delta = div pnl epp in
      if same_float base_open zero_float || same_float epp zero_float
      then row.level_close
      else some (round5 (add base_open (if str_eq row.direction "SELL" then neg delta else delta)))

  abbrev pub or_else : Option ℕ → Option ℕ → Option ℕ
  or_else none old = old
  or_else (some t) old = some t

  unfoldable pub with_open_level : ClosedRow → Transaction → ClosedRow
  with_open_level row t =
      if same_float t.open_level zero_float
      then row
      else record row { level_open = some (round5 t.open_level) }

  unfoldable pub apply_transaction : ClosedRow → Transaction → ClosedRow × Bool
  unfolding with_open_level implied_close
  apply_transaction row t = elim t.profit_and_loss [
    | none ↦ (row, false)
    | some pnl ↦
        let opened = with_open_level row t in
        (
          record opened {
            euro = some (round3 pnl);
            win = some (if zero_float <f pnl then 1 else 0);
            level_close =
                if same_float t.close_level zero_float
                then implied_close opened pnl
                else some (round5 t.close_level);
            time_open_broker = or_else t.open_time row.time_open_broker;
            time_close_broker = or_else t.close_time row.time_close_broker;
          },
          true,
        )
  ]

  module _ (names_match : Option String → Option String → Bool) where
    -- The pairs of one position, from a transaction on.
    unfoldable pub row_pairs : ClosedRow → ℕ → ℕ → List Transaction → List Pair
    unfolding match_cost
    row_pairs row index txn_index [] = []
    row_pairs row index txn_index (t ∷ ts) =
        let rest = row_pairs row index (suc txn_index) ts in
        if names_match row.epic_name t.instrument_name
        then (elim (match_cost row t) [
          | none ↦ rest
          | some cost ↦ record { cost = cost; index = index; txn_index = txn_index } ∷ rest
        ])
        else rest

    unfoldable pub all_pairs : ℕ → List ClosedRow → List Transaction → List Pair
    unfolding row_pairs
    all_pairs index [] transactions = []
    all_pairs index (row ∷ rows) transactions =
        row_pairs row index 0 transactions ++ all_pairs (suc index) rows transactions

    -- The pairs that are applied in the end.
    unfoldable pub matched_pairs : List ClosedRow → List Transaction → List Pair
    unfolding all_pairs assign
    matched_pairs rows transactions = assign (all_pairs 0 rows transactions)
