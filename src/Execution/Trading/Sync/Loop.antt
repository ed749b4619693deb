-- ===== src/Execution/Trading/Sync/Loop.antt =====
-- The loop over the rows, the adoption of what no row tracks, and the synchronization as a whole
-- (src/execution/trading.py).
use igthon.Prelude.{
  ℕ, suc, String, Bool, true, false, ◌||◌, Option, none, some, List, [], ◌∷◌, ◌++◌, str_eq,
  contains, if◌then◌else◌,
}
use igthon.Num.{Float, Arith, zero_float, ◌≤f◌, larger}
use igthon.Indicators.{same_float}
use igthon.Execution.Gates.{point}
use igthon.Execution.Trading.{TradedPosition}
use igthon.Execution.Trading.Stops.{nonempty}
use igthon.Execution.Trading.Sync.{
  LiveEntry, PointValue, SyncAnswers, bind, take_deal, mark_to_market, opened_within,
  ig_position_gone, mark_never_opened, reconcile_vanished, known_deal_ids,
}

-- The rows that are left, the deals that are taken, and the rows that were reconciled as closed.
pub record Synced : Type 0 where
  pub rows : List TradedPosition
  pub claimed : List String
  pub reconciled_closed : List TradedPosition

abbrev pub with_row : TradedPosition → Synced → Synced
with_row p s = record s { rows = p ∷ s.rows }

abbrev pub claimed_by : Option String → List String → List String
claimed_by none claimed = claimed
claimed_by (some deal) claimed = deal ∷ claimed

-- Adoption needs an epic and a deal.
abbrev pub is_side : Option String → Bool
is_side none = false
is_side (some direction) = str_eq direction "BUY" || str_eq direction "SELL"

abbrev pub text_or : Option String → String → String
text_or none s = s
text_or (some t) s = t

abbrev pub deal_text : LiveEntry → String
deal_text e = text_or (nonempty e.deal_id) ""

module _ (a : Arith) where
  open a use {add, sub, mul, div, round5, round3, round6}

  -- What a row that is read again becomes, given whether it is open and its deal.
  abbrev pub settle_read :
      SyncAnswers → TradedPosition → Bool → Option String → TradedPosition × Bool
  settle_read answers q false deal = (q, false)
  settle_read answers q true none =
      (if opened_within answers q then q else mark_never_opened q, false)
  settle_read answers q true (some deal) =
      if ig_position_gone answers q then (reconcile_vanished a q, true) else (q, false)

  -- What a row that no entry matches becomes.
  unfoldable pub settle_unmatched : SyncAnswers → TradedPosition → Option (TradedPosition × Bool)
  unfolding opened_within ig_position_gone mark_never_opened reconcile_vanished
  settle_unmatched answers p = elim (answers.refresh p.id) [
    | none ↦ none
    | some q ↦ some (settle_read answers q q.is_open q.deal_id)
  ]

  -- What a row becomes with its entry.
  unfoldable pub settle_matched : LiveEntry → TradedPosition → TradedPosition
  unfolding nonempty take_deal mark_to_market
  settle_matched e p = elim (nonempty e.deal_id) [
    | none ↦ mark_to_market a e p
    | some deal ↦ mark_to_market a e (take_deal a deal e p)
  ]

  abbrev pub with_unmatched : Option (TradedPosition × Bool) → Synced → Synced
  with_unmatched none s = s
  with_unmatched (some (p, closed)) s = record s {
    rows = p ∷ s.rows;
    reconciled_closed = if closed then p ∷ s.reconciled_closed else s.reconciled_closed;
  }

  -- One row, given its entry and whether it is open, before the other rows.
  abbrev pub settle_row : SyncAnswers → TradedPosition → Bool → Option LiveEntry → Synced → Synced
  settle_row answers p true none rest = with_unmatched (settle_unmatched answers p) rest
  settle_row answers p false none rest = with_row p rest
  settle_row answers p _ (some e) rest = with_row (settle_matched e p) rest

  abbrev pub claim_of : Option LiveEntry → Option String
  claim_of none = none
  claim_of (some e) = nonempty e.deal_id

  abbrev pub match_of : List LiveEntry → List String → TradedPosition → Option LiveEntry
  match_of entries claimed p = if p.is_open then bind a entries claimed p else none

  unfoldable pub sync_rows :
      SyncAnswers → List LiveEntry → List TradedPosition → List String → Synced
  unfolding bind settle_unmatched settle_matched nonempty
  sync_rows answers entries [] claimed = record {
    rows = [];
    claimed = claimed;
    reconciled_closed = [];
  }
  sync_rows answers entries (p ∷ ps) claimed =
      let matched = match_of entries claimed p in
      settle_row answers p p.is_open matched
        (sync_rows answers entries ps (claimed_by (claim_of matched) claimed))

  unfoldable pub euro_per_point : PointValue → Float → Float
  euro_per_point market size =
      let contract =
        if market.contract_size ≤f zero_float then market.lot_size else market.contract_size in
      if contract ≤f zero_float then zero_float else mul (mul size contract) market.rate

  -- From the instrument, or else from the contract size of the entry.
  unfoldable pub adopted_epp : Option PointValue → LiveEntry → Float
  unfolding euro_per_point
  adopted_epp none e = mul e.size e.contract_size
  adopted_epp (some market) e =
      let epp = euro_per_point market e.size in
      if same_float epp zero_float then mul e.size e.contract_size else epp

  abbrev pub stop_gap : Bool → LiveEntry → Float
  stop_gap is_sell e =
      if same_float e.stop_level zero_float
      then zero_float
      else larger (if is_sell then sub e.stop_level e.level else sub e.level e.stop_level)
          zero_float

  abbrev pub bid_of : LiveEntry → Float
  bid_of e = elim e.bid [ none ↦ e.level | some bid ↦ bid ]

  abbrev pub live_spread : LiveEntry → Float
  live_spread e =
      larger (sub (elim e.offer [ none ↦ bid_of e | some offer ↦ offer ]) (bid_of e)) zero_float

  abbrev pub level_of : Float → Float
  level_of x = if same_float x zero_float then zero_float else round5 x

  -- The row of an adopted position, with its number; the moment is the broker's, or now.
  unfoldable pub adopted_row :
      SyncAnswers → ℕ → LiveEntry → String → String → String → TradedPosition
  unfolding adopted_epp
  adopted_row answers id e epic deal direction =
      let is_sell = str_eq direction "SELL" in
      let epp = adopted_epp (answers.market epic) e in
      let no_epp = same_float epp zero_float in
      let stop = some (level_of e.stop_level) in
      let move = if is_sell then sub e.level (bid_of e) else sub (bid_of e) e.level in
      let opened : ℕ × ℕ = elim e.created [ none ↦ (answers.today, answers.time) | some t ↦ t ] in
      record {
        id = id;
        epic = epic;
        direction = direction;
        deal_reference = e.deal_reference;
        deal_id = some deal;
        is_open = true;
        date = some opened.0;
        time_open = some opened.1;
        level_open = some (round5 e.level);
        level_zero = some (round5 e.level);
        level_margin = none;
        level_follower = stop;
        level_win = some (level_of e.limit_level);
        level_loose = stop;
        level_stop = stop;
        level_security = stop;
        level_close = none;
        min_stop_distance = none;
        pip_spread = some (round5 (live_spread e));
        reason_open = some "adopted";
        euro_per_point = if no_epp then none else some (round6 epp);
        euro_stop = some (round3 (if no_epp then zero_float else mul (stop_gap is_sell e) epp));
        euro = if no_epp then none else some (round3 (mul move epp));
        euro_max = none;
        euro_min = none;
        win = none;
        quantity = some e.quantity;
        reason_close = none;
        stop_update = none;
        stop_history =
            if same_float e.stop_level zero_float
            then []
            else point (some (round5 e.stop_level)) none ∷ [];
        manual_stop_zone = none;
      }

  unfoldable pub adopt_ig_position : SyncAnswers → ℕ → LiveEntry → Option TradedPosition
  unfolding nonempty adopted_row
  adopt_ig_position answers id e = elim (nonempty e.epic) [
    | none ↦ none
    | some epic ↦ elim (nonempty e.deal_id) [
      | none ↦ none
      | some deal ↦
          if is_side e.direction
          then some (adopted_row answers id e epic deal (text_or e.direction ""))
          else none
    ]
  ]

  abbrev pub adopted_first :
      Option TradedPosition → List TradedPosition → List TradedPosition → List TradedPosition
  adopted_first none rest_without rest_with = rest_without
  adopted_first (some p) rest_without rest_with = p ∷ rest_with

  abbrev pub adopt_new : SyncAnswers → ℕ → List String → LiveEntry → Option TradedPosition
  adopt_new answers id tracked e =
      if str_eq (deal_text e) "" || contains tracked (deal_text e)
      then none
      else adopt_ig_position answers id e

  -- The rows that are adopted, from a number on.
  unfoldable pub adopt_all : SyncAnswers → ℕ → List String → List LiveEntry → List TradedPosition
  unfolding nonempty adopt_ig_position
  adopt_all answers id tracked [] = []
  adopt_all answers id tracked (e ∷ es) =
      let rest_without = adopt_all answers id tracked es in
      let rest_with = adopt_all answers (suc id) (deal_text e ∷ tracked) es in
      adopted_first (adopt_new answers id tracked e) rest_without rest_with

  -- The table after a synchronization and the rows that it closed; the number is the next free one.
  unfoldable pub sync_open_positions :
      SyncAnswers → ℕ → List TradedPosition → List TradedPosition × List TradedPosition
  unfolding sync_rows adopt_all known_deal_ids
  sync_open_positions answers next_id table = elim answers.listing [
    | none ↦ (table, [])
    | some entries ↦
        let s = sync_rows answers entries table [] in
        (
          s.rows ++ adopt_all answers next_id (s.claimed ++ known_deal_ids table) entries,
          s.reconciled_closed,
        )
  ]
