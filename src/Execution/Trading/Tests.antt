-- ===== src/Execution/Trading/Tests.antt =====
-- The trading service at concrete positions, in whole numbers.
use igthon.Prelude.{
  ◌≡◌, ◌≢◌, ◌+◌, refl, ◌↔◌, List, All, ◌⊎◌, ℕ, String, true, false, not, Option, none, some, [],
  ◌∷◌, arith,
}
use igthon.Prelude.Int.{pos, ◌+ℤ◌, ◌-ℤ◌, ◌*ℤ◌}
use igthon.Num.Whole.{whole, whole-Ieee, whole-Rounding}
use igthon.Exit.Trailing.{
  decide_close_reason, compute_trailing_stop, trailing_candidate, clamp_trailing_distance, floor_of,
  capped,
}
use igthon.Feed.Candle.{Candle, spread}
use igthon.Feed.Buffer.{EpicBuffer, last}
use igthon.Execution.Gates.{allowed, point}
use igthon.Execution.Trading.{
  TradeConfig, TradedPosition, open_of, is_epic_close_soon, is_epic_close_hour,
  is_epic_traded_today, can_open_intent,
}
use igthon.Execution.Trading.Stops.{
  Listing, ensure_deal_id, ratchet_stop, desired_broker_stop, broker_stop_level,
  clamp_broker_stop_to_min_distance, broker_target, loosens_broker, is_favourable_stop_move,
  ratchet_to, is_pinned, with_follower, append_stop_history, pushed_stop, push_stop_to_ig,
  listed_deal, deal_of, nonempty, broker_stop_buffer,
}
use igthon.Execution.Trading.Closing.{deleted, failed, close_position}
use igthon.Execution.Trading.Manage.{
  Service, Tidings, manage_position, unprofiled, check_and_close, update_trailing_stop, trail,
  trailing_tick,
}
use igthon.Indicators.{atr, true_ranges, true_range}
use igthon.Prelude.Ring.{keep_last}
use igthon.Execution.Trading.Matching.{
  Pair, comes_before, insert_pair, sort_pairs, shares, is_taken, consume, assign,
}
use igthon.Execution.Trading.Greedy.{Some, IsOneToOne, IsRival, assign-IsGreedy}
use igthon.Execution.Trading.Reconcile.{close_epics}
use igthon.Execution.Trading.Count.{open_count, SameOthers, close_epics-open_count}
use igthon.Execution.Trading.Once.{IsSingle, can_open_intent-IsSingle}
use igthon.Execution.Trading.Final.{is_final, reply_to, close_position-closes}
use igthon.Execution.Trading.Ticks.{IsSafe, manage_position-IsSafe}

abbrev config : TradeConfig
config = record {
  close_margin_minutes = 5;
  open_close_buffer_minutes = 60;
  allow_same_day_reopen = false;
  stop_min_distance_margin = pos 0;
  market_order_limit_slippage = pos 0;
  atr_period = 1;
  trailing = record { atr_k_pre = pos 2; atr_k_post = pos 2; trailing_step_ratio = pos 0 };
  broker_stop_noise_atr = pos 1;
}

abbrev long : TradedPosition
long = record {
  id = 7;
  epic = "E";
  direction = "BUY";
  deal_reference = none;
  deal_id = none;
  is_open = true;
  date = some 10;
  time_open = some 0;
  level_open = some (pos 100);
  level_zero = some (pos 101);
  level_margin = none;
  level_follower = some (pos 90);
  level_win = none;
  level_loose = some (pos 90);
  level_stop = some (pos 85);
  level_security = some (pos 85);
  level_close = none;
  min_stop_distance = none;
  pip_spread = none;
  reason_open = none;
  euro_per_point = some (pos 2);
  euro_stop = some (pos 20);
  euro = none;
  euro_max = none;
  euro_min = none;
  win = none;
  quantity = some 1;
  reason_close = none;
  stop_update = none;
  stop_history = point (some (pos 90)) none ∷ [];
  manual_stop_zone = none;
}

abbrev candle : ℕ → ℕ → Candle
candle time price = record {
  timestamp = time;
  bid_open = pos price;
  bid_close = pos price;
  bid_high = pos price;
  bid_low = pos price;
  offer_open = pos price;
  offer_close = pos price;
  offer_high = pos price;
  offer_low = pos price;
  volume = 1;
}

abbrev buffer : EpicBuffer
buffer = record { epic = "E"; max_candles = 10; candles = candle 1 104 ∷ candle 2 107 ∷ [] }

abbrev listing : Option Listing
listing = some (("F", some "D1") ∷ ("E", some "D2") ∷ [])

abbrev tidings : Tidings
tidings = record {
  minutes_to_close = some (pos 300);
  stop_answers = record { listing = listing; accepts = true };
  close_answers = record {
    listing = listing;
    first_delete = deleted (some "R");
    second_delete = failed;
    confirm = some (record {
      deal_status = some "ACCEPTED";
      level = some (pos 89);
      profit = none;
      profit_currency = none;
    });
    verify = none;
  };
}

abbrev service : Service
service = record { config = config; close_profile = none; market_order_unsupported = [] }

-- The stop follows the price, and the broker takes a level beyond it.
manage_position-long :
    let q = (manage_position whole service tidings long (pos 107) (some buffer) none).position in
    (q.level_follower ≡ some (pos 101)) × (q.level_stop ≡ some (pos 98)) × (q.deal_id ≡ some "D2")
unfolding manage_position unprofiled check_and_close decide_close_reason is_epic_close_hour
    update_trailing_stop last trail trailing_tick compute_trailing_stop trailing_candidate
    clamp_trailing_distance floor_of capped atr true_ranges true_range keep_last spread ratchet_stop
    desired_broker_stop broker_stop_level clamp_broker_stop_to_min_distance broker_target
    loosens_broker is_favourable_stop_move ratchet_to is_pinned with_follower append_stop_history
    pushed_stop push_stop_to_ig ensure_deal_id listed_deal deal_of nonempty broker_stop_buffer ◌+ℤ◌
    ◌-ℤ◌ ◌*ℤ◌
manage_position-long = (refl, refl, refl)

manage_position-IsSafe_example :
    IsSafe whole long
      (manage_position whole service tidings long (pos 107) (some buffer) none).position
manage_position-IsSafe_example =
    manage_position-IsSafe whole whole-Ieee whole-Rounding service (omega arith) tidings long
      (pos 107) (some buffer) none (λ x e. refl, λ x e. refl)

close_position-closes_example :
    let r = close_position whole config tidings.close_answers [] long (pos 88) "stop" in
    let deal = (ensure_deal_id listing long).1 in
    (r.position.is_open ≡ not r.closed)
    × ((r.closed ≡ true) ↔ (
        (deal ≡ none)
        ⊎ ((d : String) × (deal ≡ some d)
            × (is_final
                  (reply_to whole config tidings.close_answers [] long (pos 88) d)
                  tidings.close_answers
                  "E"
                ≡ true))))
close_position-closes_example =
    close_position-closes whole config tidings.close_answers [] long (pos 88) "stop" refl

no_rows : IsSingle []
unfolding open_of
no_rows epic = omega arith

can_open_intent-IsSingle_example :
    let verdict = can_open_intent whole config [] 10 none "E" "BUY" false false in
    (verdict ≢ none)
    × (verdict ≡ some allowed
        → (open_of "E" [] ≡ [])
          × (is_epic_close_soon whole config none ≡ false)
          × ((false ≡ true) ⊎ (false ≡ true) ⊎ (is_epic_traded_today "E" 10 [] ≡ false))
          × IsSingle (long ∷ []))
can_open_intent-IsSingle_example =
    can_open_intent-IsSingle whole config [] 10 none long false false no_rows

-- An early position is near to both transactions, a late one to the second only.
abbrev candidates : List Pair
candidates =
    record { cost = pos 90; index = 0; txn_index = 0 }
    ∷ record { cost = pos 30; index = 0; txn_index = 1 }
    ∷ record { cost = pos 10; index = 1; txn_index = 1 }
    ∷ []

assigned :
    assign candidates
    ≡ record { cost = pos 90; index = 0; txn_index = 0 }
      ∷ record { cost = pos 10; index = 1; txn_index = 1 }
      ∷ []
unfolding assign sort_pairs insert_pair comes_before consume is_taken shares
assigned = refl

assign-IsGreedy_example :
    IsOneToOne (assign candidates)
    × All (λ (p : Pair). Some (λ r. p ≡ r) candidates) (assign candidates)
    × All (λ (p : Pair). Some (IsRival p) (assign candidates)) candidates
assign-IsGreedy_example = assign-IsGreedy candidates

close_epics-open_count_example :
    let r =
      close_epics whole config
        (λ id. tidings.close_answers)
        (λ epic. some (some (pos 88)))
        "end"
        ("E" ∷ [])
        []
        (long ∷ []) in
    (open_count (long ∷ []) ≡ r.closed + open_count r.rows)
    × SameOthers ("E" ∷ []) (long ∷ []) r.rows
close_epics-open_count_example =
    close_epics-open_count whole config (λ id. tidings.close_answers) (λ epic. some (some (pos 88)))
      "end" ("E" ∷ []) [] (long ∷ [])
