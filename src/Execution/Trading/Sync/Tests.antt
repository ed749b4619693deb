-- ===== src/Execution/Trading/Sync/Tests.antt =====
-- A synchronization at concrete rows, in whole numbers (src/execution/trading.py).
use igthon.Prelude.{◌≡◌, inl, refl, ℕ, String, true, false, none, some, List, [], ◌∷◌, All}
use igthon.Prelude.Int.{pos}
use igthon.Num.Whole.{whole}
use igthon.Execution.Trading.{TradedPosition}
use igthon.Execution.Trading.Stops.{nonempty}
use igthon.Execution.Trading.Sync.{LiveEntry, SyncAnswers, not_found}
use igthon.Execution.Trading.Sync.Loop.{sync_open_positions}
use igthon.Execution.Trading.Sync.Bound.{IsTracked}
use igthon.Execution.Trading.Sync.Complete.{sync_open_positions-tracks}
use igthon.Execution.Trading.Sync.Closed.{IsRight, IsIn, IsGone, sync_open_positions-closes}

-- A long position with a deal.
abbrev row : ℕ → String → TradedPosition
row id deal = record {
  id = id;
  epic = "E";
  direction = "BUY";
  deal_reference = none;
  deal_id = some deal;
  is_open = true;
  date = some 3;
  time_open = some 1000;
  level_open = some (pos 100);
  level_zero = some (pos 101);
  level_margin = some (pos 103);
  level_follower = some (pos 90);
  level_win = none;
  level_loose = some (pos 90);
  level_stop = some (pos 89);
  level_security = some (pos 89);
  level_close = none;
  min_stop_distance = none;
  pip_spread = some (pos 1);
  reason_open = none;
  euro_per_point = some (pos 2);
  euro_stop = none;
  euro = none;
  euro_max = none;
  euro_min = none;
  win = none;
  quantity = some 1;
  reason_close = none;
  stop_update = none;
  stop_history = [];
  manual_stop_zone = none;
}

abbrev table : List TradedPosition
table = row 1 "D1" ∷ row 2 "D2" ∷ []

abbrev listed : String → LiveEntry
listed deal = record {
  epic = some "F";
  deal_id = some deal;
  deal_reference = none;
  direction = some "SELL";
  level = pos 50;
  stop_level = pos 60;
  limit_level = pos 0;
  size = pos 1;
  quantity = 1;
  contract_size = pos 1;
  bid = some (pos 48);
  offer = some (pos 49);
  created = none;
}

abbrev entries : List LiveEntry
entries = listed "D3" ∷ listed "D1" ∷ []

-- The broker lists an unknown position and the first row, and has no longer the second.
abbrev sync_answers : SyncAnswers
sync_answers = record {
  listing = some entries;
  refresh = λ id. some (row id "D2");
  probe = λ deal. not_found;
  market = λ epic. none;
  today = 3;
  time = 5000;
}

sync_open_positions-tracks_example :
    IsTracked "D3" (sync_open_positions whole sync_answers 7 table).0
unfolding nonempty
sync_open_positions-tracks_example =
    sync_open_positions-tracks whole sync_answers 7 table entries "D3" refl
      (inl (refl, ("F", refl), refl))

sync_open_positions-closes_example :
    let result = sync_open_positions whole sync_answers 7 table in
    All (IsRight sync_answers (λ q. IsIn q table)) result.0
    × All (λ q. IsGone sync_answers q × (q.is_open ≡ false)) result.1
sync_open_positions-closes_example = sync_open_positions-closes whole sync_answers 7 table
