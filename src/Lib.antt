-- ===== src/Lib.antt =====
-- igthon, a trading bot for the IG broker: the parts that keep its calls to the broker within the
-- broker's limits, keep its price history, and decide when a position is opened and closed.
--
-- Every call to the broker goes through the queue (Queue, src/core/api_queue.py). Its one worker
-- waits until the guard is ready (Guard, src/core/api_guard.py) and hands the call to the client,
-- which claims a slot in the guard, reports the broker's quota errors to it and keeps its errors in
-- a log (ErrorLog, src/core/api_error_log.py). The candles that come back, or that are streamed, go
-- into the price buffer (Feed.Buffer, src/feed/price_buffer.py) and into the candle store
-- (Feed.Store, src/feed/candle_store.py). The close profile (Exit.Close,
-- src/exit/close_zoneprofit.py) reads the buffer of a position at every tick, and closes it, moves
-- its stop or holds it; rules without state help it or decide on openings (Execution.Gates,
-- src/execution/gates.py, and Exit.Trailing, src/exit/trailing.py). The trading service
-- (Execution.Trading, src/execution/trading.py) does at the broker what the profile decides.
--
-- Prelude holds what the modules share: tests, lists, the bounded ring buffer, Python's dict, and
-- the integers. Num models floating-point numbers: a finite double is a multiple of the least
-- positive one, so comparisons are exact, and the arithmetic, which rounds, is a parameter; NaN and
-- the infinities are not modelled.
--
-- Time. Clocks count milliseconds. A round of a loop is given the two readings that it makes (the
-- monotonic clock and the wall clock), and a loop that sleeps is a recursion over the readings of
-- its rounds, which is its bound; Guard.Pacing and Guard.Waiting say how many rounds are enough. The
-- queue does not compute with moments, which are a parameter there.
--
-- Concurrency. asyncio runs one task at a time and changes tasks only at an await. The guard and
-- the queue are systems whose steps are the code between two awaits (Guard.Trace, Queue.Trace), and
-- the theorems about them hold for any sequence of these steps.
--
-- Guard: `APIGuard` is the record Guard; pre_request, wait_until_ready and on_ig_error are the
-- functions of those names, and guarded_request is acquire and release.
--
-- Queue: `APIQueue` is the record ApiQueue. Queue.Submit has get, post, put and delete;
-- `_run_worker` and `_process` are take, begin, finish and resume, one for each stretch between two
-- awaits, and `_handle_failure` is handle_failure. The futures are a table by the number of the call.
-- The answers of the IG client are given to the steps. Payloads and answers are parameters.
--
-- Feed: `EpicBuffer` and `PriceBuffer` are the records of those names. A buffer that the source
-- changes in place is read, changed and put back. `CandleStore` is a table, whose commit adds all
-- rows or none, and the week files (Feed.Store.Archive), which are a dictionary by name; its save,
-- fetch, dump_and_purge and export_to_archive are the functions of those names. What it uses of
-- datetime and of the order of texts is a parameter. `IGStreamingClient` is StreamingClient
-- (Feed.Streaming, src/feed/streaming.py), whose Lightstreamer client is the list of its active
-- subscriptions; start, ensure_connected and _reconnect are cut at their awaits.
--
-- Indicators: src/core/indicators.py, a function for each function. A list of values is oldest
-- first, and a slice of the last ones is keep_last.
--
-- Exit: Exit.Zones is src/exit/zones/base.py, with the StopContext that the updaters read; its
-- children hold the updaters of src/exit/zones by zone (Underwater, Band for the margin and the
-- secure zone, Profit) and the rule of the whole book (Group, smartgroup.py). An updater that
-- returns early is a do block whose guards hold the stop. Exit.Updaters has the registries, and
-- Exit.Close the profile, to which the stop-distance policy (src/stops) is a function.
--
-- Stops: the policies of src/stops that place the stop of a new position, one function for the
-- distance of each; the measures they share are in Stops, the policies in Stops.Policies.
--
-- Execution.Gates and Exit.Trailing: one function per function of the source. A verdict of a gate
-- is a constructor with the values that the source writes into its reason. The theorems that need
-- more of the arithmetic than its being a function say so, by the laws of IEEE 754 in Num.Ieee; their
-- examples use whole numbers (Num.Whole).
--
-- Execution.Trading: `TradingService`, on a row of the table of positions (TradedPosition). What the
-- broker and the clock say during an operation is given to it (StopAnswers, CloseAnswers, Tidings);
-- an error of an update of a stop other than the client's own is not modelled. Stops has
-- `_ratchet_stop` and what it calls, Closing has `_close_position`, and Manage has manage_position,
-- check_and_close and set_stop_manually. Matching has `_match_cost`, `_apply_transaction` and the
-- loops of `reconcile_realized_pnl`, on the transactions as they are parsed. Placing has the order of
-- an opening and `_confirm_with_retry`, Placing.Row the row, open_position and open_from_intent. Sync
-- has what `sync_open_positions` does with a row, and Sync.Loop the loop, the adoption and the whole.
-- Reconcile has reconcile_realized_pnl and the forced closes.
--
-- Scheduler: the modes of the jobs and the switch of the automatic openings in
-- src/core/scheduler.py, with the table of src/models/job_preference.py that keeps them
-- (Scheduler), and the replay of missed runs (Scheduler.CatchUp), with the trigger of a job as a
-- function and eight days of microseconds as fuel, which is enough because each fire is later than
-- the one before. Four requests are the fuel of `_confirm_with_retry`, as in the source.
--
-- Not modelled: the HTTP client and the parsing of its answers; the rest of the scheduler; the entry
-- strategies, whose rules are statistics on prices; the backtester and the dashboard, which read
-- what the modelled parts keep; and logging.
pub mod Prelude
pub mod Num
pub mod Indicators
pub mod Guard
pub mod Queue
pub mod Feed
pub mod ErrorLog
pub mod Exit
pub mod Stops
pub mod Scheduler
pub mod Execution
