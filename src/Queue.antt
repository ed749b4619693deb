-- ===== src/Queue.antt =====
-- The queue of API calls (src/core/api_queue.py). The payload of a call, the client's answers and
-- the moments of the wall clock are parameters `Payload`, `Answer` and `Time`.
-- `asyncio.PriorityQueue` is the list of its entries in the order in which it hands them out, and
-- the futures are kept in a table, by the number of their call.
pub mod Call
pub mod Submit
pub mod Entries
pub mod Counts
pub mod Kept
pub mod Views
pub mod Trace
pub mod Conserve
pub mod Order
pub mod Accounts
pub mod Retries
pub mod Futures
mod Tests
use igthon.Prelude.{
  ℕ, zero, suc, ◌+◌, ◌-◌, String, Bool, true, false, not, ◌&&◌, ◌||◌, Option, none, some, List, [],
  ◌∷◌, ◌++◌, map, ltb, leb, if◌then◌else◌, length,
}
use igthon.Prelude.Ring.{keep_last}
use igthon.Queue.Call.{
  QueueStatus, QueuedCall, Failure, Outcome, QueueTaskView, QueueErrorView, task_view, pending_view,
  error_view,
}
use igthon.Queue.Submit.{Submission, new_call}
use igthon.Queue.Entries.{
  Future, waiting, result, exception, put_call, set_pending, pop_pending, sort_calls, settle,
  is_rate_limit, is_retriable, is_expected,
}
use mathlib.Core.List.{reverse}

-- `max_attempts`, `retry_margin_seconds`, `recent_size` and `errors_size` of the constructor.
pub record Config : Type 0 where
  pub max_attempts : ℕ
  pub retry_margin : ℕ
  pub recent_size : ℕ
  pub errors_size : ℕ

pub record Counters : Type 0 where
  pub enqueued : ℕ
  pub succeeded : ℕ
  pub failed : ℕ
  pub retried : ℕ
  pub rate_limited : ℕ

module _ (Payload Time Answer : Type 0) where
  pub record ApiQueue : Type 0 where
    pub config : Config
    pub queue : List (QueuedCall Payload Time)
    pub next_seq : ℕ
    pub has_task : Bool
    pub running : Bool
    pub running_call : Option (QueuedCall Payload Time)
    pub counters : Counters
    pub recent : List (QueueTaskView Time)
    pub pending_calls : List (QueuedCall Payload Time)
    pub errors : List (QueueErrorView Time)
    pub futures : List (ℕ × Future Answer)

  -- What the worker does between two of its waits: nothing, waiting for the guard with a call in
  -- hand, waiting for the client, and waiting for a block to end.
  pub data Phase : Type 0 where
    idle : Phase
    held : QueuedCall Payload Time → Phase
    invoking : QueuedCall Payload Time → Phase
    cooling : QueuedCall Payload Time → Phase

module _ {Payload Time Answer : Type 0} where
  unfoldable pub enqueue :
      QueuedCall Payload Time → ApiQueue Payload Time Answer → ApiQueue Payload Time Answer
  enqueue call q =
      let c = record call { status = QueueStatus.pending } in
      record q { pending_calls = set_pending c q.pending_calls; queue = put_call c q.queue }

  -- `next(self._seq)`, the future and the counter of `_submit`.
  unfoldable pub register : ApiQueue Payload Time Answer → ApiQueue Payload Time Answer
  register q = record q {
    next_seq = q.next_seq + 1;
    futures = (q.next_seq, waiting) ∷ q.futures;
    counters = record q.counters { enqueued = q.counters.enqueued + 1 };
  }

  unfoldable pub submit :
      Time → Submission Payload → ApiQueue Payload Time Answer → ApiQueue Payload Time Answer
  submit now s q = enqueue (new_call now q.next_seq q.config.max_attempts s) (register q)

  unfoldable pub start : ApiQueue Payload Time Answer → ApiQueue Payload Time Answer
  start q = if q.has_task then q else record q { has_task = true; running = true }

  unfoldable pub stop : ApiQueue Payload Time Answer → ApiQueue Payload Time Answer
  stop q = record q { has_task = false; running = false }

  unfoldable pub record_recent :
      QueuedCall Payload Time → ApiQueue Payload Time Answer → ApiQueue Payload Time Answer
  record_recent c q = record q {
    recent = keep_last q.config.recent_size (q.recent ++ task_view c ∷ []);
  }

  unfoldable pub record_error :
      Time
      → QueuedCall Payload Time
      → Failure
      → ApiQueue Payload Time Answer
      → ApiQueue Payload Time Answer
  record_error now c f q = record q {
    errors = keep_last q.config.errors_size (q.errors ++ error_view now c f ∷ []);
  }

  -- The worker takes the first entry.
  unfoldable pub take :
      ApiQueue Payload Time Answer → Phase Payload Time Answer × ApiQueue Payload Time Answer
  take q =
      if q.running
      then elim q.queue [ [] ↦ (idle, q) | c ∷ cs ↦ (held c, record q { queue = cs }) ]
      else (idle, q)

  -- `_process` up to the call of the client.
  unfoldable pub begin :
      Time
      → QueuedCall Payload Time
      → ApiQueue Payload Time Answer
      → Phase Payload Time Answer × ApiQueue Payload Time Answer
  begin now call q =
      let c = record call {
        status = QueueStatus.running;
        started_at = some now;
        attempts = call.attempts + 1;
        total_attempts = call.total_attempts + 1;
      } in
      (
        invoking c,
        record q { pending_calls = pop_pending call.seq q.pending_calls; running_call = some c },
      )

  -- A probe's failure and an expected one stay out of the error log.
  unfoldable pub log_error :
      Time
      → QueuedCall Payload Time
      → Failure
      → ApiQueue Payload Time Answer
      → ApiQueue Payload Time Answer
  log_error now c f q =
      if not c.suppress_error_logging && not (is_expected c f) then record_error now c f q else q

  -- `_handle_failure`. A rate-limited call waits out the block and is put back by `resume`.
  unfoldable pub give_up :
      Time
      → QueuedCall Payload Time
      → Failure
      → ApiQueue Payload Time Answer
      → ApiQueue Payload Time Answer
  give_up now call f q =
      let c = record call {
        status = QueueStatus.error;
        last_error = f.text;
        finished_at = some now;
      } in
      let counted = record q { counters = record q.counters { failed = q.counters.failed + 1 } } in
      let logged = log_error now c f counted in
      record_recent c (record logged { futures = settle c.seq (exception f) logged.futures })

  unfoldable pub handle_failure :
      Time
      → QueuedCall Payload Time
      → Failure
      → ApiQueue Payload Time Answer
      → Phase Payload Time Answer × ApiQueue Payload Time Answer
  handle_failure now c f q =
      if is_rate_limit f
      then (
        cooling (record c { attempts = c.attempts - 1 }),
        record q { counters = record q.counters { rate_limited = q.counters.rate_limited + 1 } },
      )
      else if is_retriable c f
      then (
        idle,
        enqueue c (record q { counters = record q.counters { retried = q.counters.retried + 1 } }),
      )
      else (idle, give_up now c f q)

  -- The rest of `_process`, once the client has answered.
  unfoldable pub finish :
      Time
      → QueuedCall Payload Time
      → Outcome Answer
      → ApiQueue Payload Time Answer
      → Phase Payload Time Answer × ApiQueue Payload Time Answer
  finish now call (Outcome.raised f) q =
      handle_failure now call f (record q { running_call = none })
  finish now call (Outcome.returned a) q =
      let c = record call { status = QueueStatus.done; finished_at = some now } in
      (
        idle,
        record_recent c (record q {
          running_call = none;
          counters = record q.counters { succeeded = q.counters.succeeded + 1 };
          futures = settle c.seq (result a) q.futures;
        }),
      )

  -- `_wait_for_unblock` is over: the call goes back into the queue.
  unfoldable pub resume :
      QueuedCall Payload Time
      → ApiQueue Payload Time Answer
      → Phase Payload Time Answer × ApiQueue Payload Time Answer
  resume c q = (idle, enqueue c q)

  unfoldable pub clear_errors : ApiQueue Payload Time Answer → ApiQueue Payload Time Answer
  clear_errors q = record q { errors = [] }
