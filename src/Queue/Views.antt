-- ===== src/Queue/Views.antt =====
-- What the dashboard reads of the queue, and how long the worker sleeps after a block
-- (src/core/api_queue.py).
use igthon.Prelude.{ℕ, ◌+◌, ◌-◌, Option, none, some, List, map, length}
use igthon.Queue.Call.{QueueTaskView, QueueErrorView, pending_view}
use igthon.Queue.Entries.{sort_calls}
use igthon.Queue.{ApiQueue}
use mathlib.Core.List.{reverse}

record ApiQueueStats : Type 0 where
  pending : ℕ
  running : ℕ
  enqueued : ℕ
  succeeded : ℕ
  failed : ℕ
  retried : ℕ
  rate_limited : ℕ
  max_attempts : ℕ

module _ {Payload Time Answer : Type 0} where
  unfoldable stats : ApiQueue Payload Time Answer → ApiQueueStats
  stats q = record {
    pending = length q.queue;
    running = elim q.running_call [ none ↦ 0 | some c ↦ 1 ];
    enqueued = q.counters.enqueued;
    succeeded = q.counters.succeeded;
    failed = q.counters.failed;
    retried = q.counters.retried;
    rate_limited = q.counters.rate_limited;
    max_attempts = q.config.max_attempts;
  }

  -- Newest first.
  unfoldable recent : ApiQueue Payload Time Answer → List (QueueTaskView Time)
  recent q = reverse q.recent

  unfoldable errors : ApiQueue Payload Time Answer → List (QueueErrorView Time)
  errors q = reverse q.errors

  -- In the order in which they will be served.
  unfoldable pending_tasks : ApiQueue Payload Time Answer → List (QueueTaskView Time)
  pending_tasks q = map pending_view (sort_calls q.pending_calls)

-- The seconds that `_wait_for_unblock` sleeps.
unfoldable unblock_delay : Option ℕ → ℕ → ℕ → ℕ
unblock_delay none now margin = margin
unblock_delay (some until) now margin = until + margin - now
