-- ===== src/Queue/Accounts.antt =====
-- The counters, and the bounds of the two ring buffers (src/core/api_queue.py).
use igthon.Prelude.{
  ℕ, ◌+◌, ◌≤◌, ◌≡◌, refl, none, some, List, [], ◌∷◌, ◌++◌, not, ◌&&◌, arith, length, Bool-cases,
  inl, inr, ap,
}
use igthon.Prelude.Ring.{length-keep_last}
use igthon.Queue.Call.{QueueStatus, QueuedCall, Outcome, Failure, task_view}
use igthon.Queue.Submit.{Submission, new_call}
use igthon.Queue.Entries.{put_call, is_rate_limit, is_retriable, is_expected}
use igthon.Queue.Order.{take-cases}
use igthon.Queue.{
  Config, ApiQueue, Phase, idle, held, invoking, cooling, submit, start, stop, take, begin, finish,
  handle_failure, resume, clear_errors, enqueue, give_up, log_error, record_error, record_recent,
  register,
}
use igthon.Queue.Trace.{
  System, Event, submits, takes, begins, answers, resumes, cancels, clears, starts, stops, step,
  run, run_induction, initial, works, moved, dropped,
}

module _ {Payload Time : Type 0} where
  length-put_call :
      (c : QueuedCall Payload Time) (cs : List (QueuedCall Payload Time))
      → length (put_call c cs) ≡ length cs + 1
  unfolding put_call
  length-put_call c [] = refl
  length-put_call c (d ∷ cs) = ground (arith, length-put_call c cs)

module _ {Payload Time Answer : Type 0} where
  -- The calls in the worker's hands.
  abbrev pub busy : Phase Payload Time Answer → ℕ
  busy idle = 0
  busy p = 1

  pub record IsAccounted (s : System Payload Time Answer) : Type 0 where
    pub numbered : s.queue.counters.enqueued + 1 ≡ s.queue.next_seq
    pub balanced :
        s.queue.counters.enqueued
        ≡ s.queue.counters.succeeded
          + s.queue.counters.failed
          + length s.queue.queue
          + busy s.phase
          + length s.lost
    pub finished : s.queue.counters.succeeded + s.queue.counters.failed ≡ length s.done
    pub recent_bound : length s.queue.recent ≤ s.queue.config.recent_size
    pub errors_bound : length s.queue.errors ≤ s.queue.config.errors_size

  -- A queue has the other's counts, and its ring buffers are as bounded.
  record Counts (entered failures : ℕ) (q r : ApiQueue Payload Time Answer) : Type 0 where
    submitted : r.counters.enqueued ≡ q.counters.enqueued
    succeeded : r.counters.succeeded ≡ q.counters.succeeded
    failed : r.counters.failed ≡ q.counters.failed + failures
    number : r.next_seq ≡ q.next_seq
    entries : length r.queue ≡ length q.queue + entered
    config_same : r.config ≡ q.config
    recent_fits : length q.recent ≤ q.config.recent_size → length r.recent ≤ r.config.recent_size
    errors_fit : length q.errors ≤ q.config.errors_size → length r.errors ≤ r.config.errors_size

  enqueue-Counts :
      (c : QueuedCall Payload Time) (q : ApiQueue Payload Time Answer) → Counts 1 0 q (enqueue c q)
  unfolding enqueue
  enqueue-Counts c q = record {
    submitted = refl;
    succeeded = refl;
    failed = omega arith;
    number = refl;
    entries = length-put_call _ q.queue;
    config_same = refl;
    recent_fits = λ h. h;
    errors_fit = λ h. h;
  }

  log_error-Counts :
      (now : Time) (c : QueuedCall Payload Time) (f : Failure) (q : ApiQueue Payload Time Answer)
      → Counts 0 0 q (log_error now c f q)
  unfolding log_error record_error
  log_error-Counts now c f q =
      elim (Bool-cases (not c.suppress_error_logging && not (is_expected c f))) [
        | inl logs ↦ rw logs (record {
          submitted = refl;
          succeeded = refl;
          failed = omega arith;
          number = refl;
          entries = omega arith;
          config_same = refl;
          recent_fits = λ h. h;
          errors_fit = λ h. length-keep_last q.config.errors_size _;
        })
        | inr silent ↦ rw silent (record {
          submitted = refl;
          succeeded = refl;
          failed = omega arith;
          number = refl;
          entries = omega arith;
          config_same = refl;
          recent_fits = λ h. h;
          errors_fit = λ h. h;
        })
      ]

  give_up-Counts :
      (now : Time) (c : QueuedCall Payload Time) (f : Failure) (q : ApiQueue Payload Time Answer)
      → Counts 0 1 q (give_up now c f q)
  unfolding give_up record_recent
  give_up-Counts now c f q =
      let k =
        log_error-Counts now _ f
          (record q { counters = record q.counters { failed = q.counters.failed + 1 } }) in
      record {
        submitted = k.submitted;
        succeeded = k.succeeded;
        failed = omega (arith, k.failed);
        number = k.number;
        entries = k.entries;
        config_same = k.config_same;
        recent_fits = λ h. length-keep_last _ _;
        errors_fit = k.errors_fit;
      }

  module _ (s : System Payload Time Answer) (v : IsAccounted s) where
    submits_accounts : (now : Time) (x : Submission Payload) → IsAccounted (step (submits now x) s)
    unfolding step submit register
    submits_accounts now x = ground (
      arith,
      enqueue-Counts (new_call now s.queue.next_seq s.queue.config.max_attempts x)
          (register s.queue),
    )

    takes_accounts : s.phase ≡ idle → IsAccounted (moved s (take s.queue))
    unfolding moved
    takes_accounts p = elim (take-cases s.queue) [
      | inl nothing ↦ rw nothing (ground (arith, ap busy p))
      | inr (c, cs, first, found) ↦ rw found (ground (arith, ap busy p, ap length first))
    ]

    answers_accounts :
        (now : Time) (c : QueuedCall Payload Time) (o : Outcome Answer)
        → s.phase ≡ invoking c
        → IsAccounted (works (answers now o) (invoking c) s)
    unfolding works moved finish handle_failure record_recent
    answers_accounts now c (Outcome.returned a) p = ground (
      arith,
      ap busy p,
      length-keep_last s.queue.config.recent_size (
          s.queue.recent
          ++ task_view (record c { status = QueueStatus.done; finished_at = some now }) ∷ []),
    )
    answers_accounts now c (Outcome.raised f) p = elim (Bool-cases (is_rate_limit f)) [
      | inl limited ↦ rw limited (ground (arith, ap busy p))
      | inr other ↦ rw other (elim (Bool-cases (is_retriable c f)) [
        | inl again ↦ rw again (
            ground (
              arith,
              ap busy p,
              enqueue-Counts c (record s.queue {
                running_call = none;
                counters = record s.queue.counters { retried = s.queue.counters.retried + 1 };
              }),
            ))
        | inr gives_up ↦ rw gives_up (
            ground
              (arith, ap busy p, give_up-Counts now c f (record s.queue { running_call = none })))
      ])
    ]

    works_accounts :
        (e : Event Payload Time Answer) (p : Phase Payload Time Answer)
        → s.phase ≡ p
        → IsAccounted (works e p s)
    unfolding works moved begin resume
    works_accounts takes idle p = takes_accounts p
    works_accounts (begins now) (held c) p = ground (arith, ap busy p)
    works_accounts (answers now o) (invoking c) p = answers_accounts now c o p
    works_accounts resumes (cooling c) p = ground (arith, ap busy p, enqueue-Counts c s.queue)
    works_accounts e q p = v

    dropped_accounts :
        (p : Phase Payload Time Answer)
        → s.phase ≡ p
        → IsAccounted (dropped p (record s { queue = stop s.queue }))
    unfolding dropped stop
    dropped_accounts idle p = ground (arith, ap busy p)
    dropped_accounts q p = ground (arith, ap busy p)

    step_accounts : (e : Event Payload Time Answer) → IsAccounted (step e s)
    unfolding step start clear_errors
    step_accounts (submits now x) = submits_accounts now x
    step_accounts (cancels m) = ground arith
    step_accounts clears = ground arith
    step_accounts starts = ground arith
    step_accounts stops = dropped_accounts s.phase refl
    step_accounts e = works_accounts e s.phase refl

  initial_accounts : (config : Config) → IsAccounted (initial config)
  initial_accounts config = ground arith

  -- From an empty queue on, whatever happens: the calls submitted are as many as those succeeded,
  -- failed, queued, in the worker's hands and dropped by a stop; those succeeded and failed are the
  -- ones that are done; and neither ring buffer is longer than its size.
  pub run-IsAccounted :
      (config : Config) (es : List (Event Payload Time Answer))
      → IsAccounted (run es (initial config))
  run-IsAccounted config es =
      run_induction IsAccounted (λ e s v. step_accounts s v e) es (initial config)
        (initial_accounts config)
