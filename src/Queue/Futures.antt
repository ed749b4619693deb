-- ===== src/Queue/Futures.antt =====
-- What the callers wait for (src/core/api_queue.py): a future is settled when the worker has
-- finished its call, once, and not before.
use igthon.Prelude.{
  ℕ, zero, suc, ◌+◌, ◌≡◌, refl, Option, none, some, not, ◌&&◌, List, [], ◌∷◌, ◌==◌, if◌then◌else◌,
  arith, Bool-cases, inl, inr, ap,
}
use igthon.Queue.Call.{QueuedCall, Outcome, Failure}
use igthon.Queue.Submit.{Submission}
use igthon.Queue.Entries.{
  Future, waiting, cancelled, result, exception, settle, settled, is_rate_limit, is_retriable,
  is_expected,
}
use igthon.Queue.Counts.{count}
use igthon.Queue.Kept.{give_up_kept}
use igthon.Queue.Conserve.{
  IsConserved, issued, issued_next, issued_self, issued-le, in_hand, step_conserves,
  initial_conserves,
}
use igthon.Queue.Order.{take-cases}
use igthon.Queue.{
  Config, ApiQueue, Phase, idle, held, invoking, cooling, submit, start, stop, take, begin, finish,
  handle_failure, resume, clear_errors, enqueue, give_up, log_error, record_error, record_recent,
  register,
}
use igthon.Queue.Trace.{
  System, Event, submits, takes, begins, answers, resumes, cancels, clears, starts, stops, step,
  run, run_induction, initial, works, moved, dropped,
}

module _ {Answer : Type 0} where
  abbrev pub future_of : ℕ → List (ℕ × Future Answer) → Option (Future Answer)
  future_of n [] = none
  future_of n ((m, f) ∷ fs) = if m == n then some f else future_of n fs

  -- The future of a number, by whether the number was given out and its call is done.
  abbrev pub Agrees : ℕ → ℕ → Option (Future Answer) → Type 0
  Agrees given finished none = given ≡ 0
  Agrees given finished (some waiting) = (given ≡ 1) × (finished ≡ 0)
  Agrees given finished (some cancelled) = given ≡ 1
  Agrees given finished (some (result a)) = (given ≡ 1) × (finished ≡ 1)
  Agrees given finished (some (exception f)) = (given ≡ 1) × (finished ≡ 1)

  settle_option : Future Answer → Option (Future Answer) → Option (Future Answer)
  settle_option f none = none
  settle_option f (some g) = some (settled f g)

  future_of-settle :
      (n m : ℕ) (f : Future Answer) (fs : List (ℕ × Future Answer))
      → future_of m (settle n f fs)
        ≡ (if n == m then settle_option f (future_of m fs) else future_of m fs)
  unfolding settle settle_option
  future_of-settle n m f [] = ground arith
  future_of-settle n m f ((k, g) ∷ fs) = ground (arith, future_of-settle n m f fs)

  cancel-Agrees :
      (given finished : ℕ) (o : Option (Future Answer))
      → Agrees given finished o
      → Agrees given finished (settle_option cancelled o)
  unfolding settle_option settled
  cancel-Agrees g d none h = h
  cancel-Agrees g d (some waiting) h = h.0
  cancel-Agrees g d (some cancelled) h = h
  cancel-Agrees g d (some (result a)) h = h
  cancel-Agrees g d (some (exception f)) h = h

  -- A call that is done now settles its future, unless the caller has cancelled it.
  result-Agrees :
      (a : Answer) (o : Option (Future Answer))
      → Agrees 1 0 o
      → Agrees 1 1 (settle_option (result a) o)
  unfolding settle_option settled
  result-Agrees a none h = h
  result-Agrees a (some waiting) h = (refl, refl)
  result-Agrees a (some cancelled) h = h
  result-Agrees a (some (result b)) h = absurd (omega (arith, h.1))
  result-Agrees a (some (exception f)) h = absurd (omega (arith, h.1))

  exception-Agrees :
      (e : Failure) (o : Option (Future Answer))
      → Agrees 1 0 o
      → Agrees 1 1 (settle_option (exception e) o)
  unfolding settle_option settled
  exception-Agrees e none h = h
  exception-Agrees e (some waiting) h = (refl, refl)
  exception-Agrees e (some cancelled) h = h
  exception-Agrees e (some (result b)) h = absurd (omega (arith, h.1))
  exception-Agrees e (some (exception f)) h = absurd (omega (arith, h.1))

module _ {Payload Time Answer : Type 0} where
  abbrev pub IsAnswered : ℕ → System Payload Time Answer → Type 0
  IsAnswered n s = Agrees (issued n s.queue.next_seq) (count n s.done) (future_of n s.queue.futures)

  log_error_futures :
      (now : Time) (c : QueuedCall Payload Time) (f : Failure) (q : ApiQueue Payload Time Answer)
      → (log_error now c f q).futures ≡ q.futures
  unfolding log_error record_error
  log_error_futures now c f q =
      elim (Bool-cases (not c.suppress_error_logging && not (is_expected c f))) [
        | inl logs ↦ rw logs refl
        | inr silent ↦ rw silent refl
      ]

  give_up_futures :
      (now : Time) (c : QueuedCall Payload Time) (f : Failure) (q : ApiQueue Payload Time Answer)
      → (give_up now c f q).futures ≡ settle c.seq (exception f) q.futures
  unfolding give_up record_recent
  give_up_futures now c f q = ap (settle c.seq (exception f)) (log_error_futures now _ f _)

  start_futures :
      (q : ApiQueue Payload Time Answer)
      → ((start q).futures ≡ q.futures) × ((start q).next_seq ≡ q.next_seq)
  unfolding start
  start_futures q = elim (Bool-cases q.has_task) [
    | inl on ↦ rw on (refl, refl)
    | inr off ↦ rw off (refl, refl)
  ]

  module _ (n : ℕ) (s : System Payload Time Answer) (k : (m : ℕ) → IsConserved m s)
      (v : (m : ℕ) → IsAnswered m s) where
    submits_answers : (now : Time) (x : Submission Payload) → IsAnswered n (step (submits now x) s)
    unfolding step submit register enqueue
    submits_answers now x = elim (Bool-cases (s.queue.next_seq == n)) [
      | inl new ↦ rw new (
        ground (arith, new, k n, issued_next n s.queue.next_seq (k n).counting, issued_self n),
        ground (arith, new, k n, issued_self n),
      )
      | inr old ↦ rw old (
          let same : issued n (s.queue.next_seq + 1) ≡ issued n s.queue.next_seq =
            ground (arith, old, issued_next n s.queue.next_seq (k n).counting) in
          rw same (v n))
    ]

    -- The worker is done with the call in its hands, and settles its future.
    closes :
        (c : QueuedCall Payload Time) (g : Future Answer)
        → ((o : Option (Future Answer)) → Agrees 1 0 o → Agrees 1 1 (settle_option g o))
        → in_hand n s.phase ≡ (if c.seq == n then 1 else 0)
        → Agrees
            (issued n s.queue.next_seq)
            (count n (c.seq ∷ s.done))
            (future_of n (settle c.seq g s.queue.futures))
    closes c g close mine = elim (Bool-cases (c.seq == n)) [
      | inl own ↦
          let one : in_hand n s.phase ≡ 1 = rw own at mine in
          let given : issued n s.queue.next_seq ≡ 1 =
            omega (arith, one, (k n).placed, issued-le n s.queue.next_seq) in
          let open_ : count n s.done ≡ 0 = omega (arith, one, (k n).placed, given) in
          let before : Agrees 1 0 (future_of n s.queue.futures) = rw (given, open_) at (v n) in
          rw (future_of-settle c.seq n g s.queue.futures, own, given, open_)
            (close (future_of n s.queue.futures) before)
      | inr other ↦
          let same : (if c.seq == n then 1 else 0) + count n s.done ≡ count n s.done =
            ground (arith, other) in
          rw (future_of-settle c.seq n g s.queue.futures, same, other) (v n)
    ]

    answers_answers :
        (now : Time) (c : QueuedCall Payload Time) (o : Outcome Answer)
        → s.phase ≡ invoking c
        → IsAnswered n (works (answers now o) (invoking c) s)
    unfolding works moved finish handle_failure record_recent enqueue
    answers_answers now c (Outcome.returned a) p =
        closes c (result a) (result-Agrees a) (ap (in_hand n) p)
    answers_answers now c (Outcome.raised f) p = elim (Bool-cases (is_rate_limit f)) [
      | inl limited ↦ rw limited (v n)
      | inr other ↦ rw other (elim (Bool-cases (is_retriable c f)) [
        | inl again ↦ rw again (v n)
        | inr gives_up ↦
            rw
              (
                gives_up,
                give_up_futures now c f (record s.queue { running_call = none }),
                (give_up_kept now c f (record s.queue { running_call = none })).2,
              )
              (closes c (exception f) (exception-Agrees f) (ap (in_hand n) p))
      ])
    ]

    takes_answers : IsAnswered n (moved s (take s.queue))
    unfolding moved
    takes_answers = elim (take-cases s.queue) [
      | inl nothing ↦ rw nothing (v n)
      | inr (c, cs, first, found) ↦ rw found (v n)
    ]

    works_answers :
        (e : Event Payload Time Answer) (p : Phase Payload Time Answer)
        → s.phase ≡ p
        → IsAnswered n (works e p s)
    unfolding works moved begin resume enqueue
    works_answers takes idle p = takes_answers
    works_answers (begins now) (held c) p = v n
    works_answers (answers now o) (invoking c) p = answers_answers now c o p
    works_answers resumes (cooling c) p = v n
    works_answers e q p = v n

    dropped_answers :
        (p : Phase Payload Time Answer)
        → IsAnswered n (dropped p (record s { queue = stop s.queue }))
    unfolding dropped stop
    dropped_answers idle = v n
    dropped_answers p = v n

    step_answers : (e : Event Payload Time Answer) → IsAnswered n (step e s)
    unfolding step clear_errors
    step_answers (submits now x) = submits_answers now x
    step_answers (cancels m) = elim (Bool-cases (m == n)) [
      | inl this ↦
          rw (future_of-settle m n cancelled s.queue.futures, this)
            (cancel-Agrees _ _ (future_of n s.queue.futures) (v n))
      | inr other ↦ rw (future_of-settle m n cancelled s.queue.futures, other) (v n)
    ]
    step_answers clears = v n
    step_answers starts = rw ((start_futures s.queue).0, (start_futures s.queue).1) (v n)
    step_answers stops = dropped_answers s.phase
    step_answers e = works_answers e s.phase refl

  -- From an empty queue on, whatever happens: a number that was not given out has no future, the
  -- future of a call that is not done waits or was cancelled by its caller, and that of a call that
  -- is done, done once, has its result or exception unless it was cancelled.
  pub run-IsAnswered :
      (config : Config) (es : List (Event Payload Time Answer)) (n : ℕ)
      → IsAnswered n (run es (initial config))
  run-IsAnswered config es n =
      (run_induction (λ s. ((m : ℕ) → IsConserved m s) × ((m : ℕ) → IsAnswered m s))
          (λ e s v. (λ m. step_conserves m s v.0 e, λ m. step_answers m s v.0 v.1 e)) es
          (initial config) (initial_conserves config, initial_answers)).1
        n
    where
      initial_answers : (m : ℕ) → IsAnswered m (initial config)
      initial_answers zero = refl
      initial_answers (suc m) = ground arith
