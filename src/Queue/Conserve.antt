-- ===== src/Queue/Conserve.antt =====
-- No call is lost or doubled (src/core/api_queue.py).
use igthon.Prelude.{
  ℕ, zero, suc, ◌+◌, ◌≤◌, ◌<◌, ◌≡◌, refl, none, List, ◌∷◌, ◌==◌, ltb, Bool-cases, List-cases, ap,
  ◌∙◌, inl, inr, if◌then◌else◌, arith,
}
use igthon.Queue.Call.{QueueStatus, QueuedCall, Outcome}
use igthon.Queue.Submit.{Submission, new_call}
use igthon.Queue.Entries.{is_rate_limit, is_retriable}
use igthon.Queue.Kept.{give_up_kept}
use igthon.Queue.Counts.{count, calls, calls-put_call, calls-set_pending, calls-pop_pending}
use igthon.Queue.{
  Config, ApiQueue, Phase, idle, held, invoking, cooling, submit, start, stop, take, begin, finish,
  handle_failure, record_recent, register, resume, clear_errors, enqueue,
}
use igthon.Queue.Trace.{
  System, Event, submits, takes, begins, answers, resumes, cancels, clears, starts, stops, step,
  run, run_induction, initial, works, moved, dropped,
}

-- One for a number that was given out, and zero for any other.
abbrev pub issued : ℕ → ℕ → ℕ
issued zero next = 0
issued (suc n) next = if ltb (suc n) next then 1 else 0

pub issued_next :
    (n next : ℕ) → 0 < next → issued n (next + 1) ≡ (if next == n then 1 else 0) + issued n next
issued_next zero next h = ground arith
issued_next (suc n) next h = ground arith

pub issued_self : (next : ℕ) → issued next next ≡ 0
issued_self zero = refl
issued_self (suc n) = ground arith

pub issued-le : (n next : ℕ) → issued n next ≤ 1
issued-le zero next = omega arith
issued-le (suc n) next = ground arith

module _ {Payload Time Answer : Type 0} where
  -- How often the worker has a call of the number in its hands, and holds it for the guard.
  abbrev pub in_hand : ℕ → Phase Payload Time Answer → ℕ
  in_hand n idle = 0
  in_hand n (held c) = if c.seq == n then 1 else 0
  in_hand n (invoking c) = if c.seq == n then 1 else 0
  in_hand n (cooling c) = if c.seq == n then 1 else 0

  abbrev pub on_hold : ℕ → Phase Payload Time Answer → ℕ
  on_hold n (held c) = if c.seq == n then 1 else 0
  on_hold n _ = 0

  -- Each number that was given out is in one place: it waits in the queue, is in the worker's
  -- hands, is done, or was dropped by a stop. And the pending calls are those that wait or are held.
  pub record IsConserved (n : ℕ) (s : System Payload Time Answer) : Type 0 where
    pub placed :
        calls n s.queue.queue + in_hand n s.phase + count n s.done + count n s.lost
        ≡ issued n s.queue.next_seq
    pub pending :
        calls n s.queue.pending_calls ≡ calls n s.queue.queue + on_hold n s.phase + count n s.stale
    pub counting : 0 < s.queue.next_seq
    pub stale_lost : count n s.stale ≤ count n s.lost

  enqueue-conserves :
      (n : ℕ) (c : QueuedCall Payload Time) (q : ApiQueue Payload Time Answer)
      → calls c.seq q.pending_calls ≡ 0
      → (calls n (enqueue c q).queue ≡ calls n (c ∷ q.queue))
        × (calls n (enqueue c q).pending_calls ≡ calls n (c ∷ q.pending_calls))
        × ((enqueue c q).next_seq ≡ q.next_seq)
  unfolding enqueue
  enqueue-conserves n c q h =
      let c' : QueuedCall Payload Time = record c { status = QueueStatus.pending } in
      (calls-put_call n c' q.queue, calls-set_pending n c' q.pending_calls h, refl)

  on_hold-le : (n : ℕ) (p : Phase Payload Time Answer) → on_hold n p ≤ in_hand n p
  on_hold-le n (held c) = omega arith
  on_hold-le n p = omega arith

  module _ (n : ℕ) (s : System Payload Time Answer) (v : (m : ℕ) → IsConserved m s) where
    -- A number of which the worker has the call, or that is new, is not pending.
    absent :
        (m : ℕ)
        → issued m s.queue.next_seq ≤ in_hand m s.phase
        → (calls m s.queue.queue ≡ 0)
          × (count m s.lost ≡ 0)
          × (count m s.stale ≡ 0)
          × (calls m s.queue.pending_calls ≡ on_hold m s.phase)
    absent m h = omega (arith, (v m).placed, (v m).pending, (v m).stale_lost)

    submits_conserves :
        (now : Time) (x : Submission Payload) → IsConserved n (step (submits now x) s)
    unfolding step submit new_call register
    submits_conserves now x =
        let c = new_call now s.queue.next_seq s.queue.config.max_attempts x in
        let new = issued_self s.queue.next_seq in
        let none_there = absent s.queue.next_seq (omega (arith, new)) in
        let (q, p, k) = enqueue-conserves n c (register s.queue) (
          omega (
            arith,
            none_there.3,
            (v s.queue.next_seq).placed,
            on_hold-le s.queue.next_seq s.phase,
            new,
          )) in
        ground (arith, v n, q, p, k, issued_next n s.queue.next_seq (v n).counting)

    -- A call that leaves the worker's hands for the queue.
    requeues :
        (c : QueuedCall Payload Time) (q : ApiQueue Payload Time Answer)
        → ((m : ℕ) → in_hand m s.phase ≡ (if c.seq == m then 1 else 0))
        → ((m : ℕ) → on_hold m s.phase ≡ 0)
        → q.queue ≡ s.queue.queue
        → q.pending_calls ≡ s.queue.pending_calls
        → q.next_seq ≡ s.queue.next_seq
        → IsConserved n (record s { queue = enqueue c q; phase = idle })
    requeues c q mine free eq ep en =
        let one : in_hand c.seq s.phase ≡ 1 = mine c.seq ∙ ground arith in
        let away = absent c.seq (omega (arith, one, issued-le c.seq s.queue.next_seq)) in
        let pending_none = ap (calls c.seq) ep ∙ away.3 ∙ free c.seq in
        ground (arith, v n, mine n, free n, eq, ep, en, enqueue-conserves n c q pending_none)

    takes_conserves : s.phase ≡ idle → IsConserved n (moved s (take s.queue))
    unfolding moved take
    takes_conserves p = elim (List-cases s.queue.queue) [
      | inl empty ↦ ground (arith, v n, ap (in_hand n) p, ap (on_hold n) p, empty)
      | inr (c, cs, first) ↦
          ground (arith, v n, ap (in_hand n) p, ap (on_hold n) p, first, ap (calls n) first)
    ]

    begins_conserves :
        (now : Time) (c : QueuedCall Payload Time)
        → s.phase ≡ held c
        → IsConserved n (moved s (begin now c s.queue))
    unfolding moved begin
    begins_conserves now c p = ground (
      arith,
      v n,
      v c.seq,
      ap (in_hand n) p,
      ap (on_hold n) p,
      ap (in_hand c.seq) p,
      ap (on_hold c.seq) p,
      issued-le c.seq s.queue.next_seq,
      calls-pop_pending n c.seq s.queue.pending_calls,
    )

    resumes_conserves :
        (c : QueuedCall Payload Time)
        → s.phase ≡ cooling c
        → IsConserved n (moved s (resume c s.queue))
    unfolding moved resume
    resumes_conserves c p =
        requeues c s.queue (λ m. ap (in_hand m) p) (λ m. ap (on_hold m) p) refl refl refl

    answers_conserves :
        (now : Time) (c : QueuedCall Payload Time) (o : Outcome Answer)
        → s.phase ≡ invoking c
        → IsConserved n (works (answers now o) (invoking c) s)
    unfolding works moved finish handle_failure record_recent
    answers_conserves now c (Outcome.returned a) p =
        ground (arith, v n, ap (in_hand n) p, ap (on_hold n) p)
    answers_conserves now c (Outcome.raised f) p = elim (Bool-cases (is_rate_limit f)) [
      | inl limited ↦ rw limited (ground (arith, v n, ap (in_hand n) p, ap (on_hold n) p))
      | inr other ↦ rw other (elim (Bool-cases (is_retriable c f)) [
        | inl again ↦
            rw again (requeues c _ (λ m. ap (in_hand m) p) (λ m. ap (on_hold m) p) refl refl refl)
        | inr gives_up ↦ rw gives_up (
            ground (
              arith,
              v n,
              ap (in_hand n) p,
              ap (on_hold n) p,
              give_up_kept now c f (record s.queue { running_call = none }),
            ))
      ])
    ]

    stops_conserves :
        (p : Phase Payload Time Answer)
        → s.phase ≡ p
        → IsConserved n (dropped p (record s { queue = stop s.queue }))
    unfolding dropped stop
    stops_conserves idle p = ground (arith, v n, ap (in_hand n) p, ap (on_hold n) p)
    stops_conserves (held c) p = ground (arith, v n, ap (in_hand n) p, ap (on_hold n) p)
    stops_conserves (invoking c) p = ground (arith, v n, ap (in_hand n) p, ap (on_hold n) p)
    stops_conserves (cooling c) p = ground (arith, v n, ap (in_hand n) p, ap (on_hold n) p)

    works_conserves :
        (e : Event Payload Time Answer) (p : Phase Payload Time Answer)
        → s.phase ≡ p
        → IsConserved n (works e p s)
    unfolding works
    works_conserves takes idle p = takes_conserves p
    works_conserves (begins now) (held c) p = begins_conserves now c p
    works_conserves (answers now o) (invoking c) p = answers_conserves now c o p
    works_conserves resumes (cooling c) p = resumes_conserves c p
    works_conserves e q p = v n

    pub step_conserves : (e : Event Payload Time Answer) → IsConserved n (step e s)
    unfolding step start clear_errors
    step_conserves (submits now x) = submits_conserves now x
    step_conserves (cancels m) = ground (arith, v n)
    step_conserves clears = ground (arith, v n)
    step_conserves starts = ground (arith, v n)
    step_conserves stops = stops_conserves s.phase refl
    step_conserves e = works_conserves e s.phase refl

  pub initial_conserves : (config : Config) (n : ℕ) → IsConserved n (initial config)
  initial_conserves config zero = ground arith
  initial_conserves config (suc n) = ground arith

  -- Whatever the callers, the worker and the client do, in whatever order, from an empty queue on:
  -- every call that was submitted is in exactly one place (waiting, in the worker's hands, done, or
  -- dropped by a stop), a number that was not given out is in none, and the pending calls are those
  -- that wait, the one that is held for the guard and those that a stop left there.
  pub run-IsConserved :
      (config : Config) (es : List (Event Payload Time Answer)) (n : ℕ)
      → IsConserved n (run es (initial config))
  run-IsConserved config es =
      run_induction (λ s. (m : ℕ) → IsConserved m s) (λ e s v m. step_conserves m s v e) es
        (initial config) (initial_conserves config)
