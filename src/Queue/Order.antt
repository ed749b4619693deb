-- ===== src/Queue/Order.antt =====
-- Calls are served by priority, and in the order of their numbers within a priority
-- (src/core/api_queue.py).
use igthon.Prelude.{
  ◌≡◌, ◌⊎◌, refl, true, List, [], ◌∷◌, arith, All, Bool-cases, ◌<◌, ◌==◌, false, le_or_lt,
  List-cases, inl, inr, ap,
}
use igthon.Queue.Call.{QueuedCall, Outcome}
use igthon.Queue.Entries.{put_call, comes_first, is_rate_limit, is_retriable}
use igthon.Queue.Counts.{calls}
use igthon.Queue.Conserve.{issued-le, run-IsConserved}
use igthon.Queue.Kept.{give_up_kept}
use igthon.Queue.{
  Config, ApiQueue, Phase, idle, held, invoking, cooling, submit, start, stop, take, begin, finish,
  handle_failure, resume, clear_errors, enqueue, record_recent, register,
}
use igthon.Queue.Trace.{
  System, Event, submits, takes, begins, answers, resumes, cancels, clears, starts, stops, step,
  run, run_induction, initial, works, moved, dropped,
}

module _ {Payload Time : Type 0} where
  -- Each call comes before all that follow it.
  abbrev pub IsSorted : List (QueuedCall Payload Time) → Type 0
  IsSorted [] = Unit
  IsSorted (c ∷ cs) = All (λ d. comes_first c d ≡ true) cs × IsSorted cs

  All-put_call :
      (b c : QueuedCall Payload Time) (cs : List (QueuedCall Payload Time))
      → comes_first b c ≡ true
      → All (λ d. comes_first b d ≡ true) cs
      → All (λ d. comes_first b d ≡ true) (put_call c cs)
  unfolding put_call
  All-put_call b c [] h hs = (h, tt)
  All-put_call b c (d ∷ cs) h hs = elim (Bool-cases (comes_first c d)) [
    | inl before ↦ rw before (h, hs)
    | inr after ↦ rw after (hs.0, All-put_call b c cs h hs.1)
  ]

  -- What comes before the first of a sorted list comes before all of it.
  before_rest :
      (c d : QueuedCall Payload Time) (cs : List (QueuedCall Payload Time))
      → comes_first c d ≡ true
      → All (λ e. comes_first d e ≡ true) cs
      → All (λ e. comes_first c e ≡ true) cs
  before_rest c d [] h hs = tt
  before_rest c d (e ∷ cs) h hs = (ground (arith, hs.0), before_rest c d cs h hs.1)

  put_call-IsSorted :
      (c : QueuedCall Payload Time) (cs : List (QueuedCall Payload Time))
      → IsSorted cs
      → IsSorted (put_call c cs)
  unfolding put_call
  put_call-IsSorted c [] h = (tt, tt)
  put_call-IsSorted c (d ∷ cs) h = elim (Bool-cases (comes_first c d)) [
    | inl before ↦ rw before ((before, before_rest c d cs before h.0), h)
    | inr after ↦
        rw after (All-put_call d c cs (ground (arith, after)) h.0, put_call-IsSorted c cs h.1)
  ]

  -- A lower priority value, or the same one and a lower number.
  abbrev pub IsServedBefore : QueuedCall Payload Time → QueuedCall Payload Time → Type 0
  IsServedBefore c d = (c.priority < d.priority) ⊎ ((c.priority ≡ d.priority) × (c.seq < d.seq))

  comes_first-IsServedBefore_one :
      (c d : QueuedCall Payload Time)
      → comes_first c d ≡ true
      → d.seq == c.seq ≡ false
      → IsServedBefore c d
  comes_first-IsServedBefore_one c d h other = elim (le_or_lt d.priority c.priority) [
    | inr less ↦ inl less
    | inl more ↦ inr (ground arith, ground arith)
  ]

  comes_first-IsServedBefore :
      (c : QueuedCall Payload Time) (cs : List (QueuedCall Payload Time))
      → All (λ d. comes_first c d ≡ true) cs
      → calls c.seq cs ≡ 0
      → All (IsServedBefore c) cs
  comes_first-IsServedBefore c [] h alone = tt
  comes_first-IsServedBefore c (d ∷ cs) h alone = (
    comes_first-IsServedBefore_one c d h.0 (ground arith),
    comes_first-IsServedBefore c cs h.1 (ground arith),
  )

  -- What a step does to the entries: nothing, the first one is taken, or one is put in.
  data Change (cs ds : List (QueuedCall Payload Time)) : Type 0 where
    same : ds ≡ cs → Change cs ds
    taken : (c : QueuedCall Payload Time) → cs ≡ c ∷ ds → Change cs ds
    added : (c : QueuedCall Payload Time) → ds ≡ put_call c cs → Change cs ds

module _ {Payload Time Answer : Type 0} where
  finish-Change :
      (now : Time) (c : QueuedCall Payload Time) (o : Outcome Answer)
      (q : ApiQueue Payload Time Answer)
      → Change q.queue (finish now c o q).1.queue
  unfolding finish handle_failure record_recent enqueue
  finish-Change now c (Outcome.returned a) q = same refl
  finish-Change now c (Outcome.raised f) q = elim (Bool-cases (is_rate_limit f)) [
    | inl limited ↦ rw limited (same refl)
    | inr other ↦ rw other (elim (Bool-cases (is_retriable c f)) [
      | inl again ↦ rw again (added _ refl)
      | inr gives_up ↦ rw gives_up (same (give_up_kept now c f _).0)
    ])
  ]

  -- The worker takes nothing, or the first entry.
  pub take-cases :
      (q : ApiQueue Payload Time Answer)
      → (take q ≡ (idle, q))
        ⊎ ((c : QueuedCall Payload Time) × (cs : List (QueuedCall Payload Time)) × (q.queue
              ≡ c ∷ cs)
            × (take q ≡ (held c, record q { queue = cs })))
  unfolding take
  take-cases q = elim (List-cases q.queue) [
    | inl empty ↦ inl (ground (arith, empty))
    | inr (c, cs, first) ↦ elim (Bool-cases q.running) [
      | inl running ↦ inr (c, cs, first, ground (arith, first, running))
      | inr stopped ↦ inl (ground (arith, stopped))
    ]
  ]

  take-Change : (q : ApiQueue Payload Time Answer) → Change q.queue (take q).1.queue
  take-Change q = elim (take-cases q) [
    | inl none_taken ↦ rw none_taken (same refl)
    | inr (c, cs, first, found) ↦ rw found (taken c first)
  ]

  works-Change :
      (e : Event Payload Time Answer) (p : Phase Payload Time Answer)
      (s : System Payload Time Answer)
      → Change s.queue.queue (works e p s).queue.queue
  unfolding works moved begin resume enqueue
  works-Change takes idle s = take-Change s.queue
  works-Change (begins now) (held c) s = same refl
  works-Change (answers now o) (invoking c) s = finish-Change now c o s.queue
  works-Change resumes (cooling c) s = added _ refl
  works-Change e p s = same refl

  dropped_queue :
      (p : Phase Payload Time Answer) (s : System Payload Time Answer)
      → (dropped p s).queue ≡ s.queue
  unfolding dropped
  dropped_queue idle s = refl
  dropped_queue p s = refl

  step-Change :
      (e : Event Payload Time Answer) (s : System Payload Time Answer)
      → Change s.queue.queue (step e s).queue.queue
  unfolding step submit register enqueue start stop clear_errors
  step-Change (submits now x) s = added _ refl
  step-Change stops s = rw dropped_queue (same refl)
  step-Change starts s = elim (Bool-cases s.queue.has_task) [
    | inl on ↦ rw on (same refl)
    | inr off ↦ rw off (same refl)
  ]
  step-Change (cancels n) s = same refl
  step-Change clears s = same refl
  step-Change e s = works-Change e s.phase s

  step-IsSorted :
      (e : Event Payload Time Answer) (s : System Payload Time Answer)
      → IsSorted s.queue.queue
      → IsSorted (step e s).queue.queue
  step-IsSorted e s h = elim (step-Change e s) [
    | same eq ↦ rw eq h
    | taken c eq ↦ (rw eq at h).1
    | added c eq ↦ rw eq (put_call-IsSorted c s.queue.queue h)
  ]

  call_of : QueuedCall Payload Time → Phase Payload Time Answer → QueuedCall Payload Time
  call_of d (held c) = c
  call_of d p = d

  take_first :
      (q : ApiQueue Payload Time Answer) (c : QueuedCall Payload Time)
      → (take q).0 ≡ held c
      → q.queue ≡ c ∷ (take q).1.queue
  unfolding call_of
  take_first q c h = elim (take-cases q) [
    | inl none_taken ↦ absurd (ground (arith, none_taken))
    | inr (d, ds, first, found) ↦
        let same_call : d ≡ c = ap (call_of d) (rw found at h) in rw (found, ← same_call) first
  ]

  -- In every state that a new queue reaches, the call that the worker takes is one that waited, and
  -- exactly the others stay behind: each of them has a higher priority value, or the same one and a
  -- higher number.
  pub take-IsServedBefore :
      (config : Config) (es : List (Event Payload Time Answer)) (c : QueuedCall Payload Time)
      → let q = (run es (initial config)).queue in
        (take q).0 ≡ held c
        → (q.queue ≡ c ∷ (take q).1.queue) × All (IsServedBefore c) (take q).1.queue
  take-IsServedBefore config es c h =
      let s = run es (initial config) in
      let first = take_first s.queue c h in
      let sorted : IsSorted s.queue.queue =
        run_induction (λ s. IsSorted s.queue.queue) step-IsSorted es (initial config) tt in
      let v = run-IsConserved config es c.seq in
      (
        first,
        comes_first-IsServedBefore c (take s.queue).1.queue (rw first at sorted).0
            (ground (arith, v.placed, issued-le c.seq s.queue.next_seq, ap (calls c.seq) first)),
      )
