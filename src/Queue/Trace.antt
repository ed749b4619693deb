-- ===== src/Queue/Trace.antt =====
-- The queue, its worker and its callers, in any interleaving (src/core/api_queue.py): the worker
-- gives way at each of its waits, where callers submit calls, cancel what they wait for, clear the
-- errors, and start and stop the worker. `done` and `lost` record the numbers of the calls that the
-- worker has finished and that a stop has dropped.
use igthon.Prelude.{ℕ, Bool, true, false, not, ◌&&◌, none, List, [], ◌∷◌, if◌then◌else◌}
use igthon.Queue.Call.{QueuedCall, Outcome}
use igthon.Queue.Submit.{Submission}
use igthon.Queue.Entries.{cancelled, settle, is_rate_limit, is_retriable}
use igthon.Queue.{
  Config, ApiQueue, Phase, idle, held, invoking, cooling, submit, start, stop, take, begin, finish,
  resume, clear_errors,
}

module _ (Payload Time Answer : Type 0) where
  pub record System : Type 0 where
    pub queue : ApiQueue Payload Time Answer
    pub phase : Phase Payload Time Answer
    pub done : List ℕ
    pub lost : List ℕ
    pub stale : List ℕ

  pub data Event : Type 0 where
    submits : Time → Submission Payload → Event
    takes : Event
    begins : Time → Event
    answers : Time → Outcome Answer → Event
    resumes : Event
    cancels : ℕ → Event
    clears starts stops : Event

module _ {Payload Time Answer : Type 0} where
  -- Does an answer end its call?
  abbrev pub ends : QueuedCall Payload Time → Outcome Answer → Bool
  ends c (Outcome.returned a) = true
  ends c (Outcome.raised f) = not (is_rate_limit f) && not (is_retriable c f)

  unfoldable pub moved :
      System Payload Time Answer
      → Phase Payload Time Answer × ApiQueue Payload Time Answer
      → System Payload Time Answer
  moved s r = record s { phase = r.0; queue = r.1 }

  -- A stop cancels the worker where it waits: the call in its hands is dropped, and one that it
  -- held for the guard stays among the pending ones.
  unfoldable pub dropped :
      Phase Payload Time Answer → System Payload Time Answer → System Payload Time Answer
  dropped idle s = s
  dropped (held c) s = record s { phase = idle; lost = c.seq ∷ s.lost; stale = c.seq ∷ s.stale }
  dropped (invoking c) s = record s { phase = idle; lost = c.seq ∷ s.lost }
  dropped (cooling c) s = record s { phase = idle; lost = c.seq ∷ s.lost }

  unfoldable pub works :
      Event Payload Time Answer
      → Phase Payload Time Answer
      → System Payload Time Answer
      → System Payload Time Answer
  works takes idle s = moved s (take s.queue)
  works (begins now) (held c) s = moved s (begin now c s.queue)
  works (answers now o) (invoking c) s = record (moved s (finish now c o s.queue)) {
    done = if ends c o then c.seq ∷ s.done else s.done;
  }
  works resumes (cooling c) s = moved s (resume c s.queue)
  works e p s = s

  unfoldable pub step :
      Event Payload Time Answer → System Payload Time Answer → System Payload Time Answer
  step (submits now x) s = record s { queue = submit now x s.queue }
  step (cancels n) s = record s {
    queue = record s.queue { futures = settle n cancelled s.queue.futures };
  }
  step clears s = record s { queue = clear_errors s.queue }
  step starts s = record s { queue = start s.queue }
  step stops s = dropped s.phase (record s { queue = stop s.queue })
  step e s = works e s.phase s

  unfoldable pub run :
      List (Event Payload Time Answer) → System Payload Time Answer → System Payload Time Answer
  run [] s = s
  run (e ∷ es) s = run es (step e s)

  abbrev pub initial : Config → System Payload Time Answer
  initial config = record {
    queue = record {
      config = config;
      queue = [];
      next_seq = 1;
      has_task = false;
      running = false;
      running_call = none;
      counters = record { enqueued = 0; succeeded = 0; failed = 0; retried = 0; rate_limited = 0 };
      recent = [];
      pending_calls = [];
      errors = [];
      futures = [];
    };
    phase = idle;
    done = [];
    lost = [];
    stale = [];
  }

  module _ (P : System Payload Time Answer → Type 0) where
    -- What every step keeps, a run keeps.
    pub run_induction :
        ((e : Event Payload Time Answer) (s : System Payload Time Answer) → P s → P (step e s))
        → (es : List (Event Payload Time Answer)) (s : System Payload Time Answer) → P s
        → P (run es s)
    unfolding run
    run_induction keep [] s h = h
    run_induction keep (e ∷ es) s h = run_induction keep es (step e s) (keep e s h)
