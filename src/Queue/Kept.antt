-- ===== src/Queue/Kept.antt =====
-- What giving a call up leaves alone (src/core/api_queue.py).
use igthon.Prelude.{◌≡◌, refl, not, ◌&&◌, Bool-cases, inl, inr}
use igthon.Queue.Call.{QueuedCall, Failure}
use igthon.Queue.Entries.{is_expected}
use igthon.Queue.{ApiQueue, give_up, log_error, record_error, record_recent}

module _ {Payload Time Answer : Type 0} where
  log_error_kept :
      (now : Time) (c : QueuedCall Payload Time) (f : Failure) (q : ApiQueue Payload Time Answer)
      → ((log_error now c f q).queue ≡ q.queue)
        × ((log_error now c f q).pending_calls ≡ q.pending_calls)
        × ((log_error now c f q).next_seq ≡ q.next_seq)
  unfolding log_error record_error
  log_error_kept now c f q =
      elim (Bool-cases (not c.suppress_error_logging && not (is_expected c f))) [
        | inl logs ↦ rw logs (refl, refl, refl)
        | inr silent ↦ rw silent (refl, refl, refl)
      ]

  pub give_up_kept :
      (now : Time) (c : QueuedCall Payload Time) (f : Failure) (q : ApiQueue Payload Time Answer)
      → ((give_up now c f q).queue ≡ q.queue)
        × ((give_up now c f q).pending_calls ≡ q.pending_calls)
        × ((give_up now c f q).next_seq ≡ q.next_seq)
  unfolding give_up record_recent
  give_up_kept now c f q = log_error_kept now _ f _
