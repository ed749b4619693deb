-- ===== src/Queue/Retries.antt =====
-- Which calls are tried again (src/core/api_queue.py): a write and a probe never after a failure
-- that counts, and a read no more than `max_attempts` times.
use igthon.Prelude.{◌≤◌, ◌<◌, ◌≡◌, ◌⊎◌, Bool, true, str_eq, not, ◌&&◌, All}
use igthon.Queue.Call.{QueuedCall}
use igthon.Queue.{Phase, idle, held, invoking, cooling}
use igthon.Queue.Trace.{System}

module _ {Payload Time : Type 0} where
  -- A read that is no probe.
  abbrev pub is_repeatable : QueuedCall Payload Time → Bool
  is_repeatable c = str_eq c.method "GET" && not c.suppress_error_logging

  -- The strikes of a call that waits: none, or those of a read, fewer than it may have.
  abbrev pub Waits : QueuedCall Payload Time → Type 0
  Waits c = (c.attempts ≡ 0) ⊎ ((is_repeatable c ≡ true) × (c.attempts < c.max_attempts))

  -- And of a call that the client has: this is the first, or one of a read's.
  abbrev pub Runs : QueuedCall Payload Time → Type 0
  Runs c =
      (c.attempts ≡ 1)
      ⊎ ((is_repeatable c ≡ true) × (0 < c.attempts) × (c.attempts ≤ c.max_attempts))

module _ {Payload Time Answer : Type 0} where
  abbrev pub Fits : Phase Payload Time Answer → Type 0
  Fits idle = Unit
  Fits (held c) = Waits c
  Fits (invoking c) = Runs c
  Fits (cooling c) = Waits c

  pub record IsLimited (s : System Payload Time Answer) : Type 0 where
    pub queued : All Waits s.queue.queue
    pub in_hand : Fits s.phase
