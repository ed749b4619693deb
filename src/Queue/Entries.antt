-- ===== src/Queue/Entries.antt =====
-- The containers of the queue, and the tests of `_handle_failure` (src/core/api_queue.py).
use igthon.Prelude.{
  ℕ, Bool, true, false, not, ◌&&◌, ◌||◌, none, some, List, [], ◌∷◌, ltb, leb, ◌==◌, if◌then◌else◌,
  contains, str_eq,
}
use igthon.Guard.{quota_exceeded_codes}
use igthon.Queue.Call.{QueuedCall, Failure, market_order_not_supported_code}

pub data Future (Answer : Type 0) : Type 0 where
  waiting cancelled : Future Answer
  result : Answer → Future Answer
  exception : Failure → Future Answer

module _ {Payload Time : Type 0} where
  -- The order of the entries `(priority, seq, call)`.
  abbrev pub comes_first : QueuedCall Payload Time → QueuedCall Payload Time → Bool
  comes_first c d = ltb c.priority d.priority || (c.priority == d.priority && leb c.seq d.seq)

  -- `put_nowait`
  unfoldable pub put_call :
      QueuedCall Payload Time → List (QueuedCall Payload Time) → List (QueuedCall Payload Time)
  put_call c [] = c ∷ []
  put_call c (d ∷ ds) = if comes_first c d then c ∷ d ∷ ds else d ∷ put_call c ds

  -- `pending_calls[call.seq] = call`, and `pending_calls.pop(seq, None)`
  unfoldable pub set_pending :
      QueuedCall Payload Time → List (QueuedCall Payload Time) → List (QueuedCall Payload Time)
  set_pending c [] = c ∷ []
  set_pending c (d ∷ ds) = if d.seq == c.seq then c ∷ ds else d ∷ set_pending c ds

  unfoldable pub pop_pending : ℕ → List (QueuedCall Payload Time) → List (QueuedCall Payload Time)
  pop_pending n [] = []
  pop_pending n (d ∷ ds) = if d.seq == n then pop_pending n ds else d ∷ pop_pending n ds

  -- `sorted(pending_calls.values(), key=(priority, seq))`
  unfoldable pub sort_calls : List (QueuedCall Payload Time) → List (QueuedCall Payload Time)
  unfolding put_call
  sort_calls [] = []
  sort_calls (c ∷ cs) = put_call c (sort_calls cs)

module _ {Answer : Type 0} where
  unfoldable pub settled : Future Answer → Future Answer → Future Answer
  settled f waiting = f
  settled f g = g

  -- `if not future.done(): future.set_...`
  unfoldable pub settle : ℕ → Future Answer → List (ℕ × Future Answer) → List (ℕ × Future Answer)
  unfolding settled
  settle n f [] = []
  settle n f ((m, g) ∷ fs) = if m == n then (m, settled f g) ∷ fs else (m, g) ∷ settle n f fs

-- The tests of `_handle_failure`.
unfoldable pub is_rate_limit : Failure → Bool
is_rate_limit f = f.is_runtime_error || contains quota_exceeded_codes f.ig_error_code

unfoldable pub is_transient : Failure → Bool
is_transient f = elim f.http_status [ none ↦ true | some status ↦ leb 500 status ]

module _ {Payload Time : Type 0} where
  unfoldable pub is_retriable : QueuedCall Payload Time → Failure → Bool
  unfolding is_transient
  is_retriable c f =
      str_eq c.method "GET"
      && not c.suppress_error_logging
      && is_transient f
      && ltb c.attempts c.max_attempts

  unfoldable pub is_expected : QueuedCall Payload Time → Failure → Bool
  is_expected c f =
      (c.expect_not_found && elim f.http_status [ none ↦ false | some status ↦ status == 404 ])
      || (c.expect_market_order_rejection && str_eq f.ig_error_code market_order_not_supported_code)
