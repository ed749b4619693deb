-- ===== src/Queue/Counts.antt =====
-- Counting the calls of a number in the containers of the queue (src/core/api_queue.py).
use igthon.Prelude.{ℕ, ◌+◌, ◌≡◌, refl, List, [], ◌∷◌, ◌==◌, if◌then◌else◌, arith}
use igthon.Queue.Call.{QueuedCall}
use igthon.Queue.Entries.{put_call, set_pending, pop_pending}

-- How often a number occurs in a list of numbers.
abbrev pub count : ℕ → List ℕ → ℕ
count n [] = 0
count n (m ∷ ms) = (if m == n then 1 else 0) + count n ms

module _ {Payload Time : Type 0} where
  -- How many calls have a number.
  abbrev pub calls : ℕ → List (QueuedCall Payload Time) → ℕ
  calls n [] = 0
  calls n (c ∷ cs) = (if c.seq == n then 1 else 0) + calls n cs

  pub calls-put_call :
      (n : ℕ) (c : QueuedCall Payload Time) (cs : List (QueuedCall Payload Time))
      → calls n (put_call c cs) ≡ calls n (c ∷ cs)
  unfolding put_call
  calls-put_call n c [] = refl
  calls-put_call n c (d ∷ cs) = ground (arith, calls-put_call n c cs)

  -- A new number is added; one that is there is replaced.
  pub calls-set_pending :
      (n : ℕ) (c : QueuedCall Payload Time) (cs : List (QueuedCall Payload Time))
      → calls c.seq cs ≡ 0
      → calls n (set_pending c cs) ≡ calls n (c ∷ cs)
  unfolding set_pending
  calls-set_pending n c [] h = refl
  calls-set_pending n c (d ∷ cs) h = ground (arith, calls-set_pending n c cs)

  pub calls-pop_pending :
      (n m : ℕ) (cs : List (QueuedCall Payload Time))
      → calls n (pop_pending m cs) ≡ (if m == n then 0 else calls n cs)
  unfolding pop_pending
  calls-pop_pending n m [] = ground arith
  calls-pop_pending n m (d ∷ cs) = ground (arith, calls-pop_pending n m cs)
