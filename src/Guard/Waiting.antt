-- ===== src/Guard/Waiting.antt =====
-- The sleeps that the guard computes are long enough (src/core/api_guard.py): a task that sleeps
-- for the time that a round says, while no other task claims a slot, gets through.
use igthon.Prelude.{
  ℕ, ◌+◌, ◌-◌, ◌≤◌, ◌<◌, ◌≡◌, false, none, some, List, [], ◌∷◌, arith, length, max, List-cases,
  Option-cases, refl, le_or_lt, inl, inr, ap, ◌∙◌,
}
use igthon.Guard.{
  Guard, Now, minute, prune_list, prune, blocked_until, headroom, wait_until_ready, sleep, granted,
  unblock,
}
use igthon.Guard.Loops.{wait_until_ready_loop, Slept}
use igthon.Guard.Counts.{length-prune-le}

prune_first :
    (now later t : ℕ) (ts ts' : List ℕ)
    → prune_list now ts ≡ t ∷ ts'
    → t + minute < later
    → length (prune_list later (prune_list now ts)) < length ts
unfolding prune_list
prune_first now later t ts ts' e h =
    rw e (ground (arith, length-prune-le later ts', length-prune-le now ts, ap length e))

headroom_lets_through :
    (now : ℕ) (g : Guard)
    → length (prune_list now g.timestamps) < g.max_per_minute
    → headroom now g ≡ (granted, prune now g)
unfolding headroom
headroom_lets_through now g h = ground arith

-- With no room in the minute a round sleeps until the oldest call has aged out.
headroom_sleeps :
    (now t : ℕ) (ts : List ℕ) (g : Guard)
    → g.max_per_minute ≤ length (prune_list now g.timestamps)
    → prune_list now g.timestamps ≡ t ∷ ts
    → headroom now g ≡ (sleep (max 100 (t + minute + 10 - now)), prune now g)
unfolding headroom
headroom_sleeps now t ts g h e = rw e (ground arith)

unblocked_round :
    (now : Now) (g : Guard) → g.blocked ≡ false → wait_until_ready now g ≡ headroom now.mono g
unfolding wait_until_ready
unblocked_round now g h = ground arith

blocked_round :
    (now : Now) (g : Guard) (until : ℕ)
    → blocked_until g ≡ some until
    → now.wall < until
    → wait_until_ready now g ≡ (sleep (max 100 (until + 10 - now.wall)), g)
unfolding wait_until_ready
blocked_round now g until b h = ground arith

ended_round :
    (now : Now) (g : Guard) (until : ℕ)
    → blocked_until g ≡ some until
    → until ≤ now.wall
    → wait_until_ready now g ≡ headroom now.mono (unblock g)
unfolding wait_until_ready
ended_round now g until b h = ground arith

loop_granted :
    (now : Now) (rest : List Now) (g g' : Guard)
    → wait_until_ready now g ≡ (granted, g')
    → wait_until_ready_loop (now ∷ rest) g ≡ some g'
unfolding wait_until_ready_loop
loop_granted now rest g g' e = ground (arith, e)

loop_sleeps :
    (now : Now) (rest : List Now) (g g' : Guard) (d : ℕ)
    → wait_until_ready now g ≡ (sleep d, g')
    → wait_until_ready_loop (now ∷ rest) g ≡ wait_until_ready_loop rest g'
unfolding wait_until_ready_loop
loop_sleeps now rest g g' d e = ground (arith, e)

-- From a round with no block, two rounds are enough. `h` is the guard that the round reads.
two_rounds :
    (n n' : Now) (rest : List Now) (g h : Guard)
    → wait_until_ready n g ≡ headroom n.mono h
    → h.blocked ≡ false
    → 0 < h.max_per_minute
    → length h.timestamps ≤ h.max_per_minute
    → Slept (wait_until_ready n g).0 n n'
    → (g' : Guard) × (wait_until_ready_loop (n ∷ n' ∷ rest) g ≡ some g')
two_rounds n n' rest g h e open_ pos room slept =
    elim (le_or_lt h.max_per_minute (length (prune_list n.mono h.timestamps))) [
      | inr less ↦ (p, loop_granted n (n' ∷ rest) g p (e ∙ headroom_lets_through n.mono h less))
      | inl full ↦ elim (List-cases (prune_list n.mono h.timestamps)) [
        | inl empty ↦ absurd (omega (arith, ap length empty))
        | inr (t, ts, first) ↦
            let asleep = e ∙ headroom_sleeps n.mono t ts h full first in
            let awake : Slept (sleep (max 100 (t + minute + 10 - n.mono))) n n' =
              rw asleep at slept in
            let fits : length (prune_list n'.mono p.timestamps) < p.max_per_minute =
              unfold prune in
              omega (
                arith,
                prune_first n.mono n'.mono t h.timestamps ts first (omega (arith, awake.0)),
              ) in
            (
              prune n'.mono p,
              loop_sleeps n (n' ∷ rest) g p (max 100 (t + minute + 10 - n.mono)) asleep
                  ∙ loop_granted n' rest p (prune n'.mono p) (
                      unblocked_round n' p (unfold prune in open_)
                      ∙ headroom_lets_through n'.mono p fits),
            )
      ]
    ]
  where
    p : Guard
    p = prune n.mono h

-- For a guard with a positive limit, with no more timestamps than that, and which is not blocked
-- unless it has the moment at which its block ends, the loop of `wait_until_ready` returns within
-- three rounds, if each sleep lasts as long as its round asked and no other task touches the guard.
pub wait_until_ready_loop-returns :
    (n n' n'' : Now) (g : Guard)
    → 0 < g.max_per_minute
    → length g.timestamps ≤ g.max_per_minute
    → (blocked_until g ≡ none → g.blocked ≡ false)
    → Slept (wait_until_ready n g).0 n n'
    → Slept (wait_until_ready n' (wait_until_ready n g).1).0 n' n''
    → (g' : Guard) × (wait_until_ready_loop (n ∷ n' ∷ n'' ∷ []) g ≡ some g')
unfolding unblock
wait_until_ready_loop-returns n n' n'' g pos room known s s' =
    elim (Option-cases (blocked_until g)) [
      | inl open_ ↦
          two_rounds n n' (n'' ∷ []) g g (unblocked_round n g (known open_)) (known open_) pos room
            s
      | inr (until, b) ↦ elim (le_or_lt until n.wall) [
        | inl ended ↦
            two_rounds n n' (n'' ∷ []) g (unblock g) (ended_round n g until b ended) refl pos room s
        | inr waiting ↦
            let asleep = blocked_round n g until b waiting in
            let awake : Slept (sleep (max 100 (until + 10 - n.wall))) n n' = rw asleep at s in
            let (g', e) =
              two_rounds n' n'' [] g (unblock g) (ended_round n' g until b (omega (arith, awake.1)))
                refl pos room (rw asleep at s') in
            (g', loop_sleeps n (n' ∷ n'' ∷ []) g g (max 100 (until + 10 - n.wall)) asleep ∙ e)
      ]
    ]
