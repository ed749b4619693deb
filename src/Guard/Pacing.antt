-- ===== src/Guard/Pacing.antt =====
-- The pacing of `pre_request` (src/core/api_guard.py): one sleep is enough for the limit per second.
use igthon.Prelude.{
  ℕ, ◌+◌, ◌≤◌, ◌<◌, ◌≡◌, none, some, List, [], ◌∷◌, arith, Option, Option-cases, inl, inr, ap, ◌∙◌,
  false, true, Bool-cases, ◌≢◌, refl,
}
use igthon.Guard.{
  Guard, Now, second, prune_list, count_within, oldest_within, auto_unblock_if_ready, Round, admit,
  pre_request, sleep, granted, refused_minute, refused_blocked, failed,
}
use igthon.Guard.Loops.{pre_request_loop, Slept}
use igthon.Guard.Counts.{count_within-lt, count_within-prune, count_within-zero, length-prune-le}

-- A request that finds no block and room in the minute waits at most once.
admit_twice :
    (now later : ℕ) (g : Guard) (d : ℕ)
    → count_within second now g.timestamps ≤ g.max_per_second
    → 0 < g.max_per_second
    → (admit now g).0 ≡ sleep d
    → now + d ≤ later
    → (admit later (admit now g).1).0 ≡ granted
unfolding admit
admit_twice now later g d few pos e slept =
    elim (Option-cases (oldest_within second now (prune_list now g.timestamps))) [
      | inl nothing ↦
          ground (arith, count_within-zero second now (prune_list now g.timestamps) nothing)
      | inr (t, found) ↦ ground (
        arith,
        found,
        count_within-lt second now later t (prune_list now g.timestamps) found,
        count_within-prune second now now g.timestamps,
        count_within-prune second later later (prune_list now g.timestamps),
        length-prune-le later (prune_list now g.timestamps),
      )
    ]

-- With a positive limit per second a round never fails.
admit-ne-failed : (now : ℕ) (g : Guard) → 0 < g.max_per_second → (admit now g).0 ≢ failed
unfolding admit
admit-ne-failed now g pos =
    elim (Option-cases (oldest_within second now (prune_list now g.timestamps))) [
      | inl nothing ↦
          ground (arith, count_within-zero second now (prune_list now g.timestamps) nothing)
      | inr (t, found) ↦ ground (arith, found)
    ]

-- What unblocking leaves alone, and admitting too.
unblocked_same :
    (wall : ℕ) (g : Guard)
    → ((auto_unblock_if_ready wall g).timestamps ≡ g.timestamps)
      × ((auto_unblock_if_ready wall g).max_per_second ≡ g.max_per_second)
unfolding auto_unblock_if_ready
unblocked_same wall g = ground arith

blocked-admit : (now : ℕ) (g : Guard) → (admit now g).1.blocked ≡ g.blocked
unfolding admit
blocked-admit now g = ground arith

pre_request_admits :
    (now : Now) (g : Guard) → g.blocked ≡ false → pre_request now g ≡ admit now.mono g
unfolding pre_request
pre_request_admits now g h = ground arith

-- What the loop makes of its first round.
after_round : Round × Guard → List Now → Option (Round × Guard)
after_round (Round.sleep d, g) rest = pre_request_loop rest g
after_round (Round.failed, g) rest = none
after_round r rest = some r

loop_round :
    (now : Now) (rest : List Now) (g : Guard)
    → pre_request_loop (now ∷ rest) g ≡ after_round (pre_request now g) rest
unfolding pre_request_loop after_round
loop_round now rest g = ground arith

granted_after_sleep :
    (now : Now) (g : Guard) (d : ℕ)
    → g.blocked ≡ false
    → (admit now.mono g).0 ≡ granted
    → after_round (sleep d, g) (now ∷ []) ≡ some (granted, (admit now.mono g).1)
unfolding after_round
granted_after_sleep now g d open_ lets =
    loop_round now [] g ∙ ground (arith, pre_request_admits now g open_, lets)

-- A request in a guard whose limit per second is positive, and not exceeded now, ends within two
-- rounds, if the sleep lasts as long as its round asked and no other task touches the guard.
pub pre_request_loop-returns :
    (n n' : Now) (g : Guard)
    → 0 < g.max_per_second
    → count_within second n.mono g.timestamps ≤ g.max_per_second
    → Slept (pre_request n g).0 n n'
    → (r : Round × Guard) × (pre_request_loop (n ∷ n' ∷ []) g ≡ some r)
pre_request_loop-returns n n' g pos few s = elim (Bool-cases u.blocked) [
  | inl blocked ↦ ((refused_blocked, u), loop_round n (n' ∷ []) g ∙ refuse blocked)
  | inr open_ ↦
      let admitted = admits open_ in
      let s' : Slept (admit n.mono u).0 n n' = rw admitted at s in
      let (r, e) = after (admit n.mono u) open_ refl s' in
      (r, loop_round n (n' ∷ []) g ∙ rw admitted e)
]
  where
    u : Guard
    u = auto_unblock_if_ready n.wall g

    same : (u.timestamps ≡ g.timestamps) × (u.max_per_second ≡ g.max_per_second)
    same = unblocked_same n.wall g

    few' : count_within second n.mono u.timestamps ≤ u.max_per_second
    few' = rw (same.0, same.1) few

    refuse : u.blocked ≡ true → after_round (pre_request n g) (n' ∷ []) ≡ some (refused_blocked, u)
    refuse blocked = unfold pre_request after_round in ground (arith, blocked)

    admits : u.blocked ≡ false → pre_request n g ≡ admit n.mono u
    admits open_ = unfold pre_request in ground (arith, open_)

    then_granted :
        (d : ℕ) (g' : Guard)
        → admit n.mono u ≡ (sleep d, g')
        → Slept (sleep d) n n'
        → (admit n'.mono g').0 ≡ granted
    then_granted d g' e s = rw e at (
        admit_twice n.mono n'.mono u d few' (omega (arith, same))
          (ap (λ (x : Round × Guard). x.0) e) s.0)

    after :
        (q : Round × Guard)
        → u.blocked ≡ false
        → admit n.mono u ≡ q
        → Slept q.0 n n'
        → (r : Round × Guard) × (after_round q (n' ∷ []) ≡ some r)
    after (Round.granted, g') open_ e s = ((granted, g'), unfold after_round in refl)
    after (Round.refused_blocked, g') open_ e s =
        ((refused_blocked, g'), unfold after_round in refl)
    after (Round.refused_minute, g') open_ e s = ((refused_minute, g'), unfold after_round in refl)
    after (Round.sleep d, g') open_ e s = (
      (granted, (admit n'.mono g').1),
      granted_after_sleep n' g' d (cc (e, blocked-admit n.mono u, open_)) (then_granted d g' e s),
    )
    after (Round.failed, g') open_ e s =
        absurd (admit-ne-failed n.mono u (omega (arith, same)) (ap (λ (x : Round × Guard). x.0) e))
