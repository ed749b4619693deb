-- ===== src/Guard/Rounds.antt =====
-- What one round under the lock does to the timestamps and to the limits, for every outcome of
-- `pre_request`, `wait_until_ready` and `stats` (src/core/api_guard.py).
use igthon.Prelude.{ℕ, ◌+◌, ◌≤◌, ◌<◌, ◌≡◌, sym, ◌∙◌, ◌⊎◌, List, [], ◌∷◌, ◌++◌, arith, length}
use igthon.Guard.{
  Guard, Now, second, minute, prune_list, count_within, auto_unblock_if_ready, Round, admit,
  pre_request, headroom, wait_until_ready, stats,
}
use igthon.Guard.Counts.{count_within-append_one, count_within-prune}

-- The same timestamps count in every window that ends now or later.
pub record Agrees (now : ℕ) (xs ys : List ℕ) : Type 0 where
  pub minutes : (t : ℕ) → now ≤ t → count_within minute t xs ≡ count_within minute t ys
  pub seconds : (t : ℕ) → now ≤ t → count_within second t xs ≡ count_within second t ys

pub Agrees-later :
    (now later : ℕ) (xs ys : List ℕ) → Agrees now xs ys → now ≤ later → Agrees later xs ys
Agrees-later now later xs ys h le = record {
  minutes = λ t l. h.minutes t (omega arith);
  seconds = λ t l. h.seconds t (omega arith);
}

pub Agrees-prune : (now : ℕ) (xs ys : List ℕ) → Agrees now xs ys → Agrees now xs (prune_list now ys)
Agrees-prune now xs ys h = record {
  minutes = λ t l. h.minutes t l ∙ sym (count_within-prune minute now t ys (omega arith) l);
  seconds = λ t l. h.seconds t l ∙ sym (count_within-prune second now t ys (omega arith) l);
}

pub Agrees-grant :
    (now : ℕ) (xs ys : List ℕ) → Agrees now xs ys → Agrees now (now ∷ xs) (ys ++ now ∷ [])
unfolding count_within
Agrees-grant now xs ys h = record {
  minutes = λ t l. ground (arith, h.minutes t l, count_within-append_one minute t now ys);
  seconds = λ t l. ground (arith, h.seconds t l, count_within-append_one second t now ys);
}

-- The parts of the guard that a round leaves alone.
pub record SameLimits (g g' : Guard) : Type 0 where
  pub per_minute : g'.max_per_minute ≡ g.max_per_minute
  pub per_second : g'.max_per_second ≡ g.max_per_second
  pub slots : g'.inflight ≡ g.inflight
  pub concurrent : g'.max_inflight ≡ g.max_inflight

pub record Pruned (now : ℕ) (g g' : Guard) : Type 0 where
  pub limits : SameLimits g g'
  pub calls : g'.total_calls ≡ g.total_calls
  pub kept : (g'.timestamps ≡ g.timestamps) ⊎ (g'.timestamps ≡ prune_list now g.timestamps)

pub record Claimed (now : ℕ) (g g' : Guard) : Type 0 where
  pub limits : SameLimits g g'
  pub calls : g'.total_calls ≡ g.total_calls + 1
  pub kept : g'.timestamps ≡ prune_list now g.timestamps ++ now ∷ []
  pub minute_room : length (prune_list now g.timestamps) < g.max_per_minute
  pub second_room : count_within second now (prune_list now g.timestamps) < g.max_per_second

-- A round that grants claims a slot that both limits leave; any other only prunes.
abbrev pub Outcome : ℕ → Guard → Round × Guard → Type 0
Outcome now g (Round.granted, g') = Claimed now g g'
Outcome now g (_, g') = Pruned now g g'

admit-Outcome : (now : ℕ) (g : Guard) → Outcome now g (admit now g)
unfolding admit
admit-Outcome now g = ground arith

auto_unblock_kept :
    (wall : ℕ) (g : Guard)
    → SameLimits g (auto_unblock_if_ready wall g)
      × ((auto_unblock_if_ready wall g).timestamps ≡ g.timestamps)
      × ((auto_unblock_if_ready wall g).total_calls ≡ g.total_calls)
unfolding auto_unblock_if_ready
auto_unblock_kept wall g = ground arith

pub pre_request-Outcome : (now : Now) (g : Guard) → Outcome now.mono g (pre_request now g)
unfolding pre_request
pre_request-Outcome now g = ground (arith, auto_unblock_kept now.wall g)

pub wait_until_ready-Pruned : (now : Now) (g : Guard) → Pruned now.mono g (wait_until_ready now g).1
unfolding wait_until_ready headroom
wait_until_ready-Pruned now g = ground (arith, auto_unblock_kept now.wall g)

pub stats-Pruned : (now : Now) (g : Guard) → Pruned now.mono g (stats now g).1
unfolding stats
stats-Pruned now g = ground (arith, auto_unblock_kept now.wall g)
