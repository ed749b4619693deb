-- ===== src/Guard.antt =====
-- The rate-limit guard (src/core/api_guard.py). Both clocks are read in milliseconds: `mono` is
-- `time.monotonic()` and `wall` is `datetime.now(UTC)`; the constants are those of the source in
-- milliseconds. A method that waits is given as the round that it runs under the lock, which says
-- whether it returns, raises, or sleeps for some time and makes one more round.
pub mod Counts
pub mod Trace
pub mod Rounds
pub mod Limits
pub mod Block
pub mod Loops
pub mod Waiting
pub mod Pacing
mod Tests
use igthon.Prelude.{
  ℕ, zero, suc, ◌+◌, ◌-◌, ◌*◌, max, min, String, Bool, true, false, not, Option, none, some, List,
  [], ◌∷◌, ◌++◌, ltb, leb, if◌then◌else◌, contains, str_eq, length,
}

pub record Now : Type 0 where
  pub mono : ℕ
  pub wall : ℕ

abbrev pub second : ℕ
second = 1000

abbrev pub minute : ℕ
minute = 60000

abbrev pub quota_exceeded_codes : List String
quota_exceeded_codes =
    "error.request.too.frequent" ∷ "error.public-api.exceeded-api-key-allowance"
    ∷ "error.public-api.exceeded-account-allowance"
    ∷ "error.public-api.exceeded-account-trading-allowance" ∷ "access.denied.reason.ip.blocked" ∷ []

-- In seconds.
abbrev pub block_cooldowns : List (String × ℕ)
block_cooldowns =
    ("error.request.too.frequent", 120)
    ∷ ("error.public-api.exceeded-api-key-allowance", 120)
    ∷ ("error.public-api.exceeded-account-allowance", 120)
    ∷ ("error.public-api.exceeded-account-trading-allowance", 120)
    ∷ ("access.denied.reason.ip.blocked", 3900)
    ∷ []

abbrev pub default_block_cooldown : ℕ
default_block_cooldown = 120

-- `table.get(code, default)`
lookup_cooldown : List (String × ℕ) → String → ℕ
lookup_cooldown [] code = default_block_cooldown
lookup_cooldown ((c, s) ∷ rest) code = if str_eq code c then s else lookup_cooldown rest code

unfoldable pub cooldown : String → ℕ
unfolding lookup_cooldown
cooldown code = lookup_cooldown block_cooldowns code

pub record Guard : Type 0 where
  pub max_per_minute : ℕ
  pub max_per_second : ℕ
  pub max_inflight : ℕ
  pub timestamps : List ℕ
  pub total_calls : ℕ
  pub blocked : Bool
  pub blocked_since : Option ℕ
  pub blocked_reason : String
  pub inflight : ℕ

unfoldable pub init : ℕ → ℕ → ℕ → Guard
init per_minute per_second concurrent = record {
  max_per_minute = per_minute;
  max_per_second = per_second;
  max_inflight = concurrent;
  timestamps = [];
  total_calls = 0;
  blocked = false;
  blocked_since = none;
  blocked_reason = "";
  inflight = concurrent;
}

-- The deque is a list, oldest first.
unfoldable pub prune_list : ℕ → List ℕ → List ℕ
prune_list now [] = []
prune_list now (t ∷ ts) =
    let rest = prune_list now ts in if ltb (t + minute) now then rest else t ∷ ts

unfoldable pub prune : ℕ → Guard → Guard
unfolding prune_list
prune now g = record g { timestamps = prune_list now g.timestamps }

-- `sum(1 for ts in timestamps if now - ts <= window)`
unfoldable pub count_within : ℕ → ℕ → List ℕ → ℕ
count_within window now [] = 0
count_within window now (t ∷ ts) =
    (if leb now (t + window) then 1 else 0) + count_within window now ts

-- `min(ts for ts in timestamps if now - ts <= window)`; an empty generator raises.
unfoldable pub oldest_within : ℕ → ℕ → List ℕ → Option ℕ
oldest_within window now [] = none
oldest_within window now (t ∷ ts) =
    let rest = oldest_within window now ts in
    if leb now (t + window) then some (elim rest [ none ↦ t | some u ↦ min t u ]) else rest

unfoldable pub is_available : Guard → Bool
is_available g = not g.blocked

unfoldable pub blocked_until : Guard → Option ℕ
blocked_until g =
    if g.blocked
    then elim g.blocked_since [
      | none ↦ none
      | some since ↦ some (since + second * cooldown g.blocked_reason)
    ]
    else none

unblock : Guard → Guard
unblock g = record g { blocked = false; blocked_since = none; blocked_reason = "" }

unfoldable pub auto_unblock_if_ready : ℕ → Guard → Guard
unfolding blocked_until unblock
auto_unblock_if_ready wall g = elim (blocked_until g) [
  | none ↦ g
  | some until ↦ if leb until wall then unblock g else g
]

-- What a round under the lock ends in; `failed` is the exception that Python raises where the code
-- takes the least of no timestamps, or the first of none, or an unset variable.
pub data Round : Type 0 where
  granted : Round
  refused_blocked : Round
  refused_minute : Round
  sleep : ℕ → Round
  failed : Round

claim : ℕ → Guard → Guard
claim now g = record g { timestamps = g.timestamps ++ now ∷ []; total_calls = g.total_calls + 1 }

pace : ℕ → Guard → Round
unfolding oldest_within
pace now g = elim (oldest_within second now g.timestamps) [
  | none ↦ failed
  | some oldest ↦ sleep (max 10 (oldest + second + 10 - now))
]

-- The part of a round after the block test.
unfoldable pub admit : ℕ → Guard → Round × Guard
unfolding claim pace prune count_within
admit now g =
    let p = prune now g in
    if leb p.max_per_minute (length p.timestamps)
    then (refused_minute, p)
    else if ltb (count_within second now p.timestamps) p.max_per_second
    then (granted, claim now p)
    else (pace now p, p)

unfoldable pub pre_request : Now → Guard → Round × Guard
unfolding auto_unblock_if_ready admit
pre_request now g =
    let u = auto_unblock_if_ready now.wall g in
    if u.blocked then (refused_blocked, u) else admit now.mono u

-- The part of a round of `wait_until_ready` after the block test.
unfoldable pub headroom : ℕ → Guard → Round × Guard
unfolding prune
headroom now g =
    let p = prune now g in
    if ltb (length p.timestamps) p.max_per_minute
    then (granted, p)
    else (elim p.timestamps [ [] ↦ failed | t ∷ _ ↦ sleep (max 100 (t + minute + 10 - now)) ], p)

unfoldable pub wait_until_ready : Now → Guard → Round × Guard
unfolding auto_unblock_if_ready blocked_until headroom
wait_until_ready now g =
    let u = auto_unblock_if_ready now.wall g in
    if u.blocked
    then (
      elim (blocked_until u) [ none ↦ failed | some t ↦ sleep (max 100 (t + 10 - now.wall)) ],
      u,
    )
    else headroom now.mono u

unfoldable pub on_ig_error : ℕ → String → Guard → Guard
on_ig_error wall code g =
    if contains quota_exceeded_codes code
    then record g { blocked = true; blocked_since = some wall; blocked_reason = code }
    else g

-- The semaphore of `guarded_request`: `none` while the caller waits for a slot.
unfoldable pub acquire : Guard → Option Guard
acquire g = elim g.inflight [ zero ↦ none | suc n ↦ some (record g { inflight = n }) ]

unfoldable pub release : Guard → Guard
release g = record g { inflight = g.inflight + 1 }

pub record ApiGuardStats : Type 0 where
  pub total_calls : ℕ
  pub calls_last_minute : ℕ
  pub calls_last_second : ℕ
  pub is_available : Bool
  pub is_blocked : Bool
  pub blocked_since : Option ℕ
  pub blocked_until : Option ℕ
  pub blocked_reason : String
  pub max_per_minute : ℕ
  pub max_per_second : ℕ
  pub max_inflight : ℕ

unfoldable pub stats : Now → Guard → ApiGuardStats × Guard
unfolding auto_unblock_if_ready prune count_within blocked_until is_available
stats now g =
    let p = prune now.mono (auto_unblock_if_ready now.wall g) in
    (
      record {
        total_calls = p.total_calls;
        calls_last_minute = length p.timestamps;
        calls_last_second = count_within second now.mono p.timestamps;
        is_available = is_available p;
        is_blocked = p.blocked;
        blocked_since = p.blocked_since;
        blocked_until = blocked_until p;
        blocked_reason = p.blocked_reason;
        max_per_minute = p.max_per_minute;
        max_per_second = p.max_per_second;
        max_inflight = p.inflight;
      },
      p,
    )
