-- ===== src/Guard/Block.antt =====
-- The quota block: what `on_ig_error` starts, `pre_request` honours and the cooldown ends
-- (src/core/api_guard.py).
use igthon.Prelude.{
  ℕ, ◌+◌, ◌*◌, ◌<◌, ◌≡◌, refl, true, false, String, some, List, [], ◌∷◌, arith, contains, ◌↔◌, Bool,
  All, ◌∙◌, false, ap,
}
use igthon.Guard.{
  Guard, Now, second, quota_exceeded_codes, cooldown, blocked_until, pre_request, wait_until_ready,
  on_ig_error, acquire, release, stats, refused_blocked,
}
use igthon.Guard.Trace.{Act, Event, World, step, run, note}

module _ (wall : ℕ) (code : String) (g : Guard)
    (quota : contains quota_exceeded_codes code ≡ true) where
  -- After a quota error a request is refused as blocked exactly while the cooldown of that code
  -- has not passed.
  pub pre_request-on_ig_error :
      (now : Now)
      → ((pre_request now (on_ig_error wall code g)).0 ≡ refused_blocked)
        ↔ (now.wall < wall + second * cooldown code)
  unfolding pre_request on_ig_error
  pre_request-on_ig_error now = ground arith

  -- A later quota error replaces the block, whatever the first one's cooldown was.
  on_ig_error_replaces :
      (wall' : ℕ) (code' : String)
      → contains quota_exceeded_codes code' ≡ true
      → blocked_until (on_ig_error wall' code' (on_ig_error wall code g))
        ≡ some (wall' + second * cooldown code')
  unfolding blocked_until on_ig_error
  on_ig_error_replaces wall' code' h = ground arith

abbrev pub is_quota_report : Act → Bool
is_quota_report (Act.report code) = contains quota_exceeded_codes code
is_quota_report _ = false

-- An event before `until` that reports no quota error; other errors may be reported.
abbrev pub IsQuiet : ℕ → Event → Type 0
IsQuiet until e = (e.at.wall < until) × (is_quota_report e.act ≡ false)

other_error :
    (wall : ℕ) (code : String) (g : Guard)
    → contains quota_exceeded_codes code ≡ false
    → on_ig_error wall code g ≡ g
unfolding on_ig_error
other_error wall code g h = ground arith

act_blocked :
    (until : ℕ) (now : Now) (a : Act) (w : World)
    → IsQuiet until (record { at = now; act = a })
    → blocked_until w.guard ≡ some until
    → let w' = step (record { at = now; act = a }) w in
      (w'.granted ≡ w.granted) × (blocked_until w'.guard ≡ some until)
unfolding step note pre_request wait_until_ready blocked_until acquire release stats
act_blocked until now Act.request w q b = ground arith
act_blocked until now (Act.report code) w q b =
    (refl, ap blocked_until (other_error now.wall code w.guard q.1) ∙ b)
act_blocked until now _ w q b = ground arith

-- Until its end a block stays and lets no request through, whatever happens that is no report of a
-- quota error: requests, rounds of `wait_until_ready`, and reports of other errors as well.
pub run_blocked :
    (until : ℕ) (es : List Event) (w : World)
    → All (IsQuiet until) es
    → blocked_until w.guard ≡ some until
    → ((run es w).granted ≡ w.granted) × (blocked_until (run es w).guard ≡ some until)
unfolding run
run_blocked until [] w q b = (refl, b)
run_blocked until (e ∷ es) w q b =
    let (same, still) = act_blocked until e.at e.act w q.0 b in
    let (same', still') = run_blocked until es (step e w) q.1 still in (same' ∙ same, still')
