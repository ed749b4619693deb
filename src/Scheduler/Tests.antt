-- ===== src/Scheduler/Tests.antt =====
-- Runs of the scheduler's preferences (src/core/scheduler.py).
use Prim.Native.Nat.{◌/◌}
use igthon.Prelude.{
  ◌≡◌, ◌↔◌, refl, ℕ, ◌-◌, ◌≤◌, Bool, true, false, not, ◌||◌, Option, none, some, List, [], ◌∷◌, All,
  arith, ◌==◌, leb, ltb, leb→le, ltb→lt, if◌then◌else◌,
}
use igthon.Prelude.Dicts.{lookup}
use igthon.Scheduler.{
  JobEntry, Bot, job_definitions, start, restart, set_auto_open, auto_open_enabled, entry,
}
use igthon.Scheduler.Restart.{
  Command, mode_set, switched, job_ran, obey_all, restart-obey_all, set_auto_open-restart,
}
use igthon.Scheduler.CatchUp.{Trigger, lookback_window, is_due, is_active, last_run}
use igthon.Scheduler.Missed.{IsTrigger, IsNext, IsBeyond, IsSince, is_due-missed}

abbrev day_of : ℕ → ℕ
day_of t = t / 100

abbrev new_bot : Bot
new_bot = record { scheduler = start; preferences = [] }

abbrev told : List Command
told = mode_set 5 "collect_and_analyze" true ∷ job_ran 6 "daily_summary" ∷ switched 7 false ∷ []

restart-obey_all_example :
    let b = obey_all day_of told (restart day_of 1 new_bot) in
    All
      (λ (e : JobEntry).
        lookup e.job_id (restart day_of 150 b).scheduler.jobs ≡ lookup e.job_id b.scheduler.jobs)
      job_definitions
restart-obey_all_example = restart-obey_all day_of 1 150 new_bot told

set_auto_open-restart_example :
    let w = set_auto_open day_of true 120 false new_bot in
    let authorised = false || not (day_of 120 == day_of 180) in
    ((auto_open_enabled day_of 180 w.scheduler).1 ≡ authorised)
    × ((auto_open_enabled day_of 180 (restart day_of 180 w).scheduler).1 ≡ (
        if true
        then authorised
        else (auto_open_enabled day_of 180 (restart day_of 180 new_bot).scheduler).1))
set_auto_open-restart_example = set_auto_open-restart day_of true new_bot 120 180 false

-- A trigger that fires once, at 1000.
abbrev fire_from : Bool → Option ℕ
fire_from ahead = if ahead then some 1000 else none

abbrev once : Trigger
once none s = fire_from (leb s 1000)
once (some l) s = fire_from (ltb l 1000)

abbrev fires_once : ℕ → Bool
fires_once g = g == 1000

once-first :
    (s : ℕ) (ahead : Bool)
    → leb s 1000 ≡ ahead
    → IsNext fires_once (IsBeyond s none) (fire_from ahead)
once-first s true h = (refl, leb→le s 1000 h, λ g fires from. ground (arith, fires))
once-first s false h = λ g fires from. ground (arith, h, fires, from)

once-later :
    (s l : ℕ) (ahead : Bool)
    → ltb l 1000 ≡ ahead
    → IsNext fires_once (IsBeyond s (some l)) (fire_from ahead)
once-later s l true h = (refl, ltb→lt l 1000 h, λ g fires from. ground (arith, fires))
once-later s l false h = λ g fires from. ground (arith, h, fires, from)

once-IsTrigger : IsTrigger fires_once once
once-IsTrigger = record {
  first = λ s. once-first s (leb s 1000) refl;
  later = λ s l. once-later s l (ltb l 1000) refl;
}

abbrev summaries : Bot
summaries =
    obey_all day_of (mode_set 5 "daily_summary" true ∷ job_ran 6 "daily_summary" ∷ [])
      (restart day_of 1 new_bot)

abbrev daily_summary : JobEntry
daily_summary = entry "daily_summary" "daily_summary" true

is_due-missed_example : (is_due (λ id. once) 1200 summaries daily_summary ≡ true) ↔ (
    (daily_summary.catch_up ≡ true)
    × (is_active (lookup daily_summary.job_id summaries.scheduler.jobs) ≡ true)
    × ((f : ℕ) × (fires_once f ≡ true)
        × (1200 - lookback_window ≤ f)
        × (f ≤ 1200)
        × IsSince (last_run (lookup daily_summary.action summaries.preferences)) f))
is_due-missed_example =
    is_due-missed fires_once (λ id. once) 1200 summaries daily_summary once-IsTrigger
