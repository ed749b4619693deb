-- ===== src/Scheduler/CatchUp.antt =====
-- The replay of the runs that were missed while the bot was down (src/core/scheduler.py). The trigger
-- of a job belongs to the library of the jobs and is a parameter.
use igthon.Prelude.{
  ℕ, zero, suc, ◌+◌, ◌-◌, ◌*◌, String, Bool, true, false, not, ◌&&◌, Option, none, some, List, [],
  ◌∷◌, leb, if◌then◌else◌,
}
use igthon.Prelude.Dicts.{Dict, lookup}
use igthon.Scheduler.{JobEntry, JobPreference, Bot, job_definitions, record_job_run}

-- Eight days, in microseconds.
abbrev pub lookback_window : ℕ
lookback_window = 8 * 86400 * 1000000

-- `trigger.get_next_fire_time(previous, now)`
abbrev pub Trigger : Type 0
Trigger = Option ℕ → ℕ → Option ℕ

-- The loop, with fuel for its rounds.
unfoldable pub walk_fires : Trigger → ℕ → ℕ → Option ℕ → Option ℕ → Option ℕ
walk_fires next now zero fire latest = latest
walk_fires next now (suc fuel) none latest = latest
walk_fires next now (suc fuel) (some fire) latest =
    let rest = walk_fires next now fuel (next (some fire) fire) (some fire) in
    if leb fire now then rest else latest

unfoldable pub last_scheduled_fire : Trigger → ℕ → Option ℕ
unfolding walk_fires
last_scheduled_fire next now =
    walk_fires next now (lookback_window + 2) (next none (now - lookback_window)) none

abbrev pub last_run : Option JobPreference → Option ℕ
last_run none = none
last_run (some row) = row.last_run_at

abbrev pub ran_since : ℕ → Option ℕ → Bool
ran_since scheduled none = false
ran_since scheduled (some moment) = leb scheduled moment

abbrev pub is_missed : Option ℕ → Option ℕ → Bool
is_missed none moment = false
is_missed (some scheduled) moment = not (ran_since scheduled moment)

abbrev pub is_active : Option Bool → Bool
is_active none = false
is_active (some auto) = auto

module _ (triggers : String → Trigger) where
  -- Is a job replayed?
  unfoldable pub is_due : ℕ → Bot → JobEntry → Bool
  unfolding lookup last_scheduled_fire
  is_due now b e =
      e.catch_up
      && is_active (lookup e.job_id b.scheduler.jobs)
      && is_missed (last_scheduled_fire (triggers e.job_id) now)
          (last_run (lookup e.action b.preferences))

  -- The loop over the entries: the modes are those of the moment, the last runs those of `rows`. A
  -- replay that does not raise records its run.
  unfoldable pub replay :
      (String → Bool) → ℕ → Dict JobPreference → List JobEntry → Bot → Bot × List String
  unfolding is_due record_job_run
  replay runs now rows [] b = (b, [])
  replay runs now rows (e ∷ es) b =
      let skipped = replay runs now rows es b in
      let (after, rest) =
        replay runs now rows es (if runs e.action then record_job_run true now e.action b else b) in
      if is_due now (record b { preferences = rows }) e then (after, e.action ∷ rest) else skipped

  -- The jobs that are replayed; the argument is what the query gives, if it does not fail.
  unfoldable pub run_catch_up :
      (String → Bool) → ℕ → Option (Dict JobPreference) → Bot → Bot × List String
  unfolding replay
  run_catch_up runs now none b = (b, [])
  run_catch_up runs now (some rows) b =
      if b.scheduler.running then replay runs now rows job_definitions b else (b, [])
