-- ===== src/Scheduler.antt =====
-- The modes of the scheduler's jobs and the switch of the automatic openings, which survive a restart
-- (src/core/scheduler.py, src/models/job_preference.py). The library of the jobs is a table: whether
-- each job that was added is active. The database is the table of preferences; a commit that fails
-- leaves it as it was.
pub mod Modes
pub mod Restart
pub mod CatchUp
pub mod Missed
mod Tests
use igthon.Prelude.{
  ℕ, String, Bool, true, false, not, ◌&&◌, Option, none, some, List, [], ◌∷◌, str_eq, ◌==◌,
  if◌then◌else◌,
}
use igthon.Prelude.Dicts.{Dict, lookup, insert}

pub record JobEntry : Type 0 where
  pub action : String
  pub job_id : String
  pub catch_up : Bool

abbrev pub entry : String → String → Bool → JobEntry
entry action job_id catch_up = record { action = action; job_id = job_id; catch_up = catch_up }

abbrev pub job_definitions : List JobEntry
job_definitions =
    entry "refresh_epic_list" "refresh_epic_list" true
    ∷ entry "refresh_tradable_epics" "refresh_tradable_epics" false
    ∷ entry "collect_and_analyze" "collect_analyze" false
    ∷ entry "trend_select" "trend_select" false
    ∷ entry "monitor_positions" "monitor_positions" false
    ∷ entry "sync_positions" "sync_positions" false
    ∷ entry "end_of_day" "end_of_day" false
    ∷ entry "reconcile_pnl" "reconcile_pnl" false
    ∷ entry "daily_summary" "daily_summary" true
    ∷ entry "weekly_summary" "weekly_summary" true
    ∷ entry "daily_reset" "daily_reset" false
    ∷ entry "dump_and_purge_candles" "dump_and_purge_candles" true
    ∷ []

abbrev pub auto_open_pref_key : String
auto_open_pref_key = "auto_open"

-- The jobs that `start` adds before it pauses them all.
abbrev pub added_jobs : List String
added_jobs =
    "refresh_epic_list" ∷ "refresh_tradable_epics" ∷ "collect_analyze" ∷ "trend_select"
    ∷ "monitor_positions" ∷ "sync_positions" ∷ "reconcile_pnl" ∷ "daily_summary" ∷ "weekly_summary"
    ∷ "daily_reset" ∷ "dump_and_purge_candles" ∷ []

-- A moment counts microseconds.
pub record JobPreference : Type 0 where
  pub auto : Bool
  pub updated_at : ℕ
  pub last_run_at : Option ℕ

-- The fields of the scheduler that the preferences bear on.
pub record BotScheduler : Type 0 where
  pub running : Bool
  pub jobs : Dict Bool
  pub auto_open_enabled : Bool
  pub auto_open_day : Option ℕ

-- The scheduler with the table of preferences.
pub record Bot : Type 0 where
  pub scheduler : BotScheduler
  pub preferences : Dict JobPreference

unfoldable pub paused_jobs : List String → Dict Bool
unfolding insert
paused_jobs [] = []
paused_jobs (id ∷ ids) = insert id false (paused_jobs ids)

-- A new scheduler that was started.
unfoldable pub start : BotScheduler
unfolding paused_jobs
start = record {
  running = true;
  jobs = paused_jobs added_jobs;
  auto_open_enabled = true;
  auto_open_day = none;
}

-- `job.resume()` or `job.pause()`, where the job was added.
unfoldable pub set_job : String → Bool → Dict Bool → Dict Bool
unfolding lookup insert
set_job id auto jobs = elim (lookup id jobs) [ none ↦ jobs | some _ ↦ insert id auto jobs ]

unfoldable pub set_jobs : Bool → List JobEntry → Dict Bool → Dict Bool
unfolding set_job
set_jobs auto [] jobs = jobs
set_jobs auto (e ∷ es) jobs = set_jobs auto es (set_job e.job_id auto jobs)

-- The row of an action, when it is written with a mode.
unfoldable pub with_mode : Bool → ℕ → Option JobPreference → JobPreference
with_mode auto now none = record { auto = auto; updated_at = now; last_run_at = none }
with_mode auto now (some row) = record row { auto = auto; updated_at = now }

unfoldable pub upsert : String → Bool → ℕ → Dict JobPreference → Dict JobPreference
unfolding lookup insert with_mode
upsert action auto now rows = insert action (with_mode auto now (lookup action rows)) rows

unfoldable pub save_job_preference :
    Bool → String → Bool → ℕ → Dict JobPreference → Dict JobPreference
unfolding upsert
save_job_preference commits action auto now rows =
    if commits then upsert action auto now rows else rows

unfoldable pub upsert_all : List JobEntry → Bool → ℕ → Dict JobPreference → Dict JobPreference
unfolding upsert
upsert_all [] auto now rows = rows
upsert_all (e ∷ es) auto now rows = upsert_all es auto now (upsert e.action auto now rows)

unfoldable pub save_all_job_preferences : Bool → Bool → ℕ → Dict JobPreference → Dict JobPreference
unfolding upsert_all
save_all_job_preferences commits auto now rows =
    if commits then upsert_all job_definitions auto now rows else rows

unfoldable pub find_entry : String → List JobEntry → Option JobEntry
find_entry action [] = none
find_entry action (e ∷ es) = if str_eq e.action action then some e else find_entry action es

unfoldable pub set_job_mode : Bool → ℕ → String → Bool → Bot → Bot × Bool
unfolding find_entry lookup set_job save_job_preference
set_job_mode commits now action auto b =
    if not b.scheduler.running then (b, false) else (elim (find_entry action job_definitions) [
      | none ↦ (b, false)
      | some e ↦ elim (lookup e.job_id b.scheduler.jobs) [
        | none ↦ (b, false)
        | some _ ↦ (
          record {
            scheduler = record b.scheduler { jobs = set_job e.job_id auto b.scheduler.jobs };
            preferences = save_job_preference commits action auto now b.preferences;
          },
          true,
        )
      ]
    ])

-- `pause_bot` and `resume_bot`.
unfoldable pub set_bot : Bool → ℕ → Bool → Bot → Bot
unfolding set_jobs save_all_job_preferences
set_bot commits now auto b = if not b.scheduler.running then b else record {
  scheduler = record b.scheduler { jobs = set_jobs auto job_definitions b.scheduler.jobs };
  preferences = save_all_job_preferences commits auto now b.preferences;
}

unfoldable pub ran : ℕ → Option JobPreference → JobPreference
ran now none = record { auto = false; updated_at = now; last_run_at = some now }
ran now (some row) = record row { last_run_at = some now }

unfoldable pub record_job_run : Bool → ℕ → String → Bot → Bot
unfolding lookup insert ran
record_job_run commits now action b = record b {
  preferences =
      if commits
      then insert action (ran now (lookup action b.preferences)) b.preferences
      else b.preferences;
}

unfoldable pub restore_jobs : Dict JobPreference → List JobEntry → Dict Bool → Dict Bool
unfolding lookup set_job
restore_jobs rows [] jobs = jobs
restore_jobs rows (e ∷ es) jobs =
    restore_jobs rows es
      (elim (lookup e.action rows) [ none ↦ jobs | some row ↦ set_job e.job_id row.auto jobs ])

-- The switch and the preferences as a whole need the local date of a moment.
module _ (local_day : ℕ → ℕ) where
  unfoldable pub is_day : Option ℕ → ℕ → Bool
  is_day none now = false
  is_day (some day) now = day == local_day now

  -- The property also lifts a block of an earlier day.
  unfoldable pub auto_open_enabled : ℕ → BotScheduler → BotScheduler × Bool
  unfolding is_day
  auto_open_enabled now s =
      if not s.auto_open_enabled && not (is_day s.auto_open_day now)
      then (record s { auto_open_enabled = true; auto_open_day = none }, true)
      else (s, s.auto_open_enabled)

  unfoldable pub set_auto_open : Bool → ℕ → Bool → Bot → Bot
  unfolding save_job_preference
  set_auto_open commits now enabled b = record {
    scheduler = record b.scheduler {
      auto_open_enabled = enabled;
      auto_open_day = if enabled then none else some (local_day now);
    };
    preferences = save_job_preference commits auto_open_pref_key enabled now b.preferences;
  }

  unfoldable pub restore_auto_open : ℕ → Option JobPreference → BotScheduler → BotScheduler
  restore_auto_open now none s = s
  restore_auto_open now (some row) s =
      if row.auto
      then s
      else if not (local_day row.updated_at == local_day now)
      then s
      else record s { auto_open_enabled = false; auto_open_day = some (local_day row.updated_at) }

  -- The argument is what the query gives, if it does not fail.
  unfoldable pub load_job_preferences :
      ℕ → Option (Dict JobPreference) → BotScheduler → BotScheduler
  unfolding lookup restore_auto_open restore_jobs
  load_job_preferences now none s = s
  load_job_preferences now (some rows) s =
      let restored = restore_auto_open now (lookup auto_open_pref_key rows) s in
      record restored { jobs = restore_jobs rows job_definitions restored.jobs }

  -- The process ends and starts again.
  unfoldable pub restart : ℕ → Bot → Bot
  unfolding start load_job_preferences
  restart now b = record b { scheduler = load_job_preferences now (some b.preferences) start }
