-- ===== src/Scheduler/Restart.antt =====
-- Commands to the scheduler, and the modes of its jobs across a restart (src/core/scheduler.py).
use mathlib.Core.Path.{subst}
use igthon.Prelude.{
  ap, ◌≡◌, ◌∙◌, refl, sym, inl, inr, ℕ, String, Bool, true, false, not, ◌||◌, Option, none, some,
  List, [], ◌∷◌, Bool-cases, Option-cases, All, arith, str_eq, eq_iff, ◌==◌, if◌then◌else◌,
}
use igthon.Prelude.Dicts.{Dict, lookup, insert, lookup-insert}
use igthon.Scheduler.{
  JobEntry, JobPreference, Bot, BotScheduler, job_definitions, added_jobs, set_job, upsert,
  with_mode, find_entry, restore_jobs, save_job_preference, save_all_job_preferences, set_job_mode,
  set_bot, ran, record_job_run, start, auto_open_pref_key, set_auto_open, restore_auto_open,
  load_job_preferences, restart, auto_open_enabled, is_day,
}
use igthon.Scheduler.Modes.{
  saved, mode, is_added, IsSaved, mode_after, Agrees, All-Agrees, paused_jobs-lookup, saved-upsert,
  find_entry-All, IsSaved-set_job, IsSaved-set_jobs, restore_jobs-lookup,
}

-- What the user and the jobs do to the preferences, with the moment.
pub data Command : Type 0 where
  mode_set : ℕ → String → Bool → Command
  all_set : ℕ → Bool → Command
  switched : ℕ → Bool → Command
  job_ran : ℕ → String → Command

IsSaved-rows :
    (es : List JobEntry) (jobs : Dict Bool) (rows rows' : Dict JobPreference)
    → All (λ (e : JobEntry). saved e.action rows' ≡ saved e.action rows) es
    → IsSaved es jobs rows
    → IsSaved es jobs rows'
IsSaved-rows [] jobs rows rows' h k = tt
IsSaved-rows (e ∷ es) jobs rows rows' h k = (rw (h.0) k.0, IsSaved-rows es jobs rows rows' h.1 k.1)

saved-ran :
    (a k : String) (now : ℕ) (rows : Dict JobPreference)
    → saved k (insert a (ran now (lookup a rows)) rows) ≡ saved k rows
unfolding saved ran
saved-ran a k now rows =
    ground (arith, lookup-insert a k (ran now (lookup a rows)) rows, eq_iff a k)

saved-ran-All :
    (a : String) (now : ℕ) (rows : Dict JobPreference) (es : List JobEntry)
    → All
        (λ (e : JobEntry).
          saved e.action (insert a (ran now (lookup a rows)) rows) ≡ saved e.action rows)
        es
saved-ran-All a now rows [] = tt
saved-ran-All a now rows (e ∷ es) = (saved-ran a e.action now rows, saved-ran-All a now rows es)

other_key : All (λ (e : JobEntry). str_eq auto_open_pref_key e.action ≡ false) job_definitions
other_key = ground arith

saved-switch :
    (auto : Bool) (now : ℕ) (rows : Dict JobPreference) (es : List JobEntry)
    → All (λ (e : JobEntry). str_eq auto_open_pref_key e.action ≡ false) es
    → All
        (λ (e : JobEntry).
          saved e.action (upsert auto_open_pref_key auto now rows) ≡ saved e.action rows)
        es
saved-switch auto now rows [] h = tt
saved-switch auto now rows (e ∷ es) h = (
  saved-upsert auto_open_pref_key e.action auto now rows ∙ rw (h.0) refl,
  saved-switch auto now rows es h.1,
)

mode_after-saved :
    (rows : Dict JobPreference)
    → All
        (λ (e : JobEntry). mode_after e.job_id rows job_definitions false ≡ saved e.action rows)
        job_definitions
unfolding saved
mode_after-saved rows = (
  refl,
  (refl, (refl, (refl, (refl, (refl, (refl, (refl, (refl, (refl, (refl, (refl, tt))))))))))),
)

-- A running bot whose table says the mode of every job.
unfoldable IsKept : Bot → Type 0
IsKept b = (b.scheduler.running ≡ true) × IsSaved job_definitions b.scheduler.jobs b.preferences

module _ (local_day : ℕ → ℕ) where
  unfoldable pub obey : Command → Bot → Bot
  unfolding set_job_mode set_bot set_auto_open record_job_run
  obey (mode_set now action auto) b = (set_job_mode true now action auto b).0
  obey (all_set now auto) b = set_bot true now auto b
  obey (switched now enabled) b = set_auto_open local_day true now enabled b
  obey (job_ran now action) b = record_job_run true now action b

  unfoldable pub obey_all : List Command → Bot → Bot
  unfolding obey
  obey_all [] b = b
  obey_all (c ∷ cs) b = obey_all cs (obey c b)

  All-IsSaved :
      (rows : Dict JobPreference) (es : List JobEntry) (jobs : Dict Bool)
      → ((id : String) → lookup id jobs ≡ mode id false)
      → All
          (λ (e : JobEntry). mode_after e.job_id rows job_definitions false ≡ saved e.action rows)
          es
      → IsSaved es (restore_jobs rows job_definitions jobs) rows
  All-IsSaved rows [] jobs h k = tt
  All-IsSaved rows (e ∷ es) jobs h k = (
    restore_jobs-lookup e.job_id rows job_definitions jobs false (h e.job_id)
        ∙ ap (mode e.job_id) k.0,
    All-IsSaved rows es jobs h k.1,
  )

  restored_jobs :
      (now : ℕ) (o : Option JobPreference) (s : BotScheduler)
      → let t = restore_auto_open local_day now o s in (t.running ≡ s.running) × (t.jobs ≡ s.jobs)
  unfolding restore_auto_open
  restored_jobs now none s = (refl, refl)
  restored_jobs now (some row) s = elim (Bool-cases row.auto) [
    | inl on ↦ rw (restore_auto_open, on) (refl, refl)
    | inr off ↦ elim (Bool-cases (local_day row.updated_at == local_day now)) [
      | inl same ↦ rw (restore_auto_open, off, same) (refl, refl)
      | inr stale ↦ rw (restore_auto_open, off, stale) (refl, refl)
    ]
  ]

  IsKept-restart : (now : ℕ) (b : Bot) → IsKept (restart local_day now b)
  unfolding IsKept restart load_job_preferences start mode is_added
  IsKept-restart now b =
      let (on, same) = restored_jobs now (lookup auto_open_pref_key b.preferences) start in
      (
        on,
        subst
            (λ jobs.
              IsSaved job_definitions (restore_jobs b.preferences job_definitions jobs)
                b.preferences)
            (sym same)
            (All-IsSaved b.preferences job_definitions start.jobs
              (λ id. paused_jobs-lookup id added_jobs) (mode_after-saved b.preferences)),
      )

  module _ (s : BotScheduler) (rows : Dict JobPreference)
      (h : IsSaved job_definitions s.jobs rows) where
    -- The bot, running.
    abbrev bot : Bot
    bot = record { scheduler = record s { running = true }; preferences = rows }

    IsKept-mode :
        (now : ℕ) (action : String) (auto : Bool)
        → IsKept ((set_job_mode true now action auto bot).0)
    unfolding IsKept set_job_mode save_job_preference
    IsKept-mode now action auto = elim (Option-cases (find_entry action job_definitions)) [
      | inl e ↦ rw (set_job_mode, e) (refl, h)
      | inr (f, e) ↦
          let (agree, same) =
            find_entry-All (λ x. All (Agrees x) job_definitions) action f job_definitions e
              All-Agrees in
          elim (Option-cases (lookup f.job_id s.jobs)) [
            | inl away ↦ rw (set_job_mode, e, away) (refl, h)
            | inr (m, there) ↦
                rw (set_job_mode, e, there)
                  (
                    refl,
                    subst
                        (λ k.
                          IsSaved job_definitions (set_job f.job_id auto s.jobs)
                            (upsert k auto now rows))
                        (ground (arith, same, eq_iff f.action action))
                        (IsSaved-set_job f auto now job_definitions s.jobs rows agree h),
                  )
          ]
    ]

    IsKept-obeyed : (c : Command) → IsKept (obey c bot)
    unfolding IsKept obey set_bot set_auto_open record_job_run save_all_job_preferences
        save_job_preference
    IsKept-obeyed (mode_set now action auto) = IsKept-mode now action auto
    IsKept-obeyed (all_set now auto) =
        (refl, IsSaved-set_jobs auto now job_definitions job_definitions s.jobs rows All-Agrees h)
    IsKept-obeyed (switched now enabled) = (
      refl,
      IsSaved-rows job_definitions s.jobs rows _
          (saved-switch enabled now rows job_definitions other_key) h,
    )
    IsKept-obeyed (job_ran now action) = (
      refl,
      IsSaved-rows job_definitions s.jobs rows _ (saved-ran-All action now rows job_definitions) h,
    )

  IsKept-obey_all : (cs : List Command) (b : Bot) → IsKept b → IsKept (obey_all cs b)
  unfolding obey_all IsKept
  IsKept-obey_all [] b h = h
  IsKept-obey_all (c ∷ cs) b h = IsKept-obey_all cs (obey c b) (
      subst
        (λ (r : Bool).
          IsKept (obey c (record b { scheduler = record b.scheduler { running = r } })))
        (sym (h.0)) (IsKept-obeyed b.scheduler b.preferences h.1 c))

  same_modes :
      (es : List JobEntry) (jobs jobs' : Dict Bool) (rows : Dict JobPreference)
      → IsSaved es jobs rows
      → IsSaved es jobs' rows
      → All (λ (e : JobEntry). lookup e.job_id jobs' ≡ lookup e.job_id jobs) es
  same_modes [] jobs jobs' rows h k = tt
  same_modes (e ∷ es) jobs jobs' rows h k = (k.0 ∙ sym (h.0), same_modes es jobs jobs' rows h.1 k.1)

  -- Whatever the table was when a bot was started, and whatever it was told since, a restart gives
  -- each of its jobs the mode that the job had before, if every commit succeeds.
  pub restart-obey_all :
      (t t' : ℕ) (first : Bot) (cs : List Command)
      → let b = obey_all cs (restart local_day t first) in
        All
          (λ (e : JobEntry).
            lookup e.job_id (restart local_day t' b).scheduler.jobs
            ≡ lookup e.job_id b.scheduler.jobs)
          job_definitions
  unfolding IsKept restart
  restart-obey_all t t' first cs =
      let b = obey_all cs (restart local_day t first) in
      same_modes job_definitions b.scheduler.jobs (restart local_day t' b).scheduler.jobs
        b.preferences (IsKept-obey_all cs _ (IsKept-restart t first)).1 (IsKept-restart t' b).1

  switch-lookup :
      (enabled : Bool) (t : ℕ) (b : Bot)
      → lookup auto_open_pref_key (set_auto_open local_day true t enabled b).preferences
        ≡ some (with_mode enabled t (lookup auto_open_pref_key b.preferences))
  unfolding set_auto_open save_job_preference upsert
  switch-lookup enabled t b = lookup-insert auto_open_pref_key auto_open_pref_key _ b.preferences

  with_mode-parts :
      (enabled : Bool) (t : ℕ) (o : Option JobPreference)
      → ((with_mode enabled t o).auto ≡ enabled) × ((with_mode enabled t o).updated_at ≡ t)
  unfolding with_mode
  with_mode-parts enabled t none = (refl, refl)
  with_mode-parts enabled t (some row) = (refl, refl)

  answer :
      (now : ℕ) (s : BotScheduler)
      → (auto_open_enabled local_day now s).1
        ≡ s.auto_open_enabled || not (is_day local_day s.auto_open_day now)
  unfolding auto_open_enabled
  answer now s = ground arith

  restored :
      (now : ℕ) (row : JobPreference)
      → let s = restore_auto_open local_day now (some row) start in
        s.auto_open_enabled || not (is_day local_day s.auto_open_day now)
        ≡ row.auto || not (local_day row.updated_at == local_day now)
  unfolding restore_auto_open is_day start
  restored now row = ground arith

  switched_day :
      (t now : ℕ) (enabled : Bool)
      → enabled || not (is_day local_day (if enabled then none else some (local_day t)) now)
        ≡ enabled || not (local_day t == local_day now)
  unfolding is_day
  switched_day t now true = refl
  switched_day t now false = refl

  -- Once the user has set the switch, the bot that runs on authorises automatic openings at a later
  -- moment exactly if the user authorised them or the local day is another one. A bot that is started
  -- again at that moment answers the same if the commit of the switch succeeded, and as if the
  -- switch had not been set if it failed.
  pub set_auto_open-restart :
      (commits : Bool) (b : Bot) (t now : ℕ) (enabled : Bool)
      → let w = set_auto_open local_day commits t enabled b in
        let authorised = enabled || not (local_day t == local_day now) in
        ((auto_open_enabled local_day now w.scheduler).1 ≡ authorised)
        × ((auto_open_enabled local_day now (restart local_day now w).scheduler).1 ≡ (
            if commits
            then authorised
            else (auto_open_enabled local_day now (restart local_day now b).scheduler).1))
  unfolding restart load_job_preferences set_auto_open save_job_preference
  set_auto_open-restart false b t now enabled = (
    answer now (set_auto_open local_day false t enabled b).scheduler ∙ switched_day t now enabled,
    refl,
  )
  set_auto_open-restart true b t now enabled =
      let (mode_is, moment_is) =
        with_mode-parts enabled t (lookup auto_open_pref_key b.preferences) in
      (
        answer now (set_auto_open local_day true t enabled b).scheduler
            ∙ switched_day t now enabled,
        answer now (restart local_day now (set_auto_open local_day true t enabled b)).scheduler
            ∙ rw (switch-lookup enabled t b) (
                restored now (with_mode enabled t (lookup auto_open_pref_key b.preferences))
                ∙ rw (mode_is, moment_is) refl),
      )
