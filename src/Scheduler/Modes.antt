-- ===== src/Scheduler/Modes.antt =====
-- Lemmas on the modes of the jobs and the rows that keep them (src/core/scheduler.py).
use igthon.Prelude.{
  ◌≡◌, ◌∙◌, refl, inl, inr, ℕ, String, Bool, true, false, Option, none, some, List, [], ◌∷◌,
  Bool-cases, Option-cases, All, arith, str_eq, eq_iff, contains, if◌then◌else◌,
}
use igthon.Prelude.Dicts.{Dict, lookup, lookup-insert}
use igthon.Scheduler.{
  JobEntry, JobPreference, job_definitions, added_jobs, paused_jobs, set_job, set_jobs, upsert,
  upsert_all, with_mode, find_entry, restore_jobs,
}

-- The mode that the table says for an action; a job without a row is manual.
abbrev pub row_mode : Option JobPreference → Bool → Bool
row_mode none m = m
row_mode (some row) m = row.auto

unfoldable pub saved : String → Dict JobPreference → Bool
unfolding lookup
saved action rows = row_mode (lookup action rows) false

-- The mode of a job that was added.
unfoldable pub is_added : String → Bool
is_added id = contains added_jobs id

unfoldable pub mode : String → Bool → Option Bool
mode id auto = if is_added id then some auto else none

-- Every job that was added has the mode that the table says.
abbrev pub IsSaved : List JobEntry → Dict Bool → Dict JobPreference → Type 0
IsSaved es jobs rows =
    All (λ (e : JobEntry). lookup e.job_id jobs ≡ mode e.job_id (saved e.action rows)) es

pub paused_jobs-lookup :
    (id : String) (ids : List String)
    → lookup id (paused_jobs ids) ≡ (if contains ids id then some false else none)
unfolding paused_jobs lookup
paused_jobs-lookup id [] = refl
paused_jobs-lookup id (j ∷ js) = ground (
  arith,
  lookup-insert j id false (paused_jobs js),
  paused_jobs-lookup id js,
  eq_iff id j,
  eq_iff j id,
)

-- A job that is not there stays away.
abbrev over : Bool → Option Bool → Option Bool
over auto none = none
over auto (some m) = some auto

if-same : (b m : Bool) → (if b then m else m) ≡ m
if-same true m = refl
if-same false m = refl

over-mode :
    (id : String) (b auto m : Bool)
    → (if b then over auto (mode id m) else mode id m) ≡ mode id (if b then auto else m)
unfolding mode
over-mode id false auto m = refl
over-mode id true auto m = elim (Bool-cases (is_added id)) [
  | inl there ↦ rw (mode, there) refl
  | inr away ↦ rw (mode, away) refl
]

set_job-lookup :
    (id k : String) (auto : Bool) (jobs : Dict Bool)
    → lookup k (set_job id auto jobs)
      ≡ (if str_eq id k then over auto (lookup k jobs) else lookup k jobs)
unfolding set_job
set_job-lookup id k auto jobs = elim (Option-cases (lookup id jobs)) [
  | inl e ↦ rw (set_job, e) (ground (arith, e, eq_iff id k))
  | inr (m, e) ↦ rw (set_job, e) (ground (arith, e, eq_iff id k, lookup-insert id k auto jobs))
]

pub saved-upsert :
    (a k : String) (auto : Bool) (now : ℕ) (rows : Dict JobPreference)
    → saved k (upsert a auto now rows) ≡ (if str_eq a k then auto else saved k rows)
unfolding upsert with_mode saved
saved-upsert a k auto now rows =
    ground (arith, lookup-insert a k (with_mode auto now (lookup a rows)) rows, eq_iff a k)

-- The rows that say the same for every action say the same for all jobs.
pub Agrees : JobEntry → JobEntry → Type 0
Agrees e f = str_eq e.job_id f.job_id ≡ str_eq e.action f.action

pub All-Agrees : All (λ e. All (Agrees e) job_definitions) job_definitions
unfolding Agrees
All-Agrees = ground arith

pub find_entry-All :
    (P : JobEntry → Type 0) (action : String) (e : JobEntry) (es : List JobEntry)
    → find_entry action es ≡ some e
    → All P es
    → P e × (str_eq e.action action ≡ true)
unfolding find_entry
find_entry-All P action e [] h k = absurd (cc)
find_entry-All P action e (f ∷ fs) h k = elim (Bool-cases (str_eq f.action action)) [
  | inl same ↦ ground (arith, h, same, k.0)
  | inr other ↦ find_entry-All P action e fs (ground (arith, h, other)) k.1
]

pub IsSaved-set_job :
    (e : JobEntry) (auto : Bool) (now : ℕ) (es : List JobEntry) (jobs : Dict Bool)
    (rows : Dict JobPreference)
    → All (Agrees e) es
    → IsSaved es jobs rows
    → IsSaved es (set_job e.job_id auto jobs) (upsert e.action auto now rows)
unfolding Agrees
IsSaved-set_job e auto now [] jobs rows h k = tt
IsSaved-set_job e auto now (f ∷ fs) jobs rows h k = (
  set_job-lookup e.job_id f.job_id auto jobs
      ∙ rw (h.0, k.0, saved-upsert e.action f.action auto now rows)
          (over-mode f.job_id (str_eq e.action f.action) auto (saved f.action rows)),
  IsSaved-set_job e auto now fs jobs rows h.1 k.1,
)

pub IsSaved-set_jobs :
    (auto : Bool) (now : ℕ) (fs es : List JobEntry) (jobs : Dict Bool) (rows : Dict JobPreference)
    → All (λ e. All (Agrees e) es) fs
    → IsSaved es jobs rows
    → IsSaved es (set_jobs auto fs jobs) (upsert_all fs auto now rows)
unfolding set_jobs upsert_all
IsSaved-set_jobs auto now [] es jobs rows h k = k
IsSaved-set_jobs auto now (f ∷ fs) es jobs rows h k =
    IsSaved-set_jobs auto now fs es _ _ h.1 (IsSaved-set_job f auto now es jobs rows h.0 k)

abbrev pub mode_after : String → Dict JobPreference → List JobEntry → Bool → Bool
mode_after id rows [] m = m
mode_after id rows (e ∷ es) m =
    mode_after id rows es (if str_eq e.job_id id then row_mode (lookup e.action rows) m else m)

pub restore_jobs-lookup :
    (id : String) (rows : Dict JobPreference) (es : List JobEntry) (jobs : Dict Bool) (m : Bool)
    → lookup id jobs ≡ mode id m
    → lookup id (restore_jobs rows es jobs) ≡ mode id (mode_after id rows es m)
unfolding restore_jobs
restore_jobs-lookup id rows [] jobs m h = h
restore_jobs-lookup id rows (e ∷ es) jobs m h = elim (Option-cases (lookup e.action rows)) [
  | inl nothing ↦
      rw (restore_jobs, nothing, if-same (str_eq e.job_id id) m)
        (restore_jobs-lookup id rows es jobs m h)
  | inr (row, e') ↦
      rw (restore_jobs, e')
        (restore_jobs-lookup id rows es (set_job e.job_id row.auto jobs) _ (
          set_job-lookup e.job_id id row.auto jobs
          ∙ rw h (over-mode id (str_eq e.job_id id) row.auto m)))
]
