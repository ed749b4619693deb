-- ===== src/Feed/Store/Archive.antt =====
-- The week files of the candle store (src/feed/candle_store.py): the purge and the export.
use igthon.Prelude.{
  ℕ, ◌+◌, String, Bool, true, false, not, ◌&&◌, ◌||◌, Option, none, some, List, [], ◌∷◌, ◌++◌, ltb,
  if◌then◌else◌, length, str_eq,
}
use igthon.Prelude.Dicts.{Dict, lookup, insert}
use igthon.Feed.Store.{CandleRecord, CandleStore, keep, order_by, by_time}
use Prim.Native.String.{◌++◌ as text_append}

-- What the store uses of Python's datetime and of the database: the year and week of a moment, its
-- text, the text of a number and with two digits at least, and the order of texts.
pub record Calendar : Type 0 where
  pub isocalendar : ℕ → ℕ × ℕ
  pub isoformat : ℕ → String
  pub decimal : ℕ → String
  pub two_digits : ℕ → String
  pub precedes : String → String → Bool

unfoldable pub file_of : String → String
file_of week = text_append "candles_" (text_append week ".csv")

unfoldable pub append_file :
    String → List CandleRecord → Dict (List CandleRecord) → Dict (List CandleRecord)
append_file path new archive = elim (lookup path archive) [
  | none ↦ insert path new archive
  | some old ↦ insert path (old ++ new) archive
]

-- `timestamp < now - retention`
abbrev pub is_old : ℕ → ℕ → CandleRecord → Bool
is_old now retention r = ltb (r.candle.timestamp + retention) now

module _ (cal : Calendar) where
  unfoldable pub iso_week_label : ℕ → String
  iso_week_label moment =
      let (year, week) = cal.isocalendar moment in
      text_append (cal.decimal year) (text_append "-W" (cal.two_digits week))

  abbrev pub by_epic_and_time : CandleRecord → CandleRecord → Bool
  by_epic_and_time r s = if str_eq r.epic s.epic then by_time r s else cal.precedes r.epic s.epic

  -- `buckets.setdefault(week, []).append(r)`
  unfoldable pub add_to_bucket : CandleRecord → Dict (List CandleRecord) → Dict (List CandleRecord)
  unfolding iso_week_label
  add_to_bucket r buckets =
      let week = iso_week_label r.candle.timestamp in
      elim (lookup week buckets) [
        | none ↦ insert week (r ∷ []) buckets
        | some rs ↦ insert week (rs ++ r ∷ []) buckets
      ]

  unfoldable pub fill_buckets :
      List CandleRecord → Dict (List CandleRecord) → Dict (List CandleRecord)
  fill_buckets [] buckets = buckets
  fill_buckets (r ∷ rs) buckets = fill_buckets rs (add_to_bucket r buckets)

  -- `sorted(buckets.items())`
  unfoldable pub put_bucket :
      String × List CandleRecord → Dict (List CandleRecord) → Dict (List CandleRecord)
  put_bucket b [] = b ∷ []
  put_bucket b (c ∷ cs) =
      let rest = put_bucket b cs in if cal.precedes b.0 c.0 then b ∷ c ∷ cs else c ∷ rest

  unfoldable pub sort_buckets : Dict (List CandleRecord) → Dict (List CandleRecord)
  unfolding put_bucket
  sort_buckets [] = []
  sort_buckets (b ∷ bs) = put_bucket b (sort_buckets bs)

  -- `_existing_keys`, and whether it has a row's key.
  unfoldable pub has_key : CandleRecord → List CandleRecord → Bool
  has_key r [] = false
  has_key r (s ∷ ss) =
      (str_eq s.epic r.epic
        && str_eq (cal.isoformat s.candle.timestamp) (cal.isoformat r.candle.timestamp))
      || has_key r ss

  -- The rows of a week that are written, given its file.
  unfoldable pub rows_to_write :
      Bool → Option (List CandleRecord) → List CandleRecord → List CandleRecord
  unfolding keep
  rows_to_write dedup none week_rows = week_rows
  rows_to_write dedup (some old) week_rows =
      if dedup then keep (λ r. not (has_key r old)) week_rows else week_rows

  -- The loop of `_archive_rows`: the rows written, the paths, and the files after it.
  unfoldable pub write_weeks :
      Bool
      → Dict (List CandleRecord)
      → Dict (List CandleRecord)
      → ℕ × List String × Dict (List CandleRecord)
  unfolding file_of rows_to_write append_file
  write_weeks dedup [] archive = (0, [], archive)
  write_weeks dedup ((week, week_rows) ∷ weeks) archive =
      let path = file_of week in
      let new = rows_to_write dedup (lookup path archive) week_rows in
      let (written, paths, files) = write_weeks dedup weeks (append_file path new archive) in
      (length new + written, path ∷ paths, files)

  unfoldable pub archive_rows :
      List CandleRecord
      → Bool
      → Dict (List CandleRecord)
      → ℕ × List String × Dict (List CandleRecord)
  unfolding fill_buckets sort_buckets write_weeks
  archive_rows rows dedup archive = write_weeks dedup (sort_buckets (fill_buckets rows [])) archive

  unfoldable pub dump_and_purge : ℕ → CandleStore → (ℕ × List String) × CandleStore
  unfolding keep order_by archive_rows
  dump_and_purge now s =
      let old = order_by by_epic_and_time (keep (is_old now s.retention) s.table) in
      elim old [
        | [] ↦ ((0, []), s)
        | r ∷ rs ↦
            let (written, paths, files) = archive_rows (r ∷ rs) false s.archive in
            (
              (length (r ∷ rs), paths),
              record s {
                table = keep (λ r. not (is_old now s.retention r)) s.table;
                archive = files;
              },
            )
      ]

  unfoldable pub export_to_archive : CandleStore → (ℕ × List String) × CandleStore
  unfolding order_by archive_rows
  export_to_archive s =
      let all_rows = order_by by_epic_and_time s.table in
      elim all_rows [
        | [] ↦ ((0, []), s)
        | r ∷ rs ↦
            let (written, paths, files) = archive_rows (r ∷ rs) true s.archive in
            ((written, paths), record s { archive = files })
      ]
