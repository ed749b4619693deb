-- ===== src/Feed/Store/Purge.antt =====
-- A purge moves rows, and loses none (src/feed/candle_store.py).
use igthon.Prelude.{
  ℕ, ◌+◌, ◌≡◌, ◌≢◌, refl, ap, sym, ◌∙◌, inl, inr, String, Bool, false, not, Option, none, some,
  List, [], ◌∷◌, ◌++◌, if◌then◌else◌, str_eq, arith, Bool-cases, Option-cases, List-cases,
}
use igthon.Prelude.Dicts.{Dict, lookup, insert}
use igthon.Feed.Store.{CandleRecord, CandleStore, keep, put_row, order_by}
use igthon.Feed.Store.Archive.{
  Calendar, by_epic_and_time, iso_week_label, file_of, add_to_bucket, fill_buckets, put_bucket,
  sort_buckets, append_file, rows_to_write, write_weeks, archive_rows, is_old, dump_and_purge,
}

abbrev pub one_if : Bool → ℕ
one_if b = if b then 1 else 0

keep_all :
    (q : CandleRecord → Bool) (rs : List CandleRecord)
    → keep q rs ≡ []
    → keep (λ r. not (q r)) rs ≡ rs
unfolding keep
keep_all q [] h = refl
keep_all q (r ∷ rs) h = elim (Bool-cases (q r)) [
  | inl yes_ ↦ let kept = rw yes_ at h in cc
  | inr no_ ↦ let rest = rw no_ at h in rw (no_, keep_all q rs rest) refl
]

put_row-some :
    (before : CandleRecord → CandleRecord → Bool) (r : CandleRecord) (rs : List CandleRecord)
    → put_row before r rs ≢ []
unfolding put_row
put_row-some before r [] = ground arith
put_row-some before r (s ∷ ss) = ground arith

order_by-nil :
    (before : CandleRecord → CandleRecord → Bool) (rs : List CandleRecord)
    → order_by before rs ≡ []
    → rs ≡ []
unfolding order_by
order_by-nil before [] h = refl
order_by-nil before (r ∷ rs) h = absurd (put_row-some before r (order_by before rs) h)

module _ (p : CandleRecord → Bool) where
  -- How many rows of a list, and of all the lists of a dictionary, have a property.
  abbrev pub tally : List CandleRecord → ℕ
  tally [] = 0
  tally (r ∷ rs) = one_if (p r) + tally rs

  abbrev pub tally_all : Dict (List CandleRecord) → ℕ
  tally_all [] = 0
  tally_all ((k, rs) ∷ d) = tally rs + tally_all d

  abbrev of_entry : Option (List CandleRecord) → ℕ
  of_entry none = 0
  of_entry (some rs) = tally rs

  tally-append : (rs ss : List CandleRecord) → tally (rs ++ ss) ≡ tally rs + tally ss
  tally-append [] ss = omega arith
  tally-append (r ∷ rs) ss = omega (arith, tally-append rs ss)

  tally-keep :
      (q : CandleRecord → Bool) (rs : List CandleRecord)
      → tally (keep q rs) + tally (keep (λ r. not (q r)) rs) ≡ tally rs
  unfolding keep
  tally-keep q [] = omega arith
  tally-keep q (r ∷ rs) = elim (Bool-cases (q r)) [
    | inl yes_ ↦ rw yes_ (omega (arith, tally-keep q rs))
    | inr no_ ↦ rw no_ (omega (arith, tally-keep q rs))
  ]

  module _ (before : CandleRecord → CandleRecord → Bool) where
    tally-put_row :
        (r : CandleRecord) (rs : List CandleRecord)
        → tally (put_row before r rs) ≡ one_if (p r) + tally rs
    unfolding put_row
    tally-put_row r [] = refl
    tally-put_row r (s ∷ ss) = elim (Bool-cases (before r s)) [
      | inl first ↦ rw first refl
      | inr later ↦ rw later (omega (arith, tally-put_row r ss))
    ]

    tally-order_by : (rs : List CandleRecord) → tally (order_by before rs) ≡ tally rs
    unfolding order_by
    tally-order_by [] = refl
    tally-order_by (r ∷ rs) = omega (arith, tally-put_row r (order_by before rs), tally-order_by rs)

  tally_all-insert :
      (k : String) (rs : List CandleRecord) (d : Dict (List CandleRecord))
      → tally_all (insert k rs d) + of_entry (lookup k d) ≡ tally_all d + tally rs
  unfolding lookup insert
  tally_all-insert k rs [] = omega arith
  tally_all-insert k rs ((j, ss) ∷ d) = elim (Bool-cases (str_eq j k)) [
    | inl same ↦ rw same (omega arith)
    | inr other ↦ rw other (omega (arith, tally_all-insert k rs d))
  ]

  -- The two ways to add rows at a key: to what is there, or to nothing.
  tally_all-append_file :
      (path : String) (new : List CandleRecord) (d : Dict (List CandleRecord))
      → tally_all (append_file path new d) ≡ tally_all d + tally new
  unfolding append_file
  tally_all-append_file path new d = elim (Option-cases (lookup path d)) [
    | inl missing ↦
        rw (append_file, missing)
          (let added = rw missing at (tally_all-insert path new d) in omega (arith, added))
    | inr (old, found) ↦
        rw (append_file, found)
          (let added = rw found at (tally_all-insert path (old ++ new) d) in
            omega (arith, added, tally-append old new))
  ]

  module _ (cal : Calendar) where
    tally_all-add_to_bucket :
        (r : CandleRecord) (d : Dict (List CandleRecord))
        → tally_all (add_to_bucket cal r d) ≡ tally_all d + one_if (p r)
    unfolding add_to_bucket
    tally_all-add_to_bucket r d =
        let week = iso_week_label cal r.candle.timestamp in
        elim (Option-cases (lookup week d)) [
          | inl missing ↦
              rw (add_to_bucket, missing)
                (let added = rw missing at (tally_all-insert week (r ∷ []) d) in
                  omega (arith, added))
          | inr (old, found) ↦
              rw (add_to_bucket, found)
                (let added = rw found at (tally_all-insert week (old ++ r ∷ []) d) in
                  omega (arith, added, tally-append old (r ∷ [])))
        ]

    tally_all-fill_buckets :
        (rs : List CandleRecord) (d : Dict (List CandleRecord))
        → tally_all (fill_buckets cal rs d) ≡ tally_all d + tally rs
    unfolding fill_buckets
    tally_all-fill_buckets [] d = omega arith
    tally_all-fill_buckets (r ∷ rs) d =
        omega
          (arith, tally_all-fill_buckets rs (add_to_bucket cal r d), tally_all-add_to_bucket r d)

    tally_all-put_bucket :
        (b : String × List CandleRecord) (d : Dict (List CandleRecord))
        → tally_all (put_bucket cal b d) ≡ tally b.1 + tally_all d
    unfolding put_bucket
    tally_all-put_bucket b [] = refl
    tally_all-put_bucket b (c ∷ d) = elim (Bool-cases (cal.precedes b.0 c.0)) [
      | inl first ↦ rw first refl
      | inr later ↦ rw later (omega (arith, tally_all-put_bucket b d))
    ]

    tally_all-sort_buckets :
        (d : Dict (List CandleRecord)) → tally_all (sort_buckets cal d) ≡ tally_all d
    unfolding sort_buckets
    tally_all-sort_buckets [] = refl
    tally_all-sort_buckets (b ∷ d) =
        omega (arith, tally_all-put_bucket b (sort_buckets cal d), tally_all-sort_buckets d)

    rows_all :
        (old : Option (List CandleRecord)) (new : List CandleRecord)
        → rows_to_write cal false old new ≡ new
    unfolding rows_to_write
    rows_all none new = refl
    rows_all (some old) new = refl

    tally_all-write_weeks :
        (weeks d : Dict (List CandleRecord))
        → tally_all (write_weeks cal false weeks d).2 ≡ tally_all d + tally_all weeks
    unfolding write_weeks
    tally_all-write_weeks [] d = omega arith
    tally_all-write_weeks ((week, new) ∷ weeks) d = rw (rows_all (lookup (file_of week) d) new) (
        omega (
          arith,
          tally_all-write_weeks weeks (append_file (file_of week) new d),
          tally_all-append_file (file_of week) new d,
        ))

    tally_all-archive_rows :
        (rs : List CandleRecord) (d : Dict (List CandleRecord))
        → tally_all (archive_rows cal rs false d).2 ≡ tally_all d + tally rs
    unfolding archive_rows
    tally_all-archive_rows rs d = omega (
      arith,
      tally_all-write_weeks (sort_buckets cal (fill_buckets cal rs [])) d,
      tally_all-sort_buckets (fill_buckets cal rs []),
      tally_all-fill_buckets rs [],
    )

-- A purge moves every row that is older than the retention from the table into the week files, and
-- no other, and loses or doubles none: of the rows with any property, the table and the files have
-- as many together as before.
pub dump_and_purge-moves :
    (cal : Calendar) (now : ℕ) (s : CandleStore) (p : CandleRecord → Bool)
    → let after = (dump_and_purge cal now s).1 in
      (tally p after.table + tally_all p after.archive ≡ tally p s.table + tally_all p s.archive)
      × (after.table ≡ keep (λ r. not (is_old now s.retention r)) s.table)
unfolding dump_and_purge
dump_and_purge-moves cal now s p =
    let q = is_old now s.retention in
    let old = order_by (by_epic_and_time cal) (keep q s.table) in
    elim (List-cases old) [
      | inl nothing ↦
          let same : keep (λ r. not (q r)) s.table ≡ s.table =
            keep_all q s.table (order_by-nil (by_epic_and_time cal) (keep q s.table) nothing) in
          rw (dump_and_purge, nothing) (refl, sym same)
      | inr (r, rs, found) ↦
          let sorted : tally p (r ∷ rs) ≡ tally p (keep q s.table) =
            ap (tally p) (sym found) ∙ tally-order_by p (by_epic_and_time cal) (keep q s.table) in
          rw (dump_and_purge, found)
            (
              omega (
                arith,
                sorted,
                tally-keep p q s.table,
                tally_all-archive_rows p cal (r ∷ rs) s.archive,
              ),
              refl,
            )
    ]
