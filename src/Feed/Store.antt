-- ===== src/Feed/Store.antt =====
-- The candle store (src/feed/candle_store.py, src/models/candle.py). The table is the list of its
-- rows; a week file is the list of the rows under its header. A row stands for its line of text.
pub mod Archive
pub mod Saving
pub mod Purge
mod Tests
use igthon.Prelude.{
  ℕ, ◌+◌, ◌-◌, String, Bool, true, false, not, ◌&&◌, ◌||◌, Option, none, some, List, [], ◌∷◌, ◌++◌,
  map, max, ltb, leb, ◌==◌, if◌then◌else◌, length, str_eq, contains,
}
use igthon.Prelude.Dicts.{Dict, lookup, insert}
use igthon.Feed.Candle.{Candle}
use igthon.Feed.Buffer.{is_newer}
use Prim.Native.String.{◌++◌ as text_append}

pub record CandleRecord : Type 0 where
  pub epic : String
  pub candle : Candle

unfoldable pub record_to_candle : CandleRecord → Candle
record_to_candle r = r.candle

pub record CandleStore : Type 0 where
  pub table : List CandleRecord
  pub archive : Dict (List CandleRecord)
  pub retention : ℕ

-- `select(func.max(timestamp)).where(epic == epic)`
unfoldable pub latest : String → List CandleRecord → Option ℕ
latest epic [] = none
latest epic (r ∷ rs) =
    let rest = latest epic rs in
    if str_eq r.epic epic
    then elim rest [ none ↦ some r.candle.timestamp | some t ↦ some (max r.candle.timestamp t) ]
    else rest

unfoldable pub fresh : Option ℕ → List Candle → List Candle
fresh t [] = []
fresh t (c ∷ cs) = let rest = fresh t cs in if is_newer t c then c ∷ rest else rest

-- `uq_candle_epic_timestamp`
unfoldable pub is_stored : CandleRecord → List CandleRecord → Bool
is_stored r [] = false
is_stored r (s ∷ ss) =
    (str_eq s.epic r.epic && s.candle.timestamp == r.candle.timestamp) || is_stored r ss

-- A commit adds all rows, or none if the constraint refuses one.
unfoldable pub commit : List CandleRecord → List CandleRecord → Option (List CandleRecord)
commit [] table = some table
commit (r ∷ rs) table =
    let rest = commit rs (table ++ r ∷ []) in if is_stored r table then none else rest

abbrev pub rows : String → List Candle → List CandleRecord
rows epic = map (λ c. record { epic = epic; candle = c })

-- `save`, for a database that answers.
unfoldable pub save : String → List Candle → CandleStore → ℕ × CandleStore
unfolding fresh
save epic candles s =
    let new = fresh (latest epic s.table) candles in
    elim new [
      | [] ↦ (0, s)
      | c ∷ cs ↦ elim (commit (rows epic (c ∷ cs)) s.table) [
        | none ↦ (0, s)
        | some table ↦ (length (c ∷ cs), record s { table = table })
      ]
    ]

abbrev pub at_least : Option ℕ → CandleRecord → Bool
at_least none r = true
at_least (some t) r = leb t r.candle.timestamp

abbrev pub at_most : Option ℕ → CandleRecord → Bool
at_most none r = true
at_most (some t) r = leb r.candle.timestamp t

unfoldable pub keep : (CandleRecord → Bool) → List CandleRecord → List CandleRecord
keep p [] = []
keep p (r ∷ rs) = let rest = keep p rs in if p r then r ∷ rest else rest

unfoldable pub put_row :
    (CandleRecord → CandleRecord → Bool) → CandleRecord → List CandleRecord → List CandleRecord
put_row before r [] = r ∷ []
put_row before r (s ∷ ss) =
    let rest = put_row before r ss in if before r s then r ∷ s ∷ ss else s ∷ rest

unfoldable pub order_by :
    (CandleRecord → CandleRecord → Bool) → List CandleRecord → List CandleRecord
unfolding put_row
order_by before [] = []
order_by before (r ∷ rs) = put_row before r (order_by before rs)

abbrev pub by_time : CandleRecord → CandleRecord → Bool
by_time r s = leb r.candle.timestamp s.candle.timestamp

unfoldable pub fetch : String → Option ℕ → Option ℕ → CandleStore → List CandleRecord
unfolding keep order_by
fetch epic since until s =
    order_by by_time (keep (λ r. str_eq r.epic epic && at_least since r && at_most until r) s.table)

unfoldable pub fetch_candles : String → Option ℕ → Option ℕ → CandleStore → List Candle
unfolding fetch
fetch_candles epic since until s = map record_to_candle (fetch epic since until s)
