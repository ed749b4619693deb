-- ===== src/Feed/Store/Tests.antt =====
-- The candle store at concrete inputs.
use igthon.Prelude.{
  ℕ, ◌+◌, ◌≡◌, refl, String, Bool, true, not, [], ◌∷◌, ◌++◌, ◌==◌, if◌then◌else◌, length, ltb,
}
use igthon.Prelude.Dicts.{lookup, insert}
use igthon.Prelude.Int.{pos}
use igthon.Feed.Candle.{Candle}
use igthon.Feed.Buffer.{is_newer}
use igthon.Feed.Buffer.Content.{newer}
use igthon.Feed.Store.{CandleRecord, CandleStore, latest, rows, save, keep, order_by, put_row}
use igthon.Feed.Store.Archive.{
  Calendar, dump_and_purge, is_old, archive_rows, write_weeks, sort_buckets, put_bucket,
  fill_buckets, add_to_bucket, iso_week_label, rows_to_write, append_file, file_of,
}
use igthon.Feed.Store.Saving.{save-Increasing, save_repeated}
use igthon.Feed.Store.Purge.{tally, tally_all, dump_and_purge-moves}

abbrev candle : ℕ → Candle
candle t = record {
  timestamp = t;
  bid_open = pos 1;
  bid_close = pos 1;
  bid_high = pos 1;
  bid_low = pos 1;
  offer_open = pos 2;
  offer_close = pos 2;
  offer_high = pos 2;
  offer_low = pos 2;
  volume = 0;
}

abbrev row : String → ℕ → CandleRecord
row epic t = record { epic = epic; candle = candle t }

abbrev calendar : Calendar
calendar = record {
  isocalendar = λ t. (2026, if ltb t 5 then 1 else 2);
  isoformat = λ t. if t == 1 then "1" else "2";
  decimal = λ n. "2026";
  two_digits = λ n. if n == 1 then "01" else "02";
  precedes = λ a b. true;
}

abbrev store : CandleStore
store = record {
  table = row "DAX" 1 ∷ row "EUR" 6 ∷ row "DAX" 7 ∷ row "DAX" 9 ∷ [];
  archive = [];
  retention = 10;
}

-- Three rows have aged, of two weeks.
purge-store :
    (dump_and_purge calendar 18 store).0 ≡ (3, "candles_2026-W01.csv" ∷ "candles_2026-W02.csv" ∷ [])
unfolding dump_and_purge archive_rows write_weeks sort_buckets put_bucket fill_buckets add_to_bucket
    iso_week_label rows_to_write append_file file_of keep order_by put_row lookup insert
purge-store = refl

abbrev is_dax_seven : CandleRecord → Bool
is_dax_seven r = r.candle.timestamp == 7

dump_and_purge-moves_example :
    let after = (dump_and_purge calendar 18 store).1 in
    (tally is_dax_seven after.table + tally_all is_dax_seven after.archive
      ≡ tally is_dax_seven store.table + tally_all is_dax_seven store.archive)
    × (after.table ≡ keep (λ r. not (is_old 18 store.retention r)) store.table)
dump_and_purge-moves_example = dump_and_purge-moves calendar 18 store is_dax_seven

save-Increasing_example :
    let cs = candle 7 ∷ candle 9 ∷ candle 10 ∷ candle 12 ∷ [] in
    let new = newer (latest "DAX" store.table) cs in
    save "DAX" cs store ≡ (length new, record store { table = store.table ++ rows "DAX" new })
unfolding is_newer
save-Increasing_example =
    save-Increasing "DAX" (candle 7 ∷ candle 9 ∷ candle 10 ∷ candle 12 ∷ []) store
      (refl, (refl, (refl, (refl, tt))))

save_repeated_example : save "DAX" (candle 10 ∷ candle 10 ∷ candle 11 ∷ []) store ≡ (0, store)
unfolding is_newer latest
save_repeated_example = save_repeated "DAX" (candle 10) (candle 10) (candle 11 ∷ []) store refl refl
