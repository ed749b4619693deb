-- ===== src/Feed/Buffer/Tests.antt =====
-- Runs of the price buffer, and the theorems at concrete inputs.
use igthon.Prelude.{
  ℕ, ◌≤◌, ◌≡◌, refl, none, some, List, [], ◌∷◌, ◌++◌, arith, length, if◌then◌else◌, str_eq,
}
use igthon.Prelude.Dicts.{lookup, insert}
use igthon.Prelude.Int.{pos}
use igthon.Prelude.Ring.{keep_last}
use igthon.Feed.Candle.{Candle}
use igthon.Feed.Buffer.{
  EpicBuffer, PriceBuffer, empty, add, put, append_newer, is_newer, get, get_or_create,
  append_candles, last_timestamp,
}
use igthon.Feed.Buffer.Content.{newer, get-append_candles}
use igthon.Feed.Buffer.Order.{Increasing}
use igthon.Feed.Buffer.Writes.{Write, append, write, writes, writes_bounded, writes_sorted}

abbrev candle : ℕ → Candle
candle t = record {
  timestamp = t;
  bid_open = pos 1;
  bid_close = pos 1;
  bid_high = pos 1;
  bid_low = pos 1;
  offer_open = pos 2;
  offer_close = pos 2;
  offer_high = pos 2;
  offer_low = pos 2;
  volume = 0;
}

-- The third fetch overlaps the second, and holds a frame out of order.
abbrev fetches : List Write
fetches =
    append "DAX" (candle 1 ∷ candle 2 ∷ [])
    ∷ append "DAX" (candle 2 ∷ candle 4 ∷ candle 3 ∷ candle 5 ∷ [])
    ∷ append "EUR" (candle 9 ∷ [])
    ∷ []

abbrev dax : EpicBuffer
dax = record { epic = "DAX"; max_candles = 3; candles = candle 2 ∷ candle 4 ∷ candle 5 ∷ [] }

writes-fetches : get "DAX" (writes fetches (empty 3)) ≡ some dax
unfolding get writes write append_candles append_newer is_newer put get_or_create last_timestamp add
    lookup insert keep_last
writes-fetches = refl

writes_bounded_example : length dax.candles ≤ 3
writes_bounded_example = writes_bounded 3 fetches "DAX" {b = dax} writes-fetches

writes_sorted_example : Increasing none dax.candles
writes_sorted_example =
    writes_sorted 3 fetches "DAX" {b = dax} (refl, (refl, (refl, tt))) writes-fetches

abbrev book : PriceBuffer
book = record { max_candles = 3; buffers = ("DAX", dax) ∷ [] }

get-append_candles_example : get "DAX" (append_candles "DAX" (candle 4 ∷ candle 7 ∷ []) book) ≡ (
    if str_eq "DAX" "DAX"
    then some (record dax {
      candles = keep_last 3 (dax.candles ++ newer (last_timestamp dax) (candle 4 ∷ candle 7 ∷ []));
    })
    else get "DAX" book)
unfolding get_or_create lookup
get-append_candles_example =
    get-append_candles "DAX" (candle 4 ∷ candle 7 ∷ []) book (omega arith) "DAX"
