-- ===== src/Feed/Buffer.antt =====
-- The in-memory candle buffer (src/feed/price_buffer.py). A deque is a list, oldest first.
pub mod Content
pub mod Order
pub mod Writes
mod Tests
use igthon.Prelude.{
  ℕ, ◌-◌, String, Bool, true, false, Option, none, some, List, [], ◌∷◌, ◌++◌, map, ltb,
  if◌then◌else◌, length, drop, last?,
}
use igthon.Prelude.Dicts.{Dict, lookup, insert, erase}
use igthon.Prelude.Ring.{keep_last}
use igthon.Num.{Float, Arith}
use igthon.Feed.Candle.{Candle, mid_close, spread}

abbrev pub default_max_candles : ℕ
default_max_candles = 200

pub record EpicBuffer : Type 0 where
  pub epic : String
  pub max_candles : ℕ
  pub candles : List Candle

unfoldable pub add : Candle → EpicBuffer → EpicBuffer
add c b = record b { candles = keep_last b.max_candles (b.candles ++ c ∷ []) }

unfoldable pub last : EpicBuffer → Option Candle
last b = last? b.candles

unfoldable pub bid_closes : EpicBuffer → List Float
bid_closes b = map (λ (c : Candle). c.bid_close) b.candles

unfoldable pub offer_closes : EpicBuffer → List Float
offer_closes b = map (λ (c : Candle). c.offer_close) b.candles

module _ (a : Arith) where
  unfoldable pub mid_closes : EpicBuffer → List Float
  mid_closes b = map (mid_close a) b.candles

  unfoldable pub spreads : EpicBuffer → List Float
  spreads b = map (spread a) b.candles

pub record PriceBuffer : Type 0 where
  pub max_candles : ℕ
  pub buffers : Dict EpicBuffer

abbrev pub empty : ℕ → PriceBuffer
empty n = record { max_candles = n; buffers = [] }

unfoldable pub get : String → PriceBuffer → Option EpicBuffer
get epic p = lookup epic p.buffers

-- The buffer that `get_or_create` returns; the entry is made by `put`.
unfoldable pub get_or_create : String → PriceBuffer → EpicBuffer
get_or_create epic p = elim (lookup epic p.buffers) [
  | none ↦ record { epic = epic; max_candles = p.max_candles; candles = [] }
  | some b ↦ b
]

-- The caller changes the buffer that it got in place, so the entry holds the change.
unfoldable pub put : String → EpicBuffer → PriceBuffer → PriceBuffer
put epic b p = record p { buffers = insert epic b p.buffers }

unfoldable pub add_all : List Candle → EpicBuffer → EpicBuffer
add_all [] b = b
add_all (c ∷ cs) b = add_all cs (add c b)

unfoldable pub update : String → List Candle → PriceBuffer → PriceBuffer
update epic cs p = put epic (add_all cs (record (get_or_create epic p) { candles = [] })) p

-- `last_ts is None or candle.timestamp > last_ts`
unfoldable pub is_newer : Option ℕ → Candle → Bool
is_newer none c = true
is_newer (some t) c = ltb t c.timestamp

-- The loop of `append_candles`, with its variable `last_ts`.
unfoldable pub append_newer : Option ℕ → List Candle → EpicBuffer → EpicBuffer
append_newer t [] b = b
append_newer t (c ∷ cs) b =
    let taken = append_newer (some c.timestamp) cs (add c b) in
    let left = append_newer t cs b in if is_newer t c then taken else left

abbrev pub time_of : Option Candle → Option ℕ
time_of none = none
time_of (some c) = some c.timestamp

unfoldable pub last_timestamp : EpicBuffer → Option ℕ
unfolding last
last_timestamp b = time_of (last b)

unfoldable pub append_candles : String → List Candle → PriceBuffer → PriceBuffer
append_candles epic cs p =
    let b = get_or_create epic p in put epic (append_newer (last_timestamp b) cs b) p

unfoldable pub add_candle : String → Candle → PriceBuffer → PriceBuffer
add_candle epic c p = put epic (add c (get_or_create epic p)) p

unfoldable pub clear : PriceBuffer → PriceBuffer
clear p = record p { buffers = [] }

unfoldable pub clear_epic : String → PriceBuffer → PriceBuffer
clear_epic epic p = record p { buffers = erase epic p.buffers }

unfoldable pub tracked_epics : PriceBuffer → List String
tracked_epics p = map (λ (e : String × EpicBuffer). e.0) p.buffers

unfoldable pub size : PriceBuffer → ℕ
size p = length p.buffers
