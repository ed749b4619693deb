-- ===== src/Feed/Buffer/Writes.antt =====
-- Any sequence of writes to the price buffer (src/feed/price_buffer.py).
use igthon.Prelude.{
  ℕ, ◌≤◌, ◌<◌, ◌≡◌, refl, ap, ◌∙◌, String, Bool, true, false, none, some, List, [], ◌∷◌, ◌++◌,
  arith, length, All, Option-cases, inl, inr, eq_iff,
}
use igthon.Prelude.Dicts.{
  lookup, Values, Values-insert, Values-erase, Values-lookup, insert-insert, lookup-insert,
}
use igthon.Prelude.Ring.{length-keep_last}
use igthon.Feed.Candle.{Candle}
use igthon.Feed.Buffer.{
  EpicBuffer, PriceBuffer, empty, get, get_or_create, put, update, append_candles, add_candle,
  clear, clear_epic, append_newer, add_all, last_timestamp, add,
}
use igthon.Feed.Buffer.Content.{IsBounded, append_newer-content, append_newer-nothing}
use igthon.Feed.Buffer.Order.{Increasing, newer-after, append_newer-Increasing}

pub data Write : Type 0 where
  replace append : String → List Candle → Write
  add_one : String → Candle → Write
  clear_all : Write
  clear_one : String → Write

unfoldable pub write : Write → PriceBuffer → PriceBuffer
write (replace epic cs) p = update epic cs p
write (append epic cs) p = append_candles epic cs p
write (add_one epic c) p = add_candle epic c p
write clear_all p = clear p
write (clear_one epic) p = clear_epic epic p

unfoldable pub writes : List Write → PriceBuffer → PriceBuffer
writes [] p = p
writes (w ∷ ws) p = writes ws (write w p)

-- The feed's writes: the ones that keep the order.
abbrev pub in_order : Write → Bool
in_order (replace epic cs) = false
in_order (add_one epic c) = false
in_order _ = true

module _ (n : ℕ) where
  -- A buffer of the capacity, with no more candles than that.
  abbrev pub IsSized : EpicBuffer → Type 0
  IsSized b = (b.max_candles ≡ n) × IsBounded b

  -- The same, with times that grow strictly.
  abbrev pub IsOrdered : EpicBuffer → Type 0
  IsOrdered b = IsSized b × Increasing none b.candles

  abbrev pub Holds {ℓ} : (EpicBuffer → Type ℓ) → PriceBuffer → Type ℓ
  Holds P p = (p.max_candles ≡ n) × Values P p.buffers

  module _ (P : EpicBuffer → Type 0)
      (new : (b : EpicBuffer) → b.max_candles ≡ n → b.candles ≡ [] → P b) where
    get_or_create-Holds : (epic : String) (p : PriceBuffer) → Holds P p → P (get_or_create epic p)
    unfolding get_or_create
    get_or_create-Holds epic p h = elim (Option-cases (lookup epic p.buffers)) [
      | inl missing ↦ rw (missing, get_or_create) (new _ h.0 refl)
      | inr (b, found) ↦ rw (found, get_or_create) (Values-lookup P epic b p.buffers h.1 found)
    ]

  IsSized-new : (b : EpicBuffer) → b.max_candles ≡ n → b.candles ≡ [] → IsSized b
  IsSized-new b size none_yet = (size, rw none_yet (omega arith))

  add_all-IsSized : (cs : List Candle) (b : EpicBuffer) → IsSized b → IsSized (add_all cs b)
  unfolding add_all add
  add_all-IsSized [] b h = h
  add_all-IsSized (c ∷ cs) b h =
      add_all-IsSized cs (add c b) (h.0, length-keep_last b.max_candles (b.candles ++ c ∷ []))

  append_newer-IsSized :
      (cs : List Candle) (b : EpicBuffer)
      → IsSized b
      → IsSized (append_newer (last_timestamp b) cs b)
  append_newer-IsSized cs b h = rw (append_newer-content cs b h.1) (h.0, length-keep_last _ _)

  got : (epic : String) (p : PriceBuffer) → Holds IsSized p → IsSized (get_or_create epic p)
  got = get_or_create-Holds IsSized IsSized-new

  write-IsSized : (w : Write) (p : PriceBuffer) → Holds IsSized p → Holds IsSized (write w p)
  unfolding write update append_candles add_candle clear clear_epic put add_all
  write-IsSized (replace epic cs) p h =
      let b = got epic p h in
      (
        h.0,
        Values-insert IsSized epic _ p.buffers h.1 (
            add_all-IsSized cs (record (get_or_create epic p) { candles = [] }) (b.0, omega arith)),
      )
  write-IsSized (append epic cs) p h = (
    h.0,
    Values-insert IsSized epic _ p.buffers h.1
        (append_newer-IsSized cs (get_or_create epic p) (got epic p h)),
  )
  write-IsSized (add_one epic c) p h = (
    h.0,
    Values-insert IsSized epic _ p.buffers h.1
        (add_all-IsSized (c ∷ []) (get_or_create epic p) (got epic p h)),
  )
  write-IsSized clear_all p h = (h.0, tt)
  write-IsSized (clear_one epic) p h = (h.0, Values-erase IsSized epic p.buffers h.1)

  writes-IsSized :
      (ws : List Write) (p : PriceBuffer) → Holds IsSized p → Holds IsSized (writes ws p)
  unfolding writes
  writes-IsSized [] p h = h
  writes-IsSized (w ∷ ws) p h = writes-IsSized ws (write w p) (write-IsSized w p h)

  IsOrdered-new : (b : EpicBuffer) → b.max_candles ≡ n → b.candles ≡ [] → IsOrdered b
  IsOrdered-new b size none_yet = (IsSized-new b size none_yet, rw none_yet tt)

  write-IsOrdered :
      (w : Write) (p : PriceBuffer)
      → in_order w ≡ true
      → Holds IsOrdered p
      → Holds IsOrdered (write w p)
  unfolding write append_candles clear clear_epic put
  write-IsOrdered (replace epic cs) p i h = cc
  write-IsOrdered (add_one epic c) p i h = cc
  write-IsOrdered (append epic cs) p i h =
      let b = get_or_create epic p in
      let old = get_or_create-Holds IsOrdered IsOrdered-new epic p h in
      (
        h.0,
        Values-insert IsOrdered epic _ p.buffers h.1
            (append_newer-IsSized cs b old.0, append_newer-Increasing cs b old.0.1 old.1),
      )
  write-IsOrdered clear_all p i h = (h.0, tt)
  write-IsOrdered (clear_one epic) p i h = (h.0, Values-erase IsOrdered epic p.buffers h.1)

  writes-IsOrdered :
      (ws : List Write) (p : PriceBuffer)
      → All (λ w. in_order w ≡ true) ws
      → Holds IsOrdered p
      → Holds IsOrdered (writes ws p)
  unfolding writes
  writes-IsOrdered [] p i h = h
  writes-IsOrdered (w ∷ ws) p i h = writes-IsOrdered ws (write w p) i.1 (write-IsOrdered w p i.0 h)

-- Whatever was written to a new price buffer, no epic's buffer holds more candles than its
-- capacity.
pub writes_bounded :
    (n : ℕ) (ws : List Write) (epic : String) {b : EpicBuffer}
    → get epic (writes ws (empty n)) ≡ some b
    → length b.candles ≤ n
unfolding get
writes_bounded n ws epic {b} found =
    let (size, bounded) =
      Values-lookup (IsSized n) epic b (writes ws (empty n)).buffers
        (writes-IsSized n ws (empty n) (refl, tt)).1 found in
    omega (arith, size, bounded)

-- As long as the candles came by `append_candles` alone, whatever lists it was given and whatever
-- was cleared, the timestamps of every epic's buffer grow strictly.
pub writes_sorted :
    (n : ℕ) (ws : List Write) (epic : String) {b : EpicBuffer}
    → All (λ w. in_order w ≡ true) ws
    → get epic (writes ws (empty n)) ≡ some b
    → Increasing none b.candles
unfolding get
writes_sorted n ws epic {b} ordered found =
    (Values-lookup (IsOrdered n) epic b (writes ws (empty n)).buffers
      (writes-IsOrdered n ws (empty n) ordered (refl, tt)).1 found).1

get_or_create-put :
    (epic : String) (b : EpicBuffer) (p : PriceBuffer) → get_or_create epic (put epic b p) ≡ b
unfolding get_or_create put
get_or_create-put epic b p = ground (arith, lookup-insert epic epic b p.buffers, eq_iff epic epic)

put-put :
    (epic : String) (b : EpicBuffer) (p : PriceBuffer) → put epic b (put epic b p) ≡ put epic b p
unfolding put
put-put epic b p = rw (insert-insert epic b p.buffers)

-- A second `append_candles` of the same list changes nothing, for an epic whose buffer has room for
-- a candle at all and is within its length.
append_candles-again :
    (epic : String) (cs : List Candle) (p : PriceBuffer)
    → 0 < (get_or_create epic p).max_candles
    → IsBounded (get_or_create epic p)
    → append_candles epic cs (append_candles epic cs p) ≡ append_candles epic cs p
unfolding append_candles
append_candles-again epic cs p pos bounded =
    let b = get_or_create epic p in
    let b' = append_newer (last_timestamp b) cs b in
    rw (get_or_create-put epic b' p) (
      ap (λ (x : EpicBuffer). put epic x (put epic b' p))
        (append_newer-nothing (last_timestamp b') cs b' (newer-after cs b pos bounded))
      ∙ put-put epic b' p)
