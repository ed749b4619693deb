-- ===== src/Feed/Buffer/Order.antt =====
-- The timestamps of a buffer that `append_candles` fills grow strictly, and a second fetch of the
-- same candles adds nothing (src/feed/price_buffer.py).
use igthon.Prelude.{
  ℕ, zero, suc, ◌-◌, ◌<◌, ◌≡◌, refl, true, false, Option, none, some, List, [], ◌∷◌, ◌++◌, arith,
  length, drop, Bool-cases, inl, inr, All, last?,
}
use igthon.Prelude.Ring.{keep_last, drop-nil}
use igthon.Feed.Candle.{Candle}
use igthon.Feed.Buffer.{EpicBuffer, is_newer, append_newer, last_timestamp, time_of}
use igthon.Feed.Buffer.Content.{newer, append_newer-content, IsBounded}

-- Each candle is newer than the one before it, and the first one than `t`.
abbrev pub Increasing : Option ℕ → List Candle → Type 0
Increasing t [] = Unit
Increasing t (c ∷ cs) = (is_newer t c ≡ true) × Increasing (some c.timestamp) cs

-- The time of the last candle, or `t` where there is none.
abbrev pub last_time : Option ℕ → List Candle → Option ℕ
last_time t [] = t
last_time t (c ∷ cs) = last_time (some c.timestamp) cs

pub newer-Increasing : (t : Option ℕ) (cs : List Candle) → Increasing t (newer t cs)
newer-Increasing t [] = tt
newer-Increasing t (c ∷ cs) = elim (Bool-cases (is_newer t c)) [
  | inl taken ↦ rw taken (taken, newer-Increasing (some c.timestamp) cs)
  | inr left ↦ rw left (newer-Increasing t cs)
]

Increasing-append :
    (t : Option ℕ) (xs ys : List Candle)
    → Increasing t xs
    → Increasing (last_time t xs) ys
    → Increasing t (xs ++ ys)
Increasing-append t [] ys hx hy = hy
Increasing-append t (x ∷ xs) ys hx hy = (hx.0, Increasing-append (some x.timestamp) xs ys hx.1 hy)

Increasing-none : (t : Option ℕ) (xs : List Candle) → Increasing t xs → Increasing none xs
unfolding is_newer
Increasing-none t [] h = tt
Increasing-none t (x ∷ xs) h = (refl, h.1)

Increasing-drop :
    (n : ℕ) (t : Option ℕ) (xs : List Candle) → Increasing t xs → Increasing none (drop n xs)
Increasing-drop zero t xs h = Increasing-none t xs h
Increasing-drop (suc n) t [] h = tt
Increasing-drop (suc n) t (x ∷ xs) h = Increasing-drop n (some x.timestamp) xs h.1

last?-time :
    (x : Candle) (xs : List Candle) → time_of (last? (x ∷ xs)) ≡ last_time (some x.timestamp) xs
last?-time x [] = refl
last?-time x (y ∷ xs) = last?-time y xs

pub last_timestamp-eq : (b : EpicBuffer) → last_timestamp b ≡ last_time none b.candles
unfolding last_timestamp
last_timestamp-eq b = of_list b.candles
  where
    of_list : (xs : List Candle) → time_of (last? xs) ≡ last_time none xs
    of_list [] = refl
    of_list (x ∷ xs) = last?-time x xs

last_time-append :
    (t : Option ℕ) (xs ys : List Candle) → last_time t (xs ++ ys) ≡ last_time (last_time t xs) ys
last_time-append t [] ys = refl
last_time-append t (x ∷ xs) ys = last_time-append (some x.timestamp) xs ys

last_time-drop :
    (n : ℕ) (t : Option ℕ) (xs : List Candle)
    → n < length xs
    → last_time none (drop n xs) ≡ last_time t xs
last_time-drop n t [] h = absurd (omega arith)
last_time-drop zero t (x ∷ xs) h = refl
last_time-drop (suc n) t (x ∷ xs) h = last_time-drop n (some x.timestamp) xs (omega arith)

last_time-keep_last :
    (n : ℕ) (xs : List Candle) → 0 < n → last_time none (keep_last n xs) ≡ last_time none xs
unfolding keep_last
last_time-keep_last n [] h = rw (drop-nil (0 - n))
last_time-keep_last n (x ∷ xs) h = last_time-drop (length (x ∷ xs) - n) none (x ∷ xs) (omega arith)

-- What is no newer than `t` is no newer than the last that was taken.
stale_later :
    (t : Option ℕ) (x : Candle) (cs : List Candle)
    → is_newer t x ≡ false
    → is_newer (last_time t (newer t cs)) x ≡ false
unfolding is_newer
stale_later none x cs h = cc
stale_later (some u) x [] h = h
stale_later (some u) x (c ∷ cs) h = elim (Bool-cases (is_newer (some u) c)) [
  | inl taken ↦ rw taken (stale_later (some c.timestamp) x cs (ground arith))
  | inr left ↦ rw left (stale_later (some u) x cs h)
]

newer-stale :
    (t : Option ℕ) (cs : List Candle) → All (λ c. is_newer t c ≡ false) cs → newer t cs ≡ []
newer-stale t [] h = refl
newer-stale t (c ∷ cs) h = rw h.0 (newer-stale t cs h.1)

-- Every candle of the list is no newer than the last that was taken.
each_stale :
    (t m : Option ℕ) (cs : List Candle)
    → last_time t (newer t cs) ≡ m
    → All (λ c. is_newer m c ≡ false) cs
unfolding is_newer
each_stale t m [] e = tt
each_stale t m (c ∷ cs) e = elim (Bool-cases (is_newer t c)) [
  | inl taken ↦
      let e' : last_time (some c.timestamp) (newer (some c.timestamp) cs) ≡ m = rw taken at e in
      (
        rw (← e') (stale_later (some c.timestamp) c cs (ground arith)),
        each_stale (some c.timestamp) m cs e',
      )
  | inr left ↦
      let e' : last_time t (newer t cs) ≡ m = rw left at e in
      (rw (← e') (stale_later t c cs left), each_stale t m cs e')
]

-- A full pass over the candles that a buffer has just taken takes none of them again.
newer-again :
    (n : ℕ) (xs cs : List Candle)
    → 0 < n
    → newer (last_time none (keep_last n (xs ++ newer (last_time none xs) cs))) cs ≡ []
newer-again n xs cs pos =
    rw
      (
        last_time-keep_last n (xs ++ newer (last_time none xs) cs) pos,
        last_time-append none xs (newer (last_time none xs) cs),
      )
      (newer-stale _ cs (each_stale (last_time none xs) _ cs refl))

-- For a buffer of a positive length, a second pass over a list of candles takes nothing.
pub newer-after :
    (cs : List Candle) (b : EpicBuffer)
    → 0 < b.max_candles
    → IsBounded b
    → newer (last_timestamp (append_newer (last_timestamp b) cs b)) cs ≡ []
newer-after cs b pos bounded =
    rw (append_newer-content cs b bounded, last_timestamp-eq)
      (rw last_timestamp-eq (newer-again b.max_candles b.candles cs pos))

pub append_newer-Increasing :
    (cs : List Candle) (b : EpicBuffer)
    → IsBounded b
    → Increasing none b.candles
    → Increasing none (append_newer (last_timestamp b) cs b).candles
unfolding keep_last
append_newer-Increasing cs b bounded h =
    rw (append_newer-content cs b bounded, last_timestamp-eq)
      (Increasing-drop _ none (b.candles ++ newer (last_time none b.candles) cs) (
        Increasing-append none b.candles (newer (last_time none b.candles) cs) h
          (newer-Increasing (last_time none b.candles) cs)))
