-- ===== src/Guard/Counts.antt =====
-- Counting the timestamps of a window (`_prune` and the two sums of src/core/api_guard.py).
use igthon.Prelude.{
  ℕ, ◌+◌, ◌≤◌, ◌<◌, ◌≡◌, refl, List, [], ◌∷◌, ◌++◌, none, some, arith, length, Option-cases, inl,
  inr,
}
use igthon.Guard.{minute, prune_list, count_within, oldest_within}

pub count_within-le-length : (w now : ℕ) (ts : List ℕ) → count_within w now ts ≤ length ts
unfolding count_within
count_within-le-length w now [] = omega arith
count_within-le-length w now (t ∷ ts) = ground (arith, count_within-le-length w now ts)

-- A later clock counts no more of the same timestamps.
pub count_within-antitone :
    (w now later : ℕ) (ts : List ℕ) → now ≤ later → count_within w later ts ≤ count_within w now ts
unfolding count_within
count_within-antitone w now later [] h = omega arith
count_within-antitone w now later (t ∷ ts) h =
    ground (arith, count_within-antitone w now later ts h)

pub count_within-append_one :
    (w now t : ℕ) (ts : List ℕ) → count_within w now (ts ++ t ∷ []) ≡ count_within w now (t ∷ ts)
unfolding count_within
count_within-append_one w now t [] = refl
count_within-append_one w now t (u ∷ ts) = ground (arith, count_within-append_one w now t ts)

-- Pruning drops only timestamps that no window of a minute or less counts, now or later.
pub count_within-prune :
    (w now later : ℕ) (ts : List ℕ)
    → w ≤ minute
    → now ≤ later
    → count_within w later (prune_list now ts) ≡ count_within w later ts
unfolding count_within prune_list
count_within-prune w now later [] hw h = refl
count_within-prune w now later (t ∷ ts) hw h =
    ground (arith, count_within-prune w now later ts hw h)

pub length-prune-le : (now : ℕ) (ts : List ℕ) → length (prune_list now ts) ≤ length ts
unfolding prune_list
length-prune-le now [] = omega arith
length-prune-le now (t ∷ ts) = ground (arith, length-prune-le now ts)

-- A window with no oldest timestamp counts nothing.
pub count_within-zero :
    (w now : ℕ) (ts : List ℕ) → oldest_within w now ts ≡ none → count_within w now ts ≡ 0
unfolding oldest_within count_within
count_within-zero w now [] e = refl
count_within-zero w now (u ∷ ts) e = elim (Option-cases (oldest_within w now ts)) [
  | inl none_left ↦ ground (arith, count_within-zero w now ts)
  | inr (v, found) ↦ ground arith
]

-- The oldest timestamp of a window is in it.
pub oldest_within-le : (w now t : ℕ) (ts : List ℕ) → oldest_within w now ts ≡ some t → now ≤ t + w
unfolding oldest_within
oldest_within-le w now t [] e = cc
oldest_within-le w now t (u ∷ ts) e = elim (Option-cases (oldest_within w now ts)) [
  | inl none_left ↦ ground arith
  | inr (v, found) ↦ ground (arith, oldest_within-le w now v ts found)
]

-- Once the clock has passed the oldest timestamp of a window, the window counts fewer.
pub count_within-lt :
    (w now later t : ℕ) (ts : List ℕ)
    → oldest_within w now ts ≡ some t
    → now ≤ later
    → t + w < later
    → count_within w later ts < count_within w now ts
unfolding oldest_within count_within
count_within-lt w now later t [] e h past = cc
count_within-lt w now later t (u ∷ ts) e h past = elim (Option-cases (oldest_within w now ts)) [
  | inl none_left ↦
      ground (arith, count_within-zero w now ts none_left, count_within-antitone w now later ts h)
  | inr (v, found) ↦
      ground
        (arith, count_within-lt w now later v ts found h, count_within-antitone w now later ts h)
]
