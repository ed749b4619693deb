-- ===== src/Feed/Buffer/Content.antt =====
-- What a buffer holds after each write of src/feed/price_buffer.py: the newest candles of the old
-- content and of those that were taken, whatever was written one by one.
use igthon.Prelude.{
  ℕ, ◌≤◌, ◌≡◌, refl, ap, ◌∙◌, String, Option, some, List, [], ◌∷◌, ◌++◌, arith, if◌then◌else◌,
  str_eq, length, Bool-cases, inl, inr,
}
use igthon.Prelude.Dicts.{lookup, lookup-insert}
use igthon.Prelude.Ring.{keep_last, keep_last_all, keep_last-append, length-keep_last}
use igthon.Feed.Candle.{Candle}
use igthon.Feed.Buffer.{
  EpicBuffer, PriceBuffer, add, add_all, is_newer, append_newer, append_candles, update,
  last_timestamp, get, get_or_create, put,
}
use mathlib.Core.List.{append_assoc, append-nil}

-- The candles that `append_candles` takes of a list: each one newer than all that came before.
abbrev pub newer : Option ℕ → List Candle → List Candle
newer t [] = []
newer t (c ∷ cs) = if is_newer t c then c ∷ newer (some c.timestamp) cs else newer t cs

add_all-content :
    (cs : List Candle) (b : EpicBuffer)
    → length b.candles ≤ b.max_candles
    → add_all cs b ≡ record b { candles = keep_last b.max_candles (b.candles ++ cs) }
unfolding add_all add
add_all-content [] b h = rw (append-nil, keep_last_all b.max_candles b.candles h)
add_all-content (c ∷ cs) b h =
    add_all-content cs (add c b) (length-keep_last b.max_candles (b.candles ++ c ∷ []))
    ∙ ap (λ (l : List Candle). record b { candles = l })
        (keep_last-append b.max_candles (b.candles ++ c ∷ []) cs
          ∙ ap (keep_last b.max_candles) (append_assoc b.candles (c ∷ []) cs))

append_newer-add_all :
    (t : Option ℕ) (cs : List Candle) (b : EpicBuffer)
    → append_newer t cs b ≡ add_all (newer t cs) b
unfolding append_newer add_all
append_newer-add_all t [] b = refl
append_newer-add_all t (c ∷ cs) b = elim (Bool-cases (is_newer t c)) [
  | inl yes_ ↦ rw (yes_) (append_newer-add_all (some c.timestamp) cs (add c b))
  | inr no_ ↦ rw (no_) (append_newer-add_all t cs b)
]

pub append_newer-nothing :
    (t : Option ℕ) (cs : List Candle) (b : EpicBuffer) → newer t cs ≡ [] → append_newer t cs b ≡ b
unfolding add_all
append_newer-nothing t cs b h =
    append_newer-add_all t cs b ∙ ap (λ (l : List Candle). add_all l b) h

-- A buffer is within its length.
abbrev pub IsBounded : EpicBuffer → Type 0
IsBounded b = length b.candles ≤ b.max_candles

pub append_newer-content :
    (cs : List Candle) (b : EpicBuffer)
    → IsBounded b
    → append_newer (last_timestamp b) cs b
      ≡ record b { candles = keep_last b.max_candles (b.candles ++ newer (last_timestamp b) cs) }
append_newer-content cs b bounded =
    append_newer-add_all (last_timestamp b) cs b
    ∙ add_all-content (newer (last_timestamp b) cs) b bounded

pub update-content :
    (cs : List Candle) (b : EpicBuffer)
    → add_all cs (record b { candles = [] }) ≡ record b { candles = keep_last b.max_candles cs }
update-content cs b = add_all-content cs (record b { candles = [] }) (omega arith)

module _ (epic : String) (cs : List Candle) (p : PriceBuffer)
    (bounded : IsBounded (get_or_create epic p)) where
  -- After `append_candles` the buffer of the epic holds the newest of its old candles and of those
  -- of the list that are newer than all before them; no other buffer changes.
  pub get-append_candles :
      (e : String)
      → let b = get_or_create epic p in
        get e (append_candles epic cs p) ≡ (
          if str_eq epic e
          then some (record b {
            candles = keep_last b.max_candles (b.candles ++ newer (last_timestamp b) cs);
          })
          else get e p)
  unfolding get append_candles put
  get-append_candles e =
      let b = get_or_create epic p in
      lookup-insert epic e (append_newer (last_timestamp b) cs b) p.buffers
      ∙ ap (λ (x : EpicBuffer). if str_eq epic e then some x else lookup e p.buffers)
          (append_newer-content cs b bounded)

  -- After `update` the buffer of the epic holds the newest candles of the list and nothing else,
  -- newer or not; no other buffer changes.
  get-update :
      (e : String)
      → let b = get_or_create epic p in
        get e (update epic cs p) ≡ (
          if str_eq epic e
          then some (record b { candles = keep_last b.max_candles cs })
          else get e p)
  unfolding get update put
  get-update e =
      let b = get_or_create epic p in
      lookup-insert epic e (add_all cs (record b { candles = [] })) p.buffers
      ∙ ap (λ (x : EpicBuffer). if str_eq epic e then some x else lookup e p.buffers)
          (update-content cs b)
