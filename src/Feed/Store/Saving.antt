-- ===== src/Feed/Store/Saving.antt =====
-- What `save` stores (src/feed/candle_store.py).
use igthon.Prelude.{
  ℕ, ◌≤◌, ◌≡◌, refl, ap, sym, ◌∙◌, inl, inr, String, Bool, true, false, not, ◌&&◌, Option, none,
  some, List, [], ◌∷◌, ◌++◌, max, leb, length, str_eq, eq_iff, arith, All, Bool-cases, Option-cases,
  List-cases,
}
use igthon.Feed.Candle.{Candle}
use igthon.Feed.Buffer.{is_newer}
use igthon.Feed.Buffer.Content.{newer}
use igthon.Feed.Buffer.Order.{Increasing, newer-Increasing}
use igthon.Feed.Store.{CandleRecord, CandleStore, latest, fresh, is_stored, commit, rows, save}
use mathlib.Core.Path.{subst}
use mathlib.Core.List.{append_assoc, append-nil}

earlier-Increasing :
    (t : Option ℕ) (c : Candle) (cs : List Candle)
    → is_newer t c ≡ true
    → Increasing (some c.timestamp) cs
    → Increasing t cs
unfolding is_newer
earlier-Increasing t c [] n h = tt
earlier-Increasing none c (d ∷ ds) n h = (refl, h.1)
earlier-Increasing (some t) c (d ∷ ds) n h = (ground (arith, n, h.0), h.1)

newer_all : (t : Option ℕ) (cs : List Candle) → Increasing t cs → newer t cs ≡ cs
newer_all t [] h = refl
newer_all t (c ∷ cs) h = rw (h.0, newer_all (some c.timestamp) cs h.1) refl

fresh_all : (t : Option ℕ) (cs : List Candle) → Increasing t cs → fresh t cs ≡ cs
unfolding fresh
fresh_all t [] h = refl
fresh_all t (c ∷ cs) h = rw (h.0, fresh_all t cs (earlier-Increasing t c cs h.0 h.1)) refl

-- Of a list in order, the store takes what the buffer takes.
fresh-newer : (t u : Option ℕ) (cs : List Candle) → Increasing u cs → fresh t cs ≡ newer t cs
unfolding fresh
fresh-newer t u [] h = refl
fresh-newer t u (c ∷ cs) h = elim (Bool-cases (is_newer t c)) [
  | inl taken ↦
      rw
        (
          taken,
          fresh_all t cs (earlier-Increasing t c cs taken h.1),
          newer_all (some c.timestamp) cs h.1,
        )
        refl
  | inr left ↦ rw left (fresh-newer t (some c.timestamp) cs h.1)
]

-- The stored rows of an epic are no later than a time.
abbrev is_by : Option ℕ → ℕ → Bool
is_by none t = false
is_by (some m) t = leb t m

abbrev IsBy : String → Option ℕ → List CandleRecord → Type 0
IsBy epic t = All (λ r. (str_eq r.epic epic && not (is_by t r.candle.timestamp)) ≡ false)

IsBy-later :
    (epic : String) (m n : ℕ) (rs : List CandleRecord)
    → m ≤ n
    → IsBy epic (some m) rs
    → IsBy epic (some n) rs
IsBy-later epic m n [] le h = tt
IsBy-later epic m n (r ∷ rs) le h = (ground (arith, h.0, le), IsBy-later epic m n rs le h.1)

IsBy-some :
    (epic : String) (n : ℕ) (rs : List CandleRecord) → IsBy epic none rs → IsBy epic (some n) rs
IsBy-some epic n [] h = tt
IsBy-some epic n (r ∷ rs) h = (ground (arith, h.0), IsBy-some epic n rs h.1)

same_bound :
    (epic : String) (rs : List CandleRecord) {t u : Option ℕ}
    → u ≡ t
    → IsBy epic t rs
    → IsBy epic u rs
same_bound epic rs e h = subst (λ (o : Option ℕ). IsBy epic o rs) (sym e) h

latest-IsBy : (epic : String) (rs : List CandleRecord) → IsBy epic (latest epic rs) rs
unfolding latest
latest-IsBy epic [] = tt
latest-IsBy epic (r ∷ rs) = elim (Bool-cases (str_eq r.epic epic)) [
  | inr other ↦
      let e : latest epic (r ∷ rs) ≡ latest epic rs = rw other refl in
      same_bound epic (r ∷ rs) e (rw other refl, latest-IsBy epic rs)
  | inl own ↦ elim (Option-cases (latest epic rs)) [
    | inl first ↦
        let e : latest epic (r ∷ rs) ≡ some r.candle.timestamp = rw (own, first) refl in
        same_bound epic (r ∷ rs) e
          (ground arith, IsBy-some epic r.candle.timestamp rs (rw first at (latest-IsBy epic rs)))
    | inr (t, found) ↦
        let e : latest epic (r ∷ rs) ≡ some (max r.candle.timestamp t) = rw (own, found) refl in
        same_bound epic (r ∷ rs) e (
          ground arith,
          IsBy-later epic t (max r.candle.timestamp t) rs (omega arith)
              (rw found at (latest-IsBy epic rs)),
        )
  ]
]

is_stored-new :
    (epic : String) (t : Option ℕ) (c : Candle) (rs : List CandleRecord)
    → is_newer t c ≡ true
    → IsBy epic t rs
    → is_stored (record { epic = epic; candle = c }) rs ≡ false
unfolding is_stored is_newer
is_stored-new epic t c [] n h = refl
is_stored-new epic none c (r ∷ rs) n h = ground (arith, h.0, is_stored-new epic none c rs n h.1)
is_stored-new epic (some m) c (r ∷ rs) n h =
    ground (arith, n, h.0, is_stored-new epic (some m) c rs n h.1)

IsBy-append_one :
    (epic : String) (t : Option ℕ) (c : Candle) (rs : List CandleRecord)
    → is_newer t c ≡ true
    → IsBy epic t rs
    → IsBy epic (some c.timestamp) (rs ++ record { epic = epic; candle = c } ∷ [])
unfolding is_newer
IsBy-append_one epic t c [] n h = (ground arith, tt)
IsBy-append_one epic none c (r ∷ rs) n h =
    (ground (arith, h.0), IsBy-append_one epic none c rs n h.1)
IsBy-append_one epic (some m) c (r ∷ rs) n h =
    (ground (arith, n, h.0), IsBy-append_one epic (some m) c rs n h.1)

commit_fits :
    (epic : String) (t : Option ℕ) (cs : List Candle) (table : List CandleRecord)
    → Increasing t cs
    → IsBy epic t table
    → commit (rows epic cs) table ≡ some (table ++ rows epic cs)
unfolding commit
commit_fits epic t [] table h b = rw (append-nil table) refl
commit_fits epic t (c ∷ cs) table h b =
    let one = record { epic = epic; candle = c } ∷ [] in
    rw (is_stored-new epic t c table h.0 b) (
      commit_fits epic (some c.timestamp) cs (table ++ one) h.1
        (IsBy-append_one epic t c table h.0 b)
      ∙ ap some (append_assoc table one (rows epic cs)))

-- Of a list whose timestamps grow strictly, `save` stores the candles that `append_candles` would
-- take after the latest stored one, all of them, and says how many they are.
pub save-Increasing :
    (epic : String) (cs : List Candle) (s : CandleStore)
    → Increasing none cs
    → let new = newer (latest epic s.table) cs in
      save epic cs s ≡ (length new, record s { table = s.table ++ rows epic new })
unfolding save
save-Increasing epic cs s h =
    let new = newer (latest epic s.table) cs in
    let same : fresh (latest epic s.table) cs ≡ new = fresh-newer (latest epic s.table) none cs h in
    let fits : commit (rows epic new) s.table ≡ some (s.table ++ rows epic new) =
      commit_fits epic (latest epic s.table) new s.table (newer-Increasing (latest epic s.table) cs)
        (latest-IsBy epic s.table) in
    elim (List-cases new) [
      | inl nothing ↦ rw (save, same, nothing, append-nil s.table) refl
      | inr (x, xs, some_new) ↦
          let filled = rw some_new at fits in rw (save, same, some_new, filled) refl
    ]

newer_too :
    (t : Option ℕ) (c d : Candle)
    → d.timestamp ≡ c.timestamp
    → is_newer t c ≡ true
    → is_newer t d ≡ true
unfolding is_newer
newer_too none c d e n = refl
newer_too (some m) c d e n = ground (arith, e, n)

is_stored-last :
    (epic : String) (c d : Candle) (rs : List CandleRecord)
    → d.timestamp ≡ c.timestamp
    → is_stored (record { epic = epic; candle = d }) (rs ++ record { epic = epic; candle = c } ∷ [])
      ≡ true
unfolding is_stored
is_stored-last epic c d [] e = ground (arith, eq_iff epic epic, e)
is_stored-last epic c d (r ∷ rs) e = ground (arith, is_stored-last epic c d rs e)

-- Two candles of one time at the head of a list, newer than what is stored, and nothing of the list
-- is stored: the constraint refuses the commit as a whole.
pub save_repeated :
    (epic : String) (c d : Candle) (cs : List Candle) (s : CandleStore)
    → is_newer (latest epic s.table) c ≡ true
    → d.timestamp ≡ c.timestamp
    → save epic (c ∷ d ∷ cs) s ≡ (0, s)
unfolding save fresh commit
save_repeated epic c d cs s n e =
    let pair : is_stored (record { epic = epic; candle = d })
          (s.table ++ record { epic = epic; candle = c } ∷ [])
        ≡ true =
      is_stored-last epic c d s.table e in
    let also : is_newer (latest epic s.table) d ≡ true = newer_too (latest epic s.table) c d e n in
    elim (Bool-cases (is_stored (record { epic = epic; candle = c }) s.table)) [
      | inl old ↦ rw (save, n, also, old) refl
      | inr new ↦ rw (save, n, also, new, pair) refl
    ]
