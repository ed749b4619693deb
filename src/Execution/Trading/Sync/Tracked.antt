-- ===== src/Execution/Trading/Sync/Tracked.antt =====
-- Lemmas on the deals that the rows hold after a synchronization (src/execution/trading.py).
use igthon.Prelude.{
  ◌≡◌, ◌∙◌, refl, sym, ◌⊎◌, inl, inr, String, Bool, true, false, Option, none, some, List, [], ◌∷◌,
  ◌++◌, Bool-cases, Option-cases, arith, str_eq, eq_iff, contains, if◌then◌else◌,
}
use igthon.Num.{Arith}
use igthon.Execution.Trading.{TradedPosition}
use igthon.Execution.Trading.Stops.{nonempty}
use igthon.Execution.Trading.Sync.{LiveEntry, SyncAnswers, bind, known_deal_ids}
use igthon.Execution.Trading.Sync.Loop.{
  Synced, settle_matched, settle_unmatched, settle_row, claim_of, match_of, sync_rows,
  with_unmatched, claimed_by,
}
use igthon.Execution.Trading.Sync.Bound.{
  IsTracked, IsListed, HasDeal, bind-HasDeal, settle_matched-deal_id,
}

module _ (a : Arith) where
  -- What is claimed for a row is held by it.
  held :
      (d : String) (deal : Option String) (claimed : List String) (p : TradedPosition)
      (rows : List TradedPosition)
      → ((x : String) → deal ≡ some x → p.deal_id ≡ some x)
      → (contains (claimed_by deal claimed) d ≡ true) ⊎ IsTracked d rows
      → (contains claimed d ≡ true) ⊎ IsTracked d (p ∷ rows)
  held d none claimed p rows h (inl k) = inl k
  held d (some x) claimed p rows h (inl k) = elim (Bool-cases (str_eq d x)) [
    | inl same ↦ inr (inl (h x refl ∙ ground (arith, same, eq_iff d x)))
    | inr other ↦ inl (ground (arith, k, other))
  ]
  held d none claimed p rows h (inr k) = inr (inr k)
  held d (some x) claimed p rows h (inr k) = inr (inr k)

  with_unmatched-IsTracked :
      (d : String) (o : Option (TradedPosition × Bool)) (s : Synced)
      → IsTracked d s.rows
      → IsTracked d (with_unmatched a o s).rows
  with_unmatched-IsTracked d none s h = h
  with_unmatched-IsTracked d (some (p, closed)) s h = inr h

  with_unmatched-claimed :
      (o : Option (TradedPosition × Bool)) (s : Synced) → (with_unmatched a o s).claimed ≡ s.claimed
  with_unmatched-claimed none s = refl
  with_unmatched-claimed (some (p, closed)) s = refl

  carry :
      (answers : SyncAnswers) (p : TradedPosition) (open_ : Bool) (o : Option LiveEntry)
      (rest : Synced) (d : String) (claimed : List String)
      → (contains (claimed_by (claim_of a o) claimed) d ≡ true) ⊎ IsTracked d rest.rows
      → (contains claimed d ≡ true) ⊎ IsTracked d (settle_row a answers p open_ o rest).rows
  carry answers p true none rest d claimed (inl h) = inl h
  carry answers p true none rest d claimed (inr h) = inr (with_unmatched-IsTracked d _ rest h)
  carry answers p false none rest d claimed (inl h) = inl h
  carry answers p false none rest d claimed (inr h) = inr (inr h)
  carry answers p true (some e) rest d claimed h =
      held d (nonempty e.deal_id) claimed (settle_matched a e p) rest.rows
        (λ x same. settle_matched-deal_id a e p x same) h
  carry answers p false (some e) rest d claimed h =
      held d (nonempty e.deal_id) claimed (settle_matched a e p) rest.rows
        (λ x same. settle_matched-deal_id a e p x same) h

  module _ (answers : SyncAnswers) (entries : List LiveEntry) (d : String) where
    abbrev rest_of : TradedPosition → List TradedPosition → List String → Synced
    rest_of p ps claimed =
        sync_rows a answers entries ps
          (claimed_by (claim_of a (match_of a entries claimed p)) claimed)

    carried :
        (p : TradedPosition) (ps : List TradedPosition) (claimed : List String)
        → (contains (claimed_by (claim_of a (match_of a entries claimed p)) claimed) d ≡ true)
          ⊎ IsTracked d (rest_of p ps claimed).rows
        → (contains claimed d ≡ true)
          ⊎ IsTracked d (sync_rows a answers entries (p ∷ ps) claimed).rows
    unfolding sync_rows
    carried p ps claimed h =
        carry answers p p.is_open (match_of a entries claimed p) (rest_of p ps claimed) d claimed h

    claimed_rest :
        (p : TradedPosition) (open_ : Bool) (o : Option LiveEntry) (s : Synced)
        → (settle_row a answers p open_ o s).claimed ≡ s.claimed
    claimed_rest p true none s = with_unmatched-claimed (settle_unmatched a answers p) s
    claimed_rest p false none s = refl
    claimed_rest p true (some e) s = refl
    claimed_rest p false (some e) s = refl

    -- What is claimed at the end was claimed at the start, or a row holds it.
    pub sync_rows-claimed :
        (ps : List TradedPosition) (claimed : List String)
        → contains (sync_rows a answers entries ps claimed).claimed d ≡ true
        → (contains claimed d ≡ true) ⊎ IsTracked d (sync_rows a answers entries ps claimed).rows
    unfolding sync_rows
    sync_rows-claimed [] claimed h = inl h
    sync_rows-claimed (p ∷ ps) claimed h = carried p ps claimed (
        sync_rows-claimed ps (claimed_by (claim_of a (match_of a entries claimed p)) claimed) (
          rw (sym (claimed_rest p p.is_open (match_of a entries claimed p) (rest_of p ps claimed)))
            h))

    holds_matched :
        (p : TradedPosition) (o : Option LiveEntry) (rest : Synced)
        → HasDeal d o
        → IsTracked d (settle_row a answers p true o rest).rows
    holds_matched p none rest h = absurd (cc)
    holds_matched p (some e) rest h = inl (settle_matched-deal_id a e p d h)

    holds :
        (p : TradedPosition) (open_ : Bool) (claimed : List String) (rest : Synced)
        → p.deal_id ≡ some d
        → contains claimed d ≡ false
        → IsListed d entries
        → IsTracked d
            (settle_row a answers p open_
              (if open_ then bind a entries claimed p else none)
              rest).rows
    holds p true claimed rest h free listed =
        holds_matched p (bind a entries claimed p) rest
          (bind-HasDeal a entries claimed p d h listed free)
    holds p false claimed rest h free listed = inl h

    -- A listed deal that a row held before is held afterwards.
    pub sync_rows-IsTracked :
        (ps : List TradedPosition) (claimed : List String)
        → IsListed d entries
        → IsTracked d ps
        → (contains claimed d ≡ true) ⊎ IsTracked d (sync_rows a answers entries ps claimed).rows
    unfolding sync_rows
    sync_rows-IsTracked [] claimed listed h = absurd (cc)
    sync_rows-IsTracked (p ∷ ps) claimed listed (inr h) =
        carried p ps claimed (sync_rows-IsTracked ps _ listed h)
    sync_rows-IsTracked (p ∷ ps) claimed listed (inl h) = elim (Bool-cases (contains claimed d)) [
      | inl taken ↦ inl taken
      | inr free ↦ inr (holds p p.is_open claimed (rest_of p ps claimed) h free listed)
    ]

pub contains-append :
    (d : String) (xs ys : List String)
    → contains (xs ++ ys) d ≡ true
    → (contains xs d ≡ true) ⊎ (contains ys d ≡ true)
contains-append d [] ys = λ h. inr h
contains-append d (x ∷ xs) ys = elim (Bool-cases (str_eq d x)) [
  | inl same ↦ λ h. inl (rw (same) refl)
  | inr other ↦ rw (other) (λ h. contains-append d xs ys h)
]

pub known-IsTracked :
    (d : String) (ps : List TradedPosition) → contains (known_deal_ids ps) d ≡ true → IsTracked d ps
unfolding known_deal_ids
known-IsTracked d [] = λ h. absurd (cc)
known-IsTracked d (p ∷ ps) = elim (Option-cases p.deal_id) [
  | inl nothing ↦ rw (known_deal_ids, nothing) (λ h. inr (known-IsTracked d ps h))
  | inr (x, e) ↦
      rw (known_deal_ids, e)
        (λ h. elim (Bool-cases (str_eq d x)) [
          | inl same ↦ inl (ground (arith, same, eq_iff d x))
          | inr other ↦ inr (known-IsTracked d ps (ground (arith, h, other)))
        ])
]

pub IsTracked-left :
    (d : String) (ps qs : List TradedPosition) → IsTracked d ps → IsTracked d (ps ++ qs)
IsTracked-left d [] qs h = absurd (cc)
IsTracked-left d (p ∷ ps) qs (inl h) = inl h
IsTracked-left d (p ∷ ps) qs (inr h) = inr (IsTracked-left d ps qs h)

pub IsTracked-right :
    (d : String) (ps qs : List TradedPosition) → IsTracked d qs → IsTracked d (ps ++ qs)
IsTracked-right d [] qs h = h
IsTracked-right d (p ∷ ps) qs h = inr (IsTracked-right d ps qs h)
