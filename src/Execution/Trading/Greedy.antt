-- ===== src/Execution/Trading/Greedy.antt =====
-- Lemmas on the assignment of transactions to closed positions (src/execution/trading.py).
use igthon.Prelude.{
  ◌≡◌, ◌≢◌, refl, sym, ◌⊎◌, inl, inr, true, false, List, [], ◌∷◌, Bool-cases, All, arith, ◌==◌,
}
use mathlib.Core.Path.{subst}
use igthon.Prelude.Int.{◌≤ℤ◌}
use igthon.Execution.Trading.Matching.{
  Pair, comes_before, insert_pair, sort_pairs, shares, is_taken, consume, assign,
}

-- Some item has a property.
abbrev pub Some : (Pair → Type 0) → List Pair → Type 0
Some P [] = true ≡ false
Some P (p ∷ ps) = P p ⊎ Some P ps

-- No two pairs have a position or a transaction in common.
abbrev pub IsOneToOne : List Pair → Type 0
IsOneToOne [] = Unit
IsOneToOne (p ∷ ps) =
    All (λ (q : Pair). (q.index ≢ p.index) × (q.txn_index ≢ p.txn_index)) ps × IsOneToOne ps

-- A pair that shares the position or the transaction and costs no more.
abbrev pub IsRival : Pair → Pair → Type 0
IsRival p q = ((q.index ≡ p.index) ⊎ (q.txn_index ≡ p.txn_index)) × (q.cost ≤ℤ p.cost)

abbrev IsCheapest : List Pair → Type 0
IsCheapest [] = Unit
IsCheapest (p ∷ ps) = All (λ (q : Pair). p.cost ≤ℤ q.cost) ps × IsCheapest ps

module _ (P : Pair → Type 0) where
  All-insert_pair : (p : Pair) (ps : List Pair) → P p → All P ps → All P (insert_pair p ps)
  unfolding insert_pair
  All-insert_pair p [] h k = (h, tt)
  All-insert_pair p (q ∷ qs) h k = elim (Bool-cases (comes_before q p)) [
    | inl first ↦ rw (insert_pair, first) (k.0, All-insert_pair p qs h k.1)
    | inr later ↦ rw (insert_pair, later) (h, (k.0, k.1))
  ]

  All-sort_pairs : (ps : List Pair) → All P ps → All P (sort_pairs ps)
  unfolding sort_pairs
  All-sort_pairs [] h = tt
  All-sort_pairs (p ∷ ps) h = All-insert_pair p (sort_pairs ps) h.0 (All-sort_pairs ps h.1)

  All-consume : (chosen ps : List Pair) → All P chosen → All P ps → All P (consume chosen ps)
  unfolding consume
  All-consume chosen [] h k = h
  All-consume chosen (p ∷ ps) h k = elim (Bool-cases (is_taken chosen p)) [
    | inl taken ↦ rw (consume, taken) (All-consume chosen ps h k.1)
    | inr free ↦ rw (consume, free) (All-consume (p ∷ chosen) ps (k.0, h) k.1)
  ]

  Some-consume : (chosen ps : List Pair) → Some P chosen → Some P (consume chosen ps)
  unfolding consume
  Some-consume chosen [] h = h
  Some-consume chosen (p ∷ ps) h = elim (Bool-cases (is_taken chosen p)) [
    | inl taken ↦ rw (consume, taken) (Some-consume chosen ps h)
    | inr free ↦ rw (consume, free) (Some-consume (p ∷ chosen) ps (inr h))
  ]

  Some-here : (ps : List Pair) → ((q : Pair) → Some (λ r. q ≡ r) ps → P q) → All P ps
  Some-here [] h = tt
  Some-here (p ∷ ps) h = (h p (inl refl), Some-here ps (λ q k. h q (inr k)))

is_taken-apart :
    (chosen : List Pair) (p : Pair)
    → is_taken chosen p ≡ false
    → All (λ (q : Pair). (q.index ≢ p.index) × (q.txn_index ≢ p.txn_index)) chosen
unfolding is_taken shares
is_taken-apart [] p free = tt
is_taken-apart (c ∷ cs) p free = (
  ((λ e. ground (arith, free, e)), (λ e. ground (arith, free, e))),
  is_taken-apart cs p (ground (arith, free)),
)

IsOneToOne-consume : (chosen ps : List Pair) → IsOneToOne chosen → IsOneToOne (consume chosen ps)
unfolding consume
IsOneToOne-consume chosen [] h = h
IsOneToOne-consume chosen (p ∷ ps) h = elim (Bool-cases (is_taken chosen p)) [
  | inl taken ↦ rw (consume, taken) (IsOneToOne-consume chosen ps h)
  | inr free ↦
      rw (consume, free) (IsOneToOne-consume (p ∷ chosen) ps (is_taken-apart chosen p free, h))
]

under :
    (p q : Pair) (ps : List Pair)
    → p.cost ≤ℤ q.cost
    → All (λ (r : Pair). q.cost ≤ℤ r.cost) ps
    → All (λ (r : Pair). p.cost ≤ℤ r.cost) ps
under p q [] h k = tt
under p q (r ∷ rs) h k = (omega (arith, k.0), under p q rs h k.1)

IsCheapest-insert_pair : (p : Pair) (ps : List Pair) → IsCheapest ps → IsCheapest (insert_pair p ps)
unfolding insert_pair comes_before
IsCheapest-insert_pair p [] h = (tt, tt)
IsCheapest-insert_pair p (q ∷ qs) h = elim (Bool-cases (comes_before q p)) [
  | inl first ↦
      let order : q.cost ≤ℤ p.cost = ground (arith, first) in
      rw (insert_pair, first)
        (
          All-insert_pair (λ (r : Pair). q.cost ≤ℤ r.cost) p qs order h.0,
          IsCheapest-insert_pair p qs h.1,
        )
  | inr later ↦
      let order : p.cost ≤ℤ q.cost = ground (arith, later) in
      rw (insert_pair, later) ((order, under p q qs order h.0), h)
]

IsCheapest-sort_pairs : (ps : List Pair) → IsCheapest (sort_pairs ps)
unfolding sort_pairs
IsCheapest-sort_pairs [] = tt
IsCheapest-sort_pairs (p ∷ ps) = IsCheapest-insert_pair p (sort_pairs ps) (IsCheapest-sort_pairs ps)

All-map : (P Q : Pair → Type 0) → ((q : Pair) → P q → Q q) → (ps : List Pair) → All P ps → All Q ps
All-map P Q f [] h = tt
All-map P Q f (p ∷ ps) h = (f p h.0, All-map P Q f ps h.1)

module _ (P : Pair → Type 0) where
  insert_pair-All : (p : Pair) (ps : List Pair) → All P (insert_pair p ps) → P p × All P ps
  unfolding insert_pair
  insert_pair-All p [] = λ h. h
  insert_pair-All p (q ∷ qs) = elim (Bool-cases (comes_before q p)) [
    | inl first ↦
        rw (insert_pair, first)
          (λ h. let inner = insert_pair-All p qs h.1 in (inner.0, (h.0, inner.1)))
    | inr later ↦ rw (insert_pair, later) (λ h. h)
  ]

  sort_pairs-All : (ps : List Pair) → All P (sort_pairs ps) → All P ps
  unfolding sort_pairs
  sort_pairs-All [] h = tt
  sort_pairs-All (p ∷ ps) h =
      let inner = insert_pair-All p (sort_pairs ps) h in (inner.0, sort_pairs-All ps inner.1)

shares-common : (c p : Pair) → shares c p ≡ true → (c.index ≡ p.index) ⊎ (c.txn_index ≡ p.txn_index)
unfolding shares
shares-common c p h = elim (Bool-cases (c.index == p.index)) [
  | inl same ↦ inl (ground (arith, same))
  | inr other ↦ inr (ground (arith, h, other))
]

is_taken-IsRival :
    (chosen : List Pair) (p : Pair)
    → All (λ (c : Pair). c.cost ≤ℤ p.cost) chosen
    → is_taken chosen p ≡ true
    → Some (IsRival p) chosen
unfolding is_taken
is_taken-IsRival [] p h = λ taken. sym taken
is_taken-IsRival (c ∷ cs) p h = elim (Bool-cases (shares c p)) [
  | inl same ↦ λ taken. inl (shares-common c p same, h.0)
  | inr other ↦ rw (is_taken, other) (λ taken. inr (is_taken-IsRival cs p h.1 taken))
]

-- Every chosen pair costs no more than any that remains.
abbrev IsAhead : List Pair → List Pair → Type 0
IsAhead chosen ps = All (λ (c : Pair). All (λ (q : Pair). c.cost ≤ℤ q.cost) ps) chosen

consume-skips :
    (chosen : List Pair) (p : Pair) (ps : List Pair)
    → is_taken chosen p ≡ true
    → consume chosen ps ≡ consume chosen (p ∷ ps)
unfolding consume
consume-skips chosen p ps taken = rw (consume, taken) refl

consume-takes :
    (chosen : List Pair) (p : Pair) (ps : List Pair)
    → is_taken chosen p ≡ false
    → consume (p ∷ chosen) ps ≡ consume chosen (p ∷ ps)
unfolding consume
consume-takes chosen p ps free = rw (consume, free) refl

consume-IsRival :
    (chosen ps : List Pair)
    → IsAhead chosen ps
    → IsCheapest ps
    → All (λ (p : Pair). Some (IsRival p) (consume chosen ps)) ps
consume-IsRival chosen [] ahead h = tt
consume-IsRival chosen (p ∷ ps) ahead h =
    let here : All (λ (c : Pair). c.cost ≤ℤ p.cost) chosen =
      All-map _ _ (λ c k. k.0) chosen ahead in
    let later : IsAhead chosen ps = All-map _ _ (λ c k. k.1) chosen ahead in
    let IsMet : List Pair → Type 0 = λ out. All (λ (q : Pair). Some (IsRival q) out) (p ∷ ps) in
    elim (Bool-cases (is_taken chosen p)) [
      | inl taken ↦ subst IsMet (consume-skips chosen p ps taken) (
        Some-consume (IsRival p) chosen ps (is_taken-IsRival chosen p here taken),
        consume-IsRival chosen ps later h.1,
      )
      | inr free ↦ subst IsMet (consume-takes chosen p ps free) (
        Some-consume (IsRival p) (p ∷ chosen) ps (inl (inl refl, omega arith)),
        consume-IsRival (p ∷ chosen) ps (h.0, later) h.1,
      )
    ]

-- For every list of candidate pairs: no two pairs of the assignment have a position or a
-- transaction in common, each of them is a candidate, and every candidate has the position or the
-- transaction in common with a pair of the assignment that costs no more (possibly itself).
pub assign-IsGreedy :
    (pairs : List Pair)
    → IsOneToOne (assign pairs)
      × All (λ (p : Pair). Some (λ r. p ≡ r) pairs) (assign pairs)
      × All (λ (p : Pair). Some (IsRival p) (assign pairs)) pairs
unfolding assign
assign-IsGreedy pairs =
    let IsOne : Pair → Type 0 = λ p. Some (λ r. p ≡ r) pairs in
    (
      IsOneToOne-consume [] (sort_pairs pairs) tt,
      All-consume IsOne [] (sort_pairs pairs) tt
          (All-sort_pairs IsOne pairs (Some-here IsOne pairs (λ q k. k))),
      sort_pairs-All (λ p. Some (IsRival p) (consume [] (sort_pairs pairs))) pairs
          (consume-IsRival [] (sort_pairs pairs) tt (IsCheapest-sort_pairs pairs)),
    )
