-- ===== src/Exit/Zones/Group/Book.antt =====
-- What an armed plan guarantees of the book (src/exit/zones/smartgroup.py).
use igthon.Prelude.{
  ℕ, ◌≡◌, ◌≢◌, refl, true, false, ◌&&◌, inl, inr, Option, none, some, List, [], ◌∷◌, ◌++◌, ◌==◌,
  ◌⊎◌, ◌∙◌, ==_iff, if◌then◌else◌, Bool-cases, All, arith,
}
use igthon.Num.{Float, Arith, zero_float, ◌<f◌, ◌≤f◌}
use igthon.Exit.Zones.Group.{
  GroupMember, SmartGroupParams, Plan, Walk, Outcome, valued, disarmed, plan_get, plan_set,
  is_unpriceable, is_unprotected, candidate_stop, tightens, value_at, count, counted, walk,
  report_of, explain_group_tightening, fresh_walk,
}

plan_get-plan_set :
    (k j : ℕ) (v : Float) (d : Plan)
    → plan_get j (plan_set k v d) ≡ (if k == j then some v else plan_get j d)
unfolding plan_get plan_set
plan_get-plan_set k j v [] = refl
plan_get-plan_set k j v ((i, w) ∷ d) =
    ground (arith, ==_iff k j, ==_iff i k, ==_iff i j, plan_get-plan_set k j v d)

Outcome-cases :
    (o : Outcome) → ((w : Walk) × (o ≡ valued w)) ⊎ ((w : Walk) × (k : ℕ) × (o ≡ disarmed w k))
Outcome-cases (valued w) = inl (w, refl)
Outcome-cases (disarmed w k) = inr (w, k, refl)

-- The positions have different ids, as the rows of a table have.
abbrev pub Distinct : List GroupMember → Type 0
Distinct [] = Unit
Distinct (m ∷ ms) = All (λ (n : GroupMember). n.position_id ≢ m.position_id) ms × Distinct ms

-- The stop that a member rests on once the plan is applied.
unfoldable pub stop_after : Plan → GroupMember → Option Float
unfolding plan_get
stop_after plan m = elim (plan_get m.position_id plan) [
  | some level ↦ some level
  | none ↦ if m.level_follower ≤f zero_float then none else some m.level_follower
]

module _ (a : Arith) where
  -- The value of the book once a plan is applied: each member that has a price is valued at the stop
  -- it rests on, and a member without a stop has no value.
  unfoldable pub book_from : SmartGroupParams → Plan → Float → List GroupMember → Option Float
  unfolding is_unpriceable value_at stop_after
  book_from params plan total [] = some total
  book_from params plan total (m ∷ ms) =
      if is_unpriceable m then book_from params plan total ms else elim (stop_after plan m) [
        | none ↦ none
        | some level ↦ book_from params plan (a.add total (value_at a params m level)) ms
      ]

  module _ (params : SmartGroupParams) where
    -- Either the member is skipped, or it is counted and the loop goes on, or the loop returns.
    walk-cases :
        (m : GroupMember) (ms : List GroupMember) (w v : Walk)
        → walk a params (m ∷ ms) w ≡ valued v
        → ((is_unpriceable m ≡ true)
            × (walk a params ms (record w { unpriceable = w.unpriceable ++ m.position_id ∷ [] })
                ≡ valued v))
          ⊎ ((is_unpriceable m ≡ false)
              × (is_unprotected a m ≡ false)
              × (walk a params ms (counted a params m w) ≡ valued v))
    unfolding walk
    walk-cases m ms w v e = elim (Bool-cases (is_unpriceable m)) [
      | inl skip ↦ inl (skip, rw (walk, skip) at e)
      | inr priced ↦ elim (Bool-cases (is_unprotected a m)) [
        | inl bare ↦ let bad = rw (walk, priced, bare) at e in ground arith
        | inr safe ↦ inr (priced, safe, rw (walk, priced, safe) at e)
      ]
    ]

    plan_get-counted :
        (k : ℕ) (m : GroupMember) (w : Walk)
        → plan_get k (counted a params m w).plan ≡ (
            if tightens a m (candidate_stop a m) && (m.position_id == k)
            then some (candidate_stop a m)
            else plan_get k w.plan)
    unfolding counted count
    plan_get-counted k m w = elim (Bool-cases (tightens a m (candidate_stop a m))) [
      | inl moves ↦ rw moves (plan_get-plan_set m.position_id k (candidate_stop a m) w.plan)
      | inr keeps ↦ rw keeps refl
    ]

    -- The loop only writes the entries of its own members.
    walk-keeps :
        (k : ℕ) (ms : List GroupMember) (w v : Walk)
        → All (λ (n : GroupMember). n.position_id ≢ k) ms
        → walk a params ms w ≡ valued v
        → plan_get k v.plan ≡ plan_get k w.plan
    unfolding walk
    walk-keeps k [] w v h e = ground arith
    walk-keeps k (m ∷ ms) w v h e = elim (walk-cases m ms w v e) [
      | inl (skip, rest) ↦ walk-keeps k ms _ v h.1 rest
      | inr (priced, safe, rest) ↦
          walk-keeps k ms _ v h.1 rest
          ∙ ground (arith, plan_get-counted k m w, ==_iff m.position_id k)
    ]

    -- The members to come have no entry in the plan yet.
    abbrev IsFresh : Plan → List GroupMember → Type 0
    IsFresh plan = All (λ (n : GroupMember). plan_get n.position_id plan ≡ none)

    IsFresh-counted :
        (m : GroupMember) (w : Walk) (ms : List GroupMember)
        → All (λ (n : GroupMember). n.position_id ≢ m.position_id) ms
        → IsFresh w.plan ms
        → IsFresh (counted a params m w).plan ms
    IsFresh-counted m w [] h k = tt
    IsFresh-counted m w (n ∷ ns) h k = (
      ground
          (arith, plan_get-counted n.position_id m w, ==_iff m.position_id n.position_id, h.0, k.0),
      IsFresh-counted m w ns h.1 k.1,
    )

    -- The stop of a counted member is the level that it was valued at.
    stop_after-walk :
        (m : GroupMember) (ms : List GroupMember) (w v : Walk)
        → All (λ (n : GroupMember). n.position_id ≢ m.position_id) ms
        → plan_get m.position_id w.plan ≡ none
        → is_unprotected a m ≡ false
        → walk a params ms (counted a params m w) ≡ valued v
        → stop_after v.plan m
          ≡ some
              (if tightens a m (candidate_stop a m) then candidate_stop a m else m.level_follower)
    unfolding stop_after is_unprotected
    stop_after-walk m ms w v h k safe e =
        let kept = walk-keeps m.position_id ms (counted a params m w) v h e in
        let entry = plan_get-counted m.position_id m w in
        elim (Bool-cases (tightens a m (candidate_stop a m))) [
          | inl moves ↦
              rw (stop_after, kept, entry, moves)
                (ground (arith, ==_iff m.position_id m.position_id))
          | inr keeps ↦
              let guarded = rw (is_unprotected, keeps) at safe in
              rw (stop_after, kept, entry, keeps, k, guarded) refl
        ]

    book-walk :
        (ms : List GroupMember) (w v : Walk)
        → Distinct ms
        → IsFresh w.plan ms
        → walk a params ms w ≡ valued v
        → book_from params v.plan w.total ms ≡ some v.total
    unfolding book_from walk counted count
    book-walk [] w v d f e = ground arith
    book-walk (m ∷ ms) w v d f e = elim (walk-cases m ms w v e) [
      | inl (skip, rest) ↦ rw (book_from, skip) (book-walk ms _ v d.1 f.1 rest)
      | inr (priced, safe, rest) ↦
          rw (book_from, priced, stop_after-walk m ms w v d.0 f.0 safe rest)
            (book-walk ms (counted a params m w) v d.1 (IsFresh-counted m w ms d.0 f.1) rest)
    ]

    -- An entry for a member is its candidate, and a legal move of its stop.
    abbrev pub IsLegal : Plan → GroupMember → Type 0
    IsLegal plan m =
        (level : Float)
        → plan_get m.position_id plan ≡ some level
        → (level ≡ candidate_stop a m) × (tightens a m level ≡ true)

    IsLegal-walk :
        (ms : List GroupMember) (w v : Walk)
        → Distinct ms
        → IsFresh w.plan ms
        → walk a params ms w ≡ valued v
        → All (IsLegal v.plan) ms
    unfolding walk
    IsLegal-walk [] w v d f e = tt
    IsLegal-walk (m ∷ ms) w v d f e = elim (walk-cases m ms w v e) [
      | inl (skip, rest) ↦ (
        λ level h. let kept = walk-keeps m.position_id ms _ v d.0 rest in ground (arith, kept, f.0),
        IsLegal-walk ms _ v d.1 f.1 rest,
      )
      | inr (priced, safe, rest) ↦
          let kept = walk-keeps m.position_id ms (counted a params m w) v d.0 rest in
          let entry = plan_get-counted m.position_id m w in
          (
            λ level h. ground (arith, kept, entry, f.0),
            IsLegal-walk ms (counted a params m w) v d.1 (IsFresh-counted m w ms d.0 f.1) rest,
          )
    ]

    none-IsFresh : (ms : List GroupMember) → IsFresh [] ms
    unfolding plan_get
    none-IsFresh [] = tt
    none-IsFresh (m ∷ ms) = (refl, none-IsFresh ms)

    -- If the positions have different ids, an armed plan moves stops to their candidates by legal
    -- moves only, and the book valued at the stops that the positions then rest on, haircuts
    -- included, is worth the reported total, which is over the gate.
    pub explain_group_tightening_guarantees :
        (members : List GroupMember)
        → Distinct members
        → (explain_group_tightening a params members).armed ≡ true
        → let r = explain_group_tightening a params members in
          (book_from params r.plan zero_float members ≡ some r.total_euro)
          × ((params.min_group_euro <f r.total_euro) ≡ true)
          × All (IsLegal r.plan) members
    unfolding explain_group_tightening
    explain_group_tightening_guarantees members d h =
        elim (Outcome-cases (walk a params members fresh_walk)) [
          | inl (v, e) ↦
              let green : (params.min_group_euro <f v.total) ≡ true = rw (e, report_of) at h in
              rw (e, report_of, green)
                (
                  book-walk members fresh_walk v d (none-IsFresh members) e,
                  refl,
                  IsLegal-walk members fresh_walk v d (none-IsFresh members) e,
                )
          | inr (v, k, e) ↦ let bad = rw (e, report_of) at h in ground arith
        ]

    -- A plan that is not armed moves no stop.
    pub explain_group_tightening-holds :
        (members : List GroupMember)
        → (explain_group_tightening a params members).armed ≡ false
        → (explain_group_tightening a params members).plan ≡ []
    unfolding explain_group_tightening report_of
    explain_group_tightening-holds members h =
        elim (Outcome-cases (walk a params members fresh_walk)) [
          | inl (v, e) ↦
              let red : (params.min_group_euro <f v.total) ≡ false = rw (e, report_of) at h in
              rw (e, report_of, red) refl
          | inr (v, k, e) ↦ rw (e, report_of) refl
        ]
