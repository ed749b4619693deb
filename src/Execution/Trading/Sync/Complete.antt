-- ===== src/Execution/Trading/Sync/Complete.antt =====
-- What the broker lists after a synchronization (src/execution/trading.py).
use igthon.Prelude.{
  ◌≡◌, ◌∙◌, refl, ◌⊎◌, inl, inr, ℕ, suc, String, true, false, ◌||◌, Option, none, some, List, [],
  ◌∷◌, ◌++◌, Bool-cases, Option-cases, arith, str_eq, eq_iff, contains,
}
use igthon.Num.{Arith}
use igthon.Execution.Trading.{TradedPosition}
use igthon.Execution.Trading.Stops.{nonempty}
use igthon.Execution.Trading.Sync.{LiveEntry, SyncAnswers, known_deal_ids}
use igthon.Execution.Trading.Sync.Loop.{
  sync_rows, adopt_ig_position, adopted_row, adopt_all, adopted_first, adopt_new, deal_text,
  is_side, sync_open_positions,
}
use igthon.Execution.Trading.Sync.Bound.{IsTracked, IsOffered, IsOffered-IsListed}
use igthon.Execution.Trading.Sync.Tracked.{
  sync_rows-claimed, sync_rows-IsTracked, contains-append, known-IsTracked, IsTracked-left,
  IsTracked-right,
}

nonempty-text : (o : Option String) (d : String) → nonempty o ≡ some d → str_eq d "" ≡ false
unfolding nonempty
nonempty-text none d h = absurd (ground (arith, h))
nonempty-text (some s) d h = ground (arith, h, eq_iff s "", eq_iff d "")

module _ (a : Arith) (answers : SyncAnswers) where
  -- A row that is adopted has the deal of its entry.
  adopt_ig_position-deal_id :
      (id : ℕ) (e : LiveEntry) (p : TradedPosition)
      → adopt_ig_position a answers id e ≡ some p
      → p.deal_id ≡ some (deal_text e)
  unfolding adopt_ig_position adopted_row
  adopt_ig_position-deal_id id e p = elim (Option-cases (nonempty e.epic)) [
    | inl no_epic ↦ rw (adopt_ig_position, no_epic) (λ h. absurd (ground (arith, h)))
    | inr (epic, k) ↦ elim (Option-cases (nonempty e.deal_id)) [
      | inl no_deal ↦ rw (adopt_ig_position, k, no_deal) (λ h. absurd (ground (arith, h)))
      | inr (deal, l) ↦ elim (Bool-cases (is_side e.direction)) [
        | inl side ↦ rw (adopt_ig_position, k, l, side) (λ h. cc)
        | inr other ↦ rw (adopt_ig_position, k, l, other) (λ h. absurd (ground (arith, h)))
      ]
    ]
  ]

  adopt_new-deal_id :
      (id : ℕ) (tracked : List String) (e : LiveEntry) (p : TradedPosition)
      → adopt_new a answers id tracked e ≡ some p
      → p.deal_id ≡ some (deal_text e)
  adopt_new-deal_id id tracked e p =
      elim (Bool-cases (str_eq (deal_text e) "" || contains tracked (deal_text e))) [
        | inl skip ↦ rw (skip) (λ h. absurd (ground (arith, h)))
        | inr new ↦ rw (new) (λ h. adopt_ig_position-deal_id id e p h)
      ]

  module _ (d : String) where
    -- What is adopted, or is not, leaves the deal tracked.
    after_first :
        (tracked : List String) (deal : String) (o : Option TradedPosition)
        (without with_ : List TradedPosition)
        → ((p : TradedPosition) → o ≡ some p → p.deal_id ≡ some deal)
        → (contains tracked d ≡ true) ⊎ IsTracked d without
        → (contains (deal ∷ tracked) d ≡ true) ⊎ IsTracked d with_
        → (contains tracked d ≡ true) ⊎ IsTracked d (adopted_first a o without with_)
    after_first tracked deal none without with_ h k l = k
    after_first tracked deal (some p) without with_ h k (inr l) = inr (inr l)
    after_first tracked deal (some p) without with_ h k (inl l) =
        elim (Bool-cases (str_eq d deal)) [
          | inl same ↦ inr (inl (h p refl ∙ ground (arith, same, eq_iff d deal)))
          | inr other ↦ inl (ground (arith, l, other))
        ]

    first_adopted :
        (id : ℕ) (tracked : List String) (e : LiveEntry) (without with_ : List TradedPosition)
        → nonempty e.deal_id ≡ some d
        → (epic : String) → nonempty e.epic ≡ some epic
        → is_side e.direction ≡ true
        → contains tracked d ≡ false
        → IsTracked d (adopted_first a (adopt_new a answers id tracked e) without with_)
    unfolding adopt_ig_position adopted_row
    first_adopted id tracked e without with_ h epic k side new =
        rw (h, nonempty-text e.deal_id d h, new, adopt_ig_position, k, h, side) (inl refl)

    adopt_all-IsTracked :
        (es : List LiveEntry) (id : ℕ) (tracked : List String)
        → IsOffered d es
        → (contains tracked d ≡ true) ⊎ IsTracked d (adopt_all a answers id tracked es)
    unfolding adopt_all
    adopt_all-IsTracked [] id tracked h = absurd (cc)
    adopt_all-IsTracked (e ∷ es) id tracked (inl h) = elim (Bool-cases (contains tracked d)) [
      | inl old ↦ inl old
      | inr new ↦ inr (first_adopted id tracked e _ _ h.0 h.1.0 h.1.1 h.2 new)
    ]
    adopt_all-IsTracked (e ∷ es) id tracked (inr h) =
        after_first tracked (deal_text e) (adopt_new a answers id tracked e) _ _
          (adopt_new-deal_id id tracked e) (adopt_all-IsTracked es id tracked h)
          (adopt_all-IsTracked es (suc id) (deal_text e ∷ tracked) h)

  -- If the broker's list comes, then after the synchronization every deal of an entry that has an
  -- epic and a known side is held by a row, one that was there or a new one.
  pub sync_open_positions-tracks :
      (next_id : ℕ) (table : List TradedPosition) (entries : List LiveEntry) (d : String)
      → answers.listing ≡ some entries
      → IsOffered d entries
      → IsTracked d (sync_open_positions a answers next_id table).0
  unfolding sync_open_positions
  sync_open_positions-tracks next_id table entries d listing h =
      let s = sync_rows a answers entries table [] in
      let known = known_deal_ids table in
      let new = adopt_all a answers next_id (s.claimed ++ known) entries in
      let listed = IsOffered-IsListed d entries h in
      rw (sync_open_positions, listing)
        (elim (adopt_all-IsTracked d entries next_id (s.claimed ++ known) h) [
          | inr adopted ↦ IsTracked-right d s.rows new adopted
          | inl old ↦ IsTracked-left d s.rows new (elim (contains-append d s.claimed known old) [
            | inl claimed ↦ elim (sync_rows-claimed a answers entries d table [] claimed) [
              | inl never ↦ absurd (ground (arith, never))
              | inr held ↦ held
            ]
            | inr kept ↦
                elim (sync_rows-IsTracked a answers entries d table [] listed
                  (known-IsTracked d table kept)) [
                    | inl never ↦ absurd (ground (arith, never))
                    | inr held ↦ held
                  ]
          ])
        ])
