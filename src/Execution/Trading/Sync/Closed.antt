-- ===== src/Execution/Trading/Sync/Closed.antt =====
-- Which rows a synchronization closes (src/execution/trading.py).
use igthon.Prelude.{
  ◌≡◌, ◌∙◌, refl, ◌⊎◌, inl, inr, ℕ, suc, String, Bool, true, false, ◌||◌, Option, none, some, List,
  [], ◌∷◌, ◌++◌, Bool-cases, Option-cases, All, All-append, arith, str_eq, contains, if◌then◌else◌,
}
use igthon.Num.{Float, Arith, zero_float}
use igthon.Indicators.{same_float}
use igthon.Exit.Close.{or_zero}
use igthon.Execution.Trading.{TradedPosition}
use igthon.Execution.Trading.Stops.{nonempty}
use igthon.Execution.Trading.Sync.{
  LiveEntry, SyncAnswers, Probe, is_not_found, present, not_found, unclear, bind, known_deal_ids,
  take_deal, mark_to_market, bind_real_open_level, reanchor_exit_references, opened_within,
  ig_position_gone, mark_never_opened, reconcile_vanished,
}
use igthon.Execution.Trading.Sync.Loop.{
  Synced, settle_matched, settle_unmatched, settle_read, settle_row, with_unmatched, sync_rows,
  adopt_ig_position, adopted_row, adopt_all, adopted_first, adopt_new, deal_text,
  sync_open_positions, is_side,
}

-- The row is one of a table.
abbrev pub IsIn : TradedPosition → List TradedPosition → Type 0
IsIn q [] = true ≡ false
IsIn q (p ∷ ps) = (q ≡ p) ⊎ IsIn q ps

module _ (answers : SyncAnswers) where
  -- The broker says that it has no such position.
  abbrev pub IsGone : TradedPosition → Type 0
  IsGone q = (d : String) × (q.deal_id ≡ some d) × (answers.probe d ≡ not_found)

  -- The row never had a deal, and its time for that is over.
  abbrev pub IsNeverOpened : TradedPosition → Type 0
  IsNeverOpened q =
      (r : TradedPosition) × (r.deal_id ≡ none)
      × (opened_within answers r ≡ false)
      × (q ≡ mark_never_opened r)

  module _ (IsOld : TradedPosition → Type 0) where
    -- A row is open, or it is as it was read, or it was closed for one of the two reasons.
    abbrev pub IsRight : TradedPosition → Type 0
    IsRight q =
        (q.is_open ≡ true)
        ⊎ IsOld q
        ⊎ ((id : ℕ) × (answers.refresh id ≡ some q))
        ⊎ IsNeverOpened q
        ⊎ IsGone q

    module _ (a : Arith) where
      reanchor-is_open :
          (p : TradedPosition) (x y : Float)
          → (reanchor_exit_references a p x y).is_open ≡ p.is_open
      unfolding reanchor_exit_references
      reanchor-is_open p x y = ground arith

      bind_real-is_open :
          (p : TradedPosition) (e : LiveEntry) → (bind_real_open_level a p e).is_open ≡ p.is_open
      unfolding bind_real_open_level
      bind_real-is_open p e = elim (Bool-cases (same_float e.level zero_float)) [
        | inl missing ↦ rw (bind_real_open_level, missing) refl
        | inr there ↦
            rw (bind_real_open_level, there)
              (reanchor-is_open (record p { level_open = some (a.round5 e.level) })
                (if str_eq p.direction "SELL"
                  then or_zero p.level_open
                  else a.add (or_zero p.level_open) (or_zero p.pip_spread))
                e.level)
      ]

      take_deal-is_open :
          (d : String) (e : LiveEntry) (p : TradedPosition)
          → (take_deal a d e p).is_open ≡ p.is_open
      unfolding take_deal
      take_deal-is_open d e p = elim (Option-cases p.deal_id) [
        | inl nothing ↦
            rw (take_deal, nothing) (bind_real-is_open (record p { deal_id = some d }) e)
        | inr (x, h) ↦ rw (take_deal, h) (ground arith)
      ]

      mark_to_market-is_open :
          (e : LiveEntry) (p : TradedPosition) → (mark_to_market a e p).is_open ≡ p.is_open
      unfolding mark_to_market
      mark_to_market-is_open e p = ground arith

      same_open : (e : LiveEntry) (p : TradedPosition) → (settle_matched a e p).is_open ≡ p.is_open
      unfolding settle_matched
      same_open e p = elim (Option-cases (nonempty e.deal_id)) [
        | inl nothing ↦ rw (settle_matched, nothing) (mark_to_market-is_open e p)
        | inr (d, h) ↦
            rw (settle_matched, h)
              (mark_to_market-is_open e (take_deal a d e p) ∙ take_deal-is_open d e p)
      ]

      nonempty-some : (o : Option String) (d : String) → nonempty o ≡ some d → o ≡ some d
      unfolding nonempty
      nonempty-some none d h = h
      nonempty-some (some s) d h = ground (arith, h)

      probe-not_found : (x : Probe) → is_not_found x ≡ true → x ≡ not_found
      probe-not_found present h = absurd (cc)
      probe-not_found not_found h = refl
      probe-not_found unclear h = absurd (cc)

      IsGone-probe : (q : TradedPosition) → ig_position_gone answers q ≡ true → IsGone q
      unfolding ig_position_gone
      IsGone-probe q = elim (Option-cases (nonempty q.deal_id)) [
        | inl nothing ↦ rw (ig_position_gone, nothing) (λ h. absurd (cc))
        | inr (d, e) ↦
            rw (ig_position_gone, e)
              (λ h. (d, nonempty-some q.deal_id d e, probe-not_found (answers.probe d) h))
      ]

      -- What becomes of a row without an entry.
      abbrev IsSettled : TradedPosition × Bool → Type 0
      IsSettled (q, closed) = IsRight q × ((closed ≡ true) → IsGone q × (q.is_open ≡ false))

      IsSettled-read :
          (p q : TradedPosition)
          → answers.refresh p.id ≡ some q
          → (open_ : Bool) (deal : Option String) → q.is_open ≡ open_
          → q.deal_id ≡ deal
          → IsSettled (settle_read a answers q open_ deal)
      unfolding reconcile_vanished
      IsSettled-read p q read false deal on h = (inr (inr (inl (p.id, read))), λ e. absurd (cc))
      IsSettled-read p q read true none on h = elim (Bool-cases (opened_within answers q)) [
        | inl recent ↦ rw (recent) (inl on, λ e. absurd (cc))
        | inr late ↦ rw (late) (inr (inr (inr (inl (q, h, late, refl)))), λ e. absurd (cc))
      ]
      IsSettled-read p q read true (some d) on h = elim (Bool-cases (ig_position_gone answers q)) [
        | inl away ↦
            rw (away)
              (inr (inr (inr (inr (IsGone-probe q away)))), λ _. (IsGone-probe q away, refl))
        | inr there ↦ rw (there) (inl on, λ e. absurd (cc))
      ]

      -- The rows and those that were reconciled.
      abbrev IsSound : Synced → Type 0
      IsSound s = All IsRight s.rows × All (λ q. IsGone q × (q.is_open ≡ false)) s.reconciled_closed

      add_settled :
          (q : TradedPosition) (closed : Bool) (s : Synced)
          → IsSettled (q, closed)
          → IsSound s
          → IsSound (with_unmatched a (some (q, closed)) s)
      add_settled q true s h k = ((h.0, k.0), (h.1 refl, k.1))
      add_settled q false s h k = ((h.0, k.0), k.1)

      add_unmatched :
          (p : TradedPosition) (s : Synced)
          → IsSound s
          → IsSound (with_unmatched a (settle_unmatched a answers p) s)
      unfolding settle_unmatched
      add_unmatched p s h = elim (Option-cases (answers.refresh p.id)) [
        | inl gone ↦ rw (settle_unmatched, gone) h
        | inr (q, read) ↦
            rw (settle_unmatched, read)
              (add_settled _ _ s (IsSettled-read p q read q.is_open q.deal_id refl refl) h)
      ]

      module _ (entries : List LiveEntry) where
        settle_row-IsSound :
            (p : TradedPosition) (open_ : Bool) (o : Option LiveEntry) (s : Synced)
            → IsOld p
            → p.is_open ≡ open_
            → IsSound s
            → IsSound (settle_row a answers p open_ (if open_ then o else none) s)
        settle_row-IsSound p true none s old on h = add_unmatched p s h
        settle_row-IsSound p true (some e) s old on h = ((inl (same_open e p ∙ on), h.0), h.1)
        settle_row-IsSound p false o s old on h = ((inr (inl old), h.0), h.1)

        sync_rows-IsSound :
            (ps : List TradedPosition) (claimed : List String)
            → All IsOld ps
            → IsSound (sync_rows a answers entries ps claimed)
        unfolding sync_rows
        sync_rows-IsSound [] claimed old = (tt, tt)
        sync_rows-IsSound (p ∷ ps) claimed old =
            settle_row-IsSound p p.is_open (bind a entries claimed p) _ old.0 refl
              (sync_rows-IsSound ps _ old.1)

All-IsIn :
    (P : TradedPosition → Type 0) (ps : List TradedPosition)
    → ((q : TradedPosition) → IsIn q ps → P q)
    → All P ps
All-IsIn P [] h = tt
All-IsIn P (p ∷ ps) h = (h p (inl refl), All-IsIn P ps (λ q k. h q (inr k)))

module _ (a : Arith) (answers : SyncAnswers) where
  -- Is a row open, if there is one?
  abbrev OpenIf : Option TradedPosition → Type 0
  OpenIf none = Unit
  OpenIf (some p) = p.is_open ≡ true

  adopt_ig_position-OpenIf : (id : ℕ) (e : LiveEntry) → OpenIf (adopt_ig_position a answers id e)
  unfolding adopt_ig_position adopted_row
  adopt_ig_position-OpenIf id e = elim (Option-cases (nonempty e.epic)) [
    | inl no_epic ↦ rw (adopt_ig_position, no_epic) tt
    | inr (epic, k) ↦ elim (Option-cases (nonempty e.deal_id)) [
      | inl no_deal ↦ rw (adopt_ig_position, k, no_deal) tt
      | inr (deal, l) ↦ elim (Bool-cases (is_side e.direction)) [
        | inl side ↦ rw (adopt_ig_position, k, l, side) refl
        | inr other ↦ rw (adopt_ig_position, k, l, other) tt
      ]
    ]
  ]

  adopt_new-OpenIf :
      (id : ℕ) (tracked : List String) (e : LiveEntry) → OpenIf (adopt_new a answers id tracked e)
  adopt_new-OpenIf id tracked e =
      elim (Bool-cases (str_eq (deal_text e) "" || contains tracked (deal_text e))) [
        | inl skip ↦ rw (skip) tt
        | inr new ↦ rw (new) (adopt_ig_position-OpenIf id e)
      ]

  module _ (IsOld : TradedPosition → Type 0) where
    first-IsRight :
        (o : Option TradedPosition) (without with_ : List TradedPosition)
        → OpenIf o
        → All (IsRight answers IsOld) without
        → All (IsRight answers IsOld) with_
        → All (IsRight answers IsOld) (adopted_first a o without with_)
    first-IsRight none without with_ h k l = k
    first-IsRight (some p) without with_ h k l = (inl h, l)

    adopt_all-IsRight :
        (es : List LiveEntry) (id : ℕ) (tracked : List String)
        → All (IsRight answers IsOld) (adopt_all a answers id tracked es)
    unfolding adopt_all
    adopt_all-IsRight [] id tracked = tt
    adopt_all-IsRight (e ∷ es) id tracked =
        first-IsRight (adopt_new a answers id tracked e) _ _ (adopt_new-OpenIf id tracked e)
          (adopt_all-IsRight es id tracked) (adopt_all-IsRight es (suc id) (deal_text e ∷ tracked))

  -- Every row after a synchronization is open, or it was in the table as it is or was read so again,
  -- or it never had a deal and its time for that is over, or the broker answered that it has no
  -- position of its deal; the rows that are handed on as closed are of the last kind.
  pub sync_open_positions-closes :
      (next_id : ℕ) (table : List TradedPosition)
      → let result = sync_open_positions a answers next_id table in
        All (IsRight answers (λ q. IsIn q table)) result.0
        × All (λ q. IsGone answers q × (q.is_open ≡ false)) result.1
  unfolding sync_open_positions
  sync_open_positions-closes next_id table =
      let IsOld : TradedPosition → Type 0 = λ q. IsIn q table in
      let Right : TradedPosition → Type 0 = IsRight answers IsOld in
      elim (Option-cases answers.listing) [
        | inl silent ↦
            rw (sync_open_positions, silent) (All-IsIn Right table (λ q k. inr (inl k)), tt)
        | inr (entries, listing) ↦
            let s = sync_rows a answers entries table [] in
            let sound =
              sync_rows-IsSound answers IsOld a entries table []
                (All-IsIn IsOld table (λ q k. k)) in
            rw (sync_open_positions, listing)
              (
                All-append Right s.rows _ sound.0
                    (adopt_all-IsRight IsOld entries next_id (s.claimed ++ known_deal_ids table)),
                sound.1,
              )
      ]
