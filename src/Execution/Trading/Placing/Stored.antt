-- ===== src/Execution/Trading/Placing/Stored.antt =====
-- The row that an opening leaves (src/execution/trading.py).
use igthon.Prelude.{
  ◌≡◌, ◌↔◌, ◌⊎◌, inl, inr, refl, ℕ, String, true, false, Option, none, some, List, Bool-cases,
  Option-cases, arith,
}
use igthon.Num.{Float, Arith}
use igthon.Execution.Trading.{TradeConfig, TradedPosition}
use igthon.Execution.Trading.Stops.{nonempty}
use igthon.Execution.Trading.Sync.{reanchor_exit_references}
use igthon.Execution.Trading.Placing.{
  Signal, MarketData, OpenAnswers, Placement, Confirmation, place, confirm_with_retry,
}
use igthon.Execution.Trading.Placing.Row.{
  is_accepted, draft_row, confirmed_row, settle_open, sent, open_with, open_position,
}

-- The deal that the row has after the confirmation.
abbrev pub deal_after : Option Confirmation → Option String
deal_after none = none
deal_after (some c) = nonempty c.deal_id

-- A confirmation came and does not accept the deal.
abbrev pub IsRefused : Option Confirmation → Type 0
IsRefused none = true ≡ false
IsRefused (some c) = is_accepted c ≡ false

module _ (a : Arith) where
  -- The row is open and has the reference and the deal.
  abbrev pub IsRow : Option String → Option String → TradedPosition → Type 0
  IsRow reference deal p = (p.is_open ≡ true) × (p.deal_reference ≡ reference) × (p.deal_id ≡ deal)

  abbrev pub AllOf : (TradedPosition → Type 0) → Option TradedPosition → Type 0
  AllOf P none = Unit
  AllOf P (some p) = P p

  reanchor-IsRow :
      (reference deal : Option String) (p : TradedPosition) (x y : Float)
      → IsRow reference deal p
      → IsRow reference deal (reanchor_exit_references a p x y)
  unfolding reanchor_exit_references
  reanchor-IsRow reference deal p x y h = ground (arith, h.0, h.1, h.2)

  confirmed-IsRow :
      (s : Signal) (placed : Placement) (c : Confirmation) (p : TradedPosition)
      (reference : Option String)
      → p.is_open ≡ true
      → p.deal_reference ≡ reference
      → IsRow reference (nonempty c.deal_id) (confirmed_row a s placed c p)
  unfolding confirmed_row
  confirmed-IsRow s placed c p reference h k = elim (Option-cases c.level) [
    | inl nothing ↦ rw (confirmed_row, nothing) (h, k, refl)
    | inr (level, e) ↦
        rw (confirmed_row, e)
          (reanchor-IsRow reference (nonempty c.deal_id)
            (record p { deal_id = nonempty c.deal_id; level_open = some (a.round5 level) })
            placed.reference_price level (h, k, refl))
  ]

  settle_open-IsRow :
      (s : Signal) (placed : Placement) (o : Option Confirmation) (p : TradedPosition)
      (reference : Option String)
      → IsRow reference none p
      → ((settle_open a s placed o p ≡ none) ↔ IsRefused o)
        × AllOf (IsRow reference (deal_after o)) (settle_open a s placed o p)
  unfolding settle_open
  settle_open-IsRow s placed none p reference h =
      ((λ e. absurd (ground (arith, e)), λ e. absurd (cc)), h)
  settle_open-IsRow s placed (some c) p reference h = elim (Bool-cases (is_accepted c)) [
    | inl yes_ ↦
        rw (settle_open, yes_)
          (
            (λ e. absurd (ground (arith, e)), λ e. absurd (cc)),
            confirmed-IsRow s placed c p reference h.0 h.1,
          )
    | inr no_ ↦ rw (settle_open, no_) ((λ _. refl, λ _. refl), tt)
  ]

  open_with-IsRow :
      (answers : OpenAnswers) (id : ℕ) (s : Signal) (o : Option Placement)
      (reference : Option String)
      → (o ≡ none → reference ≡ none)
      → let row = open_with a answers id s o reference in
        let confirmation = confirm_with_retry answers.confirm in
        ((row ≡ none) ↔ ((reference ≡ none) ⊎ IsRefused confirmation))
        × AllOf (IsRow reference (deal_after confirmation)) row
  unfolding draft_row
  open_with-IsRow answers id s none reference h = ((λ _. inl (h refl), λ _. refl), tt)
  open_with-IsRow answers id s (some placed) none h = ((λ _. inl refl, λ _. refl), tt)
  open_with-IsRow answers id s (some placed) (some reference) h =
      let o = confirm_with_retry answers.confirm in
      let (lost, kept) =
        settle_open-IsRow s placed o (draft_row a answers id s placed reference) (some reference)
          (refl, refl, refl) in
      (
        (
          λ e. inr (lost.0 e),
          λ x. elim x [ inl e ↦ absurd (ground (arith, e)) | inr k ↦ lost.1 k ],
        ),
        kept,
      )

  sent-none :
      (answers : OpenAnswers) (o : Option Placement) (unsupported : List String)
      → o ≡ none
      → (sent a answers o unsupported).0 ≡ none
  unfolding sent
  sent-none answers none unsupported e = refl
  sent-none answers (some placed) unsupported e = absurd (ground (arith, e))

  -- When the market is answered, an opening leaves no row exactly if no reference of an order comes
  -- back, or a confirmation comes that does not accept the deal; otherwise it leaves an open row with
  -- the reference, and with the deal of the confirmation if one came and none if not.
  pub open_position-IsRow :
      (config : TradeConfig) (answers : OpenAnswers) (id : ℕ) (unsupported : List String)
      (s : Signal) (multiplier : ℕ) (noise_buffer : Float) (market : MarketData)
      → answers.market ≡ some market
      → let row =
          (open_position a config answers id unsupported s multiplier noise_buffer).position in
        let placed = place a config market s unsupported multiplier noise_buffer in
        let reference = (sent a answers placed unsupported).0 in
        let confirmation = confirm_with_retry answers.confirm in
        ((row ≡ none) ↔ ((reference ≡ none) ⊎ IsRefused confirmation))
        × AllOf (IsRow reference (deal_after confirmation)) row
  unfolding open_position
  open_position-IsRow config answers id unsupported s multiplier noise_buffer market h =
      let placed = place a config market s unsupported multiplier noise_buffer in
      rw (open_position, h)
        (open_with-IsRow answers id s placed (sent a answers placed unsupported).0
          (sent-none answers placed unsupported))
