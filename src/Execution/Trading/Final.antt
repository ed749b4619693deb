-- ===== src/Execution/Trading/Final.antt =====
-- When a close at the broker is recorded (src/execution/trading.py).
use mathlib.Core.Path.{subst}
use igthon.Prelude.{
  ◌≡◌, ◌∙◌, ap, refl, sym, ◌↔◌, ◌⊎◌, inl, inr, String, Bool, true, false, not, ◌&&◌, Option, none,
  some, List, Bool-cases, Option-cases, arith,
}
use igthon.Num.{Float, Arith}
use igthon.Execution.Trading.{TradeConfig, TradedPosition}
use igthon.Execution.Trading.Stops.{Listing, nonempty, listed_deal, ensure_deal_id}
use igthon.Execution.Trading.Closing.{
  CloseAnswers, DeleteReply, deleted, missing, market_unsupported, failed, close_position,
  after_delete, settle_close, handle_phantom_close, mark_phantom, mark_closed, delete_close_order,
  close_order, fetch_close_result, is_listed,
}

-- The broker's answer means that it no longer has the position: the deal was not refused, or the
-- epic is not in the list that verifies a 404.
unfoldable pub is_final : DeleteReply → CloseAnswers → String → Bool
unfolding fetch_close_result is_listed
is_final (deleted reference) answers epic =
    not (fetch_close_result reference answers.confirm).rejected
is_final missing answers epic = elim answers.verify [
  | none ↦ false
  | some entries ↦ not (is_listed epic entries)
]
is_final market_unsupported answers epic = false
is_final failed answers epic = false

module _ (a : Arith) where
  after_delete-is_final :
      (reply : DeleteReply) (answers : CloseAnswers) (p : TradedPosition) (level : Float)
      (reason : String)
      → let r = after_delete a reply answers p level reason in
        (r.1 ≡ is_final reply answers p.epic) × (r.0.is_open ≡ p.is_open && not r.1)
  unfolding after_delete is_final settle_close handle_phantom_close mark_phantom mark_closed
  after_delete-is_final (deleted reference) answers p level reason =
      elim (Bool-cases (fetch_close_result reference answers.confirm).rejected) [
        | inl refused ↦ rw (after_delete, settle_close, is_final, refused) (refl, ground arith)
        | inr taken ↦
            rw (after_delete, settle_close, mark_closed, is_final, taken) (refl, ground arith)
      ]
  after_delete-is_final missing answers p level reason = elim (Option-cases answers.verify) [
    | inl nothing ↦ rw (after_delete, is_final, nothing, handle_phantom_close) (refl, ground arith)
    | inr (entries, e) ↦ elim (Bool-cases (is_listed p.epic entries)) [
      | inl there ↦ rw (after_delete, is_final, e, handle_phantom_close, there) (refl, ground arith)
      | inr gone ↦
          rw (after_delete, is_final, e, handle_phantom_close, gone, mark_phantom)
            (refl, ground arith)
    ]
  ]
  after_delete-is_final market_unsupported answers p level reason = (refl, ground arith)
  after_delete-is_final failed answers p level reason = (refl, ground arith)

  -- The answer to the order that is sent, where a deal is known.
  unfoldable pub reply_to :
      TradeConfig → CloseAnswers → List String → TradedPosition → Float → String → DeleteReply
  unfolding delete_close_order close_order ensure_deal_id
  reply_to config answers known p level deal =
      let q = (ensure_deal_id answers.listing p).0 in
      (delete_close_order a (close_order a config known q deal level) q.epic answers known).0

  ensure_deal_id-same :
      (listing : Option Listing) (p : TradedPosition)
      → let q = (ensure_deal_id listing p).0 in (q.epic ≡ p.epic) × (q.is_open ≡ p.is_open)
  unfolding ensure_deal_id
  ensure_deal_id-same listing p = elim (Option-cases (nonempty p.deal_id)) [
    | inr (d, e) ↦ rw (ensure_deal_id, e) (refl, refl)
    | inl e ↦ elim (Option-cases (listed_deal p.epic listing)) [
      | inl f ↦ rw (ensure_deal_id, e, f) (refl, refl)
      | inr (d, f) ↦ rw (ensure_deal_id, e, f) (refl, refl)
    ]
  ]

  -- An open position is recorded as closed exactly if its deal is not known, neither from its row nor
  -- from the broker's list, or if the broker's answer to the order means that it no longer has the
  -- position; otherwise it stays open. The result says which.
  pub close_position-closes :
      (config : TradeConfig) (answers : CloseAnswers) (known : List String) (p : TradedPosition)
      (level : Float) (reason : String)
      → p.is_open ≡ true
      → let r = close_position a config answers known p level reason in
        let deal = (ensure_deal_id answers.listing p).1 in
        (r.position.is_open ≡ not r.closed)
        × ((r.closed ≡ true) ↔ (
            (deal ≡ none)
            ⊎ ((d : String) × (deal ≡ some d)
                × (is_final (reply_to config answers known p level d) answers p.epic ≡ true))))
  unfolding close_position mark_phantom reply_to
  close_position-closes config answers known p level reason h =
      let (same_epic, same_open) = ensure_deal_id-same answers.listing p in
      elim (Option-cases (ensure_deal_id answers.listing p).1) [
        | inl nothing ↦
            rw (close_position, nothing, mark_phantom) (refl, (λ _. inl refl, λ _. refl))
        | inr (deal, e) ↦
            let q = (ensure_deal_id answers.listing p).0 in
            let reply = reply_to config answers known p level deal in
            let (done, row) = after_delete-is_final reply answers q level reason in
            let final = done ∙ ap (λ (k : String). is_final reply answers k) same_epic in
            rw (close_position, e)
              (
                rw (row, same_open, h) refl,
                (
                  λ t. inr (deal, refl, sym final ∙ t),
                  λ t. elim t [
                    | inl bad ↦ absurd (ground arith)
                    | inr (x, same, f) ↦
                        let known_deal : x ≡ deal = ground arith in
                        final
                        ∙ subst
                            (λ (k : String).
                              is_final (reply_to config answers known p level k) answers p.epic
                              ≡ true)
                            known_deal f
                  ],
                ),
              )
      ]
