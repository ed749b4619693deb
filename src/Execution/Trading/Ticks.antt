-- ===== src/Execution/Trading/Ticks.antt =====
-- Every branch of a tick keeps the ratchet (src/execution/trading.py).
use mathlib.Core.Path.{subst}
use igthon.Prelude.{
  ◌≡◌, ◌∙◌, refl, sym, inl, inr, String, false, not, ◌&&◌, Option, none, some, List, str_eq,
  if◌then◌else◌, Bool-cases, Option-cases, arith,
}
use igthon.Prelude.Int.{◌≤ℤ◌}
use igthon.Num.{Float, Arith, Ieee, Rounding, zero_float, ◌<f◌}
use igthon.Feed.Candle.{Candle, spread}
use igthon.Feed.Buffer.{EpicBuffer, last}
use igthon.Exit.Trailing.{compute_trailing_stop, decide_close_reason}
use igthon.Exit.Trailing.Ratchet.{gains}
use igthon.Exit.Zones.Order.{ahead_long}
use igthon.Exit.Close.{CloseZoneProfit, CloseDecision, hold, close, update_stop, or_zero, evaluate}
use igthon.Execution.Trading.{TradedPosition, TradeConfig, exit_view, is_epic_close_hour}
use igthon.Execution.Trading.Stops.{ensure_deal_id, is_favourable_stop_move, broker_stop_buffer}
use igthon.Execution.Trading.Closing.{
  Closed, CloseAnswers, DeleteReply, deleted, missing, market_unsupported, failed, close_position,
  after_delete, settle_close, handle_phantom_close, mark_phantom, mark_closed, delete_close_order,
  close_order, fetch_close_result, is_listed,
}
use igthon.Execution.Trading.Manage.{
  Service, Tidings, ManualHold, held, released, no_hold, close_now, trail, trailing_tick,
  update_trailing_stop, check_and_close, manual_hold, apply_stop, apply_decision, under_hold,
  after_hold, manage_with, unprofiled, kept, profiled, manage_position,
}
use igthon.Execution.Trading.Ratchet.{
  IsGuarded, IsSameStops, IsRounded, same-IsTightened, ensure_deal_id-IsSameStops,
  ratchet_stop-IsGuarded,
}

module _ (a : Arith) where
  -- A tick from one position to the other keeps the ratchet and the decimals.
  abbrev pub IsSafe : TradedPosition → TradedPosition → Type 0
  IsSafe p q = IsGuarded p q × IsRounded a q

  IsSameStops-IsSafe : (p q : TradedPosition) → IsRounded a p → IsSameStops p q → IsSafe p q
  IsSameStops-IsSafe p q r (f, s) = (
    (
      rw f (same-IsTightened a p.direction (or_zero p.level_follower)),
      rw s (same-IsTightened a p.direction (or_zero p.level_stop)),
    ),
    (rw f r.0, rw s r.1),
  )

  after_delete-IsSameStops :
      (reply : DeleteReply) (answers : CloseAnswers) (p : TradedPosition) (level : Float)
      (reason : String)
      → IsSameStops p (after_delete a reply answers p level reason).0
  unfolding after_delete settle_close handle_phantom_close mark_phantom mark_closed
  after_delete-IsSameStops (deleted reference) answers p level reason =
      elim (Bool-cases (fetch_close_result reference answers.confirm).rejected) [
        | inl refused ↦ rw (after_delete, settle_close, refused) (refl, refl)
        | inr taken ↦ rw (after_delete, settle_close, mark_closed, taken) (refl, refl)
      ]
  after_delete-IsSameStops missing answers p level reason = elim (Option-cases answers.verify) [
    | inl nothing ↦ rw (after_delete, nothing, handle_phantom_close) (refl, refl)
    | inr (entries, e) ↦ elim (Bool-cases (is_listed p.epic entries)) [
      | inl there ↦ rw (after_delete, e, handle_phantom_close, there) (refl, refl)
      | inr gone ↦ rw (after_delete, e, handle_phantom_close, gone, mark_phantom) (refl, refl)
    ]
  ]
  after_delete-IsSameStops market_unsupported answers p level reason = (refl, refl)
  after_delete-IsSameStops failed answers p level reason = (refl, refl)

  -- A close does not touch the stops.
  close_position-IsSameStops :
      (config : TradeConfig) (answers : CloseAnswers) (known : List String) (p : TradedPosition)
      (level : Float) (reason : String)
      → IsSameStops p (close_position a config answers known p level reason).position
  unfolding close_position mark_phantom
  close_position-IsSameStops config answers known p level reason =
      let (f, s) = ensure_deal_id-IsSameStops answers.listing p in
      elim (Option-cases (ensure_deal_id answers.listing p).1) [
        | inl nothing ↦ rw (close_position, nothing, mark_phantom) (f, s)
        | inr (deal, e) ↦
            let q = (ensure_deal_id answers.listing p).0 in
            let (g, t) =
              after_delete-IsSameStops
                (delete_close_order a (close_order a config known q deal level) q.epic answers
                  known).0
                answers q level reason in
            rw (close_position, e) (g ∙ f, t ∙ s)
      ]

  module _ (laws : Ieee a) (rounding : Rounding a) (service : Service)
      (ratio : zero_float ≤ℤ service.config.trailing.trailing_step_ratio) where
    kept-IsSafe : (p : TradedPosition) → IsRounded a p → IsSafe p p
    kept-IsSafe p r = IsSameStops-IsSafe p p r (refl, refl)

    apply_stop-IsSafe :
        (tidings : Tidings) (p : TradedPosition) (bid : Float) (buf : EpicBuffer) (c : Candle)
        (s : Float)
        → IsRounded a p
        → IsSafe p (apply_stop a service tidings p bid buf c s)
    unfolding apply_stop
    apply_stop-IsSafe tidings p bid buf c s r =
        elim (Bool-cases (
          (zero_float <f or_zero p.level_follower)
          && not (is_favourable_stop_move p.direction s (or_zero p.level_follower)))) [
            | inl looser ↦ rw (apply_stop, looser) (kept-IsSafe p r)
            | inr tighter ↦
                rw (apply_stop, tighter)
                  (ratchet_stop-IsGuarded a rounding tidings.stop_answers p s
                    (if str_eq p.direction "SELL" then a.add bid (spread a c) else bid) (spread a c)
                    (broker_stop_buffer a service.config (some buf)) r tighter)
          ]

    apply_decision-IsSafe :
        (tidings : Tidings) (p : TradedPosition) (bid : Float) (buf : EpicBuffer) (c : Candle)
        (d : CloseDecision)
        → IsRounded a p
        → IsSafe p (apply_decision a service tidings p bid buf c d)
    unfolding apply_decision
    apply_decision-IsSafe tidings p bid buf c (update_stop s) r =
        apply_stop-IsSafe tidings p bid buf c s r
    apply_decision-IsSafe tidings p bid buf c hold r = kept-IsSafe p r
    apply_decision-IsSafe tidings p bid buf c (close reason) r = kept-IsSafe p r

    under_hold-IsSafe :
        (tidings : Tidings) (p : TradedPosition) (bid : Float) (buf : EpicBuffer) (c : Candle)
        (d : CloseDecision) (h : ManualHold)
        → IsRounded a p
        → IsSafe p (under_hold a service tidings p bid buf c d h)
    unfolding under_hold
    under_hold-IsSafe tidings p bid buf c d held r = kept-IsSafe p r
    under_hold-IsSafe tidings p bid buf c d released r =
        apply_decision-IsSafe tidings (record p { manual_stop_zone = none }) bid buf c d r
    under_hold-IsSafe tidings p bid buf c d no_hold r =
        apply_decision-IsSafe tidings p bid buf c d r

    close_now-IsSafe :
        (tidings : Tidings) (p : TradedPosition) (level : Float) (reason : String)
        → IsRounded a p
        → IsSafe p (close_now a service tidings p level reason).position
    unfolding close_now
    close_now-IsSafe tidings p level reason r =
        IsSameStops-IsSafe p
          (close_position a service.config tidings.close_answers service.market_order_unsupported p
            level reason).position
          r
          (close_position-IsSameStops service.config tidings.close_answers
            service.market_order_unsupported p level reason)

    manage_with-IsSafe :
        (tidings : Tidings) (profile : CloseZoneProfit) (p : TradedPosition) (bid : Float)
        (buf : EpicBuffer) (c : Candle) (d : CloseDecision)
        → IsRounded a p
        → IsSafe p (manage_with a service tidings profile p bid buf c d).position
    unfolding manage_with after_hold
    manage_with-IsSafe tidings profile p bid buf c (close reason) r =
        close_now-IsSafe tidings p bid reason r
    manage_with-IsSafe tidings profile p bid buf c hold r =
        under_hold-IsSafe tidings p bid buf c hold (manual_hold a service profile p bid buf) r
    manage_with-IsSafe tidings profile p bid buf c (update_stop s) r =
        under_hold-IsSafe tidings p bid buf c (update_stop s)
          (manual_hold a service profile p bid buf) r

    -- The fallback trails the stop of a long position only.
    trail-IsSafe :
        (tidings : Tidings) (p : TradedPosition) (bid : Float) (buf : EpicBuffer) (c : Candle)
        → IsRounded a p
        → str_eq p.direction "SELL" ≡ false
        → IsSafe p (trail a service tidings p bid buf c)
    unfolding trail is_favourable_stop_move
    trail-IsSafe tidings p bid buf c r long =
        let tick = trailing_tick a service p bid buf c in
        elim (Option-cases (
          compute_trailing_stop a service.config.trailing (a.lit 1 1) tick
            (or_zero p.level_follower))) [
              | inl nothing ↦ rw (trail, nothing) (kept-IsSafe p r)
              | inr (s, moved) ↦
                  let further = rw (ahead_long a laws s (or_zero p.level_follower)) at (
                    gains a laws service.config.trailing ratio (a.lit 1 1) tick
                      (or_zero p.level_follower) s moved) in
                  rw (trail, moved)
                    (ratchet_stop-IsGuarded a rounding tidings.stop_answers p s bid (spread a c)
                      (broker_stop_buffer a service.config (some buf)) r
                      (rw (is_favourable_stop_move, long, further) (ground arith)))
            ]

    update_trailing_stop-IsSafe :
        (tidings : Tidings) (p : TradedPosition) (bid : Float) (maybe_buf : Option EpicBuffer)
        → IsRounded a p
        → str_eq p.direction "SELL" ≡ false
        → IsSafe p (update_trailing_stop a service tidings p bid maybe_buf)
    unfolding update_trailing_stop
    update_trailing_stop-IsSafe tidings p bid none r long = kept-IsSafe p r
    update_trailing_stop-IsSafe tidings p bid (some buf) r long = elim (Option-cases (last buf)) [
      | inl nothing ↦ rw (update_trailing_stop, nothing) (kept-IsSafe p r)
      | inr (c, e) ↦ rw (update_trailing_stop, e) (trail-IsSafe tidings p bid buf c r long)
    ]

    check_and_close-IsSafe :
        (tidings : Tidings) (p : TradedPosition) (bid : Float) (maybe_buf : Option EpicBuffer)
        → IsRounded a p
        → str_eq p.direction "SELL" ≡ false
        → IsSafe p (check_and_close a service tidings p bid maybe_buf).position
    unfolding check_and_close
    check_and_close-IsSafe tidings p bid maybe_buf r long =
        elim (Option-cases (
          decide_close_reason bid (or_zero p.level_win) (or_zero p.level_loose)
            (is_epic_close_hour a service.config tidings.minutes_to_close))) [
              | inr (reason, e) ↦ rw (check_and_close, e) (close_now-IsSafe tidings p bid reason r)
              | inl open_still ↦ elim (Bool-cases (or_zero p.level_open <f bid)) [
                | inl winning ↦
                    rw (check_and_close, open_still, winning)
                      (update_trailing_stop-IsSafe tidings p bid maybe_buf r long)
                | inr losing ↦ rw (check_and_close, open_still, losing) (kept-IsSafe p r)
              ]
            ]

    unprofiled-IsSafe :
        (tidings : Tidings) (p : TradedPosition) (bid : Float) (maybe_buf : Option EpicBuffer)
        → IsRounded a p
        → IsSafe p (unprofiled a service tidings p bid maybe_buf).position
    unfolding unprofiled
    unprofiled-IsSafe tidings p bid maybe_buf r = elim (Bool-cases (str_eq p.direction "SELL")) [
      | inl short ↦
          let stays : unprofiled a service tidings p bid maybe_buf ≡ kept a service p =
            rw (unprofiled, short) refl in
          subst (λ (c : Closed). IsSafe p c.position) (sym stays) (kept-IsSafe p r)
      | inr long ↦
          let falls : unprofiled a service tidings p bid maybe_buf
              ≡ check_and_close a service tidings p bid maybe_buf =
            rw (unprofiled, long) refl in
          subst (λ (c : Closed). IsSafe p c.position) (sym falls)
            (check_and_close-IsSafe tidings p bid maybe_buf r long)
    ]

    profiled-IsSafe :
        (tidings : Tidings) (profile : CloseZoneProfit) (p : TradedPosition) (bid : Float)
        (maybe_buf : Option EpicBuffer) (group : Option Float)
        → IsRounded a p
        → IsSafe p (profiled a service tidings profile p bid maybe_buf group).position
    unfolding profiled
    profiled-IsSafe tidings profile p bid none group r = unprofiled-IsSafe tidings p bid none r
    profiled-IsSafe tidings profile p bid (some buf) group r = elim (Option-cases (last buf)) [
      | inl nothing ↦ rw (profiled, nothing) (unprofiled-IsSafe tidings p bid (some buf) r)
      | inr (c, e) ↦
          rw (profiled, e)
            (manage_with-IsSafe tidings profile p bid buf c
              (evaluate a profile (exit_view p) bid buf
                (is_epic_close_hour a service.config tidings.minutes_to_close) group)
              r)
    ]

    -- Whatever the market, the profile's decision and the broker's answers, a tick leaves the software
    -- stop and the broker's stop of a position where they are or moves them towards profit, up for a
    -- long position and down for a short one, if they were set; so does the tick's own close.
    pub manage_position-IsSafe :
        (tidings : Tidings) (p : TradedPosition) (bid : Float) (maybe_buf : Option EpicBuffer)
        (group : Option Float)
        → IsRounded a p
        → IsSafe p (manage_position a service tidings p bid maybe_buf group).position
    unfolding manage_position
    manage_position-IsSafe tidings p bid maybe_buf group r =
        elim (Option-cases service.close_profile) [
          | inl bare ↦ rw (manage_position, bare) (unprofiled-IsSafe tidings p bid maybe_buf r)
          | inr (profile, e) ↦
              rw (manage_position, e) (profiled-IsSafe tidings profile p bid maybe_buf group r)
        ]
