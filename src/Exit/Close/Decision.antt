-- ===== src/Exit/Close/Decision.antt =====
-- When a position is closed, and that no tick loosens its stop (src/exit/close_zoneprofit.py).
use igthon.Prelude.{
  ◌≡◌, refl, ◌↔◌, ◌⊎◌, inl, inr, Bool, true, false, ◌&&◌, Option, none, some, str_eq, Bool-cases,
  Option-cases, arith,
}
use igthon.Prelude.Int.{◌≤ℤ◌}
use igthon.Num.{Float, Arith, Ieee, zero_float, ◌<f◌, ◌≤f◌}
use igthon.Indicators.{atr}
use igthon.Feed.Candle.{Candle, spread}
use igthon.Feed.Buffer.{EpicBuffer, last}
use igthon.Exit.Zones.{StopZone, StopContext, loosens, beyond, sign, sign_for}
use igthon.Exit.Zones.Order.{ahead_long, ahead_short}
use igthon.Exit.Zones.Tighten.{
  IsTighter, trendcut-IsTighter, timedlift-IsTighter, breakeven_lock-IsTighter,
  breakeven_safe-IsTighter, limitloose-IsTighter, breakeven_half-IsTighter,
  trailing_ratchet-IsTighter, trailing_ratchetmore-IsTighter,
}
use igthon.Exit.Updaters.{
  StopUpdater, underwater_stop, breakeven_band_stop, secure_hold_stop, underwater_trend_cut_stop,
  underwater_timed_lift_stop, smart_group_stop, breakeven_lock_stop, breakeven_safe_stop,
  limit_loose_stop, breakeven_half_stop, trailing_ratchet_stop, trailing_ratchet_more_stop, propose,
}
use igthon.Exit.Close.{
  ExitPosition, CloseZoneProfit, update_stop, or_zero, close_out_price, is_stopped, is_group_aware,
  updater_for, tighter_of, decision_of, new_stop_in, context_of, references, zone_at, managed,
  evaluate,
}

-- The factor of the least advance, of the one updater that has it.
abbrev pub min_advance_of : StopUpdater → Float
min_advance_of (underwater_timed_lift_stop p) = p.min_advance_atr_k
min_advance_of _ = zero_float

positive : (x : Float) → (x ≤f zero_float) ≡ false → zero_float ≤ℤ x
positive x h = ground arith

-- A level that may replace the stop: there was none, or the level is further into profit.
abbrev pub IsRatchet : ExitPosition → Float → Type 0
IsRatchet p s =
    (or_zero p.level_follower ≤ℤ zero_float)
    ⊎ ((str_eq p.direction "SELL" ≡ false) × ((or_zero p.level_follower <f s) ≡ true))
    ⊎ ((str_eq p.direction "SELL" ≡ true) × ((s <f or_zero p.level_follower) ≡ true))

module _ (a : Arith) (laws : Ieee a) where
  -- The price at which a close is filled is at the stop, or past it.
  abbrev pub IsAtStop : ExitPosition → Float → Candle → Type 0
  IsAtStop p bid c =
      ((zero_float <f or_zero p.level_follower) ≡ true)
      × (((str_eq p.direction "SELL" ≡ false) × (bid ≤ℤ or_zero p.level_follower))
          ⊎ ((str_eq p.direction "SELL" ≡ true)
              × (or_zero p.level_follower ≤ℤ a.add bid (spread a c))))

  -- A level does not loosen the stop of a context if it is a ratchet of the position's.
  IsTighter-IsRatchet :
      (p : ExitPosition) (ctx : StopContext) (s : Float)
      → ctx.direction ≡ p.direction
      → ctx.level_follower ≡ or_zero p.level_follower
      → IsTighter a ctx s ↔ IsRatchet p s
  unfolding loosens beyond sign sign_for
  IsTighter-IsRatchet p ctx s d f = elim (Bool-cases (str_eq p.direction "SELL")) [
    | inl short ↦
        rw
          (
            loosens,
            beyond,
            sign,
            sign_for,
            d,
            f,
            short,
            ahead_short a laws s (or_zero p.level_follower),
          )
          (ground arith)
    | inr long ↦
        rw
          (
            loosens,
            beyond,
            sign,
            sign_for,
            d,
            f,
            long,
            ahead_long a laws s (or_zero p.level_follower),
          )
          (ground arith)
  ]

  propose-IsTighter :
      (u : StopUpdater) (ctx : StopContext) (s : Float)
      → zero_float ≤ℤ min_advance_of u
      → zero_float ≤ℤ ctx.atr_value
      → ((level : Float) → ctx.group_tighten ≡ some level → IsTighter a ctx level)
      → propose a u ctx ≡ some s
      → IsTighter a ctx s
  unfolding propose
  propose-IsTighter underwater_stop ctx s h k g e = absurd (ground arith)
  propose-IsTighter breakeven_band_stop ctx s h k g e = absurd (ground arith)
  propose-IsTighter secure_hold_stop ctx s h k g e = absurd (ground arith)
  propose-IsTighter (underwater_trend_cut_stop p) ctx s h k g e = trendcut-IsTighter a ctx p e
  propose-IsTighter (underwater_timed_lift_stop p) ctx s h k g e =
      timedlift-IsTighter a ctx p (laws.mul_nonneg p.min_advance_atr_k ctx.atr_value h k) e
  propose-IsTighter (smart_group_stop p) ctx s h k g e = g s e
  propose-IsTighter (breakeven_lock_stop p) ctx s h k g e = breakeven_lock-IsTighter a ctx p e
  propose-IsTighter (breakeven_safe_stop p) ctx s h k g e = breakeven_safe-IsTighter a ctx p e
  propose-IsTighter (limit_loose_stop p) ctx s h k g e = limitloose-IsTighter a ctx p e
  propose-IsTighter (breakeven_half_stop f) ctx s h k g e = breakeven_half-IsTighter a ctx f e
  propose-IsTighter (trailing_ratchet_stop p) ctx s h k g e = trailing_ratchet-IsTighter a ctx p e
  propose-IsTighter (trailing_ratchet_more_stop p) ctx s h k g e =
      trailing_ratchetmore-IsTighter a ctx p e

  module _ (profile : CloseZoneProfit)
      (advances : (z : StopZone) → zero_float ≤ℤ min_advance_of (updater_for a profile z)) where
    tighter_of-IsTighter :
        (ctx : StopContext) (sign : Float) (g m : Option Float) (s : Float)
        → ((level : Float) → g ≡ some level → IsTighter a ctx level)
        → ((level : Float) → m ≡ some level → IsTighter a ctx level)
        → tighter_of a profile sign g m ≡ some s
        → IsTighter a ctx s
    unfolding tighter_of
    tighter_of-IsTighter ctx sign none m s hg hm e = hm s e
    tighter_of-IsTighter ctx sign (some g) none s hg hm e = hg s (ground arith)
    tighter_of-IsTighter ctx sign (some g) (some m) s hg hm e =
        elim (Bool-cases (is_group_aware a profile && (zero_float <f a.mul sign (a.sub g m)))) [
          | inl group ↦ hg s (rw (tighter_of, group) at e)
          | inr zone ↦ hm s (rw (tighter_of, zone) at e)
        ]

    managed-IsRatchet :
        (p : ExitPosition) (price gap : Float) (buf : EpicBuffer) (g : Option Float) (s : Float)
        → ((level : Float) → g ≡ some level → IsRatchet p level)
        → managed a profile p price gap buf g ≡ update_stop s
        → IsRatchet p s
    unfolding managed new_stop_in context_of
    managed-IsRatchet p price gap buf g s hg e =
        let atr_value = atr a buf.candles profile.atr_period in
        let r = references a profile p atr_value in
        let zone = zone_at a profile r price in
        let ctx = context_of a profile p price gap buf atr_value g in
        elim (Bool-cases (atr_value ≤f zero_float)) [
          | inl cold ↦ let bad = rw (managed, cold) at e in ground arith
          | inr warm ↦
              let same = IsTighter-IsRatchet p ctx in
              let group =
                λ (level : Float) (h : g ≡ some level). (same level refl refl).1 (hg level h) in
              let own =
                λ (level : Float) (h : propose a (updater_for a profile zone) ctx ≡ some level).
                  propose-IsTighter (updater_for a profile zone) ctx level (advances zone)
                    (positive atr_value warm) group h in
              (same s refl refl).0 (
                tighter_of-IsTighter ctx r.sign g (propose a (updater_for a profile zone) ctx) s
                  group own
                  (updated (new_stop_in a profile zone r.sign ctx) (rw (managed, warm) at e)))
        ]
      where
        updated : (m : Option Float) → decision_of m ≡ update_stop s → m ≡ some s
        updated none h = absurd (ground arith)
        updated (some x) h = ground arith

    -- A new stop is further into profit than the one that the position has, whichever the zone and
    -- its updater, provided that the group's level, if there is one, is so too and that the least
    -- advances are not negative.
    pub evaluate-IsRatchet :
        (p : ExitPosition) (bid : Float) (buf : EpicBuffer) (close_hour : Bool) (g : Option Float)
        (s : Float)
        → ((level : Float) → g ≡ some level → IsRatchet p level)
        → evaluate a profile p bid buf close_hour g ≡ update_stop s
        → IsRatchet p s
    unfolding evaluate
    evaluate-IsRatchet p bid buf true g s hg e = absurd (ground arith)
    evaluate-IsRatchet p bid buf false g s hg e = elim (Option-cases (last buf)) [
      | inl nothing ↦ let bad = rw (evaluate, nothing) at e in ground arith
      | inr (c, found) ↦
          let price = close_out_price a bid (spread a c) (sign_for a p.direction) in
          elim (Bool-cases (is_stopped a p price)) [
            | inl stopped ↦ let bad = rw (evaluate, found, stopped) at e in ground arith
            | inr open_still ↦
                managed-IsRatchet p price (spread a c) buf g s hg
                  (rw (evaluate, found, open_still) at e)
          ]
    ]
