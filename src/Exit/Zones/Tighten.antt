-- ===== src/Exit/Zones/Tighten.antt =====
-- No updater loosens a stop (src/exit/zones).
use igthon.Prelude.{◌≡◌, inl, inr, false, Option, none, some, Bool-cases, arith}
use igthon.Prelude.Int.{◌≤ℤ◌}
use igthon.Num.{Float, Arith, zero_float, ◌≤f◌}
use igthon.Exit.Trailing.{TrailingConfig}
use igthon.Exit.Zones.{StopContext, ◌>>=◌, sign, beyond, loosens, tighten_only}
use igthon.Exit.Zones.Lock.{BreakevenLockParams}
use igthon.Exit.Zones.Underwater.{TrendCutParams, TimedLiftParams, trendcut, timedlift}
use igthon.Exit.Zones.Band.{
  BreakevenSafeParams, LimitLooseParams, breakeven_lock, breakeven_safe, limitloose, breakeven_half,
}
use igthon.Exit.Zones.Profit.{
  TrailingRatchetParams, RatchetMoreParams, own_config, sharp_reversal, trailing_ratchet,
  ratchet_with, trailing_ratchetmore,
}

module _ (a : Arith) (ctx : StopContext) where
  -- A stop is allowed if the position has none yet, or if it is further into profit.
  abbrev pub IsTighter : Float → Type 0
  IsTighter s = loosens a ctx s ≡ false

  tighten_only-IsTighter :
      (target : Float) {s : Float} → tighten_only a ctx target ≡ some s → IsTighter s
  unfolding tighten_only
  tighten_only-IsTighter target e = ground arith

  pub trendcut-IsTighter :
      (p : TrendCutParams) {s : Float} → trendcut a p ctx ≡ some s → IsTighter s
  unfolding trendcut loosens
  trendcut-IsTighter p e = ground arith

  further-IsTighter :
      (s least : Float)
      → zero_float ≤ℤ least
      → (a.mul (sign a ctx) (a.sub s ctx.level_follower) ≤f least) ≡ false
      → IsTighter s
  unfolding loosens beyond
  further-IsTighter s least h e = ground arith

  pub timedlift-IsTighter :
      (p : TimedLiftParams) {s : Float}
      → zero_float ≤ℤ a.mul p.min_advance_atr_k ctx.atr_value
      → timedlift a p ctx ≡ some s
      → IsTighter s
  unfolding timedlift
  timedlift-IsTighter p {s} advance e =
      further-IsTighter s (a.mul p.min_advance_atr_k ctx.atr_value) advance (ground arith)

  pub breakeven_lock-IsTighter :
      (p : BreakevenLockParams) {s : Float} → breakeven_lock a p ctx ≡ some s → IsTighter s
  unfolding breakeven_lock tighten_only
  breakeven_lock-IsTighter p e = ground arith

  pub breakeven_safe-IsTighter :
      (p : BreakevenSafeParams) {s : Float} → breakeven_safe a p ctx ≡ some s → IsTighter s
  unfolding breakeven_safe tighten_only
  breakeven_safe-IsTighter p e = ground arith

  pub limitloose-IsTighter :
      (p : LimitLooseParams) {s : Float} → limitloose a p ctx ≡ some s → IsTighter s
  unfolding limitloose tighten_only
  limitloose-IsTighter p e = ground arith

  pub breakeven_half-IsTighter :
      (fraction : Float) {s : Float} → breakeven_half a fraction ctx ≡ some s → IsTighter s
  unfolding breakeven_half tighten_only
  breakeven_half-IsTighter fraction e = ground arith

  -- The last step of both updaters of the profit zone.
  best_then_tighten :
      (m : Option Float) {s : Float}
      → (m >>= λ (target : Float). tighten_only a ctx target) ≡ some s
      → IsTighter s
  best_then_tighten none e = absurd (ground arith)
  best_then_tighten (some target) e = tighten_only-IsTighter target e

  ratchet_with-IsTighter :
      (p : TrailingRatchetParams) (config : TrailingConfig) {s : Float}
      → ratchet_with a p config ctx ≡ some s
      → IsTighter s
  unfolding ratchet_with
  ratchet_with-IsTighter p config e = elim (Bool-cases (sharp_reversal a p ctx)) [
    | inl falling ↦ let bad = rw (ratchet_with, falling) at e in ground arith
    | inr calm ↦ best_then_tighten _ (rw (ratchet_with, calm) at e)
  ]

  pub trailing_ratchet-IsTighter :
      (p : TrailingRatchetParams) {s : Float} → trailing_ratchet a p ctx ≡ some s → IsTighter s
  unfolding trailing_ratchet
  trailing_ratchet-IsTighter p e = ratchet_with-IsTighter p (own_config p) e

  pub trailing_ratchetmore-IsTighter :
      (p : RatchetMoreParams) {s : Float} → trailing_ratchetmore a p ctx ≡ some s → IsTighter s
  unfolding trailing_ratchetmore
  trailing_ratchetmore-IsTighter p e = best_then_tighten _ e
