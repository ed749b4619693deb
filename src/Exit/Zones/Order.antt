-- ===== src/Exit/Zones/Order.antt =====
-- The zones are bands of the price axis, in the order of profit (src/exit/zones/base.py).
use igthon.Prelude.{ℕ, ◌≤◌, ◌≡◌, ◌↔◌, true, arith}
use igthon.Prelude.Int.{◌≤ℤ◌}
use igthon.Num.{Float, Arith, Ieee, zero_float, ◌<f◌, neg}
use igthon.Exit.Zones.{StopZone, underwater, breakeven_band, secure, profit, classify_zone}

abbrev pub rank : StopZone → ℕ
rank underwater = 0
rank breakeven_band = 1
rank secure = 2
rank profit = 3

module _ (a : Arith) (laws : Ieee a) where
  -- With the sign of a side, the signed distance compares the prices.
  pub ahead_long : (x y : Float) → (zero_float <f a.mul (a.lit 1 1) (a.sub x y)) ≡ (y <f x)
  ahead_long x y = rw (laws.mul_one (a.sub x y)) (laws.sub_sign x y)

  pub ahead_short : (x y : Float) → (zero_float <f a.mul (neg (a.lit 1 1)) (a.sub x y)) ≡ (x <f y)
  ahead_short x y = rw (laws.mul_minus_one (a.sub x y)) (ground (arith, laws.sub_sign_below x y))

  -- The zone of a long position does not fall when the price rises, and that of a short one does not
  -- fall when the price falls, wherever the three references are.
  pub classify_zone_monotone :
      (p q level_zero level_margin level_profit : Float)
      → p ≤ℤ q
      → let long_zone =
          λ (x : Float). classify_zone a x level_zero level_margin level_profit (a.lit 1 1) in
        let short_zone =
          λ (x : Float). classify_zone a x level_zero level_margin level_profit (neg (a.lit 1 1)) in
        (rank (long_zone p) ≤ rank (long_zone q)) × (rank (short_zone q) ≤ rank (short_zone p))
  unfolding classify_zone
  classify_zone_monotone p q zero_level margin trigger h = (
    rw
        (
          classify_zone,
          ahead_long p zero_level,
          ahead_long p margin,
          ahead_long p trigger,
          ahead_long q zero_level,
          ahead_long q margin,
          ahead_long q trigger,
        )
        (ground arith),
    rw
        (
          classify_zone,
          ahead_short p zero_level,
          ahead_short p margin,
          ahead_short p trigger,
          ahead_short q zero_level,
          ahead_short q margin,
          ahead_short q trigger,
        )
        (ground arith),
  )

  -- With the references in order, a long position's zone says between which of them the price is;
  -- a price on a reference belongs to the zone below it.
  classify_zone_bands :
      (p level_zero level_margin level_profit : Float)
      → level_zero ≤ℤ level_margin
      → level_margin ≤ℤ level_profit
      → let zone = classify_zone a p level_zero level_margin level_profit (a.lit 1 1) in
        ((zone ≡ underwater) ↔ (p ≤ℤ level_zero))
        × ((zone ≡ breakeven_band) ↔ (((level_zero <f p) ≡ true) × (p ≤ℤ level_margin)))
        × ((zone ≡ secure) ↔ (((level_margin <f p) ≡ true) × (p ≤ℤ level_profit)))
        × ((zone ≡ profit) ↔ ((level_profit <f p) ≡ true))
  unfolding classify_zone
  classify_zone_bands p zero_level margin trigger h k =
      rw (classify_zone, ahead_long p zero_level, ahead_long p margin, ahead_long p trigger)
        (ground arith, ground arith, ground arith, ground arith)
