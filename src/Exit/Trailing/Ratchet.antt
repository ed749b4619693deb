-- ===== src/Exit/Trailing/Ratchet.antt =====
-- The trailing stop only moves towards profit, and keeps its distance (src/exit/trailing.py).
use igthon.Prelude.{
  ◌≡◌, Bool, true, false, none, some, List, [], ◌∷◌, ◌↔◌, ◌⊎◌, inl, inr, arith, Option-cases,
}
use igthon.Prelude.Int.{◌≤ℤ◌}
use igthon.Num.{Float, Arith, Ieee, zero_float, ◌<f◌, larger, smaller, neg}
use igthon.Exit.Trailing.{
  TrailingConfig, Tick, decide_close_reason, clamp_trailing_distance, floor_of, capped,
  compute_trailing_stop,
}

-- A position stays open exactly outside the close hour, below its win level and above its loose
-- level, where it has them.
decide_close_reason-none :
    (bid win loose : Float) (close_hour : Bool)
    → (decide_close_reason bid win loose close_hour ≡ none) ↔ (
        (close_hour ≡ false)
        × ((win ≤ℤ zero_float) ⊎ ((bid <f win) ≡ true))
        × ((loose ≤ℤ zero_float) ⊎ ((loose <f bid) ≡ true)))
unfolding decide_close_reason
decide_close_reason-none bid win loose close_hour = ground arith

le-over : (x y d : Float) → x ≤ℤ y → x ≤ℤ larger d y
le-over x y d h = ground arith

larger-smaller : (x c y : Float) → larger (smaller x c) y ≤ℤ larger c y
larger-smaller x c y = ground arith

module _ (a : Arith) where
  floor_bounds :
      (spread noise : Float)
      → let d = floor_of a spread noise in
        (zero_float ≤ℤ d) × (noise ≤ℤ d) × (a.mul spread (a.lit 2 1) ≤ℤ d)
  unfolding floor_of
  floor_bounds spread noise = (ground arith, ground arith, ground arith)

  -- The distance is not negative, no less than the noise floor and two spreads, and no more than the
  -- planned risk where that is known and the floor allows it.
  pub clamp_trailing_distance_bounds :
      (raw spread euro_per_point euro_stop noise : Float)
      → let d = clamp_trailing_distance a raw spread euro_per_point euro_stop noise in
        (zero_float ≤ℤ d)
        × (noise ≤ℤ d)
        × (a.mul spread (a.lit 2 1) ≤ℤ d)
        × ((zero_float <f euro_per_point) ≡ true
            → (zero_float <f euro_stop) ≡ true
            → d ≤ℤ larger (a.div euro_stop euro_per_point) (floor_of a spread noise))
  unfolding clamp_trailing_distance capped
  clamp_trailing_distance_bounds raw spread euro_per_point euro_stop noise =
      let (not_negative, noisy, wide) = floor_bounds spread noise in
      (
        le-over zero_float (floor_of a spread noise) (capped a raw euro_per_point euro_stop)
            not_negative,
        le-over noise (floor_of a spread noise) (capped a raw euro_per_point euro_stop) noisy,
        le-over (a.mul spread (a.lit 2 1)) (floor_of a spread noise)
            (capped a raw euro_per_point euro_stop) wide,
        λ known planned.
            rw (known, planned)
              (larger-smaller raw (a.div euro_stop euro_per_point) (floor_of a spread noise)),
      )

  -- The stop of a position whose owner takes each new stop, tick by tick.
  unfoldable pub follow : TrailingConfig → Float → List Tick → Float → Float
  unfolding compute_trailing_stop
  follow config sign [] follower = follower
  follow config sign (t ∷ ts) follower =
      follow config sign ts
        (elim (compute_trailing_stop a config sign t follower) [ none ↦ follower | some s ↦ s ])

  module _ (laws : Ieee a) (config : TrailingConfig)
      (ratio : zero_float ≤ℤ config.trailing_step_ratio) where
    -- A new stop is better than the old one by more than nothing.
    pub gains :
        (sign : Float) (t : Tick) (follower new_stop : Float)
        → compute_trailing_stop a config sign t follower ≡ some new_stop
        → (zero_float <f a.mul sign (a.sub new_stop follower)) ≡ true
    unfolding compute_trailing_stop
    gains sign t follower new_stop h =
        let step : zero_float <f t.atr_value ≡ true
            → zero_float ≤ℤ a.mul config.trailing_step_ratio t.atr_value =
          λ positive. laws.mul_nonneg config.trailing_step_ratio t.atr_value ratio (ground arith) in
        ground (arith, step)

    rises :
        (t : Tick) (follower new_stop : Float)
        → compute_trailing_stop a config (a.lit 1 1) t follower ≡ some new_stop
        → follower ≤ℤ new_stop
    rises t follower new_stop h =
        let up =
          rw (laws.mul_one (a.sub new_stop follower), laws.sub_sign new_stop follower) at
            (gains (a.lit 1 1) t follower new_stop h) in
        ground arith

    falls :
        (t : Tick) (follower new_stop : Float)
        → compute_trailing_stop a config (neg (a.lit 1 1)) t follower ≡ some new_stop
        → new_stop ≤ℤ follower
    falls t follower new_stop h =
        let down =
          rw (laws.mul_minus_one (a.sub new_stop follower)) at
            (gains (neg (a.lit 1 1)) t follower new_stop h) in
        let order = laws.sub_sign new_stop follower in ground (arith, down, order)

    -- Whatever the ticks, the stop of a long position never goes down and that of a short one never
    -- goes up, if the step ratio is not negative.
    pub follow_ratchets :
        (ts : List Tick) (follower : Float)
        → (follower ≤ℤ follow config (a.lit 1 1) ts follower)
          × (follow config (neg (a.lit 1 1)) ts follower ≤ℤ follower)
    unfolding follow
    follow_ratchets ts follower = (up ts follower, down ts follower)
      where
        up : (ts : List Tick) (follower : Float) → follower ≤ℤ follow config (a.lit 1 1) ts follower
        up [] follower = omega arith
        up (t ∷ ts) follower =
            elim (Option-cases (compute_trailing_stop a config (a.lit 1 1) t follower)) [
              | inl same ↦ rw same (up ts follower)
              | inr (s, moved) ↦ rw moved (omega (arith, rises t follower s moved, up ts s))
            ]

        down :
            (ts : List Tick) (follower : Float)
            → follow config (neg (a.lit 1 1)) ts follower ≤ℤ follower
        down [] follower = omega arith
        down (t ∷ ts) follower =
            elim (Option-cases (compute_trailing_stop a config (neg (a.lit 1 1)) t follower)) [
              | inl same ↦ rw same (down ts follower)
              | inr (s, moved) ↦ rw moved (omega (arith, falls t follower s moved, down ts s))
            ]
