-- ===== src/Exit/Trailing/Tests.antt =====
-- The close rules at concrete inputs, in whole numbers.
use igthon.Prelude.{ℕ, ◌≡◌, refl, true, List, [], ◌∷◌, arith}
use igthon.Prelude.Int.{pos, ◌≤ℤ◌, ◌-ℤ◌, ◌*ℤ◌}
use igthon.Num.{zero_float, ◌<f◌, neg, larger}
use igthon.Num.Whole.{whole, whole-Ieee}
use igthon.Exit.Trailing.{
  TrailingConfig, Tick, clamp_trailing_distance, floor_of, compute_trailing_stop,
  trailing_candidate, capped,
}
use igthon.Exit.Trailing.Ratchet.{clamp_trailing_distance_bounds, follow, follow_ratchets}

abbrev config : TrailingConfig
config = record { atr_k_pre = pos 2; atr_k_post = pos 2; trailing_step_ratio = pos 1 }

abbrev tick : ℕ → Tick
tick price = record {
  current_price = pos price;
  atr_value = pos 3;
  spread = pos 1;
  level_zero = pos 101;
  euro_per_point = pos 1;
  euro_stop = pos 20;
  noise_floor = pos 4;
}

-- The price rises, falls back, and rises again.
abbrev ticks : List Tick
ticks = tick 105 ∷ tick 102 ∷ tick 115 ∷ []

follow-ticks : follow whole config (pos 1) ticks (pos 90) ≡ pos 109
unfolding follow compute_trailing_stop trailing_candidate clamp_trailing_distance capped floor_of
    ◌-ℤ◌ ◌*ℤ◌
follow-ticks = refl

follow_ratchets_example :
    (pos 90 ≤ℤ follow whole config (pos 1) ticks (pos 90))
    × (follow whole config (neg (pos 1)) ticks (pos 90) ≤ℤ pos 90)
follow_ratchets_example = follow_ratchets whole whole-Ieee config (omega arith) ticks (pos 90)

clamp_trailing_distance_bounds_example :
    let d = clamp_trailing_distance whole (pos 6) (pos 1) (pos 1) (pos 20) (pos 4) in
    (zero_float ≤ℤ d)
    × (pos 4 ≤ℤ d)
    × (pos 1 *ℤ pos 2 ≤ℤ d)
    × ((zero_float <f pos 1) ≡ true
        → (zero_float <f pos 20) ≡ true
        → d ≤ℤ larger (pos 20) (floor_of whole (pos 1) (pos 4)))
clamp_trailing_distance_bounds_example =
    clamp_trailing_distance_bounds whole (pos 6) (pos 1) (pos 1) (pos 20) (pos 4)
