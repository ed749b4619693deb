-- ===== src/Indicators/Tests.antt =====
-- The indicators at concrete prices, in whole numbers.
use igthon.Prelude.{◌≡◌, refl, List, [], ◌∷◌}
use igthon.Prelude.Int.{pos, ◌-ℤ◌, ◌*ℤ◌, ◌+ℤ◌}
use igthon.Prelude.Ring.{keep_last}
use igthon.Num.{Float}
use igthon.Num.Whole.{whole}
use igthon.Indicators.{adverse_tick_noise, down_moves, noise_of, mean_of}

abbrev closes : List Float
closes = pos 100 ∷ pos 97 ∷ pos 99 ∷ []

adverse_tick_noise-closes : adverse_tick_noise whole closes 20 (pos 2) ≡ pos 21
unfolding adverse_tick_noise down_moves noise_of mean_of keep_last ◌-ℤ◌ ◌+ℤ◌ ◌*ℤ◌
adverse_tick_noise-closes = refl
