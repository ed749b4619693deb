-- ===== src/Exit/Zones/Profit.antt =====
-- The updaters past the profit trigger (src/exit/zones/trailing_ratchet.py).
use igthon.Prelude.{
  ℕ, Bool, false, not, ◌&&◌, ◌||◌, Option, none, some, List, [], ◌∷◌, ltb, if◌then◌else◌,
}
use igthon.Prelude.Ring.{keep_last}
use igthon.Num.{Float, Arith, zero_float, ◌<f◌, ◌≤f◌, larger}
use igthon.Indicators.{largest}
use igthon.Exit.Trailing.{TrailingConfig, Tick, compute_trailing_stop}
use igthon.Exit.Zones.{
  StopContext, ◌>>=◌, ◌>>◌, hold_if, sign, beyond, offset, favourable, favourable_closes,
  adverse_noise, best_of, tighten_only,
}
use igthon.Exit.Zones.Lock.{BreakevenLockParams, breakeven_lock_level, default_lock}

pub record TrailingRatchetParams : Type 0 where
  pub atr_k_pre : Float
  pub atr_k_post : Float
  pub trailing_step_ratio : Float
  pub noise_window : ℕ
  pub noise_std_k : Float
  pub noise_mult : Float
  pub drop_guard_window : ℕ
  pub drop_guard_k : Float
  pub lock : BreakevenLockParams

pub record RatchetMoreParams : Type 0 where
  pub base : TrailingRatchetParams
  pub giveback_retention : Float
  pub giveback_arm_atr : Float
  pub atr_k_floor : Float
  pub atr_k_shrink_per_atr : Float

-- `closes[-3] < closes[-2] < closes[-1]`
unfoldable pub two_rises : List Float → Bool
two_rises (x ∷ y ∷ z ∷ []) = (x <f y) && (y <f z)
two_rises _ = false

unfoldable pub own_config : TrailingRatchetParams → TrailingConfig
own_config p = record {
  atr_k_pre = p.atr_k_pre;
  atr_k_post = p.atr_k_post;
  trailing_step_ratio = p.trailing_step_ratio;
}

module _ (a : Arith) where
  open a use {sub, mul, div, lit}

  abbrev pub default_ratchet : TrailingRatchetParams
  default_ratchet = record {
    atr_k_pre = lit 25 10;
    atr_k_post = lit 25 10;
    trailing_step_ratio = lit 3 10;
    noise_window = 20;
    noise_std_k = lit 2 1;
    noise_mult = lit 2 1;
    drop_guard_window = 5;
    drop_guard_k = lit 2 1;
    lock = default_lock a;
  }

  abbrev pub default_ratchetmore : RatchetMoreParams
  default_ratchetmore = record {
    base = default_ratchet;
    giveback_retention = lit 5 10;
    giveback_arm_atr = lit 1 1;
    atr_k_floor = lit 12 10;
    atr_k_shrink_per_atr = lit 25 100;
  }

  unfoldable pub last_two_ticks_favourable : StopContext → Bool
  unfolding favourable_closes two_rises keep_last
  last_two_ticks_favourable ctx = two_rises (keep_last 3 (favourable_closes a ctx))

  unfoldable pub sharp_reversal : TrailingRatchetParams → StopContext → Bool
  unfolding favourable favourable_closes keep_last
  sharp_reversal p ctx =
      if (ctx.atr_value ≤f zero_float) || ltb p.drop_guard_window 1
      then false
      else elim (largest (keep_last p.drop_guard_window (favourable_closes a ctx))) [
        | none ↦ false
        | some best ↦
            mul p.drop_guard_k ctx.atr_value ≤f sub best (favourable a ctx ctx.current_price)
      ]

  -- What the chandelier reads: the ceiling of the planned risk is off.
  unfoldable pub chandelier_tick : TrailingRatchetParams → StopContext → Tick
  unfolding adverse_noise
  chandelier_tick p ctx = record {
    current_price = ctx.current_price;
    atr_value = ctx.atr_value;
    spread = ctx.spread;
    level_zero = ctx.level_zero;
    euro_per_point = ctx.euro_per_point;
    euro_stop = zero_float;
    noise_floor = mul p.noise_mult (adverse_noise a ctx p.noise_window p.noise_std_k);
  }

  unfoldable pub chandelier : TrailingRatchetParams → TrailingConfig → StopContext → Option Float
  unfolding sign beyond last_two_ticks_favourable chandelier_tick compute_trailing_stop
  chandelier p config ctx = do
    hold_if (not (last_two_ticks_favourable ctx))
    new_stop ←
        compute_trailing_stop a config (sign a ctx) (chandelier_tick p ctx) ctx.level_follower
    hold_if (not (beyond a ctx new_stop ctx.level_margin))
    some new_stop

  -- `propose` with the configuration that its class hands to the chandelier.
  unfoldable pub ratchet_with : TrailingRatchetParams → TrailingConfig → StopContext → Option Float
  unfolding sharp_reversal breakeven_lock_level chandelier best_of tighten_only
  ratchet_with p config ctx = do
    hold_if (sharp_reversal p ctx)
    target ← best_of a ctx (chandelier p config ctx) (breakeven_lock_level a ctx p.lock)
    tighten_only a ctx target

  unfoldable pub trailing_ratchet : TrailingRatchetParams → StopContext → Option Float
  unfolding own_config ratchet_with
  trailing_ratchet p ctx = ratchet_with p (own_config p) ctx

  unfoldable pub peak_gain : StopContext → Float
  unfolding favourable favourable_closes
  peak_gain ctx = elim (largest (favourable_closes a ctx)) [
    | none ↦ zero_float
    | some peak ↦ larger zero_float (sub peak (favourable a ctx ctx.level_zero))
  ]

  unfoldable pub armed : RatchetMoreParams → StopContext → Float
  unfolding peak_gain
  armed p ctx =
      if ctx.atr_value ≤f zero_float
      then zero_float
      else if mul p.giveback_arm_atr ctx.atr_value ≤f peak_gain ctx
      then peak_gain ctx
      else zero_float

  unfoldable pub narrowed_k : RatchetMoreParams → StopContext → Float
  unfolding armed
  narrowed_k p ctx = larger p.atr_k_floor (
      sub p.base.atr_k_post
        (mul p.atr_k_shrink_per_atr (sub (div (armed p ctx) ctx.atr_value) p.giveback_arm_atr)))

  unfoldable pub trailing_config : RatchetMoreParams → StopContext → TrailingConfig
  unfolding armed narrowed_k own_config
  trailing_config p ctx =
      if (armed p ctx ≤f zero_float) || (p.atr_k_shrink_per_atr ≤f zero_float)
      then own_config p.base
      else record {
        atr_k_pre = narrowed_k p ctx;
        atr_k_post = narrowed_k p ctx;
        trailing_step_ratio = p.base.trailing_step_ratio;
      }

  unfoldable pub giveback_level : RatchetMoreParams → StopContext → Option Float
  unfolding beyond offset armed
  giveback_level p ctx = do
    hold_if (p.giveback_retention ≤f zero_float)
    let peak = armed p ctx
    hold_if (peak ≤f zero_float)
    let level = offset a ctx ctx.level_zero (mul p.giveback_retention peak)
    hold_if (not (beyond a ctx ctx.current_price level))
    hold_if (not (beyond a ctx level ctx.level_margin))
    some level

  unfoldable pub trailing_ratchetmore : RatchetMoreParams → StopContext → Option Float
  unfolding ratchet_with trailing_config giveback_level best_of tighten_only
  trailing_ratchetmore p ctx = do
    target ← best_of a ctx (ratchet_with p.base (trailing_config p ctx) ctx) (giveback_level p ctx)
    tighten_only a ctx target
