-- ===== src/Execution/Gates/Revert.antt =====
-- When a closed position is reverted (src/execution/gates.py).
use igthon.Prelude.{
  ◌≡◌, refl, ◌↔◌, ◌⊎◌, inl, inr, true, false, some, List, [], ◌∷◌, ◌++◌, arith, Bool-cases,
}
use igthon.Prelude.Int.{◌≤ℤ◌}
use igthon.Num.{Float, Arith, Ieee, zero_float, ◌<f◌, neg}
use igthon.Execution.Gates.{
  Position, StopEntry, point, other, Closing, revert, is_text, closed_on_stop, seeded_level,
  original_stop_level, recovery_revert_reason_open, should_revert_after_stop_loss, is_short_of,
  sign_of,
}

seeded_level-append :
    (entries later : List StopEntry) (level : Float)
    → seeded_level entries ≡ some level
    → seeded_level (entries ++ later) ≡ some level
unfolding seeded_level
seeded_level-append [] later level h = cc
seeded_level-append (other ∷ es) later level h = cc
seeded_level-append (point x y ∷ es) later level h = h

-- Whatever the stop does after the opening, the level of the first entry that was recorded stays
-- the original one.
original_stop_level-appended :
    (p : Position) (level : Float) (later : List StopEntry)
    → seeded_level p.stop_history ≡ some level
    → original_stop_level (record p { stop_history = p.stop_history ++ later }) ≡ level
unfolding original_stop_level
original_stop_level-appended p level later h =
    rw (original_stop_level, seeded_level-append p.stop_history later level h) refl

-- The close level reached the stop: it is not above it for a long position, not below it for a
-- short one.
abbrev pub Reached : Closing → Type 0
Reached c =
    ((is_text c.direction "SELL" ≡ false) × (c.level_close ≤ℤ c.original_stop))
    ⊎ ((is_text c.direction "SELL" ≡ true) × (c.original_stop ≤ℤ c.level_close))

module _ (a : Arith) (laws : Ieee a) where
  short_side : (x y : Float) → (zero_float <f a.mul (neg (a.lit 1 1)) (a.sub x y)) ≡ (x <f y)
  short_side x y = rw (laws.mul_minus_one (a.sub x y)) (ground (arith, laws.sub_sign_below x y))

  long_side : (x y : Float) → (zero_float <f a.mul (a.lit 1 1) (a.sub x y)) ≡ (y <f x)
  long_side x y = rw (laws.mul_one (a.sub x y)) (laws.sub_sign x y)

  is_short_of-Reached :
      (c : Closing)
      → (is_short_of a c ≡ false) ↔ (((zero_float <f c.level_close) ≡ true) × Reached c)
  unfolding is_short_of sign_of
  is_short_of-Reached c = elim (Bool-cases (is_text c.direction "SELL")) [
    | inl short ↦ rw (short, short_side c.level_close c.original_stop) (ground arith)
    | inr long ↦ rw (long, long_side c.level_close c.original_stop) (ground arith)
  ]

  -- A closed position is reverted exactly if it was no revert itself, was closed on a stop, at a
  -- loss, its original stop is known, and that stop never moved or the close level reached it.
  pub should_revert-exact :
      (c : Closing)
      → (should_revert_after_stop_loss a c ≡ revert) ↔ (
          (is_text c.reason_open recovery_revert_reason_open ≡ false)
          × (closed_on_stop c.reason_close ≡ true)
          × ((c.euro <f zero_float) ≡ true)
          × ((zero_float <f c.original_stop) ≡ true)
          × ((c.stop_ratcheted ≡ false) ⊎ (((zero_float <f c.level_close) ≡ true) × Reached c)))
  unfolding should_revert_after_stop_loss
  should_revert-exact c = ground (arith, is_short_of-Reached c)
