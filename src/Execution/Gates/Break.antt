-- ===== src/Execution/Gates/Break.antt =====
-- What an accepted curve shows (src/execution/gates.py).
use igthon.Prelude.{
  ◌<◌, ◌≡◌, ◌≢◌, refl, ◌⊎◌, inl, inr, true, false, none, some, List, [], ◌∷◌, map, length, arith,
  Bool-cases, Option-cases, List-cases, All,
}
use igthon.Prelude.Int.{◌≤ℤ◌}
use igthon.Num.{Float, Arith, Ieee, zero_float, ◌<f◌, ◌≤f◌, neg}
use igthon.Indicators.{largest}
use igthon.Execution.Gates.{is_text, sign_of}
use igthon.Execution.Gates.Curve.{
  Thresholds, Curve, value_error, supports, adverse_steps, favourable_moves, efficiency_of, bar_of,
  risk_of, penetration_of, shape_verdict, curve_supports_revert,
}

-- Some item of a list of floats is no less than a bound.
abbrev pub Reaches : Float → List Float → Type 0
Reaches b [] = true ≡ false
Reaches b (x ∷ xs) = ((x <f b) ≡ false) ⊎ Reaches b xs

-- No item is more than a bound.
abbrev pub Within : Float → List Float → Type 0
Within b = All (λ x. (b <f x) ≡ false)

largest-Reaches :
    (b y : Float) (xs : List Float) → largest xs ≡ some y → (y <f b) ≡ false → Reaches b xs
largest-Reaches b y [] h k = cc
largest-Reaches b y (x ∷ xs) h k = elim (Option-cases (largest xs)) [
  | inl alone ↦ inl (ground (arith, alone))
  | inr (z, rest) ↦ elim (Bool-cases (x <f b)) [
    | inr first ↦ inl first
    | inl below ↦ inr (largest-Reaches b z xs rest (ground (arith, rest, below)))
  ]
]

largest_exists : (x : Float) (xs : List Float) → largest (x ∷ xs) ≢ none
largest_exists x xs = ground arith

nothing-Within : (b : Float) (xs : List Float) → largest xs ≡ none → Within b xs
nothing-Within b [] h = tt
nothing-Within b (x ∷ xs) h = absurd (largest_exists x xs h)

neg-neg : (x : Float) → neg (neg x) ≡ x
neg-neg x = ground arith

largest-Within :
    (b y : Float) (xs : List Float) → largest xs ≡ some y → (b <f y) ≡ false → Within b xs
largest-Within b y [] h k = tt
largest-Within b y (x ∷ xs) h k = elim (Option-cases (largest xs)) [
  | inl alone ↦ (ground (arith, alone), nothing-Within b xs alone)
  | inr (z, rest) ↦ (ground (arith, rest), largest-Within b z xs rest (ground (arith, rest)))
]

module _ (a : Arith) where
  -- The curve shows the shape of a break: a candle against the trade, a path that is straight enough
  -- and no run in favour.
  abbrev pub IsBreak : Thresholds → Curve → Type 0
  IsBreak t c =
      Reaches (a.mul t.min_impulse_ratio (risk_of a c))
        (adverse_steps a (sign_of a c.direction) (c.level_open ∷ c.prices))
      × ((efficiency_of a c <f bar_of a t c) ≡ false)
      × Within (a.mul t.max_favourable_ratio (risk_of a c)) (favourable_moves a c)

  -- Or it is over before it has a shape.
  abbrev pub IsFast : Thresholds → Curve → Type 0
  IsFast t c =
      (length c.prices < t.min_curve_candles)
      × ((c.minutes_held ≤f a.lit t.min_curve_candles 1) ≡ true)

  -- The price is at the stop or beyond it, on the losing side.
  abbrev pub IsBeyond : Curve → Type 0
  IsBeyond c =
      ((is_text c.direction "SELL" ≡ false) × (c.current_price ≤ℤ c.original_stop))
      ⊎ ((is_text c.direction "SELL" ≡ true) × (c.original_stop ≤ℤ c.current_price))

  shape_verdict-IsBreak :
      (t : Thresholds) (c : Curve) → supports (shape_verdict a t c) ≡ true → IsBreak t c
  unfolding shape_verdict
  shape_verdict-IsBreak t c h =
      elim (Option-cases
        (largest (adverse_steps a (sign_of a c.direction) (c.level_open ∷ c.prices)))) [
          | inl no_step ↦ let bad = rw (shape_verdict, no_step) at h in ground arith
          | inr (impulse, steps) ↦ elim (Option-cases (largest (favourable_moves a c))) [
            | inl no_move ↦ let bad = rw (shape_verdict, steps, no_move) at h in ground arith
            | inr (favourable, moves) ↦
                let passed = rw (shape_verdict, steps, moves) at h in
                (
                  largest-Reaches (a.mul t.min_impulse_ratio (risk_of a c)) impulse _ steps
                      (ground (arith, passed)),
                  ground (arith, passed),
                  largest-Within (a.mul t.max_favourable_ratio (risk_of a c)) favourable _ moves
                      (ground (arith, passed)),
                )
          ]
        ]

  penetration_of-IsBeyond : Ieee a → (c : Curve) → zero_float ≤ℤ penetration_of a c → IsBeyond c
  unfolding penetration_of sign_of
  penetration_of-IsBeyond laws c h = elim (Bool-cases (is_text c.direction "SELL")) [
    | inl short ↦
        let back =
          rw
            (
              penetration_of,
              sign_of,
              short,
              neg-neg (a.lit 1 1),
              laws.mul_one (a.sub c.current_price c.original_stop),
            )
            at h in
        inr (short, ground (arith, back, laws.sub_sign_below c.current_price c.original_stop))
    | inr long ↦
        let back =
          rw
            (
              penetration_of,
              sign_of,
              long,
              laws.mul_minus_one (a.sub c.current_price c.original_stop),
            )
            at h in
        inl (long, ground (arith, back, laws.sub_sign c.current_price c.original_stop))
  ]

  -- If a curve supports a revert, its risk is known, the price is at the stop or beyond it, and it
  -- has the shape of a break or is too short to have one, provided that the break ratio is not
  -- negative.
  pub curve_supports_revert_sound :
      Ieee a
      → (t : Thresholds) (c : Curve) → zero_float ≤ℤ t.min_break_ratio
      → supports (curve_supports_revert a t c) ≡ true
      → ((zero_float <f risk_of a c) ≡ true) × IsBeyond c × (IsFast t c ⊎ IsBreak t c)
  unfolding curve_supports_revert
  curve_supports_revert_sound laws t c ratio h =
      let least = laws.mul_nonneg t.min_break_ratio (risk_of a c) ratio in
      let beyond = penetration_of-IsBeyond laws c in
      let shape = shape_verdict-IsBreak t c in
      (ground (arith, h), beyond (ground (arith, h, least)), ground (arith, h, shape))

  steps_exist :
      (c : Curve) (p : Float) (ps : List Float)
      → c.prices ≡ p ∷ ps
      → largest (adverse_steps a (sign_of a c.direction) (c.level_open ∷ c.prices)) ≢ none
  unfolding adverse_steps
  steps_exist c p ps e =
      rw (e, adverse_steps)
        (largest_exists (a.mul (neg (sign_of a c.direction)) (a.sub p c.level_open))
          (adverse_steps a (sign_of a c.direction) (p ∷ ps)))

  moves_exist :
      (c : Curve) (p : Float) (ps : List Float)
      → c.prices ≡ p ∷ ps
      → largest (favourable_moves a c) ≢ none
  unfolding favourable_moves
  moves_exist c p ps e =
      rw (favourable_moves, e)
        (largest_exists (a.mul (sign_of a c.direction) (a.sub p c.level_open))
          (map (λ (x : Float). a.mul (sign_of a c.direction) (a.sub x c.level_open)) ps))

  shape_verdict-answers :
      (t : Thresholds) (c : Curve) (p : Float) (ps : List Float)
      → c.prices ≡ p ∷ ps
      → shape_verdict a t c ≢ value_error
  unfolding shape_verdict
  shape_verdict-answers t c p ps e bad =
      elim (Option-cases
        (largest (adverse_steps a (sign_of a c.direction) (c.level_open ∷ c.prices)))) [
          | inl no_step ↦ absurd (steps_exist c p ps e no_step)
          | inr (impulse, steps) ↦ elim (Option-cases (largest (favourable_moves a c))) [
            | inl no_move ↦ absurd (moves_exist c p ps e no_move)
            | inr (favourable, moves) ↦
                let no_error = rw (shape_verdict, steps, moves) at bad in ground arith
          ]
        ]

  -- With at least one candle asked for, the gate answers for every curve: no maximum of an empty
  -- list is taken.
  curve_supports_revert-answers :
      (t : Thresholds) (c : Curve)
      → 0 < t.min_curve_candles
      → curve_supports_revert a t c ≢ value_error
  unfolding curve_supports_revert
  curve_supports_revert-answers t c some_asked = elim (List-cases c.prices) [
    | inl none_yet ↦ let few : length c.prices ≡ 0 = rw none_yet refl in ground (arith, few)
    | inr (p, ps, e) ↦ ground (arith, shape_verdict-answers t c p ps e)
  ]
