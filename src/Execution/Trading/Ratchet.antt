-- ===== src/Execution/Trading/Ratchet.antt =====
-- A tick never loosens the stop of a position (src/execution/trading.py).
use igthon.Prelude.{
  ◌≡◌, refl, ◌⊎◌, inl, inr, String, true, false, not, ◌&&◌, Option, none, some, str_eq, Bool-cases,
  Option-cases, arith,
}
use igthon.Prelude.Int.{◌≤ℤ◌}
use igthon.Num.{Float, Arith, Rounding, zero_float, ◌<f◌}
use igthon.Exit.Close.{or_zero}
use igthon.Execution.Trading.{TradedPosition}
use igthon.Execution.Trading.Stops.{
  StopAnswers, Listing, nonempty, listed_deal, ensure_deal_id, push_stop_to_ig,
  is_favourable_stop_move, append_stop_history, broker_target, loosens_broker, is_pinned,
  desired_broker_stop, with_follower, pushed_stop, ratchet_to, ratchet_stop,
}

-- A level that did not move against its side: there was none, or it went up for a long position, or
-- down for a short one.
abbrev pub IsTightened : String → Float → Float → Type 0
IsTightened direction old new =
    (old ≤ℤ zero_float)
    ⊎ ((str_eq direction "SELL" ≡ false) × (old ≤ℤ new))
    ⊎ ((str_eq direction "SELL" ≡ true) × (new ≤ℤ old))

abbrev pub IsGuarded : TradedPosition → TradedPosition → Type 0
IsGuarded p q =
    IsTightened p.direction (or_zero p.level_follower) (or_zero q.level_follower)
    × IsTightened p.direction (or_zero p.level_stop) (or_zero q.level_stop)

-- The stops of a position did not change.
abbrev pub IsSameStops : TradedPosition → TradedPosition → Type 0
IsSameStops p q = (q.level_follower ≡ p.level_follower) × (q.level_stop ≡ p.level_stop)

pub ensure_deal_id-IsSameStops :
    (listing : Option Listing) (p : TradedPosition) → IsSameStops p (ensure_deal_id listing p).0
unfolding ensure_deal_id
ensure_deal_id-IsSameStops listing p = elim (Option-cases (nonempty p.deal_id)) [
  | inr (d, e) ↦ rw (ensure_deal_id, e) (refl, refl)
  | inl e ↦ elim (Option-cases (listed_deal p.epic listing)) [
    | inl f ↦ rw (ensure_deal_id, e, f) (refl, refl)
    | inr (d, f) ↦ rw (ensure_deal_id, e, f) (refl, refl)
  ]
]

push-IsSameStops :
    (answers : StopAnswers) (p : TradedPosition) → IsSameStops p (push_stop_to_ig answers p).0
unfolding push_stop_to_ig
push-IsSameStops answers p = elim (Option-cases (ensure_deal_id answers.listing p).1) [
  | inl e ↦ rw (push_stop_to_ig, e) (ensure_deal_id-IsSameStops answers.listing p)
  | inr (d, e) ↦ rw (push_stop_to_ig, e) (ensure_deal_id-IsSameStops answers.listing p)
]

module _ (a : Arith) where
  abbrev IsRoundedLevel : Option Float → Type 0
  IsRoundedLevel o = (x : Float) → o ≡ some x → a.round5 x ≡ x

  -- The stops have five decimals, as their columns do.
  abbrev pub IsRounded : TradedPosition → Type 0
  IsRounded p = IsRoundedLevel p.level_follower × IsRoundedLevel p.level_stop

  -- After a ratchet the follower is the new stop, and the broker's level stays or is the target.
  abbrev IsMoved : Float → Float → TradedPosition → TradedPosition → Type 0
  IsMoved new_stop target p q =
      (q.level_follower ≡ some (a.round5 new_stop))
      × ((q.level_stop ≡ p.level_stop) ⊎ (q.level_stop ≡ some (a.round5 target)))

  pushed_stop-IsMoved :
      (answers : StopAnswers) (target new_stop : Float) (p : TradedPosition)
      → IsMoved new_stop target p
          (pushed_stop a answers target new_stop (with_follower a p new_stop)).0
  unfolding pushed_stop append_stop_history with_follower
  pushed_stop-IsMoved answers target new_stop p =
      let (follower, stop) = push-IsSameStops answers (with_follower a p new_stop) in
      elim (Bool-cases (push_stop_to_ig answers (with_follower a p new_stop)).1) [
        | inl pushed ↦ rw (pushed_stop, append_stop_history, pushed) (follower, inr refl)
        | inr refused ↦ rw (pushed_stop, append_stop_history, refused) (follower, inl stop)
      ]

  ratchet_to-IsMoved :
      (answers : StopAnswers) (target new_stop : Float) (p : TradedPosition)
      → IsMoved new_stop target p (ratchet_to a answers target new_stop p).0
  unfolding ratchet_to append_stop_history with_follower
  ratchet_to-IsMoved answers target new_stop p = elim (Bool-cases (is_pinned a p target)) [
    | inl pinned ↦ rw (ratchet_to, append_stop_history, with_follower, pinned) (refl, inl refl)
    | inr free ↦ rw (ratchet_to, free) (pushed_stop-IsMoved answers target new_stop p)
  ]

  pub same-IsTightened : (direction : String) (x : Float) → IsTightened direction x x
  same-IsTightened direction x = elim (Bool-cases (str_eq direction "SELL")) [
    | inl short ↦ inr (inr (short, omega arith))
    | inr long ↦ inr (inl (long, omega arith))
  ]

  module _ (rounding : Rounding a) where
    rounded-IsTightened :
        (direction : String) (old : Option Float) (new : Float)
        → IsRoundedLevel old
        → ((zero_float <f or_zero old) && not (is_favourable_stop_move direction new (or_zero old)))
          ≡ false
        → IsTightened direction (or_zero old) (a.round5 new)
    unfolding is_favourable_stop_move
    rounded-IsTightened direction none new r h = inl (omega arith)
    rounded-IsTightened direction (some old) new r h =
        let same = r old refl in
        let up = rounding.round5_mono old new in
        let down = rounding.round5_mono new old in
        elim (Bool-cases (str_eq direction "SELL")) [
          | inl short ↦ ground (arith, short, same, down)
          | inr long ↦ ground (arith, long, same, up)
        ]

    -- The broker's target tightens the broker's level.
    target-IsTightened :
        (p : TradedPosition) (desired : Float)
        → IsRoundedLevel p.level_stop
        → IsTightened p.direction (or_zero p.level_stop) (a.round5 (broker_target a p desired))
    unfolding broker_target loosens_broker
    target-IsTightened p desired r = elim (Bool-cases (loosens_broker a p desired)) [
      | inl keeps ↦ rw (broker_target, keeps) (rested p.level_stop r)
      | inr free ↦
          rw (broker_target, free) (rounded-IsTightened p.direction p.level_stop desired r free)
    ]
      where
        rested :
            (o : Option Float)
            → IsRoundedLevel o
            → IsTightened p.direction (or_zero o) (a.round5 (or_zero o))
        rested none r = inl (omega arith)
        rested (some x) r = rw (r x refl) (same-IsTightened p.direction x)

    -- A ratchet to a better stop tightens both stops, whatever the broker answers.
    pub ratchet_stop-IsGuarded :
        (answers : StopAnswers) (p : TradedPosition) (new_stop price gap buffer : Float)
        → IsRounded p
        → ((zero_float <f or_zero p.level_follower)
            && not (is_favourable_stop_move p.direction new_stop (or_zero p.level_follower)))
          ≡ false
        → let q = (ratchet_stop a answers p new_stop price gap buffer).0 in
          IsGuarded p q × IsRounded q
    unfolding ratchet_stop
    ratchet_stop-IsGuarded answers p new_stop price gap buffer (rf, rs) h =
        let desired = desired_broker_stop a p new_stop price gap buffer in
        let target = broker_target a p desired in
        let (follower, stop) = ratchet_to-IsMoved answers target new_stop p in
        let tight = target-IsTightened p desired rs in
        elim stop [
          | inl same ↦ (
            (
              rw follower (rounded-IsTightened p.direction p.level_follower new_stop rf h),
              rw same (same-IsTightened p.direction (or_zero p.level_stop)),
            ),
            (rw follower (rounded_level new_stop), rw same rs),
          )
          | inr new ↦ (
            (
              rw follower (rounded-IsTightened p.direction p.level_follower new_stop rf h),
              rw new tight,
            ),
            (rw follower (rounded_level new_stop), rw new (rounded_level target)),
          )
        ]
      where
        rounded_level : (x : Float) → IsRoundedLevel (some (a.round5 x))
        rounded_level x y e = let idem = rounding.round5_idem x in ground (arith, idem)
