-- ===== src/Exit/Close/Book.antt =====
-- The group's plan and the tick of each position agree (src/exit/close_zoneprofit.py and
-- src/exit/zones/smartgroup.py).
use mathlib.Core.Path.{subst}
use igthon.Prelude.{
  Option-cases, ◌≡◌, inl, inr, Bool, true, some, List, [], ◌∷◌, ◌++◌, Bool-cases, str_eq, arith,
  All, sym,
}
use igthon.Prelude.Int.{◌≤ℤ◌}
use igthon.Num.{Float, Arith, Ieee, zero_float}
use igthon.Feed.Candle.{Candle}
use igthon.Feed.Buffer.{EpicBuffer, last}
use igthon.Exit.Zones.{StopZone, sign_for}
use igthon.Exit.Zones.Order.{ahead_long, ahead_short}
use igthon.Exit.Zones.Group.{
  GroupMember, SmartGroupParams, plan_get, tightens, explain_group_tightening,
  plan_group_tightening,
}
use igthon.Exit.Zones.Group.Book.{
  Distinct, explain_group_tightening_guarantees, explain_group_tightening-holds,
}
use igthon.Exit.Updaters.{smart_group_stop}
use igthon.Exit.Close.{
  ExitPosition, CloseZoneProfit, update_stop, or_zero, updater_for, evaluate, group_member,
  member_with, plan_group,
}
use igthon.Exit.Close.Decision.{IsRatchet, min_advance_of, evaluate-IsRatchet}

All-at {ℓ κ} : {A : Type ℓ} (P : A → Type κ) (xs ys : List A) (x : A) → All P (xs ++ x ∷ ys) → P x
All-at P [] ys x h = h.0
All-at P (y ∷ xs) ys x h = All-at P xs ys x h.1

module _ (a : Arith) (laws : Ieee a) where
  -- A legal move of the member that stands for a position is a ratchet of the position's stop.
  tightens-IsRatchet :
      (params : SmartGroupParams) (p : ExitPosition) (bid : Float) (buf : EpicBuffer) (c : Candle)
      (level : Float)
      → tightens a (member_with a params p bid buf c) level ≡ true
      → IsRatchet p level
  unfolding tightens member_with sign_for
  tightens-IsRatchet params p bid buf c level h = elim (Bool-cases (str_eq p.direction "SELL")) [
    | inl short ↦
        let further =
          rw
            (
              tightens,
              member_with,
              sign_for,
              short,
              ahead_short a laws level (or_zero p.level_follower),
            )
            at h in
        ground (arith, further, short)
    | inr long ↦
        let further =
          rw
            (
              tightens,
              member_with,
              sign_for,
              long,
              ahead_long a laws level (or_zero p.level_follower),
            )
            at h in
        ground (arith, further, long)
  ]

  plan_entry-legal :
      (params : SmartGroupParams) (before after : List GroupMember) (m : GroupMember)
      (level : Float)
      → Distinct (before ++ m ∷ after)
      → plan_get m.position_id (plan_group_tightening a params (before ++ m ∷ after)) ≡ some level
      → tightens a m level ≡ true
  unfolding plan_group_tightening plan_get
  plan_entry-legal params before after m level d h =
      let book = before ++ m ∷ after in
      elim (Bool-cases (explain_group_tightening a params book).armed) [
        | inl armed ↦
            let (_, _, legal) = explain_group_tightening_guarantees a params book d armed in
            (All-at _ before after m legal level h).1
        | inr red ↦
            let bad =
              rw (plan_group_tightening, explain_group_tightening-holds a params book red) at h in
            ground arith
      ]

  -- A member stands for its position, at the candle that was last.
  group_member-member :
      (profile : CloseZoneProfit) (params : SmartGroupParams) (p : ExitPosition) (bid : Float)
      (buf : EpicBuffer) (m : GroupMember)
      → profile.underwater ≡ smart_group_stop params
      → group_member a profile p bid (some buf) ≡ some m
      → (c : Candle) × (member_with a params p bid buf c ≡ m)
  unfolding group_member
  group_member-member profile params p bid buf m aware h = elim (Option-cases (last buf)) [
    | inl nothing ↦ let bad = rw (group_member, aware, nothing) at h in ground arith
    | inr (c, found) ↦ let same = rw (group_member, aware, found) at h in (c, ground (arith, same))
  ]

  -- If the profile is group-aware and a position is in a book of different ids, then the tick that
  -- applies the plan of that book to the position never loosens its stop.
  pub plan_group-IsRatchet :
      (profile : CloseZoneProfit) (params : SmartGroupParams)
      → ((z : StopZone) → zero_float ≤ℤ min_advance_of (updater_for a profile z))
      → profile.underwater ≡ smart_group_stop params
      → (before after : List GroupMember) (m : GroupMember) → Distinct (before ++ m ∷ after)
      → (p : ExitPosition) (bid : Float) (buf : EpicBuffer) (close_hour : Bool) (s : Float)
      → group_member a profile p bid (some buf) ≡ some m
      → evaluate a profile p bid buf close_hour
          (plan_get p.id (plan_group a profile (before ++ m ∷ after)))
        ≡ update_stop s
      → IsRatchet p s
  unfolding group_member plan_group plan_group_tightening
  plan_group-IsRatchet profile params advances aware before after m d p bid buf close_hour s is_m
        e =
      let (c, same) = group_member-member profile params p bid buf m aware is_m in
      evaluate-IsRatchet a laws profile advances p bid buf close_hour
        (plan_get p.id (plan_group a profile (before ++ m ∷ after))) s
        (λ level h. tightens-IsRatchet params p bid buf c level (
          subst (λ (n : GroupMember). tightens a n level ≡ true) (sym same)
            (plan_entry-legal params before after m level d (
              subst
                (λ (n : GroupMember).
                  plan_get n.position_id (plan_group_tightening a params (before ++ m ∷ after))
                  ≡ some level)
                same (rw (plan_group, aware) at h)))))
        e
