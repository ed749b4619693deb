-- ===== src/Scheduler/Missed.antt =====
-- Which runs are replayed (src/core/scheduler.py).
use igthon.Prelude.{
  ◌≡◌, ◌↔◌, inl, inr, refl, ℕ, zero, suc, ◌+◌, ◌-◌, ◌≤◌, ◌<◌, Bool, true, false, ◌&&◌, String,
  Option, none, some, Bool-cases, arith, leb, leb→le, le_or_lt,
}
use igthon.Prelude.Dicts.{lookup}
use igthon.Scheduler.{JobEntry, Bot}
use igthon.Scheduler.CatchUp.{
  Trigger, lookback_window, walk_fires, last_scheduled_fire, is_due, is_missed, is_active, last_run,
}

-- A moment comes after the latest fire, or not before the start where there is none yet.
abbrev pub IsBeyond : ℕ → Option ℕ → ℕ → Type 0
IsBeyond start none g = start ≤ g
IsBeyond start (some l) g = l < g

and_parts : (p q r : Bool) → p && q && r ≡ true → (p ≡ true) × (q ≡ true) × (r ≡ true)
and_parts p q r h = (ground (arith, h), ground (arith, h), ground (arith, h))

-- The last run, if there was one, is before a fire.
abbrev pub IsSince : Option ℕ → ℕ → Type 0
IsSince none f = Unit
IsSince (some m) f = m < f

module _ (is_fire : ℕ → Bool) where
  -- The answer is the first fire of those.
  abbrev pub IsNext : (ℕ → Type 0) → Option ℕ → Type 0
  IsNext Beyond none = (g : ℕ) → is_fire g ≡ true → Beyond g → true ≡ false
  IsNext Beyond (some f) =
      (is_fire f ≡ true) × Beyond f × ((g : ℕ) → is_fire g ≡ true → Beyond g → f ≤ g)

  -- A trigger as the library documents it: it answers the first fire that is not before the moment,
  -- or the first one after the previous fire.
  pub record IsTrigger (next : Trigger) : Type 0 where
    pub first : (start : ℕ) → IsNext (IsBeyond start none) (next none start)
    pub later : (start l : ℕ) → IsNext (IsBeyond start (some l)) (next (some l) l)

  module _ (start now : ℕ) where
    -- The latest fire from the start to the moment.
    abbrev pub IsLatest : Option ℕ → Type 0
    IsLatest none = (g : ℕ) → is_fire g ≡ true → start ≤ g → now < g
    IsLatest (some l) =
        (is_fire l ≡ true)
        × (start ≤ l)
        × (l ≤ now)
        × ((g : ℕ) → is_fire g ≡ true → g ≤ now → g ≤ l)

    abbrev IsReached : Option ℕ → Type 0
    IsReached none = Unit
    IsReached (some l) = (is_fire l ≡ true) × (start ≤ l) × (l ≤ now)

    abbrev IsEnough : Option ℕ → ℕ → Type 0
    IsEnough none fuel = now - start + 2 ≤ fuel
    IsEnough (some l) fuel = now - l + 1 ≤ fuel

    -- The loop stops with the latest one.
    walk_fires-stops :
        (latest fire : Option ℕ)
        → IsReached latest
        → IsNext (IsBeyond start latest) fire
        → ((f : ℕ) → fire ≡ some f → now < f)
        → IsLatest latest
    walk_fires-stops none none r h beyond = λ g at from. absurd (ground (arith, h g at from))
    walk_fires-stops none (some f) r h beyond =
        λ g at from. omega (arith, h.2 g at from, beyond f refl)
    walk_fires-stops (some l) none r h beyond = (
      r.0,
      r.1,
      r.2,
      λ g at up. elim (le_or_lt g l) [ inl le ↦ le | inr lt ↦ absurd (ground (arith, h g at lt)) ],
    )
    walk_fires-stops (some l) (some f) r h beyond = (
      r.0,
      r.1,
      r.2,
      λ g at up. elim (le_or_lt g l) [
        | inl le ↦ le
        | inr lt ↦ absurd (omega (arith, h.2 g at lt, beyond f refl, up))
      ],
    )

    from_start :
        (latest : Option ℕ) (f : ℕ) → IsReached latest → IsBeyond start latest f → start ≤ f
    from_start none f r h = h
    from_start (some l) f r h = omega (arith, r.1, h)

    less_fuel :
        (latest : Option ℕ) (f fuel : ℕ)
        → IsReached latest
        → IsBeyond start latest f
        → f ≤ now
        → IsEnough latest (suc fuel)
        → now - f + 1 ≤ fuel
    less_fuel none f fuel r h le e = omega (arith, h, le, e)
    less_fuel (some l) f fuel r h le e = omega (arith, h, le, e)

    walk_fires-IsLatest :
        (next : Trigger)
        → IsTrigger next
        → (fuel : ℕ) (fire latest : Option ℕ) → IsReached latest
        → IsNext (IsBeyond start latest) fire
        → IsEnough latest fuel
        → IsLatest (walk_fires next now fuel fire latest)
    unfolding walk_fires
    walk_fires-IsLatest next t zero fire none r h e = absurd (omega (arith, e))
    walk_fires-IsLatest next t zero fire (some l) r h e = absurd (omega (arith, e))
    walk_fires-IsLatest next t (suc fuel) none latest r h e =
        walk_fires-stops latest none r h (λ f same. ground (arith, same))
    walk_fires-IsLatest next t (suc fuel) (some f) latest r h e = elim (Bool-cases (leb f now)) [
      | inl due ↦
          let le : f ≤ now = leb→le f now due in
          rw (walk_fires, due)
            (walk_fires-IsLatest next t fuel (next (some f) f) (some f)
              (h.0, from_start latest f r h.1, le) (t.later start f)
              (less_fuel latest f fuel r h.1 le e))
      | inr later ↦
          rw (walk_fires, later)
            (walk_fires-stops latest (some f) r h (λ g same. ground (arith, later, same)))
    ]

  -- The last scheduled fire is the latest one of the last eight days, and there is none exactly if
  -- the trigger had no fire in them.
  last_scheduled_fire-IsLatest :
      (next : Trigger) (now : ℕ)
      → IsTrigger next
      → IsLatest (now - lookback_window) now (last_scheduled_fire next now)
  unfolding last_scheduled_fire
  last_scheduled_fire-IsLatest next now t =
      walk_fires-IsLatest (now - lookback_window) now next t (lookback_window + 2)
        (next none (now - lookback_window)) none tt (t.first (now - lookback_window)) (omega arith)

  missed_by :
      (start now : ℕ) (scheduled moment : Option ℕ)
      → IsLatest start now scheduled
      → (is_missed scheduled moment ≡ true)
        ↔ ((f : ℕ) × (is_fire f ≡ true) × (start ≤ f) × (f ≤ now) × IsSince moment f)
  missed_by start now none moment h =
      (λ e. absurd (ground (arith, e)), λ x. absurd (omega (arith, h x.0 x.1 x.2, x.3)))
  missed_by start now (some l) none h = (λ _. (l, h.0, h.1, h.2, tt), λ _. refl)
  missed_by start now (some l) (some m) h =
      (λ e. (l, h.0, h.1, h.2, ground (arith, e)), λ x. ground (arith, h.3 x.0 x.1 x.3, x.4))

  -- With a trigger as the library documents it, a job is replayed exactly if it is one of those that
  -- catch up, it is automatic, and its trigger had a fire in the last eight days, now included, that
  -- is later than the last run that was recorded, if one was.
  pub is_due-missed :
      (triggers : String → Trigger) (now : ℕ) (b : Bot) (e : JobEntry)
      → IsTrigger (triggers e.job_id)
      → (is_due triggers now b e ≡ true) ↔ (
          (e.catch_up ≡ true)
          × (is_active (lookup e.job_id b.scheduler.jobs) ≡ true)
          × ((f : ℕ) × (is_fire f ≡ true)
              × (now - lookback_window ≤ f)
              × (f ≤ now)
              × IsSince (last_run (lookup e.action b.preferences)) f))
  unfolding is_due
  is_due-missed triggers now b e t =
      let moment = last_run (lookup e.action b.preferences) in
      let scheduled = last_scheduled_fire (triggers e.job_id) now in
      let (to, from) =
        missed_by (now - lookback_window) now scheduled moment
          (last_scheduled_fire-IsLatest (triggers e.job_id) now t) in
      (
        λ h.
            let parts =
              and_parts e.catch_up (is_active (lookup e.job_id b.scheduler.jobs))
                (is_missed scheduled moment) h in
            (parts.0, parts.1, to parts.2),
        λ h. rw (h.0, h.1, from h.2) refl,
      )
