-- ===== src/Guard/Limits.antt =====
-- The limits hold in every window of time, whatever the tasks do and in whatever order
-- (src/core/api_guard.py).
use igthon.Prelude.{
  ℕ, ◌+◌, ◌≤◌, ◌≡◌, refl, ◌&&◌, inl, inr, List, [], ◌∷◌, arith, length, length-append, leb,
  if◌then◌else◌,
}
use igthon.Guard.{
  init, Guard, Now, second, minute, prune_list, count_within, Round, acquire, release,
}
use igthon.Guard.{pre_request, wait_until_ready, stats, on_ig_error}
use igthon.Guard.Counts.{count_within-le-length, length-prune-le}
use igthon.Guard.Trace.{Act, Event, World, start, step, run, note, Chronological, PacedBy}
use igthon.Guard.Rounds.{
  Agrees, Agrees-later, Agrees-prune, Agrees-grant, Pruned, Claimed, Outcome, pre_request-Outcome,
  wait_until_ready-Pruned, stats-Pruned,
}

module _ (per_minute per_second concurrent : ℕ) where
  pub record IsValid (now : ℕ) (w : World) : Type 0 where
    pub minute_limit : w.guard.max_per_minute ≡ per_minute
    pub second_limit : w.guard.max_per_second ≡ per_second
    pub agrees : Agrees now w.granted w.guard.timestamps
    pub counted : w.guard.total_calls ≡ length w.granted
    pub room : length w.guard.timestamps ≤ per_minute
    pub minute_paced : PacedBy minute per_minute w.granted
    pub second_paced : PacedBy second per_second w.granted
    pub slots : w.guard.inflight + w.active ≡ concurrent

  IsValid-later : {now : ℕ} (later : ℕ) {w : World} → IsValid now w → now ≤ later → IsValid later w
  IsValid-later {now} later {w} v h = record {
    minute_limit = v.minute_limit;
    second_limit = v.second_limit;
    agrees = Agrees-later now later w.granted w.guard.timestamps v.agrees h;
    counted = v.counted;
    room = v.room;
    minute_paced = v.minute_paced;
    second_paced = v.second_paced;
    slots = v.slots;
  }

  Agrees-Pruned :
      {now : ℕ} (xs : List ℕ) (g g' : Guard)
      → Agrees now xs g.timestamps
      → Pruned now g g'
      → Agrees now xs g'.timestamps
  Agrees-Pruned {now} xs g g' h p = elim p.kept [
    | inl same ↦ rw same h
    | inr pruned ↦ rw pruned (Agrees-prune now xs g.timestamps h)
  ]

  Pruned-IsValid :
      {now : ℕ} (w : World) (g' : Guard)
      → IsValid now w
      → Pruned now w.guard g'
      → IsValid now (record w { guard = g' })
  Pruned-IsValid {now} w g' v p = record {
    minute_limit = omega (arith, p.limits.per_minute, v.minute_limit);
    second_limit = omega (arith, p.limits.per_second, v.second_limit);
    agrees = Agrees-Pruned w.granted w.guard g' v.agrees p;
    counted = omega (arith, p.calls, v.counted);
    room = ground (arith, length-prune-le now w.guard.timestamps, p.kept, v.room);
    minute_paced = v.minute_paced;
    second_paced = v.second_paced;
    slots = omega (arith, p.limits.slots, v.slots);
  }

  Claimed-IsValid :
      {now : ℕ} (w : World) (g' : Guard)
      → IsValid now w
      → Claimed now w.guard g'
      → IsValid now (record w { guard = g'; granted = now ∷ w.granted })
  unfolding count_within
  Claimed-IsValid {now} w g' v c = record {
    minute_limit = omega (arith, c.limits.per_minute, v.minute_limit);
    second_limit = omega (arith, c.limits.per_second, v.second_limit);
    agrees =
        rw c.kept (
          Agrees-grant now w.granted kept (Agrees-prune now w.granted w.guard.timestamps v.agrees));
    counted = omega (arith, c.calls, v.counted);
    room = rw c.kept (omega (arith, length-append kept (now ∷ []), c.minute_room, v.minute_limit));
    minute_paced = (grant_fits.0, v.minute_paced);
    second_paced = (grant_fits.1, v.second_paced);
    slots = omega (arith, c.limits.slots, v.slots);
  }
    where
      kept : List ℕ
      kept = prune_list now w.guard.timestamps

      grant_fits :
          (count_within minute now (now ∷ w.granted) ≤ per_minute)
          × (count_within second now (now ∷ w.granted) ≤ per_second)
      grant_fits =
          let same = Agrees-prune now w.granted w.guard.timestamps v.agrees in
          ground (
            arith,
            same.minutes now (omega arith),
            same.seconds now (omega arith),
            count_within-le-length minute now kept,
          )

  note-IsValid :
      (now : Now) (w : World) (r : Round × Guard)
      → IsValid now.mono w
      → Outcome now.mono w.guard r
      → IsValid now.mono (note now w r)
  unfolding note
  note-IsValid now w (Round.granted, g') v o = Claimed-IsValid w g' v o
  note-IsValid now w (_, g') v o = Pruned-IsValid w g' v o

  act-IsValid :
      (now : Now) (a : Act) (w : World)
      → IsValid now.mono w
      → IsValid now.mono (step (record { at = now; act = a }) w)
  unfolding step acquire release on_ig_error
  act-IsValid now Act.request w v =
      note-IsValid now w (pre_request now w.guard) v (pre_request-Outcome now w.guard)
  act-IsValid now Act.ready w v =
      Pruned-IsValid w (wait_until_ready now w.guard).1 v (wait_until_ready-Pruned now w.guard)
  act-IsValid now Act.look w v = Pruned-IsValid w (stats now w.guard).1 v (stats-Pruned now w.guard)
  act-IsValid now Act.enter w v = ground arith
  act-IsValid now Act.leave w v = ground arith
  act-IsValid now (Act.report code) w v = ground arith

  run-IsValid :
      (now : ℕ) (es : List Event) (w : World)
      → IsValid now w
      → Chronological now es
      → (later : ℕ) × IsValid later (run es w)
  unfolding run
  run-IsValid now [] w v c = (now, v)
  run-IsValid now (e ∷ es) w v c =
      run-IsValid e.at.mono es (step e w) (act-IsValid e.at e.act w (IsValid-later e.at.mono v c.0))
        c.1

-- The grants of the span of time from `a` to `b`, both included.
abbrev pub count_between : ℕ → ℕ → List ℕ → ℕ
count_between a b [] = 0
count_between a b (t ∷ ts) = (if leb a t && leb t b then 1 else 0) + count_between a b ts

count_between-le :
    (window a t : ℕ) (ts : List ℕ)
    → t ≤ a + window
    → count_between a (a + window) ts ≤ count_within window t ts
unfolding count_within
count_between-le window a t [] h = omega arith
count_between-le window a t (u ∷ ts) h = ground (arith, count_between-le window a t ts h)

PacedBy-count_between :
    (window limit a : ℕ) (ts : List ℕ)
    → PacedBy window limit ts
    → count_between a (a + window) ts ≤ limit
PacedBy-count_between window limit a [] h = omega arith
PacedBy-count_between window limit a (t ∷ ts) h =
    ground
      (arith, PacedBy-count_between window limit a ts h.1, count_between-le window a t (t ∷ ts))

start-IsValid : (n m k : ℕ) → IsValid n m k 0 (start n m k)
unfolding init
start-IsValid n m k = record {
  minute_limit = refl;
  second_limit = refl;
  agrees = record { minutes = λ t h. refl; seconds = λ t h. refl };
  counted = refl;
  room = omega arith;
  minute_paced = tt;
  second_paced = tt;
  slots = omega arith;
}

-- Whatever the tasks do to a new guard, and in whatever order, as long as the monotonic clock does
-- not go back: no span of sixty seconds holds more grants than the limit per minute, no span of
-- one second more than the limit per second, the tasks inside `guarded_request` are no more than
-- the semaphore has slots, and the guard's total is the number of grants.
pub run-limits :
    (n m k a : ℕ) (es : List Event)
    → Chronological 0 es
    → let w = run es (start n m k) in
      (count_between a (a + minute) w.granted ≤ n)
      × (count_between a (a + second) w.granted ≤ m)
      × (w.active ≤ k)
      × (w.guard.total_calls ≡ length w.granted)
run-limits n m k a es c =
    let (later, v) = run-IsValid n m k 0 es (start n m k) (start-IsValid n m k) c in
    let w = run es (start n m k) in
    (
      PacedBy-count_between minute n a w.granted v.minute_paced,
      PacedBy-count_between second m a w.granted v.second_paced,
      omega (arith, v.slots),
      v.counted,
    )
