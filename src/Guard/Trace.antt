-- ===== src/Guard/Trace.antt =====
-- The guard under any interleaving of its callers: every task of the program runs rounds of
-- `pre_request` and `wait_until_ready`, reads `stats`, reports errors, and enters or leaves the
-- semaphore of `guarded_request` (src/core/api_guard.py). `granted` and `active` record what the
-- rounds have let through.
use igthon.Prelude.{ℕ, zero, suc, ◌+◌, ◌≤◌, List, [], ◌∷◌, none, some, String}
use igthon.Guard.{
  Guard, Now, init, count_within, Round, pre_request, wait_until_ready, on_ig_error, acquire,
  release, stats,
}

pub data Act : Type 0 where
  request ready look enter leave : Act
  report : String → Act

pub record Event : Type 0 where
  pub at : Now
  pub act : Act

pub record World : Type 0 where
  pub guard : Guard
  pub granted : List ℕ
  pub active : ℕ

abbrev pub start : ℕ → ℕ → ℕ → World
start n m k = record { guard = init n m k; granted = []; active = 0 }

unfoldable pub note : Now → World → Round × Guard → World
note now w (Round.granted, g) = record w { guard = g; granted = now.mono ∷ w.granted }
note now w (_, g) = record w { guard = g }

unfoldable pub step : Event → World → World
unfolding note
step e w = elim e.act [
  | request ↦ note e.at w (pre_request e.at w.guard)
  | ready ↦ record w { guard = (wait_until_ready e.at w.guard).1 }
  | look ↦ record w { guard = (stats e.at w.guard).1 }
  | enter ↦ elim (acquire w.guard) [
    | none ↦ w
    | some g ↦ record w { guard = g; active = w.active + 1 }
  ]
  | leave ↦ elim w.active [ zero ↦ w | suc n ↦ record w { guard = release w.guard; active = n } ]
  | report code ↦ record w { guard = on_ig_error e.at.wall code w.guard }
]

unfoldable pub run : List Event → World → World
run [] w = w
run (e ∷ es) w = run es (step e w)

-- The monotonic clock never goes back.
abbrev pub Chronological : ℕ → List Event → Type 0
Chronological now [] = Unit
Chronological now (e ∷ es) = (now ≤ e.at.mono) × Chronological e.at.mono es

-- No grant, counted with those of the window before it, passes the limit. Newest first.
abbrev pub PacedBy : ℕ → ℕ → List ℕ → Type 0
PacedBy window limit [] = Unit
PacedBy window limit (t ∷ ts) = (count_within window t (t ∷ ts) ≤ limit) × PacedBy window limit ts
