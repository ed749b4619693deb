-- ===== src/Guard/Tests.antt =====
-- Runs of the guard, and the theorems at concrete inputs.
use igthon.Prelude.{ℕ, ◌+◌, ◌*◌, ◌≤◌, ◌<◌, ◌≡◌, refl, ◌↔◌, some, List, [], ◌∷◌, arith, length}
use igthon.Guard.{
  Guard, Now, Round, acquire, release, init, second, minute, on_ig_error, pre_request,
  wait_until_ready, blocked_until, cooldown, refused_blocked,
}
use igthon.Guard.Trace.{Act, Event, World, start, step, run}
use igthon.Guard.Limits.{count_between, run-limits}
use igthon.Guard.Block.{pre_request-on_ig_error, run_blocked}
use igthon.Guard.Loops.{pre_request_loop, wait_until_ready_loop}
use igthon.Guard.Waiting.{wait_until_ready_loop-returns}
use igthon.Guard.Pacing.{pre_request_loop-returns}

abbrev moment : ℕ → Now
moment t = record { mono = t; wall = t }

abbrev event : ℕ → Act → Event
event t a = record { at = moment t; act = a }

-- Two calls a minute, one a second, one inside: the third is refused, and passes later.
abbrev busy : List Event
busy =
    event 10 Act.request
    ∷ event 20 Act.enter
    ∷ event 500 Act.request
    ∷ event 2000 Act.request
    ∷ event 2500 Act.enter
    ∷ event 30000 Act.request
    ∷ event 40000 Act.leave
    ∷ event 61000 Act.request
    ∷ []

run-busy : (run busy (start 2 1 1)).granted ≡ 61000 ∷ 2000 ∷ 10 ∷ []
unfolding run step init pre_request acquire release
run-busy = refl

run-limits_example :
    let w = run busy (start 2 1 1) in
    (count_between 0 (0 + minute) w.granted ≤ 2)
    × (count_between 0 (0 + second) w.granted ≤ 1)
    × (w.active ≤ 1)
    × (w.guard.total_calls ≡ length w.granted)
run-limits_example = run-limits 2 1 1 0 busy (omega arith)

abbrev fresh : Guard
fresh = init 2 1 1

pre_request-on_ig_error_example :
    ((pre_request (moment 7) (on_ig_error 5 "access.denied.reason.ip.blocked" fresh)).0
      ≡ refused_blocked)
    ↔ (7 < 5 + second * cooldown "access.denied.reason.ip.blocked")
pre_request-on_ig_error_example =
    pre_request-on_ig_error 5 "access.denied.reason.ip.blocked" fresh refl (moment 7)

abbrev blocked_world : World
blocked_world = record (start 2 1 1) { guard = on_ig_error 5 "error.request.too.frequent" fresh }

abbrev quiet : List Event
quiet =
    event 9 Act.request
    ∷ event 10 (Act.report "error.other")
    ∷ event 11 Act.ready
    ∷ event 12 Act.request
    ∷ []

run_blocked_example :
    ((run quiet blocked_world).granted ≡ [])
    × (blocked_until (run quiet blocked_world).guard ≡ some 120005)
unfolding on_ig_error blocked_until cooldown
run_blocked_example =
    run_blocked 120005 quiet blocked_world
      ((omega arith, refl), ((omega arith, refl), ((omega arith, refl), ((omega arith, refl), tt))))
      refl

abbrev used : Guard
used = record fresh { timestamps = 10 ∷ 20 ∷ [] }

pre_request_loop-returns_example :
    (r : Round × Guard) × (pre_request_loop
        (moment 20 ∷ moment 5000 ∷ [])
        (record fresh { timestamps = 20 ∷ [] })
      ≡ some r)
unfolding pre_request init
pre_request_loop-returns_example =
    pre_request_loop-returns (moment 20) (moment 5000) (record fresh { timestamps = 20 ∷ [] })
      (omega arith) (omega arith) (omega arith)

wait_until_ready_loop-returns_example :
    (g' : Guard) × (wait_until_ready_loop (moment 30 ∷ moment 60020 ∷ moment 60200 ∷ []) used
      ≡ some g')
unfolding wait_until_ready init blocked_until
wait_until_ready_loop-returns_example =
    wait_until_ready_loop-returns (moment 30) (moment 60020) (moment 60200) used (omega arith)
      (omega arith) (λ h. refl) (omega arith) (omega arith)
