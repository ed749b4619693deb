-- ===== src/Guard/Loops.antt =====
-- The loops of `pre_request` and `wait_until_ready` (src/core/api_guard.py), as one task runs them.
use igthon.Prelude.{◌+◌, ◌≤◌, Option, none, some, List, [], ◌∷◌}
use igthon.Guard.{
  Guard, Now, Round, pre_request, wait_until_ready, granted, refused_minute, refused_blocked, sleep,
  failed,
}

-- The loops of `pre_request` and `wait_until_ready`, over the readings of the clocks at the start
-- of each round. `none`: the readings ended while the task slept, or a round failed.
unfoldable pub pre_request_loop : List Now → Guard → Option (Round × Guard)
pre_request_loop [] g = none
pre_request_loop (now ∷ later) g =
    let (r, g') = pre_request now g in
    let again = pre_request_loop later g' in
    elim r [
      | granted ↦ some (Round.granted, g')
      | refused_blocked ↦ some (Round.refused_blocked, g')
      | refused_minute ↦ some (Round.refused_minute, g')
      | sleep d ↦ again
      | failed ↦ none
    ]

unfoldable pub wait_until_ready_loop : List Now → Guard → Option Guard
wait_until_ready_loop [] g = none
wait_until_ready_loop (now ∷ later) g =
    let (r, g') = wait_until_ready now g in
    let again = wait_until_ready_loop later g' in
    elim r [ granted ↦ some g' | sleep d ↦ again | _ ↦ none ]

-- The second reading is taken after a sleep of at least the time that the round asks for.
abbrev pub Slept : Round → Now → Now → Type 0
Slept (Round.sleep d) now later = (now.mono + d ≤ later.mono) × (now.wall + d ≤ later.wall)
Slept _ now later = (now.mono ≤ later.mono) × (now.wall ≤ later.wall)
