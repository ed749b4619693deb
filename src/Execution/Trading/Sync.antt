-- ===== src/Execution/Trading/Sync.antt =====
-- The positions of the database and those that are open at the broker (src/execution/trading.py). The
-- broker's answers are given to the operation, its entries as they are parsed.
pub mod Loop
pub mod Bound
pub mod Tracked
pub mod Complete
pub mod Closed
mod Tests
use igthon.Prelude.{
  ℕ, suc, ◌+◌, ◌*◌, String, Bool, true, false, not, ◌&&◌, ◌||◌, Option, none, some, List, [], ◌∷◌,
  ◌++◌, str_eq, contains, ltb, if◌then◌else◌,
}
use igthon.Prelude.Dicts.{Dict, lookup, insert}
use igthon.Num.{Float, Arith, zero_float, ◌<f◌, ◌≤f◌, neg, abs, larger, smaller}
use igthon.Indicators.{same_float}
use igthon.Execution.Gates.{point}
use igthon.Exit.Close.{or_zero}
use igthon.Execution.Trading.{TradedPosition}
use igthon.Execution.Trading.Stops.{nonempty}
use igthon.Execution.Trading.Closing.{euro_pnl, value_or}

abbrev pub reconcile_grace_milliseconds : ℕ
reconcile_grace_milliseconds = 60000

-- An entry of the broker's list. A level that is missing is zero, a missing size is one, and
-- `quantity` is the size without its fraction.
pub record LiveEntry : Type 0 where
  pub epic : Option String
  pub deal_id : Option String
  pub deal_reference : Option String
  pub direction : Option String
  pub level : Float
  pub stop_level : Float
  pub limit_level : Float
  pub size : Float
  pub quantity : ℕ
  pub contract_size : Float
  pub bid : Option Float
  pub offer : Option Float
  pub created : Option (ℕ × ℕ)

-- What the instrument says of the value of a point.
pub record PointValue : Type 0 where
  pub contract_size : Float
  pub lot_size : Float
  pub rate : Float

-- The answer to the request of one position: it is there, an error 404, or another error.
pub data Probe : Type 0 where
  present not_found unclear : Probe

-- The answers during a synchronization: the list, a row as it is read again (none if it is gone), the
-- request of one position, and the instruments. The date and the time are those of the clock.
pub record SyncAnswers : Type 0 where
  pub listing : Option (List LiveEntry)
  pub refresh : ℕ → Option TradedPosition
  pub probe : String → Probe
  pub market : String → Option PointValue
  pub today : ℕ
  pub time : ℕ

unfoldable pub live_by_deal : List LiveEntry → Dict LiveEntry → Dict LiveEntry
unfolding nonempty insert
live_by_deal [] index = index
live_by_deal (e ∷ es) index =
    live_by_deal es (elim (nonempty e.deal_id) [ none ↦ index | some deal ↦ insert deal e index ])

unfoldable pub live_by_ref : List LiveEntry → Dict LiveEntry → Dict LiveEntry
unfolding nonempty insert
live_by_ref [] index = index
live_by_ref (e ∷ es) index =
    live_by_ref es (elim (nonempty e.deal_reference) [
      | none ↦ index
      | some reference ↦ insert reference e index
    ])

-- The entry, if it has a deal that no row has taken.
unfoldable pub if_free : List String → Option LiveEntry → Option LiveEntry
unfolding nonempty
if_free claimed none = none
if_free claimed (some e) = elim (nonempty e.deal_id) [
  | none ↦ none
  | some deal ↦ if contains claimed deal then none else some e
]

unfoldable pub find_in : Dict LiveEntry → Option String → Option LiveEntry
unfolding nonempty lookup
find_in index key = elim (nonempty key) [ none ↦ none | some k ↦ lookup k index ]

abbrev pub is_of_epic : String → Option String → Bool
is_of_epic epic none = false
is_of_epic epic (some e) = not (str_eq e "") && str_eq e epic

abbrev pub or_entry : Option LiveEntry → Option LiveEntry → Option LiveEntry
or_entry none other = other
or_entry (some e) other = some e

-- `opened_at + seconds` is later than now; a row without a date is not fresh.
unfoldable pub opened_within : SyncAnswers → TradedPosition → Bool
opened_within answers p = elim p.date [
  | none ↦ false
  | some day ↦ elim p.time_open [
    | none ↦ false
    | some moment ↦
        ltb (answers.today * 86400000 + answers.time)
          (day * 86400000 + moment + reconcile_grace_milliseconds)
  ]
]

abbrev pub is_not_found : Probe → Bool
is_not_found present = false
is_not_found not_found = true
is_not_found unclear = false

unfoldable pub ig_position_gone : SyncAnswers → TradedPosition → Bool
unfolding nonempty
ig_position_gone answers p = elim (nonempty p.deal_id) [
  | none ↦ false
  | some deal ↦ is_not_found (answers.probe deal)
]

abbrev pub same_deal : Option String → String → Bool
same_deal none deal = false
same_deal (some d) deal = str_eq d deal

unfoldable pub known_deal_ids : List TradedPosition → List String
known_deal_ids [] = []
known_deal_ids (p ∷ ps) =
    let rest = known_deal_ids ps in elim p.deal_id [ none ↦ rest | some deal ↦ deal ∷ rest ]

unfoldable pub mark_never_opened : TradedPosition → TradedPosition
mark_never_opened p = record p {
  is_open = false;
  reason_close = some "never_opened";
  euro = some zero_float;
  win = some 0;
  level_close = elim p.level_close [ none ↦ p.level_open | some level ↦ some level ];
}

module _ (a : Arith) where
  open a use {add, sub, mul, div, lit, round5, round3}

  -- The closest entry of an epic that is free, with its distance.
  unfoldable pub closest :
      List String
      → TradedPosition
      → List LiveEntry
      → Option (LiveEntry × Float)
      → Option (LiveEntry × Float)
  unfolding if_free
  closest claimed p [] best = best
  closest claimed p (e ∷ es) best =
      let dist = abs (sub e.level (or_zero p.level_open)) in
      let better : Bool = elim best [ none ↦ true | some (c, d) ↦ dist <f d ] in
      closest claimed p es (elim (if_free claimed (some e)) [
        | none ↦ best
        | some f ↦ if is_of_epic p.epic e.epic && better then some (f, dist) else best
      ])

  abbrev pub entry_of : Option (LiveEntry × Float) → Option LiveEntry
  entry_of none = none
  entry_of (some (e, d)) = some e

  -- The entry that a row takes: by its deal, by its reference, or the closest one of its epic.
  unfoldable pub bind : List LiveEntry → List String → TradedPosition → Option LiveEntry
  unfolding live_by_deal live_by_ref find_in if_free closest
  bind entries claimed p =
      or_entry (if_free claimed (find_in (live_by_deal entries []) p.deal_id)) (
        or_entry (if_free claimed (find_in (live_by_ref entries []) p.deal_reference))
          (entry_of (closest claimed p entries none)))

  abbrev pub is_tiny : Float → Bool
  is_tiny delta = abs delta <f lit 1 1000000000

  -- The margin, where there is one.
  unfoldable pub shifted_margin : Option Float → Float → Option Float
  shifted_margin none delta = none
  shifted_margin (some margin) delta =
      if zero_float <f margin then some (round5 (add margin delta)) else some margin

  unfoldable pub reanchor_exit_references : TradedPosition → Float → Float → TradedPosition
  unfolding shifted_margin
  reanchor_exit_references p expected actual =
      let delta = sub actual expected in
      elim p.level_zero [
        | none ↦ p
        | some zero_level ↦
            if same_float expected zero_float || same_float actual zero_float || is_tiny delta
            then p
            else record p {
              level_zero = some (round5 (add zero_level delta));
              level_margin = shifted_margin p.level_margin delta;
            }
      ]

  unfoldable pub bind_real_open_level : TradedPosition → LiveEntry → TradedPosition
  unfolding reanchor_exit_references
  bind_real_open_level p e =
      let bid = or_zero p.level_open in
      let expected = if str_eq p.direction "SELL" then bid else add bid (or_zero p.pip_spread) in
      if same_float e.level zero_float
      then p
      else reanchor_exit_references (record p { level_open = some (round5 e.level) }) expected
          e.level

  -- The row takes the deal, and the real level with its first one.
  unfoldable pub take_deal : String → LiveEntry → TradedPosition → TradedPosition
  unfolding bind_real_open_level
  take_deal deal e p = elim p.deal_id [
    | none ↦ bind_real_open_level (record p { deal_id = some deal }) e
    | some d ↦ if str_eq d deal then p else record p { deal_id = some deal }
  ]

  abbrev pub mark_of : String → LiveEntry → Option Float
  mark_of direction e =
      if str_eq direction "SELL"
      then (elim e.offer [ none ↦ e.bid | some offer ↦ some offer ])
      else e.bid

  -- `float(x or pnl)`
  abbrev pub or_pnl : Option Float → Float → Float
  or_pnl none pnl = pnl
  or_pnl (some x) pnl = if same_float x zero_float then pnl else x

  unfoldable pub mark_to_market : LiveEntry → TradedPosition → TradedPosition
  unfolding euro_pnl
  mark_to_market e p = elim (mark_of p.direction e) [
    | none ↦ p
    | some mark ↦
        let pnl = euro_pnl a p mark in
        record p {
          euro = some (round3 pnl);
          euro_max = some (round3 (larger pnl (or_pnl p.euro_max pnl)));
          euro_min = some (round3 (smaller pnl (or_pnl p.euro_min pnl)));
        }
  ]

  unfoldable pub vanished_pnl : TradedPosition → Float
  unfolding euro_pnl
  vanished_pnl p = elim p.euro [
    | some pnl ↦ pnl
    | none ↦ euro_pnl a p (elim p.level_close [
      | none ↦ or_zero p.level_open
      | some level ↦ if same_float level zero_float then or_zero p.level_open else level
    ])
  ]

  -- The close level that agrees with the profit.
  unfoldable pub vanished_level : TradedPosition → Float
  vanished_level p =
      let open_level = or_zero p.level_open in
      let epp = or_zero p.euro_per_point in
      elim p.euro [
        | none ↦ open_level
        | some pnl ↦
            let delta = div pnl epp in
            if same_float epp zero_float
            then open_level
            else add open_level (if str_eq p.direction "SELL" then neg delta else delta)
      ]

  unfoldable pub reconcile_vanished : TradedPosition → TradedPosition
  unfolding vanished_pnl vanished_level
  reconcile_vanished p = record p {
    is_open = false;
    level_close = elim p.level_close [
      | none ↦ some (round5 (vanished_level p))
      | some level ↦ some level
    ];
    reason_close = some "closed_externally";
    euro = some (round3 (vanished_pnl p));
    win = some (if zero_float <f vanished_pnl p then 1 else 0);
  }
