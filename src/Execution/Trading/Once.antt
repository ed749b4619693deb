-- ===== src/Execution/Trading/Once.antt =====
-- An epic has at most one open position (src/execution/trading.py).
use mathlib.Core.Path.{subst}
use igthon.Prelude.{
  ℕ, ◌≤◌, ◌≡◌, ◌≢◌, ap, refl, ◌⊎◌, inl, inr, String, Bool, true, false, not, ◌&&◌, Option, none,
  some, List, [], ◌∷◌, ◌++◌, length, str_eq, eq_iff, Bool-cases, Option-cases, List-cases,
  length-append, arith,
}
use igthon.Num.{Float, Arith}
use igthon.Execution.Gates.{allowed}
use igthon.Execution.Gates.Allowed.{evaluate_open_gates-allowed}
use igthon.Execution.Trading.{
  TradeConfig, TradedPosition, open_of, is_epic_open, is_epic_traded_today, is_epic_close_soon,
  can_open_intent,
}

-- No epic has two open rows, so the query for the open row of an epic never raises.
abbrev pub IsSingle : List TradedPosition → Type 0
IsSingle table = (epic : String) → length (open_of epic table) ≤ 1

open_of-append :
    (epic : String) (table rows : List TradedPosition)
    → open_of epic (table ++ rows) ≡ open_of epic table ++ open_of epic rows
unfolding open_of
open_of-append epic [] rows = refl
open_of-append epic (p ∷ ps) rows = ground (arith, open_of-append epic ps rows)

is_epic_open-closed :
    (epic : String) (table : List TradedPosition)
    → is_epic_open epic table ≡ some false
    → open_of epic table ≡ []
unfolding is_epic_open
is_epic_open-closed epic table h = elim (List-cases (open_of epic table)) [
  | inl nothing ↦ nothing
  | inr (p, ps, e) ↦ elim (List-cases ps) [
    | inl alone ↦ let bad = rw (is_epic_open, e, alone) at h in ground arith
    | inr (q, qs, more) ↦ let bad = rw (is_epic_open, e, more) at h in ground arith
  ]
]

is_epic_open-answers :
    (epic : String) (table : List TradedPosition)
    → length (open_of epic table) ≤ 1
    → is_epic_open epic table ≢ none
unfolding is_epic_open
is_epic_open-answers epic table h bad = elim (List-cases (open_of epic table)) [
  | inl nothing ↦ let no = rw (is_epic_open, nothing) at bad in ground arith
  | inr (p, ps, e) ↦ elim (List-cases ps) [
    | inl alone ↦ let no = rw (is_epic_open, e, alone) at bad in ground arith
    | inr (q, qs, more) ↦ let two = rw (e, more) at h in omega arith
  ]
]

length-open_of :
    (epic : String) (p : TradedPosition)
    → (length (open_of epic (p ∷ [])) ≤ 1)
      × (str_eq p.epic epic ≡ false → length (open_of epic (p ∷ [])) ≡ 0)
unfolding open_of
length-open_of epic p = (ground arith, λ other. ground arith)

IsSingle-added :
    (table : List TradedPosition) (p : TradedPosition)
    → IsSingle table
    → open_of p.epic table ≡ []
    → IsSingle (table ++ p ∷ [])
IsSingle-added table p single nothing epic =
    let before = single epic in
    let parts = length-append (open_of epic table) (open_of epic (p ∷ [])) in
    let (one, zero_if) = length-open_of epic p in
    rw (open_of-append epic table (p ∷ [])) (elim (Bool-cases (str_eq p.epic epic)) [
      | inl same ↦
          let e : p.epic ≡ epic = (eq_iff p.epic epic).0 same in
          let none_there : length (open_of epic table) ≡ 0 =
            subst (λ (k : String). length (open_of k table) ≡ 0) e (rw nothing refl) in
          omega arith
      | inr other ↦ let zero_rows = zero_if other in omega arith
    ])

module _ (a : Arith) where
  opened :
      (config : TradeConfig) (table : List TradedPosition) (today : ℕ) (minutes : Option Float)
      (epic direction : String) (short reopen : Bool)
      → can_open_intent a config table today minutes epic direction short reopen ≡ some allowed
      → (is_epic_open epic table ≡ some false)
        × (is_epic_close_soon a config minutes ≡ false)
        × ((not reopen && not config.allow_same_day_reopen && is_epic_traded_today epic today table)
            ≡ false)
  unfolding can_open_intent
  opened config table today minutes epic direction short reopen h =
      elim (Option-cases (is_epic_open epic table)) [
        | inl raised ↦ let bad = rw (can_open_intent, raised) at h in ground arith
        | inr (b, e) ↦
            let gates =
              (evaluate_open_gates-allowed (record {
                direction = direction;
                in_trading_hours = true;
                epic_already_open = b;
                closes_soon = is_epic_close_soon a config minutes;
                allow_short = short;
                epic_traded_today =
                    not reopen
                    && not config.allow_same_day_reopen
                    && is_epic_traded_today epic today table;
              })).0 in
            let (_, _, closed, used, soon) =
              gates (ground (arith, (rw (can_open_intent, e) at h))) in
            (rw e (ap some closed), soon, used)
      ]

  -- If no epic has two open positions, the gates answer, and when they allow an opening the epic has
  -- none, was not opened today unless that is permitted, and is not about to close; with the new row
  -- no epic has two open positions either.
  pub can_open_intent-IsSingle :
      (config : TradeConfig) (table : List TradedPosition) (today : ℕ) (minutes : Option Float)
      (p : TradedPosition) (short reopen : Bool)
      → IsSingle table
      → let verdict =
          can_open_intent a config table today minutes p.epic p.direction short reopen in
        (verdict ≢ none)
        × (verdict ≡ some allowed
            → (open_of p.epic table ≡ [])
              × (is_epic_close_soon a config minutes ≡ false)
              × ((reopen ≡ true)
                  ⊎ (config.allow_same_day_reopen ≡ true)
                  ⊎ (is_epic_traded_today p.epic today table ≡ false))
              × IsSingle (table ++ p ∷ []))
  unfolding can_open_intent
  can_open_intent-IsSingle config table today minutes p short reopen single = (
    λ bad. elim (Option-cases (is_epic_open p.epic table)) [
      | inl raised ↦ is_epic_open-answers p.epic table (single p.epic) raised
      | inr (b, e) ↦ let no = rw (can_open_intent, e) at bad in ground arith
    ],
    λ h.
        let (closed, soon, used) =
          opened config table today minutes p.epic p.direction short reopen h in
        let nothing = is_epic_open-closed p.epic table closed in
        (nothing, soon, ground (arith, used), IsSingle-added table p single nothing),
  )
