-- ===== src/Execution/Trading/Sync/Bound.antt =====
-- Lemmas on the entry that a row takes (src/execution/trading.py).
use igthon.Prelude.{
  ◌≡◌, ◌∙◌, refl, ◌⊎◌, inl, inr, String, true, false, Option, none, some, List, [], ◌∷◌, Bool-cases,
  Option-cases, arith, str_eq, eq_iff, contains, if◌then◌else◌,
}
use igthon.Prelude.Dicts.{Dict, lookup, insert, lookup-insert}
use igthon.Num.{Float, Arith, zero_float}
use igthon.Indicators.{same_float}
use igthon.Exit.Close.{or_zero}
use igthon.Execution.Trading.{TradedPosition}
use igthon.Execution.Trading.Stops.{nonempty}
use igthon.Execution.Trading.Sync.{
  LiveEntry, live_by_deal, if_free, find_in, or_entry, bind, take_deal, mark_to_market,
  bind_real_open_level, reanchor_exit_references,
}
use igthon.Execution.Trading.Sync.Loop.{settle_matched, is_side}

-- Some row holds the deal.
abbrev pub IsTracked : String → List TradedPosition → Type 0
IsTracked d [] = true ≡ false
IsTracked d (p ∷ ps) = (p.deal_id ≡ some d) ⊎ IsTracked d ps

-- Some entry of the broker's list has the deal, an epic and a known side.
abbrev pub IsOffered : String → List LiveEntry → Type 0
IsOffered d [] = true ≡ false
IsOffered d (e ∷ es) =
    ((nonempty e.deal_id ≡ some d)
      × ((epic : String) × (nonempty e.epic ≡ some epic))
      × (is_side e.direction ≡ true))
    ⊎ IsOffered d es

abbrev pub IsListed : String → List LiveEntry → Type 0
IsListed d [] = true ≡ false
IsListed d (e ∷ es) = (nonempty e.deal_id ≡ some d) ⊎ IsListed d es

pub IsOffered-IsListed : (d : String) (es : List LiveEntry) → IsOffered d es → IsListed d es
IsOffered-IsListed d [] h = h
IsOffered-IsListed d (e ∷ es) (inl h) = inl (h.0)
IsOffered-IsListed d (e ∷ es) (inr h) = inr (IsOffered-IsListed d es h)

pub nonempty-again :
    (o : Option String) (d : String) → nonempty o ≡ some d → nonempty (some d) ≡ some d
unfolding nonempty
nonempty-again none d h = absurd (ground (arith, h))
nonempty-again (some s) d h = ground (arith, h, eq_iff s "", eq_iff d "")

IsListed-nonempty : (d : String) (es : List LiveEntry) → IsListed d es → nonempty (some d) ≡ some d
IsListed-nonempty d [] h = absurd (cc)
IsListed-nonempty d (e ∷ es) (inl h) = nonempty-again e.deal_id d h
IsListed-nonempty d (e ∷ es) (inr h) = IsListed-nonempty d es h

-- The deal of an entry, if there is one.
abbrev pub HasDeal : String → Option LiveEntry → Type 0
HasDeal d none = true ≡ false
HasDeal d (some e) = nonempty e.deal_id ≡ some d

add_entry :
    (d : String) (e : LiveEntry) (index : Dict LiveEntry)
    → HasDeal d (lookup d index)
    → (o : Option String) → nonempty e.deal_id ≡ o
    → HasDeal d (
        lookup d
          (elim o as (λ _. Dict LiveEntry) [ none ↦ index | some deal ↦ insert deal e index ]))
add_entry d e index h none eq = h
add_entry d e index h (some deal) eq = elim (Bool-cases (str_eq deal d)) [
  | inl same ↦ rw (lookup-insert deal d e index, same) (ground (arith, eq, same, eq_iff deal d))
  | inr other ↦ rw (lookup-insert deal d e index, other) h
]

live_by_deal-keeps :
    (d : String) (es : List LiveEntry) (index : Dict LiveEntry)
    → HasDeal d (lookup d index)
    → HasDeal d (lookup d (live_by_deal es index))
unfolding live_by_deal
live_by_deal-keeps d [] index h = h
live_by_deal-keeps d (e ∷ es) index h =
    live_by_deal-keeps d es _ (add_entry d e index h (nonempty e.deal_id) refl)

live_by_deal-lookup :
    (d : String) (es : List LiveEntry) (index : Dict LiveEntry)
    → IsListed d es
    → HasDeal d (lookup d (live_by_deal es index))
unfolding live_by_deal
live_by_deal-lookup d [] index h = absurd (cc)
live_by_deal-lookup d (e ∷ es) index (inl h) =
    live_by_deal-keeps d es _
      (rw (h) (rw (lookup-insert d d e index) (ground (arith, h, eq_iff d d))))
live_by_deal-lookup d (e ∷ es) index (inr h) = live_by_deal-lookup d es _ h

module _ (a : Arith) where
  if_free-HasDeal :
      (claimed : List String) (d : String) (o : Option LiveEntry)
      → HasDeal d o
      → contains claimed d ≡ false
      → HasDeal d (if_free claimed o)
  unfolding if_free
  if_free-HasDeal claimed d none h free = h
  if_free-HasDeal claimed d (some e) h free = rw (if_free, h, free) h

  or_entry-HasDeal :
      (d : String) (o o' : Option LiveEntry) → HasDeal d o → HasDeal d (or_entry o o')
  or_entry-HasDeal d none o' h = absurd (cc)
  or_entry-HasDeal d (some e) o' h = h

  -- A row whose deal is listed and free takes it.
  pub bind-HasDeal :
      (entries : List LiveEntry) (claimed : List String) (p : TradedPosition) (d : String)
      → p.deal_id ≡ some d
      → IsListed d entries
      → contains claimed d ≡ false
      → HasDeal d (bind a entries claimed p)
  unfolding bind find_in
  bind-HasDeal entries claimed p d h listed free =
      or_entry-HasDeal d (if_free claimed (find_in (live_by_deal entries []) p.deal_id)) _ (
        if_free-HasDeal claimed d (find_in (live_by_deal entries []) p.deal_id)
          (rw (h, find_in, IsListed-nonempty d entries listed)
            (live_by_deal-lookup d entries [] listed))
          free)

  reanchor-deal_id :
      (p : TradedPosition) (x y : Float) → (reanchor_exit_references a p x y).deal_id ≡ p.deal_id
  unfolding reanchor_exit_references
  reanchor-deal_id p x y = ground arith

  bind_real-deal_id :
      (p : TradedPosition) (e : LiveEntry) → (bind_real_open_level a p e).deal_id ≡ p.deal_id
  unfolding bind_real_open_level
  bind_real-deal_id p e = elim (Bool-cases (same_float e.level zero_float)) [
    | inl missing ↦ rw (bind_real_open_level, missing) refl
    | inr there ↦
        rw (bind_real_open_level, there)
          (reanchor-deal_id (record p { level_open = some (a.round5 e.level) })
            (if str_eq p.direction "SELL"
              then or_zero p.level_open
              else a.add (or_zero p.level_open) (or_zero p.pip_spread))
            e.level)
  ]

  take_deal-deal_id :
      (d : String) (e : LiveEntry) (p : TradedPosition) → (take_deal a d e p).deal_id ≡ some d
  unfolding take_deal
  take_deal-deal_id d e p = elim (Option-cases p.deal_id) [
    | inl nothing ↦ rw (take_deal, nothing) (bind_real-deal_id (record p { deal_id = some d }) e)
    | inr (x, h) ↦ rw (take_deal, h) (ground (arith, h, eq_iff x d))
  ]

  mark_to_market-deal_id :
      (e : LiveEntry) (p : TradedPosition) → (mark_to_market a e p).deal_id ≡ p.deal_id
  unfolding mark_to_market
  mark_to_market-deal_id e p = ground arith

  pub settle_matched-deal_id :
      (e : LiveEntry) (p : TradedPosition) (d : String)
      → nonempty e.deal_id ≡ some d
      → (settle_matched a e p).deal_id ≡ some d
  unfolding settle_matched
  settle_matched-deal_id e p d h =
      rw (settle_matched, h)
        (mark_to_market-deal_id e (take_deal a d e p) ∙ take_deal-deal_id d e p)
