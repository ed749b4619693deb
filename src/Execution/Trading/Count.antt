-- ===== src/Execution/Trading/Count.antt =====
-- How many rows a forced close closes (src/execution/trading.py).
use igthon.Prelude.{
  ◌≡◌, refl, inl, inr, ℕ, suc, ◌+◌, String, Bool, true, false, not, ◌&&◌, Option, List, [], ◌∷◌,
  Option-cases, arith, contains, if◌then◌else◌,
}
use igthon.Num.{Float, Arith}
use igthon.Execution.Trading.{TradeConfig, TradedPosition}
use igthon.Execution.Trading.Closing.{CloseAnswers}
use igthon.Execution.Trading.Final.{close_position-closes}
use igthon.Execution.Trading.Reconcile.{attempt_close, force_close, close_epics, bid_or_zero}

abbrev pub open_count : List TradedPosition → ℕ
open_count [] = 0
open_count (p ∷ ps) = if p.is_open then suc (open_count ps) else open_count ps

-- The rows of other epics are the same, in their places.
abbrev pub SameOthers : List String → List TradedPosition → List TradedPosition → Type 0
SameOthers epics [] [] = Unit
SameOthers epics [] (q ∷ qs) = true ≡ false
SameOthers epics (p ∷ ps) [] = true ≡ false
SameOthers epics (p ∷ ps) (q ∷ qs) =
    (contains epics p.epic ≡ false → q ≡ p) × SameOthers epics ps qs

module _ (a : Arith) (config : TradeConfig) (answers : ℕ → CloseAnswers)
    (bid_of_market : String → Option (Option Float)) (reason : String) where
  -- An open row that is tried is closed or stays open, and the result says which.
  attempt_close-is_open :
      (unsupported : List String) (p : TradedPosition) (wanted : Bool)
      → (wanted ≡ true → p.is_open ≡ true)
      → let r = attempt_close a config answers bid_of_market reason unsupported wanted p in
        r.position.is_open ≡ p.is_open && not r.closed
  unfolding attempt_close
  attempt_close-is_open unsupported p false h = ground arith
  attempt_close-is_open unsupported p true h = elim (Option-cases (bid_of_market p.epic)) [
    | inl nothing ↦ rw (attempt_close, nothing) (ground arith)
    | inr (bid, e) ↦
        rw (attempt_close, e)
          (let (row, exact) =
              close_position-closes a config (answers p.id) unsupported p (bid_or_zero a bid) reason
                (h refl) in
            ground (arith, row, h refl))
  ]

  one_less :
      (was is_ closed : Bool) (n m k : ℕ)
      → is_ ≡ was && not closed
      → (closed ≡ true → was ≡ true)
      → n ≡ k + m
      → (if was then suc n else n) ≡ (if closed then suc k else k) + (if is_ then suc m else m)
  one_less true is_ true n m k h c e = rw (h) (omega (arith, e))
  one_less true is_ false n m k h c e = rw (h) (omega (arith, e))
  one_less false is_ true n m k h c e = absurd (ground (arith, c refl))
  one_less false is_ false n m k h c e = rw (h) (omega (arith, e))

  closed-wanted :
      (unsupported : List String) (p : TradedPosition) (wanted : Bool)
      → (attempt_close a config answers bid_of_market reason unsupported wanted p).closed ≡ true
      → wanted ≡ true
  unfolding attempt_close
  closed-wanted unsupported p true h = refl
  closed-wanted unsupported p false h = absurd (ground (arith, h))

  force_close-open_count :
      (wanted : TradedPosition → Bool)
      → ((p : TradedPosition) → wanted p ≡ true → p.is_open ≡ true)
      → (unsupported : List String) (ps : List TradedPosition)
      → let r = force_close a config answers bid_of_market reason wanted unsupported ps in
        open_count ps ≡ r.closed + open_count r.rows
  unfolding force_close
  force_close-open_count wanted h unsupported [] = refl
  force_close-open_count wanted h unsupported (p ∷ ps) =
      let r = attempt_close a config answers bid_of_market reason unsupported (wanted p) p in
      let rest = force_close a config answers bid_of_market reason wanted r.unsupported ps in
      one_less p.is_open r.position.is_open r.closed (open_count ps) (open_count rest.rows)
        rest.closed (attempt_close-is_open unsupported p (wanted p) (h p))
        (λ c. h p (closed-wanted unsupported p (wanted p) c))
        (force_close-open_count wanted h r.unsupported ps)

  kept_other :
      (unsupported : List String) (p : TradedPosition) (wanted : Bool)
      → wanted ≡ false
      → (attempt_close a config answers bid_of_market reason unsupported wanted p).position ≡ p
  unfolding attempt_close
  kept_other unsupported p true h = absurd (cc)
  kept_other unsupported p false h = refl

  force_close-SameOthers :
      (epics unsupported : List String) (ps : List TradedPosition)
      → SameOthers epics ps
          (force_close a config answers bid_of_market reason
            (λ p. p.is_open && contains epics p.epic)
            unsupported
            ps).rows
  unfolding force_close
  force_close-SameOthers epics unsupported [] = tt
  force_close-SameOthers epics unsupported (p ∷ ps) = (
    λ other. kept_other unsupported p (p.is_open && contains epics p.epic) (ground (arith, other)),
    force_close-SameOthers epics
        (attempt_close a config answers bid_of_market reason unsupported
          (p.is_open && contains epics p.epic) p).unsupported
        ps,
  )

  -- Of the open rows, a forced close of some epics leaves open all but as many as it says that it
  -- closed, and it leaves the rows of other epics as they are.
  pub close_epics-open_count :
      (epics unsupported : List String) (table : List TradedPosition)
      → let r = close_epics a config answers bid_of_market reason epics unsupported table in
        (open_count table ≡ r.closed + open_count r.rows) × SameOthers epics table r.rows
  unfolding close_epics
  close_epics-open_count epics unsupported table = (
    force_close-open_count (λ p. p.is_open && contains epics p.epic) (λ p h. ground (arith, h))
        unsupported table,
    force_close-SameOthers epics unsupported table,
  )
