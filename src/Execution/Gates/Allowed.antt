-- ===== src/Execution/Gates/Allowed.antt =====
-- Which openings the gates let through (src/execution/gates.py).
use igthon.Prelude.{◌≡◌, refl, String, ◌↔◌, ◌⊎◌, true, false, arith, str_eq, eq_iff}
use igthon.Execution.Gates.{Opening, allowed, evaluate_open_gates}

buy_is_no_sell : (d : String) → d ≡ "BUY" → str_eq d "SELL" ≡ false
buy_is_no_sell d h = rw h refl

-- An opening is allowed exactly in trading hours, on an epic that is neither open nor used today nor
-- about to close, as a purchase, or as a sale where those are allowed.
pub evaluate_open_gates-allowed :
    (o : Opening)
    → (evaluate_open_gates o ≡ allowed) ↔ (
        (o.in_trading_hours ≡ true)
        × ((o.direction ≡ "BUY") ⊎ ((o.direction ≡ "SELL") × (o.allow_short ≡ true)))
        × (o.epic_already_open ≡ false)
        × (o.epic_traded_today ≡ false)
        × (o.closes_soon ≡ false))
unfolding evaluate_open_gates
evaluate_open_gates-allowed o =
    ground (arith, eq_iff o.direction "BUY", eq_iff o.direction "SELL", buy_is_no_sell o.direction)
