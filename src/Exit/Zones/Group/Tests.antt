-- ===== src/Exit/Zones/Group/Tests.antt =====
-- The group rule at a concrete book, in whole numbers.
use igthon.Prelude.{◌≡◌, refl, ℕ, true, some, List, [], ◌∷◌, All, arith}
use igthon.Prelude.Int.{pos, ◌+ℤ◌, ◌-ℤ◌, ◌*ℤ◌}
use igthon.Num.{zero_float, ◌<f◌}
use igthon.Num.Whole.{whole}
use igthon.Exit.Zones.Group.{
  GroupMember, SmartGroupParams, explain_group_tightening, walk, report_of, is_unpriceable,
  is_unprotected, counted, count, candidate_stop, tightens, value_at, euro_at, fill_level, haircut,
  plan_set, default_smartgroup,
}
use igthon.Exit.Zones.Group.Book.{book_from, IsLegal, explain_group_tightening_guarantees}

abbrev member : ℕ → ℕ → ℕ → GroupMember
member id price size = record {
  position_id = id;
  level_open = pos 100;
  level_follower = pos 90;
  euro_per_point = pos size;
  current_price = pos price;
  min_stop_distance = pos 1;
  noise = pos 2;
  sign = pos 1;
  exec_slip = pos 1;
}

abbrev params : SmartGroupParams
params = record (default_smartgroup whole) { reconcile_margin_pct = pos 0 }

-- A winner of twenty points and a loser of two.
abbrev book : List GroupMember
book = member 1 120 3 ∷ member 2 98 2 ∷ []

explain-book : (explain_group_tightening whole params book).plan ≡ (1, pos 118) ∷ (2, pos 96) ∷ []
unfolding explain_group_tightening walk report_of is_unpriceable is_unprotected counted count
    candidate_stop tightens value_at euro_at fill_level haircut plan_set ◌+ℤ◌ ◌-ℤ◌ ◌*ℤ◌
explain-book = refl

explain_group_tightening_guarantees_example :
    let r = explain_group_tightening whole params book in
    (book_from whole params r.plan zero_float book ≡ some r.total_euro)
    × ((params.min_group_euro <f r.total_euro) ≡ true)
    × All (IsLegal whole params r.plan) book
unfolding explain_group_tightening walk report_of is_unpriceable is_unprotected counted count
    candidate_stop tightens value_at euro_at fill_level haircut plan_set ◌+ℤ◌ ◌-ℤ◌ ◌*ℤ◌
explain_group_tightening_guarantees_example =
    explain_group_tightening_guarantees whole params book ((omega arith, tt), (tt, tt)) refl
