-- ===== src/Exit/Zones/Group.antt =====
-- The rule that tightens the stops of the whole book (src/exit/zones/smartgroup.py).
pub mod Book
mod Tests
use igthon.Prelude.{
  ℕ, Bool, true, false, not, ◌&&◌, ◌||◌, Option, none, some, List, [], ◌∷◌, ◌++◌, ◌==◌,
  if◌then◌else◌,
}
use igthon.Num.{Float, Arith, zero_float, ◌<f◌, ◌≤f◌, abs, larger}

pub record SmartGroupParams : Type 0 where
  pub noise_window : ℕ
  pub noise_std_k : Float
  pub min_group_euro : Float
  pub exec_slip_k : Float
  pub reconcile_margin_pct : Float

pub record GroupMember : Type 0 where
  pub position_id : ℕ
  pub level_open : Float
  pub level_follower : Float
  pub euro_per_point : Float
  pub current_price : Float
  pub min_stop_distance : Float
  pub noise : Float
  pub sign : Float
  pub exec_slip : Float

pub record MemberValuation : Type 0 where
  pub position_id : ℕ
  pub candidate : Float
  pub level_follower : Float
  pub tightens : Bool
  pub valued_at : Float
  pub euro : Float

-- A `dict` from positions to levels.
abbrev pub Plan : Type 0
Plan = List (ℕ × Float)

unfoldable pub plan_get : ℕ → Plan → Option Float
plan_get k [] = none
plan_get k ((j, v) ∷ d) = if j == k then some v else plan_get k d

unfoldable pub plan_set : ℕ → Float → Plan → Plan
plan_set k v [] = (k, v) ∷ []
plan_set k v ((j, w) ∷ d) = if j == k then (j, v) ∷ d else (j, w) ∷ plan_set k v d

pub record GroupPlanReport : Type 0 where
  pub plan : Plan
  pub total_euro : Float
  pub gate_euro : Float
  pub armed : Bool
  pub valuations : List MemberValuation
  pub unpriceable : List ℕ
  pub disarmed_by : Option ℕ

-- The variables of the loop over the members.
pub record Walk : Type 0 where
  pub total : Float
  pub plan : Plan
  pub valuations : List MemberValuation
  pub unpriceable : List ℕ

-- The loop runs to its end, or returns at a position without a stop.
pub data Outcome : Type 0 where
  valued : Walk → Outcome
  disarmed : Walk → ℕ → Outcome

abbrev pub fresh_walk : Walk
fresh_walk = record { total = zero_float; plan = []; valuations = []; unpriceable = [] }

unfoldable pub is_unpriceable : GroupMember → Bool
is_unpriceable m = (m.euro_per_point ≤f zero_float) || (m.level_open ≤f zero_float)

module _ (a : Arith) where
  open a use {add, sub, mul, lit}

  abbrev pub default_smartgroup : SmartGroupParams
  default_smartgroup = record {
    noise_window = 20;
    noise_std_k = lit 2 1;
    min_group_euro = zero_float;
    exec_slip_k = lit 5 10;
    reconcile_margin_pct = lit 2 100;
  }

  unfoldable pub candidate_stop : GroupMember → Float
  candidate_stop m = sub m.current_price (mul m.sign (larger m.noise m.min_stop_distance))

  unfoldable pub euro_at : GroupMember → Float → Float
  euro_at m level = mul (mul m.sign (sub level m.level_open)) m.euro_per_point

  unfoldable pub fill_level : GroupMember → Float → Float
  fill_level m stop_level = sub stop_level (mul m.sign (larger m.exec_slip zero_float))

  unfoldable pub haircut : Float → Float → Float
  haircut euro pct = sub euro (mul (abs euro) (larger pct zero_float))

  unfoldable pub tightens : GroupMember → Float → Bool
  tightens m candidate =
      if mul m.sign (sub m.current_price candidate) ≤f zero_float
      then false
      else (m.level_follower ≤f zero_float)
        || (zero_float <f mul m.sign (sub candidate m.level_follower))

  -- The contribution of a member whose stop rests at a level.
  unfoldable pub value_at : SmartGroupParams → GroupMember → Float → Float
  unfolding euro_at fill_level haircut
  value_at params m level = haircut (euro_at m (fill_level m level)) params.reconcile_margin_pct

  -- The loop's body for a member that is in the sum, with the level that it is valued at.
  unfoldable pub count : SmartGroupParams → GroupMember → Bool → Float → Walk → Walk
  unfolding candidate_stop fill_level value_at plan_set
  count params m moves level w = record w {
    total = add w.total (value_at params m level);
    plan = if moves then plan_set m.position_id (candidate_stop m) w.plan else w.plan;
    valuations =
        w.valuations
        ++ record {
          position_id = m.position_id;
          candidate = candidate_stop m;
          level_follower = m.level_follower;
          tightens = moves;
          valued_at = fill_level m level;
          euro = value_at params m level;
        }
          ∷ [];
  }

  unfoldable pub is_unprotected : GroupMember → Bool
  unfolding candidate_stop tightens
  is_unprotected m = not (tightens m (candidate_stop m)) && (m.level_follower ≤f zero_float)

  unfoldable pub counted : SmartGroupParams → GroupMember → Walk → Walk
  unfolding candidate_stop tightens count
  counted params m w =
      let moves = tightens m (candidate_stop m) in
      count params m moves (if moves then candidate_stop m else m.level_follower) w

  unfoldable pub walk : SmartGroupParams → List GroupMember → Walk → Outcome
  unfolding is_unpriceable is_unprotected counted
  walk params [] w = valued w
  walk params (m ∷ ms) w =
      let skipped =
        walk params ms (record w { unpriceable = w.unpriceable ++ m.position_id ∷ [] }) in
      let taken = walk params ms (counted params m w) in
      if is_unpriceable m
      then skipped
      else if is_unprotected m
      then disarmed w m.position_id
      else taken

  unfoldable pub report_of : SmartGroupParams → Outcome → GroupPlanReport
  report_of params (valued w) = record {
    plan = if params.min_group_euro <f w.total then w.plan else [];
    total_euro = w.total;
    gate_euro = params.min_group_euro;
    armed = params.min_group_euro <f w.total;
    valuations = w.valuations;
    unpriceable = w.unpriceable;
    disarmed_by = none;
  }
  report_of params (disarmed w k) = record {
    plan = [];
    total_euro = w.total;
    gate_euro = params.min_group_euro;
    armed = false;
    valuations = w.valuations;
    unpriceable = w.unpriceable;
    disarmed_by = some k;
  }

  unfoldable pub explain_group_tightening : SmartGroupParams → List GroupMember → GroupPlanReport
  unfolding walk report_of
  explain_group_tightening params members = report_of params (walk params members fresh_walk)

  unfoldable pub plan_group_tightening : SmartGroupParams → List GroupMember → Plan
  unfolding explain_group_tightening
  plan_group_tightening params members = (explain_group_tightening params members).plan
