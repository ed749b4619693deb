-- ===== src/Exit/Updaters.antt =====
-- The updaters by name and zone (src/exit/zones/__init__.py).
use igthon.Prelude.{String, Bool, true, false, Option, none, [], ◌∷◌}
use igthon.Prelude.Dicts.{Dict, lookup}
use igthon.Num.{Float, Arith}
use igthon.Exit.Zones.{StopContext}
use igthon.Exit.Zones.Lock.{BreakevenLockParams, default_lock}
use igthon.Exit.Zones.Underwater.{
  TrendCutParams, TimedLiftParams, default_trendcut, default_timedlift, trendcut, timedlift,
}
use igthon.Exit.Zones.Band.{
  BreakevenSafeParams, LimitLooseParams, default_safe, default_limitloose, breakeven_lock,
  breakeven_safe, limitloose, breakeven_half,
}
use igthon.Exit.Zones.Profit.{
  TrailingRatchetParams, RatchetMoreParams, default_ratchet, default_ratchetmore, trailing_ratchet,
  trailing_ratchetmore,
}
use igthon.Exit.Zones.Group.{SmartGroupParams, default_smartgroup}

pub data StopUpdater : Type 0 where
  underwater_stop breakeven_band_stop secure_hold_stop : StopUpdater
  underwater_trend_cut_stop : TrendCutParams → StopUpdater
  underwater_timed_lift_stop : TimedLiftParams → StopUpdater
  smart_group_stop : SmartGroupParams → StopUpdater
  breakeven_lock_stop : BreakevenLockParams → StopUpdater
  breakeven_safe_stop : BreakevenSafeParams → StopUpdater
  limit_loose_stop : LimitLooseParams → StopUpdater
  breakeven_half_stop : Float → StopUpdater
  trailing_ratchet_stop : TrailingRatchetParams → StopUpdater
  trailing_ratchet_more_stop : RatchetMoreParams → StopUpdater

module _ (a : Arith) where
  open a use {lit}

  unfoldable pub propose : StopUpdater → StopContext → Option Float
  unfolding trendcut timedlift breakeven_lock breakeven_safe limitloose breakeven_half
      trailing_ratchet trailing_ratchetmore
  propose underwater_stop ctx = none
  propose breakeven_band_stop ctx = none
  propose secure_hold_stop ctx = none
  propose (underwater_trend_cut_stop p) ctx = trendcut a p ctx
  propose (underwater_timed_lift_stop p) ctx = timedlift a p ctx
  propose (smart_group_stop p) ctx = ctx.group_tighten
  propose (breakeven_lock_stop p) ctx = breakeven_lock a p ctx
  propose (breakeven_safe_stop p) ctx = breakeven_safe a p ctx
  propose (limit_loose_stop p) ctx = limitloose a p ctx
  propose (breakeven_half_stop f) ctx = breakeven_half a f ctx
  propose (trailing_ratchet_stop p) ctx = trailing_ratchet a p ctx
  propose (trailing_ratchet_more_stop p) ctx = trailing_ratchetmore a p ctx

  abbrev pub zonestart_updaters : Dict StopUpdater
  zonestart_updaters =
      ("hold", underwater_stop)
      ∷ ("trendcut", underwater_trend_cut_stop (default_trendcut a))
      ∷ ("timedlift", underwater_timed_lift_stop (default_timedlift a))
      ∷ ("smartgroup", smart_group_stop (default_smartgroup a))
      ∷ []

  abbrev pub zonemarge_updaters : Dict StopUpdater
  zonemarge_updaters =
      ("hold", breakeven_band_stop)
      ∷ ("breakeven_lock", breakeven_lock_stop (default_lock a))
      ∷ ("breakeven_safe", breakeven_safe_stop (default_safe a))
      ∷ ("limitloose", limit_loose_stop (default_limitloose a))
      ∷ []

  abbrev pub zonesecure_updaters : Dict StopUpdater
  zonesecure_updaters =
      ("hold", secure_hold_stop) ∷ ("breakeven_half", breakeven_half_stop (lit 5 10)) ∷ []

  abbrev pub zoneprofit_updaters : Dict StopUpdater
  zoneprofit_updaters =
      ("trailing_ratchet", trailing_ratchet_stop (default_ratchet a))
      ∷ ("trailing_ratchetmore", trailing_ratchet_more_stop (default_ratchetmore a))
      ∷ []

-- An unknown name is a `ValueError`.
unfoldable pub build_zone_updater : Dict StopUpdater → String → Option StopUpdater
unfolding lookup
build_zone_updater registry name = lookup name registry

-- `isinstance(updater, SmartGroupStop)`
abbrev pub is_smart_group : StopUpdater → Bool
is_smart_group (smart_group_stop p) = true
is_smart_group _ = false
