-- ===== src/Command/Moorings.antt =====
-- Every command of a session keeps every docked ship in the bay that it names.
use netrek_server.Base.{ℕ, Bool, List, [], ◌∷◌}
use netrek_server.Game.{Ship, ShipType}
use netrek_server.Dock.{Trig}
use netrek_server.Task.{beam_up, beam_down}
use netrek_server.Command.{
  Command, speed, course, raise_shields, lower_shields, start_repair, stop_repair, toggle_cloak,
  start_cloak, stop_cloak, bomb_it, take_armies, drop_armies, go_orbit, lock_on_planet,
  lock_on_player, tractor, pressor, war, rebel, det_enemy, fire_torp, fire_plasma, exec, run,
}
use netrek_server.Torp.{Arms, Rules}
use netrek_server.Command.Shots.{
  coup-Berthed, detothers-Berthed, ntorp-Berthed, nplasmatorp-Berthed,
}
use netrek_server.Dock.Berths.{Berthed, orbit-Berthed}
use netrek_server.Command.Berths.{
  set_speed-Berthed, set_course-Berthed, shield_up-Berthed, shield_down-Berthed, repair-Berthed,
  repair_off-Berthed, cloak-Berthed, cloak_on-Berthed, cloak_off-Berthed, bomb_planet-Berthed,
  beam_up_by-Berthed, beam_down_by-Berthed,
}
use netrek_server.Command.Releases.{
  lock_planet-Berthed, lock_player-Berthed, tractor_player-Berthed, pressor_player-Berthed,
}
use netrek_server.Command.Partings.{declare_war-Berthed}

module _ (trig : Trig) (sborbit : Bool) (shipvals : ShipType → Ship) (speed_of : ℕ → ℕ → ℕ → ℕ → ℕ)
    (rules : Rules) where
  exec-Berthed :
      (x : Command) (a : Arms)
      → Berthed a.client
      → Berthed (exec trig sborbit shipvals speed_of rules x a).0.client
  unfolding exec beam_up beam_down
  exec-Berthed (speed n) a v = set_speed-Berthed n a.client v
  exec-Berthed (course d) a v = set_course-Berthed d a.client v
  exec-Berthed raise_shields a v = shield_up-Berthed a.client v
  exec-Berthed lower_shields a v = shield_down-Berthed a.client v
  exec-Berthed start_repair a v = repair-Berthed a.client v
  exec-Berthed stop_repair a v = repair_off-Berthed a.client v
  exec-Berthed toggle_cloak a v = cloak-Berthed a.client v
  exec-Berthed start_cloak a v = cloak_on-Berthed a.client v
  exec-Berthed stop_cloak a v = cloak_off-Berthed a.client v
  exec-Berthed bomb_it a v = bomb_planet-Berthed a.client v
  exec-Berthed take_armies a v = beam_up_by-Berthed _ a.client v
  exec-Berthed drop_armies a v = beam_down_by-Berthed _ a.client v
  exec-Berthed go_orbit a v = orbit-Berthed trig sborbit a.client v
  exec-Berthed (lock_on_planet n) a v = lock_planet-Berthed n a.client v
  exec-Berthed (lock_on_player n) a v = lock_player-Berthed shipvals n a.client v
  exec-Berthed (tractor n) a v = tractor_player-Berthed n a.client v
  exec-Berthed (pressor n) a v = pressor_player-Berthed n a.client v
  exec-Berthed (war m d) a v = declare_war-Berthed m d a.client v
  exec-Berthed rebel a v = coup-Berthed a.client v
  exec-Berthed det_enemy a v = detothers-Berthed a v
  exec-Berthed (fire_torp k rnd d attributes) a v =
      ntorp-Berthed speed_of rules k rnd d attributes a v
  exec-Berthed (fire_plasma d attributes) a v = nplasmatorp-Berthed speed_of rules d attributes a v

  -- Over every list of these commands (speed, course, shields, repair, cloak, bombing, beaming up and
  -- down, orbit, both locks, tractor, pressor, war, coup, torpedoes, plasmas, detonation of the
  -- torpedoes of others), a ship that is docked stands in one of the four bays of its base, and that
  -- bay names it, if so it is at the start.
  pub run-Berthed :
      (xs : List Command) (a : Arms)
      → Berthed a.client
      → Berthed (run trig sborbit shipvals speed_of rules xs a).client
  unfolding run
  run-Berthed [] a v = v
  run-Berthed (x ∷ xs) a v =
      run-Berthed xs (exec trig sborbit shipvals speed_of rules x a).0 (exec-Berthed x a v)
