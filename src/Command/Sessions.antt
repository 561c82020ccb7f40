-- ===== src/Command/Sessions.antt =====
-- Every command of a session keeps the bits of `p_flags` exclusive, in every ship.
use netrek_server.Base.{ℕ, Bool, List, [], ◌∷◌}
use netrek_server.Game.{Ship, ShipType}
use netrek_server.Dock.{Trig}
use netrek_server.Task.{beam_up, beam_down}
use netrek_server.Command.{
  Command, speed, course, raise_shields, lower_shields, start_repair, stop_repair, toggle_cloak,
  start_cloak, stop_cloak, bomb_it, take_armies, drop_armies, go_orbit, lock_on_planet,
  lock_on_player, tractor, pressor, war, rebel, det_enemy, fire_torp, fire_plasma, exec, run,
}
use netrek_server.Torp.{Arms, Rules}
use netrek_server.Command.Shots.{coup-Clean, detothers-Clean, ntorp-Clean, nplasmatorp-Clean}
use netrek_server.Command.Exclusive.{
  Clean, set_speed-Clean, set_course-Clean, shield_up-Clean, shield_down-Clean, repair-Clean,
  repair_off-Clean, cloak-Clean, cloak_on-Clean, cloak_off-Clean, bomb_planet-Clean,
  beam_up_by-Clean, beam_down_by-Clean,
}
use netrek_server.Command.Beams.{
  lock_planet-Clean, lock_player-Clean, tractor_player-Clean, pressor_player-Clean,
}
use netrek_server.Command.Orbits.{orbit-Clean, declare_war-Clean}

module _ (trig : Trig) (sborbit : Bool) (shipvals : ShipType → Ship) (speed_of : ℕ → ℕ → ℕ → ℕ → ℕ)
    (rules : Rules) where
  exec-Clean :
      (x : Command) (a : Arms)
      → Clean a.client
      → Clean (exec trig sborbit shipvals speed_of rules x a).0.client
  unfolding exec beam_up beam_down
  exec-Clean (speed n) a v = set_speed-Clean n a.client v
  exec-Clean (course d) a v = set_course-Clean d a.client v
  exec-Clean raise_shields a v = shield_up-Clean a.client v
  exec-Clean lower_shields a v = shield_down-Clean a.client v
  exec-Clean start_repair a v = repair-Clean a.client v
  exec-Clean stop_repair a v = repair_off-Clean a.client v
  exec-Clean toggle_cloak a v = cloak-Clean a.client v
  exec-Clean start_cloak a v = cloak_on-Clean a.client v
  exec-Clean stop_cloak a v = cloak_off-Clean a.client v
  exec-Clean bomb_it a v = bomb_planet-Clean a.client v
  exec-Clean take_armies a v = beam_up_by-Clean _ a.client v
  exec-Clean drop_armies a v = beam_down_by-Clean _ a.client v
  exec-Clean go_orbit a v = orbit-Clean trig sborbit a.client v
  exec-Clean (lock_on_planet n) a v = lock_planet-Clean n a.client v
  exec-Clean (lock_on_player n) a v = lock_player-Clean shipvals n a.client v
  exec-Clean (tractor n) a v = tractor_player-Clean n a.client v
  exec-Clean (pressor n) a v = pressor_player-Clean n a.client v
  exec-Clean (war m d) a v = declare_war-Clean m d a.client v
  exec-Clean rebel a v = coup-Clean a.client v
  exec-Clean det_enemy a v = detothers-Clean a v
  exec-Clean (fire_torp k rnd d attributes) a v = ntorp-Clean speed_of rules k rnd d attributes a v
  exec-Clean (fire_plasma d attributes) a v = nplasmatorp-Clean speed_of rules d attributes a v

  -- Over every list of these commands (speed, course, shields, repair, cloak, bombing, beaming up and
  -- down, orbit, both locks, tractor, pressor, war, coup, torpedoes, plasmas, detonation of the
  -- torpedoes of others), the bits of `p_flags` that exclude one another stay exclusive, in the ship
  -- that is commanded and in every other.
  pub run-Clean :
      (xs : List Command) (a : Arms)
      → Clean a.client
      → Clean (run trig sborbit shipvals speed_of rules xs a).client
  unfolding run
  run-Clean [] a v = v
  run-Clean (x ∷ xs) a v =
      run-Clean xs (exec trig sborbit shipvals speed_of rules x a).0 (exec-Clean x a v)
