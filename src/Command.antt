-- ===== src/Command.antt =====
-- The commands of a player, and a session as a list of them: what the packet handlers of
-- ntserv/socket.c call in ntserv/interface.c, orbit.c, torp.c, plasma.c, detonate.c and coup.c.
-- Refitting, phasers, transwarp and the detonation of one's own torpedoes are not among them. A
-- shot carries what the source draws or reckons for it: its cost, its random fuse and its
-- attributes.
pub mod Exclusive
pub mod Beams
pub mod Orbits
pub mod Berths
pub mod Releases
pub mod Partings
pub mod Shots
pub mod Moorings
pub mod Sessions
use netrek_server.Base.{ℕ, Bool, ℤ, List, [], ◌∷◌}
use netrek_server.Game.{Teams, Client, Reply, Ship, ShipType}
use netrek_server.Dock.{Trig, orbit}
use netrek_server.Helm.{
  set_speed, set_course, shield_up, shield_down, repair, repair_off, cloak, cloak_on, cloak_off,
}
use netrek_server.Task.{bomb_planet, beam_up, beam_down}
use netrek_server.Lock.{lock_planet, lock_player, tractor_player, pressor_player}
use netrek_server.War.{declare_war}
use netrek_server.Coup.{coup}
use netrek_server.Draft.{inl_draft_select}
use netrek_server.Torp.{Arms, Cost, Attributes, Rules, ntorp, nplasmatorp}
use netrek_server.Detonate.{detothers}

pub data Command : Type 0 where
  speed : ℤ → Command
  course : ℕ → Command
  raise_shields lower_shields start_repair stop_repair : Command
  toggle_cloak start_cloak stop_cloak bomb_it take_armies drop_armies go_orbit : Command
  lock_on_planet : ℤ → Command
  lock_on_player : ℤ → Command
  tractor : ℤ → Command
  pressor : ℤ → Command
  war : Teams → Bool → Command
  rebel det_enemy : Command
  fire_torp : Cost → ℕ → ℕ → Attributes → Command
  fire_plasma : ℕ → Attributes → Command

-- A command that leaves the torpedoes alone.
abbrev pub on_client : (Client → Client × Reply) → Arms → Arms × Reply
on_client f a = let r = f a.client in (record a { client = r.0 }, r.1)

module _ (trig : Trig) (sborbit : Bool) (shipvals : ShipType → Ship) (speed_of : ℕ → ℕ → ℕ → ℕ → ℕ)
    (rules : Rules) where
  unfoldable pub exec : Command → Arms → Arms × Reply
  exec (speed n) a = on_client (set_speed n) a
  exec (course d) a = on_client (set_course d) a
  exec raise_shields a = on_client shield_up a
  exec lower_shields a = on_client shield_down a
  exec start_repair a = on_client repair a
  exec stop_repair a = on_client repair_off a
  exec toggle_cloak a = on_client cloak a
  exec start_cloak a = on_client cloak_on a
  exec stop_cloak a = on_client cloak_off a
  exec bomb_it a = on_client bomb_planet a
  exec take_armies a = on_client beam_up a
  exec drop_armies a = on_client beam_down a
  exec go_orbit a = on_client (orbit trig sborbit) a
  exec (lock_on_planet n) a = on_client (lock_planet n) a
  exec (lock_on_player n) a = on_client (lock_player (inl_draft_select shipvals) n) a
  exec (tractor n) a = on_client (tractor_player n) a
  exec (pressor n) a = on_client (pressor_player n) a
  exec (war m d) a = on_client (declare_war m d) a
  exec rebel a = on_client coup a
  exec det_enemy a = detothers a
  exec (fire_torp k rnd d attributes) a = ntorp speed_of rules k rnd d attributes a
  exec (fire_plasma d attributes) a = nplasmatorp speed_of rules d attributes a

  unfoldable pub run : List Command → Arms → Arms
  run [] a = a
  run (x ∷ xs) a = run xs (exec x a).0
