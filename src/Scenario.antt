-- ===== src/Scenario.antt =====
-- Concrete ships, planets, queues and clients, which the examples run the code on.
mod Ships
pub use netrek_server.Scenario.Ships.{trig, ship_at, base_flags, fleet, moored_fleet}
use netrek_server.Base.{ℕ, ◌==◌, true, false, none, some, pos, put, if◌then◌else◌}
use netrek_server.Game.{
  Ship, ShipType, cruiser, starbase, Player, Flags, no_flags, alive, free, fed, rom, only, nobody,
  Planet, Config, Game, Client, login, off,
}
use netrek_server.Dock.{Trig}
use netrek_server.Slot.{Slots}
use netrek_server.Torp.{Torp, t_free, t_photon, Attributes, Rules, Cost, Arms}
use netrek_server.Queues.{queues_init, Waits}
use netrek_server.WaitQueue.{queue_add}

abbrev planet : ℕ → Planet
planet i = record {
  pl_no = i;
  origin = only rom;
  pl_repair = true;
  pl_fuel = false;
  pl_agri = false;
  pl_redraw = false;
  pl_home = false;
  pl_coup = false;
  pl_cheap = false;
  pl_owner = only rom;
  pl_x = pos 50100;
  pl_y = pos 50100;
  pl_armies = pos 20;
  pl_info = only fed;
  pl_couptime = 0;
}

abbrev config : Config
config = record {
  restrict_bomb = false;
  no_unwarring_bombing = false;
  restrict_3rd_drop = false;
  tractors_allowed = true;
  plasmas_allowed = true;
  chaosmode = false;
  tournplayers = 5;
  max_pop = 999;
  planet_plague = false;
  newturn = true;
}

abbrev pub game_of : (ℕ → Player) → Game
game_of ps = record {
  players = ps;
  planets = planet;
  tourn = true;
  paused = false;
  bot_in_game = false;
  pre_t_mode = false;
  conquer = false;
  quorum0 = only fed;
  quorum1 = only rom;
  inl_home_pick = 0;
  inl_away_pick = 0;
  config = config;
}

abbrev pub client_of : (ℕ → Player) → Client
client_of ps = record {
  me = 0;
  game = game_of ps;
  delay = 0;
  rdelay = 0;
  bombs_out_of_tmode = 0;
  is_observer = false;
  counters = record {
    set_speed = 0;
    set_course = 0;
    shield_up = 0;
    shield_down = 0;
    bombed = 0;
    beamed_up = 0;
    beamed_down = 0;
    repaired = 0;
  };
}

abbrev pub captain : Client
captain = client_of fleet

-- The same seat, in a ship that is at war with the starbase's team.
abbrev pub enemy : Client
enemy =
    client_of
      (put fleet 0 (record (ship_at cruiser no_flags 0) { p_war = only fed; p_team = only rom }))

abbrev pub empty_slots : Slots
empty_slots = record {
  players = λ s. record (ship_at cruiser no_flags s) { p_status = free };
  queues = queues_init.queues;
  observers = 0;
}

-- Every slot is taken.
abbrev pub full_slots : Slots
full_slots = record empty_slots { players = ship_at cruiser no_flags }

abbrev pub plain : Attributes
plain = record {
  t_wobble = false;
  t_vector = false;
  t_owner_safe = false;
  t_practice = false;
  t_owner_team_safe = false;
  t_detter_safe = false;
  t_det_team_safe = false;
}

abbrev spent_torp : Torp
spent_torp = record {
  t_status = t_free;
  t_type = t_photon;
  t_attribute = plain;
  t_owner = 0;
  t_x = pos 0;
  t_y = pos 0;
  t_x_internal = pos 0;
  t_y_internal = pos 0;
  t_turns = 0;
  t_damage = 0;
  t_gspeed = 0;
  t_fuse = 0;
  t_dir = 0;
  t_war = nobody;
  t_team = nobody;
  t_whodet = none;
}

abbrev pub rules : Rules
rules = record {
  chaosmode = false;
  plasmas_allowed = true;
  topgun = 0;
  asstorp_base = false;
  rear_heats = false;
  teacher_torps_none = false;
  teacher_torps_some = false;
  fuse_scale = 5;
}

abbrev pub torp_cost : Cost
torp_cost = record { c_fuel = pos 280; c_etemp = pos 0; c_wtemp = pos 18 }

abbrev pub gunner : Arms
gunner = record { client = captain; torps = λ i. spent_torp; last_torp_fired_update = 0 }

abbrev pub one_waiting : Waits
one_waiting = (queue_add 77 0 queues_init).1

abbrev pub two_waiting : Waits
two_waiting = (queue_add 78 0 one_waiting).1
