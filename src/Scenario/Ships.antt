-- ===== src/Scenario/Ships.antt =====
-- Concrete ships and fleets, for the tests of the commands and of the daemon.
use netrek_server.Base.{ℕ, ◌==◌, true, false, none, some, pos, put, if◌then◌else◌}
use netrek_server.Game.{
  Ship, ShipType, cruiser, starbase, Player, Flags, no_flags, alive, fed, rom, only, nobody, login,
  off,
}
use netrek_server.Dock.{Trig}

abbrev pub trig : Trig
trig = record { cos_from = λ x dist dir. x; sin_from = λ y dist dir. y; to_dir = λ x y a b. 0 }

abbrev hull : ShipType → Ship
hull t = record {
  s_type = t;
  s_turns = 170000;
  s_torpdamage = 40;
  s_torpspeed = 12;
  s_torpfuse = 40;
  s_torpturns = 0;
  s_plasmadamage = 100;
  s_plasmaspeed = 15;
  s_plasmafuse = 30;
  s_plasmaturns = 1;
  s_maxspeed = 9;
  s_repair = 110;
  s_maxfuel = 10000;
  s_torpcost = 280;
  s_detcost = 100;
  s_plasmacost = pos 2100;
  s_warpcost = 4;
  s_cloakcost = 26;
  s_recharge = 12;
  s_accint = 150;
  s_decint = 200;
  s_maxshield = 100;
  s_maxdamage = 100;
  s_maxegntemp = 1000;
  s_maxwpntemp = 1000;
  s_egncoolrate = 7;
  s_wpncoolrate = 2;
  s_maxarmies = 10;
  s_tractrng = 10;
}

abbrev pub ship_at : ShipType → Flags → ℕ → Player
ship_at t f s = record {
  p_no = s;
  p_updates = 100;
  p_status = alive;
  p_flags = f;
  p_ship = hull t;
  p_x = pos 50000;
  p_y = pos 50000;
  p_x_internal = pos 12800000;
  p_y_internal = pos 12800000;
  p_dir = 0;
  p_desdir = 0;
  p_subdir = 0;
  p_subspeed = pos 0;
  p_speed = 0;
  p_desspeed = pos 0;
  p_team = only fed;
  p_damage = 0;
  p_subdamage = 0;
  p_shield = 100;
  p_subshield = 0;
  p_cloakphase = 0;
  p_ntorp = pos 0;
  p_nplasmatorp = pos 0;
  p_hostile = only rom;
  p_swar = nobody;
  p_war = only rom;
  p_kills = 250;
  p_planet = 0;
  p_playerl = 0;
  p_armies = 0;
  p_fuel = pos 9000;
  p_explode = pos 0;
  p_selfdest = 0;
  p_etemp = pos 0;
  p_etime = pos 0;
  p_wtemp = pos 0;
  p_wtime = pos 0;
  p_whydead = login;
  p_whodead = 0;
  p_genoplanets = 0;
  p_genoarmsbomb = 0;
  p_planets = 0;
  p_armsbomb = 0;
  p_ghostbuster = 0;
  p_bays = λ i. none;
  p_dock_with = 0;
  p_dock_bay = 0;
  p_tractor = 0;
  p_pos = none;
  w_queue = 0;
  p_process = 1;
  p_candock = true;
  p_repair_time = 0;
  p_inl_draft = off;
  p_sub_in = false;
  p_sub_in_for = none;
  p_sub_out = false;
  p_sub_out_for = none;
  p_no_pick = false;
  p_inl_captain = false;
  p_inl_pick = 0;
}

-- Every slot holds a cruiser, but for the starbase in slot 1.
abbrev pub base_flags : Flags
base_flags = record no_flags { dockok = true }

abbrev pub fleet : ℕ → Player
fleet = put (ship_at cruiser no_flags) 1 (ship_at starbase base_flags 1)

-- The same fleet with ship 2 in bay 3 of the starbase.
abbrev moored_ship : Player
moored_ship = record (ship_at cruiser (record no_flags { dock = true }) 2) {
  p_dock_with = 1;
  p_dock_bay = 3;
}

abbrev holding_base : Player
holding_base = record (ship_at starbase base_flags 1) {
  p_fuel = pos 40000;
  p_bays = λ i. if i == 3 then some 2 else none;
}

abbrev pub moored_fleet : ℕ → Player
moored_fleet s =
    if s == 1 then holding_base else if s == 2 then moored_ship else ship_at cruiser no_flags s
