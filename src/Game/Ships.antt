-- ===== src/Game/Ships.antt =====
-- `struct ship`, and the ship types of include/defs.h. `s_tractrng`, a float, is held in tenths,
-- and the costs and bounds, which the ship tables give as numbers, as numbers.
use netrek_server.Base.{ℕ, ℤ, Bool, true, false}

pub data ShipType : Type 0 where
  scout destroyer cruiser battleship assault starbase sgalaxy att : ShipType

abbrev pub is_starbase : ShipType → Bool
is_starbase starbase = true
is_starbase _ = false

abbrev pub is_att : ShipType → Bool
is_att att = true
is_att _ = false

abbrev pub is_scout : ShipType → Bool
is_scout scout = true
is_scout _ = false

abbrev pub is_assault : ShipType → Bool
is_assault assault = true
is_assault _ = false

pub record Ship : Type 0 where
  pub s_type : ShipType
  pub s_turns : ℕ
  pub s_torpdamage : ℕ
  pub s_torpspeed : ℕ
  pub s_torpfuse : ℕ
  pub s_torpturns : ℕ
  pub s_plasmadamage : ℕ
  pub s_plasmaspeed : ℕ
  pub s_plasmafuse : ℕ
  pub s_plasmaturns : ℕ
  pub s_maxspeed : ℕ
  pub s_repair : ℕ
  pub s_maxfuel : ℕ
  pub s_torpcost : ℕ
  pub s_detcost : ℕ
  pub s_plasmacost : ℤ
  pub s_warpcost : ℕ
  pub s_cloakcost : ℕ
  pub s_recharge : ℕ
  pub s_accint : ℕ
  pub s_decint : ℕ
  pub s_maxshield : ℕ
  pub s_maxdamage : ℕ
  pub s_maxegntemp : ℕ
  pub s_maxwpntemp : ℕ
  pub s_egncoolrate : ℕ
  pub s_wpncoolrate : ℕ
  pub s_maxarmies : ℕ
  pub s_tractrng : ℕ
