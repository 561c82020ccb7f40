-- ===== src/Game/Slots.antt =====
-- `struct player`. `p_flags` is a record with one Bool for each bit that the modelled code reads or
-- writes; an index that the source marks absent by -1 (VACANT) is an Option. `p_kills`, a float, is
-- held in hundredths. `p_shield` and `p_damage` are numbers: every piece of code that subtracts
-- from them clamps at zero before it returns.
use netrek_server.Base.{ℕ, ℤ, Bool, true, false, Option}
use netrek_server.Game.Masks.{Teams}
use netrek_server.Game.Ships.{Ship}

-- values of `p_status`
pub data Status : Type 0 where
  free outfit alive explode dead observ : Status

abbrev pub is_free : Status → Bool
is_free free = true
is_free _ = false

abbrev pub is_alive : Status → Bool
is_alive alive = true
is_alive _ = false

-- values of `p_whydead`
pub data WhyDead : Type 0 where
  login quit by_torp by_phaser by_planet by_ship by_daemon by_winner ghost : WhyDead
  genocide providence by_plasma tourn_end over tourn_start bad_binary : WhyDead
  by_torp2 by_ship2 by_plasma2 : WhyDead

-- values of `p_inl_draft`
pub data Draft : Type 0 where
  off moving_to_pool captain_up captain_down pooled moving_to_pick picked : Draft
  picked_selector moving_to_home draft_end : Draft

abbrev pub is_off : Draft → Bool
is_off off = true
is_off _ = false

abbrev pub is_moving : Draft → Bool
is_moving moving_to_pool = true
is_moving moving_to_pick = true
is_moving _ = false

-- bits of `p_flags`
pub record Flags : Type 0 where
  pub shield : Bool
  pub repair : Bool
  pub bomb : Bool
  pub orbit : Bool
  pub cloak : Bool
  pub wep : Bool
  pub eng : Bool
  pub robot : Bool
  pub beamup : Bool
  pub beamdown : Bool
  pub selfdest : Bool
  pub green : Bool
  pub yellow : Bool
  pub red : Bool
  pub plock : Bool
  pub pllock : Bool
  pub war : Bool
  pub dock : Bool
  pub refitting : Bool
  pub tract : Bool
  pub press : Bool
  pub dockok : Bool
  pub observer : Bool
  pub twarp : Bool
  pub bprobot : Bool
  pub practr : Bool

-- `p_flags = 0`
abbrev pub no_flags : Flags
no_flags = record {
  shield = false;
  repair = false;
  bomb = false;
  orbit = false;
  cloak = false;
  wep = false;
  eng = false;
  robot = false;
  beamup = false;
  beamdown = false;
  selfdest = false;
  green = false;
  yellow = false;
  red = false;
  plock = false;
  pllock = false;
  war = false;
  dock = false;
  refitting = false;
  tract = false;
  press = false;
  dockok = false;
  observer = false;
  twarp = false;
  bprobot = false;
  practr = false;
}

pub record Player : Type 0 where
  pub p_no : ℕ
  pub p_updates : ℕ
  pub p_status : Status
  pub p_flags : Flags
  pub p_ship : Ship
  pub p_x : ℤ
  pub p_y : ℤ
  pub p_x_internal : ℤ
  pub p_y_internal : ℤ
  pub p_dir : ℕ
  pub p_desdir : ℕ
  pub p_subdir : ℕ
  pub p_subspeed : ℤ
  pub p_speed : ℕ
  pub p_desspeed : ℤ
  pub p_team : Teams
  pub p_damage : ℕ
  pub p_subdamage : ℕ
  pub p_shield : ℕ
  pub p_subshield : ℕ
  pub p_cloakphase : ℕ
  pub p_ntorp : ℤ
  pub p_nplasmatorp : ℤ
  pub p_hostile : Teams
  pub p_swar : Teams
  pub p_war : Teams
  pub p_kills : ℕ
  pub p_planet : ℕ
  pub p_playerl : ℕ
  pub p_armies : ℕ
  pub p_fuel : ℤ
  pub p_explode : ℤ
  pub p_selfdest : ℕ
  pub p_etemp : ℤ
  pub p_etime : ℤ
  pub p_wtemp : ℤ
  pub p_wtime : ℤ
  pub p_whydead : WhyDead
  pub p_whodead : ℕ
  pub p_genoplanets : ℕ
  pub p_genoarmsbomb : ℕ
  pub p_planets : ℕ
  pub p_armsbomb : ℕ
  pub p_ghostbuster : ℕ
  pub p_bays : ℕ → Option ℕ
  pub p_dock_with : ℕ
  pub p_dock_bay : ℕ
  pub p_tractor : ℕ
  pub p_pos : Option ℕ
  pub w_queue : ℕ
  pub p_process : ℕ
  pub p_candock : Bool
  pub p_repair_time : ℕ
  pub p_inl_draft : Draft
  pub p_inl_captain : Bool
  pub p_inl_pick : ℕ
  pub p_sub_in : Bool
  pub p_sub_in_for : Option ℕ
  pub p_sub_out : Bool
  pub p_sub_out_for : Option ℕ
  pub p_no_pick : Bool
