-- ===== src/Upkeep.antt =====
-- What the daemon does to each living ship at every update: the `udplayers_palive_*` functions of
-- ntserv/daemon.c for fuel, heat and repair, `changedir`, and `udcloak`. PLAYERFUSE is 1. The
-- statistics of repairs are not modelled.
pub mod Fuel
pub mod Turn
pub mod Phase
pub mod Mend
use netrek_server.Base.{
  ℕ, zero, suc, ◌+◌, ◌-◌, ◌*◌, ◌/◌, ◌%◌, ◌^◌, max, Bool, true, false, not, ◌&&◌, ◌||◌, ◌==◌, ltb, ℤ,
  pos, negsuc, ◌+ℤ◌, ◌-ℤ◌, ltb_ℤ, leb_ℤ, if◌then◌else◌, loop,
}
use netrek_server.Game.{
  Player, Flags, Game, Ship, ShipType, scout, destroyer, cruiser, battleship, assault, starbase,
  is_alive, set_player, meets, max_player,
}

-- The charge for shields, by type of ship.
abbrev pub shield_cost : ShipType → ℤ
shield_cost scout = pos 2
shield_cost destroyer = pos 3
shield_cost cruiser = pos 3
shield_cost battleship = pos 3
shield_cost assault = pos 3
shield_cost starbase = pos 6
shield_cost _ = pos 0

unfoldable pub fuel_shields : Player → Player
fuel_shields p =
    if p.p_flags.shield then record p { p_fuel = p.p_fuel -ℤ shield_cost p.p_ship.s_type } else p

abbrev pub cooled : ℤ → ℕ → ℤ
cooled temp rate = let t = temp -ℤ pos rate in if ltb_ℤ t (pos 0) then pos 0 else t

-- `chance` and `span` are what the two calls of `random()` return.
unfoldable pub cool_weapons : ℕ → ℕ → Player → Player
cool_weapons chance span p =
    let q = record p { p_wtemp = cooled p.p_wtemp p.p_ship.s_wpncoolrate } in
    let left = p.p_wtime -ℤ pos 1 in
    if p.p_flags.wep
    then record q {
      p_wtime = left;
      p_flags = (if leb_ℤ left (pos 0) then record (p.p_flags) { wep = false } else p.p_flags);
    }
    else if ltb_ℤ (pos p.p_ship.s_maxwpntemp) q.p_wtemp && chance % 40 == 0
    then record q { p_flags = record (p.p_flags) { wep = true }; p_wtime = pos (span % 150 + 100) }
    else q

unfoldable pub cool_engines : ℕ → ℕ → Player → Player
cool_engines chance span p =
    let q = record p { p_etemp = cooled p.p_etemp p.p_ship.s_egncoolrate } in
    let left = p.p_etime -ℤ pos 1 in
    if p.p_flags.eng
    then record q {
      p_etime = left;
      p_flags = (if leb_ℤ left (pos 0) then record (p.p_flags) { eng = false } else p.p_flags);
    }
    else if ltb_ℤ (pos p.p_ship.s_maxegntemp) q.p_etemp && chance % 40 == 0
    then record q {
      p_flags = record (p.p_flags) { eng = true };
      p_etime = pos (span % 150 + 100);
      p_desspeed = pos 0;
    }
    else q

unfoldable pub fuel_cloak : Player → Player
fuel_cloak p =
    let cost = pos p.p_ship.s_cloakcost in
    if p.p_flags.cloak
    then (if ltb_ℤ p.p_fuel cost
        then record p { p_flags = record (p.p_flags) { cloak = false } }
        else record p { p_fuel = p.p_fuel -ℤ cost })
    else p

abbrev pub sb_fuel_min : ℤ
sb_fuel_min = pos 10000

-- What a docked ship takes over from its base.
unfoldable pub fuel_from_base : Player → Player → ℤ
fuel_from_base ship base =
    let room = pos ship.p_ship.s_maxfuel -ℤ ship.p_fuel in
    let rate = pos (10 * ship.p_ship.s_recharge) in
    if ship.p_flags.dock
      && ltb_ℤ ship.p_fuel (pos ship.p_ship.s_maxfuel)
      && ltb_ℤ sb_fuel_min base.p_fuel
    then (if ltb_ℤ rate room then rate else room)
    else pos 0

abbrev pub at_fuel_planet : Game → Player → Bool
at_fuel_planet g p =
    p.p_flags.orbit
    && (g.planets p.p_planet).pl_fuel
    && not (meets (g.planets p.p_planet).pl_owner p.p_war)

-- The last tests: no more than the tank holds, and none at all stops the ship.
unfoldable pub top_off : Player → Player
top_off p =
    let top = pos p.p_ship.s_maxfuel in if ltb_ℤ top p.p_fuel then record p { p_fuel = top } else p

unfoldable pub stop_dry : Player → Player
stop_dry p =
    if ltb_ℤ p.p_fuel (pos 0)
    then record p { p_desspeed = pos 0; p_flags = record (p.p_flags) { cloak = false } }
    else p

abbrev pub settle_fuel : Player → Player
settle_fuel p = stop_dry (top_off p)

-- The ship in slot `j`.
unfoldable pub make_fuel : ℕ → Game → Game
unfolding fuel_from_base
make_fuel j g =
    let p = g.players j in
    let ship = record p { p_fuel = p.p_fuel +ℤ pos (2 * p.p_ship.s_recharge) } in
    let base = g.players p.p_dock_with in
    let fc = fuel_from_base ship base in
    if at_fuel_planet g p
    then set_player j
        (settle_fuel (record ship { p_fuel = ship.p_fuel +ℤ pos (6 * p.p_ship.s_recharge) })) g
    else set_player j (settle_fuel (record ship { p_fuel = ship.p_fuel +ℤ fc }))
        (set_player p.p_dock_with (record base { p_fuel = base.p_fuel -ℤ fc }) g)

-- How much faster a ship mends at rest, over a repair planet, or docked, in units of its rate.
abbrev pub mend_rate : (rest planet docked away : ℕ) → Game → Player → ℕ
mend_rate rest planet docked away g p =
    if p.p_flags.repair && p.p_speed == 0
    then rest
      + (if p.p_flags.orbit
            && (g.planets p.p_planet).pl_repair
            && not (meets (g.planets p.p_planet).pl_owner p.p_war)
          then planet
          else 0)
      + (if p.p_flags.dock then docked else 0)
    else away

-- The shields' half of the repair; the number is `repair_time`, 0 if nothing is to repair.
unfoldable pub repair_shield : Game → Player → ℕ × Player
repair_shield g p =
    let top = p.p_ship.s_maxshield in
    let gained = p.p_ship.s_repair * mend_rate 4 4 6 2 g p in
    let sub = p.p_subshield + gained in
    let time = (top - p.p_shield) * 100 / gained in
    let up = p.p_shield + sub / 1000 in
    if ltb p.p_shield top
    then (
      time,
      record p {
        p_repair_time = time;
        p_shield = (if ltb top up then top else up);
        p_subshield = (if ltb top up then 0 else sub % 1000);
      },
    )
    else (0, p)

-- The hull's half.
unfoldable pub repair_hull : ℕ → Game → Player → Player
repair_hull repair_time g p =
    let gained = p.p_ship.s_repair * mend_rate 2 2 3 1 g p in
    let sub = p.p_subdamage + gained in
    let time = p.p_damage * 100 / gained in
    let done = sub / 1000 in
    if not (p.p_damage == 0) && not p.p_flags.shield
    then record p {
      p_repair_time = (if p.p_shield == p.p_ship.s_maxshield then time else max repair_time time);
      p_damage = (if ltb p.p_damage done then 0 else p.p_damage - done);
      p_subdamage = (if ltb p.p_damage done then 0 else sub % 1000);
    }
    else p

unfoldable pub repair_ship : Game → Player → Player
unfolding repair_shield repair_hull
repair_ship g p = repair_hull (repair_shield g p).0 g (repair_shield g p).1

-- `changedir`: what is added to `p_subdir`, with `newturn` or without.
unfoldable pub turn_gain : Bool → Player → ℕ
turn_gain newturn p =
    let s = p.p_speed in
    if newturn
    then p.p_ship.s_turns / (s * s)
    else p.p_ship.s_turns / (if ltb s 30 then 2 ^ s else 1000000000)

-- The new direction after `ticks`, of two directions below 256.
unfoldable pub turned : ℕ → ℕ → ℕ → ℕ
turned ticks dir desdir =
    let lo = if ltb desdir dir then desdir else dir in
    let hi = if ltb desdir dir then dir else desdir in
    if ltb (hi - lo) ticks || ltb (256 - hi + lo) ticks
    then desdir
    else if ltb 127 ((dir + 256 - desdir) % 256)
    then (dir + ticks) % 256
    else (dir + 256 - ticks) % 256

unfoldable pub changedir : Bool → Player → Player
unfolding turn_gain turned
changedir newturn p =
    let sub = p.p_subdir + turn_gain newturn p in
    if p.p_speed == 0
    then record p { p_dir = p.p_desdir; p_subdir = 0 }
    else if sub / 1000 == 0
    then record p { p_subdir = sub }
    else record p { p_dir = turned (sub / 1000) p.p_dir p.p_desdir; p_subdir = sub % 1000 }

abbrev pub cloak_phases : ℕ
cloak_phases = 12

-- The body of the loop of `udcloak`.
unfoldable pub cloak_round : Player → Player
cloak_round p =
    if not (is_alive p.p_status)
    then p
    else if p.p_flags.cloak && ltb p.p_cloakphase (cloak_phases - 1)
    then record p { p_cloakphase = p.p_cloakphase + 1 }
    else if not p.p_flags.cloak && ltb 0 p.p_cloakphase
    then record p { p_cloakphase = p.p_cloakphase - 1 }
    else p

unfoldable pub udcloak : Game → Game
unfolding loop cloak_round
udcloak g = loop max_player 0 (λ i h. set_player i (cloak_round (h.players i)) h) g
