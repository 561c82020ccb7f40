-- ===== src/Drive.antt =====
-- What moves a ship in `udplayers` of ntserv/daemon.c: `udplayers_palive_move_in_orbit` and
-- `udplayers_palive_move_in_space`, the tractor beam, and the alert. The moves of `udships` between
-- two updates are left out.
use netrek_server.Base.{
  ℕ, ◌+◌, ◌*◌, ◌/◌, ◌%◌, Bool, true, false, not, ◌&&◌, ◌||◌, none, some, ℤ, pos, negsuc, pos_part,
  ◌-ℤ◌, ◌+ℤ◌, ltb_ℤ, ltb, abs_ℤ, ◌==◌, if◌then◌else◌, loop,
}
use netrek_server.Game.{
  Player, Flags, Planet, Game, meets, max_player, num_bays, Status, explode, is_alive, is_starbase,
}
use netrek_server.Torp.{spi}
use netrek_server.Lock.{in_tractor_range}
use netrek_server.Blast.{is_idle, on_ship, spo, square}
use netrek_server.Upkeep.{changedir}

-- What the source reckons in floating point: the internal coordinates on an orbit, for a planet's
-- coordinate and a direction; the top speed of a damaged ship; the engine heat of a base with so many
-- docked ships' speed; and where a beam takes a coordinate of the ship and of its target, for a
-- tractor or a pressor. `newturn` is the sysdef option.
pub record Engine : Type 0 where
  pub newturn : Bool
  pub orbit_x : ℤ → ℕ → ℤ
  pub orbit_y : ℤ → ℕ → ℤ
  pub top_speed : Player → ℤ
  pub base_heat : ℤ → ℕ → ℤ
  pub pull_x : Bool → Player → Player → ℤ
  pub pull_y : Bool → Player → Player → ℤ
  pub drag_x : Bool → Player → Player → ℤ
  pub drag_y : Bool → Player → Player → ℤ

unfoldable pub move_in_orbit : Engine → Planet → Player → Player
unfolding spo
move_in_orbit e l p =
    let dir = (p.p_dir + 2) % 256 in
    let x = e.orbit_x l.pl_x ((dir + 192) % 256) in
    let y = e.orbit_y l.pl_y ((dir + 192) % 256) in
    record p {
      p_dir = dir;
      p_desdir = dir;
      p_x_internal = x;
      p_y_internal = y;
      p_x = spo x;
      p_y = spo y;
    }

abbrev is_exploding : Status → Bool
is_exploding explode = true
is_exploding _ = false

unfoldable pub steer : Engine → Player → Player
unfolding changedir
steer e p =
    if not (p.p_dir == p.p_desdir) && not (is_exploding p.p_status)
    then changedir e.newturn p
    else p

-- The speed that the damage and hot engines allow.
unfoldable pub limit_speed : Engine → Player → Player
limit_speed e p =
    let top = e.top_speed p in
    let q = if ltb_ℤ top p.p_desspeed then record p { p_desspeed = top } else p in
    if p.p_flags.eng then record q { p_desspeed = pos 1 } else q

-- A ship without the fuel for its speed.
unfoldable pub run_dry : Player → Player
run_dry p =
    let idle = p.p_ship.s_recharge / p.p_ship.s_warpcost in
    let want =
      if ltb idle p.p_speed
      then (if ltb p.p_ship.s_maxspeed (idle + 2)
          then pos p.p_ship.s_maxspeed -ℤ pos 1
          else pos (idle + 2))
      else pos p.p_speed in
    record p { p_desspeed = want; p_fuel = pos 0 }

-- The ship in bay `k` adds to what the base pays for its speed; the number is `bays`.
unfoldable pub tow : (ℕ → Player) → Player → ℕ → ℕ × ℤ → ℕ × ℤ
tow ps p k x = elim (p.p_bays k) as (λ o. ℕ × ℤ) [
  | none ↦ x
  | some s ↦ (x.0 + 1, x.1 -ℤ pos ((ps s).p_ship.s_warpcost * p.p_speed))
]

unfoldable pub pay_speed : Engine → (ℕ → Player) → Player → Player
unfolding tow loop
pay_speed e ps p =
    let fuel = p.p_fuel -ℤ pos (p.p_ship.s_warpcost * p.p_speed) in
    let etemp = p.p_etemp +ℤ pos p.p_speed in
    let towed = loop num_bays 0 (tow ps p) (0, fuel) in
    if is_starbase p.p_ship.s_type
    then record p { p_fuel = towed.1; p_etemp = e.base_heat etemp (p.p_speed * towed.0) }
    else record p { p_fuel = fuel; p_etemp = etemp }

unfoldable pub charge_speed : Engine → (ℕ → Player) → Player → Player
unfolding run_dry pay_speed
charge_speed e ps p =
    if ltb_ℤ p.p_fuel (pos (p.p_ship.s_warpcost * p.p_speed)) then run_dry p else pay_speed e ps p

-- C's division and remainder by 1000.
abbrev pub thousands : ℤ → ℤ
thousands (pos n) = pos (n / 1000)
thousands (negsuc n) = pos 0 -ℤ pos ((n + 1) / 1000)

abbrev pub left_over : ℤ → ℤ
left_over (pos n) = pos (n % 1000)
left_over (negsuc n) = pos 0 -ℤ pos ((n + 1) % 1000)

abbrev is_nonzero : ℤ → Bool
is_nonzero z = ltb_ℤ z (pos 0) || ltb_ℤ (pos 0) z

unfoldable pub throttle : Player → Player
throttle p =
    let up =
      if ltb_ℤ (pos p.p_speed) p.p_desspeed
      then p.p_subspeed +ℤ pos p.p_ship.s_accint
      else p.p_subspeed in
    let sub = if ltb_ℤ p.p_desspeed (pos p.p_speed) then up -ℤ pos p.p_ship.s_decint else up in
    let speed = pos_part (pos p.p_speed +ℤ thousands sub) in
    if is_nonzero (thousands sub)
    then record p {
      p_speed = (if ltb p.p_ship.s_maxspeed speed then p.p_ship.s_maxspeed else speed);
      p_subspeed = left_over sub;
    }
    else record p { p_subspeed = sub }

unfoldable pub move_in_space : Engine → (ℕ → Player) → Player → Player
unfolding steer limit_speed charge_speed throttle
move_in_space e ps p =
    let q = steer e p in
    if q.p_flags.twarp then q else throttle (charge_speed e ps (limit_speed e q))

-- The first part of `udplayers_palive`; a docked ship stays.
unfoldable pub move_ship : Engine → ℕ → Game → Game
unfolding move_in_orbit move_in_space
move_ship e i g =
    let p = g.players i in
    if p.p_flags.orbit && not p.p_flags.dock
    then on_ship i (move_in_orbit e (g.planets p.p_planet)) g
    else if not p.p_flags.dock
    then on_ship i (move_in_space e g.players) g
    else g

abbrev pub put_at : ℤ → ℤ → Player → Player
put_at x y p = record p { p_x = x; p_y = y; p_x_internal = spi x; p_y_internal = spi y }

-- TRACTCOST and TRACTEHEAT
abbrev pub hauling : Player → Player
hauling p = record p { p_fuel = p.p_fuel -ℤ pos 20; p_etemp = p.p_etemp +ℤ pos 5 }

unfoldable pub holds : Game → ℕ → Bool
unfolding in_tractor_range
holds g i =
    let p = g.players i in
    let q = g.players p.p_tractor in
    is_alive q.p_status
    && (ltb_ℤ (pos 20) p.p_fuel && not p.p_flags.eng)
    && in_tractor_range p q
    && not (p.p_flags.orbit || p.p_flags.dock)
    && not q.p_flags.dock

-- The ship first, and then its target, from where the two were before.
unfoldable pub haul : Engine → ℕ → Game → Game
unfolding spi
haul e i g =
    let p = g.players i in
    let q = g.players p.p_tractor in
    let press = p.p_flags.press in
    let adrift =
      on_ship p.p_tractor (λ x. record x { p_flags = record (x.p_flags) { orbit = false } }) g in
    let moved =
      on_ship i (λ x. put_at (e.pull_x press p q) (e.pull_y press p q) (hauling x)) adrift in
    on_ship p.p_tractor (λ x. put_at (e.drag_x press p q) (e.drag_y press p q) x) moved

abbrev pub let_go : Player → Player
let_go p = record p { p_flags = record (p.p_flags) { tract = false; press = false } }

-- `udplayers_palive_tractor`
unfoldable pub pull : Engine → ℕ → Game → Game
unfolding holds haul
pull e i g =
    if not (g.players i).p_flags.tract
    then g
    else if holds g i
    then haul e i g
    else on_ship i let_go g

-- GWIDTH / 10 and GWIDTH / 7
abbrev pub red_range : ℕ
red_range = 10000

abbrev pub yellow_range : ℕ
yellow_range = 14285

abbrev pub go_green : Flags → Flags
go_green f = record f { green = true; red = false; yellow = false }

abbrev pub go_red : Flags → Flags
go_red f = record f { green = false; red = true; yellow = false }

abbrev pub go_yellow : Flags → Flags
go_yellow f = record f { green = false; red = false; yellow = true }

-- The alert that the distance of player `k` calls for.
unfoldable pub alarm : Bool → Game → ℕ → ℕ → Flags → Flags
unfolding is_idle
alarm safe_idle g i k f =
    let p = g.players i in
    let q = g.players k in
    let dx = p.p_x -ℤ q.p_x in
    let dy = p.p_y -ℤ q.p_y in
    let dist = square dx + square dy in
    if not (is_alive q.p_status)
      || not (meets p.p_war q.p_team) && not (meets q.p_war p.p_team)
      || is_idle safe_idle g q
      || i == k
      || ltb yellow_range (abs_ℤ dx)
      || ltb yellow_range (abs_ℤ dy)
    then f
    else if ltb dist (red_range * red_range)
    then go_red f
    else if ltb dist (yellow_range * yellow_range) && not f.red
    then go_yellow f
    else f

unfoldable pub set_alert : Bool → ℕ → Game → Game
unfolding alarm loop
set_alert safe_idle i g =
    on_ship i
      (λ p. record p { p_flags = loop max_player 0 (alarm safe_idle g i) (go_green p.p_flags) }) g
