-- ===== src/Alive.antt =====
-- One update of a living ship: `udplayers_palive` of ntserv/daemon.c, with the ghostbuster and self
-- destruction, which end it. An exploding ship is only moved. Statistics are left out.
pub mod Fate
use netrek_server.Base.{
  ℕ, ◌+◌, ◌*◌, ◌/◌, Bool, true, false, not, ◌&&◌, ◌||◌, Option, none, some, ◌-ℤ◌, ltb, leb, ◌==◌,
  if◌then◌else◌, loop,
}
use netrek_server.Game.{
  Player, Flags, Game, same, max_player, Status, explode, dead, observ, ghost, quit, is_alive,
}
use netrek_server.Conquest.{p_explosion}
use netrek_server.Blast.{on_ship, killer_credit, square}
use netrek_server.Upkeep.{
  fuel_shields, cool_weapons, cool_engines, fuel_cloak, make_fuel, repair_ship,
}
use netrek_server.Drive.{Engine, move_ship, pull, set_alert}

-- The settings: `ghostbust_timer`, `logintime`, AUTOQUIT, `starbase_rebuild_time`, the period UPDATE
-- in microseconds, and five seconds in frames.
pub record Delays : Type 0 where
  pub ghostbust_timer : ℕ
  pub logintime : ℕ
  pub autoquit : ℕ
  pub starbase_rebuild_time : ℕ
  pub update : ℕ
  pub five_seconds : ℕ

abbrev pub ghosttime : Delays → ℕ
ghosttime d = d.ghostbust_timer * 1000000 / d.update

-- The engine, what the calls of `random()` return, the sysdef option that credits an enemy with a self
-- destruction, and a whole square root.
pub record Drive : Type 0 where
  pub engine : Engine
  pub wep_chance : ℕ
  pub wep_span : ℕ
  pub eng_chance : ℕ
  pub eng_span : ℕ
  pub self_destruct_credit : Bool
  pub root : ℕ → ℕ

abbrev pub patience : Player → Player
patience p = record p { p_ghostbuster = p.p_ghostbuster + 1 }

-- `udplayers_palive_check_ghostbuster`
unfoldable pub check_ghostbuster : Delays → Player → Player
unfolding p_explosion
check_ghostbuster d p =
    let q = patience p in
    if ltb (ghosttime d) q.p_ghostbuster then p_explosion ghost p.p_no q else q

-- The nearest enemy so far, and its distance; GWIDTH is 100000.
unfoldable pub nearer : Drive → Game → ℕ → ℕ → ℕ × Option ℕ → ℕ × Option ℕ
nearer v g i k x =
    let p = g.players i in
    let q = g.players k in
    let dist = v.root (square (p.p_x -ℤ q.p_x) + square (p.p_y -ℤ q.p_y)) in
    if not (is_alive q.p_status) || same q.p_team p.p_team || ltb 25000 dist
    then x
    else if ltb dist x.0
    then (dist, some k)
    else x

unfoldable pub credit_enemy : Option ℕ → ℕ → Game → Game
unfolding killer_credit
credit_enemy none i g = g
credit_enemy (some k) i g = on_ship k (λ q. killer_credit q (g.players i)) g

-- `udplayers_palive_self_destruct_credit`
unfoldable pub credit_self_destruct : Drive → ℕ → Game → Game
unfolding nearer credit_enemy loop
credit_self_destruct v i g = credit_enemy (loop max_player 0 (nearer v g i) (200000, none)).1 i g

abbrev pub is_due : Player → Bool
is_due p =
    p.p_flags.selfdest
    && (leb p.p_selfdest p.p_updates
        || p.p_flags.green && (p.p_damage == 0) && (p.p_shield == p.p_ship.s_maxshield))

abbrev pub blow_up : Player → Player
blow_up p = p_explosion quit p.p_no (record p { p_flags = record (p.p_flags) { selfdest = false } })

-- `udplayers_palive_self_destruct`
unfoldable pub self_destruct : Drive → ℕ → Game → Game
unfolding p_explosion credit_self_destruct
self_destruct v i g =
    let ended = on_ship i blow_up g in
    if is_due (g.players i)
    then (if v.self_destruct_credit then credit_self_destruct v i ended else ended)
    else g

abbrev pub is_over : Status → Bool
is_over explode = true
is_over dead = true
is_over observ = true
is_over _ = false

-- The order of the calls for a ship that is not over.
unfoldable pub palive_systems : Delays → Bool → Drive → ℕ → Game → Game
unfolding check_ghostbuster fuel_shields pull cool_weapons cool_engines fuel_cloak make_fuel
    repair_ship set_alert self_destruct
palive_systems d safe_idle v i g =
    let checked = on_ship i (check_ghostbuster d) g in
    let counted = on_ship i (λ p. record p { p_updates = p.p_updates + 1 }) checked in
    let shielded = on_ship i fuel_shields counted in
    let pulled = pull v.engine i shielded in
    let cool = on_ship i (cool_weapons v.wep_chance v.wep_span) pulled in
    let cooler = on_ship i (cool_engines v.eng_chance v.eng_span) cool in
    let cloaked = on_ship i fuel_cloak cooler in
    let fuelled = make_fuel i cloaked in
    let mended = on_ship i (repair_ship fuelled) fuelled in
    self_destruct v i (set_alert safe_idle i mended)

unfoldable pub udplayers_palive : Delays → Bool → Drive → ℕ → Game → Game
unfolding move_ship palive_systems
udplayers_palive d safe_idle v i g =
    let moved = move_ship v.engine i g in
    if is_over (moved.players i).p_status then moved else palive_systems d safe_idle v i moved
