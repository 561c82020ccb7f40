-- ===== src/Bombard.antt =====
-- Planets and the ships around them: `plfight` and `pldamageplayer` of ntserv/daemon.c. The robots
-- that `plrescue` sends, messages and statistics are left out.
pub mod Armies
pub mod Hulls
use netrek_server.Base.{
  ℕ, ◌+◌, ◌-◌, ◌*◌, ◌/◌, ◌%◌, Bool, true, false, not, ◌&&◌, ◌||◌, ℤ, pos, pos_part, ◌+ℤ◌, ◌-ℤ◌,
  ltb_ℤ, leb_ℤ, abs_ℤ, ltb, leb, ◌==◌, if◌then◌else◌, put, loop, sweep,
}
use netrek_server.Game.{
  Player, Planet, Game, Teams, set_player, set_planet, same, meets, join, is_alive, is_assault,
  by_planet, max_player, max_planets,
}
use netrek_server.Conquest.{p_explosion}
use netrek_server.Blast.{inflict, is_destroyed, on_ship, square}

-- The game with `pl_warning`.
pub record Front : Type 0 where
  pub game : Game
  pub pl_warning : ℕ → ℕ

-- A planet in the first loop: a coup gives it back to its original team.
unfoldable pub overthrown : Planet → Planet
overthrown l =
    let q =
      if l.pl_coup
      then record l { pl_coup = false; pl_owner = l.origin; pl_armies = pos 4 }
      else l in
    record q { pl_redraw = false }

abbrev pub pfire_dist : ℕ
pfire_dist = 1500

abbrev pub in_redraw : Player → Planet → Bool
in_redraw p l =
    ltb (abs_ℤ (l.pl_x -ℤ p.p_x)) (3 * pfire_dist) && ltb (abs_ℤ (l.pl_y -ℤ p.p_y)) (3 * pfire_dist)

unfoldable pub in_fire : Player → Planet → Bool
in_fire p l =
    leb (abs_ℤ (l.pl_x -ℤ p.p_x)) pfire_dist
    && leb (abs_ℤ (l.pl_y -ℤ p.p_y)) pfire_dist
    && leb (square (l.pl_x -ℤ p.p_x) + square (l.pl_y -ℤ p.p_y)) (pfire_dist * pfire_dist)

abbrev pub no_armies : Planet → Bool
no_armies l = leb_ℤ l.pl_armies (pos 0) && leb_ℤ (pos 0) l.pl_armies

abbrev pub redrawn : Planet → Planet
redrawn l = record l { pl_redraw = true }

-- The damage of a planet with a number of armies that is not negative.
unfoldable pub planet_hits : ℕ → ℕ → Game → Game
unfolding inflict p_explosion
planet_hits j h g =
    let l = g.planets h in
    let hit = on_ship j (inflict (pos_part l.pl_armies / 10 + 2)) g in
    if is_destroyed (hit.players j) then on_ship j (p_explosion by_planet l.pl_no) hit else hit

-- A planet in view of the ship is drawn anew.
unfoldable pub seen : ℕ → ℕ → Game → Game
seen j h g =
    if in_redraw (g.players j) (g.planets h) then set_planet h (redrawn (g.planets h)) g else g

-- The body of the loop of `pldamageplayer` over the planets.
unfoldable pub planet_fires : ℕ → ℕ → Game → Game
unfolding in_fire planet_hits seen
planet_fires j h g =
    let p = g.players j in
    let l = g.planets h in
    if not (meets p.p_war l.pl_owner)
    then g
    else if no_armies l
    then g
    else if in_fire p l
    then planet_hits j h (seen j h g)
    else seen j h g

unfoldable pub pldamageplayer : ℕ → Game → Game
unfolding planet_fires loop
pldamageplayer j g = loop max_planets 0 (planet_fires j) g

-- Armies that a run destroys, by what `random()` returns; `none` of them below 50.
unfoldable pub bombs : ℕ → Bool → ℕ
bombs draw is_assault =
    let rnd = draw % 100 in
    if ltb rnd 50
    then 0
    else (if ltb rnd 80 then 1 else if ltb rnd 90 then 2 else 3) + (if is_assault then 1 else 0)

-- The tests before a run.
unfoldable pub may_bomb : Player → Planet → Bool
may_bomb p l =
    p.p_flags.orbit
    && p.p_flags.bomb
    && not (same p.p_team l.pl_owner)
    && meets p.p_war l.pl_owner
    && leb_ℤ (pos 5) l.pl_armies

abbrev pub go_to_war : Teams → Player → Player
go_to_war owner p = record p { p_swar = join p.p_swar owner }

abbrev pub bombing_credit : ℕ → Player → Player
bombing_credit ab p = record p {
  p_kills = p.p_kills + 2 * ab;
  p_armsbomb = p.p_armsbomb + ab;
  p_genoarmsbomb = p.p_genoarmsbomb + ab;
}

unfoldable pub bombed : ℕ → Planet → Planet
bombed ab l = record l {
  pl_armies = l.pl_armies -ℤ pos ab;
  pl_redraw = l.pl_redraw || ltb_ℤ (l.pl_armies -ℤ pos ab) (pos 5);
}

unfoldable pub bomb_run : ℕ → ℕ → Game → Game
unfolding bombs bombed
bomb_run draw j g =
    let p = g.players j in
    let ab = bombs draw (is_assault p.p_ship.s_type) in
    let war = on_ship j (go_to_war (g.planets p.p_planet).pl_owner) g in
    if ab == 0
    then war
    else set_planet p.p_planet (bombed ab (g.planets p.p_planet))
        (on_ship j (bombing_credit ab) war)

-- 50 / PLFIGHTFUSE
abbrev pub warn : ℕ → (ℕ → ℕ) → ℕ → ℕ
warn h w = if w h == 0 then put w h 10 else w

-- One player's turn in the second loop. The status is read before the planets fire only: a ship that
-- they destroy still bombs in this turn.
unfoldable pub fight_turn : (ℕ → ℕ) → ℕ → Front → Front
unfolding pldamageplayer may_bomb bomb_run
fight_turn draws j f =
    let g = pldamageplayer j f.game in
    let p = g.players j in
    if not (is_alive (f.game.players j).p_status)
    then f
    else if may_bomb p (g.planets p.p_planet)
    then record { game = bomb_run (draws j) j g; pl_warning = warn p.p_planet f.pl_warning }
    else record f { game = g }

unfoldable pub plfight : (ℕ → ℕ) → Front → Front
unfolding overthrown fight_turn sweep loop
plfight draws f = loop max_player 0 (fight_turn draws) (record {
  game = record (f.game) { planets = sweep max_planets 0 (λ h. overthrown) f.game.planets };
  pl_warning = sweep max_planets 0 (λ h w. w - 1) f.pl_warning;
})
