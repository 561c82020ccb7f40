-- ===== src/Bombard/Armies.antt =====
-- The armies of planets through `plfight` of ntserv/daemon.c.
use netrek_server.Base.{
  ℕ, ◌+◌, ◌-◌, ◌/◌, ◌≤◌, Bool, true, not, ◌&&◌, ◌≡◌, refl, sym, subst, pos, pos_part, ◌≤ℤ◌, ltb,
  leb, ◌==◌, if_both, if_cases, sweep, sweep_at, loop_inv, arith, -ℤ_parts,
}
use netrek_server.Game.{
  Player, Planet, Game, set_player, set_planet, max_player, max_planets, is_alive, is_assault,
  meets, by_planet,
}
use netrek_server.Conquest.{p_explosion}
use netrek_server.Blast.{inflict, is_destroyed, on_ship}
use netrek_server.Bombard.{
  Front, in_redraw, redrawn, seen, overthrown, in_fire, no_armies, planet_hits, planet_fires,
  pldamageplayer, bombs, may_bomb, go_to_war, bombing_credit, bombed, bomb_run, fight_turn, plfight,
}

-- No planet has a negative number of armies.
abbrev pub NotNegative : Planet → Type 0
NotNegative l = pos 0 ≤ℤ l.pl_armies

pub record IsManned (g : Game) : Type 0 where
  pub manned : (h : ℕ) → NotNegative (g.planets h)

IsManned-set :
    (h : ℕ) (l : Planet) (g : Game) → IsManned g → NotNegative l → IsManned (set_planet h l g)
IsManned-set h l g m n = record { manned = λ k. if_both NotNegative (h == k) n (m.manned k) }

IsManned-ship : (j : ℕ) (p : Player) (g : Game) → IsManned g → IsManned (set_player j p g)
IsManned-ship j p g m = record { manned = m.manned }

overthrown-NotNegative : (l : Planet) → NotNegative l → NotNegative (overthrown l)
unfolding overthrown
overthrown-NotNegative l n = if_both NotNegative l.pl_coup (omega arith) n

seen-Manned : (j h : ℕ) (g : Game) → IsManned g → IsManned (seen j h g)
unfolding seen
seen-Manned j h g m =
    if_both IsManned (in_redraw (g.players j) (g.planets h))
      (IsManned-set h (redrawn (g.planets h)) g m (m.manned h)) m

planet_hits-Manned : (j h : ℕ) (g : Game) → IsManned g → IsManned (planet_hits j h g)
unfolding planet_hits
planet_hits-Manned j h g m =
    let hit = on_ship j (inflict (pos_part (g.planets h).pl_armies / 10 + 2)) g in
    let a : IsManned hit = IsManned-ship j _ g m in
    if_both IsManned (is_destroyed (hit.players j))
      (IsManned-ship j (p_explosion by_planet (g.planets h).pl_no (hit.players j)) hit a) a

planet_fires-Manned : (j h : ℕ) (g : Game) → IsManned g → IsManned (planet_fires j h g)
unfolding planet_fires
planet_fires-Manned j h g m =
    let p = g.players j in
    let l = g.planets h in
    let s = seen-Manned j h g m in
    if_both IsManned (not (meets p.p_war l.pl_owner)) m (
      if_both IsManned (no_armies l) m
        (if_both IsManned (in_fire p l) (planet_hits-Manned j h (seen j h g) s) s))

pldamageplayer-Manned : (j : ℕ) (g : Game) → IsManned g → IsManned (pldamageplayer j g)
unfolding pldamageplayer
pldamageplayer-Manned j g m =
    loop_inv (λ h (x : Game). IsManned x) (planet_fires j) max_planets 0 max_planets g refl
      (λ h x lo hi k. planet_fires-Manned j h x k) m

bombs_bounds : (draw : ℕ) (a : Bool) → bombs draw a ≤ 4
unfolding bombs
bombs_bounds draw a = ground arith

five_or_more : (p : Player) (l : Planet) → may_bomb p l ≡ true → pos 5 ≤ℤ l.pl_armies
unfolding may_bomb
five_or_more p l h = ground arith

bombed-NotNegative :
    (ab : ℕ) (l : Planet) → ab ≤ 4 → pos 5 ≤ℤ l.pl_armies → NotNegative (bombed ab l)
unfolding bombed
bombed-NotNegative ab l h k = omega (arith, -ℤ_parts l.pl_armies (pos ab))

bomb_run-Manned :
    (draw j : ℕ) (g : Game)
    → may_bomb (g.players j) (g.planets (g.players j).p_planet) ≡ true
    → IsManned g
    → IsManned (bomb_run draw j g)
unfolding bomb_run
bomb_run-Manned draw j g ok m =
    let p = g.players j in
    let l = g.planets p.p_planet in
    let ab = bombs draw (is_assault p.p_ship.s_type) in
    let war = on_ship j (go_to_war l.pl_owner) g in
    let w : IsManned war = IsManned-ship j (go_to_war l.pl_owner p) g m in
    if_both IsManned (ab == 0) w (
      IsManned-set p.p_planet (bombed ab l) (on_ship j (bombing_credit ab) war)
        (IsManned-ship j (bombing_credit ab (war.players j)) war w)
        (bombed-NotNegative ab l (bombs_bounds draw (is_assault p.p_ship.s_type))
          (five_or_more p l ok)))

fight_turn-Manned :
    (draws : ℕ → ℕ) (j : ℕ) (f : Front) → IsManned f.game → IsManned (fight_turn draws j f).game
unfolding fight_turn
fight_turn-Manned draws j f m =
    let g = pldamageplayer j f.game in
    let d = pldamageplayer-Manned j f.game m in
    let p = g.players j in
    if_both (λ (x : Front). IsManned x.game) (not (is_alive (f.game.players j).p_status)) m
      (if_cases (λ (x : Front). IsManned x.game) (may_bomb p (g.planets p.p_planet))
        (λ ok. bomb_run-Manned (draws j) j g ok d) (λ no_run. d))

-- Neither coups nor bombing leave a planet with a negative number of armies: with none before
-- `plfight` there is none after it, whatever the draws.
pub plfight-Manned : (draws : ℕ → ℕ) (f : Front) → IsManned f.game → IsManned (plfight draws f).game
unfolding plfight
plfight-Manned draws f m =
    let start : Front = record {
      game = record (f.game) { planets = sweep max_planets 0 (λ h. overthrown) f.game.planets };
      pl_warning = sweep max_planets 0 (λ h w. w - 1) f.pl_warning;
    } in
    loop_inv (λ j (x : Front). IsManned x.game) (fight_turn draws) max_player 0 max_player start
      refl (λ j x lo hi k. fight_turn-Manned draws j x k)
      (record {
        manned = λ h.
            subst NotNegative (sym (sweep_at max_planets 0 (λ k. overthrown) f.game.planets h)) (
              if_both NotNegative (leb 0 h && ltb h (0 + max_planets))
                (overthrown-NotNegative (f.game.planets h) (m.manned h)) (m.manned h));
      })
