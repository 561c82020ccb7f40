-- ===== src/Bombard/Hulls.antt =====
-- The hulls of ships through `plfight` of ntserv/daemon.c.
use netrek_server.Base.{
  ℕ, ◌+◌, ◌-◌, ◌/◌, false, not, ◌≡◌, refl, subst, pos_part, ◌==◌, if_both, if_cases, put, put_self,
  loop_inv, sweep,
}
use netrek_server.Game.{
  Player, Planet, Game, max_player, max_planets, is_alive, is_assault, meets, by_planet,
}
use netrek_server.Conquest.{p_explosion}
use netrek_server.Blast.{inflict, is_destroyed, on_ship}
use netrek_server.Blast.Sound.{IsSound, IsSound-set, set_twice, explosion-Afloat, holds-Afloat}
use netrek_server.Bombard.{
  Front, in_redraw, redrawn, seen, overthrown, in_fire, no_armies, planet_hits, planet_fires,
  pldamageplayer, bombs, may_bomb, go_to_war, bombing_credit, bombed, bomb_run, fight_turn, plfight,
}

planets_no_matter : (ps : ℕ → Planet) (g : Game) → IsSound g → IsSound (record g { planets = ps })
planets_no_matter ps g s = record { afloat = s.afloat }

seen-Sound : (j h : ℕ) (g : Game) → IsSound g → IsSound (seen j h g)
unfolding seen
seen-Sound j h g s =
    if_both IsSound (in_redraw (g.players j) (g.planets h))
      (planets_no_matter (put g.planets h (redrawn (g.planets h))) g s) s

planet_hits-Sound : (j h : ℕ) (g : Game) → IsSound g → IsSound (planet_hits j h g)
unfolding planet_hits
planet_hits-Sound j h g s =
    let d = pos_part (g.planets h).pl_armies / 10 + 2 in
    let hit = on_ship j (inflict d) g in
    if_cases IsSound (is_destroyed (hit.players j))
      (λ gone.
        set_twice j (inflict d (g.players j))
          (p_explosion by_planet (g.planets h).pl_no (hit.players j)) g s
          (explosion-Afloat by_planet (g.planets h).pl_no (hit.players j)))
      (λ holds. IsSound-set j (inflict d (g.players j)) g s (
        holds-Afloat (inflict d (g.players j)) (
          subst (λ (p : Player). is_destroyed p ≡ false)
            (put_self g.players j (inflict d (g.players j))) holds)))

planet_fires-Sound : (j h : ℕ) (g : Game) → IsSound g → IsSound (planet_fires j h g)
unfolding planet_fires
planet_fires-Sound j h g s =
    let p = g.players j in
    let l = g.planets h in
    let t = seen-Sound j h g s in
    if_both IsSound (not (meets p.p_war l.pl_owner)) s (
      if_both IsSound (no_armies l) s
        (if_both IsSound (in_fire p l) (planet_hits-Sound j h (seen j h g) t) t))

pldamageplayer-Sound : (j : ℕ) (g : Game) → IsSound g → IsSound (pldamageplayer j g)
unfolding pldamageplayer
pldamageplayer-Sound j g s =
    loop_inv (λ h (x : Game). IsSound x) (planet_fires j) max_planets 0 max_planets g refl
      (λ h x lo hi k. planet_fires-Sound j h x k) s

bomb_run-Sound : (draw j : ℕ) (g : Game) → IsSound g → IsSound (bomb_run draw j g)
unfolding bomb_run
bomb_run-Sound draw j g s =
    let p = g.players j in
    let l = g.planets p.p_planet in
    let ab = bombs draw (is_assault p.p_ship.s_type) in
    let war = on_ship j (go_to_war l.pl_owner) g in
    let w : IsSound war = IsSound-set j (go_to_war l.pl_owner p) g s (s.afloat j) in
    let c = IsSound-set j (bombing_credit ab (war.players j)) war w (w.afloat j) in
    if_both IsSound (ab == 0) w (
      planets_no_matter (put g.planets p.p_planet (bombed ab l)) (on_ship j (bombing_credit ab) war)
        c)

fight_turn-Sound :
    (draws : ℕ → ℕ) (j : ℕ) (f : Front) → IsSound f.game → IsSound (fight_turn draws j f).game
unfolding fight_turn
fight_turn-Sound draws j f s =
    let g = pldamageplayer j f.game in
    let d = pldamageplayer-Sound j f.game s in
    if_both (λ (x : Front). IsSound x.game) (not (is_alive (f.game.players j).p_status)) s
      (if_both (λ (x : Front). IsSound x.game)
        (may_bomb (g.players j) (g.planets (g.players j).p_planet)) (bomb_run-Sound (draws j) j g d)
        d)

-- Planets that fire on ships leave no living ship with damage at or past its class's limit, if there
-- was none before.
pub plfight-Sound : (draws : ℕ → ℕ) (f : Front) → IsSound f.game → IsSound (plfight draws f).game
unfolding plfight
plfight-Sound draws f s =
    let start : Front = record {
      game = record (f.game) { planets = sweep max_planets 0 (λ h. overthrown) f.game.planets };
      pl_warning = sweep max_planets 0 (λ h w. w - 1) f.pl_warning;
    } in
    loop_inv (λ j (x : Front). IsSound x.game) (fight_turn draws) max_player 0 max_player start refl
      (λ j x lo hi k. fight_turn-Sound draws j x k) (planets_no_matter start.game.planets f.game s)
