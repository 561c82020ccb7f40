-- ===== src/MarkTests.antt =====
-- The theorems about the commands that only mark what the daemon carries out, each applied to a
-- concrete state.
use netrek_server.Base.{
  ℕ, ◌*◌, ◌≡◌, refl, true, not, ◌&&◌, ◌==◌, ==→eq, some, pos, ◌≤ℤ◌, if◌then◌else◌, if_cases, put,
  find, arith,
}
use netrek_server.Game.{
  Player, no_flags, Client, accepted, mine, only, fed, rom, same, is_free, cruiser,
}
use netrek_server.Scenario.{ship_at, fleet, client_of, gunner, captain}
use netrek_server.Torp.{Torp, Arms, t_move, t_det}
use netrek_server.Bombard.{plfight}
use netrek_server.Coup.{owns_planet, home_refusal, coup_refusal, coup_by, coup}
use netrek_server.Coup.Restored.{IsCoup, coup-restored}
use netrek_server.Detonate.{is_detted, det_refusal, det_by, detothers}
use netrek_server.Detonate.Marks.{detothers_lem}

-- The Federation has lost all, and ship 0 orbits its home planet, which the Romulans hold.
abbrev exile : Client
exile =
    let c = client_of (put fleet 0 (ship_at cruiser (record no_flags { orbit = true }) 0)) in
    record c {
      game = record (c.game) {
        planets =
            put c.game.planets 0
              (record (c.game.planets 0) { origin = only fed; pl_home = true; pl_armies = pos 4 });
      };
    }

abbrev draws : ℕ → ℕ
draws j = 10 * j

abbrev quiet : ℕ → ℕ
quiet h = 0

exile-coup : (coup exile).1 ≡ accepted
unfolding coup coup_by coup_refusal owns_planet home_refusal find same
exile-coup = refl

coup-restored_example :
    IsCoup exile
    × (same
          ((plfight draws (record { game = (coup exile).0.game; pl_warning = quiet })).game.planets
            0).pl_owner
          (only fed)
        ≡ true)
    × (((plfight draws (record { game = (coup exile).0.game; pl_warning = quiet })).game.planets
          0).pl_armies
        ≡ pos 4)
coup-restored_example = coup-restored exile draws quiet exile-coup (omega arith)

-- A Romulan torpedo of ship 3, close to ship 0.
abbrev incoming : Torp
incoming = record (gunner.torps 0) {
  t_status = t_move;
  t_owner = 3;
  t_x = pos 51000;
  t_y = pos 49000;
  t_war = only fed;
  t_team = only rom;
}

abbrev under_fire : Arms
under_fire = record gunner { torps = put gunner.torps 26 incoming }

captain-numbers : (j : ℕ) → (captain.game.players j).p_no ≡ j
captain-numbers j = if_cases (λ (p : Player). p.p_no ≡ j) (1 == j) (λ e. ==→eq 1 j e) (λ ne. refl)

shoots_back : (detothers under_fire).1 ≡ accepted
unfolding detothers det_by det_refusal
shoots_back = refl

detothers_lem_example :
    ((detothers under_fire).0.torps 26 ≡ (
      if not (is_free (captain.game.players 3).p_status) && is_detted (mine captain) incoming
      then record incoming { t_status = t_det; t_whodet = some 0 }
      else incoming))
    × (pos 0 ≤ℤ (mine (detothers under_fire).0.client).p_fuel)
detothers_lem_example =
    detothers_lem under_fire 3 2 (λ j h. captain-numbers j) (omega arith) (omega arith) shoots_back
