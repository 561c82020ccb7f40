-- ===== src/Beam/Steps.antt =====
-- The armies aboard ships and on planets, through one ship's turn in `beam` of ntserv/daemon.c.
use netrek_server.Base.{
  ℕ, ◌+◌, ◌-◌, ◌≤◌, ◌<◌, ◌≡◌, ◌≢◌, sym, ap, ◌∙◌, ℤ, pos, pos_part, ◌+ℤ◌, ◌-ℤ◌, ◌≤ℤ◌, put, put_ne,
  sum, sum_change, arith,
}
use netrek_server.Game.{Player, Planet, Game, set_player, set_planet, max_player, max_planets}
use netrek_server.Beam.{load, unload, draw_down, on_player, on_planet, raid, raided}

-- All armies of the galaxy.
unfoldable pub armies_total : Game → ℕ
armies_total g =
    sum max_player 0 (λ i. (g.players i).p_armies)
    + sum max_planets 0 (λ h. pos_part (g.planets h).pl_armies)

pub total_player :
    (i : ℕ) (p : Player) (g : Game)
    → i < max_player
    → armies_total (set_player i p g) + (g.players i).p_armies ≡ armies_total g + p.p_armies
unfolding armies_total
total_player i p g h =
    let s =
      sum_change max_player 0 (λ k. (put g.players i p k).p_armies) (λ k. (g.players k).p_armies) i
        (omega arith) h
        (λ k ne. ap (λ (q : Player). q.p_armies) (put_ne g.players i k p (λ e. ne (sym e)))) in
    ground (arith, s)

pub total_planet :
    (h : ℕ) (l : Planet) (g : Game)
    → h < max_planets
    → armies_total (set_planet h l g) + pos_part (g.planets h).pl_armies
      ≡ armies_total g + pos_part l.pl_armies
unfolding armies_total
total_planet h l g lt =
    let s =
      sum_change max_planets 0 (λ k. pos_part (put g.planets h l k).pl_armies)
        (λ k. pos_part (g.planets k).pl_armies) h (omega arith) lt
        (λ k ne.
          ap (λ (q : Planet). pos_part q.pl_armies) (put_ne g.planets h k l (λ e. ne (sym e)))) in
    ground (arith, s)

fewer : (z : ℤ) → pos 1 ≤ℤ z → pos_part (z -ℤ pos 1) + 1 ≡ pos_part z
unfolding ◌-ℤ◌
fewer z h = ground arith

more : (z : ℤ) → pos 0 ≤ℤ z → pos_part (z +ℤ pos 1) ≡ pos_part z + 1
unfolding ◌+ℤ◌
more z h = ground arith

module _ (i h : ℕ) (g : Game) (lt : i < max_player) (lth : h < max_planets) where
  -- An army from the planet to the ship.
  pub total_lifted :
      pos 1 ≤ℤ (g.planets h).pl_armies
      → armies_total (on_planet h draw_down (on_player i load g)) ≡ armies_total g
  total_lifted some_left = omega (
    arith,
    total_player i (load (g.players i)) g lt,
    total_planet h (draw_down (g.planets h)) (on_player i load g) lth,
    fewer (g.planets h).pl_armies some_left,
  )

  -- An army from the ship to the planet.
  pub total_landed :
      (f : Player → Player) (k : Planet → Planet)
      → 1 ≤ (g.players i).p_armies
      → pos 0 ≤ℤ (g.planets h).pl_armies
      → (f (g.players i)).p_armies ≡ (g.players i).p_armies - 1
      → (k (g.planets h)).pl_armies ≡ (g.planets h).pl_armies +ℤ pos 1
      → armies_total (on_planet h k (on_player i f g)) ≡ armies_total g
  total_landed f k aboard stocked one_off one_on =
      let z = (g.planets h).pl_armies in
      let grown : pos_part (k (g.planets h)).pl_armies ≡ pos_part z + 1 =
        ap pos_part one_on ∙ more z stocked in
      omega (
        arith,
        one_off,
        grown,
        total_player i (f (g.players i)) g lt,
        total_planet h (k (g.planets h)) (on_player i f g) lth,
      )

  -- An army of the ship against one of the planet.
  pub total_raided :
      1 ≤ (g.players i).p_armies
      → pos 1 ≤ℤ (g.planets h).pl_armies
      → armies_total (raided i h g) + 2 ≡ armies_total g
  unfolding raided
  total_raided aboard left = omega (
    arith,
    total_player i (raid (g.planets h).pl_owner (g.players i)) g lt,
    total_planet h (draw_down (g.planets h)) (on_player i (raid (g.planets h).pl_owner) g) lth,
    fewer (g.planets h).pl_armies left,
  )

module _ (i b : ℕ) (g : Game) (lt : i < max_player) (ltb' : b < max_player) (ne : i ≢ b) where
  pub total_from_base :
      1 ≤ (g.players b).p_armies
      → armies_total (on_player b unload (on_player i load g)) ≡ armies_total g
  total_from_base left =
      let same_base =
        ap (λ (q : Player). q.p_armies) (put_ne g.players i b (load (g.players i)) ne) in
      omega (
        arith,
        total_player i (load (g.players i)) g lt,
        total_player b (unload ((on_player i load g).players b)) (on_player i load g) ltb',
        same_base,
      )

  pub total_to_base :
      1 ≤ (g.players i).p_armies
      → armies_total (on_player b load (on_player i unload g)) ≡ armies_total g
  total_to_base left =
      let same_base =
        ap (λ (q : Player). q.p_armies) (put_ne g.players i b (unload (g.players i)) ne) in
      omega (
        arith,
        total_player i (unload (g.players i)) g lt,
        total_player b (load ((on_player i unload g).players b)) (on_player i unload g) ltb',
        same_base,
      )
