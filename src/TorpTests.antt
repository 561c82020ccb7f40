-- ===== src/TorpTests.antt =====
-- The theorems about the daemon's torpedoes, explosions and states of players, each applied to a
-- concrete state.
use netrek_server.Base.{
  ℕ, ◌+◌, ◌*◌, ◌/◌, ◌<◌, ◌≡◌, ◌≢◌, ◌≤◌, ◌⊎◌, inl, inr, refl, true, false, ◌||◌, ◌==◌, pos, negsuc,
  ◌-ℤ◌, if_both, if_cases, put, put_ne, count, ==→eq, ==→ne, subst, sym, ap, ◌∙◌, Bool-cases, arith,
  find,
}
use netrek_server.Game.{
  max_torp, max_player, Player, no_flags, Game, only, fed, rom, same, meets, cruiser, explode,
}
use netrek_server.Scenario.{ship_at, fleet, game_of, gunner, empty_slots, full_slots}
use netrek_server.Populate.Rounds.{count_false}
use netrek_server.Blast.{
  is_destroyed, Physics, t_explosion, torp_reaches, torp_hits, take_blow, destroyed, credited,
  inflict, war_started, damage_at, spared_by_detter, is_safe, is_idle, in_reach, spo, exploded,
  torp_blow, ship_blow, torp_killer, ship_killer,
}
use netrek_server.Blast.Sound.{Afloat, IsSound, t_explosion-Sound}
use netrek_server.Blast.Credit.{team_kill_credit}
use netrek_server.Torp.{Torp, is_t_free, first_plasma, t_move, t_photon}
use netrek_server.Flight.{
  Motion, Shot, Sky, flown, move_torp, walled, t_check_wall, t_wobble, is_near, hits_wall, t_near,
  udtorps, fly,
}
use netrek_server.Torp.Free.{in_flight, flight_off}
use netrek_server.Flight.Counts.{IsSlotOf, elsewhere, IsTallied, udtorps-Tallied}
use netrek_server.Flight.Walls.{at_wall, spent, wall_explodes_twice}
use netrek_server.Alive.{Delays, Drive}
use netrek_server.Life.{Roster, status_update}
use netrek_server.Life.Diagram.{◌⟶◌, status_of, status_update_edge}
use netrek_server.Life.Ending.{EndsWithin, explode_ends}

abbrev peace : Game
peace = game_of fleet

abbrev physics : Physics
physics = record { safe_idle = false; falloff = λ full reach dist2. full / 2 }

abbrev shot : Torp
shot = record (gunner.torps 0) {
  t_status = t_move;
  t_type = t_photon;
  t_x_internal = pos 12800000;
  t_y_internal = pos 12800000;
  t_damage = 40;
  t_fuse = 10;
  t_war = only fed;
  t_team = only rom;
}

peace-IsSound : IsSound peace
peace-IsSound = record { afloat = λ k. if_both Afloat (1 == k) refl refl }

t_explosion-Sound_example : IsSound (t_explosion physics shot peace)
t_explosion-Sound_example = t_explosion-Sound physics shot peace peace-IsSound

same_team : same (peace.players (torp_killer peace shot (peace.players 3))).p_team (only fed) ≡ true
unfolding torp_killer same
same_team = refl

same_base : same (peace.players (ship_killer peace 2 (peace.players 3))).p_team (only fed) ≡ true
unfolding ship_killer same
same_base = refl

torp_owner : torp_killer peace shot (peace.players 3) ≢ 3
unfolding torp_killer
torp_owner = omega arith

base_itself : ship_killer peace 2 (peace.players 3) ≢ 3
unfolding ship_killer same
base_itself = omega arith

deadly : (d : ℕ) → 200 ≤ d → is_destroyed (inflict d (peace.players 3)) ≡ true
unfolding inflict
deadly d h = ground arith

team_kill_credit_example :
    (((take_blow (torp_blow 250 peace shot (peace.players 3)) 3 peace).players 0).p_kills ≡ 250)
    × (((take_blow (ship_blow 300 peace 2 (peace.players 3)) 3 peace).players 2).p_kills ≡ 375)
unfolding torp_killer ship_killer same
team_kill_credit_example =
    team_kill_credit 250 300 peace shot 2 3 same_team same_base torp_owner base_itself
      (deadly 250 (omega arith)) (deadly 300 (omega arith))

abbrev delays : Delays
delays = record {
  ghostbust_timer = 30;
  logintime = 100;
  autoquit = 60;
  starbase_rebuild_time = 30;
  update = 100000;
  five_seconds = 50;
}

abbrev wreck : Player
wreck = record (ship_at cruiser no_flags 4) { p_status = explode; p_explode = pos 10 }

abbrev roster : Roster
roster = record {
  game = game_of (put fleet 4 wreck);
  slots = full_slots;
  torps = gunner.torps;
  te_turns = λ t. 0;
}

abbrev drive : Drive
drive = record {
  engine = record {
    newturn = true;
    orbit_x = λ x dir. x;
    orbit_y = λ y dir. y;
    top_speed = λ p. pos p.p_ship.s_maxspeed;
    base_heat = λ t n. t;
    pull_x = λ press p q. p.p_x;
    pull_y = λ press p q. p.p_y;
    drag_x = λ press p q. q.p_x;
    drag_y = λ press p q. q.p_y;
  };
  wep_chance = 3;
  wep_span = 5;
  eng_chance = 7;
  eng_span = 11;
  self_destruct_credit = false;
  root = λ n. n;
}

-- Ship 5 is alive, ship 4 is a wreck.
status_update_edge_example :
    status_of 5 roster ⟶ status_of 5 (status_update delays physics drive 5 roster)
status_update_edge_example = status_update_edge delays physics drive 5 roster

explode_ends_example : EndsWithin delays physics (λ n. drive) 4 (10 + 602) roster
explode_ends_example = explode_ends delays physics (λ n. drive) 4 10 roster refl

-- A photon of ship 3 is in flight, in the third of its slots.
abbrev motion : Motion
motion = record {
  physics = physics;
  wrap_galaxy = false;
  fuse_scale = 5;
  step_x = λ t. negsuc 299;
  step_y = λ t. t.t_y_internal;
  to_dir = λ x y. 0;
  root = λ n. n;
}

abbrev photon : Torp
photon = record shot { t_owner = 3; t_war = only rom; t_team = only fed }

abbrev shooter : Player
shooter = record (ship_at cruiser no_flags 3) { p_ntorp = pos 1 }

abbrev sky : Sky
sky = record { game = game_of (put fleet 3 shooter); torps = put gunner.torps 26 photon }

at_third : pos 1 ≡ pos (count max_torp (max_torp * 3) (in_flight sky.torps))
unfolding count
at_third = refl

unarmed : (k : ℕ) → (fleet k).p_ntorp ≡ pos 0
unarmed k = if_both (λ (p : Player). p.p_ntorp ≡ pos 0) (1 == k) refl refl

only_third :
    (k : ℕ)
    → (sky.game.players k).p_ntorp ≡ pos (count max_torp (max_torp * k) (in_flight sky.torps))
only_third k = elim (Bool-cases (3 == k)) [
  | inl e ↦
      subst
        (λ x.
          (sky.game.players x).p_ntorp ≡ pos (count max_torp (max_torp * x) (in_flight sky.torps)))
        (==→eq 3 k e) at_third
  | inr ne ↦
      ap (λ (p : Player). p.p_ntorp) (put_ne fleet 3 k shooter (==→ne 3 k ne))
      ∙ unarmed k
      ∙ ap pos (
          sym (
            flight_off max_torp (max_torp * k) 26 gunner.torps photon
              (elsewhere 3 k 26 (==→ne 3 k ne) (omega arith) (omega arith))
            ∙ count_false max_torp (max_torp * k)))
]

no_plasma :
    (k : ℕ)
    → k < max_player
    → (sky.game.players k).p_nplasmatorp ≡ pos (count 1 (first_plasma + k) (in_flight sky.torps))
no_plasma k h =
    if_both (λ (p : Player). p.p_nplasmatorp ≡ pos 0) (3 == k) refl
      (if_both (λ (p : Player). p.p_nplasmatorp ≡ pos 0) (1 == k) refl refl)
    ∙ ap pos (
        sym (
          flight_off 1 (first_plasma + k) 26 gunner.torps photon (inl (omega arith))
          ∙ count_false 1 (first_plasma + k)))

sky-IsTallied : IsTallied sky
sky-IsTallied = record {
  photons = λ k h. only_third k;
  plasmas = no_plasma;
  slots = λ i.
      if_cases (λ (t : Torp). (is_t_free t.t_status ≡ true) ⊎ IsSlotOf i t) (26 == i)
        (λ e. inr (
          subst (λ x. IsSlotOf x photon) (==→eq 26 i e)
            (inl (refl, omega arith, omega arith, omega arith))))
        (λ ne. inl refl);
}

udtorps-Tallied_example : IsTallied (udtorps motion (λ i. i) sky)
udtorps-Tallied_example = udtorps-Tallied motion (λ i. i) sky sky-IsTallied

-- One enemy, at the left wall, and the photon that flies into it.
abbrev at_the_wall : Game
at_the_wall = game_of (
    put empty_slots.players 2 (record (ship_at cruiser no_flags 2) {
      p_x = pos 100;
      p_x_internal = pos 25600;
      p_team = only rom;
      p_war = only fed;
    }))

abbrev last_flight : Shot
last_flight = record { torp = photon; game = at_the_wall }

hits :
    (hits_wall false (flown motion at_the_wall photon).t_x_internal
      || hits_wall false (flown motion at_the_wall photon).t_y_internal)
    ≡ true
unfolding hits_wall flown move_torp
hits = refl

near :
    t_near false
      (t_explosion physics (at_wall motion last_flight) at_the_wall)
      (spent motion 1 (at_wall motion last_flight))
    ≡ true
unfolding t_near is_near t_explosion torp_reaches torp_hits take_blow destroyed credited inflict
    war_started damage_at spared_by_detter is_safe is_idle in_reach spo torp_killer torp_blow
    t_check_wall walled flown move_torp find same meets exploded t_wobble ◌-ℤ◌
near = refl

wall_explodes_twice_example :
    (fly motion 1 last_flight).game
    ≡ t_explosion physics
        (spent motion 1 (at_wall motion last_flight))
        (t_explosion physics (at_wall motion last_flight) at_the_wall)
wall_explodes_twice_example = wall_explodes_twice motion 1 last_flight hits near
