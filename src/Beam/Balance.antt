-- ===== src/Beam/Balance.antt =====
-- The balance of armies over a whole turn of one ship in `beam` of ntserv/daemon.c.
use netrek_server.Base.{
  eq_ℤ, -ℤ_parts, ◌-ℤ◌, Bool, true, false, inl, inr, sym, ap, ◌∙◌, put_self, ℕ, ◌+◌, ◌≤◌, ◌<◌, not,
  ◌&&◌, ◌||◌, ◌≡◌, ◌≢◌, refl, ◌⊎◌, ℤ, pos, ◌≤ℤ◌, ltb, leb, ◌==◌, if_both, if_cases, if_true, put,
  put_ne, put_keeps, count_congr, count_near, arith,
}
use netrek_server.Game.{
  Player, Planet, Game, Teams, nobody, same, meets, set_planet, max_player, max_planets, is_alive,
}
use netrek_server.Conquest.{Realm, Outcome, Spoils, checkgen, owned, begin_surrender, recount}
use netrek_server.Conquest.Genocide.{checkwin_game, plcount_recount, begin_surrender_game}
use netrek_server.Beam.{
  stays_down, unload, garrison, draw_down, on_player, on_planet, beam_one_up, raided, hostile_drop,
  capture, captured, take_over, drop_on_planet, drop_in_base, beam_one_down, beam_ship, neutral,
  is_zero, is_cheap,
}
use netrek_server.Beam.Steps.{
  armies_total, total_planet, total_lifted, total_landed, total_raided, total_from_base,
  total_to_base,
}

planet_spares :
    (g : Game) (p : Player)
    → stays_down g p ≡ false
    → p.p_flags.orbit ≡ true
    → pos 1 ≤ℤ (g.planets p.p_planet).pl_armies
unfolding stays_down
planet_spares g p go orbits = ground arith

base_spares :
    (g : Game) (p : Player)
    → stays_down g p ≡ false
    → p.p_flags.dock ≡ true
    → 1 ≤ (g.players p.p_dock_with).p_armies
unfolding stays_down
base_spares g p go docked = ground arith

-- A ship that orbits or is docked, and whose indices are in range; it is not docked with itself.
pub record IsAlongside (i : ℕ) (g : Game) : Type 0 where
  pub ship : i < max_player
  pub planet : (g.players i).p_planet < max_planets
  pub base : (g.players i).p_dock_with < max_player
  pub not_itself : i ≢ (g.players i).p_dock_with

-- No planet has a negative number of armies.
abbrev pub IsStocked : Game → ℕ → Type 0
IsStocked g h = pos 0 ≤ℤ (g.planets h).pl_armies

beam_one_up-total :
    (i : ℕ) (g : Game)
    → IsAlongside i g
    → stays_down g (g.players i) ≡ false
    → ((g.players i).p_flags.orbit || (g.players i).p_flags.dock) ≡ true
    → armies_total (beam_one_up i g) ≡ armies_total g
unfolding beam_one_up
beam_one_up-total i g m go there =
    let p = g.players i in
    if_cases (λ (k : Game). armies_total k ≡ armies_total g) p.p_flags.orbit
      (λ orbits. total_lifted i p.p_planet g m.ship m.planet (planet_spares g p go orbits))
      (λ away.
        if_cases (λ (k : Game). armies_total k ≡ armies_total g) p.p_flags.dock
          (λ docked.
            total_from_base i p.p_dock_with g m.ship m.base m.not_itself
              (base_spares g p go docked))
          (λ adrift. absurd (ground arith)))

drop_in_base-total :
    (i b : ℕ) (g : Game)
    → i < max_player
    → b < max_player
    → i ≢ b
    → 1 ≤ (g.players i).p_armies
    → armies_total (drop_in_base i b g) ≡ armies_total g
unfolding drop_in_base
drop_in_base-total i b g lt ltb' ne aboard =
    if_both (λ (k : Game). armies_total k ≡ armies_total g)
      (not (same (g.players b).p_team (g.players i).p_team)) refl
      (if_both (λ (k : Game). armies_total k ≡ armies_total g)
        (leb (g.players b).p_ship.s_maxarmies (g.players b).p_armies) refl
        (total_to_base i b g lt ltb' ne aboard))

-- `checkgen` changes no army where the team that lost a planet has another.
checkgen_spared :
    (s : Spoils) (loser : Teams) (j : ℕ) (r : Realm)
    → 1 ≤ owned r.game loser max_planets 0
    → (checkgen s loser j r).0.game ≡ r.game
unfolding checkgen
checkgen_spared s loser j r left =
    let some_left : ltb 0 ((begin_surrender loser (recount r)).empires loser).te_plcount ≡ true =
      ground (arith, plcount_recount loser r) in
    if_both (λ (x : Realm × Outcome). x.0.game ≡ r.game) r.inl_mode refl
      (ap (λ (x : Realm × Outcome). x.0.game) (if_true _ _ _ some_left)
        ∙ begin_surrender_game loser r)

-- Making one planet neutral takes at most one planet from a team.
owned_near :
    (t : Teams) (h : ℕ) (l : Planet) (g : Game)
    → owned g t max_planets 0 ≤ owned (set_planet h l g) t max_planets 0 + 1
unfolding owned
owned_near t h l g =
    count_near max_planets 0 (λ k. same (g.planets k).pl_owner t)
      (λ k. same (put g.planets h l k).pl_owner t) h
      (λ k ne.
        ap (λ (q : Planet). same q.pl_owner t) (sym (put_ne g.planets h k l (λ e. ne (sym e)))))

abbrev pub Balanced : Game → Realm × Outcome → Type 0
Balanced g x =
    (armies_total x.0.game ≡ armies_total g) ⊎ (armies_total x.0.game + 2 ≡ armies_total g)

neutral_total :
    (h : ℕ) (cheap : Bool) (g : Game)
    → h < max_planets
    → armies_total (on_planet h (neutral cheap) g) ≡ armies_total g
neutral_total h cheap g lt = omega (arith, total_planet h (neutral cheap (g.planets h)) g lt)

abbrev pub is_one : ℤ → Bool
is_one z = eq_ℤ z (pos 1)

not_zero : (z : ℤ) → pos 0 ≤ℤ z → is_zero z ≡ false → pos 1 ≤ℤ z
not_zero z h e = ground arith

-- A raid that leaves armies changes no owner.
owned-raided :
    (t : Teams) (i h : ℕ) (g : Game)
    → owned (raided i h g) t max_planets 0 ≡ owned g t max_planets 0
unfolding owned raided
owned-raided t i h g =
    count_congr max_planets 0 (λ k. same ((raided i h g).planets k).pl_owner t)
      (λ k. same (g.planets k).pl_owner t)
      (λ k lo hi.
        ap (λ o. same o t)
          (put_keeps (λ (q : Planet). q.pl_owner) g.planets h (draw_down (g.planets h)) k refl))

narrow :
    {T : Type 0} (own one : Bool) → own ≡ false → ((not own && one) ≡ false) ⊎ T → (one ≡ false) ⊎ T
narrow own one e (inl f) = inl (ground arith)
narrow own one e (inr t) = inr t

one_left : (z : ℤ) → is_zero (z -ℤ pos 1) ≡ true → is_one z ≡ true
one_left z e = let p = -ℤ_parts z (pos 1) in ground arith

last_fell :
    (i h : ℕ) (g : Game)
    → is_zero ((raided i h g).planets h).pl_armies ≡ true
    → is_one (g.planets h).pl_armies ≡ true
unfolding raided
last_fell i h g e = one_left (g.planets h).pl_armies (
    ap (λ (l : Planet). is_zero l.pl_armies) (sym (put_self g.planets h (draw_down (g.planets h))))
    ∙ e)

outlived :
    {T : Type 0} (i h : ℕ) (g : Game)
    → (is_one (g.planets h).pl_armies ≡ false) ⊎ T
    → is_zero ((raided i h g).planets h).pl_armies ≡ true
    → T
outlived i h g (inr t) e = t
outlived i h g (inl f) e = let last = last_fell i h g e in absurd (cc)

-- The ship beams its army down on another team's planet, against the last army there.
unfoldable pub takes_last : ℕ → Game → Bool
takes_last i g =
    let p = g.players i in
    let l = g.planets p.p_planet in
    p.p_flags.orbit && p.p_flags.beamdown && not (same p.p_team l.pl_owner) && is_one l.pl_armies

-- The team that has lost a planet to the ship has another.
abbrev pub IsSurvivable : ℕ → Game → Type 0
IsSurvivable i g =
    (takes_last i g ≡ false)
    ⊎ (2 ≤ owned g (g.planets (g.players i).p_planet).pl_owner max_planets 0)

module _ (s : Spoils) (i : ℕ) (r : Realm) (m : IsAlongside i r.game)
    (aboard : 1 ≤ (r.game.players i).p_armies) where
  take_over-total :
      (h : ℕ) → h < max_planets → IsStocked r.game h → Balanced r.game (take_over i h r)
  unfolding take_over
  take_over-total h lt stocked =
      let g = on_planet h (captured (r.game.players i).p_team) (on_player i capture r.game) in
      inl (
        ap armies_total (checkwin_game (r.game.players i).p_team (record r { game = g }))
        ∙ total_landed i h r.game m.ship lt capture (captured (r.game.players i).p_team) aboard
            stocked refl refl)

  hostile_drop-total :
      (h : ℕ)
      → h < max_planets
      → pos 1 ≤ℤ (r.game.planets h).pl_armies
      → (is_one (r.game.planets h).pl_armies ≡ false)
        ⊎ (2 ≤ owned r.game (r.game.planets h).pl_owner max_planets 0)
      → Balanced r.game (hostile_drop s i h r)
  unfolding hostile_drop
  hostile_drop-total h lt left spared =
      let g = raided i h r.game in
      let fallen = on_planet h (neutral (is_cheap g (g.planets h))) g in
      if_cases (λ (x : Realm × Outcome). Balanced r.game x) (is_zero (g.planets h).pl_armies)
        (λ zero.
          let two = outlived i h r.game spared zero in
          inr (
            omega (
              arith,
              ap armies_total (
                  checkgen_spared s (r.game.planets h).pl_owner i (record r { game = fallen })
                    (omega (
                      arith,
                      owned-raided (r.game.planets h).pl_owner i h r.game,
                      owned_near (r.game.planets h).pl_owner h
                          (neutral (is_cheap g (g.planets h)) (g.planets h)) g,
                    ))),
              neutral_total h (is_cheap g (g.planets h)) g lt,
              total_raided i h r.game m.ship lt aboard left,
            )))
        (λ more. inr (total_raided i h r.game m.ship lt aboard left))

  drop_on_planet-total :
      (h : ℕ)
      → h < max_planets
      → IsStocked r.game h
      → (not (same (r.game.players i).p_team (r.game.planets h).pl_owner)
            && is_one (r.game.planets h).pl_armies
          ≡ false)
        ⊎ (2 ≤ owned r.game (r.game.planets h).pl_owner max_planets 0)
      → Balanced r.game (drop_on_planet s i h r)
  unfolding drop_on_planet
  drop_on_planet-total h lt stocked spared =
      let p = r.game.players i in
      let l = r.game.planets h in
      if_both (λ (x : Realm × Outcome). Balanced r.game x)
        (not (meets p.p_war l.pl_owner)
          && not (same p.p_team l.pl_owner)
          && not (same l.pl_owner nobody))
        (inl refl)
        (if_cases (λ (x : Realm × Outcome). Balanced r.game x) (same p.p_team l.pl_owner)
          (λ own. inl (total_landed i h r.game m.ship lt unload garrison aboard stocked refl refl))
          (λ foreign.
            if_cases (λ (x : Realm × Outcome). Balanced r.game x) (is_zero l.pl_armies)
              (λ zero. take_over-total h lt stocked)
              (λ left.
                hostile_drop-total h lt (not_zero l.pl_armies stocked left)
                  (narrow (same p.p_team l.pl_owner) (is_one l.pl_armies) foreign spared))))

all_four : (o d n z : Bool) → o ≡ true → d ≡ true → (o && d && n && z) ≡ false → (n && z) ≡ false
all_four o d n z eo ed e = ground arith

over_planet :
    (i : ℕ) (g : Game)
    → (g.players i).p_flags.orbit ≡ true
    → (g.players i).p_flags.beamdown ≡ true
    → IsSurvivable i g
    → let l = g.planets (g.players i).p_planet in
      (not (same (g.players i).p_team l.pl_owner) && is_one l.pl_armies ≡ false)
      ⊎ (2 ≤ owned g l.pl_owner max_planets 0)
unfolding takes_last
over_planet i g o d (inl f) =
    inl (all_four (g.players i).p_flags.orbit (g.players i).p_flags.beamdown _ _ o d f)
over_planet i g o d (inr two) = inr two

beam_one_down-total :
    (s : Spoils) (i : ℕ) (r : Realm)
    → IsAlongside i r.game
    → IsStocked r.game (r.game.players i).p_planet
    → (r.game.players i).p_flags.beamdown ≡ true
    → IsSurvivable i r.game
    → Balanced r.game (beam_one_down s i r)
unfolding beam_one_down
beam_one_down-total s i r m stocked down spared =
    let p = r.game.players i in
    if_cases (λ (x : Realm × Outcome). Balanced r.game x) (p.p_armies == 0) (λ empty. inl refl)
      (λ some_aboard.
        let aboard : 1 ≤ p.p_armies = ground arith in
        if_cases (λ (x : Realm × Outcome). Balanced r.game x) p.p_flags.orbit
          (λ orbiting.
            drop_on_planet-total s i r m aboard p.p_planet m.planet stocked
              (over_planet i r.game orbiting down spared))
          (λ away.
            if_both (λ (x : Realm × Outcome). Balanced r.game x) p.p_flags.dock
              (inl (drop_in_base-total i p.p_dock_with r.game m.ship m.base m.not_itself aboard))
              (inl refl)))

-- One ship's turn creates no army: all armies aboard ships and on planets together stay as many, or
-- are two fewer. The ship is not docked with itself, its planet has no negative number of armies, and
-- if it beams down against the last army of another team's planet, the planet's owner has another one,
-- so that no team is finished.
pub beam_ship-total :
    (s : Spoils) (i : ℕ) (r : Realm)
    → IsAlongside i r.game
    → IsStocked r.game (r.game.players i).p_planet
    → IsSurvivable i r.game
    → (armies_total (beam_ship s i r).0.game ≡ armies_total r.game)
      ⊎ (armies_total (beam_ship s i r).0.game + 2 ≡ armies_total r.game)
unfolding beam_ship
beam_ship-total s i r m stocked spared =
    let p = r.game.players i in
    if_cases (λ (x : Realm × Outcome). Balanced r.game x)
      (not (is_alive p.p_status) || not (p.p_flags.orbit || p.p_flags.dock)) (λ off. inl refl)
      (λ on.
        if_both (λ (x : Realm × Outcome). Balanced r.game x) p.p_flags.beamup
          (inl (
            if_cases (λ (k : Realm). armies_total k.game ≡ armies_total r.game)
              (stays_down r.game p) (λ down. refl)
              (λ go. beam_one_up-total i r.game m go (ground arith))))
          (if_cases (λ (x : Realm × Outcome). Balanced r.game x) p.p_flags.beamdown
            (λ down. beam_one_down-total s i r m stocked down spared) (λ idle. inl refl)))
