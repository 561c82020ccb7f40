-- ===== src/Coup/Restored.antt =====
-- From a coup of ntserv/coup.c to the planet's return in `plfight` of ntserv/daemon.c.
use netrek_server.Base.{
  ℕ, ◌+◌, ◌-◌, ◌/◌, ◌<◌, Bool, true, false, not, ◌&&◌, ◌||◌, ◌≡◌, refl, sym, ap, ◌∙◌, subst, inl,
  inr, pos, pos_part, ltb_ℤ, ltb, ◌==◌, if◌then◌else◌, ==→eq, ==→ne, put_ne, if_true, Bool-cases,
  if_both, if_cases, sweep, sweep_in, loop_inv, arith, Option, none, some, find, find-none,
  put_self, put_keeps,
}
use netrek_server.Game.{
  Player, Planet, Game, Teams, Client, Reply, accepted, refused, mine, set_player, set_planet,
  max_player, max_planets, is_alive, is_assault, meets, same,
}
use netrek_server.Blast.{inflict, is_destroyed, on_ship}
use netrek_server.Bombard.{
  Front, in_redraw, redrawn, seen, overthrown, in_fire, no_armies, planet_hits, planet_fires,
  pldamageplayer, bombs, may_bomb, go_to_war, bombing_credit, bombed, bomb_run, fight_turn, plfight,
}
use netrek_server.Coup.{
  is_found, has_armies, owns_planet, home_refusal, coup, coup_by, coup_refusal, throw_coup,
}

-- Planet `h` belongs to team `t` and has the four armies of a coup.
pub record IsHeld (h : ℕ) (t : Teams) (g : Game) : Type 0 where
  pub owner : (g.planets h).pl_owner ≡ t
  pub four : (g.planets h).pl_armies ≡ pos 4

module _ (h : ℕ) (t : Teams) where
  IsHeld-ship : (j : ℕ) (p : Player) (g : Game) → IsHeld h t g → IsHeld h t (set_player j p g)
  IsHeld-ship j p g m = record { owner = m.owner; four = m.four }

  seen-Held : (j k : ℕ) (g : Game) → IsHeld h t g → IsHeld h t (seen j k g)
  unfolding seen
  seen-Held j k g m =
      if_both (IsHeld h t) (in_redraw (g.players j) (g.planets k))
        (record {
          owner =
              put_keeps (λ (l : Planet). l.pl_owner) g.planets k (redrawn (g.planets k)) h refl
              ∙ m.owner;
          four =
              put_keeps (λ (l : Planet). l.pl_armies) g.planets k (redrawn (g.planets k)) h refl
              ∙ m.four;
        })
        m

  planet_hits-Held : (j k : ℕ) (g : Game) → IsHeld h t g → IsHeld h t (planet_hits j k g)
  unfolding planet_hits
  planet_hits-Held j k g m =
      let hit = on_ship j (inflict (pos_part (g.planets k).pl_armies / 10 + 2)) g in
      let a : IsHeld h t hit = IsHeld-ship j _ g m in
      if_both (IsHeld h t) (is_destroyed (hit.players j)) (IsHeld-ship j _ hit a) a

  pldamageplayer-Held : (j : ℕ) (g : Game) → IsHeld h t g → IsHeld h t (pldamageplayer j g)
  unfolding pldamageplayer planet_fires
  pldamageplayer-Held j g m =
      loop_inv (λ k (x : Game). IsHeld h t x) (planet_fires j) max_planets 0 max_planets g refl
        (λ k x lo hi w.
          let s = seen-Held j k x w in
          if_both (IsHeld h t) (not (meets (x.players j).p_war (x.planets k).pl_owner)) w (
            if_both (IsHeld h t) (no_armies (x.planets k)) w (
              if_both (IsHeld h t) (in_fire (x.players j) (x.planets k))
                (planet_hits-Held j k (seen j k x) s) s)))
        m

  too_few : (p : Player) (l : Planet) → l.pl_armies ≡ pos 4 → may_bomb p l ≡ false
  unfolding may_bomb
  too_few p l four = ground arith

  -- The run of a ship that may bomb cannot be on the planet, which has too few armies.
  bomb_run-Held :
      (draw j : ℕ) (g : Game)
      → may_bomb (g.players j) (g.planets (g.players j).p_planet) ≡ true
      → IsHeld h t g
      → IsHeld h t (bomb_run draw j g)
  unfolding bomb_run
  bomb_run-Held draw j g ok m =
      let p = g.players j in
      let l = g.planets p.p_planet in
      let ab = bombs draw (is_assault p.p_ship.s_type) in
      let war = on_ship j (go_to_war l.pl_owner) g in
      let w : IsHeld h t war = IsHeld-ship j (go_to_war l.pl_owner p) g m in
      let credited = on_ship j (bombing_credit ab) war in
      let c : IsHeld h t credited = IsHeld-ship j (bombing_credit ab (war.players j)) war w in
      if_both (IsHeld h t) (ab == 0) w (
        elsewhere credited p.p_planet (bombed ab l) c (λ e.
          let four : l.pl_armies ≡ pos 4 =
            subst (λ k. (g.planets k).pl_armies ≡ pos 4) (sym e) m.four in
          absurd (ground (arith, too_few p l four))))
    where
      elsewhere :
          (x : Game) (k : ℕ) (l : Planet)
          → IsHeld h t x
          → (k ≡ h → IsHeld h t (set_planet k l x))
          → IsHeld h t (set_planet k l x)
      elsewhere x k l c here = elim (Bool-cases (k == h)) [
        | inl e ↦ here (==→eq k h e)
        | inr ne ↦ record {
          owner = ap (λ (q : Planet). q.pl_owner) (put_ne x.planets k h l (==→ne k h ne)) ∙ c.owner;
          four = ap (λ (q : Planet). q.pl_armies) (put_ne x.planets k h l (==→ne k h ne)) ∙ c.four;
        }
      ]

  fight_turn-Held :
      (draws : ℕ → ℕ) (j : ℕ) (f : Front)
      → IsHeld h t f.game
      → IsHeld h t (fight_turn draws j f).game
  unfolding fight_turn
  fight_turn-Held draws j f m =
      let g = pldamageplayer j f.game in
      let d = pldamageplayer-Held j f.game m in
      let p = g.players j in
      if_both (λ (x : Front). IsHeld h t x.game) (not (is_alive (f.game.players j).p_status)) m
        (if_cases (λ (x : Front). IsHeld h t x.game) (may_bomb p (g.planets p.p_planet))
          (λ ok. bomb_run-Held (draws j) j g ok d) (λ no_run. d))

  plfight-Held :
      (draws : ℕ → ℕ) (f : Front)
      → h < max_planets
      → (f.game.planets h).pl_coup ≡ true
      → (f.game.planets h).origin ≡ t
      → IsHeld h t (plfight draws f).game
  unfolding plfight overthrown
  plfight-Held draws f lt marked home =
      let start : Front = record {
        game = record (f.game) { planets = sweep max_planets 0 (λ k. overthrown) f.game.planets };
        pl_warning = sweep max_planets 0 (λ k w. w - 1) f.pl_warning;
      } in
      let here = sweep_in max_planets (λ k. overthrown) f.game.planets h lt in
      loop_inv (λ j (x : Front). IsHeld h t x.game) (fight_turn draws) max_player 0 max_player start
        refl (λ j x lo hi k. fight_turn-Held draws j x k)
        (record {
          owner =
              ap (λ (q : Planet). q.pl_owner) here
              ∙ ap (λ (q : Planet). q.pl_owner) (marked_back (f.game.planets h) marked)
              ∙ home;
          four =
              ap (λ (q : Planet). q.pl_armies) here
              ∙ ap (λ (q : Planet). q.pl_armies) (marked_back (f.game.planets h) marked);
        })
    where
      marked_back :
          (l : Planet)
          → l.pl_coup ≡ true
          → overthrown l ≡ record l {
            pl_coup = false;
            pl_owner = l.origin;
            pl_armies = pos 4;
            pl_redraw = false;
          }
      marked_back l e =
          ap (λ (q : Planet). record q { pl_redraw = false }) (if_true l.pl_coup _ _ e)

-- What a coup rests on.
pub record IsCoup (c : Client) : Type 0 where
  pub landless :
      (i : ℕ)
      → i < max_planets
      → same (c.game.planets i).pl_owner (mine c).p_team ≡ true
      → ltb_ℤ (pos 0) (c.game.planets i).pl_armies ≡ false
  pub home : same (c.game.planets (mine c).p_planet).origin (mine c).p_team ≡ true

none_owned : (c : Client) → owns_planet c ≡ false → find max_planets 0 (has_armies c) ≡ none
unfolding owns_planet
none_owned c e = go (find max_planets 0 (has_armies c)) e
  where
    go : (o : Option ℕ) → is_found o ≡ false → o ≡ none
    go none f = refl
    go (some i) f = absurd (cc)

-- A test that did not refuse.
past :
    (b : Bool) (r : Reply) (o : Option Reply)
    → (if b then some r else o) ≡ none
    → (b ≡ false) × (o ≡ none)
past false r o e = (refl, e)
past true r o e = absurd (cc)

coup_refusal-none : (c : Client) → coup_refusal c ≡ none → IsCoup c
unfolding coup_refusal home_refusal
coup_refusal-none c e =
    let p = mine c in
    let l = c.game.planets p.p_planet in
    let orbits = (past (ltb p.p_kills 100) (refused (pos 3)) _ e).1 in
    let landless = (past (not p.p_flags.orbit) (refused (pos 4)) _ orbits).1 in
    let own = past (owns_planet c) (refused (pos 5)) _ landless in
    let at_home =
      (past (not l.pl_home || not (same l.origin p.p_team)) (refused (pos 6)) _ own.1).0 in
    let f = none_owned c own.0 in
    record {
      landless = λ i lt mine_too.
          both_false (same (c.game.planets i).pl_owner (mine c).p_team)
            (ltb_ℤ (pos 0) (c.game.planets i).pl_armies)
            (find-none max_planets 0 (has_armies c) i f (omega arith) (omega arith)) mine_too;
      home = right_true l.pl_home (same l.origin p.p_team) at_home;
    }
  where
    both_false : (a b : Bool) → (a && b) ≡ false → a ≡ true → b ≡ false
    both_false a b e t = ground arith

    right_true : (a b : Bool) → (not a || not b) ≡ false → b ≡ true
    right_true a b e = ground arith

-- No test accepts.
abbrev is_accepted : Option Reply → Bool
is_accepted (some accepted) = true
is_accepted _ = false

abbrev Refuses : Option Reply → Type 0
Refuses o = is_accepted o ≡ false

never_accepted : (c : Client) → Refuses (coup_refusal c)
unfolding coup_refusal home_refusal
never_accepted c =
    let p = mine c in
    let l = c.game.planets p.p_planet in
    if_both Refuses (ltb p.p_kills 100) refl (
      if_both Refuses (not p.p_flags.orbit) refl (
        if_both Refuses (owns_planet c) refl (
          if_both Refuses (not l.pl_home || not (same l.origin p.p_team)) refl (
            if_both Refuses (ltb_ℤ (pos 4) l.pl_armies) refl
              (if_both Refuses (ltb 0 l.pl_couptime) refl (if_both Refuses l.pl_coup refl refl))))))

coup_refusal-accepted : (c : Client) → (coup c).1 ≡ accepted → coup_refusal c ≡ none
unfolding coup coup_by
coup_refusal-accepted c e = go (coup_refusal c) refl e
  where
    accepts :
        (r : Reply) → r ≡ accepted → is_accepted (some r) ≡ false → (◌≡◌ {A = Bool} true false)
    accepts r e f = ap (λ (x : Reply). is_accepted (some x)) (sym e) ∙ f

    go :
        (o : Option Reply) → coup_refusal c ≡ o → (coup_by o c).1 ≡ accepted → coup_refusal c ≡ none
    go none f a = f
    go (some r) f a =
        (let both = accepts r a (ap is_accepted (sym f) ∙ never_accepted c) in absurd (cc))

thrown : (c : Client) → coup_refusal c ≡ none → (coup c).0 ≡ throw_coup c
unfolding coup coup_by
thrown c n = ap (λ (o : Option Reply). (coup_by o c).0) n

marked_coup : (c : Client) → ((throw_coup c).game.planets (mine c).p_planet).pl_coup ≡ true
unfolding throw_coup
marked_coup c =
    ap (λ (l : Planet). l.pl_coup)
      (put_self c.game.planets (mine c).p_planet
        (record (c.game.planets (mine c).p_planet) { pl_coup = true }))

marked_origin :
    (c : Client)
    → ((throw_coup c).game.planets (mine c).p_planet).origin
      ≡ (c.game.planets (mine c).p_planet).origin
unfolding throw_coup
marked_origin c =
    ap (λ (l : Planet). l.origin)
      (put_self c.game.planets (mine c).p_planet
        (record (c.game.planets (mine c).p_planet) { pl_coup = true }))

-- A coup that is accepted was thrown by a player whose team owned no planet with armies; whatever
-- fires and bombs in it, the next `plfight` leaves the planet in the hands of the player's team with
-- exactly four armies.
pub coup-restored :
    (c : Client) (draws : ℕ → ℕ) (warning : ℕ → ℕ)
    → (coup c).1 ≡ accepted
    → (mine c).p_planet < max_planets
    → let after =
        (plfight draws (record { game = (coup c).0.game; pl_warning = warning })).game.planets
          (mine c).p_planet in
      IsCoup c × (same after.pl_owner (mine c).p_team ≡ true) × (after.pl_armies ≡ pos 4)
coup-restored c draws warning e lt =
    let n = coup_refusal-accepted c e in
    let i = coup_refusal-none c n in
    let h = (mine c).p_planet in
    let f : Front = record { game = (throw_coup c).game; pl_warning = warning } in
    let held : IsHeld h (c.game.planets h).origin (plfight draws f).game =
      plfight-Held h (c.game.planets h).origin draws f lt (marked_coup c) (marked_origin c) in
    subst
      (λ (d : Client).
        let after =
          (plfight draws (record { game = d.game; pl_warning = warning })).game.planets h in
        IsCoup c × (same after.pl_owner (mine c).p_team ≡ true) × (after.pl_armies ≡ pos 4))
      (sym (thrown c n)) (i, ap (λ x. same x (mine c).p_team) held.owner ∙ i.home, held.four)
