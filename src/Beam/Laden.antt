-- ===== src/Beam/Laden.antt =====
-- No ship carries more armies than its class allows, through all of `beam` of ntserv/daemon.c.
use netrek_server.Base.{
  ℕ, ◌+◌, ◌-◌, ◌≤◌, false, not, ◌&&◌, ◌||◌, ◌≡◌, refl, sym, subst, ltb, leb, ◌==◌, if_both,
  if_cases, sweep, sweep_at, loop_inv, ==→eq, arith,
}
use netrek_server.Game.{Player, Game, Teams, nobody, same, meets, set_player, max_player, is_alive}
use netrek_server.Conquest.{
  Realm, Outcome, conquest, goes_on, round_won, round_needs, Spoils, checkwin, checkgen, genocided,
  finish_team, after_win, wipe_out, begin_surrender, recount, stop_clock, credit_last, home_of,
  add_troops,
}
use netrek_server.Conquest.Genocide.{
  checkwin_game, begin_surrender_game, set_couptime_players, add_troops_players,
}
use netrek_server.Beam.{
  stays_down, load, unload, on_player, on_planet, beam_one_up, raided, hostile_drop, capture,
  take_over, drop_on_planet, drop_in_base, beam_one_down, beam_ship, beam_turn, beam, Pass, neutral,
  captured, is_cheap, is_zero,
}

abbrev pub Fits : Player → Type 0
Fits p = p.p_armies ≤ p.p_ship.s_maxarmies

pub record IsLaden (g : Game) : Type 0 where
  pub fits : (k : ℕ) → Fits (g.players k)

IsLaden-set : (i : ℕ) (p : Player) (g : Game) → IsLaden g → Fits p → IsLaden (set_player i p g)
IsLaden-set i p g l h = record { fits = λ k. if_both Fits (i == k) h (l.fits k) }

genocided-Fits : (loser : Teams) (who : ℕ) (p : Player) → Fits p → Fits (genocided loser who p)
unfolding genocided
genocided-Fits loser who p h =
    if_both Fits (same p.p_team loser) (if_both Fits (is_alive p.p_status) h h) h

finish_team-Laden :
    (s : Spoils) (loser : Teams) (j : ℕ) (g : Game) → IsLaden g → IsLaden (finish_team s loser j g)
unfolding finish_team
finish_team-Laden s loser j g l = record {
  fits = λ k.
      let who = (g.players j).p_no in
      let armed = add_troops loser (g.players j).p_team s.luck s.gift g in
      let armed_fits : Fits (armed.players k) =
        subst (λ (ps : ℕ → Player). Fits (ps k))
          (sym (add_troops_players loser (g.players j).p_team s.luck s.gift g)) (l.fits k) in
      subst (λ (ps : ℕ → Player). Fits (ps k))
        (sym (
          set_couptime_players (home_of loser g) s.coup_draw (record armed {
            players = sweep max_player 0 (λ i. genocided loser who) armed.players;
          })))
        (subst Fits (sym (sweep_at max_player 0 (λ i. genocided loser who) armed.players k)) (
          if_both Fits (leb 0 k && ltb k (0 + max_player))
            (genocided-Fits loser who (armed.players k) armed_fits) armed_fits));
}

after_win-Laden :
    (s : Spoils) (loser : Teams) (j : ℕ) (x : Realm × Outcome)
    → IsLaden x.0.game
    → IsLaden (after_win s loser j x).0.game
unfolding after_win
after_win-Laden s loser j (r, conquest) l = l
after_win-Laden s loser j (r, goes_on) l = finish_team-Laden s loser j r.game l
after_win-Laden s loser j (r, round_won) l = finish_team-Laden s loser j r.game l
after_win-Laden s loser j (r, round_needs n) l = finish_team-Laden s loser j r.game l

checkgen-Laden :
    (s : Spoils) (loser : Teams) (j : ℕ) (r : Realm)
    → IsLaden r.game
    → IsLaden (checkgen s loser j r).0.game
unfolding checkgen wipe_out credit_last stop_clock
checkgen-Laden s loser j r l =
    let c = begin_surrender loser (recount r) in
    let lc : IsLaden c.game = subst IsLaden (sym (begin_surrender_game loser r)) l in
    let last : Realm = credit_last j (stop_clock loser c) in
    if_both (λ (x : Realm × Outcome). IsLaden x.0.game) r.inl_mode l
      (if_both (λ (x : Realm × Outcome). IsLaden x.0.game) (ltb 0 (c.empires loser).te_plcount) lc
        (after_win-Laden s loser j (checkwin (c.game.players j).p_team last) (
          subst IsLaden (sym (checkwin_game (c.game.players j).p_team last))
            (IsLaden-set j _ c.game lc (lc.fits j)))))

room_for_one :
    (g : Game) (p : Player) → stays_down g p ≡ false → p.p_armies + 1 ≤ p.p_ship.s_maxarmies
unfolding stays_down
room_for_one g p go = ground arith

unload-Fits : (p : Player) → Fits p → Fits (unload p)
unload-Fits p h = omega arith

beam_one_up-Laden :
    (i : ℕ) (g : Game) → stays_down g (g.players i) ≡ false → IsLaden g → IsLaden (beam_one_up i g)
unfolding beam_one_up
beam_one_up-Laden i g go l =
    let p = g.players i in
    let up : IsLaden (on_player i load g) = IsLaden-set i (load p) g l (room_for_one g p go) in
    if_both IsLaden p.p_flags.orbit (record { fits = up.fits })
      (if_both IsLaden p.p_flags.dock
        (IsLaden-set p.p_dock_with _ (on_player i load g) up
          (unload-Fits ((on_player i load g).players p.p_dock_with) (up.fits p.p_dock_with)))
        up)

drop_in_base-Laden : (i b : ℕ) (g : Game) → IsLaden g → IsLaden (drop_in_base i b g)
unfolding drop_in_base
drop_in_base-Laden i b g l =
    let down : IsLaden (on_player i unload g) =
      IsLaden-set i (unload (g.players i)) g l (unload-Fits (g.players i) (l.fits i)) in
    if_both IsLaden (not (same (g.players b).p_team (g.players i).p_team)) l (
      if_cases IsLaden (leb (g.players b).p_ship.s_maxarmies (g.players b).p_armies) (λ full. l)
        (λ room. IsLaden-set b _ (on_player i unload g) down (
          if_cases (λ (q : Player). q.p_armies + 1 ≤ q.p_ship.s_maxarmies) (i == b)
            (λ e.
              subst (λ k. (g.players k).p_armies - 1 + 1 ≤ (g.players k).p_ship.s_maxarmies)
                (sym (==→eq i b e)) (ground arith))
            (λ ne. ground arith))))

hostile_drop-Laden :
    (s : Spoils) (i h : ℕ) (r : Realm) → IsLaden r.game → IsLaden (hostile_drop s i h r).0.game
unfolding hostile_drop raided
hostile_drop-Laden s i h r l =
    let g = raided i h r.game in
    let lg : IsLaden g = record {
      fits = (IsLaden-set i _ r.game l (unload-Fits (r.game.players i) (l.fits i))).fits;
    } in
    let fallen = on_planet h (neutral (is_cheap g (g.planets h))) g in
    if_both (λ (x : Realm × Outcome). IsLaden x.0.game) (is_zero (g.planets h).pl_armies)
      (checkgen-Laden s (r.game.planets h).pl_owner i (record r { game = fallen })
        (record { fits = lg.fits }))
      lg

take_over-Laden : (i h : ℕ) (r : Realm) → IsLaden r.game → IsLaden (take_over i h r).0.game
unfolding take_over
take_over-Laden i h r l =
    let team = (r.game.players i).p_team in
    let lg =
      IsLaden-set i (capture (r.game.players i)) r.game l
        (unload-Fits (r.game.players i) (l.fits i)) in
    let g = on_planet h (captured team) (on_player i capture r.game) in
    subst IsLaden (sym (checkwin_game team (record r { game = g }))) (record { fits = lg.fits })

drop_on_planet-Laden :
    (s : Spoils) (i h : ℕ) (r : Realm) → IsLaden r.game → IsLaden (drop_on_planet s i h r).0.game
unfolding drop_on_planet
drop_on_planet-Laden s i h r l =
    let p = r.game.players i in
    let t = r.game.planets h in
    let lg = IsLaden-set i (unload p) r.game l (unload-Fits p (l.fits i)) in
    if_both (λ (x : Realm × Outcome). IsLaden x.0.game)
      (not (meets p.p_war t.pl_owner)
        && not (same p.p_team t.pl_owner)
        && not (same t.pl_owner nobody))
      l
      (if_both (λ (x : Realm × Outcome). IsLaden x.0.game) (same p.p_team t.pl_owner)
        (record { fits = lg.fits })
        (if_both (λ (x : Realm × Outcome). IsLaden x.0.game) (is_zero t.pl_armies)
          (take_over-Laden i h r l) (hostile_drop-Laden s i h r l)))

beam_one_down-Laden :
    (s : Spoils) (i : ℕ) (r : Realm) → IsLaden r.game → IsLaden (beam_one_down s i r).0.game
unfolding beam_one_down
beam_one_down-Laden s i r l =
    let p = r.game.players i in
    if_both (λ (x : Realm × Outcome). IsLaden x.0.game) (p.p_armies == 0) l
      (if_both (λ (x : Realm × Outcome). IsLaden x.0.game) p.p_flags.orbit
        (drop_on_planet-Laden s i p.p_planet r l)
        (if_both (λ (x : Realm × Outcome). IsLaden x.0.game) p.p_flags.dock
          (drop_in_base-Laden i p.p_dock_with r.game l) l))

beam_ship-Laden :
    (s : Spoils) (i : ℕ) (r : Realm) → IsLaden r.game → IsLaden (beam_ship s i r).0.game
unfolding beam_ship
beam_ship-Laden s i r l =
    let p = r.game.players i in
    if_both (λ (x : Realm × Outcome). IsLaden x.0.game)
      (not (is_alive p.p_status) || not (p.p_flags.orbit || p.p_flags.dock)) l
      (if_both (λ (x : Realm × Outcome). IsLaden x.0.game) p.p_flags.beamup
        (if_cases (λ (k : Realm). IsLaden k.game) (stays_down r.game p) (λ down. l)
          (λ go. beam_one_up-Laden i r.game go l))
        (if_both (λ (x : Realm × Outcome). IsLaden x.0.game) p.p_flags.beamdown
          (beam_one_down-Laden s i r l) l))

-- A whole pass of `beam` over the ships, with the captures, conquests and genocides that it causes,
-- leaves no ship with more armies than its class allows, if none had more before.
pub beam-Laden : (s : ℕ → Spoils) (r : Realm) → IsLaden r.game → IsLaden (beam s r).game
unfolding beam beam_turn
beam-Laden s r l =
    loop_inv (λ i (x : Pass). IsLaden x.realm.game) (beam_turn s) max_player 0 max_player
      (record { realm = r; over = false }) refl
      (λ i x lo hi h.
        if_both (λ (y : Pass). IsLaden y.realm.game) x.over h (beam_ship-Laden (s i) i x.realm h))
      l
