-- ===== src/Conquest/Genocide.antt =====
-- What `checkgen` of ntserv/daemon.c leaves of a team that has lost its last planet.
use netrek_server.Base.{
  ℕ, ◌%◌, ◌<◌, Bool, true, false, ◌&&◌, ◌≡◌, ◌≢◌, refl, sym, ap, ◌∙◌, subst, Option, none, some,
  inl, inr, ltb, ◌==◌, if_both, if_false, sweep, sweep_in, ◌⊎◌, ◌+ℤ◌, ◌≤ℤ◌, arith,
}
use netrek_server.Game.{Teams, same, Player, Planet, Game, max_player, max_planets, is_alive}
use netrek_server.Conquest.Victory.{recount_game, checkwin-decision}
use netrek_server.Conquest.{
  systems_won, system_winner, Realm, Spoils, owned, recount, is_conquest, Outcome, goes_on,
  conquest, round_won, round_needs, checkwin, genocided, enrolled, add_troops, defenders,
  finish_team, home_of, set_couptime, after_win, wipe_out, begin_surrender, stop_clock, credit_last,
  checkgen,
}

pub set_couptime_players :
    (o : Option ℕ) (draw : ℕ) (g : Game) → (set_couptime o draw g).players ≡ g.players
unfolding set_couptime
set_couptime_players none draw g = refl
set_couptime_players (some h) draw g = refl

pub add_troops_players :
    (loser winner : Teams) (luck : ℕ) (gift : ℕ → ℕ) (g : Game)
    → (add_troops loser winner luck gift g).players ≡ g.players
unfolding add_troops
add_troops_players loser winner luck gift g = ground arith

-- The players after the end of a team, one by one.
finish_team_players :
    (s : Spoils) (loser : Teams) (j i : ℕ) (g : Game)
    → i < max_player
    → (finish_team s loser j g).players i ≡ genocided loser (g.players j).p_no (g.players i)
unfolding finish_team
finish_team_players s loser j i g h =
    let armed = add_troops loser (g.players j).p_team s.luck s.gift g in
    let who = (g.players j).p_no in
    ap (λ (ps : ℕ → Player). ps i)
      (set_couptime_players (home_of loser g) s.coup_draw
        (record armed { players = sweep max_player 0 (λ k. genocided loser who) armed.players }))
    ∙ sweep_in max_player (λ k. genocided loser who) armed.players i h
    ∙ ap (λ (ps : ℕ → Player). genocided loser who (ps i))
        (add_troops_players loser (g.players j).p_team s.luck s.gift g)

set_couptime_armies :
    (o : Option ℕ) (draw : ℕ) (g : Game) (h : ℕ)
    → ((set_couptime o draw g).planets h).pl_armies ≡ (g.planets h).pl_armies
unfolding set_couptime
set_couptime_armies none draw g h = refl
set_couptime_armies (some k) draw g h = ground arith

enrolled-le :
    (winner : Teams) (n : ℕ) (gift : ℕ → ℕ) (h : ℕ) (l : Planet)
    → l.pl_armies ≤ℤ (enrolled winner n gift h l).pl_armies
unfolding enrolled ◌+ℤ◌
enrolled-le winner n gift h l = ground arith

troops-le :
    (loser winner : Teams) (luck : ℕ) (gift : ℕ → ℕ) (g : Game) (h : ℕ)
    → h < max_planets
    → (g.planets h).pl_armies ≤ℤ ((add_troops loser winner luck gift g).planets h).pl_armies
unfolding add_troops
troops-le loser winner luck gift g h lt =
    let n = defenders loser g in
    let more = sweep_in max_planets (enrolled winner n gift) g.planets h lt in
    let up = enrolled-le winner n gift h (g.planets h) in
    if_both (λ (k : Game). (g.planets h).pl_armies ≤ℤ (k.planets h).pl_armies) (ltb n 3)
      (omega arith)
      (if_both (λ (k : Game). (g.planets h).pl_armies ≤ℤ (k.planets h).pl_armies)
        (ltb n 6 && (luck % n == 0)) (omega arith)
        (subst (λ (l : Planet). (g.planets h).pl_armies ≤ℤ l.pl_armies) (sym more) up))

finish_team_armies :
    (s : Spoils) (loser : Teams) (j h : ℕ) (g : Game)
    → h < max_planets
    → (g.planets h).pl_armies ≤ℤ ((finish_team s loser j g).planets h).pl_armies
unfolding finish_team
finish_team_armies s loser j h g lt =
    let armed = add_troops loser (g.players j).p_team s.luck s.gift g in
    let who = (g.players j).p_no in
    subst (λ a. (g.planets h).pl_armies ≤ℤ a)
      (sym (
        set_couptime_armies (home_of loser g) s.coup_draw
          (record armed { players = sweep max_player 0 (λ k. genocided loser who) armed.players })
          h))
      (troops-le loser (g.players j).p_team s.luck s.gift g h lt)

genocided_dead :
    (loser : Teams) (who : ℕ) (p : Player)
    → ((is_alive (genocided loser who p).p_status && same (genocided loser who p).p_team loser)
        ≡ false)
      × ((same p.p_team loser ≡ true) ⊎ (genocided loser who p ≡ p))
unfolding genocided
genocided_dead loser who p = go (same p.p_team loser) refl
  where
    go :
        (t : Bool)
        → same p.p_team loser ≡ t
        → ((is_alive (genocided loser who p).p_status && same (genocided loser who p).p_team loser)
            ≡ false)
          × ((same p.p_team loser ≡ true) ⊎ (genocided loser who p ≡ p))
    go true e = (ground arith, inl e)
    go false e = (ground arith, inr (ground arith))

-- The decision of `checkwin` reads the planets only, and `checkwin` writes the counters only.
players_no_matter :
    (g : Game) (ps : ℕ → Player) → is_conquest (record g { players = ps }) ≡ is_conquest g
unfolding is_conquest systems_won system_winner owned
players_no_matter g ps = refl

pub checkwin_game : (w : Teams) (r : Realm) → (checkwin w r).0.game ≡ r.game
unfolding checkwin
checkwin_game w r = ground (arith, recount_game w r)

after_win_game :
    (s : Spoils) (loser : Teams) (j : ℕ) (x : Realm × Outcome)
    → x.1 ≢ conquest
    → (after_win s loser j x).0.game ≡ finish_team s loser j x.0.game
unfolding after_win
after_win_game s loser j (r, conquest) ne = absurd (ne refl)
after_win_game s loser j (r, goes_on) ne = refl
after_win_game s loser j (r, round_won) ne = refl
after_win_game s loser j (r, round_needs n) ne = refl

-- The state in which `checkwin` is called.
abbrev before_checkwin : Teams → ℕ → Realm → Realm
before_checkwin loser j r = credit_last j (stop_clock loser (begin_surrender loser (recount r)))

pub begin_surrender_game :
    (loser : Teams) (r : Realm) → (begin_surrender loser (recount r)).game ≡ r.game
unfolding begin_surrender recount
begin_surrender_game loser r = ground arith

credited_lem :
    (loser : Teams) (j : ℕ) (r : Realm)
    → is_conquest (before_checkwin loser j r).game ≡ is_conquest r.game
unfolding credit_last stop_clock
credited_lem loser j r =
    players_no_matter (begin_surrender loser (recount r)).game
      (before_checkwin loser j r).game.players
    ∙ ap is_conquest (begin_surrender_game loser r)

credited_planets :
    (loser : Teams) (j : ℕ) (r : Realm) → (before_checkwin loser j r).game.planets ≡ r.game.planets
unfolding credit_last stop_clock
credited_planets loser j r = ap (λ (g : Game). g.planets) (begin_surrender_game loser r)

credited_players :
    (loser : Teams) (j i : ℕ) (r : Realm)
    → ((i ≡ j) ⊎ ((before_checkwin loser j r).game.players i ≡ r.game.players i))
      × (((before_checkwin loser j r).game.players i).p_team ≡ (r.game.players i).p_team)
unfolding credit_last stop_clock begin_surrender recount
credited_players loser j i r = ground arith

pub plcount_recount :
    (loser : Teams) (r : Realm)
    → ((begin_surrender loser (recount r)).empires loser).te_plcount
      ≡ owned r.game loser max_planets 0
unfolding begin_surrender recount
plcount_recount loser r = ground arith

goes_on_fighting :
    (loser : Teams) (j : ℕ) (r : Realm)
    → is_conquest r.game ≡ false
    → (checkwin
        ((begin_surrender loser (recount r)).game.players j).p_team
        (before_checkwin loser j r)).1
      ≢ conquest
goes_on_fighting loser j r unwon c =
    let d = (checkwin-decision _ (before_checkwin loser j r)).0 c in
    let same_planets = credited_lem loser j r in let t = d.1 in cc

checkgen_game :
    (s : Spoils) (loser : Teams) (j : ℕ) (r : Realm)
    → r.inl_mode ≡ false
    → owned r.game loser max_planets 0 ≡ 0
    → is_conquest r.game ≡ false
    → (checkgen s loser j r).0.game ≡ finish_team s loser j (before_checkwin loser j r).game
unfolding checkgen wipe_out
checkgen_game s loser j r no_inl lost unwon =
    let c = begin_surrender loser (recount r) in
    let w = (c.game.players j).p_team in
    let none_left : ltb 0 (c.empires loser).te_plcount ≡ false =
      ground (arith, plcount_recount loser r) in
    ap (λ (x : Realm × Outcome). x.0.game)
      (if_false r.inl_mode (r, goes_on) _ no_inl
        ∙ if_false (ltb 0 (c.empires loser).te_plcount) (c, goes_on) (wipe_out s loser j c)
            none_left)
    ∙ after_win_game s loser j (checkwin w (before_checkwin loser j r))
        (goes_on_fighting loser j r unwon)
    ∙ ap (finish_team s loser j) (checkwin_game w (before_checkwin loser j r))

-- What is left of a player: of the losing team, the winner, or untouched.
untouched :
    (p q p' : Player) (loser : Teams) (i j : ℕ)
    → ((i ≡ j) ⊎ (q ≡ p)) × (q.p_team ≡ p.p_team)
    → (same q.p_team loser ≡ true) ⊎ (p' ≡ q)
    → (same p.p_team loser ≡ true) ⊎ (i ≡ j) ⊎ (p' ≡ p)
untouched p q p' loser i j (inl e, t) d = inr (inl e)
untouched p q p' loser i j (inr e, t) (inl d) = inl (ap (λ x. same x loser) (sym t) ∙ d)
untouched p q p' loser i j (inr e, t) (inr d) = inr (inr (d ∙ e))

gone : (p q p' : Player) (t : Bool) → (t ≡ true) ⊎ (p ≡ q) → p' ≡ p → (t ≡ true) ⊎ (p' ≡ q)
gone p q p' t (inl d) e = inl d
gone p q p' t (inr d) e = inr (e ∙ d)

-- A team whose last planet is gone, outside INL mode and where the loss does not end in a conquest:
-- no player of the team is left alive, every player of another team but the one who took the planet
-- is as before, and no planet has lost an army.
pub checkgen_wiped :
    (s : Spoils) (loser : Teams) (j : ℕ) (r : Realm) (i h : ℕ)
    → r.inl_mode ≡ false
    → owned r.game loser max_planets 0 ≡ 0
    → is_conquest r.game ≡ false
    → i < max_player
    → h < max_planets
    → (is_alive ((checkgen s loser j r).0.game.players i).p_status
          && same ((checkgen s loser j r).0.game.players i).p_team loser
        ≡ false)
      × ((same (r.game.players i).p_team loser ≡ true)
          ⊎ (i ≡ j)
          ⊎ ((checkgen s loser j r).0.game.players i ≡ r.game.players i))
      × ((r.game.planets h).pl_armies ≤ℤ ((checkgen s loser j r).0.game.planets h).pl_armies)
checkgen_wiped s loser j r i h no_inl lost unwon lti lth =
    let g = (before_checkwin loser j r).game in
    let end = checkgen_game s loser j r no_inl lost unwon in
    let who = (g.players j).p_no in
    let player : (checkgen s loser j r).0.game.players i ≡ genocided loser who (g.players i) =
      ap (λ (k : Game). k.players i) end ∙ finish_team_players s loser j i g lti in
    let dead = genocided_dead loser who (g.players i) in
    let before = credited_players loser j i r in
    let armies = finish_team_armies s loser j h g lth in
    (
      subst (λ (p : Player). (is_alive p.p_status && same p.p_team loser) ≡ false) (sym player)
          dead.0,
      untouched (r.game.players i) (g.players i) ((checkgen s loser j r).0.game.players i) loser i j
          before (gone _ (g.players i) _ (same (g.players i).p_team loser) dead.1 player),
      subst (λ (g' : Game). (r.game.planets h).pl_armies ≤ℤ (g'.planets h).pl_armies) (sym end)
          (subst
            (λ (pl : ℕ → Planet).
              (pl h).pl_armies ≤ℤ ((finish_team s loser j g).planets h).pl_armies)
            (credited_planets loser j r) armies),
    )
