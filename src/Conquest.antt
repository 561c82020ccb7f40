-- ===== src/Conquest.antt =====
-- How the galaxy is won and how a team is finished: `checkwin`, `checkgen` and `addTroops` of
-- ntserv/daemon.c, with the counters of `struct team` of include/struct.h. The parade that
-- `conquer_begin` starts is the outcome that `checkwin` returns; messages are left out.
pub mod Victory
pub mod Genocide
use netrek_server.Base.{
  ℕ, zero, suc, ◌+◌, ◌-◌, ◌*◌, ◌/◌, ◌%◌, Bool, true, false, not, ◌&&◌, ◌||◌, Option, none, some, ℤ,
  pos, ◌+ℤ◌, sweep, ltb, leb, ◌==◌, if◌then◌else◌, put, find, count, loop,
}
use netrek_server.Game.{
  Team, fed, rom, kli, ori, Teams, only, same, nobody, Player, Planet, Game, set_player, set_planet,
  max_planets, max_player, Status, explode, is_alive, is_free, WhyDead, genocide, ShipType,
  is_starbase,
}

-- values of `te_surrender_pause`
pub data SurrenderPause : Type 0 where
  pause_off pause_on_tourn pause_on_planets : SurrenderPause

-- `struct team`, without the starbase's `te_turns`
pub record Empire : Type 0 where
  pub te_surrender : ℕ
  pub te_surrender_frame : ℕ
  pub te_surrender_pause : SurrenderPause
  pub te_plcount : ℕ

-- The shared memory with the teams' counters, and the settings that the three functions read;
-- `surr_length` is SURRLENGTH and `pre_t_round` the bit GU_PRET.
pub record Realm : Type 0 where
  pub game : Game
  pub empires : Teams → Empire
  pub frame : ℕ
  pub inl_mode : Bool
  pub binconfirm : Bool
  pub surrender_start : ℕ
  pub surr_length : ℕ
  pub pre_t_round : Bool
  pub pret_planets : ℕ

-- Planets of `t` among the `n` from `start` on.
unfoldable pub owned : Game → Teams → ℕ → ℕ → ℕ
owned g t n start = count n start (λ h. same (g.planets h).pl_owner t)

-- `te_plcount` of every team, counted anew
unfoldable pub recount : Realm → Realm
unfolding owned
recount r = record r {
  empires = λ t. record (r.empires t) { te_plcount = owned r.game t max_planets 0 };
}

abbrev set_empire : Teams → Empire → Realm → Realm
set_empire t e r = record r { empires = λ u. if same u t then e else r.empires u }

-- The team that the system's home planets are counted for: the chain of `else if`.
unfoldable pub system_of : ℕ → ℕ → ℕ → ℕ → Option Team
system_of f r k o =
    if f + r + k == 0
    then some ori
    else if f + r + o == 0
    then some kli
    else if f + k + o == 0
    then some rom
    else if r + k + o == 0
    then some fed
    else none

unfoldable pub system_winner : Game → ℕ → Option Team
unfolding system_of
system_winner g i =
    system_of (owned g (only fed) 10 (i * 10)) (owned g (only rom) 10 (i * 10))
      (owned g (only kli) 10 (i * 10)) (owned g (only ori) 10 (i * 10))

abbrev pub eq_team : Team → Team → Bool
eq_team fed fed = true
eq_team rom rom = true
eq_team kli kli = true
eq_team ori ori = true
eq_team _ _ = false

abbrev pub goes_to : Option Team → Team → Bool
goes_to none t = false
goes_to (some s) t = eq_team s t

-- `team[1<<i]`
unfoldable pub systems_won : Game → Team → ℕ
unfolding system_winner
systems_won g t = count 4 0 (λ i. goes_to (system_winner g i) t)

abbrev pub victory : ℕ
victory = 3

unfoldable pub is_conquest : Game → Bool
unfolding systems_won
is_conquest g =
    leb victory (systems_won g fed)
    || leb victory (systems_won g rom)
    || leb victory (systems_won g kli)
    || leb victory (systems_won g ori)

pub data Outcome : Type 0 where
  goes_on conquest round_won : Outcome
  round_needs : ℕ → Outcome

abbrev pub surrend : ℕ
surrend = 4

unfoldable pub end_surrender : Teams → Realm → Realm
end_surrender w r =
    let e = r.empires w in
    if ltb 0 e.te_surrender && (e.te_plcount == surrend)
    then set_empire w (record e { te_surrender = 0; te_surrender_frame = r.frame }) r
    else r

-- `need` is what the source keeps in an int and compares with 1.
unfoldable pub round_outcome : Teams → Realm → Outcome
round_outcome w r =
    let need = 10 + r.pret_planets - (r.empires w).te_plcount in
    if not r.game.tourn && r.pre_t_round
    then (if ltb need 1 then round_won else round_needs need)
    else goes_on

unfoldable pub outcome : Teams → Realm → Outcome
unfolding is_conquest round_outcome
outcome w r = if is_conquest r.game then conquest else round_outcome w r

-- `w` is the winner's team. The source returns 1 where the outcome is `conquest`.
unfoldable pub checkwin : Teams → Realm → Realm × Outcome
unfolding recount end_surrender outcome
checkwin w r =
    if r.inl_mode
    then (r, goes_on)
    else (end_surrender w (recount r), outcome w (end_surrender w (recount r)))

unfoldable pub p_explosion : WhyDead → ℕ → Player → Player
p_explosion why who p = record p {
  p_status = explode;
  p_explode = (if is_starbase p.p_ship.s_type then pos 14 else pos 10);
  p_whydead = why;
  p_whodead = who;
}

-- Players of the losing team, in any state but free.
unfoldable pub defenders : Teams → Game → ℕ
defenders loser g =
    count max_player 0
      (λ i. not (is_free (g.players i).p_status) && same (g.players i).p_team loser)

-- `luck` and `gift h` are what the calls of `random()` return, the last for planet `h`.
unfoldable pub enrolled : Teams → ℕ → (ℕ → ℕ) → ℕ → Planet → Planet
enrolled winner n gift h l =
    if same l.pl_owner winner
    then record l { pl_armies = l.pl_armies +ℤ pos (gift h % (2 * n)) }
    else l

unfoldable pub add_troops : Teams → Teams → ℕ → (ℕ → ℕ) → Game → Game
unfolding defenders enrolled sweep
add_troops loser winner luck gift g =
    let n = defenders loser g in
    if ltb n 3
    then g
    else if ltb n 6 && (luck % n == 0)
    then g
    else record g { planets = sweep max_planets 0 (enrolled winner n gift) g.planets }

-- One player of the losing team, in the loop at the end of `checkgen`; `who` is the winner.
unfoldable pub genocided : Teams → ℕ → Player → Player
unfolding p_explosion
genocided loser who p =
    if same p.p_team loser
    then (let q : Player = record p {
      p_genoplanets = 0;
      p_genoarmsbomb = 0;
      p_armsbomb = 0;
      p_planets = 0;
    } in
        if is_alive p.p_status then p_explosion genocide who q else q)
    else p

-- The last home planet of the losing team, whose mark no step of the call changes. The source goes on
-- with a null pointer if there is none.
unfoldable pub home_of : Teams → Game → Option ℕ
unfolding loop
home_of loser g =
    loop max_planets 0
      (λ i o. if same (g.planets i).origin loser && (g.planets i).pl_home then some i else o) none

unfoldable pub set_couptime : Option ℕ → ℕ → Game → Game
set_couptime none draw g = g
set_couptime (some h) draw g =
    set_planet h (record (g.planets h) { pl_couptime = 30 + draw % 30 }) g

-- The clock of a team down to its last planets.
unfoldable pub collapse_minutes : Realm → ℕ
collapse_minutes r = if r.binconfirm then r.surr_length else r.surr_length * 2 / 3

unfoldable pub begin_surrender : Teams → Realm → Realm
unfolding collapse_minutes
begin_surrender loser r =
    let e = r.empires loser in
    if e.te_surrender == 0 && (e.te_plcount == r.surrender_start)
    then set_empire loser
        (record e {
          te_surrender = collapse_minutes r;
          te_surrender_pause = pause_off;
          te_surrender_frame = r.frame;
        })
        r
    else r

unfoldable pub stop_clock : Teams → Realm → Realm
stop_clock loser r =
    set_empire loser (record (r.empires loser) { te_surrender = 0; te_surrender_frame = r.frame }) r

-- The credit for the last planet.
unfoldable pub credit_last : ℕ → Realm → Realm
credit_last j r =
    let p = r.game.players j in
    record r {
      game =
          set_player j
            (record p { p_genoplanets = p.p_genoplanets + 1; p_planets = p.p_planets + 1 }) r.game;
    }

-- What the calls of `random()` return.
pub record Spoils : Type 0 where
  pub luck : ℕ
  pub gift : ℕ → ℕ
  pub coup_draw : ℕ

unfoldable pub finish_team : Spoils → Teams → ℕ → Game → Game
unfolding add_troops genocided home_of set_couptime sweep
finish_team s loser j g =
    let armed = add_troops loser (g.players j).p_team s.luck s.gift g in
    set_couptime (home_of loser g) s.coup_draw (record armed {
      players = sweep max_player 0 (λ i. genocided loser (g.players j).p_no) armed.players;
    })

-- After `checkwin`: a conquest ends the call.
unfoldable pub after_win : Spoils → Teams → ℕ → Realm × Outcome → Realm × Outcome
unfolding finish_team
after_win s loser j (r, conquest) = (r, conquest)
after_win s loser j (r, goes_on) = (record r { game = finish_team s loser j r.game }, goes_on)
after_win s loser j (r, round_won) = (record r { game = finish_team s loser j r.game }, round_won)
after_win s loser j (r, round_needs n) =
    (record r { game = finish_team s loser j r.game }, round_needs n)

-- `j` is the winner's index.
unfoldable pub wipe_out : Spoils → Teams → ℕ → Realm → Realm × Outcome
unfolding after_win stop_clock credit_last checkwin
wipe_out s loser j r =
    after_win s loser j (checkwin (r.game.players j).p_team (credit_last j (stop_clock loser r)))

unfoldable pub checkgen : Spoils → Teams → ℕ → Realm → Realm × Outcome
unfolding recount begin_surrender wipe_out
checkgen s loser j r =
    let c = begin_surrender loser (recount r) in
    if r.inl_mode
    then (r, goes_on)
    else if ltb 0 (c.empires loser).te_plcount
    then (c, goes_on)
    else wipe_out s loser j c
