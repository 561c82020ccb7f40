-- ===== src/Beam.antt =====
-- Armies between ships, planets and bases: `beam` of ntserv/daemon.c, which runs for all ships in
-- turn. The robots that `rescue` forks, messages and statistics are left out.
pub mod Steps
pub mod Balance
pub mod Laden
use netrek_server.Base.{
  ℕ, ◌+◌, ◌-◌, ◌*◌, ◌/◌, Bool, true, false, not, ◌&&◌, ◌||◌, ℤ, pos, ◌+ℤ◌, ◌-ℤ◌, ltb_ℤ, ltb, leb,
  ◌==◌, if◌then◌else◌, loop,
}
use netrek_server.Game.{
  Player, Planet, Game, Teams, nobody, same, meets, join, set_player, set_planet, real_num_ships,
  max_player, is_alive, is_starbase, is_assault,
}
use netrek_server.Conquest.{
  Realm, Outcome, conquest, goes_on, round_won, round_needs, Spoils, checkwin, checkgen,
}

-- The kill limit on carried armies, kills being hundredths; a starbase has none.
unfoldable pub kills_reached : Player → Bool
kills_reached p =
    if is_assault p.p_ship.s_type
    then leb (p.p_kills * 3 / 100) p.p_armies
    else not (is_starbase p.p_ship.s_type) && leb (p.p_kills * 2 / 100) p.p_armies

-- The tests of beaming up that `continue`, in order.
unfoldable pub stays_down : Game → Player → Bool
unfolding kills_reached
stays_down g p =
    let l = g.planets p.p_planet in
    p.p_flags.orbit && ltb_ℤ l.pl_armies (pos 5)
    || p.p_flags.dock && ltb (g.players p.p_dock_with).p_armies 1
    || leb p.p_ship.s_maxarmies p.p_armies
    || kills_reached p
    || p.p_flags.orbit && (not (same p.p_team l.pl_owner) || meets p.p_war l.pl_owner)

abbrev pub load : Player → Player
load p = record p { p_armies = p.p_armies + 1 }

-- Called with at least one army aboard.
abbrev pub unload : Player → Player
unload p = record p { p_armies = p.p_armies - 1 }

abbrev pub garrison : Planet → Planet
garrison l = record l { pl_armies = l.pl_armies +ℤ pos 1 }

abbrev pub draw_down : Planet → Planet
draw_down l = record l { pl_armies = l.pl_armies -ℤ pos 1 }

-- `players[i]` through f, `planets[h]` through f
abbrev pub on_player : ℕ → (Player → Player) → Game → Game
on_player i f g = set_player i (f (g.players i)) g

abbrev pub on_planet : ℕ → (Planet → Planet) → Game → Game
on_planet h f g = set_planet h (f (g.planets h)) g

unfoldable pub beam_one_up : ℕ → Game → Game
beam_one_up i g =
    let p = g.players i in
    if p.p_flags.orbit
    then on_planet p.p_planet draw_down (on_player i load g)
    else if p.p_flags.dock
    then on_player p.p_dock_with unload (on_player i load g)
    else on_player i load g

-- The ship that has put an army down on a hostile planet, and its credit.
abbrev pub raid : Teams → Player → Player
raid owner p = record p {
  p_armies = p.p_armies - 1;
  p_swar = join p.p_swar owner;
  p_kills = p.p_kills + 2;
  p_armsbomb = p.p_armsbomb + 1;
  p_genoarmsbomb = p.p_genoarmsbomb + 1;
}

-- Whether the next to take the planet gets limited credit.
unfoldable pub is_cheap : Game → Planet → Bool
is_cheap g l = g.tourn && ltb (real_num_ships g l.pl_owner) 2 && ltb (real_num_ships g l.origin) 2

abbrev pub neutral : Bool → Planet → Planet
neutral cheap l = record l { pl_cheap = cheap || l.pl_cheap; pl_owner = nobody }

abbrev pub is_zero : ℤ → Bool
is_zero z = not (ltb_ℤ (pos 0) z || ltb_ℤ z (pos 0))

unfoldable pub raided : ℕ → ℕ → Game → Game
raided i h g = on_planet h draw_down (on_player i (raid (g.planets h).pl_owner) g)

-- An army against an army; a planet that has lost its last one is nobody's.
unfoldable pub hostile_drop : Spoils → ℕ → ℕ → Realm → Realm × Outcome
unfolding is_cheap raided checkgen
hostile_drop s i h r =
    let g = raided i h r.game in
    if is_zero (g.planets h).pl_armies
    then checkgen s (r.game.planets h).pl_owner i
        (record r { game = on_planet h (neutral (is_cheap g (g.planets h))) g })
    else (record r { game = g }, goes_on)

abbrev pub capture : Player → Player
capture p = record p {
  p_armies = p.p_armies - 1;
  p_planets = p.p_planets + 1;
  p_genoplanets = p.p_genoplanets + 1;
  p_kills = p.p_kills + 25;
}

abbrev pub captured : Teams → Planet → Planet
captured team l = record l {
  pl_armies = l.pl_armies +ℤ pos 1;
  pl_cheap = false;
  pl_owner = team;
  pl_info = team;
}

unfoldable pub take_over : ℕ → ℕ → Realm → Realm × Outcome
unfolding checkwin
take_over i h r =
    let team = (r.game.players i).p_team in
    checkwin team (record r { game = on_planet h (captured team) (on_player i capture r.game) })

unfoldable pub drop_on_planet : Spoils → ℕ → ℕ → Realm → Realm × Outcome
unfolding hostile_drop take_over
drop_on_planet s i h r =
    let p = r.game.players i in
    let l = r.game.planets h in
    if not (meets p.p_war l.pl_owner)
      && not (same p.p_team l.pl_owner)
      && not (same l.pl_owner nobody)
    then (r, goes_on)
    else if same p.p_team l.pl_owner
    then (record r { game = on_planet h garrison (on_player i unload r.game) }, goes_on)
    else if is_zero l.pl_armies
    then take_over i h r
    else hostile_drop s i h r

unfoldable pub drop_in_base : ℕ → ℕ → Game → Game
drop_in_base i b g =
    if not (same (g.players b).p_team (g.players i).p_team)
    then g
    else if leb (g.players b).p_ship.s_maxarmies (g.players b).p_armies
    then g
    else on_player b load (on_player i unload g)

unfoldable pub beam_one_down : Spoils → ℕ → Realm → Realm × Outcome
unfolding drop_on_planet drop_in_base
beam_one_down s i r =
    let p = r.game.players i in
    if p.p_armies == 0
    then (r, goes_on)
    else if p.p_flags.orbit
    then drop_on_planet s i p.p_planet r
    else if p.p_flags.dock
    then (record r { game = drop_in_base i p.p_dock_with r.game }, goes_on)
    else (r, goes_on)

-- One ship's turn.
unfoldable pub beam_ship : Spoils → ℕ → Realm → Realm × Outcome
unfolding stays_down beam_one_up beam_one_down
beam_ship s i r =
    let p = r.game.players i in
    if not (is_alive p.p_status) || not (p.p_flags.orbit || p.p_flags.dock)
    then (r, goes_on)
    else if p.p_flags.beamup
    then ((if stays_down r.game p then r else record r { game = beam_one_up i r.game }), goes_on)
    else if p.p_flags.beamdown
    then beam_one_down s i r
    else (r, goes_on)

abbrev is_over : Outcome → Bool
is_over conquest = true
is_over goes_on = false
is_over round_won = false
is_over (round_needs n) = false

-- The loop's state: whether `checkwin` has made the function return.
pub record Pass : Type 0 where
  pub realm : Realm
  pub over : Bool

-- Only the `checkwin` after a capture makes `beam` return: the one in `checkgen` does not.
unfoldable pub ends_pass : ℕ → Game → Bool
ends_pass i g =
    let p = g.players i in
    let l = g.planets p.p_planet in
    p.p_flags.orbit && not (same p.p_team l.pl_owner) && is_zero l.pl_armies

unfoldable pub beam_turn : (ℕ → Spoils) → ℕ → Pass → Pass
unfolding beam_ship ends_pass
beam_turn s i x = if x.over then x else record {
  realm = (beam_ship (s i) i x.realm).0;
  over = is_over (beam_ship (s i) i x.realm).1 && ends_pass i x.realm.game;
}

-- `s i` are the draws of `random()` in the turn of ship i.
unfoldable pub beam : (ℕ → Spoils) → Realm → Realm
unfolding beam_turn loop
beam s r = (loop max_player 0 (beam_turn s) (record { realm = r; over = false })).realm
