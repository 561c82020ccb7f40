-- ===== src/Task.antt =====
-- The commands of ntserv/interface.c that work on a planet or a base: bombing and beaming.
-- The guards of `bomb_planet` and `beam_down` are functions of the state that give the number of
-- the warning; UNDEF is -1.
use netrek_server.Base.{
  ℕ, ◌+◌, Bool, true, false, not, ◌&&◌, ◌||◌, ◌==◌, ltb, Option, none, some, ℤ, pos, if◌then◌else◌,
}
use netrek_server.Game.{
  Player, Planet, Game, Client, Reply, accepted, refused, mine, my_flags, meets, same, nobody,
  real_num_ships, team_opposing,
}

-- UNDEF, the number of a warning that is sent as text
abbrev pub undef : ℤ
undef = ℤ.negsuc 0

-- A planet of a team that takes no part: not ours by origin, nor our opponents'.
unfoldable pub is_third_space : Game → Player → Planet → Bool
is_third_space g p l =
    not (meets p.p_team l.origin) && not (meets (team_opposing g p.p_team) l.origin)

-- The tests on the planet, after those of orbit and t-mode.
unfoldable pub bomb_allowed : Game → Player → Planet → Option ℤ
unfolding is_third_space
bomb_allowed g p l =
    if g.bot_in_game && real_num_ships g l.pl_owner == 0
    then some undef
    else if g.config.no_unwarring_bombing
        && (g.tourn && ltb (real_num_ships g l.pl_owner) g.config.tournplayers)
        && is_third_space g p l
    then some undef
    else none

-- Why bombing is refused, in the order of the source's tests. `tries` is the static count of
-- orders to bomb outside t-mode.
unfoldable pub bomb_refusal : Game → Player → ℕ → Option ℤ
unfolding bomb_allowed
bomb_refusal g p tries =
    let l = g.planets p.p_planet in
    if not p.p_flags.orbit
    then some (pos 39)
    else if same p.p_team l.pl_owner
    then some (pos 40)
    else if not (meets p.p_war l.pl_owner)
    then some (pos 41)
    else if g.config.restrict_bomb && not g.bot_in_game && not g.tourn
    then some undef
    else if not g.tourn && tries == 0 && not g.bot_in_game
    then some (pos 42)
    else bomb_allowed g p l

-- The count of orders after the call. Only the request to verify counts a refusal.
unfoldable pub bomb_tries : Game → Option ℤ → ℕ → ℕ
bomb_tries g (some (pos n)) tries = if n == 42 then tries + 1 else tries
bomb_tries g (some (ℤ.negsuc n)) tries = tries
bomb_tries g none tries =
    if g.tourn
    then 0
    else if not g.config.restrict_bomb && not g.bot_in_game && tries == 1
    then tries + 1
    else tries

unfoldable pub bomb_by : Option ℤ → Client → Client × Reply
bomb_by (some w) c = (c, refused w)
bomb_by none c =
    let done =
      my_flags
        (λ f. record f {
          bomb = true;
          shield = false;
          repair = false;
          beamup = false;
          beamdown = false;
        })
        c in
    (record done { counters = record (c.counters) { bombed = c.counters.bombed + 1 } }, accepted)

unfoldable pub bomb_planet : Client → Client × Reply
unfolding bomb_by bomb_tries
bomb_planet c =
    let refusal = bomb_refusal c.game (mine c) c.bombs_out_of_tmode in
    bomb_by refusal
      (record c { bombs_out_of_tmode = bomb_tries c.game refusal c.bombs_out_of_tmode })

unfoldable pub beam_up_refusal : Game → Player → Option ℤ
beam_up_refusal g p =
    if not (p.p_flags.orbit || p.p_flags.dock)
    then some (pos 44)
    else if p.p_flags.orbit && not (same p.p_team (g.planets p.p_planet).pl_owner)
    then some (pos 45)
    else if not p.p_flags.orbit
        && p.p_flags.dock
        && not (same p.p_team (g.players p.p_dock_with).p_team)
    then some (pos 46)
    else if p.p_no_pick
    then some undef
    else none

unfoldable pub beam_up_by : Option ℤ → Client → Client × Reply
beam_up_by (some w) c = (c, refused w)
beam_up_by none c =
    let done =
      my_flags
        (λ f. record f {
          beamup = true;
          shield = false;
          repair = false;
          bomb = false;
          beamdown = false;
        })
        c in
    (
      record done { counters = record (c.counters) { beamed_up = c.counters.beamed_up + 1 } },
      accepted,
    )

unfoldable pub beam_up : Client → Client × Reply
unfolding beam_up_by
beam_up c = beam_up_by (beam_up_refusal c.game (mine c)) c

unfoldable pub beam_down_refusal : Game → Player → Option ℤ
unfolding is_third_space
beam_down_refusal g p =
    let l = g.planets p.p_planet in
    if not (p.p_flags.orbit || p.p_flags.dock)
    then some (pos 47)
    else if g.config.restrict_3rd_drop
        && p.p_flags.orbit
        && (real_num_ships g l.pl_owner == 0
            && not (same l.pl_owner nobody)
            && is_third_space g p l)
    then some undef
    else if g.pre_t_mode && l.pl_home && not (same l.pl_owner p.p_team)
    then some undef
    else if p.p_flags.dock && not (same p.p_team (g.players p.p_dock_with).p_team)
    then some (pos 48)
    else none

unfoldable pub beam_down_by : Option ℤ → Client → Client × Reply
beam_down_by (some w) c = (c, refused w)
beam_down_by none c =
    let done =
      my_flags
        (λ f. record f {
          beamdown = true;
          shield = false;
          repair = false;
          bomb = false;
          beamup = false;
        })
        c in
    (
      record done { counters = record (c.counters) { beamed_down = c.counters.beamed_down + 1 } },
      accepted,
    )

unfoldable pub beam_down : Client → Client × Reply
unfolding beam_down_by
beam_down c = beam_down_by (beam_down_refusal c.game (mine c)) c
