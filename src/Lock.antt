-- ===== src/Lock.antt =====
-- The commands of ntserv/interface.c that point at a planet or a player: locks, tractor and
-- pressor. The slot number comes from a packet, so it is any integer; one that passes the source's
-- test is used as an index. `draft_select` is
-- `inl_draft_select` (Draft), which `lock_player` hands over to while a draft is on.
use netrek_server.Base.{
  ℕ, ◌+◌, ◌*◌, Bool, true, false, not, ◌&&◌, ◌||◌, ◌==◌, ltb, Option, none, some, ℤ, pos, ◌-ℤ◌,
  abs_ℤ, if◌then◌else◌,
}
use netrek_server.Game.{
  Player, Client, Reply, accepted, ignored, refused, mine, set_mine, my_flags, flag, on_players,
  is_off, is_alive, is_free, max_player, max_planets,
}
use netrek_server.Bay.{bay_release}

unfoldable pub is_sub_in_locked : Client → Bool
is_sub_in_locked c = elim ((mine c).p_sub_in_for) [
  | none ↦ false
  | some s ↦
      let p = c.game.players s in
      (mine c).p_sub_in
      && p.p_sub_out
      && (elim (p.p_sub_out_for) [ none ↦ false | some t ↦ t == (mine c).p_no ])
      && not (is_free p.p_status)
]

-- The index that a number names if it is in `[0, bound)`.
abbrev pub index_below : ℕ → ℤ → Option ℕ
index_below bound (pos i) = if ltb i bound then some i else none
index_below bound (ℤ.negsuc _) = none

unfoldable pub lock_planet_on : Option ℕ → Client → Client × Reply
lock_planet_on none c = (c, ignored)
lock_planet_on (some i) c =
    if is_sub_in_locked c
    then (c, ignored)
    else (let p = mine c in
        (
          set_mine
              (record p {
                p_flags = record (p.p_flags) {
                  pllock = true;
                  plock = false;
                  orbit = false;
                  beamup = false;
                  beamdown = false;
                  bomb = false;
                };
                p_planet = i;
              })
              c,
          accepted,
        ))

unfoldable pub lock_planet : ℤ → Client → Client × Reply
unfolding lock_planet_on
lock_planet planet c =
    if not (is_off (mine c).p_inl_draft)
    then (c, ignored)
    else lock_planet_on (index_below max_planets planet) c

-- The player can be locked onto: alive, and seen unless the client is an observer.
unfoldable pub is_lockable : Client → ℕ → Bool
is_lockable c i =
    let p = c.game.players i in is_alive p.p_status && (not p.p_flags.cloak || c.is_observer)

unfoldable pub lock_player_on : Option ℕ → Client → Client × Reply
lock_player_on none c = (c, ignored)
lock_player_on (some i) c =
    if not (is_lockable c i) || is_sub_in_locked c
    then (c, ignored)
    else (let p = mine c in
        (
          set_mine
              (record p {
                p_playerl = i;
                p_flags = record (p.p_flags) {
                  plock = true;
                  pllock = false;
                  orbit = false;
                  beamup = false;
                  beamdown = false;
                  bomb = false;
                };
              })
              c,
          accepted,
        ))

unfoldable pub lock_player : (ℤ → Client → Client) → ℤ → Client → Client × Reply
unfolding lock_player_on
lock_player draft_select player c =
    if not (is_off (mine c).p_inl_draft)
    then (draft_select player c, accepted)
    else lock_player_on (index_below max_player player) c

abbrev pub tract_dist : ℕ
tract_dist = 6000

-- `hypot(dx, dy) < TRACTDIST * s_tractrng`, squared, with the range in tenths
unfoldable pub in_tractor_range : Player → Player → Bool
in_tractor_range p q =
    let dx = abs_ℤ (p.p_x -ℤ q.p_x) in
    let dy = abs_ℤ (p.p_y -ℤ q.p_y) in
    let range = tract_dist * p.p_ship.s_tractrng in ltb ((dx * dx + dy * dy) * 100) (range * range)

-- The test of both commands, `player > MAXPLAYER`, lets MAXPLAYER itself through.
abbrev pub beam_target : ℤ → Option ℕ
beam_target = index_below (max_player + 1)

-- The beam is switched on: both ships leave their berths and orbits.
unfoldable pub seize : ℕ → Client → Client
unfolding bay_release
seize v c =
    let freed = on_players (λ ps. bay_release c.me (bay_release v ps)) c in
    let adrift = record freed { game = flag v (λ f. record f { orbit = false }) freed.game } in
    let off = my_flags (λ f. record f { orbit = false }) adrift in
    set_mine
      (record (mine off) { p_tractor = v; p_flags = record ((mine off).p_flags) { tract = true } })
      off

unfoldable pub beams_off : Client → Client
beams_off = my_flags (λ f. record f { tract = false; press = false })

unfoldable pub tractor_on : Option ℕ → Client → Client × Reply
unfolding beams_off seize
tractor_on none c = (beams_off c, accepted)
tractor_on (some v) c =
    if (mine c).p_flags.cloak || v == (mine c).p_no || (c.game.players v).p_flags.cloak
    then (c, ignored)
    else if in_tractor_range (mine c) (c.game.players v)
    then (seize v c, accepted)
    else (c, ignored)

unfoldable pub tractor_player : ℤ → Client → Client × Reply
unfolding tractor_on
tractor_player player c =
    if not c.game.config.tractors_allowed then (c, ignored) else tractor_on (beam_target player) c

-- As `seize`, with the docked bits cleared once more and the pressor bit set.
unfoldable pub repel : ℕ → Client → Client
unfolding bay_release
repel v c =
    let freed = on_players (λ ps. bay_release c.me (bay_release v ps)) c in
    let adrift = record freed {
      game = flag v (λ f. record f { orbit = false; dock = false }) freed.game;
    } in
    let off = my_flags (λ f. record f { orbit = false; dock = false }) adrift in
    set_mine
      (record (mine off) {
        p_tractor = v;
        p_flags = record ((mine off).p_flags) { tract = true; press = true };
      })
      off

unfoldable pub pressor_on : Option ℕ → Client → Client × Reply
unfolding beams_off repel
pressor_on none c = (beams_off c, accepted)
pressor_on (some v) c =
    if (mine c).p_flags.press
    then (c, ignored)
    else if (mine c).p_flags.cloak
    then (c, refused (pos 1))
    else if (c.game.players v).p_flags.cloak
    then (c, ignored)
    else if in_tractor_range (mine c) (c.game.players v)
    then (repel v c, accepted)
    else (c, refused (pos 2))

unfoldable pub pressor_player : ℤ → Client → Client × Reply
unfolding pressor_on
pressor_player player c =
    if not c.game.config.tractors_allowed
    then (c, refused (pos 0))
    else pressor_on (beam_target player) c
