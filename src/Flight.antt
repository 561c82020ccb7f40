-- ===== src/Flight.antt =====
-- The flight of torpedoes and plasmas: `udtorps` of ntserv/daemon.c with `t_track`, `t_move`,
-- `t_check_wall`, `t_hit_wall`, `t_wobble`, `t_near` and the explosions of Blast. A fuse of -1, which
-- a slot that is freed is left with, is 0 here.
pub mod Tally
pub mod Counts
pub mod Walls
use netrek_server.Base.{
  ℕ, ◌+◌, ◌-◌, ◌*◌, ◌/◌, ◌%◌, Bool, true, false, not, ◌&&◌, ◌||◌, Option, none, some, ℤ, pos,
  negsuc, ◌-ℤ◌, ltb_ℤ, leb_ℤ, abs_ℤ, ltb, leb, ◌==◌, if◌then◌else◌, put, loop, find,
}
use netrek_server.Game.{Player, Game, Teams, set_player, same, meets, is_alive, max_player}
use netrek_server.Torp.{
  Torp, TorpStatus, t_free, t_move, t_explode, t_det, t_off, TorpType, t_photon, t_plasma, spi,
  first_plasma,
}
use netrek_server.Blast.{
  Physics, is_idle, spo, in_reach, exp_dist, torp_dx, torp_dy, square, t_explosion, exploded,
}

-- What the flight reads besides: `fuse_scale` is T_FUSE_SCALE, `step` the new internal coordinates,
-- which the source reckons with tables of sines in floating point, and `to_dir` the direction from
-- (0, 0) to a point.
pub record Motion : Type 0 where
  pub physics : Physics
  pub wrap_galaxy : Bool
  pub fuse_scale : ℕ
  pub step_x : Torp → ℤ
  pub step_y : Torp → ℤ
  pub to_dir : ℤ → ℤ → ℕ
  pub root : ℕ → ℕ

-- The locals of `t_track`; `turn` is `none` for 0 and holds whether it is positive.
pub record Aim : Type 0 where
  pub range : ℕ
  pub min_range_sq : ℕ
  pub turn : Option Bool

-- The tests by which a player is no target.
unfoldable pub no_target : Game → Torp → ℕ → Bool
no_target g t j =
    let p = g.players j in
    let owner = g.players t.t_owner in
    not (is_alive p.p_status)
    || j == t.t_owner
    || same p.p_team owner.p_team && not p.p_flags.practr
    || not (meets t.t_war p.p_team || meets t.t_team p.p_war)

-- The arc that the torpedo may still reach.
unfoldable pub may_reach : ℕ → Torp → ℕ → Bool
may_reach scale t bearing =
    let arc = t.t_turns * t.t_fuse / scale in
    ltb 127 arc || ltb bearing arc || ltb_ℤ (pos 256 -ℤ pos arc) (pos bearing)

unfoldable pub track_one : Motion → Game → Torp → ℕ → Aim → Aim
unfolding no_target may_reach spo
track_one m g t j a =
    let p = g.players j in
    let dx = torp_dx t p in
    let dy = torp_dy t p in
    let bearing = (m.to_dir dx dy + 256 - t.t_dir) % 256 in
    let range_sq = square dx + square dy in
    if no_target g t j
    then a
    else if leb a.range (abs_ℤ dx) || leb a.range (abs_ℤ dy)
    then a
    else if may_reach m.fuse_scale t bearing && ltb range_sq a.min_range_sq
    then record {
      min_range_sq = range_sq;
      range = m.root range_sq;
      turn = some (not (ltb 127 bearing));
    }
    else a

unfoldable pub steered : Option Bool → Torp → Torp
steered none t = t
steered (some false) t = record t { t_dir = (t.t_dir + 256 - t.t_turns % 256) % 256 }
steered (some true) t = record t { t_dir = (t.t_dir + t.t_turns) % 256 }

unfoldable pub t_track : Motion → Game → Torp → Torp
unfolding track_one steered loop
t_track m g t =
    steered
      (loop max_player 0 (track_one m g t)
        (record { range = 65535; min_range_sq = 4294967295; turn = none })).turn
      t

unfoldable pub move_torp : Motion → Torp → Torp
unfolding spo
move_torp m t = record t {
  t_x_internal = m.step_x t;
  t_y_internal = m.step_y t;
  t_x = spo (m.step_x t);
  t_y = spo (m.step_y t);
}

-- `spi(GWIDTH)`
abbrev pub sgw : ℤ
sgw = pos 25600000

-- One coordinate against the walls: where it goes, and whether it hit one.
unfoldable pub walled : Bool → ℤ → ℤ
walled wrap z =
    if ltb_ℤ z (pos 0)
    then (if wrap then sgw else pos 0)
    else if ltb_ℤ sgw z
    then (if wrap then pos 0 else sgw)
    else z

unfoldable pub hits_wall : Bool → ℤ → Bool
hits_wall wrap z = not wrap && (ltb_ℤ z (pos 0) || ltb_ℤ sgw z)

abbrev is_out : ℤ → Bool
is_out z = ltb_ℤ z (pos 0) || ltb_ℤ sgw z

unfoldable pub t_check_wall : Bool → Torp → Torp
unfolding walled spo
t_check_wall wrap t = record t {
  t_x_internal = walled wrap t.t_x_internal;
  t_x = (if is_out t.t_x_internal then spo (walled wrap t.t_x_internal) else t.t_x);
  t_y_internal = walled wrap t.t_y_internal;
  t_y = (if is_out t.t_y_internal then spo (walled wrap t.t_y_internal) else t.t_y);
}

-- `random() % 3 - 1` on a byte
unfoldable pub t_wobble : ℕ → Torp → Torp
t_wobble draw t = record t { t_dir = (t.t_dir + draw % 3 + 255) % 256 }

-- The test of `t_near` on one player.
unfoldable pub is_near : Bool → Game → Torp → Player → Bool
unfolding is_idle in_reach spo
is_near safe_idle g t p =
    is_alive p.p_status
    && not (t.t_owner == p.p_no)
    && (meets t.t_war p.p_team || meets t.t_team p.p_war)
    && not (is_idle safe_idle g p)
    && in_reach exp_dist (torp_dx t p) (torp_dy t p)

abbrev is_found : Option ℕ → Bool
is_found none = false
is_found (some j) = true

unfoldable pub t_near : Bool → Game → Torp → Bool
unfolding is_near find
t_near safe_idle g t = is_found (find max_player 0 (λ j. is_near safe_idle g t (g.players j)))

-- A torpedo and the players, between two steps of one update.
pub record Shot : Type 0 where
  pub torp : Torp
  pub game : Game

unfoldable pub explode_shot : Motion → Shot → Shot
unfolding t_explosion exploded
explode_shot m x = record {
  torp = exploded m.fuse_scale x.torp;
  game = t_explosion m.physics x.torp x.game;
}

unfoldable pub t_hit_wall : Motion → Shot → Shot
unfolding explode_shot
t_hit_wall m x =
    explode_shot m
      (record x { torp = record (x.torp) { t_status = t_det; t_whodet = some x.torp.t_owner } })

-- The fuse, the tracking and the move.
unfoldable pub flown : Motion → Game → Torp → Torp
unfolding t_track move_torp
flown m g t =
    let u = record t { t_fuse = t.t_fuse - 1 } in
    move_torp m (if u.t_fuse % m.fuse_scale == 0 && ltb 0 u.t_turns then t_track m g u else u)

unfoldable pub meet_wall : Motion → Shot → Shot
unfolding t_check_wall hits_wall t_hit_wall
meet_wall m x =
    let y = record x { torp = t_check_wall m.wrap_galaxy x.torp } in
    if hits_wall m.wrap_galaxy x.torp.t_x_internal || hits_wall m.wrap_galaxy x.torp.t_y_internal
    then t_hit_wall m y
    else y

-- The work at the normal rate: after a wall was hit the source comes here too.
unfoldable pub seek : Motion → ℕ → Shot → Shot
unfolding t_wobble t_near explode_shot
seek m draw x =
    let y = record x {
      torp = (if x.torp.t_attribute.t_wobble then t_wobble draw x.torp else x.torp);
    } in
    if not (x.torp.t_fuse % m.fuse_scale == 0)
    then x
    else if t_near m.physics.safe_idle y.game y.torp
    then explode_shot m y
    else y

-- TMOVE, while the fuse lasts
unfoldable pub fly : Motion → ℕ → Shot → Shot
unfolding flown meet_wall seek
fly m draw x = seek m draw (meet_wall m (record x { torp = flown m x.game x.torp }))

-- The end of the body: the slot is free, and its owner has one less.
unfoldable pub one_fewer : TorpType → Player → Player
one_fewer t_photon p = record p { p_ntorp = p.p_ntorp -ℤ pos 1 }
one_fewer t_plasma p = record p { p_nplasmatorp = p.p_nplasmatorp -ℤ pos 1 }

unfoldable pub expire : Shot → Shot
unfolding one_fewer
expire x = record {
  torp = record (x.torp) { t_status = t_free };
  game = set_player x.torp.t_owner (one_fewer x.torp.t_type (x.game.players x.torp.t_owner)) x.game;
}

-- One torpedo's update, by its status.
unfoldable pub shot_by : Motion → ℕ → TorpStatus → Shot → Shot
unfolding fly expire explode_shot
shot_by m draw t_free x = x
shot_by m draw t_move x = if x.torp.t_fuse == 0 then expire x else fly m draw x
shot_by m draw t_det x = explode_shot m x
shot_by m draw t_explode x =
    if x.torp.t_fuse == 0
    then expire x
    else record x { torp = record (x.torp) { t_fuse = x.torp.t_fuse - 1 } }
shot_by m draw t_off x = expire x

pub record Sky : Type 0 where
  pub game : Game
  pub torps : ℕ → Torp

unfoldable pub torp_turn : Motion → (ℕ → ℕ) → ℕ → Sky → Sky
unfolding shot_by
torp_turn m draws i s =
    let x = shot_by m (draws i) (s.torps i).t_status (record { torp = s.torps i; game = s.game }) in
    record { game = x.game; torps = put s.torps i x.torp }

-- All photons, and behind them all plasmas; `draws i` is what `random()` returns for torpedo i.
unfoldable pub udtorps : Motion → (ℕ → ℕ) → Sky → Sky
unfolding torp_turn loop
udtorps m draws s = loop (first_plasma + max_player) 0 (torp_turn m draws) s
