-- ===== src/Flight/Walls.antt =====
-- Torpedoes at the edge of the galaxy, in `udtorps` of ntserv/daemon.c.
use netrek_server.Base.{
  ℕ, ◌*◌, ◌%◌, Bool, true, not, ◌||◌, ◌≡◌, refl, ap, ◌∙◌, some, ◌==◌, if◌then◌else◌, if_true,
  if_false, arith, ℤ, pos, ◌≤ℤ◌,
}
use native.Mathlib.Nat.{mul-mod_left}
use netrek_server.Torp.{Torp, t_det}
use netrek_server.Blast.{t_explosion, exploded}
use netrek_server.Flight.{
  Motion, Shot, flown, walled, sgw, t_check_wall, hits_wall, t_hit_wall, explode_shot, meet_wall,
  t_wobble, t_near, seek, fly,
}

walled_range : (w : Bool) (z : ℤ) → (pos 0 ≤ℤ walled w z) × (walled w z ≤ℤ sgw)
unfolding walled
walled_range w z = ground arith

-- Whatever the move, a torpedo's internal coordinates lie in the galaxy after the walls.
pub walled_bounds :
    (wrap : Bool) (t : Torp)
    → (pos 0 ≤ℤ (t_check_wall wrap t).t_x_internal)
      × ((t_check_wall wrap t).t_x_internal ≤ℤ sgw)
      × (pos 0 ≤ℤ (t_check_wall wrap t).t_y_internal)
      × ((t_check_wall wrap t).t_y_internal ≤ℤ sgw)
unfolding t_check_wall
walled_bounds wrap t =
    let x = walled_range wrap t.t_x_internal in
    let y = walled_range wrap t.t_y_internal in (x.0, x.1, y.0, y.1)

-- The torpedo as it explodes at the wall, and as it comes out of that.
abbrev pub at_wall : Motion → Shot → Torp
at_wall m x = record (t_check_wall m.wrap_galaxy (flown m x.game x.torp)) {
  t_status = t_det;
  t_whodet = some (flown m x.game x.torp).t_owner;
}

abbrev pub spent : Motion → ℕ → Torp → Torp
spent m draw t =
    if t.t_attribute.t_wobble
    then t_wobble draw (exploded m.fuse_scale t)
    else exploded m.fuse_scale t

whole_fuse : (scale : ℕ) → (10 * scale % scale == 0) ≡ true
whole_fuse scale = ground (arith, mul-mod_left 10 scale)

meet_wall_hit :
    (m : Motion) (x : Shot)
    → (hits_wall m.wrap_galaxy x.torp.t_x_internal || hits_wall m.wrap_galaxy x.torp.t_y_internal)
      ≡ true
    → meet_wall m x ≡ t_hit_wall m (record x { torp = t_check_wall m.wrap_galaxy x.torp })
unfolding meet_wall
meet_wall_hit m x hit = if_true _ _ _ hit

seek_near :
    (m : Motion) (draw : ℕ) (x : Shot)
    → (x.torp.t_fuse % m.fuse_scale == 0) ≡ true
    → t_near m.physics.safe_idle x.game
        (if x.torp.t_attribute.t_wobble then t_wobble draw x.torp else x.torp)
      ≡ true
    → seek m draw x
      ≡ explode_shot m (record x {
        torp = (if x.torp.t_attribute.t_wobble then t_wobble draw x.torp else x.torp);
      })
unfolding seek
seek_near m draw x fuse near =
    if_false (not (x.torp.t_fuse % m.fuse_scale == 0)) x _ (ap not fuse) ∙ if_true _ _ _ near

whole_fuse_of :
    (m : Motion) (t : Torp) → ((exploded m.fuse_scale t).t_fuse % m.fuse_scale == 0) ≡ true
unfolding exploded
whole_fuse_of m t = whole_fuse m.fuse_scale

explode_shot_game :
    (m : Motion) (x : Shot) → (explode_shot m x).game ≡ t_explosion m.physics x.torp x.game
unfolding explode_shot
explode_shot_game m x = refl

struck_lem :
    (m : Motion) (x : Shot)
    → t_hit_wall m (record x { torp = t_check_wall m.wrap_galaxy (flown m x.game x.torp) })
      ≡ record {
        torp = exploded m.fuse_scale (at_wall m x);
        game = t_explosion m.physics (at_wall m x) x.game;
      }
unfolding t_hit_wall explode_shot t_check_wall
struck_lem m x = refl

-- Two explosions of one torpedo: one that hits a wall explodes there, with an enemy close to the wall
-- it goes on to explode again in the same update, and every ship in reach takes the damage twice.
pub wall_explodes_twice :
    (m : Motion) (draw : ℕ) (x : Shot)
    → (hits_wall m.wrap_galaxy (flown m x.game x.torp).t_x_internal
        || hits_wall m.wrap_galaxy (flown m x.game x.torp).t_y_internal)
      ≡ true
    → t_near m.physics.safe_idle
        (t_explosion m.physics (at_wall m x) x.game)
        (spent m draw (at_wall m x))
      ≡ true
    → (fly m draw x).game
      ≡ t_explosion m.physics
          (spent m draw (at_wall m x))
          (t_explosion m.physics (at_wall m x) x.game)
unfolding fly
wall_explodes_twice m draw x hit near =
    let y : Shot = record x { torp = flown m x.game x.torp } in
    let z : Shot = record {
      torp = exploded m.fuse_scale (at_wall m x);
      game = t_explosion m.physics (at_wall m x) x.game;
    } in
    let struck : meet_wall m y ≡ z = meet_wall_hit m y hit ∙ struck_lem m x in
    ap (λ (w : Shot). (seek m draw w).game) struck
    ∙ ap (λ (w : Shot). w.game) (seek_near m draw z (whole_fuse_of m (at_wall m x)) near)
    ∙ explode_shot_game m (record z { torp = spent m draw (at_wall m x) })
