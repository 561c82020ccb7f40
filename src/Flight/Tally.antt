-- ===== src/Flight/Tally.antt =====
-- The counts of torpedoes and plasmas in flight through `udtorps` of ntserv/daemon.c.
use netrek_server.Base.{
  ℕ, ◌-◌, Bool, true, false, ◌≡◌, refl, ap, ◌∙◌, Option, none, some, ◌==◌, if◌then◌else◌, if_both,
  put_keeps, loop_inv, ℤ,
}
use netrek_server.Game.{Player, Game, set_player, max_player}
use netrek_server.Conquest.{p_explosion}
use netrek_server.Torp.{Torp, TorpStatus, t_free, t_move, t_explode, t_det, t_off, is_t_free}
use netrek_server.Blast.{
  inflict, killer_credit, Blow, is_destroyed, on_ship, credited, destroyed, take_blow, Physics,
  is_safe, torp_blow, start_war, war_started, torp_hits, torp_reaches, t_explosion, exploded,
}
use netrek_server.Flight.{
  Motion, steered, t_track, move_torp, t_check_wall, t_wobble, Shot, explode_shot, t_hit_wall,
  flown, meet_wall, seek, fly, expire, shot_by,
}

-- What the counts of a player say.
abbrev pub tally : Player → ℕ × ℤ × ℤ
tally p = (p.p_no, p.p_ntorp, p.p_nplasmatorp)

pub record SameTally (g h : Game) : Type 0 where
  pub same_tally : (k : ℕ) → tally (h.players k) ≡ tally (g.players k)

tally_refl : (g : Game) → SameTally g g
tally_refl g = record { same_tally = λ k. refl }

tally_trans : (a b c : Game) → SameTally a b → SameTally b c → SameTally a c
tally_trans a b c s t = record { same_tally = λ k. t.same_tally k ∙ s.same_tally k }

tally_set :
    (i : ℕ) (p : Player) (g : Game) → tally p ≡ tally (g.players i) → SameTally g (set_player i p g)
tally_set i p g e = record { same_tally = λ k. put_keeps tally g.players i p k e }

tally-inflict : (d : ℕ) (p : Player) → tally (inflict d p) ≡ tally p
unfolding inflict
tally-inflict d p = if_both (λ (q : Player). tally q ≡ tally p) p.p_flags.shield refl refl

credited_tally : (b : Blow) (j : ℕ) (g : Game) → SameTally g (credited b j g)
unfolding credited killer_credit
credited_tally b j g =
    if_both (SameTally g) b.is_credited
      (tally_set b.killer (killer_credit (g.players b.killer) (g.players j)) g refl) (tally_refl g)

take_blow_tally : (b : Blow) (j : ℕ) (g : Game) → SameTally g (take_blow b j g)
unfolding take_blow destroyed p_explosion
take_blow_tally b j g =
    let hit = on_ship j (inflict b.damage) g in
    let a : SameTally g hit =
      tally_set j (inflict b.damage (g.players j)) g (tally-inflict b.damage (g.players j)) in
    let gone = on_ship j (p_explosion b.cause (hit.players b.killer).p_no) hit in
    if_both (SameTally g) (is_destroyed (hit.players j))
      (tally_trans g gone (credited b j gone)
        (tally_trans g hit gone a
          (tally_set j (p_explosion b.cause (hit.players b.killer).p_no (hit.players j)) hit refl))
        (credited_tally b j gone))
      a

war_started_tally : (t : Torp) (p : Player) (g : Game) → SameTally g (war_started t p g)
unfolding war_started
war_started_tally t p g =
    if_both (SameTally g) _ (tally_set t.t_owner (start_war p.p_team (g.players t.t_owner)) g refl)
      (tally_refl g)

torp_reaches_tally :
    (h : Physics) (t : Torp) (j : ℕ) (g : Game) → SameTally g (torp_reaches h t j g)
unfolding torp_reaches torp_hits
torp_reaches_tally h t j g =
    let w = war_started t (g.players j) g in
    if_both (SameTally g) (is_safe h g t (g.players j)) (tally_refl g) (
      if_both (SameTally g) _
        (tally_trans g w _ (war_started_tally t (g.players j) g)
          (take_blow_tally (torp_blow _ w t (w.players j)) j w))
        (tally_refl g))

-- An explosion changes no count.
t_explosion_tally : (h : Physics) (t : Torp) (g : Game) → SameTally g (t_explosion h t g)
unfolding t_explosion
t_explosion_tally h t g =
    loop_inv (λ i (x : Game). SameTally g x) (torp_reaches h t) max_player 0 max_player g refl
      (λ i x lo hi k. tally_trans g x (torp_reaches h t i x) k (torp_reaches_tally h t i x))
      (tally_refl g)

-- The torpedo is still in use, of the same owner and kind, and no count has changed.
pub record Live (x y : Shot) : Type 0 where
  pub busy : is_t_free y.torp.t_status ≡ false
  pub owner : y.torp.t_owner ≡ x.torp.t_owner
  pub kind : y.torp.t_type ≡ x.torp.t_type
  pub counts : SameTally x.game y.game

Live-trans : (x y z : Shot) → Live x y → Live y z → Live x z
Live-trans x y z a b = record {
  busy = b.busy;
  owner = b.owner ∙ a.owner;
  kind = b.kind ∙ a.kind;
  counts = tally_trans x.game y.game z.game a.counts b.counts;
}

-- A new torpedo of the same status, owner and kind.
Live-same :
    (x : Shot) (t : Torp)
    → is_t_free t.t_status ≡ false
    → t.t_owner ≡ x.torp.t_owner
    → t.t_type ≡ x.torp.t_type
    → Live x (record x { torp = t })
Live-same x t b o k = record { busy = b; owner = o; kind = k; counts = tally_refl x.game }

explode_shot-Live : (m : Motion) (x : Shot) → Live x (explode_shot m x)
unfolding explode_shot exploded
explode_shot-Live m x = record {
  busy = refl;
  owner = refl;
  kind = refl;
  counts = t_explosion_tally m.physics x.torp x.game;
}

abbrev SameTorp : Torp → Torp → Type 0
SameTorp t u = (u.t_status ≡ t.t_status) × (u.t_owner ≡ t.t_owner) × (u.t_type ≡ t.t_type)

steered_same : (o : Option Bool) (t : Torp) → SameTorp t (steered o t)
unfolding steered
steered_same none t = (refl, refl, refl)
steered_same (some true) t = (refl, refl, refl)
steered_same (some false) t = (refl, refl, refl)

flown_same : (m : Motion) (g : Game) (t : Torp) → SameTorp t (flown m g t)
unfolding flown move_torp t_track
flown_same m g t =
    if_both (λ (u : Torp). SameTorp t (move_torp m u)) _
      (steered_same _ (record t { t_fuse = t.t_fuse - 1 })) (refl, refl, refl)

t_hit_wall-Live : (m : Motion) (x : Shot) → Live x (t_hit_wall m x)
unfolding t_hit_wall
t_hit_wall-Live m x =
    let u = record (x.torp) { t_status = t_det; t_whodet = some x.torp.t_owner } in
    Live-trans x (record x { torp = u }) (t_hit_wall m x) (Live-same x u refl refl refl)
      (explode_shot-Live m (record x { torp = u }))

meet_wall-Live :
    (m : Motion) (x : Shot) → is_t_free x.torp.t_status ≡ false → Live x (meet_wall m x)
unfolding meet_wall t_check_wall
meet_wall-Live m x b =
    let u = t_check_wall m.wrap_galaxy x.torp in
    let y : Shot = record x { torp = u } in
    let a : Live x y = Live-same x u b refl refl in
    if_both (Live x) _ (Live-trans x y (t_hit_wall m y) a (t_hit_wall-Live m y)) a

wobbled : (draw : ℕ) (b : Bool) (t : Torp) → SameTorp t (if b then t_wobble draw t else t)
unfolding t_wobble
wobbled draw b t = if_both (SameTorp t) b (refl, refl, refl) (refl, refl, refl)

seek-Live :
    (m : Motion) (draw : ℕ) (x : Shot) → is_t_free x.torp.t_status ≡ false → Live x (seek m draw x)
unfolding seek
seek-Live m draw x b =
    let u = if x.torp.t_attribute.t_wobble then t_wobble draw x.torp else x.torp in
    let w : SameTorp x.torp u = wobbled draw x.torp.t_attribute.t_wobble x.torp in
    let y : Shot = record x { torp = u } in
    let a : Live x y = Live-same x u (ap is_t_free w.0 ∙ b) w.1 w.2 in
    if_both (Live x) _ (Live-same x x.torp b refl refl)
      (if_both (Live x) _ (Live-trans x y (explode_shot m y) a (explode_shot-Live m y)) a)

fly-Live :
    (m : Motion) (draw : ℕ) (x : Shot) → is_t_free x.torp.t_status ≡ false → Live x (fly m draw x)
unfolding fly
fly-Live m draw x b =
    let u = flown m x.game x.torp in
    let w : SameTorp x.torp u = flown_same m x.game x.torp in
    let y : Shot = record x { torp = u } in
    let a : Live x y = Live-same x u (ap is_t_free w.0 ∙ b) w.1 w.2 in
    let c = meet_wall-Live m y a.busy in
    let d = Live-trans x y (meet_wall m y) a c in
    Live-trans x (meet_wall m y) (fly m draw x) d (seek-Live m draw (meet_wall m y) d.busy)

-- The three things that an update does to a torpedo.
pub data Turn (x : Shot) (y : Shot) : Type 0 where
  idle : y ≡ x → Turn x y
  live : is_t_free x.torp.t_status ≡ false → Live x y → Turn x y
  ends : is_t_free x.torp.t_status ≡ false → y ≡ expire x → Turn x y

pub shot_by-Turn :
    (m : Motion) (draw : ℕ) (st : TorpStatus) (x : Shot)
    → x.torp.t_status ≡ st
    → Turn x (shot_by m draw st x)
unfolding shot_by
shot_by-Turn m draw t_free x e = idle refl
shot_by-Turn m draw t_move x e =
    let b = ap is_t_free e in
    if_both (Turn x) (x.torp.t_fuse == 0) (ends b refl) (live b (fly-Live m draw x b))
shot_by-Turn m draw t_det x e = live (ap is_t_free e) (explode_shot-Live m x)
shot_by-Turn m draw t_explode x e =
    let b = ap is_t_free e in
    if_both (Turn x) (x.torp.t_fuse == 0) (ends b refl)
      (live b (Live-same x (record (x.torp) { t_fuse = x.torp.t_fuse - 1 }) b refl refl))
shot_by-Turn m draw t_off x e = ends (ap is_t_free e) refl
