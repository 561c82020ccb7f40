-- ===== src/Blast.antt =====
-- Damage from explosions: `t_explosion` for torpedoes and plasmas and `blowup` for ships, both of
-- ntserv/daemon.c, with `is_idle` of ntserv/util.c and `killer_credit`. The statistics and the
-- messages about kills are left out.
pub mod Sound
pub mod Credit
use netrek_server.Base.{
  ℕ, ◌+◌, ◌-◌, ◌*◌, ◌/◌, Bool, true, false, not, ◌&&◌, ◌||◌, Option, none, some, ℤ, pos, negsuc,
  ◌-ℤ◌, eq_ℤ, abs_ℤ, ltb, leb, ◌==◌, if◌then◌else◌, put, loop,
}
use netrek_server.Game.{
  Player, Game, Teams, set_player, same, meets, join, is_alive, is_off, is_starbase, is_scout,
  WhyDead, by_torp, by_torp2, by_plasma, by_plasma2, by_ship, by_ship2, by_phaser, quit, ghost,
  providence, max_player,
}
use netrek_server.Conquest.{p_explosion}
use netrek_server.Torp.{Torp, TorpStatus, t_det, t_explode, TorpType, t_photon, t_plasma}

-- `is_idle(victim)`; `safe_idle` is the sysdef setting
unfoldable pub is_idle : Bool → Game → Player → Bool
is_idle safe_idle g p =
    not (is_off p.p_inl_draft)
    || safe_idle
      && not g.tourn
      && (p.p_flags.cloak && p.p_flags.orbit && (g.planets p.p_planet).pl_home)
      && (p.p_kills == 0)
      && eq_ℤ p.p_ntorp (pos 0)
      && eq_ℤ p.p_nplasmatorp (pos 0)
      && eq_ℤ p.p_fuel (pos p.p_ship.s_maxfuel)
      && (p.p_shield == p.p_ship.s_maxshield)
      && (p.p_damage == 0)

-- Damage goes to the shields while they are up, and what they do not take to the hull.
unfoldable pub inflict : ℕ → Player → Player
inflict d p =
    if p.p_flags.shield
    then record p { p_shield = p.p_shield - d; p_damage = p.p_damage + (d - p.p_shield) }
    else record p { p_damage = p.p_damage + d }

-- `killer_credit(killer, died)`, in hundredths of a kill
unfoldable pub killer_credit : Player → Player → Player
killer_credit killer died = record killer {
  p_kills = killer.p_kills + 100 + died.p_armies * 10 + died.p_kills / 10;
}

-- What an explosion does to the ship that it reaches: the damage, and for a kill the player it is
-- put down to, the cause, and whether it is credited.
pub record Blow : Type 0 where
  pub damage : ℕ
  pub killer : ℕ
  pub cause : WhyDead
  pub is_credited : Bool

abbrev pub is_destroyed : Player → Bool
is_destroyed p = leb p.p_ship.s_maxdamage p.p_damage

abbrev pub on_ship : ℕ → (Player → Player) → Game → Game
on_ship j f g = set_player j (f (g.players j)) g

unfoldable pub credited : Blow → ℕ → Game → Game
unfolding killer_credit
credited b j g =
    if b.is_credited then on_ship b.killer (λ k. killer_credit k (g.players j)) g else g

unfoldable pub destroyed : Blow → ℕ → Game → Game
unfolding p_explosion credited
destroyed b j g = credited b j (on_ship j (p_explosion b.cause (g.players b.killer).p_no) g)

unfoldable pub take_blow : Blow → ℕ → Game → Game
unfolding inflict destroyed
take_blow b j g =
    let hit = on_ship j (inflict b.damage) g in
    if is_destroyed (hit.players j) then destroyed b j hit else hit

-- `spo`, a shift to the right by 8
unfoldable pub spo : ℤ → ℤ
spo (pos n) = pos (n / 256)
spo (negsuc n) = negsuc (n / 256)

abbrev pub square : ℤ → ℕ
square z = abs_ℤ z * abs_ℤ z

-- The tests of a square and then of a circle around the explosion.
unfoldable pub in_reach : ℕ → ℤ → ℤ → Bool
in_reach reach dx dy =
    leb (abs_ℤ dx) reach && leb (abs_ℤ dy) reach && leb (square dx + square dy) (reach * reach)

abbrev pub exp_dist : ℕ
exp_dist = 350

-- What the explosions read of the settings, and the damage that falls off with distance, which the
-- source reckons in floating point: `falloff full reach dist2`.
pub record Physics : Type 0 where
  pub safe_idle : Bool
  pub falloff : ℕ → ℕ → ℕ → ℕ

unfoldable pub damage_at : Physics → ℕ → ℕ → ℕ → ℕ
damage_at h full reach dist2 =
    if leb dist2 (exp_dist * exp_dist) then full else h.falloff full reach dist2

-- `t_explosion`: DAMDIST and PLASDAMDIST
abbrev pub torp_reach : TorpType → ℕ
torp_reach t_photon = 2000
torp_reach t_plasma = 2500

abbrev pub is_det : TorpStatus → Bool
is_det t_det = true
is_det _ = false

-- The player who detonated the torpedo, and his team; NODET is no player's number.
unfoldable pub spared_by_detter : Game → Torp → Player → Bool
spared_by_detter g t p = elim t.t_whodet [
  | none ↦ false
  | some w ↦
      if p.p_no == w
      then t.t_attribute.t_detter_safe
      else t.t_attribute.t_det_team_safe && same p.p_team (g.players w).p_team
]

-- The tests by which a player is safe from the torpedo, in order.
unfoldable pub is_safe : Physics → Game → Torp → Player → Bool
unfolding is_idle spared_by_detter
is_safe h g t p =
    not (is_alive p.p_status)
    || is_idle h.safe_idle g p
    || (if p.p_no == t.t_owner
        then t.t_attribute.t_owner_safe
        else t.t_attribute.t_owner_team_safe && same t.t_team p.p_team)
    || p.p_flags.practr && t.t_attribute.t_practice
    || is_det t.t_status && spared_by_detter g t p

abbrev pub torp_dx : Torp → Player → ℤ
torp_dx t p = spo (t.t_x_internal -ℤ p.p_x_internal)

abbrev pub torp_dy : Torp → Player → ℤ
torp_dy t p = spo (t.t_y_internal -ℤ p.p_y_internal)

-- The player who is credited: the one who detonated it, if of another team, or else its owner.
unfoldable pub torp_killer : Game → Torp → Player → ℕ
torp_killer g t p = elim t.t_whodet [
  | none ↦ t.t_owner
  | some w ↦ if not (w == p.p_no) && not (same (g.players w).p_team p.p_team) then w else t.t_owner
]

unfoldable pub t_whydead : Player → Torp → WhyDead
t_whydead k t = elim t.t_type [
  | t_photon ↦ if k.p_no == t.t_owner then by_torp else by_torp2
  | t_plasma ↦ if k.p_no == t.t_owner then by_plasma else by_plasma2
]

unfoldable pub torp_blow : ℕ → Game → Torp → Player → Blow
unfolding torp_killer t_whydead
torp_blow damage g t p =
    let k = torp_killer g t p in
    record {
      damage = damage;
      killer = k;
      cause = t_whydead (g.players k) t;
      is_credited =
          (not (same (g.players k).p_team p.p_team)
            || same (g.players k).p_team p.p_team && p.p_flags.practr);
    }

-- `p_swar |= team`
abbrev pub start_war : Teams → Player → Player
start_war team o = record o { p_swar = join o.p_swar team }

-- The torpedo's owner has started a war.
unfoldable pub war_started : Torp → Player → Game → Game
war_started t p g =
    if meets (g.players t.t_owner).p_hostile p.p_team
    then on_ship t.t_owner (start_war p.p_team) g
    else g

unfoldable pub torp_hits : ℕ → Torp → ℕ → Game → Game
unfolding war_started torp_blow take_blow
torp_hits damage t j g =
    let w = war_started t (g.players j) g in take_blow (torp_blow damage w t (w.players j)) j w

-- The body of the loop over the players.
unfoldable pub torp_reaches : Physics → Torp → ℕ → Game → Game
unfolding is_safe in_reach damage_at torp_hits spo
torp_reaches h t j g =
    let p = g.players j in
    let damage =
      damage_at h t.t_damage (torp_reach t.t_type) (square (torp_dx t p) + square (torp_dy t p)) in
    if is_safe h g t p
    then g
    else if in_reach (torp_reach t.t_type) (torp_dx t p) (torp_dy t p) && ltb 0 damage
    then torp_hits damage t j g
    else g

-- The players after the explosion. The torpedo itself is then `exploded`.
unfoldable pub t_explosion : Physics → Torp → Game → Game
unfolding torp_reaches loop
t_explosion h t g = loop max_player 0 (torp_reaches h t) g

-- T_FUSE_SCALE is the scale.
unfoldable pub exploded : ℕ → Torp → Torp
exploded scale t = record t { t_status = t_explode; t_fuse = 10 * scale }

-- `blowup`: SHIPDAMDIST, and the full damage by type of ship
abbrev pub ship_dam_dist : ℕ
ship_dam_dist = 3000

unfoldable pub ship_damage : Player → ℕ
ship_damage sh =
    if is_starbase sh.p_ship.s_type then 200 else if is_scout sh.p_ship.s_type then 75 else 100

abbrev pub is_quit : WhyDead → Bool
is_quit quit = true
is_quit _ = false

abbrev pub is_harmless : WhyDead → Bool
is_harmless ghost = true
is_harmless providence = true
is_harmless _ = false

abbrev pub is_combat : WhyDead → Bool
is_combat by_ship = true
is_combat by_torp = true
is_combat by_phaser = true
is_combat by_plasma = true
is_combat _ = false

-- `friendlyPlayer(p)` as seen by `sh`
unfoldable pub is_friendly : Player → Player → Bool
is_friendly sh p = not (meets sh.p_team p.p_swar) && not (meets p.p_team sh.p_war)

unfoldable pub is_spared : Physics → Game → ℕ → ℕ → Bool
unfolding is_idle is_friendly
is_spared h g s j =
    let sh = g.players s in
    let p = g.players j in
    not (is_alive p.p_status)
    || s == j
    || is_idle h.safe_idle g p
    || is_quit sh.p_whydead && is_friendly sh p
    || is_harmless sh.p_whydead

unfoldable pub ship_killer : Game → ℕ → Player → ℕ
ship_killer g s p =
    let sh = g.players s in
    if not (p.p_no == sh.p_whodead)
      && not (same p.p_team (g.players sh.p_whodead).p_team)
      && is_combat sh.p_whydead
    then sh.p_whodead
    else s

unfoldable pub ship_blow : ℕ → Game → ℕ → Player → Blow
unfolding ship_killer
ship_blow damage g s p =
    let k = ship_killer g s p in
    record {
      damage = damage;
      killer = k;
      cause = (if (g.players k).p_no == (g.players s).p_no then by_ship else by_ship2);
      is_credited =
          (not (same (g.players k).p_team p.p_team)
            || same (g.players k).p_team p.p_team && not p.p_flags.practr);
    }

unfoldable pub ship_reaches : Physics → ℕ → ℕ → Game → Game
unfolding is_spared in_reach damage_at ship_damage ship_blow take_blow
ship_reaches h s j g =
    let sh = g.players s in
    let p = g.players j in
    let dx = sh.p_x -ℤ p.p_x in
    let dy = sh.p_y -ℤ p.p_y in
    let damage = damage_at h (ship_damage sh) ship_dam_dist (square dx + square dy) in
    if is_spared h g s j
    then g
    else if in_reach ship_dam_dist dx dy && ltb 0 damage
    then take_blow (ship_blow damage g s p) j g
    else g

unfoldable pub blowup : Physics → ℕ → Game → Game
unfolding ship_reaches loop
blowup h s g = loop max_player 0 (ship_reaches h s) g
