-- ===== src/Command/Exclusive.antt =====
-- The bits of `p_flags` that exclude one another, in every ship, over every session.
use netrek_server.Base.{
  ℕ, ◌≡◌, true, false, not, ◌&&◌, ◌==◌, Option, none, some, ℤ, put, arith, inl, inr, Bool-cases,
}
use netrek_server.Game.{Player, Flags, Client, mine, set_mine, on_players, is_off, is_moving}
use netrek_server.Bay.{Players, bay_release}
use netrek_server.Helm.{
  wanted_speed, set_speed, set_course, shield_up, shield_down, repair, repair_off, cloak, cloak_on,
  cloak_off,
}
use netrek_server.Task.{bomb_by, bomb_planet, beam_up_by, beam_down_by}

-- A ship does at most one of bombing, beaming up and beaming down, with its shields down and not
-- under repair; it is not under repair with its shields up; it is locked on a player or a planet,
-- not both; a pressor is a tractor; a cloaked ship holds no tractor.
pub record IsExclusive (f : Flags) : Type 0 where
  pub bomb_only : f.bomb ≡ true → (f.beamup ≡ false) × (f.beamdown ≡ false)
  pub up_only : f.beamup ≡ true → f.beamdown ≡ false
  pub bomb_open : f.bomb ≡ true → (f.shield ≡ false) × (f.repair ≡ false)
  pub up_open : f.beamup ≡ true → (f.shield ≡ false) × (f.repair ≡ false)
  pub down_open : f.beamdown ≡ true → (f.shield ≡ false) × (f.repair ≡ false)
  pub shield_or_repair : f.shield ≡ true → f.repair ≡ false
  pub one_lock : f.plock ≡ true → f.pllock ≡ false
  pub press_is_tract : f.press ≡ true → f.tract ≡ true
  pub cloak_no_tract : f.cloak ≡ true → f.tract ≡ false

abbrev pub AllExclusive : Players → Type 0
AllExclusive ps = (s : ℕ) → IsExclusive (ps s).p_flags

pub put-Exclusive :
    (i : ℕ) (p : Player) (ps : Players)
    → IsExclusive p.p_flags
    → AllExclusive ps
    → AllExclusive (put ps i p)
put-Exclusive i p ps e v s = ground (arith, v s)

pub bay_release-Exclusive :
    (m : ℕ) (ps : Players) → AllExclusive ps → AllExclusive (bay_release m ps)
unfolding bay_release
bay_release-Exclusive m ps v s = ground (arith, v s)

abbrev pub Clean : Client → Type 0
Clean c = AllExclusive c.game.players

pub set_speed-Clean : (n : ℤ) (c : Client) → Clean c → Clean (set_speed n c).0
unfolding set_speed
set_speed-Clean n c v = elim (Bool-cases (is_off (mine c).p_inl_draft)) [
  | inl e ↦
      rw (e, set_speed) (put-Exclusive c.me _ freed.game.players (let h = w c.me in ground arith) w)
  | inr e ↦ rw (e, set_speed) v
]
  where
    freed : Client
    freed =
        on_players (bay_release c.me) (set_mine (record (mine c) { p_desspeed = wanted_speed n }) c)

    w : Clean freed
    w =
        bay_release-Exclusive c.me
          (put c.game.players c.me (record (mine c) { p_desspeed = wanted_speed n }))
          (put-Exclusive c.me (record (mine c) { p_desspeed = wanted_speed n }) c.game.players
            (v c.me) v)

pub set_course-Clean : (n : ℕ) (c : Client) → Clean c → Clean (set_course n c).0
unfolding set_course
set_course-Clean n c v = elim (Bool-cases (is_moving (mine c).p_inl_draft)) [
  | inr e ↦
      rw (e, set_course)
        (put-Exclusive c.me _ freed.game.players (let h = w c.me in ground arith) w)
  | inl e ↦ rw (e, set_course) v
]
  where
    freed : Client
    freed = on_players (bay_release c.me) (set_mine (record (mine c) { p_desdir = n }) c)

    w : Clean freed
    w =
        bay_release-Exclusive c.me (put c.game.players c.me (record (mine c) { p_desdir = n }))
          (put-Exclusive c.me (record (mine c) { p_desdir = n }) c.game.players (v c.me) v)

pub shield_up-Clean : (c : Client) → Clean c → Clean (shield_up c).0
unfolding shield_up
shield_up-Clean c v = put-Exclusive c.me _ c.game.players (let h = v c.me in ground arith) v

pub shield_down-Clean : (c : Client) → Clean c → Clean (shield_down c).0
unfolding shield_down
shield_down-Clean c v = put-Exclusive c.me _ c.game.players (let h = v c.me in ground arith) v

pub repair-Clean : (c : Client) → Clean c → Clean (repair c).0
unfolding repair
repair-Clean c v = elim (Bool-cases ((mine c).p_flags.eng && not ((mine c).p_speed == 0))) [
  | inl e ↦ rw (e, repair) v
  | inr e ↦ rw (e, repair) (put-Exclusive c.me _ c.game.players (let h = v c.me in ground arith) v)
]

pub repair_off-Clean : (c : Client) → Clean c → Clean (repair_off c).0
unfolding repair_off
repair_off-Clean c v = put-Exclusive c.me _ c.game.players (let h = v c.me in ground arith) v

pub cloak-Clean : (c : Client) → Clean c → Clean (cloak c).0
unfolding cloak
cloak-Clean c v = put-Exclusive c.me _ c.game.players (let h = v c.me in ground arith) v

pub cloak_on-Clean : (c : Client) → Clean c → Clean (cloak_on c).0
unfolding cloak_on
cloak_on-Clean c v = elim (Bool-cases (is_off (mine c).p_inl_draft)) [
  | inl e ↦
      rw (e, cloak_on) (put-Exclusive c.me _ c.game.players (let h = v c.me in ground arith) v)
  | inr e ↦ rw (e, cloak_on) v
]

pub cloak_off-Clean : (c : Client) → Clean c → Clean (cloak_off c).0
unfolding cloak_off
cloak_off-Clean c v = put-Exclusive c.me _ c.game.players (let h = v c.me in ground arith) v

pub bomb_by-Clean : (w : Option ℤ) (c : Client) → Clean c → Clean (bomb_by w c).0
unfolding bomb_by
bomb_by-Clean none c v = put-Exclusive c.me _ c.game.players (let h = v c.me in ground arith) v
bomb_by-Clean (some w) c v = v

pub bomb_planet-Clean : (c : Client) → Clean c → Clean (bomb_planet c).0
unfolding bomb_planet
bomb_planet-Clean c v = bomb_by-Clean _ _ v

pub beam_up_by-Clean : (w : Option ℤ) (c : Client) → Clean c → Clean (beam_up_by w c).0
unfolding beam_up_by
beam_up_by-Clean none c v = put-Exclusive c.me _ c.game.players (let h = v c.me in ground arith) v
beam_up_by-Clean (some w) c v = v

pub beam_down_by-Clean : (w : Option ℤ) (c : Client) → Clean c → Clean (beam_down_by w c).0
unfolding beam_down_by
beam_down_by-Clean none c v = put-Exclusive c.me _ c.game.players (let h = v c.me in ground arith) v
beam_down_by-Clean (some w) c v = v
