-- ===== src/Command/Berths.antt =====
-- The commands of a player keep every docked ship in the bay that it names.
use netrek_server.Base.{
  ◌≡◌, refl, ℕ, ℕ, ◌≡◌, not, ◌&&◌, ◌==◌, Option, none, some, ℤ, put, inl, inr, Bool-cases,
}
use netrek_server.Game.{Player, Player, Client, mine, set_mine, on_players, is_off, is_moving}
use netrek_server.Bay.{bay_release}
use netrek_server.Helm.{
  wanted_speed, set_speed, set_course, shield_up, shield_down, repair, repair_off, cloak, cloak_on,
  cloak_off,
}
use netrek_server.Task.{bomb_by, bomb_planet, beam_up_by, beam_down_by}
use netrek_server.Bay.Berth.{SameMooring, put-IsBerthed, bay_release-IsBerthed}
use netrek_server.Dock.Berths.{Berthed}

pub moored_as :
    (p q : Player)
    → p.p_no ≡ q.p_no
    → p.p_flags.dock ≡ q.p_flags.dock
    → p.p_dock_with ≡ q.p_dock_with
    → p.p_dock_bay ≡ q.p_dock_bay
    → ((i : ℕ) → p.p_bays i ≡ q.p_bays i)
    → SameMooring p q
moored_as p q a b c d e = record {
  same_no = a;
  same_dock = b;
  same_with = c;
  same_bay = d;
  same_bays = e;
}

pub set_speed-Berthed : (n : ℤ) (c : Client) → Berthed c → Berthed (set_speed n c).0
unfolding set_speed
set_speed-Berthed n c v = elim (Bool-cases (is_off (mine c).p_inl_draft)) [
  | inl e ↦
      rw (e, set_speed)
        (put-IsBerthed c.me _ freed.game.players (moored_as _ _ refl refl refl refl (λ i. refl)) w)
  | inr e ↦ rw (e, set_speed) v
]
  where
    freed : Client
    freed =
        on_players (bay_release c.me) (set_mine (record (mine c) { p_desspeed = wanted_speed n }) c)

    w : Berthed freed
    w =
        bay_release-IsBerthed c.me
          (put c.game.players c.me (record (mine c) { p_desspeed = wanted_speed n }))
          (put-IsBerthed c.me (record (mine c) { p_desspeed = wanted_speed n }) c.game.players
            (moored_as _ _ refl refl refl refl (λ i. refl)) v)

pub set_course-Berthed : (n : ℕ) (c : Client) → Berthed c → Berthed (set_course n c).0
unfolding set_course
set_course-Berthed n c v = elim (Bool-cases (is_moving (mine c).p_inl_draft)) [
  | inr e ↦
      rw (e, set_course)
        (put-IsBerthed c.me _ freed.game.players (moored_as _ _ refl refl refl refl (λ i. refl)) w)
  | inl e ↦ rw (e, set_course) v
]
  where
    freed : Client
    freed = on_players (bay_release c.me) (set_mine (record (mine c) { p_desdir = n }) c)

    w : Berthed freed
    w = bay_release-IsBerthed c.me (put c.game.players c.me (record (mine c) { p_desdir = n })) (
        put-IsBerthed c.me (record (mine c) { p_desdir = n }) c.game.players
          (moored_as _ _ refl refl refl refl (λ i. refl)) v)

pub shield_up-Berthed : (c : Client) → Berthed c → Berthed (shield_up c).0
unfolding shield_up
shield_up-Berthed c v =
    put-IsBerthed c.me _ c.game.players (moored_as _ _ refl refl refl refl (λ i. refl)) v

pub shield_down-Berthed : (c : Client) → Berthed c → Berthed (shield_down c).0
unfolding shield_down
shield_down-Berthed c v =
    put-IsBerthed c.me _ c.game.players (moored_as _ _ refl refl refl refl (λ i. refl)) v

pub repair-Berthed : (c : Client) → Berthed c → Berthed (repair c).0
unfolding repair
repair-Berthed c v = elim (Bool-cases ((mine c).p_flags.eng && not ((mine c).p_speed == 0))) [
  | inl e ↦ rw (e, repair) v
  | inr e ↦
      rw (e, repair)
        (put-IsBerthed c.me _ c.game.players (moored_as _ _ refl refl refl refl (λ i. refl)) v)
]

pub repair_off-Berthed : (c : Client) → Berthed c → Berthed (repair_off c).0
unfolding repair_off
repair_off-Berthed c v =
    put-IsBerthed c.me _ c.game.players (moored_as _ _ refl refl refl refl (λ i. refl)) v

pub cloak-Berthed : (c : Client) → Berthed c → Berthed (cloak c).0
unfolding cloak
cloak-Berthed c v =
    put-IsBerthed c.me _ c.game.players (moored_as _ _ refl refl refl refl (λ i. refl)) v

pub cloak_on-Berthed : (c : Client) → Berthed c → Berthed (cloak_on c).0
unfolding cloak_on
cloak_on-Berthed c v = elim (Bool-cases (is_off (mine c).p_inl_draft)) [
  | inl e ↦
      rw (e, cloak_on)
        (put-IsBerthed c.me _ c.game.players (moored_as _ _ refl refl refl refl (λ i. refl)) v)
  | inr e ↦ rw (e, cloak_on) v
]

pub cloak_off-Berthed : (c : Client) → Berthed c → Berthed (cloak_off c).0
unfolding cloak_off
cloak_off-Berthed c v =
    put-IsBerthed c.me _ c.game.players (moored_as _ _ refl refl refl refl (λ i. refl)) v

pub bomb_by-Berthed : (w : Option ℤ) (c : Client) → Berthed c → Berthed (bomb_by w c).0
unfolding bomb_by
bomb_by-Berthed none c v =
    put-IsBerthed c.me _ c.game.players (moored_as _ _ refl refl refl refl (λ i. refl)) v
bomb_by-Berthed (some w) c v = v

pub bomb_planet-Berthed : (c : Client) → Berthed c → Berthed (bomb_planet c).0
unfolding bomb_planet
bomb_planet-Berthed c v = bomb_by-Berthed _ _ v

pub beam_up_by-Berthed : (w : Option ℤ) (c : Client) → Berthed c → Berthed (beam_up_by w c).0
unfolding beam_up_by
beam_up_by-Berthed none c v =
    put-IsBerthed c.me _ c.game.players (moored_as _ _ refl refl refl refl (λ i. refl)) v
beam_up_by-Berthed (some w) c v = v

pub beam_down_by-Berthed : (w : Option ℤ) (c : Client) → Berthed c → Berthed (beam_down_by w c).0
unfolding beam_down_by
beam_down_by-Berthed none c v =
    put-IsBerthed c.me _ c.game.players (moored_as _ _ refl refl refl refl (λ i. refl)) v
beam_down_by-Berthed (some w) c v = v
