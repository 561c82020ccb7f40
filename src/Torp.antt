-- ===== src/Torp.antt =====
-- Firing torpedoes and plasmas: `ntorp` of ntserv/torp.c and `nplasmatorp` of ntserv/plasma.c, with
-- `struct torp` of include/struct.h. The warning that torpedo tubes are hot is only text in chaos
-- mode, where the shot goes on.
pub mod Free
pub mod Counted
use netrek_server.Base.{
  ℕ, zero, suc, ◌+◌, ◌-◌, ◌*◌, ◌%◌, ◌/◌, Bool, true, false, not, ◌&&◌, ◌||◌, Option, none, some, ℤ,
  pos, negsuc, ◌+ℤ◌, ◌-ℤ◌, ltb_ℤ, ltb, ◌==◌, if◌then◌else◌, put, find,
}
use netrek_server.Game.{
  Player, Flags, Client, Reply, accepted, ignored, refused, Teams, mine, set_mine, is_starbase,
  is_att, max_player, max_torp,
}

-- values of `t_status`
pub data TorpStatus : Type 0 where
  t_free t_move t_explode t_det t_off : TorpStatus

abbrev pub is_t_free : TorpStatus → Bool
is_t_free t_free = true
is_t_free _ = false

-- values of `t_type`
pub data TorpType : Type 0 where
  t_photon t_plasma : TorpType

-- bits of `t_attribute`
pub record Attributes : Type 0 where
  pub t_wobble : Bool
  pub t_vector : Bool
  pub t_owner_safe : Bool
  pub t_practice : Bool
  pub t_owner_team_safe : Bool
  pub t_detter_safe : Bool
  pub t_det_team_safe : Bool

pub record Torp : Type 0 where
  pub t_status : TorpStatus
  pub t_type : TorpType
  pub t_attribute : Attributes
  pub t_owner : ℕ
  pub t_x : ℤ
  pub t_y : ℤ
  pub t_x_internal : ℤ
  pub t_y_internal : ℤ
  pub t_turns : ℕ
  pub t_damage : ℕ
  pub t_gspeed : ℕ
  pub t_fuse : ℕ
  pub t_dir : ℕ
  pub t_war : Teams
  pub t_team : Teams
  pub t_whodet : Option ℕ

-- `spi`, a shift to the left by 8
unfoldable pub spi : ℤ → ℤ
spi (pos n) = pos (n * 256)
spi (negsuc n) = negsuc (n * 256 + 255)

-- The settings that the two functions read; `rear_heats` is `asstorp_etemp_mult > 1.0` and `fuse_scale`
-- is T_FUSE_SCALE, which follows the frame rate.
pub record Rules : Type 0 where
  pub chaosmode : Bool
  pub plasmas_allowed : Bool
  pub topgun : ℕ
  pub asstorp_base : Bool
  pub rear_heats : Bool
  pub teacher_torps_none : Bool
  pub teacher_torps_some : Bool
  pub fuse_scale : ℕ

-- A client with the array of torpedoes, the plasmas behind the photons, and the static of `ntorp`.
pub record Arms : Type 0 where
  pub client : Client
  pub torps : ℕ → Torp
  pub last_torp_fired_update : ℕ

-- The index of `plasma_(0)`.
abbrev pub first_plasma : ℕ
first_plasma = max_player * max_torp

-- A shot's cost, as `getAdjTorpCost` reckons it.
pub record Cost : Type 0 where
  pub c_fuel : ℤ
  pub c_etemp : ℤ
  pub c_wtemp : ℤ

-- |p_dir - course|, two bytes
abbrev delta_dir : ℕ → ℕ → ℕ
delta_dir a b = (a - b) + (b - a)

abbrev pub eq_ℤ : ℤ → ℤ → Bool
eq_ℤ a b = not (ltb_ℤ a b || ltb_ℤ b a)

-- The tests of `ntorp`, in order; `none` if the torpedo is fired.
unfoldable pub torp_refusal : Rules → Cost → ℕ → Arms → Option Reply
torp_refusal r k course a =
    let p = mine a.client in
    if a.client.game.conquer
    then some ignored
    else if p.p_updates == a.last_torp_fired_update
    then some ignored
    else if p.p_flags.wep && not r.chaosmode
    then some (refused (pos 25))
    else if eq_ℤ p.p_ntorp (pos max_torp)
    then some (refused (pos 26))
    else if ltb_ℤ p.p_fuel k.c_fuel
    then some (refused (pos 27))
    else if p.p_flags.repair
    then some (refused (pos 28))
    else if not (p.p_cloakphase == 0) && not (is_att p.p_ship.s_type)
    then some (refused (pos 29))
    else if not (r.topgun == 0)
        && not (is_starbase p.p_ship.s_type)
        && ltb r.topgun (delta_dir p.p_dir course)
        && ltb (delta_dir p.p_dir course + r.topgun) 256
    then some (refused (pos 30))
    else if p.p_flags.eng
        && ltb_ℤ (pos 0) k.c_etemp
        && r.rear_heats
        && (not (is_starbase p.p_ship.s_type) || r.asstorp_base)
    then some (refused (negsuc 0))
    else if r.teacher_torps_none
    then some (refused (negsuc 0))
    else if r.teacher_torps_some && (p.p_flags.green || ltb p.p_kills 100)
    then some (refused (negsuc 0))
    else none

-- The search for a free torp. The source does not test that it found one: the pointer it goes on with
-- is then one past the owner's last.
unfoldable pub torp_slot : ℕ → (ℕ → Torp) → ℕ
torp_slot owner ts = elim (find max_torp (max_torp * owner) (λ i. is_t_free (ts i).t_status)) [
  | none ↦ max_torp * owner + max_torp
  | some i ↦ i
]

-- The tests of `nplasmatorp` before and after its search for the owner's one plasma.
unfoldable pub plasma_refusal : Rules → Arms → Option Reply
plasma_refusal rules a =
    let p = mine a.client in
    if not rules.plasmas_allowed
    then some (refused (pos 17))
    else if ltb_ℤ p.p_ship.s_plasmacost (pos 0)
    then some (refused (pos 18))
    else if p.p_flags.wep && not rules.chaosmode
    then some (refused (pos 19))
    else if eq_ℤ p.p_nplasmatorp (pos 1) && not (is_att p.p_ship.s_type)
    then some (refused (pos 20))
    else if ltb_ℤ p.p_fuel p.p_ship.s_plasmacost
    then some (refused (pos 22))
    else if p.p_flags.repair
    then some (refused (pos 23))
    else if not (p.p_cloakphase == 0) && not (is_att p.p_ship.s_type)
    then some (refused (pos 24))
    else if not (is_t_free (a.torps (first_plasma + p.p_no)).t_status)
    then some (refused (negsuc 0))
    else if rules.teacher_torps_none
    then some (refused (negsuc 0))
    else if rules.teacher_torps_some && (p.p_flags.green || ltb p.p_kills 100)
    then some (refused (negsuc 0))
    else none

-- s_plasmacost / 10 - 8, for a cost that is not negative
unfoldable pub plasma_heat : ℤ → ℤ
plasma_heat (pos n) = pos (n / 10) -ℤ pos 8
plasma_heat (negsuc n) = negsuc 7

-- The rest of `ntorp`, into slot `i`. `speed_of` is `torpGetVectorSpeed`, which the source reckons in
-- floating point, and `rnd` is what `random()` returns.
module _ (speed_of : ℕ → ℕ → ℕ → ℕ → ℕ) (rules : Rules) where
  unfoldable pub new_torp : ℕ → ℕ → Attributes → Player → Torp
  new_torp rnd course attributes p = record {
    t_status = t_move;
    t_type = t_photon;
    t_attribute = attributes;
    t_owner = p.p_no;
    t_x = p.p_x;
    t_y = p.p_y;
    t_x_internal = spi p.p_x;
    t_y_internal = spi p.p_y;
    t_turns = p.p_ship.s_torpturns;
    t_damage = p.p_ship.s_torpdamage;
    t_gspeed =
        (if attributes.t_vector
          then speed_of p.p_dir p.p_speed course p.p_ship.s_torpspeed
          else p.p_ship.s_torpspeed * 20);
    t_fuse = (p.p_ship.s_torpfuse + rnd % 20) * rules.fuse_scale;
    t_dir = course;
    t_war = p.p_war;
    t_team = p.p_team;
    t_whodet = none;
  }

  unfoldable pub launch_torp : Cost → ℕ → ℕ → Attributes → Arms → Arms
  launch_torp k rnd course attributes a =
      let p = mine a.client in
      record {
        client =
            set_mine
              (record p {
                p_ntorp = p.p_ntorp +ℤ pos 1;
                p_fuel = p.p_fuel -ℤ k.c_fuel;
                p_wtemp = p.p_wtemp +ℤ k.c_wtemp;
                p_etemp = p.p_etemp +ℤ k.c_etemp;
              })
              a.client;
        torps = put a.torps (torp_slot p.p_no a.torps) (new_torp rnd course attributes p);
        last_torp_fired_update = p.p_updates;
      }

  unfoldable pub ntorp_by : Option Reply → Cost → ℕ → ℕ → Attributes → Arms → Arms × Reply
  ntorp_by (some r) k rnd course attributes a = (a, r)
  ntorp_by none k rnd course attributes a = (launch_torp k rnd course attributes a, accepted)

  unfoldable pub ntorp : Cost → ℕ → ℕ → Attributes → Arms → Arms × Reply
  unfolding ntorp_by
  ntorp k rnd course attributes a =
      ntorp_by (torp_refusal rules k course a) k rnd course attributes a

  unfoldable pub new_plasma : ℕ → Attributes → Player → Torp
  new_plasma course attributes p = record {
    t_status = t_move;
    t_type = t_plasma;
    t_attribute = attributes;
    t_owner = p.p_no;
    t_x = p.p_x;
    t_y = p.p_y;
    t_x_internal = spi p.p_x;
    t_y_internal = spi p.p_y;
    t_turns = p.p_ship.s_plasmaturns;
    t_damage = p.p_ship.s_plasmadamage;
    t_gspeed =
        (if attributes.t_vector
          then speed_of p.p_dir p.p_speed course p.p_ship.s_plasmaspeed
          else p.p_ship.s_plasmaspeed * 20);
    t_fuse = p.p_ship.s_plasmafuse * rules.fuse_scale;
    t_dir = (if is_starbase p.p_ship.s_type || is_att p.p_ship.s_type then course else p.p_dir);
    t_war = p.p_war;
    t_team = p.p_team;
    t_whodet = none;
  }

  unfoldable pub launch_plasma : ℕ → Attributes → Arms → Arms
  unfolding plasma_heat
  launch_plasma course attributes a =
      let p = mine a.client in
      record a {
        client =
            set_mine
              (record p {
                p_nplasmatorp = p.p_nplasmatorp +ℤ pos 1;
                p_fuel = p.p_fuel -ℤ p.p_ship.s_plasmacost;
                p_wtemp = p.p_wtemp +ℤ plasma_heat p.p_ship.s_plasmacost;
              })
              a.client;
        torps = put a.torps (first_plasma + p.p_no) (new_plasma course attributes p);
      }

  unfoldable pub nplasmatorp_by : Option Reply → ℕ → Attributes → Arms → Arms × Reply
  nplasmatorp_by (some r) course attributes a = (a, r)
  nplasmatorp_by none course attributes a = (launch_plasma course attributes a, accepted)

  unfoldable pub nplasmatorp : ℕ → Attributes → Arms → Arms × Reply
  unfolding nplasmatorp_by
  nplasmatorp course attributes a = nplasmatorp_by (plasma_refusal rules a) course attributes a
