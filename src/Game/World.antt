-- ===== src/Game/World.antt =====
-- The rest of `struct memory` that the modelled code shares: planets, torpedoes, the status block,
-- and the settings of the sysdef file that it reads.
use netrek_server.Base.{ℕ, ℤ, Bool, not, ◌&&◌, put, count, if◌then◌else◌}
use netrek_server.Game.Masks.{Teams, nobody, same}
use netrek_server.Game.Slots.{Player, Flags, is_free}

abbrev pub max_player : ℕ
max_player = 32

abbrev pub max_planets : ℕ
max_planets = 40

abbrev pub max_torp : ℕ
max_torp = 8

abbrev pub num_bays : ℕ
num_bays = 4

-- bits of `pl_flags`; `origin` is `pl_flags & ALLTEAM`, the original owning team
pub record Planet : Type 0 where
  pub pl_no : ℕ
  pub origin : Teams
  pub pl_repair : Bool
  pub pl_fuel : Bool
  pub pl_agri : Bool
  pub pl_redraw : Bool
  pub pl_home : Bool
  pub pl_coup : Bool
  pub pl_cheap : Bool
  pub pl_owner : Teams
  pub pl_x : ℤ
  pub pl_y : ℤ
  pub pl_armies : ℤ
  pub pl_info : Teams
  pub pl_couptime : ℕ

-- the sysdef settings
pub record Config : Type 0 where
  pub restrict_bomb : Bool
  pub no_unwarring_bombing : Bool
  pub restrict_3rd_drop : Bool
  pub tractors_allowed : Bool
  pub plasmas_allowed : Bool
  pub chaosmode : Bool
  pub tournplayers : ℕ
  pub max_pop : ℕ
  pub planet_plague : Bool
  pub newturn : Bool

-- `status` and the parts of `context`, with one Bool for each bit of `gameup` that is read
pub record Game : Type 0 where
  pub players : ℕ → Player
  pub planets : ℕ → Planet
  pub tourn : Bool
  pub paused : Bool
  pub bot_in_game : Bool
  pub pre_t_mode : Bool
  pub conquer : Bool
  pub quorum0 : Teams
  pub quorum1 : Teams
  pub inl_home_pick : ℕ
  pub inl_away_pick : ℕ
  pub config : Config

-- `players[i] = p`
abbrev pub set_player : ℕ → Player → Game → Game
set_player i p g = record g { players = put g.players i p }

-- `planets[i] = l`
abbrev pub set_planet : ℕ → Planet → Game → Game
set_planet i l g = record g { planets = put g.planets i l }

-- `p_flags` of player `i` through `f`
abbrev pub flag : ℕ → (Flags → Flags) → Game → Game
flag i f g = set_player i (record (g.players i) { p_flags = f (g.players i).p_flags }) g

-- `realNumShips(owner)`
unfoldable pub is_real_ship : Teams → Player → Bool
is_real_ship owner p =
    not (is_free p.p_status) && not p.p_flags.observer && not p.p_flags.robot && same p.p_team owner

unfoldable pub real_num_ships : Game → Teams → ℕ
real_num_ships g owner = count max_player 0 (λ i. is_real_ship owner (g.players i))

-- `team_opposing(team)`
unfoldable pub team_opposing : Game → Teams → Teams
team_opposing g team =
    if not g.tourn
    then nobody
    else if same team g.quorum0
    then g.quorum1
    else if same team g.quorum1
    then g.quorum0
    else nobody
