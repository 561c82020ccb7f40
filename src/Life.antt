-- ===== src/Life.antt =====
-- The states of a player: the cases of `udplayers` of ntserv/daemon.c, and `ghostmess`. The terminating
-- signal to a player's process, saved statistics and messages are left out.
pub mod Diagram
pub mod Ending
pub mod Frames
use netrek_server.Base.{
  ℕ, zero, suc, ◌+◌, ◌-◌, ◌*◌, ◌/◌, Bool, true, false, not, ◌&&◌, ◌||◌, Option, none, some, ℤ, pos,
  ◌-ℤ◌, ◌+ℤ◌, eq_ℤ, leb_ℤ, ltb, leb, ◌==◌, if◌then◌else◌, put, sweep, find,
}
use netrek_server.Game.{
  Player, Flags, Planet, Game, Teams, only, fed, rom, kli, ori, same, set_player, set_planet,
  max_player, max_torp, Status, free, outfit, alive, explode, dead, observ, WhyDead, login, quit,
  bad_binary, ghost, by_ship, by_torp, by_phaser, by_plasma, by_planet, genocide, is_starbase,
  is_alive,
}
use netrek_server.Bay.{bay_release, bay_release_all}
use netrek_server.Slot.{Slots, freeslot}
use netrek_server.Torp.{Torp, TorpStatus, t_move, first_plasma}
use netrek_server.Conquest.{p_explosion}
use netrek_server.Blast.{Physics, blowup}
use netrek_server.Alive.{Delays, ghosttime, Drive, patience, udplayers_palive}

abbrev kghosttime : Delays → ℕ
kghosttime d = (d.ghostbust_timer + 2) * 1000000 / d.update

abbrev outfittime : Delays → ℕ
outfittime d = 3 * d.autoquit * 1000000 / d.update

-- The shared memory that the cases write; of `slots` only the queues and counts are read, the players
-- are those of `game`, and `te_turns` is that of `struct team`.
pub record Roster : Type 0 where
  pub game : Game
  pub slots : Slots
  pub torps : ℕ → Torp
  pub te_turns : Teams → ℕ

unfoldable pub outfit_delay : Delays → WhyDead → ℕ
outfit_delay d login = d.logintime * 1000000 / d.update
outfit_delay d quit = ghosttime d
outfit_delay d bad_binary = ghosttime d
outfit_delay d ghost = kghosttime d
outfit_delay d _ = outfittime d

abbrev pub on_me : ℕ → (Player → Player) → Roster → Roster
on_me i f r = record r { game = set_player i (f (r.game.players i)) r.game }

-- `10 * (remap[team] - 1)`, the first planet of the team's home system; `none` if below 0
unfoldable pub home_start : Teams → Option ℕ
home_start t =
    if same t (only fed)
    then some 0
    else if same t (only rom)
    then some 10
    else if same t (only kli)
    then some 20
    else if same t (only ori)
    then some 30
    else none

-- The armies of a ghost go to the first planet at home that its team owns.
unfoldable pub rescued : Option ℕ → ℕ → Game → Game
rescued none i g = g
rescued (some h) i g =
    let p = g.players i in
    let l = g.planets h in
    set_player i (record p { p_armies = 0 })
      (set_planet h (record l { pl_armies = l.pl_armies +ℤ pos p.p_armies }) g)

unfoldable pub refuge : Option ℕ → Teams → Game → Option ℕ
unfolding find
refuge none t g = none
refuge (some k) t g = find 10 k (λ h. same (g.planets h).pl_owner t)

unfoldable pub ghostmess : ℕ → Game → Game
unfolding home_start rescued refuge
ghostmess i g =
    let p = g.players i in
    if p.p_flags.observer
    then g
    else if ltb 0 p.p_armies
    then rescued (refuge (home_start p.p_team) p.p_team g) i g
    else g

-- `freeslot(j)` on the players of the roster
unfoldable pub free_player : ℕ → Roster → Roster
unfolding freeslot
free_player i r =
    let s = (freeslot i (record (r.slots) { players = r.game.players })).1 in
    record r { game = record (r.game) { players = s.players }; slots = s }

unfoldable pub udplayers_poutfit : Delays → ℕ → Roster → Roster
unfolding outfit_delay ghostmess free_player
udplayers_poutfit d i r =
    let s = on_me i patience r in
    let p = s.game.players i in
    if ltb (outfit_delay d p.p_whydead) p.p_ghostbuster
    then (let g = record s { game = ghostmess i s.game } in
        if ltb 1 p.p_process then g else free_player i g)
    else s

unfoldable pub udplayers_pobserv : Delays → ℕ → Roster → Roster
unfolding ghostmess
udplayers_pobserv d i r =
    let s = on_me i patience r in
    if ltb (ghosttime d) (s.game.players i).p_ghostbuster
    then on_me i (λ p. record p { p_status = dead; p_whydead = ghost; p_whodead = p.p_no })
        (record s { game = ghostmess i s.game })
    else s

unfoldable pub decay : Bool → Player → Player
decay paused p =
    let left = p.p_explode -ℤ pos 1 in
    if leb_ℤ left (pos 0) || paused
    then record p { p_explode = left; p_status = outfit }
    else record p { p_explode = left }

unfoldable pub udplayers_pdead : ℕ → Roster → Roster
unfolding decay
udplayers_pdead i r = on_me i (decay r.game.paused) r

-- When the explosion does its damage.
unfoldable pub is_blast : Player → Bool
is_blast p = is_starbase p.p_ship.s_type && eq_ℤ p.p_explode (pos 11) || eq_ℤ p.p_explode (pos 7)

abbrev pub uncloak : Player → Player
uncloak p = record p { p_updates = p.p_updates + 1; p_flags = record (p.p_flags) { cloak = false } }

unfoldable pub burn : Player → Player
burn p =
    let left = p.p_explode -ℤ pos 1 in
    if leb_ℤ left (pos 0)
    then record p { p_status = dead; p_explode = pos 600 }
    else record p { p_explode = left }

abbrev pub is_loss : WhyDead → Bool
is_loss by_ship = true
is_loss by_torp = true
is_loss by_phaser = true
is_loss by_plasma = true
is_loss by_planet = true
is_loss genocide = true
is_loss _ = false

-- `udplayers_pexplode_bays`
unfoldable pub explode_bays : Delays → ℕ → Roster → Roster
unfolding bay_release bay_release_all
explode_bays d i r =
    let p = r.game.players i in
    let ps = bay_release i r.game.players in
    if is_starbase p.p_ship.s_type
    then record r {
      game = record (r.game) { players = bay_release_all i ps };
      te_turns =
          (if is_loss p.p_whydead && r.game.tourn
            then (λ t. if same t p.p_team then d.starbase_rebuild_time else r.te_turns t)
            else r.te_turns);
    }
    else record r { game = record (r.game) { players = ps } }

abbrev pub break_orbit : Player → Player
break_orbit p = record p { p_flags = record (p.p_flags) { orbit = false } }

abbrev is_in_flight : TorpStatus → Bool
is_in_flight t_move = true
is_in_flight _ = false

-- The timer of a weapon in flight, of player i: eight photons and a plasma.
unfoldable pub trimmed : Delays → ℕ → ℕ → Torp → Torp
trimmed d i k t =
    if (leb (max_torp * i) k && ltb k (max_torp * i + max_torp) || k == first_plasma + i)
      && is_in_flight t.t_status
      && ltb d.five_seconds t.t_fuse
    then record t { t_fuse = d.five_seconds }
    else t

unfoldable pub udplayers_pexplode : Delays → Physics → ℕ → Roster → Roster
unfolding is_blast blowup burn explode_bays trimmed
udplayers_pexplode d h i r =
    let a = on_me i uncloak r in
    let b = if is_blast (a.game.players i) then record a { game = blowup h i a.game } else a in
    let c = explode_bays d i (on_me i burn b) in
    let e = on_me i break_orbit c in record e { torps = λ k. trimmed d i k (e.torps k) }

-- The `switch` of `udplayers` for player i. An exploding ship falls through to `udplayers_palive`, which
-- only moves it. The count of each team's ships is left out.
unfoldable pub status_by : Status → Delays → Physics → Drive → ℕ → Roster → Roster
unfolding udplayers_poutfit udplayers_pobserv udplayers_pdead udplayers_pexplode udplayers_palive
status_by outfit d h v i r = udplayers_poutfit d i r
status_by free d h v i r = on_me i (λ p. record p { p_ghostbuster = 0 }) r
status_by observ d h v i r = udplayers_pobserv d i r
status_by dead d h v i r = udplayers_pdead i r
status_by explode d h v i r =
    let e = udplayers_pexplode d h i r in
    record e { game = udplayers_palive d h.safe_idle v i e.game }
status_by alive d h v i r = record r { game = udplayers_palive d h.safe_idle v i r.game }

unfoldable pub status_update : Delays → Physics → Drive → ℕ → Roster → Roster
unfolding status_by
status_update d h v i r = status_by (r.game.players i).p_status d h v i r
