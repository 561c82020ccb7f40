-- ===== src/Detonate.antt =====
-- Detonating the torpedoes of others: `detothers` of ntserv/detonate.c. The torpedo is only marked;
-- `udtorps` of ntserv/daemon.c lets it explode.
pub mod Marks
use netrek_server.Base.{
  ℕ, ◌+◌, ◌*◌, ◌/◌, ◌%◌, Bool, true, false, not, ◌&&◌, ◌||◌, Option, none, some, pos, negsuc, ◌+ℤ◌,
  ◌-ℤ◌, ltb_ℤ, if◌then◌else◌, sweep, loop,
}
use netrek_server.Game.{
  Player, Client, Reply, accepted, ignored, refused, mine, set_mine, meets, is_free, max_player,
  max_torp,
}
use netrek_server.Torp.{Torp, TorpStatus, t_move, t_det, t_free, t_explode, t_off, Arms}
use netrek_server.Blast.{in_reach}

-- DETDIST
abbrev pub det_dist : ℕ
det_dist = 1700

abbrev pub is_moving : TorpStatus → Bool
is_moving t_move = true
is_moving _ = false

-- `enemyTorp(t)`, which holds of the player's own torpedoes as well.
unfoldable pub is_enemy : Player → Torp → Bool
is_enemy p t = meets p.p_team t.t_war || meets t.t_team p.p_war

unfoldable pub is_detted : Player → Torp → Bool
unfolding is_enemy in_reach
is_detted p t =
    is_enemy p t && is_moving t.t_status && in_reach det_dist (t.t_x -ℤ p.p_x) (t.t_y -ℤ p.p_y)

unfoldable pub detted : Player → Torp → Torp
unfolding is_detted
detted p t = if is_detted p t then record t { t_status = t_det; t_whodet = some p.p_no } else t

-- The eight torpedoes of one player, whose slot is in use.
unfoldable pub det_player : Player → (ℕ → Player) → ℕ → (ℕ → Torp) → ℕ → Torp
unfolding detted sweep
det_player me ps j ts =
    if is_free (ps j).p_status
    then ts
    else sweep max_torp (max_torp * (ps j).p_no) (λ i. detted me) ts

unfoldable pub det_refusal : Client → Option Reply
det_refusal c =
    let p = mine c in
    if c.game.conquer
    then some ignored
    else if ltb_ℤ p.p_fuel (pos p.p_ship.s_detcost)
    then some (refused (negsuc 0))
    else if p.p_flags.wep && not c.game.config.chaosmode
    then some (refused (negsuc 0))
    else none

abbrev pub pay_det : Player → Player
pay_det p = record p {
  p_fuel = p.p_fuel -ℤ pos p.p_ship.s_detcost;
  p_wtemp = p.p_wtemp +ℤ pos (p.p_ship.s_detcost / 5);
}

unfoldable pub det_all : Arms → Arms
unfolding det_player loop
det_all a =
    let c = set_mine (pay_det (mine a.client)) a.client in
    record a { client = c; torps = loop max_player 0 (det_player (mine c) c.game.players) a.torps }

unfoldable pub det_by : Option Reply → Arms → Arms × Reply
unfolding det_all
det_by (some r) a = (a, r)
det_by none a = (det_all a, accepted)

unfoldable pub detothers : Arms → Arms × Reply
unfolding det_refusal det_by
detothers a = det_by (det_refusal a.client) a
