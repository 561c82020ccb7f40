-- ===== src/Upkeep/Phase.antt =====
-- The phases of a cloak stay within their number, and a cloak engages in bounded time.
use netrek_server.Base.{
  ℕ, zero, suc, ◌+◌, ◌≤◌, ◌<◌, ◌≡◌, refl, true, arith, loop_inv, ltb, if◌then◌else◌,
}
use netrek_server.Game.{Player, Game, is_alive, max_player, set_player}
use netrek_server.Upkeep.{cloak_phases, cloak_round, udcloak}

abbrev pub IsPhased : Player → Type 0
IsPhased p = p.p_cloakphase < cloak_phases

cloak_round-IsPhased : (p : Player) → IsPhased p → IsPhased (cloak_round p)
unfolding cloak_round
cloak_round-IsPhased p h = ground arith

-- One update keeps the cloak phase of every player below CLOAK_PHASES.
pub udcloak-IsPhased :
    (g : Game) → ((s : ℕ) → IsPhased (g.players s)) → (s : ℕ) → IsPhased ((udcloak g).players s)
unfolding udcloak
udcloak-IsPhased g h =
    loop_inv (λ i k. (s : ℕ) → IsPhased (k.players s))
      (λ i k. set_player i (cloak_round (k.players i)) k) max_player 0 max_player g refl
      (λ i k lo hi v s. let w = cloak_round-IsPhased (k.players i) (v i) in ground (arith, v s)) h

-- `n` updates of one ship, with no order in between.
abbrev pub updates : ℕ → Player → Player
updates zero p = p
updates (suc n) p = updates n (cloak_round p)

round_on :
    (p : Player)
    → is_alive p.p_status ≡ true
    → p.p_flags.cloak ≡ true
    → IsPhased p
    → let q = cloak_round p in
      (is_alive q.p_status ≡ true)
      × (q.p_flags.cloak ≡ true)
      × IsPhased q
      × (q.p_cloakphase ≡ (if ltb p.p_cloakphase 11 then p.p_cloakphase + 1 else p.p_cloakphase))
unfolding cloak_round
round_on p a c h = ground arith

-- A living ship whose cloak is on is wholly hidden, in the last phase, after eleven updates or more,
-- from whatever phase.
pub updates-hidden :
    (n : ℕ) (p : Player)
    → is_alive p.p_status ≡ true
    → p.p_flags.cloak ≡ true
    → IsPhased p
    → 11 ≤ p.p_cloakphase + n
    → (updates n p).p_cloakphase ≡ 11
updates-hidden zero p a c h le = omega arith
updates-hidden (suc n) p a c h le =
    let r = round_on p a c h in
    updates-hidden n (cloak_round p) r.0 r.1 r.2 (let e = r.3 in ground arith)
