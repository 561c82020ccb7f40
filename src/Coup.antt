-- ===== src/Coup.antt =====
-- Throwing a coup: `coup` of ntserv/coup.c. The home planet is only marked; `plfight` of
-- ntserv/daemon.c gives it back.
pub mod Restored
use netrek_server.Base.{
  ℕ, ◌+◌, Bool, true, false, not, ◌&&◌, ◌||◌, ltb, ltb_ℤ, Option, none, some, pos, negsuc,
  if◌then◌else◌, find,
}
use netrek_server.Game.{
  Player, Planet, Game, Client, Reply, accepted, ignored, refused, mine, set_player, set_planet,
  same, max_planets,
}

abbrev pub is_found : Option ℕ → Bool
is_found none = false
is_found (some i) = true

abbrev pub has_armies : Client → ℕ → Bool
has_armies c i =
    same (c.game.planets i).pl_owner (mine c).p_team && ltb_ℤ (pos 0) (c.game.planets i).pl_armies

-- `You already own a planet!!!`
unfoldable pub owns_planet : Client → Bool
unfolding find
owns_planet c = is_found (find max_planets 0 (has_armies c))

-- The tests on the planet in orbit. UNDEF is -1.
unfoldable pub home_refusal : Player → Planet → Option Reply
home_refusal p l =
    if not l.pl_home || not (same l.origin p.p_team)
    then some (refused (pos 6))
    else if ltb_ℤ (pos 4) l.pl_armies
    then some (refused (pos 7))
    else if ltb 0 l.pl_couptime
    then some (refused (negsuc 0))
    else if l.pl_coup
    then some ignored
    else none

-- The tests of `coup`, in order; `none` if there is a coup.
unfoldable pub coup_refusal : Client → Option Reply
unfolding owns_planet home_refusal
coup_refusal c =
    let p = mine c in
    if ltb p.p_kills 100
    then some (refused (pos 3))
    else if not p.p_flags.orbit
    then some (refused (pos 4))
    else if owns_planet c
    then some (refused (pos 5))
    else home_refusal p (c.game.planets p.p_planet)

-- The mark and the credit.
unfoldable pub throw_coup : Client → Client
throw_coup c =
    let p = mine c in
    let h = p.p_planet in
    record c {
      game =
          set_planet h (record (c.game.planets h) { pl_coup = true })
            (set_player c.me
              (record p { p_planets = p.p_planets + 1; p_genoplanets = p.p_genoplanets + 1 })
              c.game);
    }

unfoldable pub coup_by : Option Reply → Client → Client × Reply
unfolding throw_coup
coup_by (some r) c = (c, r)
coup_by none c = (throw_coup c, accepted)

unfoldable pub coup : Client → Client × Reply
unfolding coup_refusal coup_by
coup c = coup_by (coup_refusal c) c
