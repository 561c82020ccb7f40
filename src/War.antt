-- ===== src/War.antt =====
-- Declaring war and peace: `declare_war` of ntserv/interface.c. The messages to the teams are output.
pub mod Masks
use netrek_server.Base.{
  ℕ, ◌+◌, Bool, true, false, not, ◌&&◌, Option, none, some, ℤ, if◌then◌else◌, loop, put,
}
use netrek_server.Game.{
  Teams, Player, Flags, Client, Reply, accepted, ignored, mine, set_mine, my_flags, on_players,
  is_starbase, nobody, all_teams, join, without, meets, same, num_bays,
}
use netrek_server.Bay.{Players, bay_release}

-- `mask` after the three lines that restrict it.
unfoldable pub war_mask : Teams → Player → Teams
war_mask mask p = join (without mask p.p_team) p.p_swar

-- The body of the loop over a base's bays.
unfoldable pub release_hostile : ℕ → Teams → ℕ → Players → Players
release_hostile b mask i ps = elim ((ps b).p_bays i) [
  | none ↦ ps
  | some s ↦ if meets mask (ps s).p_team then bay_release s ps else ps
]

-- The ship leaves a base that it is now hostile to.
unfoldable pub leave : Bool → Client → Client
leave true c = on_players (bay_release c.me) c
leave false c = c

-- A base releases the ships that it is now hostile to.
unfoldable pub expel : Bool → Teams → Client → Client
unfolding loop release_hostile
expel true mask c = on_players (loop num_bays 0 (release_hostile c.me mask)) c
expel false mask c = c

unfoldable pub part : Teams → Client → Client
unfolding leave expel
part mask c =
    let p = mine c in
    expel (is_starbase p.p_ship.s_type) mask
      (leave (p.p_flags.dock && meets (c.game.players p.p_dock_with).p_team mask) c)

unfoldable pub reprogram : Bool → Client → Client
reprogram true c = record (my_flags (λ f. record f { war = true }) c) {
  delay = (mine c).p_updates + 100;
}
reprogram false c = c

-- The pause to re-program the battle computers, when the mask has teams that were not hostile.
unfoldable pub pause : Bool → Teams → Client → Client
unfolding reprogram
pause refitdelay mask c =
    reprogram (refitdelay && meets (without mask (mine c).p_hostile) all_teams) c

unfoldable pub set_stance : Teams → Client → Client
set_stance mask c =
    set_mine (record (mine c) { p_hostile = mask; p_war = join (mine c).p_swar mask }) c

-- What the call comes to: peace with everyone for a ship of no team, no change, or a new stance.
pub data Stance : Type 0 where
  at_peace unchanged : Stance
  changed : Teams → Stance

unfoldable pub stance_of : Teams → Player → Stance
unfolding war_mask
stance_of mask p =
    if not p.p_flags.robot && same p.p_team nobody
    then at_peace
    else if same (war_mask mask p) p.p_hostile
    then unchanged
    else changed (war_mask mask p)

unfoldable pub take_stance : Stance → Bool → Client → Client × Reply
unfolding part pause set_stance
take_stance at_peace refitdelay c =
    (set_mine (record (mine c) { p_war = nobody; p_hostile = nobody; p_swar = nobody }) c, accepted)
take_stance unchanged refitdelay c = (c, ignored)
take_stance (changed m) refitdelay c = (set_stance m (pause refitdelay m (part m c)), accepted)

unfoldable pub declare_war : Teams → Bool → Client → Client × Reply
unfolding stance_of take_stance
declare_war mask refitdelay c = take_stance (stance_of mask (mine c)) refitdelay c
