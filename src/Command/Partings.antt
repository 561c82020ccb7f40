-- ===== src/Command/Partings.antt =====
-- Declaring war keeps every docked ship in the bay that it names.
use netrek_server.Base.{
  ℕ, refl, Bool, true, false, ◌&&◌, Option, none, some, if◌then◌else◌, loop_inv,
}
use netrek_server.Game.{Client, Teams, mine, num_bays, is_starbase, meets, without, all_teams}
use netrek_server.Bay.{Players, bay_release}
use netrek_server.War.{
  release_hostile, leave, expel, part, reprogram, pause, set_stance, Stance, at_peace, unchanged,
  changed, stance_of, take_stance, declare_war,
}
use netrek_server.Bay.Berth.{IsBerthed, put-IsBerthed, bay_release-IsBerthed}
use netrek_server.Dock.Berths.{Berthed}
use netrek_server.Command.Berths.{moored_as}

release_hostile-Berthed :
    (b i : ℕ) (m : Teams) (ps : Players) → IsBerthed ps → IsBerthed (release_hostile b m i ps)
unfolding release_hostile
release_hostile-Berthed b i m ps v = go ((ps b).p_bays i)
  where
    go :
        (o : Option ℕ)
        → IsBerthed
            (elim o [ none ↦ ps | some s ↦ if meets m (ps s).p_team then bay_release s ps else ps ])
    go none = v
    go (some s) = pick (meets m (ps s).p_team)
      where
        pick : (t : Bool) → IsBerthed (if t then bay_release s ps else ps)
        pick true = bay_release-IsBerthed s ps v
        pick false = v

leave-Berthed : (t : Bool) (c : Client) → Berthed c → Berthed (leave t c)
unfolding leave
leave-Berthed true c v = bay_release-IsBerthed c.me c.game.players v
leave-Berthed false c v = v

expel-Berthed : (t : Bool) (m : Teams) (c : Client) → Berthed c → Berthed (expel t m c)
unfolding expel
expel-Berthed true m c v =
    loop_inv (λ i qs. IsBerthed qs) (release_hostile c.me m) num_bays 0 num_bays c.game.players refl
      (λ i qs lo hi h. release_hostile-Berthed c.me i m qs h) v
expel-Berthed false m c v = v

reprogram-Berthed : (t : Bool) (c : Client) → Berthed c → Berthed (reprogram t c)
unfolding reprogram
reprogram-Berthed true c v =
    put-IsBerthed c.me _ c.game.players (moored_as _ _ refl refl refl refl (λ i. refl)) v
reprogram-Berthed false c v = v

part-Berthed : (m : Teams) (c : Client) → Berthed c → Berthed (part m c)
unfolding part
part-Berthed m c v =
    expel-Berthed (is_starbase (mine c).p_ship.s_type) m (leave t c) (leave-Berthed t c v)
  where
    t : Bool
    t = (mine c).p_flags.dock && meets (c.game.players (mine c).p_dock_with).p_team m

pause-Berthed : (d : Bool) (m : Teams) (c : Client) → Berthed c → Berthed (pause d m c)
unfolding pause
pause-Berthed d m c v = reprogram-Berthed (d && meets (without m (mine c).p_hostile) all_teams) c v

take_stance-Berthed :
    (s : Stance) (d : Bool) (c : Client) → Berthed c → Berthed (take_stance s d c).0
unfolding take_stance set_stance
take_stance-Berthed at_peace d c v =
    put-IsBerthed c.me _ c.game.players (moored_as _ _ refl refl refl refl (λ i. refl)) v
take_stance-Berthed unchanged d c v = v
take_stance-Berthed (changed m) d c v =
    let w = pause-Berthed d m (part m c) (part-Berthed m c v) in
    put-IsBerthed (pause d m (part m c)).me _ (pause d m (part m c)).game.players
      (moored_as _ _ refl refl refl refl (λ i. refl)) w

pub declare_war-Berthed :
    (m : Teams) (d : Bool) (c : Client) → Berthed c → Berthed (declare_war m d c).0
unfolding declare_war
declare_war-Berthed m d c v = take_stance-Berthed (stance_of m (mine c)) d c v
