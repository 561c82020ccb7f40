-- ===== src/War/Masks.antt =====
-- Who a ship is at war with after `declare_war`, team by team.
use netrek_server.Base.{
  ℕ, ◌≡◌, ◌∙◌, refl, ap, sym, Bool, true, false, not, ◌&&◌, ◌||◌, Option, none, some, arith,
  put_self, put_keeps, loop_inv, if◌then◌else◌,
}
use netrek_server.Game.{
  Teams, Team, fed, rom, kli, ori, has, join, without, same, meets, nobody, Player, Client, mine,
  num_bays, is_starbase, all_teams,
}
use netrek_server.Bay.{Players, set_bay, undock, bay_release}
use netrek_server.War.{
  war_mask, release_hostile, leave, expel, part, reprogram, pause, set_stance, Stance, at_peace,
  unchanged, changed, stance_of, take_stance, declare_war,
}

-- `p_war` is kept as `p_swar | p_hostile`.
abbrev pub IsSummed : Player → Type 0
IsSummed p = p.p_war ≡ join p.p_swar p.p_hostile

-- The mask of the new stance, team by team: what is asked for, less the own team, and the wars that
-- cannot be left.
has-war_mask :
    (mask : Teams) (p : Player) (t : Team)
    → has (war_mask mask p) t ≡ (has mask t && not (has p.p_team t) || has p.p_swar t)
unfolding war_mask join without
has-war_mask mask p fed = refl
has-war_mask mask p rom = refl
has-war_mask mask p kli = refl
has-war_mask mask p ori = refl

same→eq : (a b : Teams) → same a b ≡ true → a ≡ b
unfolding same
same→eq a b h = ground arith

bay_release-swar : (m s : ℕ) (ps : Players) → (bay_release m ps s).p_swar ≡ (ps s).p_swar
unfolding bay_release
bay_release-swar m s ps = go (ps m).p_flags.dock
  where
    freed : Players
    freed = set_bay (ps m).p_dock_with (ps m).p_dock_bay none ps

    go :
        (d : Bool)
        → let qs : Players = if d then undock m freed else ps in (qs s).p_swar ≡ (ps s).p_swar
    go true =
        put_keeps (λ (p : Player). p.p_swar) freed m _ s refl
        ∙ put_keeps (λ (p : Player). p.p_swar) ps (ps m).p_dock_with _ s refl
    go false = refl

release_hostile-swar :
    (b i s : ℕ) (m : Teams) (ps : Players) → (release_hostile b m i ps s).p_swar ≡ (ps s).p_swar
unfolding release_hostile
release_hostile-swar b i s m ps = go ((ps b).p_bays i)
  where
    pick :
        (t : ℕ) (d : Bool)
        → let qs : Players = if d then bay_release t ps else ps in (qs s).p_swar ≡ (ps s).p_swar
    pick t true = bay_release-swar t s ps
    pick t false = refl

    go :
        (o : Option ℕ)
        → let qs : Players = elim o [
          | none ↦ ps
          | some t ↦ if meets m (ps t).p_team then bay_release t ps else ps
        ] in
          (qs s).p_swar ≡ (ps s).p_swar
    go none = refl
    go (some t) = pick t (meets m (ps t).p_team)

leave-swar : (t : Bool) (c : Client) → (mine (leave t c)).p_swar ≡ (mine c).p_swar
unfolding leave
leave-swar true c = bay_release-swar c.me c.me c.game.players
leave-swar false c = refl

expel-swar : (t : Bool) (m : Teams) (c : Client) → (mine (expel t m c)).p_swar ≡ (mine c).p_swar
unfolding expel
expel-swar true m c =
    loop_inv (λ i qs. (qs c.me).p_swar ≡ (mine c).p_swar) (release_hostile c.me m) num_bays 0
      num_bays c.game.players refl (λ i qs lo hi h. release_hostile-swar c.me i c.me m qs ∙ h) refl
expel-swar false m c = refl

reprogram-swar : (t : Bool) (c : Client) → (mine (reprogram t c)).p_swar ≡ (mine c).p_swar
unfolding reprogram
reprogram-swar true c = put_keeps (λ (p : Player). p.p_swar) c.game.players c.me _ c.me refl
reprogram-swar false c = refl

ready-swar :
    (d : Bool) (m : Teams) (c : Client) → (mine (pause d m (part m c))).p_swar ≡ (mine c).p_swar
unfolding pause part
ready-swar d m c =
    reprogram-swar (d && meets (without m (mine (part m c)).p_hostile) all_teams) (part m c)
    ∙ expel-swar (is_starbase (mine c).p_ship.s_type) m (leave t c)
    ∙ leave-swar t c
  where
    t : Bool
    t = (mine c).p_flags.dock && meets (c.game.players (mine c).p_dock_with).p_team m

set_stance-me :
    (m : Teams) (c : Client)
    → mine (set_stance m c) ≡ record (mine c) { p_hostile = m; p_war = join (mine c).p_swar m }
unfolding set_stance
set_stance-me m c = put_self c.game.players c.me _

-- What a declaration leaves: hostile to `m`, the sticky wars `w`, and the sum of the two.
abbrev pub IsDeclared : Teams → Teams → Player → Type 0
IsDeclared m w q = (q.p_hostile ≡ m) × (q.p_swar ≡ w) × IsSummed q

take_stance_lem :
    (m : Teams) (d : Bool) (c : Client)
    → IsDeclared m (mine c).p_swar (mine (take_stance (changed m) d c).0)
unfolding take_stance
take_stance_lem m d c = rw (set_stance-me m (pause d m (part m c))) (refl, ready-swar d m c, refl)

stance-Declared :
    (r h : Bool) (m : Teams) (d : Bool) (c : Client)
    → r ≡ false
    → same m (mine c).p_hostile ≡ h
    → IsSummed (mine c)
    → let s : Stance = if r then at_peace else if h then unchanged else changed m in
      IsDeclared m (mine c).p_swar (mine (take_stance s d c).0)
unfolding take_stance
stance-Declared true h m d c e f summed = absurd (cc)
stance-Declared false true m d c e f summed = (sym (same→eq m (mine c).p_hostile f), refl, summed)
stance-Declared false false m d c e f summed = take_stance_lem m d c

-- After a declaration by a ship that has a team (or is a robot), and whose `p_war` is the sum of its
-- two masks: it is hostile to exactly the teams that it named, its own left out, and those that it
-- is at sticky war with; the sticky wars are as they were, and `p_war` is the sum again.
pub declare_war_lem :
    (mask : Teams) (d : Bool) (c : Client)
    → (not (mine c).p_flags.robot && same (mine c).p_team nobody) ≡ false
    → IsSummed (mine c)
    → let p = mine c in
      let q = mine (declare_war mask d c).0 in
      ((t : Team) → has q.p_hostile t ≡ (has mask t && not (has p.p_team t) || has p.p_swar t))
      × (q.p_swar ≡ p.p_swar)
      × IsSummed q
unfolding declare_war stance_of
declare_war_lem mask d c team summed =
    let r =
      stance-Declared (not (mine c).p_flags.robot && same (mine c).p_team nobody)
        (same (war_mask mask (mine c)) (mine c).p_hostile) (war_mask mask (mine c)) d c team refl
        summed in
    (λ t. ap (λ (m : Teams). has m t) r.0 ∙ has-war_mask mask (mine c) t, r.1, r.2)
