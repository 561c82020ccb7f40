-- ===== src/Command/Orbits.antt =====
-- Docking, orbiting and declaring war keep the bits of `p_flags` exclusive, in every ship.
use netrek_server.Base.{
  ℕ, zero, suc, ◌+◌, ◌*◌, ◌/◌, ◌≡◌, refl, Bool, true, false, ◌&&◌, Option, none, some, ℤ, ◌-ℤ◌, put,
  put_keeps, ◌∙◌, arith, inl, inr, Bool-cases, Option-cases, if◌then◌else◌, find, ap, loop_inv,
  subst,
}
use netrek_server.Game.{
  Player, Client, Teams, mine, set_mine, on_players, num_bays, is_off, max_planets, max_player,
  is_starbase, meets, without, all_teams,
}
use netrek_server.Bay.{Players, bay_release, bay_claim, bay_closest}
use netrek_server.Bay.Consistency.{bay_consistency_check_lem}
use netrek_server.Dock.{
  Trig, DockResult, success, failure, no_base, end_twarp, de_lock, berth, take_bay, moor_at,
  Verdict, far, clear, refuse, dock_verdict, dock_by, dock, Beam, no_beam, base_beam, ship_beam,
  beam_of, held_round, held_by, is_other_base, dock_round, dock_any, orbit_planet, in_orbit_range,
  may_orbit, orbit_if, find_orbit, seek_base, orbit_free, orbit_held, orbit_within, orbit,
}
use netrek_server.War.{
  release_hostile, leave, expel, part, reprogram, pause, set_stance, Stance, at_peace, unchanged,
  changed, stance_of, take_stance, declare_war,
}
use netrek_server.Command.Exclusive.{AllExclusive, Clean, put-Exclusive, bay_release-Exclusive}

end_twarp-Clean : (c : Client) → Clean c → Clean (end_twarp c)
unfolding end_twarp
end_twarp-Clean c v = elim (Bool-cases (mine c).p_flags.twarp) [
  | inl e ↦
      rw (e, end_twarp) (put-Exclusive c.me _ c.game.players (let h = v c.me in ground arith) v)
  | inr e ↦ rw (e, end_twarp) v
]

de_lock-Clean : (c : Client) → Clean c → Clean (de_lock c)
unfolding de_lock
de_lock-Clean c v =
    end_twarp-Clean (set_mine p c)
      (put-Exclusive c.me p c.game.players (let h = v c.me in ground arith) v)
  where
    p : Player
    p = record (mine c) {
      p_flags = record ((mine c).p_flags) {
        plock = false;
        pllock = false;
        tract = false;
        press = false;
      };
    }

bay_claim-flags :
    (b me k : ℕ) (ps : Players) (s : ℕ) → (bay_claim b me k ps s).p_flags ≡ (ps s).p_flags
unfolding bay_claim
bay_claim-flags b me k ps s =
    put_keeps (λ (p : Player). p.p_flags) docked b _ s refl
    ∙ put_keeps (λ (p : Player). p.p_flags) ps me _ s refl
  where
    docked : Players
    docked = put ps me (record (ps me) { p_dock_with = (ps b).p_no; p_dock_bay = k })

bay_closest-flags :
    (b : ℕ) (dx dy : ℤ) (ps : Players) (s : ℕ)
    → ((bay_closest b dx dy ps).1 s).p_flags ≡ (ps s).p_flags
unfolding bay_closest
bay_closest-flags b dx dy ps s =
    ap (λ (p : Player). p.p_flags) ((bay_consistency_check_lem b ps).1 s)

module _ (trig : Trig) (b : ℕ) where
  take_bay-Clean : (k : ℕ) (c : Client) → Clean c → Clean (take_bay trig b k c)
  unfolding take_bay
  take_bay-Clean k c v s = rw (bay_claim-flags b c.me k _ s) (
      end_twarp-Clean (set_mine p c)
        (put-Exclusive c.me p c.game.players (let h = v c.me in ground arith) v) s)
    where
      p : Player
      p = berth trig (c.game.players b) ((k * 90 + 45) * 256 / 360) (mine c)

  moor_at-Clean : (c : Client) → Clean c → Clean (moor_at trig b c).1
  unfolding moor_at
  moor_at-Clean c v = elim (Option-cases (bay_closest b dx dy c.game.players).0) [
    | inl e ↦ rw (e, moor_at) (de_lock-Clean checked after)
    | inr (k, e) ↦ rw (e, moor_at) (take_bay-Clean k checked after)
  ]
    where
      dx : ℤ
      dx = (c.game.players b).p_x -ℤ (mine c).p_x

      dy : ℤ
      dy = (c.game.players b).p_y -ℤ (mine c).p_y

      checked : Client
      checked = on_players (λ _. (bay_closest b dx dy c.game.players).1) c

      after : Clean checked
      after s = rw (bay_closest-flags b dx dy c.game.players s) (v s)

  dock_by-Clean : (r : Verdict) (c : Client) → Clean c → Clean (dock_by trig b r c).1
  unfolding dock_by
  dock_by-Clean far c v = v
  dock_by-Clean (refuse r) c v = de_lock-Clean c v
  dock_by-Clean clear c v = moor_at-Clean c v

  dock-Clean : (c : Client) → Clean c → Clean (dock trig b c).1
  unfolding dock
  dock-Clean c v = dock_by-Clean (dock_verdict b c) c v

held_by-Clean :
    (n j : ℕ) (holder : Option ℕ) (c : Client) → Clean c → Clean (held_by n j holder c).1
unfolding held_by
held_by-Clean zero j holder c v = v
held_by-Clean (suc n) j holder c v = go (beam_of j c) holder (held_by-Clean n (j + 1))
  where
    go :
        (beam : Beam) (h : Option ℕ)
        → ((h' : Option ℕ) (d : Client) → Clean d → Clean (held_by n (j + 1) h' d).1)
        → Clean (held_round beam j h c (held_by n (j + 1))).1
    go no_beam h next = next h c v
    go base_beam none next =
        next (some j) _ (put-Exclusive c.me _ c.game.players (let h = v c.me in ground arith) v)
    go base_beam (some _) next = v
    go ship_beam h next = v

dock_round-Clean :
    (t : Bool) (r : DockResult) (d c' : Client) (rest : Option Client)
    → Clean d
    → (rest ≡ some c' → Clean c')
    → dock_round t r d rest ≡ some c'
    → Clean c'
unfolding dock_round
dock_round-Clean true success d c' rest v w e =
    let q : d ≡ c' = cc in subst (λ (x : Client). Clean x) q v
dock_round-Clean true (failure r) d c' rest v w e =
    let q : d ≡ c' = cc in subst (λ (x : Client). Clean x) q v
dock_round-Clean true no_base d c' rest v w e = w e
dock_round-Clean false success d c' rest v w e = w e
dock_round-Clean false (failure r) d c' rest v w e = w e
dock_round-Clean false no_base d c' rest v w e = w e

module _ (trig : Trig) where
  dock_any-Clean : (n j : ℕ) (c c' : Client) → Clean c → dock_any trig n j c ≡ some c' → Clean c'
  unfolding dock_any
  dock_any-Clean zero j c c' v e = cc
  dock_any-Clean (suc n) j c c' v e =
      dock_round-Clean (is_other_base j c) (dock trig j c).0 (dock trig j c).1 c'
        (dock_any trig n (j + 1) c) (dock-Clean trig j c v) (dock_any-Clean n (j + 1) c c' v) e

  orbit_if-Clean : (t : Bool) (i : ℕ) (c : Client) → Clean c → Clean (orbit_if t trig i c).0
  unfolding orbit_if orbit_planet
  orbit_if-Clean true i c v = put-Exclusive c.me _ c.game.players (let h = v c.me in ground arith) v
  orbit_if-Clean false i c v = v

module _ (trig : Trig) (sborbit : Bool) where
  find_orbit-Clean : (c : Client) → Clean c → Clean (find_orbit trig sborbit c).0
  unfolding find_orbit
  find_orbit-Clean c v = elim (Option-cases (find max_planets 0 (in_orbit_range c))) [
    | inl e ↦ rw (e, find_orbit) v
    | inr (i, e) ↦ rw (e, find_orbit) (orbit_if-Clean trig (may_orbit sborbit c i) i c v)
  ]

  seek_base-Clean : (t : Bool) (c : Client) → Clean c → Clean (seek_base trig sborbit t c).0
  unfolding seek_base
  seek_base-Clean true c v = elim (Option-cases (dock_any trig max_player 0 c)) [
    | inl e ↦ rw (e, seek_base) (find_orbit-Clean c v)
    | inr (c', e) ↦ rw (e, seek_base) (dock_any-Clean trig max_player 0 c c' v e)
  ]
  seek_base-Clean false c v = find_orbit-Clean c v

  orbit_free-Clean : (t : Bool) (c : Client) → Clean c → Clean (orbit_free trig sborbit t c).0
  unfolding orbit_free
  orbit_free-Clean true c v = v
  orbit_free-Clean false c v = seek_base-Clean _ c v

  orbit_held-Clean :
      (held : Option (Option ℕ)) (c : Client) → Clean c → Clean (orbit_held trig sborbit held c).0
  unfolding orbit_held
  orbit_held-Clean none c v = v
  orbit_held-Clean (some none) c v = orbit_free-Clean _ c v
  orbit_held-Clean (some (some j)) c v = dock-Clean trig j c v

  orbit_within-Clean : (t : Bool) (c : Client) → Clean c → Clean (orbit_within trig sborbit t c).0
  unfolding orbit_within
  orbit_within-Clean true c v = orbit_held-Clean _ _ (held_by-Clean max_player 0 none c v)
  orbit_within-Clean false c v = v

  pub orbit-Clean : (c : Client) → Clean c → Clean (orbit trig sborbit c).0
  unfolding orbit
  orbit-Clean c v = elim (Bool-cases (is_off (mine c).p_inl_draft)) [
    | inl e ↦ rw (e, orbit) (orbit_within-Clean _ c v)
    | inr e ↦ rw (e, orbit) v
  ]

release_hostile-Clean :
    (b i : ℕ) (m : Teams) (ps : Players) → AllExclusive ps → AllExclusive (release_hostile b m i ps)
unfolding release_hostile
release_hostile-Clean b i m ps v = go ((ps b).p_bays i)
  where
    go :
        (o : Option ℕ)
        → AllExclusive
            (elim o [ none ↦ ps | some s ↦ if meets m (ps s).p_team then bay_release s ps else ps ])
    go none = v
    go (some s) = pick (meets m (ps s).p_team)
      where
        pick : (t : Bool) → AllExclusive (if t then bay_release s ps else ps)
        pick true = bay_release-Exclusive s ps v
        pick false = v

leave-Clean : (t : Bool) (c : Client) → Clean c → Clean (leave t c)
unfolding leave
leave-Clean true c v = bay_release-Exclusive c.me c.game.players v
leave-Clean false c v = v

expel-Clean : (t : Bool) (m : Teams) (c : Client) → Clean c → Clean (expel t m c)
unfolding expel
expel-Clean true m c v =
    loop_inv (λ i qs. AllExclusive qs) (release_hostile c.me m) num_bays 0 num_bays c.game.players
      refl (λ i qs lo hi h. release_hostile-Clean c.me i m qs h) v
expel-Clean false m c v = v

reprogram-Clean : (t : Bool) (c : Client) → Clean c → Clean (reprogram t c)
unfolding reprogram
reprogram-Clean true c v = put-Exclusive c.me _ c.game.players (let h = v c.me in ground arith) v
reprogram-Clean false c v = v

part-Clean : (m : Teams) (c : Client) → Clean c → Clean (part m c)
unfolding part
part-Clean m c v =
    expel-Clean (is_starbase (mine c).p_ship.s_type) m (leave t c) (leave-Clean t c v)
  where
    t : Bool
    t = (mine c).p_flags.dock && meets (c.game.players (mine c).p_dock_with).p_team m

pause-Clean : (d : Bool) (m : Teams) (c : Client) → Clean c → Clean (pause d m c)
unfolding pause
pause-Clean d m c v = reprogram-Clean (d && meets (without m (mine c).p_hostile) all_teams) c v

take_stance-Clean : (s : Stance) (d : Bool) (c : Client) → Clean c → Clean (take_stance s d c).0
unfolding take_stance set_stance
take_stance-Clean at_peace d c v = put-Exclusive c.me _ c.game.players (v c.me) v
take_stance-Clean unchanged d c v = v
take_stance-Clean (changed m) d c v =
    let w = pause-Clean d m (part m c) (part-Clean m c v) in
    put-Exclusive (pause d m (part m c)).me _ (pause d m (part m c)).game.players
      (w (pause d m (part m c)).me) w

pub declare_war-Clean : (m : Teams) (d : Bool) (c : Client) → Clean c → Clean (declare_war m d c).0
unfolding declare_war
declare_war-Clean m d c v = take_stance-Clean (stance_of m (mine c)) d c v
