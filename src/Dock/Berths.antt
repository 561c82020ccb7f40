-- ===== src/Dock/Berths.antt =====
-- Docking and orbiting keep every docked ship in the bay that it names.
use netrek_server.Base.{
  ℕ, zero, suc, ◌+◌, ◌<◌, ◌≡◌, ◌≢◌, refl, Bool, true, false, Option, none, some, arith, ◌*◌, ◌/◌,
  ◌∙◌, subst, find, ℤ, ◌-ℤ◌, inl, inr, Bool-cases, Option-cases, ◌||◌,
}
use netrek_server.Game.{
  Player, Client, mine, set_mine, on_players, num_bays, is_off, max_planets, max_player,
}
use netrek_server.Bay.{bay_closest}
use netrek_server.Bay.Berth.{
  IsBerthed, put-IsBerthed, undock-IsBerthed, bay_claim-IsBerthed, bay_closest-IsBerthed,
}
use netrek_server.Bay.Closest.{bay_closest-cases}
use netrek_server.Dock.{
  Trig, end_twarp, de_lock, DockResult, failure, take_bay, moor_at, dock, berth, held_by, dock_any,
  orbit_planet, in_orbit_range, Beam, no_beam, base_beam, ship_beam, beam_of, held_round,
  is_other_base, dock_round, success, no_base, Verdict, far, refuse, clear, dock_verdict, dock_by,
  may_orbit, orbit_if, seek_base, orbit_held, orbit_within, find_orbit, orbit_free, orbit,
}

abbrev pub Berthed : Client → Type 0
Berthed c = IsBerthed c.game.players

end_twarp-Berthed : (c : Client) → Berthed c → Berthed (end_twarp c)
unfolding end_twarp
end_twarp-Berthed c v = elim (Bool-cases (mine c).p_flags.twarp) [
  | inl e ↦
      rw (e, end_twarp)
        (put-IsBerthed c.me _ _
          (record {
            same_no = refl;
            same_dock = refl;
            same_with = refl;
            same_bay = refl;
            same_bays = λ i. refl;
          })
          v)
  | inr e ↦ rw (e, end_twarp) v
]

de_lock-Berthed : (c : Client) → Berthed c → Berthed (de_lock c)
unfolding de_lock
de_lock-Berthed c v = end_twarp-Berthed _ (
    put-IsBerthed c.me _ _
      (record {
        same_no = refl;
        same_dock = refl;
        same_with = refl;
        same_bay = refl;
        same_bays = λ i. refl;
      })
      v)

-- The ship's own structure is written, then the transwarp bits: what is left as it was.
module _ (c : Client) (p : Player) where
  settled_other : (s : ℕ) → c.me ≢ s → (end_twarp (set_mine p c)).game.players s ≡ c.game.players s
  unfolding end_twarp
  settled_other s h = ground arith

  settled-p_no :
      p.p_no ≡ (mine c).p_no
      → (s : ℕ) → ((end_twarp (set_mine p c)).game.players s).p_no ≡ (c.game.players s).p_no
  unfolding end_twarp
  settled-p_no e s = ground arith

  settled-bays :
      (s k : ℕ)
      → p.p_bays k ≡ (mine c).p_bays k
      → ((end_twarp (set_mine p c)).game.players s).p_bays k ≡ (c.game.players s).p_bays k
  unfolding end_twarp
  settled-bays s k e = ground arith

module _ (trig : Trig) (b : ℕ) where
  take_bay-Berthed :
      (k : ℕ) (c : Client)
      → k < num_bays
      → (c.game.players b).p_bays k ≡ none
      → Berthed c
      → Berthed (take_bay trig b k c)
  unfolding take_bay
  take_bay-Berthed k c lt vacant v =
      bay_claim-IsBerthed b c.me k moved.game.players (λ s. settled-p_no c p refl s ∙ v.numbered s)
        (λ s ne d.
          let e = settled_other c p s ne in
          let (room, here) = v.claimed s (rw e at d) in
          rw e (room, settled-bays c p _ _ refl ∙ here))
        lt (settled-bays c p b k refl ∙ vacant)
    where
      p : Player
      p = berth trig (c.game.players b) ((k * 90 + 45) * 256 / 360) (mine c)

      moved : Client
      moved = end_twarp (set_mine p c)

  moor_at-Berthed : (c : Client) → Berthed c → Berthed (moor_at trig b c).1
  unfolding moor_at
  moor_at-Berthed c v = elim (Option-cases (bay_closest b dx dy c.game.players).0) [
    | inl e ↦ rw (e, moor_at) (de_lock-Berthed checked after)
    | inr (k, e) ↦
        let (lt, vacant) = (bay_closest-cases b dx dy c.game.players k).0 e in
        rw (e, moor_at) (take_bay-Berthed k checked lt vacant after)
  ]
    where
      dx : ℤ
      dx = (c.game.players b).p_x -ℤ (mine c).p_x

      dy : ℤ
      dy = (c.game.players b).p_y -ℤ (mine c).p_y

      checked : Client
      checked = on_players (λ _. (bay_closest b dx dy c.game.players).1) c

      after : Berthed checked
      after = bay_closest-IsBerthed b dx dy c.game.players v

  dock_by-Berthed : (r : Verdict) (c : Client) → Berthed c → Berthed (dock_by trig b r c).1
  unfolding dock_by
  dock_by-Berthed far c v = v
  dock_by-Berthed (refuse r) c v = de_lock-Berthed c v
  dock_by-Berthed clear c v = moor_at-Berthed c v

  pub dock-Berthed : (c : Client) → Berthed c → Berthed (dock trig b c).1
  unfolding dock
  dock-Berthed c v = dock_by-Berthed (dock_verdict b c) c v

held_by-Berthed :
    (n j : ℕ) (holder : Option ℕ) (c : Client) → Berthed c → Berthed (held_by n j holder c).1
unfolding held_by
held_by-Berthed zero j holder c v = v
held_by-Berthed (suc n) j holder c v = go (beam_of j c) holder (held_by-Berthed n (j + 1))
  where
    go :
        (beam : Beam) (h : Option ℕ)
        → ((h' : Option ℕ) (d : Client) → Berthed d → Berthed (held_by n (j + 1) h' d).1)
        → Berthed (held_round beam j h c (held_by n (j + 1))).1
    go no_beam h next = next h c v
    go base_beam none next = next (some j) _ (undock-IsBerthed c.me c.game.players _ refl v)
    go base_beam (some _) next = v
    go ship_beam h next = v

dock_round-Berthed :
    (t : Bool) (r : DockResult) (d c' : Client) (rest : Option Client)
    → Berthed d
    → (rest ≡ some c' → Berthed c')
    → dock_round t r d rest ≡ some c'
    → Berthed c'
unfolding dock_round
dock_round-Berthed true success d c' rest v w e =
    let q : d ≡ c' = cc in subst (λ (x : Client). Berthed x) q v
dock_round-Berthed true (failure r) d c' rest v w e =
    let q : d ≡ c' = cc in subst (λ (x : Client). Berthed x) q v
dock_round-Berthed true no_base d c' rest v w e = w e
dock_round-Berthed false success d c' rest v w e = w e
dock_round-Berthed false (failure r) d c' rest v w e = w e
dock_round-Berthed false no_base d c' rest v w e = w e

dock_any-Berthed :
    (trig : Trig) (n j : ℕ) (c c' : Client) → Berthed c → dock_any trig n j c ≡ some c' → Berthed c'
unfolding dock_any
dock_any-Berthed trig zero j c c' v e = cc
dock_any-Berthed trig (suc n) j c c' v e =
    dock_round-Berthed (is_other_base j c) (dock trig j c).0 (dock trig j c).1 c'
      (dock_any trig n (j + 1) c) (dock-Berthed trig j c v) (dock_any-Berthed trig n (j + 1) c c' v)
      e

orbit_planet-Berthed :
    (trig : Trig) (i : ℕ) (c : Client) → Berthed c → Berthed (orbit_planet trig i c)
unfolding orbit_planet
orbit_planet-Berthed trig i c v =
    put-IsBerthed c.me _ _
      (record {
        same_no = refl;
        same_dock = refl;
        same_with = refl;
        same_bay = refl;
        same_bays = λ k. refl;
      })
      v

module _ (trig : Trig) (sborbit : Bool) where
  orbit_if-Berthed : (t : Bool) (i : ℕ) (c : Client) → Berthed c → Berthed (orbit_if t trig i c).0
  unfolding orbit_if
  orbit_if-Berthed true i c v = orbit_planet-Berthed trig i c v
  orbit_if-Berthed false i c v = v

  find_orbit-Berthed : (c : Client) → Berthed c → Berthed (find_orbit trig sborbit c).0
  unfolding find_orbit
  find_orbit-Berthed c v = elim (Option-cases (find max_planets 0 (in_orbit_range c))) [
    | inl e ↦ rw (e, find_orbit) v
    | inr (i, e) ↦ rw (e, find_orbit) (orbit_if-Berthed (may_orbit sborbit c i) i c v)
  ]

  seek_base-Berthed : (t : Bool) (c : Client) → Berthed c → Berthed (seek_base trig sborbit t c).0
  unfolding seek_base
  seek_base-Berthed true c v = elim (Option-cases (dock_any trig max_player 0 c)) [
    | inl e ↦ rw (e, seek_base) (find_orbit-Berthed c v)
    | inr (c', e) ↦ rw (e, seek_base) (dock_any-Berthed trig max_player 0 c c' v e)
  ]
  seek_base-Berthed false c v = find_orbit-Berthed c v

  orbit_held-Berthed :
      (held : Option (Option ℕ)) (c : Client)
      → Berthed c
      → Berthed (orbit_held trig sborbit held c).0
  unfolding orbit_held
  orbit_held-Berthed none c v = v
  orbit_held-Berthed (some none) c v =
      elim (Bool-cases ((mine c).p_flags.dock || (mine c).p_flags.orbit)) [
        | inl e ↦ rw (e, orbit_free) v
        | inr e ↦ rw (e, orbit_free) (seek_base-Berthed _ c v)
      ]
  orbit_held-Berthed (some (some j)) c v = dock-Berthed trig j c v

  orbit_within-Berthed :
      (t : Bool) (c : Client) → Berthed c → Berthed (orbit_within trig sborbit t c).0
  unfolding orbit_within
  orbit_within-Berthed true c v = orbit_held-Berthed _ _ (held_by-Berthed max_player 0 none c v)
  orbit_within-Berthed false c v = v

  -- The orbit command, whatever it comes to, keeps every docked ship in the bay that it names.
  pub orbit-Berthed : (c : Client) → Berthed c → Berthed (orbit trig sborbit c).0
  unfolding orbit
  orbit-Berthed c v = elim (Bool-cases (is_off (mine c).p_inl_draft)) [
    | inl e ↦ rw (e, orbit) (orbit_within-Berthed _ c v)
    | inr e ↦ rw (e, orbit) v
  ]
