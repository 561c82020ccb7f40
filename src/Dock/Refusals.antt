-- ===== src/Dock/Refusals.antt =====
-- What each result of `dock` means, for the ship and for the base.
use netrek_server.Base.{
  ℕ, ◌<◌, ◌≡◌, refl, true, false, some, ℤ, pos, ◌-ℤ◌, arith, inl, inr, Option-cases, ◌∙◌, ap,
}
use netrek_server.Game.{Player, Flags, Client, mine, is_starbase, num_bays, on_players}
use netrek_server.Bay.{Players, bay_closest}
use netrek_server.Bay.Consistency.{bay_consistency_check_lem}
use netrek_server.Bay.Closest.{bay_closest-cases}
use netrek_server.Dock.{
  Trig, success, failure, Refusal, dock_dist, within, friendly, end_twarp, de_lock, take_bay,
  moor_at, Verdict, far, clear, refuse, dock_verdict, dock_by, dock,
}

-- No lock and no beam of the ship is on.
pub record IsUnlocked (f : Flags) : Type 0 where
  pub no_plock : f.plock ≡ false
  pub no_pllock : f.pllock ≡ false
  pub no_tract : f.tract ≡ false
  pub no_press : f.press ≡ false

-- A ship at rest in a bay of the base.
pub record IsMooredAt (b : ℕ) (c : Client) (k : ℕ) : Type 0 where
  pub docked : (mine c).p_flags.dock ≡ true
  pub in_bay : (mine c).p_dock_bay ≡ k
  pub at_base : (mine c).p_dock_with ≡ (c.game.players b).p_no
  pub stopped : (mine c).p_speed ≡ 0
  pub no_order : (mine c).p_desspeed ≡ pos 0
  pub unlocked : IsUnlocked (mine c).p_flags
  pub named : (c.game.players b).p_bays k ≡ some (mine c).p_no

take_bay-IsMooredAt : (trig : Trig) (b k : ℕ) (c : Client) → IsMooredAt b (take_bay trig b k c) k
unfolding take_bay end_twarp netrek_server.Bay.bay_claim
take_bay-IsMooredAt trig b k c = record {
  docked = ground arith;
  in_bay = ground arith;
  at_base = ground arith;
  stopped = ground arith;
  no_order = ground arith;
  unlocked = record {
    no_plock = ground arith;
    no_pllock = ground arith;
    no_tract = ground arith;
    no_press = ground arith;
  };
  named = ground arith;
}

-- What the tests before the search for a bay have found out when they pass.
pub record IsWelcome (b : ℕ) (c : Client) : Type 0 where
  pub near :
      within dock_dist
        ((c.game.players b).p_x -ℤ (mine c).p_x)
        ((c.game.players b).p_y -ℤ (mine c).p_y)
      ≡ true
  pub is_friend : friendly (mine c) (c.game.players b) ≡ true
  pub allowed : (mine c).p_candock ≡ true
  pub open_base : (c.game.players b).p_flags.dockok ≡ true
  pub no_base_pair : c.game.config.chaosmode ≡ false → is_starbase (mine c).p_ship.s_type ≡ false

IsWelcome-of_clear : (b : ℕ) (c : Client) → dock_verdict b c ≡ clear → IsWelcome b c
unfolding dock_verdict
IsWelcome-of_clear b c h = record {
  near = ground arith;
  is_friend = ground arith;
  allowed = ground arith;
  open_base = ground arith;
  no_base_pair = ground arith;
}

module _ (trig : Trig) (b : ℕ) (c : Client) where
  moor_at-success :
      (moor_at trig b c).0 ≡ success
      → (k : ℕ) × (k < num_bays) × IsMooredAt b (moor_at trig b c).1 k
  unfolding moor_at
  moor_at-success h = elim (Option-cases (bay_closest b dx dy c.game.players).0) [
    | inl e ↦ cc (rw (e, moor_at) at h)
    | inr (k, e) ↦ (
      k,
      ((bay_closest-cases b dx dy c.game.players k).0 e).0,
      rw (e, moor_at) (take_bay-IsMooredAt trig b k _),
    )
  ]
    where
      dx : ℤ
      dx = (c.game.players b).p_x -ℤ (mine c).p_x

      dy : ℤ
      dy = (c.game.players b).p_y -ℤ (mine c).p_y

  -- Docking succeeds only at a base that is in range, friendly and open to a ship that may dock,
  -- and then the ship lies at rest in one of its four bays, every lock and beam off, and that bay
  -- names the ship.
  pub dock-success :
      (dock trig b c).0 ≡ success
      → IsWelcome b c × (k : ℕ) × (k < num_bays) × IsMooredAt b (dock trig b c).1 k
  unfolding dock
  dock-success h = go (dock_verdict b c) refl h
    where
      go :
          (r : Verdict)
          → dock_verdict b c ≡ r
          → (dock_by trig b r c).0 ≡ success
          → IsWelcome b c × (k : ℕ) × (k < num_bays) × IsMooredAt b (dock_by trig b r c).1 k
      go far e h = cc
      go (refuse r) e h = cc
      go clear e h = let (k, lt, m) = moor_at-success h in (IsWelcome-of_clear b c e, k, lt, m)

de_lock-IsUnlocked :
    (c : Client)
    → IsUnlocked (mine (de_lock c)).p_flags
      × ((mine (de_lock c)).p_flags.dock ≡ (mine c).p_flags.dock)
unfolding de_lock end_twarp
de_lock-IsUnlocked c = (
  record {
    no_plock = ground arith;
    no_pllock = ground arith;
    no_tract = ground arith;
    no_press = ground arith;
  },
  ground arith,
)

bay_closest-dock :
    (b : ℕ) (dx dy : ℤ) (ps : Players) (s : ℕ)
    → ((bay_closest b dx dy ps).1 s).p_flags.dock ≡ (ps s).p_flags.dock
unfolding bay_closest
bay_closest-dock b dx dy ps s =
    ap (λ (p : Player). p.p_flags.dock) ((bay_consistency_check_lem b ps).1 s)

module _ (trig : Trig) (b : ℕ) (c : Client) (r : Refusal) where
  abbrev LetGo : Client → Type 0
  LetGo d = IsUnlocked (mine d).p_flags × ((mine d).p_flags.dock ≡ (mine c).p_flags.dock)

  moor_at-failure : (moor_at trig b c).0 ≡ failure r → LetGo (moor_at trig b c).1
  unfolding moor_at
  moor_at-failure h = elim (Option-cases (bay_closest b dx dy c.game.players).0) [
    | inl e ↦
        rw (e, moor_at)
          (let (u, d) = de_lock-IsUnlocked checked in
            (u, d ∙ bay_closest-dock b dx dy c.game.players c.me))
    | inr (k, e) ↦ cc (rw (e, moor_at) at h)
  ]
    where
      dx : ℤ
      dx = (c.game.players b).p_x -ℤ (mine c).p_x

      dy : ℤ
      dy = (c.game.players b).p_y -ℤ (mine c).p_y

      checked : Client
      checked = on_players (λ _. (bay_closest b dx dy c.game.players).1) c

  -- A refused dock, for whatever reason, drops every lock and beam of the ship and leaves its
  -- docked bit as it was.
  pub dock-failure :
      (dock trig b c).0 ≡ failure r
      → IsUnlocked (mine (dock trig b c).1).p_flags
        × ((mine (dock trig b c).1).p_flags.dock ≡ (mine c).p_flags.dock)
  unfolding dock
  dock-failure h = go (dock_verdict b c) h
    where
      go : (v : Verdict) → (dock_by trig b v c).0 ≡ failure r → LetGo (dock_by trig b v c).1
      go far h = cc
      go (refuse q) h = de_lock-IsUnlocked c
      go clear h = moor_at-failure h
