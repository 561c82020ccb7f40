-- ===== src/Bay/Moor.antt =====
-- A ship that docks: what each field of each player is afterwards.
use netrek_server.Base.{ℕ, ◌≡◌, some, arith, ◌==◌, if◌then◌else◌}
use netrek_server.Bay.{Players, bay_claim}

module _ (b me k : ℕ) (ps : Players) where
  pub bay_claim-p_no : (j : ℕ) → (bay_claim b me k ps j).p_no ≡ (ps j).p_no
  unfolding bay_claim
  bay_claim-p_no j = ground arith

  pub bay_claim-dock : (j : ℕ) → (bay_claim b me k ps j).p_flags.dock ≡ (ps j).p_flags.dock
  unfolding bay_claim
  bay_claim-dock j = ground arith

  pub bay_claim-dock_with :
      (j : ℕ)
      → (bay_claim b me k ps j).p_dock_with ≡ (if me == j then (ps b).p_no else (ps j).p_dock_with)
  unfolding bay_claim
  bay_claim-dock_with j = ground arith

  pub bay_claim-dock_bay :
      (j : ℕ) → (bay_claim b me k ps j).p_dock_bay ≡ (if me == j then k else (ps j).p_dock_bay)
  unfolding bay_claim
  bay_claim-dock_bay j = ground arith

  pub bay_claim-bays :
      (j i : ℕ)
      → (bay_claim b me k ps j).p_bays i ≡ (
          if b == j
          then (if k == i then some (ps me).p_no else (ps j).p_bays i)
          else (ps j).p_bays i)
  unfolding bay_claim
  bay_claim-bays j i = ground arith
