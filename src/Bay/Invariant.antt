-- ===== src/Bay/Invariant.antt =====
-- The docking invariant: a ship's docking fields and the bays of the base agree, both ways, and
-- the operations of ntserv/bay.c keep it.
use netrek_server.Base.{
  ℕ, ◌<◌, ◌≡◌, refl, true, false, none, some, arith, put, loop_inv, ◌∙◌, inl, inr, Option-cases,
}
use netrek_server.Game.{num_bays}
use netrek_server.Bay.Moor.{
  bay_claim-p_no, bay_claim-dock, bay_claim-dock_with, bay_claim-dock_bay, bay_claim-bays,
}
use netrek_server.Bay.{Players, bay_claim, bay_release, release_bay, bay_release_all}

pub record IsMoored (ps : Players) : Type 0 where
  -- slot numbers are indices
  pub numbered : (s : ℕ) → (ps s).p_no ≡ s
  -- a docked ship stands in the bay that it names
  pub claimed :
      (s : ℕ)
      → (ps s).p_flags.dock ≡ true
      → ((ps s).p_dock_bay < num_bays) × ((ps (ps s).p_dock_with).p_bays (ps s).p_dock_bay ≡ some s)
  -- an occupied bay names a ship that is docked there
  pub occupied :
      (b i s : ℕ)
      → (ps b).p_bays i ≡ some s
      → ((ps s).p_flags.dock ≡ true) × ((ps s).p_dock_with ≡ b) × ((ps s).p_dock_bay ≡ i)

-- A ship that leaves its bay, or was not docked, leaves docked ships and bays in agreement.
pub bay_release-IsMoored : (me : ℕ) (ps : Players) → IsMoored ps → IsMoored (bay_release me ps)
unfolding bay_release
bay_release-IsMoored me ps v = record {
  numbered = λ s. ground (arith, v.numbered s, v.numbered me, v.numbered (ps me).p_dock_with);
  claimed = λ s d. ground (arith, v.claimed s, v.claimed me);
  occupied = λ b i s h. ground (arith, v.occupied b i s, v.claimed me);
}

-- A claim of a vacant bay of the four, by a ship that was not docked and has just had its docked bit
-- set, keeps docked ships and occupied bays in agreement: `ps` is the state before the bit.
pub bay_claim-IsMoored :
    (b me k : ℕ) (ps : Players)
    → IsMoored ps
    → k < num_bays
    → (ps me).p_flags.dock ≡ false
    → (ps b).p_bays k ≡ none
    → let docked =
        put ps me (record (ps me) { p_flags = record ((ps me).p_flags) { dock = true } }) in
      IsMoored (bay_claim b me k docked)
bay_claim-IsMoored b me k ps v lt out vacant =
    let qs : Players =
      put ps me (record (ps me) { p_flags = record ((ps me).p_flags) { dock = true } }) in
    record {
      numbered = λ s. bay_claim-p_no b me k qs s ∙ ground (arith, v.numbered s);
      claimed = λ s d.
          rw
            (
              bay_claim-dock_with b me k qs s,
              bay_claim-dock_bay b me k qs s,
              bay_claim-bays b me k qs,
            )
            (ground (
              arith,
              v.claimed s,
              v.numbered me,
              v.numbered b,
              rw (bay_claim-dock b me k qs s) at d,
            ));
      occupied = λ c i s h.
          rw
            (
              bay_claim-dock b me k qs s,
              bay_claim-dock_with b me k qs s,
              bay_claim-dock_bay b me k qs s,
            )
            (ground (
              arith,
              v.occupied c i s,
              v.numbered me,
              v.numbered b,
              rw (bay_claim-bays b me k qs c i) at h,
            ));
    }

pub release_bay-IsMoored : (b i : ℕ) (ps : Players) → IsMoored ps → IsMoored (release_bay b i ps)
unfolding release_bay
release_bay-IsMoored b i ps v = elim (Option-cases ((ps b).p_bays i)) [
  | inl e ↦ rw (e, release_bay) v
  | inr h ↦
      rw (h.1, release_bay)
        (record {
          numbered = λ s. ground (arith, v.numbered s);
          claimed = λ s d. ground (arith, v.claimed s, v.occupied b i h.0);
          occupied = λ c k s o. ground (arith, v.occupied c k s, v.occupied b i h.0);
        })
]

-- When a base lets all its ships go, docked ships and occupied bays stay in agreement.
pub bay_release_all-IsMoored :
    (b : ℕ) (ps : Players) → IsMoored ps → IsMoored (bay_release_all b ps)
unfolding bay_release_all
bay_release_all-IsMoored b ps v =
    loop_inv (λ i qs. IsMoored qs) (release_bay b) num_bays 0 num_bays ps refl
      (λ i qs lo hi h. release_bay-IsMoored b i qs h) v
