-- ===== src/Bay/Berth.antt =====
-- The half of the docking invariant that survives a ship whose docked bit is cleared behind the
-- base's back, as `orbit` does: every docked ship stands in the bay that it names.
use netrek_server.Base.{
  ℕ, ℤ, ◌<◌, ◌≡◌, ◌≢◌, ◌∙◌, ap, refl, true, false, none, some, arith, put, loop_inv, inl, inr,
  Option-cases,
}
use netrek_server.Game.{Player, Flags, num_bays}
use netrek_server.Bay.Moor.{
  bay_claim-p_no, bay_claim-dock, bay_claim-dock_with, bay_claim-dock_bay, bay_claim-bays,
}
use netrek_server.Bay.Consistency.{bay_consistency_check_lem}
use netrek_server.Bay.{
  Players, bay_consistency_check, bay_release, bay_release_all, release_bay, bay_claim, bay_closest,
}

pub record IsBerthed (ps : Players) : Type 0 where
  -- slot numbers are indices
  pub numbered : (s : ℕ) → (ps s).p_no ≡ s
  -- a docked ship stands in the bay that it names
  pub claimed :
      (s : ℕ)
      → (ps s).p_flags.dock ≡ true
      → ((ps s).p_dock_bay < num_bays) × ((ps (ps s).p_dock_with).p_bays (ps s).p_dock_bay ≡ some s)

-- Two structures that agree on what docking is about.
pub record SameMooring (p q : Player) : Type 0 where
  pub same_no : p.p_no ≡ q.p_no
  pub same_dock : p.p_flags.dock ≡ q.p_flags.dock
  pub same_with : p.p_dock_with ≡ q.p_dock_with
  pub same_bay : p.p_dock_bay ≡ q.p_dock_bay
  pub same_bays : (i : ℕ) → p.p_bays i ≡ q.p_bays i

pub put-IsBerthed :
    (me : ℕ) (p : Player) (ps : Players)
    → SameMooring p (ps me)
    → IsBerthed ps
    → IsBerthed (put ps me p)
put-IsBerthed me p ps e v = record {
  numbered = λ s. ground (arith, v.numbered s);
  claimed = λ s d. ground (arith, v.claimed s, e.same_bays (ps s).p_dock_bay);
}

-- No two ships are docked at one bay of one base.
pub berths_differ :
    (ps : Players) (s t : ℕ)
    → IsBerthed ps
    → (ps s).p_flags.dock ≡ true
    → (ps t).p_flags.dock ≡ true
    → (ps s).p_dock_with ≡ (ps t).p_dock_with
    → (ps s).p_dock_bay ≡ (ps t).p_dock_bay
    → s ≡ t
berths_differ ps s t v ds dt w k = ground (arith, v.claimed s ds, v.claimed t dt)

pub bay_release-IsBerthed : (me : ℕ) (ps : Players) → IsBerthed ps → IsBerthed (bay_release me ps)
unfolding bay_release
bay_release-IsBerthed me ps v = record {
  numbered = λ s. ground (arith, v.numbered s);
  claimed = λ s d. ground (arith, v.claimed s, v.claimed me);
}

-- Clearing the docked bit alone, with the bay left as it was.
pub undock-IsBerthed :
    (me : ℕ) (ps : Players) (f : Flags)
    → f.dock ≡ false
    → IsBerthed ps
    → IsBerthed (put ps me (record (ps me) { p_flags = f }))
undock-IsBerthed me ps f e v = record {
  numbered = λ s. ground (arith, v.numbered s);
  claimed = λ s d. ground (arith, v.claimed s);
}

-- A claim of a vacant bay, by a ship whose earlier berth, if any, no longer counts.
pub bay_claim-IsBerthed :
    (b me k : ℕ) (ps : Players)
    → ((s : ℕ) → (ps s).p_no ≡ s)
    → ((s : ℕ)
        → me ≢ s
        → (ps s).p_flags.dock ≡ true
        → ((ps s).p_dock_bay < num_bays)
          × ((ps (ps s).p_dock_with).p_bays (ps s).p_dock_bay ≡ some s))
    → k < num_bays
    → (ps b).p_bays k ≡ none
    → IsBerthed (bay_claim b me k ps)
bay_claim-IsBerthed b me k ps num others lt vacant = record {
  numbered = λ s. bay_claim-p_no b me k ps s ∙ num s;
  claimed = λ s d.
      rw (bay_claim-dock_with b me k ps s, bay_claim-dock_bay b me k ps s, bay_claim-bays b me k ps)
        (ground (arith, others s, num me, num b, num s, rw (bay_claim-dock b me k ps s) at d));
}

release_bay-IsBerthed : (b i : ℕ) (ps : Players) → IsBerthed ps → IsBerthed (release_bay b i ps)
unfolding release_bay
release_bay-IsBerthed b i ps v = elim (Option-cases ((ps b).p_bays i)) [
  | inl e ↦ rw (e, release_bay) v
  | inr h ↦
      rw (h.1, release_bay)
        (record {
          numbered = λ s. ground (arith, v.numbered s);
          claimed = λ s d. ground (arith, v.claimed s);
        })
]

pub bay_release_all-IsBerthed :
    (b : ℕ) (ps : Players) → IsBerthed ps → IsBerthed (bay_release_all b ps)
unfolding bay_release_all
bay_release_all-IsBerthed b ps v =
    loop_inv (λ i qs. IsBerthed qs) (release_bay b) num_bays 0 num_bays ps refl
      (λ i qs lo hi h. release_bay-IsBerthed b i qs h) v

-- The consistency check vacates no bay that a docked ship stands in.
pub bay_consistency_check-IsBerthed :
    (b : ℕ) (ps : Players) → IsBerthed ps → IsBerthed (bay_consistency_check b ps)
bay_consistency_check-IsBerthed b ps v = record {
  numbered = λ s. ap (λ (p : Player). p.p_no) (rest s) ∙ v.numbered s;
  claimed = λ s d.
      rw
        (
          ap (λ (p : Player). p.p_dock_with) (rest s),
          ap (λ (p : Player). p.p_dock_bay) (rest s),
          (bay_consistency_check_lem b ps).0,
        )
        (ground (arith, v.claimed s, v.numbered b, ap (λ (p : Player). p.p_flags.dock) (rest s)));
}
  where
    rest : (j : ℕ) → record (bay_consistency_check b ps j) { p_bays = (ps j).p_bays } ≡ ps j
    rest = (bay_consistency_check_lem b ps).1

pub bay_closest-IsBerthed :
    (b : ℕ) (dx dy : ℤ) (ps : Players) → IsBerthed ps → IsBerthed (bay_closest b dx dy ps).1
unfolding bay_closest
bay_closest-IsBerthed b dx dy ps v = bay_consistency_check-IsBerthed b ps v
