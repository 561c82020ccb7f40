-- ===== src/Bay/Closest.antt =====
-- Which bay the search for the closest one returns.
use netrek_server.Base.{
  refl, ℕ, zero, suc, ◌<◌, ◌≡◌, Bool, true, false, none, some, Option, ℤ, arith, ◌≢◌,
}
use netrek_server.Game.{num_bays}
use netrek_server.Bay.{Players, closest_of, bay_closest}

closest_of-some :
    (left above : Bool) (bays : ℕ → Option ℕ) (k : ℕ)
    → closest_of left above bays ≡ some k
    → (k < num_bays) × (bays k ≡ none)
unfolding closest_of
closest_of-some true true bays k h = ground arith
closest_of-some true false bays k h = ground arith
closest_of-some false true bays k h = ground arith
closest_of-some false false bays k h = ground arith

closest_of-none :
    (left above : Bool) (bays : ℕ → Option ℕ)
    → closest_of left above bays ≡ none
    → (bays 0 ≢ none) × (bays 1 ≢ none) × (bays 2 ≢ none) × (bays 3 ≢ none)
unfolding closest_of
closest_of-none true true bays h = ground arith
closest_of-none true false bays h = ground arith
closest_of-none false true bays h = ground arith
closest_of-none false false bays h = ground arith

four :
    (bays : ℕ → Option ℕ) (k : ℕ)
    → k < num_bays
    → (bays 0 ≢ none) × (bays 1 ≢ none) × (bays 2 ≢ none) × (bays 3 ≢ none)
    → bays k ≢ none
four bays zero lt h = h.0
four bays (suc zero) lt h = h.1
four bays (suc (suc zero)) lt h = h.2
four bays (suc (suc (suc zero))) lt h = h.3
four bays (suc (suc (suc (suc k)))) lt h = absurd (omega arith)

pub bay_closest-cases :
    (b : ℕ) (dx dy : ℤ) (ps : Players) (k : ℕ)
    → let (found, qs) = bay_closest b dx dy ps in
      (found ≡ some k → (k < num_bays) × ((qs b).p_bays k ≡ none))
      × (found ≡ none → k < num_bays → (qs b).p_bays k ≢ none)
unfolding bay_closest
bay_closest-cases b dx dy ps k =
    let bays = ((bay_closest b dx dy ps).1 b).p_bays in
    (closest_of-some _ _ bays k, λ h lt. four bays k lt (closest_of-none _ _ bays h))

-- What the answer says of the bays of the base, as they are after the check.
abbrev pub IsClosest : (ℕ → Option ℕ) → Option ℕ → Type 0
IsClosest bays none = (k : ℕ) → k < num_bays → bays k ≢ none
IsClosest bays (some k) = (k < num_bays) × (bays k ≡ none)

-- Whatever the ship's position: a bay that is found is one of the four and is vacant after the
-- consistency check, and the search fails only if after that check all four are taken.
pub bay_closest_lem :
    (b : ℕ) (dx dy : ℤ) (ps : Players)
    → IsClosest ((bay_closest b dx dy ps).1 b).p_bays (bay_closest b dx dy ps).0
bay_closest_lem b dx dy ps = go (bay_closest b dx dy ps).0 (λ k. bay_closest-cases b dx dy ps k)
  where
    bays : ℕ → Option ℕ
    bays = ((bay_closest b dx dy ps).1 b).p_bays

    go :
        (o : Option ℕ)
        → ((k : ℕ)
            → (o ≡ some k → (k < num_bays) × (bays k ≡ none))
              × (o ≡ none → k < num_bays → bays k ≢ none))
        → IsClosest bays o
    go none h = λ k lt. (h k).1 refl lt
    go (some k) h = (h k).0 refl
