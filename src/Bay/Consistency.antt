-- ===== src/Bay/Consistency.antt =====
-- What the consistency check leaves in the bays.
use netrek_server.Base.{
  ℕ, ◌+◌, ◌≡◌, refl, Bool, ◌&&◌, none, some, Option, arith, put, loop_inv, ap, inl, inr,
  Option-cases, ◌==◌, ltb, if◌then◌else◌,
}
use netrek_server.Game.{Player, num_bays}
use netrek_server.Bay.{Players, check_bay, bay_consistency_check}

-- The ship is docked with the base, at this bay.
abbrev pub is_docked_at : Player → Player → ℕ → Bool
is_docked_at base ship i =
    ship.p_flags.dock && ship.p_dock_with == base.p_no && ship.p_dock_bay == i

-- What a bay should hold: the ship that it names, if that is docked there.
abbrev pub genuine : Players → ℕ → ℕ → Option ℕ
genuine ps b i = elim ((ps b).p_bays i) [
  | none ↦ none
  | some s ↦ if is_docked_at (ps b) (ps s) i then some s else none
]

-- The bays of the base after the first `n` rounds.
abbrev checked : Players → ℕ → ℕ → ℕ → Option ℕ
checked ps b n i = if ltb i n then genuine ps b i else (ps b).p_bays i

-- `ps` with the bays of `b` given anew.
abbrev with_bays : Players → ℕ → (ℕ → Option ℕ) → Players
with_bays ps b bays = put ps b (record (ps b) { p_bays = bays })

-- What the loop has done after `n` rounds: the bays below `n` are checked, the others are as they
-- were, and nothing but bays has changed.
record Checked (ps : Players) (b n : ℕ) (qs : Players) : Type 0 where
  bays : (j k : ℕ) → (qs j).p_bays k ≡ (if b == j then checked ps b n k else (ps j).p_bays k)
  rest : (j : ℕ) → record (qs j) { p_bays = (ps j).p_bays } ≡ ps j

module _ {ps : Players} {b : ℕ} (n : ℕ) {qs : Players} (h : Checked ps b n qs) where
  same_dock : (s : ℕ) → (qs s).p_flags.dock ≡ (ps s).p_flags.dock
  same_dock s = ap (λ (p : Player). p.p_flags.dock) (h.rest s)

  same_dock_with : (s : ℕ) → (qs s).p_dock_with ≡ (ps s).p_dock_with
  same_dock_with s = ap (λ (p : Player). p.p_dock_with) (h.rest s)

  same_dock_bay : (s : ℕ) → (qs s).p_dock_bay ≡ (ps s).p_dock_bay
  same_dock_bay s = ap (λ (p : Player). p.p_dock_bay) (h.rest s)

  same_no : (s : ℕ) → (qs s).p_no ≡ (ps s).p_no
  same_no s = ap (λ (p : Player). p.p_no) (h.rest s)

  check_bay-bays :
      (j k : ℕ)
      → (check_bay b n qs j).p_bays k ≡ (if b == j then checked ps b (n + 1) k else (ps j).p_bays k)
  unfolding check_bay
  check_bay-bays j k = elim (Option-cases ((ps b).p_bays n)) [
    | inl e ↦ ground (arith, h.bays j k, h.bays b n)
    | inr e ↦ ground (
      arith,
      h.bays j k,
      h.bays b n,
      e.1,
      same_dock e.0,
      same_dock_with e.0,
      same_dock_bay e.0,
      same_no b,
    )
  ]

  check_bay-rest : (j : ℕ) → record (check_bay b n qs j) { p_bays = (ps j).p_bays } ≡ ps j
  unfolding check_bay
  check_bay-rest j = ground (arith, h.rest j)

check_all : (b : ℕ) (ps : Players) → Checked ps b num_bays (bay_consistency_check b ps)
unfolding bay_consistency_check
check_all b ps =
    loop_inv (λ n qs. Checked ps b n qs) (check_bay b) num_bays 0 num_bays ps refl
      (λ n qs lo hi h. record { bays = check_bay-bays n h; rest = check_bay-rest n h })
      (record { bays = λ j k. ground arith; rest = λ j. refl })

-- The check leaves in each of the four bays of the base the ship that it named, if that ship is
-- docked with this base at this bay, and vacates it otherwise; the other players' bays, and
-- every other field of every player, are unchanged.
pub bay_consistency_check_lem :
    (b : ℕ) (ps : Players)
    → ((j k : ℕ)
        → (bay_consistency_check b ps j).p_bays k
          ≡ (if b == j && ltb k num_bays then genuine ps b k else (ps j).p_bays k))
      × ((j : ℕ) → record (bay_consistency_check b ps j) { p_bays = (ps j).p_bays } ≡ ps j)
bay_consistency_check_lem b ps =
    (λ j k. ground (arith, (check_all b ps).bays j k), (check_all b ps).rest)
