-- ===== src/Bay.antt =====
-- Docking bays of a starbase: ntserv/bay.c. A `struct player *` is an index into the array of
-- players, and `p_bays[i] == VACANT` is `none`.
pub mod Consistency
pub mod Moor
pub mod Invariant
pub mod Berth
pub mod Closest
use netrek_server.Base.{
  ℕ, ◌≡◌, Bool, true, false, not, Option, none, some, ℤ, pos, ltb_ℤ, put, loop, ◌==◌, if◌then◌else◌,
}
use netrek_server.Game.{Player, Flags, num_bays}

abbrev pub Players : Type 0
Players = ℕ → Player

-- `base->p_bays[i] = v`
abbrev pub set_bay : ℕ → ℕ → Option ℕ → Players → Players
set_bay b i v ps = put ps b (record (ps b) { p_bays = put (ps b).p_bays i v })

-- `p->p_flags &= ~PFDOCK`
abbrev pub undock : ℕ → Players → Players
undock s ps = put ps s (record (ps s) { p_flags = record ((ps s).p_flags) { dock = false } })

-- The body of the loop of `bay_consistency_check`, its three tests in order.
unfoldable pub check_bay : ℕ → ℕ → Players → Players
check_bay b i ps = elim ((ps b).p_bays i) [
  | none ↦ ps
  | some s ↦
      if not (ps s).p_flags.dock
      then set_bay b i none ps
      else if not ((ps s).p_dock_with == (ps b).p_no)
      then set_bay b i none ps
      else if not ((ps s).p_dock_bay == i)
      then set_bay b i none ps
      else ps
]

unfoldable pub bay_consistency_check : ℕ → Players → Players
unfolding check_bay loop
bay_consistency_check b ps = loop num_bays 0 (check_bay b) ps

unfoldable pub bay_claim : ℕ → ℕ → ℕ → Players → Players
bay_claim b me bay_no ps =
    let docked = put ps me (record (ps me) { p_dock_with = (ps b).p_no; p_dock_bay = bay_no }) in
    set_bay b bay_no (some (ps me).p_no) docked

-- A bay that is vacant already is left so, which is what writing VACANT does too.
unfoldable pub bay_release : ℕ → Players → Players
bay_release me ps =
    if (ps me).p_flags.dock
    then undock me (set_bay (ps me).p_dock_with (ps me).p_dock_bay none ps)
    else ps

-- The body of the loop of `bay_release_all`.
unfoldable pub release_bay : ℕ → ℕ → Players → Players
release_bay b i ps = elim ((ps b).p_bays i) [ none ↦ ps | some s ↦ undock s (set_bay b i none ps) ]

unfoldable pub bay_release_all : ℕ → Players → Players
unfolding release_bay loop
bay_release_all b ps = loop num_bays 0 (release_bay b) ps

unfoldable pub bay_init : ℕ → Players → Players
unfolding loop
bay_init me ps = loop num_bays 0 (λ i s. set_bay me i none s) ps

abbrev vacant : Option ℕ → Bool
vacant none = true
vacant (some _) = false

-- The first vacant bay of four, in the order given.
unfoldable pub first_vacant : (ℕ → Option ℕ) → ℕ → ℕ → ℕ → ℕ → Option ℕ
first_vacant bays a b c d =
    if vacant (bays a)
    then some a
    else if vacant (bays b)
    then some b
    else if vacant (bays c)
    then some c
    else if vacant (bays d)
    then some d
    else none

-- The order of the search, by whether the ship is left of the base and whether it is above.
unfoldable pub closest_of : Bool → Bool → (ℕ → Option ℕ) → Option ℕ
unfolding first_vacant
closest_of true true bays = first_vacant bays 3 2 0 1
closest_of true false bays = first_vacant bays 2 3 1 0
closest_of false true bays = first_vacant bays 0 1 3 2
closest_of false false bays = first_vacant bays 1 2 0 3

-- The result is the bay, `none` for -1, beside the state that the consistency check leaves.
unfoldable pub bay_closest : ℕ → ℤ → ℤ → Players → Option ℕ × Players
bay_closest b dx dy ps =
    let qs = bay_consistency_check b ps in
    (closest_of (ltb_ℤ (pos 0) dx) (ltb_ℤ (pos 0) dy) (qs b).p_bays, qs)
