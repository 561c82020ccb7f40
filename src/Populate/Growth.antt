-- ===== src/Populate/Growth.antt =====
-- What `PopPlanet` of ntserv/daemon.c does to the armies of a planet.
use netrek_server.Base.{
  ℕ, ◌+◌, ◌-◌, ◌*◌, ◌/◌, ◌%◌, ◌<◌, ◌≤◌, Bool, true, false, ◌&&◌, ◌≡◌, refl, ap, subst, negsuc,
  if_both, ◌⊎◌, ℤ, pos, ◌+ℤ◌, ◌-ℤ◌, ◌≤ℤ◌, ◌<ℤ◌, ltb_ℤ, if◌then◌else◌, arith, +ℤ_parts, -ℤ_parts,
}
use netrek_server.Game.{Planet, Game}
use netrek_server.Populate.{
  plague_toll, plagued, one_more, small_chance, small_growth, extra_growth, agri_growth, grown,
  is_full, pop_armies, Draws, has_no_armies, pop_planet,
}

small_growth_bounds :
    (draw : ℕ) (l : Planet)
    → (l.pl_armies ≤ℤ (small_growth draw l).pl_armies)
      × ((small_growth draw l).pl_armies ≤ℤ l.pl_armies +ℤ pos 2)
unfolding small_growth small_chance one_more ◌+ℤ◌
small_growth_bounds draw l = ground arith

extra_growth_bounds :
    (draw size : ℕ) (l : Planet)
    → (l.pl_armies ≤ℤ (extra_growth draw size l).pl_armies)
      × ((extra_growth draw size l).pl_armies ≤ℤ l.pl_armies +ℤ pos 3)
unfolding extra_growth ◌+ℤ◌
extra_growth_bounds draw size l = ground arith

agri_growth_bounds :
    (draw : ℕ) (l : Planet)
    → (l.pl_armies ≤ℤ (agri_growth draw l).pl_armies)
      × ((agri_growth draw l).pl_armies ≤ℤ l.pl_armies +ℤ pos 1)
unfolding agri_growth one_more ◌+ℤ◌
agri_growth_bounds draw l = ground arith

pub grown_bounds :
    (d : Draws) (l : Planet)
    → (l.pl_armies ≤ℤ (grown d l).pl_armies) × ((grown d l).pl_armies ≤ℤ l.pl_armies +ℤ pos 6)
unfolding grown
grown_bounds d l =
    let small = small_growth d.small_draw l in
    let extra = extra_growth d.extra_draw d.extra_size small in
    omega (
      arith,
      +ℤ_parts,
      small_growth_bounds d.small_draw l,
      extra_growth_bounds d.extra_draw d.extra_size small,
      agri_growth_bounds d.agri_draw extra,
    )

-- (a - 2)(4498 - a) is not negative on the range.
parabola : (b c : ℕ) → b + c ≡ 4496 → (2 + b) * (2 + b) + b * c + 8996 ≡ 4500 * (2 + b)
parabola b c s = omega (arith, ap (λ (t : ℕ). b * t) s)

-- The toll of the plague, where it comes near all armies only at 4498 of them.
toll_bound : (draw b c : ℕ) → b + c ≡ 4496 → (draw % 4500 + (2 + b) * (2 + b)) / 4500 < 2 + b
toll_bound draw b c s = omega (arith, parabola b c s)

plague_toll-lt : (draw n : ℕ) → 5 < n → n ≤ 4498 → plague_toll draw (pos n) < n
unfolding plague_toll
plague_toll-lt draw n lo hi =
    let e : 2 + (n - 2) ≡ n = omega arith in
    subst (λ k. (draw % 4500 + k * k) / 4500 < k) e
      (toll_bound draw (n - 2) (4498 - n) (omega arith))

-- The plague and what it leaves.
plague_leaves :
    (draw : ℕ) (z : ℤ)
    → pos 5 <ℤ z
    → z ≤ℤ pos 4498
    → (pos 1 ≤ℤ (z -ℤ pos (plague_toll draw z))) × ((z -ℤ pos (plague_toll draw z)) ≤ℤ z)
plague_leaves draw (pos n) lo hi = omega (
  arith,
  plague_toll-lt draw n (omega arith) (omega arith),
  -ℤ_parts (pos n) (pos (plague_toll draw (pos n))),
)
plague_leaves draw (negsuc n) lo hi = absurd (omega arith)

plagued_bounds :
    (on : Bool) (draw : ℕ) (l : Planet)
    → pos 1 ≤ℤ l.pl_armies
    → l.pl_armies ≤ℤ pos 4498
    → (pos 1 ≤ℤ (plagued on draw l).pl_armies) × ((plagued on draw l).pl_armies ≤ℤ l.pl_armies)
unfolding plagued
plagued_bounds on draw l lo hi = go (on && ltb_ℤ (pos 5) l.pl_armies) refl
  where
    go :
        (t : Bool)
        → (on && ltb_ℤ (pos 5) l.pl_armies) ≡ t
        → (pos 1
            ≤ℤ (if t
                then record l { pl_armies = l.pl_armies -ℤ pos (plague_toll draw l.pl_armies) }
                else l).pl_armies)
          × ((if t
                then record l { pl_armies = l.pl_armies -ℤ pos (plague_toll draw l.pl_armies) }
                else l).pl_armies
              ≤ℤ l.pl_armies)
    go true e = plague_leaves draw l.pl_armies (ground arith) hi
    go false e = (lo, omega arith)

-- A populated planet with 1 to 4498 armies keeps at least one, for every outcome of the draws and
-- with the plague on or off, and gains at most six.
pub pop_armies_bounds :
    (d : Draws) (g : Game) (l : Planet)
    → pos 1 ≤ℤ l.pl_armies
    → l.pl_armies ≤ℤ pos 4498
    → (pos 1 ≤ℤ (pop_armies d g l).pl_armies)
      × ((pop_armies d g l).pl_armies ≤ℤ l.pl_armies +ℤ pos 6)
unfolding pop_armies
pop_armies_bounds d g l lo hi =
    let p = plagued g.config.planet_plague d.plague_draw l in
    let b = plagued_bounds g.config.planet_plague d.plague_draw l lo hi in
    let w = grown_bounds d p in
    let stay : (pos 1 ≤ℤ l.pl_armies) × (l.pl_armies ≤ℤ l.pl_armies +ℤ pos 6) =
      omega (arith, +ℤ_parts) in
    if_both (λ (r : Planet). (pos 1 ≤ℤ r.pl_armies) × (r.pl_armies ≤ℤ l.pl_armies +ℤ pos 6))
      (has_no_armies l) stay
      (if_both (λ (r : Planet). (pos 1 ≤ℤ r.pl_armies) × (r.pl_armies ≤ℤ l.pl_armies +ℤ pos 6))
        (is_full g l) stay (omega (arith, +ℤ_parts, b, w)))

-- `udplanets` touches one planet, the one its order points at, and of that planet only the armies
-- and the redraw flag.
pub pop_planet_frame :
    (d : Draws) (n : ℕ) (g : Game) (i : ℕ)
    → ((pop_planet d (pos n) g).planets i ≡ g.planets i)
      ⊎ ((i ≡ n) × ((pop_planet d (pos n) g).planets i ≡ pop_armies d g (g.planets n)))
unfolding pop_planet
pop_planet_frame d n g i = ground arith
