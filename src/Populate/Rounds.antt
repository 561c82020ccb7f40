-- ===== src/Populate/Rounds.antt =====
-- Forty calls of `udplanets` of ntserv/daemon.c populate every planet once.
use netrek_server.Base.{
  ℕ, zero, suc, ◌+◌, ◌-◌, ◌<◌, Bool, true, false, ◌≡◌, refl, ap, sym, subst, ◌∙◌, inl, inr, ◌==◌,
  ==_self, ne→==, count, count_on, count_congr, Bool-cases, ◌&&◌, leb_ℤ, ℤ, pos, pos_part, arith,
}
use netrek_server.Game.{max_planets}
use netrek_server.Populate.{Crop, randomize_pop_order, next_planet}
use netrek_server.Populate.Shuffle.{IsOrder, IsTable, randomize_pop_order-IsOrder}

-- The statics after `n + 1` calls of `udplanets`; `rnd k` are the draws of call k.
unfoldable pub after : (ℕ → ℕ → ℕ) → Crop → ℕ → Crop
after rnd c zero = next_planet (rnd 0) c
after rnd c (suc n) = next_planet (rnd (suc n)) (after rnd c n)

-- The planet that call number `n` populates.
unfoldable pub populated : (ℕ → ℕ → ℕ) → Crop → ℕ → ℤ
populated rnd c n = (after rnd c n).pl_poporder (after rnd c n).lastpop

-- A round walks the order that its first call drew, from the end.
after-round :
    (rnd : ℕ → ℕ → ℕ) (c : Crop) (n : ℕ)
    → c.lastpop ≡ 0
    → n < max_planets
    → ((after rnd c n).lastpop ≡ max_planets - 1 - n)
      × ((after rnd c n).pl_poporder ≡ (randomize_pop_order (rnd 0) c).pl_poporder)
unfolding after next_planet randomize_pop_order
after-round rnd c zero z h = rw z (refl, refl)
after-round rnd c (suc n) z h =
    let ih = after-round rnd c n z (omega arith) in ground (arith, ih.0, ih.1)

abbrev pub is_planet : ℕ → ℤ → Bool
is_planet p z = leb_ℤ z (pos p) && leb_ℤ (pos p) z

is_planet_self : (p : ℕ) (z : ℤ) → z ≡ pos p → is_planet p z ≡ true
is_planet_self p z e = rw e (ground arith)

is_planet→eq : (p : ℕ) (z : ℤ) → is_planet p z ≡ true → z ≡ pos p
is_planet→eq p z h = ground arith

pub count_false : (n start : ℕ) → count n start (λ i. false) ≡ 0
unfolding count
count_false zero start = refl
count_false (suc n) start = ground (arith, count_false n (start + 1))

-- A test that passes at one index of the range only.
count_one : (n k : ℕ) (f : ℕ → Bool) → k < n → ((i : ℕ) → i < n → f i ≡ (i == k)) → count n 0 f ≡ 1
count_one n k f h e =
    let one =
      count_on n 0 (λ i. false) (λ i. i == k) k (omega arith) (omega arith) refl (==_self k)
        (λ i ne. sym (ne→== i k ne)) in
    count_congr n 0 f (λ i. i == k) (λ i lo hi. e i (omega arith))
    ∙ one
    ∙ ap (λ (m : ℕ). m + 1) (count_false n 0)

abbrev round_order : (ℕ → ℕ → ℕ) → Crop → ℕ → ℤ
round_order rnd c = (randomize_pop_order (rnd 0) c).pl_poporder

populated-eq-order :
    (rnd : ℕ → ℕ → ℕ) (c : Crop) (n : ℕ)
    → c.lastpop ≡ 0
    → n < max_planets
    → populated rnd c n ≡ round_order rnd c (max_planets - 1 - n)
unfolding populated
populated-eq-order rnd c n z h =
    let r = after-round rnd c n z h in
    ap (λ (o : ℕ → ℤ). o (after rnd c n).lastpop) r.1 ∙ ap (round_order rnd c) r.0

-- In a permutation only the place of a planet holds it.
only_place :
    (order : ℕ → ℤ) (o : IsOrder order) (p n : ℕ)
    → p < max_planets
    → n < max_planets
    → is_planet p (order (max_planets - 1 - n)) ≡ (n == (max_planets - 1 - o.place p))
only_place order o p n hp hn = elim (Bool-cases (n == (max_planets - 1 - o.place p))) [
  | inl e ↦
      let at : max_planets - 1 - n ≡ o.place p = ground (arith, o.place_in_range p hp) in
      rw e (is_planet_self p (order (max_planets - 1 - n)) (ap order at ∙ o.planet_of_place p hp))
  | inr ne ↦ elim (Bool-cases (is_planet p (order (max_planets - 1 - n)))) [
    | inr f ↦ rw ne f
    | inl t ↦
        let same = is_planet→eq p (order (max_planets - 1 - n)) t in
        let at =
          sym (o.place_of_planet (max_planets - 1 - n) (omega arith))
          ∙ ap (λ z. o.place (pos_part z)) same in
        absurd (ground (arith, at))
  ]
]

-- From the start of a round on, with a table that is an order of the planets or was never set, and
-- for every outcome of the draws, exactly one of the next forty calls populates planet `p`, for each
-- of the forty planets.
pub populated_once :
    (rnd : ℕ → ℕ → ℕ) (c : Crop) (p : ℕ)
    → c.lastpop ≡ 0
    → IsTable c.pl_poporder
    → p < max_planets
    → count max_planets 0 (λ n. is_planet p (populated rnd c n)) ≡ 1
populated_once rnd c p z t h =
    let o = randomize_pop_order-IsOrder (rnd 0) c t in
    count_one max_planets (max_planets - 1 - o.place p) (λ n. is_planet p (populated rnd c n))
      (omega arith)
      (λ n hn.
        ap (is_planet p) (populated-eq-order rnd c n z hn)
        ∙ only_place (round_order rnd c) o p n h hn)

-- A round ends where the next one starts, with an order of the planets in the table.
pub round_end :
    (rnd : ℕ → ℕ → ℕ) (c : Crop)
    → c.lastpop ≡ 0
    → IsTable c.pl_poporder
    → ((after rnd c (max_planets - 1)).lastpop ≡ 0)
      × IsOrder (after rnd c (max_planets - 1)).pl_poporder
round_end rnd c z t =
    let r = after-round rnd c (max_planets - 1) z (omega arith) in
    (r.0, subst IsOrder (sym r.1) (randomize_pop_order-IsOrder (rnd 0) c t))
