-- ===== src/Populate/Shuffle.antt =====
-- The order in which planets are populated: the exchanges of `RandomizePopOrder` of ntserv/daemon.c.
use netrek_server.Base.{
  ℕ, zero, suc, ◌+◌, ◌-◌, ◌%◌, ◌<◌, true, false, ◌≡◌, refl, ap, sym, subst, fun_ext, ◌∙◌, ◌⊎◌, inl,
  inr, ℤ, pos, pos_part, ltb_ℤ, ◌==◌, if◌then◌else◌, arith,
}
use netrek_server.Game.{max_planets}
use netrek_server.Populate.{Crop, swap, shuffle, pop_table, randomize_pop_order}

-- The first `max_planets` entries are the planets, each at one place: `place p` is that of planet p.
pub record IsOrder (order : ℕ → ℤ) : Type 0 where
  pub place : ℕ → ℕ
  pub place_of_planet : (i : ℕ) → i < max_planets → place (pos_part (order i)) ≡ i
  pub planet_in_range : (i : ℕ) → i < max_planets → pos_part (order i) < max_planets
  pub place_in_range : (p : ℕ) → p < max_planets → place p < max_planets
  pub planet_of_place : (p : ℕ) → p < max_planets → order (place p) ≡ pos p

-- j and i exchanged
abbrev exchange : ℕ → ℕ → ℕ → ℕ
exchange j i k = if k == i then j else if k == j then i else k

exchange_twice : (j i k : ℕ) → exchange j i (exchange j i k) ≡ k
exchange_twice j i k = ground arith

exchange_in_range : (n j i k : ℕ) → j < n → i < n → k < n → exchange j i k < n
exchange_in_range n j i k hj hi hk = ground arith

swap-eq-exchange : (order : ℕ → ℤ) (j i k : ℕ) → swap order j i k ≡ order (exchange j i k)
unfolding swap
swap-eq-exchange order j i k = ground arith

pub swap-IsOrder :
    (order : ℕ → ℤ) (j i : ℕ)
    → j < max_planets
    → i < max_planets
    → IsOrder order
    → IsOrder (swap order j i)
swap-IsOrder order j i hj hi o = record {
  place = λ p. exchange j i (o.place p);
  place_of_planet = λ k hk.
      rw
        (
          swap-eq-exchange order j i k,
          o.place_of_planet (exchange j i k) (exchange_in_range max_planets j i k hj hi hk),
        )
        (exchange_twice j i k);
  planet_in_range = λ k hk.
      rw (swap-eq-exchange order j i k)
        (o.planet_in_range (exchange j i k) (exchange_in_range max_planets j i k hj hi hk));
  place_in_range =
      λ p hp. exchange_in_range max_planets j i (o.place p) hj hi (o.place_in_range p hp);
  planet_of_place = λ p hp.
      swap-eq-exchange order j i (exchange j i (o.place p))
      ∙ ap order (exchange_twice j i (o.place p))
      ∙ o.planet_of_place p hp;
}

pub shuffle-IsOrder :
    (rnd : ℕ → ℕ) (n : ℕ) (order : ℕ → ℤ)
    → n < max_planets
    → IsOrder order
    → IsOrder (shuffle rnd n order)
unfolding shuffle
shuffle-IsOrder rnd zero order h o = o
shuffle-IsOrder rnd (suc n) order h o =
    shuffle-IsOrder rnd n (swap order (rnd (suc n) % (suc n + 1)) (suc n)) (omega arith)
      (swap-IsOrder order (rnd (suc n) % (suc n + 1)) (suc n) (grind arith) h o)

-- A table that is either an order already or was never set.
abbrev pub IsTable : (ℕ → ℤ) → Type 0
IsTable order = (ltb_ℤ (order 0) (pos 0) ≡ true) ⊎ IsOrder order

pop_table-unset :
    (order : ℕ → ℤ) (i : ℕ)
    → ltb_ℤ (order 0) (pos 0) ≡ true
    → i < max_planets
    → pop_table order i ≡ pos i
unfolding pop_table
pop_table-unset order i h lt = ground arith

-- An entry of an order is a planet's number, never negative.
pub IsOrder-entry :
    (order : ℕ → ℤ) (i : ℕ) → IsOrder order → i < max_planets → order i ≡ pos (pos_part (order i))
IsOrder-entry order i o h =
    ap order (sym (o.place_of_planet i h))
    ∙ o.planet_of_place (pos_part (order i)) (o.planet_in_range i h)

not_negative : (z : ℤ) (n : ℕ) → z ≡ pos n → ltb_ℤ z (pos 0) ≡ false
not_negative z n e = rw e (ground arith)

pop_table-set :
    (order : ℕ → ℤ) (i : ℕ) → ltb_ℤ (order 0) (pos 0) ≡ false → order i ≡ pop_table order i
unfolding pop_table
pop_table-set order i h = rw h refl

pub pop_table-IsOrder : (order : ℕ → ℤ) → IsTable order → IsOrder (pop_table order)
pop_table-IsOrder order (inl unset) = record {
  place = λ p. p;
  place_of_planet = λ i h. ap pos_part (pop_table-unset order i unset h);
  planet_in_range = λ i h. rw (pop_table-unset order i unset h) h;
  place_in_range = λ p h. h;
  planet_of_place = λ p h. pop_table-unset order p unset h;
}
pop_table-IsOrder order (inr o) =
    let set = not_negative (order 0) (pos_part (order 0)) (IsOrder-entry order 0 o (omega arith)) in
    subst IsOrder (fun_ext (λ i. pop_table-set order i set)) o

-- For every outcome of the draws, the new order of population is a permutation of the planets: each
-- of them stands at one place and only there. The table may be the old order or one never set.
pub randomize_pop_order-IsOrder :
    (rnd : ℕ → ℕ) (c : Crop)
    → IsTable c.pl_poporder
    → IsOrder (randomize_pop_order rnd c).pl_poporder
unfolding randomize_pop_order
randomize_pop_order-IsOrder rnd c t =
    shuffle-IsOrder rnd (max_planets - 1) (pop_table c.pl_poporder) (omega arith)
      (pop_table-IsOrder c.pl_poporder t)
