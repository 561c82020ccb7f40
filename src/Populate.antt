-- ===== src/Populate.antt =====
-- How the daemon grows the armies of planets: `udplanets`, `PopPlanet` and `RandomizePopOrder` of
-- ntserv/daemon.c. What `random()` returns is an argument.
pub mod Shuffle
pub mod Rounds
pub mod Growth
use netrek_server.Base.{
  ℕ, zero, suc, ◌+◌, ◌-◌, ◌*◌, ◌/◌, ◌%◌, Bool, true, false, not, ◌&&◌, ◌||◌, ℤ, pos, negsuc,
  pos_part, ◌+ℤ◌, ◌-ℤ◌, ltb_ℤ, leb_ℤ, ltb, ◌==◌, if◌then◌else◌, put,
}
use netrek_server.Game.{Planet, Game, set_planet, max_planets}

-- The statics of the file: `pl_poporder` and `lastpop`. A decrement of `lastpop` below 0 is followed
-- at once by a new order, so that it is a number between two calls.
pub record Crop : Type 0 where
  pub pl_poporder : ℕ → ℤ
  pub lastpop : ℕ

-- tmp2 = order[tmp]; order[tmp] = order[i]; order[i] = tmp2;
unfoldable pub swap : (ℕ → ℤ) → ℕ → ℕ → ℕ → ℤ
swap order tmp i = put (put order tmp (order i)) i (order tmp)

-- for (i = n; i; i--): `rnd i` is the draw of round i
unfoldable pub shuffle : (ℕ → ℕ) → ℕ → (ℕ → ℤ) → ℕ → ℤ
shuffle rnd zero order = order
shuffle rnd (suc i) order = shuffle rnd i (swap order (rnd (suc i) % (suc i + 1)) (suc i))

-- The order before the exchanges: a table that was never set becomes 0, 1, 2, ...
unfoldable pub pop_table : (ℕ → ℤ) → ℕ → ℤ
pop_table order i = if ltb_ℤ (order 0) (pos 0) && ltb i max_planets then pos i else order i

unfoldable pub randomize_pop_order : (ℕ → ℕ) → Crop → Crop
randomize_pop_order rnd c = record {
  pl_poporder = shuffle rnd (max_planets - 1) (pop_table c.pl_poporder);
  lastpop = max_planets - 1;
}

-- The first half of `udplanets`: the statics after it, whose `lastpop` is the planet's place.
unfoldable pub next_planet : (ℕ → ℕ) → Crop → Crop
next_planet rnd c =
    if ltb c.lastpop 1 then randomize_pop_order rnd c else record c { lastpop = c.lastpop - 1 }

-- What the calls of `random()` in `PopPlanet` return, in the order of the text.
pub record Draws : Type 0 where
  pub plague_draw : ℕ
  pub small_draw : ℕ
  pub extra_draw : ℕ
  pub extra_size : ℕ
  pub agri_draw : ℕ

-- The plague on more than five armies.
unfoldable pub plague_toll : ℕ → ℤ → ℕ
plague_toll draw armies = (draw % 4500 + pos_part armies * pos_part armies) / 4500

unfoldable pub plagued : Bool → ℕ → Planet → Planet
plagued planet_plague draw l =
    if planet_plague && ltb_ℤ (pos 5) l.pl_armies
    then record l { pl_armies = l.pl_armies -ℤ pos (plague_toll draw l.pl_armies) }
    else l

-- `if (++l->pl_armies > 4) l->pl_flags |= PLREDRAW`
unfoldable pub one_more : Planet → Planet
one_more l = record l {
  pl_armies = l.pl_armies +ℤ pos 1;
  pl_redraw = l.pl_redraw || ltb_ℤ (pos 4) (l.pl_armies +ℤ pos 1);
}

-- Planets with fewer than four armies.
unfoldable pub small_chance : ℕ → Planet → Planet
small_chance draw l = if draw % 20 == 0 then record l { pl_armies = l.pl_armies +ℤ pos 1 } else l

unfoldable pub small_growth : ℕ → Planet → Planet
unfolding small_chance one_more
small_growth draw l =
    if ltb_ℤ l.pl_armies (pos 4)
    then (if l.pl_agri then one_more (small_chance draw l) else small_chance draw l)
    else l

-- The chance for extra armies.
unfoldable pub extra_growth : ℕ → ℕ → Planet → Planet
extra_growth draw size l =
    if draw % 10 == 0
    then record l {
      pl_armies = l.pl_armies +ℤ pos (size % 3 + 1);
      pl_redraw = l.pl_redraw || ltb_ℤ l.pl_armies (pos 5);
    }
    else l

unfoldable pub agri_growth : ℕ → Planet → Planet
unfolding one_more
agri_growth draw l = if l.pl_agri && (draw % 5 == 0) then one_more l else l

unfoldable pub grown : Draws → Planet → Planet
unfolding small_growth extra_growth agri_growth
grown d l =
    agri_growth d.agri_draw (extra_growth d.extra_draw d.extra_size (small_growth d.small_draw l))

-- The two returns of `PopPlanet` that leave the planet alone.
unfoldable pub is_full : Game → Planet → Bool
is_full g l = not (ltb_ℤ l.pl_armies (pos g.config.max_pop)) && not g.tourn

abbrev pub has_no_armies : Planet → Bool
has_no_armies l = leb_ℤ l.pl_armies (pos 0) && leb_ℤ (pos 0) l.pl_armies

unfoldable pub pop_armies : Draws → Game → Planet → Planet
unfolding is_full plagued grown
pop_armies d g l =
    if has_no_armies l
    then l
    else if is_full g l
    then l
    else grown d (plagued g.config.planet_plague d.plague_draw l)

unfoldable pub pop_planet : Draws → ℤ → Game → Game
unfolding pop_armies
pop_planet d plnum g =
    if ltb_ℤ plnum (pos 0) || leb_ℤ (pos max_planets) plnum
    then g
    else set_planet (pos_part plnum) (pop_armies d g (g.planets (pos_part plnum))) g

unfoldable pub udplanets : (ℕ → ℕ) → Draws → Crop → Game → Crop × Game
unfolding next_planet pop_planet
udplanets rnd d c g = let c' = next_planet rnd c in (c', pop_planet d (c'.pl_poporder c'.lastpop) g)
