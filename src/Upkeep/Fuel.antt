-- ===== src/Upkeep/Fuel.antt =====
-- Fuel.
use netrek_server.Base.{
  ℕ, ◌*◌, ◌≡◌, ◌≢◌, refl, Bool, true, false, ◌&&◌, arith, if◌then◌else◌, ℤ, pos, ◌+ℤ◌, ◌-ℤ◌, ◌≤ℤ◌,
  +ℤ_parts, -ℤ_parts, eq_of_parts, put, put_self, put_ne, ltb_ℤ, ltb→lt, ltb→ge, ap, ◌∙◌, ◌==◌,
  if_both, if_cases,
}
use netrek_server.Game.{Player, Game, set_player}
use netrek_server.Upkeep.{fuel_from_base, top_off, stop_dry, make_fuel, at_fuel_planet, sb_fuel_min}

stop_dry-fuel : (p : Player) → (stop_dry p).p_fuel ≡ p.p_fuel
unfolding stop_dry
stop_dry-fuel p = go (ltb_ℤ p.p_fuel (pos 0))
  where
    go :
        (t : Bool)
        → let q : Player =
            if t
            then record p { p_desspeed = pos 0; p_flags = record (p.p_flags) { cloak = false } }
            else p in
          q.p_fuel ≡ p.p_fuel
    go true = refl
    go false = refl

top_off-cap : (p : Player) → (top_off p).p_fuel ≤ℤ pos p.p_ship.s_maxfuel
unfolding top_off
top_off-cap p = go (ltb_ℤ (pos p.p_ship.s_maxfuel) p.p_fuel) refl
  where
    go :
        (t : Bool)
        → ltb_ℤ (pos p.p_ship.s_maxfuel) p.p_fuel ≡ t
        → let q : Player = if t then record p { p_fuel = pos p.p_ship.s_maxfuel } else p in
          q.p_fuel ≤ℤ pos p.p_ship.s_maxfuel
    go true e = omega arith
    go false e = let h = ltb→ge _ _ e in omega arith

top_off-keeps : (p : Player) → p.p_fuel ≤ℤ pos p.p_ship.s_maxfuel → (top_off p).p_fuel ≡ p.p_fuel
unfolding top_off
top_off-keeps p h = go (ltb_ℤ (pos p.p_ship.s_maxfuel) p.p_fuel) refl
  where
    go :
        (t : Bool)
        → ltb_ℤ (pos p.p_ship.s_maxfuel) p.p_fuel ≡ t
        → let q : Player = if t then record p { p_fuel = pos p.p_ship.s_maxfuel } else p in
          q.p_fuel ≡ p.p_fuel
    go true e = let l = ltb→lt _ _ e in absurd (omega arith)
    go false e = refl

-- What a docked ship takes is never negative, and fits its tank.
fuel_from_base_lem :
    (ship base : Player)
    → ship.p_fuel ≤ℤ pos ship.p_ship.s_maxfuel
    → let fc = fuel_from_base ship base in
      (pos 0 ≤ℤ fc) × (ship.p_fuel +ℤ fc ≤ℤ pos ship.p_ship.s_maxfuel)
unfolding fuel_from_base
fuel_from_base_lem ship base h =
    go
      (ship.p_flags.dock
        && ltb_ℤ ship.p_fuel (pos ship.p_ship.s_maxfuel)
        && ltb_ℤ sb_fuel_min base.p_fuel)
      (ltb_ℤ rate room) refl
  where
    top : ℤ
    top = pos ship.p_ship.s_maxfuel

    room : ℤ
    room = top -ℤ ship.p_fuel

    rate : ℤ
    rate = pos (10 * ship.p_ship.s_recharge)

    go :
        (t u : Bool)
        → ltb_ℤ rate room ≡ u
        → let fc : ℤ = if t then (if u then rate else room) else pos 0 in
          (pos 0 ≤ℤ fc) × (ship.p_fuel +ℤ fc ≤ℤ top)
    go true true e =
        let l = ltb→lt _ _ e in
        let a = +ℤ_parts ship.p_fuel rate in
        let b = -ℤ_parts top ship.p_fuel in (omega arith, omega arith)
    go true false e =
        let a = +ℤ_parts ship.p_fuel room in
        let b = -ℤ_parts top ship.p_fuel in (omega arith, omega arith)
    go false u e = let a = +ℤ_parts ship.p_fuel (pos 0) in (omega arith, omega arith)

shared : (a b c : ℤ) → (a +ℤ c) +ℤ (b -ℤ c) ≡ a +ℤ b
shared a b c =
    let p = +ℤ_parts a c in
    let q = -ℤ_parts b c in
    let r = +ℤ_parts (a +ℤ c) (b -ℤ c) in
    let s = +ℤ_parts a b in eq_of_parts ((a +ℤ c) +ℤ (b -ℤ c)) (a +ℤ b) (omega arith)

abbrev pub IsTanked : Player → Type 0
IsTanked p = p.p_fuel ≤ℤ pos p.p_ship.s_maxfuel

settled-Tanked : (p : Player) → IsTanked (stop_dry (top_off p))
unfolding stop_dry top_off
settled-Tanked p =
    let top = pos p.p_ship.s_maxfuel in
    let q : Player = if ltb_ℤ top p.p_fuel then record p { p_fuel = top } else p in
    let full : IsTanked q =
      if_cases IsTanked (ltb_ℤ top p.p_fuel) (λ over. omega arith)
        (λ under. let h = ltb→ge _ _ under in omega arith) in
    if_both IsTanked (ltb_ℤ q.p_fuel (pos 0)) full full

taken_not_negative : (ship base : Player) → pos 0 ≤ℤ fuel_from_base ship base
unfolding fuel_from_base
taken_not_negative ship base =
    let room = -ℤ_parts (pos ship.p_ship.s_maxfuel) ship.p_fuel in ground arith

given-Tanked :
    (p : Player) (fc : ℤ)
    → pos 0 ≤ℤ fc
    → IsTanked p
    → IsTanked (record p { p_fuel = p.p_fuel -ℤ fc })
given-Tanked p fc h t = omega (arith, -ℤ_parts p.p_fuel fc)

module _ (j : ℕ) (g : Game) where
  -- The ship once it has recharged, and its base.
  abbrev recharged : Player
  recharged = let p = g.players j in record p { p_fuel = p.p_fuel +ℤ pos (2 * p.p_ship.s_recharge) }

  abbrev base_of : Player
  base_of = g.players (g.players j).p_dock_with

  settled :
      (q : Player) (ps : ℕ → Player)
      → (put ps j (stop_dry (top_off q)) j).p_fuel ≡ (top_off q).p_fuel
  settled q ps =
      ap (λ (x : Player). x.p_fuel) (put_self ps j (stop_dry (top_off q)))
      ∙ stop_dry-fuel (top_off q)

  -- No ship has more than its tank holds after the fuel of ship `j` is made, be it that ship, its base or
  -- another, if none had more before.
  pub make_fuel-cap :
      ((i : ℕ) → IsTanked (g.players i)) → (k : ℕ) → IsTanked ((make_fuel j g).players k)
  unfolding make_fuel
  make_fuel-cap tanked k =
      let fc = fuel_from_base recharged base_of in
      if_both (λ (h : Game). IsTanked (h.players k)) (at_fuel_planet g (g.players j))
        (if_both IsTanked (j == k)
          (settled-Tanked (record recharged {
            p_fuel = recharged.p_fuel +ℤ pos (6 * (g.players j).p_ship.s_recharge);
          }))
          (tanked k))
        (if_both IsTanked (j == k)
          (settled-Tanked (record recharged { p_fuel = recharged.p_fuel +ℤ fc }))
          (if_both IsTanked ((g.players j).p_dock_with == k)
            (given-Tanked base_of fc (taken_not_negative recharged base_of)
              (tanked (g.players j).p_dock_with))
            (tanked k)))

  -- A ship that is not over a fuel planet, whose base is another ship, and whose own making does not
  -- overfill its tank: what it takes from the base is what the base loses, so that the two together
  -- have what the ship makes and both had before; and the base does not gain.
  pub make_fuel-transfer :
      at_fuel_planet g (g.players j) ≡ false
      → j ≢ (g.players j).p_dock_with
      → (g.players j).p_fuel +ℤ pos (2 * (g.players j).p_ship.s_recharge)
        ≤ℤ pos (g.players j).p_ship.s_maxfuel
      → let h = make_fuel j g in
        let b = (g.players j).p_dock_with in
        ((h.players j).p_fuel +ℤ (h.players b).p_fuel
          ≡ ((g.players j).p_fuel +ℤ pos (2 * (g.players j).p_ship.s_recharge))
            +ℤ (g.players b).p_fuel)
        × ((h.players b).p_fuel ≤ℤ (g.players b).p_fuel)
  unfolding make_fuel
  make_fuel-transfer e ne fits = go (at_fuel_planet g (g.players j)) e
    where
      fc : ℤ
      fc = fuel_from_base recharged base_of

      away : Player
      away = record recharged { p_fuel = recharged.p_fuel +ℤ fc }

      given : Player
      given = record base_of { p_fuel = base_of.p_fuel -ℤ fc }

      b : ℕ
      b = (g.players j).p_dock_with

      orbiting : Player
      orbiting = record recharged {
        p_fuel = recharged.p_fuel +ℤ pos (6 * (g.players j).p_ship.s_recharge);
      }

      IsShared : Game → Type 0
      IsShared h =
          ((h.players j).p_fuel +ℤ (h.players b).p_fuel ≡ recharged.p_fuel +ℤ base_of.p_fuel)
          × ((h.players b).p_fuel ≤ℤ base_of.p_fuel)

      mine_now :
          (put (put g.players b given) j (stop_dry (top_off away)) j).p_fuel
          ≡ recharged.p_fuel +ℤ fc
      mine_now =
          settled away (put g.players b given)
          ∙ top_off-keeps away (fuel_from_base_lem recharged base_of fits).1

      base_now :
          (put (put g.players b given) j (stop_dry (top_off away)) b).p_fuel ≡ base_of.p_fuel -ℤ fc
      base_now =
          ap (λ (x : Player). x.p_fuel)
            (put_ne (put g.players b given) j b (stop_dry (top_off away)) ne
              ∙ put_self g.players b given)

      go :
          (t : Bool)
          → t ≡ false
          → IsShared (
              if t
              then set_player j (stop_dry (top_off orbiting)) g
              else set_player j (stop_dry (top_off away)) (set_player b given g))
      go true q = absurd (cc)
      go false q =
          rw (mine_now, base_now)
            (
              shared recharged.p_fuel base_of.p_fuel fc,
              let n = (fuel_from_base_lem recharged base_of fits).0 in
                  let d = -ℤ_parts base_of.p_fuel fc in omega arith,
            )
