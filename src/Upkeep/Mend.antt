-- ===== src/Upkeep/Mend.antt =====
-- Repair only mends: shields never pass their maximum, and damage never grows.
use netrek_server.Base.{
  ltb, false, true, Bool-cases, inl, inr, ◌⊎◌, ltb→lt, ltb→ge, ℕ, ◌≤◌, ◌<◌, ◌≡◌, arith, ◌∙◌, subst,
}
use netrek_server.Game.{Player, Game}
use netrek_server.Upkeep.{repair_shield, repair_hull, repair_ship}

repair_shield_lem :
    (g : Game) (p : Player)
    → p.p_shield ≤ p.p_ship.s_maxshield
    → let q = (repair_shield g p).1 in
      (p.p_shield ≤ q.p_shield)
      × (q.p_shield ≤ q.p_ship.s_maxshield)
      × (q.p_ship ≡ p.p_ship)
      × (q.p_damage ≡ p.p_damage)
      × (p.p_shield < p.p_ship.s_maxshield → q.p_subshield < 1000)
unfolding repair_shield
repair_shield_lem g p h = ground arith

repair_shield-flags :
    (g : Game) (p : Player) → (repair_shield g p).1.p_flags.shield ≡ p.p_flags.shield
unfolding repair_shield
repair_shield-flags g p = ground arith

repair_hull_lem :
    (time : ℕ) (g : Game) (p : Player)
    → let q = repair_hull time g p in
      (q.p_damage ≤ p.p_damage)
      × (q.p_shield ≡ p.p_shield)
      × (q.p_ship ≡ p.p_ship)
      × (q.p_subshield ≡ p.p_subshield)
      × (p.p_flags.shield ≡ true → q.p_damage ≡ p.p_damage)
unfolding repair_hull
repair_hull_lem time g p = ground arith

-- One update's repair of a ship whose shields are within their maximum: the shields do not fall and
-- stay within it, the damage does not grow, and it stays as it is while the shields are up; if the
-- shields were not whole, less than one unit of their repair stays over.
pub repair_ship_lem :
    (g : Game) (p : Player)
    → p.p_shield ≤ p.p_ship.s_maxshield
    → let q = repair_ship g p in
      (p.p_shield ≤ q.p_shield)
      × (q.p_shield ≤ q.p_ship.s_maxshield)
      × (q.p_damage ≤ p.p_damage)
      × ((p.p_flags.shield ≡ false) ⊎ (q.p_damage ≡ p.p_damage))
      × ((p.p_shield ≡ p.p_ship.s_maxshield) ⊎ (q.p_subshield < 1000))
unfolding repair_ship
repair_ship_lem g p h =
    let a = repair_shield_lem g p h in
    let m = repair_shield-flags g p in
    let b = repair_hull_lem (repair_shield g p).0 g (repair_shield g p).1 in
    rw (b.1, b.2, b.3)
      (
        a.0,
        a.1,
        subst (λ x. (repair_hull (repair_shield g p).0 g (repair_shield g p).1).p_damage ≤ x) a.3
            b.0,
        elim (Bool-cases p.p_flags.shield) [ inl s ↦ inr (b.4 (m ∙ s) ∙ a.3) | inr s ↦ inl s ],
        elim (Bool-cases (ltb p.p_shield p.p_ship.s_maxshield)) [
          | inl s ↦ inr (a.4 (ltb→lt _ _ s))
          | inr s ↦ inl (let ge = ltb→ge _ _ s in omega arith)
        ],
      )
