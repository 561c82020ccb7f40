-- ===== src/Life/Frames.antt =====
-- What the steps of an explosion leave alone: the state and the timer of the exploding player.
use netrek_server.Base.{
  ℕ, false, ◌≡◌, ◌≢◌, refl, sym, ap, ◌∙◌, Option, none, some, if_both, if_cases, put_ne, put_keeps,
  loop_inv, arith, ℤ,
}
use netrek_server.Game.{Player, Game, max_player, num_bays, Status, is_starbase}
use netrek_server.Bay.{Players, undock, set_bay, bay_release, release_bay, bay_release_all}
use netrek_server.Conquest.{p_explosion}
use netrek_server.Blast.{
  inflict, killer_credit, Blow, is_destroyed, on_ship, credited, destroyed, take_blow, Physics,
  is_spared, ship_blow, ship_reaches, blowup,
}
use netrek_server.Alive.{Delays}
use netrek_server.Life.{Roster, explode_bays}

abbrev pub phase : Player → Status × ℤ
phase p = (p.p_status, p.p_explode)

phase-set_bay :
    (b i : ℕ) (v : Option ℕ) (ps : Players) (k : ℕ) → phase (set_bay b i v ps k) ≡ phase (ps k)
phase-set_bay b i v ps k = put_keeps phase ps b _ k refl

phase-undock : (s : ℕ) (ps : Players) (k : ℕ) → phase (undock s ps k) ≡ phase (ps k)
phase-undock s ps k = put_keeps phase ps s _ k refl

phase-bay_release : (me : ℕ) (ps : Players) (k : ℕ) → phase (bay_release me ps k) ≡ phase (ps k)
unfolding bay_release
phase-bay_release me ps k =
    let qs = set_bay (ps me).p_dock_with (ps me).p_dock_bay none ps in
    if_both (λ (rs : Players). phase (rs k) ≡ phase (ps k)) (ps me).p_flags.dock
      (phase-undock me qs k ∙ phase-set_bay (ps me).p_dock_with (ps me).p_dock_bay none ps k) refl

phase-release_bay : (b i : ℕ) (ps : Players) (k : ℕ) → phase (release_bay b i ps k) ≡ phase (ps k)
unfolding release_bay
phase-release_bay b i ps k = by_bay ((ps b).p_bays i)
  where
    by_bay :
        (o : Option ℕ)
        → phase
            ((elim o as (λ x. Players) [ none ↦ ps | some s ↦ undock s (set_bay b i none ps) ]) k)
          ≡ phase (ps k)
    by_bay none = refl
    by_bay (some s) = phase-undock s (set_bay b i none ps) k ∙ phase-set_bay b i none ps k

phase-bay_release_all :
    (b : ℕ) (ps : Players) (k : ℕ) → phase (bay_release_all b ps k) ≡ phase (ps k)
unfolding bay_release_all
phase-bay_release_all b ps k =
    loop_inv (λ i (x : Players). phase (x k) ≡ phase (ps k)) (release_bay b) num_bays 0 num_bays ps
      refl (λ i x lo hi e. phase-release_bay b i x k ∙ e) refl

pub phase-explode_bays :
    (d : Delays) (i : ℕ) (r : Roster) (k : ℕ)
    → phase ((explode_bays d i r).game.players k) ≡ phase (r.game.players k)
unfolding explode_bays
phase-explode_bays d i r k =
    let one = phase-bay_release i r.game.players k in
    if_both (λ (x : Roster). phase (x.game.players k) ≡ phase (r.game.players k))
      (is_starbase (r.game.players i).p_ship.s_type)
      (phase-bay_release_all i (bay_release i r.game.players) k ∙ one) one

phase-credited :
    (b : Blow) (j : ℕ) (g : Game) (k : ℕ) → phase ((credited b j g).players k) ≡ phase (g.players k)
unfolding credited killer_credit
phase-credited b j g k =
    if_both (λ (x : Game). phase (x.players k) ≡ phase (g.players k)) b.is_credited
      (put_keeps phase g.players b.killer (killer_credit (g.players b.killer) (g.players j)) k refl)
      refl

phase-take_blow :
    (b : Blow) (j : ℕ) (g : Game) (k : ℕ)
    → j ≢ k
    → phase ((take_blow b j g).players k) ≡ phase (g.players k)
unfolding take_blow destroyed
phase-take_blow b j g k ne =
    let hit = on_ship j (inflict b.damage) g in
    let a = ap phase (put_ne g.players j k (inflict b.damage (g.players j)) ne) in
    let gone = on_ship j (p_explosion b.cause (hit.players b.killer).p_no) hit in
    let c = ap phase (
      put_ne hit.players j k (p_explosion b.cause (hit.players b.killer).p_no (hit.players j))
        ne) in
    if_both (λ (x : Game). phase (x.players k) ≡ phase (g.players k)) (is_destroyed (hit.players j))
      (phase-credited b j gone k ∙ c ∙ a) a

spares_itself : (h : Physics) (g : Game) (s j : ℕ) → is_spared h g s j ≡ false → s ≢ j
unfolding is_spared
spares_itself h g s j e = ground arith

record Kept (g : Game) (k : ℕ) (x : Game) : Type 0 where
  kept : phase (x.players k) ≡ phase (g.players k)

Kept-refl : (g : Game) (k : ℕ) → Kept g k g
Kept-refl g k = record { kept = refl }

take_blow-Kept : (b : Blow) (j : ℕ) (g : Game) (k : ℕ) → j ≢ k → Kept g k (take_blow b j g)
take_blow-Kept b j g k ne = record { kept = phase-take_blow b j g k ne }

ship_reaches_phase : (h : Physics) (s j : ℕ) (g : Game) → Kept g s (ship_reaches h s j g)
unfolding ship_reaches
ship_reaches_phase h s j g =
    if_cases (Kept g s) (is_spared h g s j) (λ e. Kept-refl g s)
      (λ e.
        if_both (Kept g s) _
          (take_blow-Kept (ship_blow _ g s (g.players j)) j g s
            (λ q. spares_itself h g s j e (sym q)))
          (Kept-refl g s))

-- An explosion does not change the state or the timer of the ship that explodes.
pub phase-blowup :
    (h : Physics) (s : ℕ) (g : Game) → phase ((blowup h s g).players s) ≡ phase (g.players s)
unfolding blowup
phase-blowup h s g =
    loop_inv (λ i (x : Game). phase (x.players s) ≡ phase (g.players s)) (ship_reaches h s)
      max_player 0 max_player g refl (λ i x lo hi e. (ship_reaches_phase h s i x).kept ∙ e) refl
