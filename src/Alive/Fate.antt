-- ===== src/Alive/Fate.antt =====
-- What `udplayers_palive` of ntserv/daemon.c makes of a ship's state: a move keeps it, and the other
-- calls keep a living ship alive or let it explode.
use netrek_server.Base.{
  ℕ, ◌≡◌, refl, sym, ap, ◌∙◌, inl, inr, ◌⊎◌, Bool, true, false, not, ◌&&◌, Option, none, some, ltb,
  ltb_ℤ, ◌==◌, ℤ, pos, ◌-ℤ◌, ◌+ℤ◌, if◌then◌else◌, if_both, if_true, put, put_self, put_keeps, loop,
  ◌+◌, ◌*◌,
}
use netrek_server.Game.{Player, Game, Status, alive, explode, is_starbase, max_player}
use netrek_server.Conquest.{p_explosion}
use netrek_server.Blast.{on_ship, killer_credit}
use netrek_server.Upkeep.{
  changedir, fuel_shields, cool_weapons, cool_engines, fuel_cloak, top_off, stop_dry,
  at_fuel_planet, make_fuel, repair_shield, repair_hull, repair_ship, fuel_from_base,
}
use netrek_server.Drive.{
  put_at, hauling, alarm, go_green, Engine, move_in_orbit, steer, limit_speed, run_dry, pay_speed,
  charge_speed, throttle, move_in_space, move_ship, holds, haul, let_go, pull, set_alert,
}
use netrek_server.Alive.{
  Delays, Drive, ghosttime, patience, check_ghostbuster, nearer, credit_enemy, credit_self_destruct,
  is_due, blow_up, self_destruct, is_over, palive_systems, udplayers_palive,
}

-- A state and a timer.
abbrev pub clock : Player → Status × ℤ
clock p = (p.p_status, p.p_explode)

abbrev SameClock : Player → Player → Type 0
SameClock p q = clock q ≡ clock p

changedir_clock : (b : Bool) (p : Player) → SameClock p (changedir b p)
unfolding changedir
changedir_clock b p =
    if_both (SameClock p) (p.p_speed == 0) refl (if_both (SameClock p) _ refl refl)

steer_clock : (e : Engine) (p : Player) → SameClock p (steer e p)
unfolding steer
steer_clock e p = if_both (SameClock p) _ (changedir_clock e.newturn p) refl

limit_speed_clock : (e : Engine) (p : Player) → SameClock p (limit_speed e p)
unfolding limit_speed
limit_speed_clock e p =
    let q =
      if ltb_ℤ (e.top_speed p) p.p_desspeed then record p { p_desspeed = e.top_speed p } else p in
    let same : SameClock p q =
      if_both (SameClock p) (ltb_ℤ (e.top_speed p) p.p_desspeed) refl refl in
    if_both (SameClock p) p.p_flags.eng same same

run_dry_clock : (p : Player) → SameClock p (run_dry p)
unfolding run_dry
run_dry_clock p = refl

pay_speed_clock : (e : Engine) (ps : ℕ → Player) (p : Player) → SameClock p (pay_speed e ps p)
unfolding pay_speed
pay_speed_clock e ps p = if_both (SameClock p) (is_starbase p.p_ship.s_type) refl refl

charge_speed_clock : (e : Engine) (ps : ℕ → Player) (p : Player) → SameClock p (charge_speed e ps p)
unfolding charge_speed
charge_speed_clock e ps p =
    if_both (SameClock p) (ltb_ℤ p.p_fuel (pos (p.p_ship.s_warpcost * p.p_speed))) (run_dry_clock p)
      (pay_speed_clock e ps p)

throttle_clock : (p : Player) → SameClock p (throttle p)
unfolding throttle
throttle_clock p = if_both (SameClock p) _ refl refl

move_in_space_clock :
    (e : Engine) (ps : ℕ → Player) (p : Player) → SameClock p (move_in_space e ps p)
unfolding move_in_space
move_in_space_clock e ps p =
    let q = steer e p in
    let l = limit_speed e q in
    let c = charge_speed e ps l in
    if_both (SameClock p) q.p_flags.twarp (steer_clock e p)
      (throttle_clock c ∙ charge_speed_clock e ps l ∙ limit_speed_clock e q ∙ steer_clock e p)

-- A move keeps the state and the timer.
pub clock-move_ship :
    (e : Engine) (i : ℕ) (g : Game) → clock ((move_ship e i g).players i) ≡ clock (g.players i)
unfolding move_ship move_in_orbit
clock-move_ship e i g =
    let p = g.players i in
    if_both (λ (h : Game). clock (h.players i) ≡ clock p) (p.p_flags.orbit && not p.p_flags.dock)
      (put_keeps clock g.players i (move_in_orbit e (g.planets p.p_planet) p) i refl)
      (if_both (λ (h : Game). clock (h.players i) ≡ clock p) (not p.p_flags.dock)
        (put_keeps clock g.players i (move_in_space e g.players p) i
          (move_in_space_clock e g.players p))
        refl)

abbrev SameStatus : Player → Player → Type 0
SameStatus p q = q.p_status ≡ p.p_status

-- The state of player `i`, through a change of player `k`.
status_on_ship :
    (k i : ℕ) (f : Player → Player) (g : Game)
    → SameStatus (g.players k) (f (g.players k))
    → ((on_ship k f g).players i).p_status ≡ (g.players i).p_status
status_on_ship k i f g e = put_keeps (λ (p : Player). p.p_status) g.players k (f (g.players k)) i e

settled_status : (p : Player) → SameStatus p (stop_dry (top_off p))
unfolding stop_dry top_off
settled_status p =
    let q =
      if ltb_ℤ (pos p.p_ship.s_maxfuel) p.p_fuel
      then record p { p_fuel = pos p.p_ship.s_maxfuel }
      else p in
    let same : SameStatus p q =
      if_both (SameStatus p) (ltb_ℤ (pos p.p_ship.s_maxfuel) p.p_fuel) refl refl in
    if_both (SameStatus p) (ltb_ℤ q.p_fuel (pos 0)) same same

make_fuel_status :
    (j i : ℕ) (g : Game) → ((make_fuel j g).players i).p_status ≡ (g.players i).p_status
unfolding make_fuel
make_fuel_status j i g =
    let p = g.players j in
    let b = p.p_dock_with in
    let ship = record p { p_fuel = p.p_fuel +ℤ pos (2 * p.p_ship.s_recharge) } in
    let base = g.players b in
    let fc = fuel_from_base ship base in
    let given = record base { p_fuel = base.p_fuel -ℤ fc } in
    let fed = record ship { p_fuel = ship.p_fuel +ℤ pos (6 * p.p_ship.s_recharge) } in
    let filled = record ship { p_fuel = ship.p_fuel +ℤ fc } in
    let base_kept : (k : ℕ) → SameStatus (g.players k) (put g.players b given k) =
      λ k. put_keeps (λ (x : Player). x.p_status) g.players b given k refl in
    if_both (λ (h : Game). SameStatus (g.players i) (h.players i)) (at_fuel_planet g p)
      (put_keeps (λ (x : Player). x.p_status) g.players j (stop_dry (top_off fed)) i
        (settled_status fed))
      (put_keeps (λ (x : Player). x.p_status) (put g.players b given) j (stop_dry (top_off filled))
          i (settled_status filled ∙ sym (base_kept j))
        ∙ base_kept i)

cool_weapons_status : (a b : ℕ) (p : Player) → SameStatus p (cool_weapons a b p)
unfolding cool_weapons
cool_weapons_status a b p =
    if_both (SameStatus p) p.p_flags.wep refl (if_both (SameStatus p) _ refl refl)

cool_engines_status : (a b : ℕ) (p : Player) → SameStatus p (cool_engines a b p)
unfolding cool_engines
cool_engines_status a b p =
    if_both (SameStatus p) p.p_flags.eng refl (if_both (SameStatus p) _ refl refl)

fuel_cloak_status : (p : Player) → SameStatus p (fuel_cloak p)
unfolding fuel_cloak
fuel_cloak_status p =
    if_both (SameStatus p) p.p_flags.cloak (if_both (SameStatus p) _ refl refl) refl

fuel_shields_status : (p : Player) → SameStatus p (fuel_shields p)
unfolding fuel_shields
fuel_shields_status p = if_both (SameStatus p) p.p_flags.shield refl refl

repair_status : (g : Game) (p : Player) → SameStatus p (repair_ship g p)
unfolding repair_ship repair_hull repair_shield
repair_status g p =
    let x = repair_shield g p in
    let half : SameStatus p x.1 =
      if_both (λ (y : ℕ × Player). SameStatus p y.1) (ltb p.p_shield p.p_ship.s_maxshield) refl
        refl in
    if_both (SameStatus p) (not (x.1.p_damage == 0) && not x.1.p_flags.shield) half half

haul_status : (e : Engine) (j i : ℕ) (g : Game) → SameStatus (g.players i) ((haul e j g).players i)
unfolding haul
haul_status e j i g =
    let p = g.players j in
    let q = g.players p.p_tractor in
    let press = p.p_flags.press in
    let adrift =
      on_ship p.p_tractor (λ x. record x { p_flags = record (x.p_flags) { orbit = false } }) g in
    let moved =
      on_ship j (λ x. put_at (e.pull_x press p q) (e.pull_y press p q) (hauling x)) adrift in
    status_on_ship p.p_tractor i (λ x. put_at (e.drag_x press p q) (e.drag_y press p q) x) moved
      refl
    ∙ status_on_ship j i (λ x. put_at (e.pull_x press p q) (e.pull_y press p q) (hauling x)) adrift
        refl
    ∙ status_on_ship p.p_tractor i
        (λ x. record x { p_flags = record (x.p_flags) { orbit = false } }) g refl

pull_status :
    (e : Engine) (j i : ℕ) (g : Game) → ((pull e j g).players i).p_status ≡ (g.players i).p_status
unfolding pull haul
pull_status e j i g =
    let P = λ (h : Game). SameStatus (g.players i) (h.players i) in
    if_both P (not (g.players j).p_flags.tract) refl
      (if_both P (holds g j) (haul_status e j i g) (status_on_ship j i let_go g refl))

alert_status :
    (b : Bool) (j i : ℕ) (g : Game) → SameStatus (g.players i) ((set_alert b j g).players i)
unfolding set_alert
alert_status b j i g =
    status_on_ship j i
      (λ p. record p { p_flags = loop max_player 0 (alarm b g j) (go_green p.p_flags) }) g refl

-- Alive, or exploding.
abbrev pub IsShip : Status → Type 0
IsShip s = (s ≡ alive) ⊎ (s ≡ explode)

IsShip-same : (s t : Status) → t ≡ s → IsShip s → IsShip t
IsShip-same s t e (inl a) = inl (e ∙ a)
IsShip-same s t e (inr x) = inr (e ∙ x)

check_ghostbuster-Ship :
    (d : Delays) (p : Player) → IsShip p.p_status → IsShip (check_ghostbuster d p).p_status
unfolding check_ghostbuster p_explosion
check_ghostbuster-Ship d p s =
    if_both (λ (q : Player). IsShip q.p_status) (ltb (ghosttime d) (patience p).p_ghostbuster)
      (inr refl) s

credit_enemy_status :
    (o : Option ℕ) (j i : ℕ) (g : Game) → SameStatus (g.players i) ((credit_enemy o j g).players i)
unfolding credit_enemy killer_credit
credit_enemy_status none j i g = refl
credit_enemy_status (some k) j i g = status_on_ship k i (λ q. killer_credit q (g.players j)) g refl

self_destruct-Ship :
    (v : Drive) (i : ℕ) (g : Game)
    → IsShip (g.players i).p_status
    → IsShip ((self_destruct v i g).players i).p_status
unfolding self_destruct credit_self_destruct p_explosion
self_destruct-Ship v i g s =
    let P = λ (h : Game). IsShip (h.players i).p_status in
    let ended = on_ship i blow_up g in
    let gone : (ended.players i).p_status ≡ explode =
      ap (λ (p : Player). p.p_status) (put_self g.players i (blow_up (g.players i))) in
    if_both P (is_due (g.players i))
      (if_both P v.self_destruct_credit
        (inr (
          credit_enemy_status (loop max_player 0 (nearer v ended i) (200000, none)).1 i i ended
          ∙ gone))
        (inr gone))
      s

palive_systems-Ship :
    (d : Delays) (b : Bool) (v : Drive) (i : ℕ) (g : Game)
    → IsShip (g.players i).p_status
    → IsShip ((palive_systems d b v i g).players i).p_status
unfolding palive_systems
palive_systems-Ship d b v i g s =
    let checked = on_ship i (check_ghostbuster d) g in
    let counted = on_ship i (λ p. record p { p_updates = p.p_updates + 1 }) checked in
    let shielded = on_ship i fuel_shields counted in
    let pulled = pull v.engine i shielded in
    let cool = on_ship i (cool_weapons v.wep_chance v.wep_span) pulled in
    let cooler = on_ship i (cool_engines v.eng_chance v.eng_span) cool in
    let cloaked = on_ship i fuel_cloak cooler in
    let fuelled = make_fuel i cloaked in
    let mended = on_ship i (repair_ship fuelled) fuelled in
    let alert = set_alert b i mended in
    let first : IsShip (checked.players i).p_status =
      IsShip-same (check_ghostbuster d (g.players i)).p_status (checked.players i).p_status
        (ap (λ (p : Player). p.p_status) (put_self g.players i (check_ghostbuster d (g.players i))))
        (check_ghostbuster-Ship d (g.players i) s) in
    let kept : SameStatus (checked.players i) (alert.players i) =
      alert_status b i i mended
      ∙ status_on_ship i i (repair_ship fuelled) fuelled (repair_status fuelled (fuelled.players i))
      ∙ make_fuel_status i i cloaked
      ∙ status_on_ship i i fuel_cloak cooler (fuel_cloak_status (cooler.players i))
      ∙ status_on_ship i i (cool_engines v.eng_chance v.eng_span) cool
          (cool_engines_status v.eng_chance v.eng_span (cool.players i))
      ∙ status_on_ship i i (cool_weapons v.wep_chance v.wep_span) pulled
          (cool_weapons_status v.wep_chance v.wep_span (pulled.players i))
      ∙ pull_status v.engine i i shielded
      ∙ status_on_ship i i fuel_shields counted (fuel_shields_status (counted.players i))
      ∙ status_on_ship i i (λ p. record p { p_updates = p.p_updates + 1 }) checked refl in
    self_destruct-Ship v i alert
      (IsShip-same (checked.players i).p_status (alert.players i).p_status kept first)

-- A living ship stays alive or explodes.
pub palive-Ship :
    (d : Delays) (b : Bool) (v : Drive) (i : ℕ) (g : Game)
    → (g.players i).p_status ≡ alive
    → IsShip ((udplayers_palive d b v i g).players i).p_status
unfolding udplayers_palive
palive-Ship d b v i g e =
    let moved = move_ship v.engine i g in
    let lives : (moved.players i).p_status ≡ alive =
      ap (λ (x : Status × ℤ). x.0) (clock-move_ship v.engine i g) ∙ e in
    if_both (λ (h : Game). IsShip (h.players i).p_status) (is_over (moved.players i).p_status)
      (inl lives) (palive_systems-Ship d b v i moved (inl lives))

-- One that explodes, or is dead, is only moved.
pub palive_over :
    (d : Delays) (b : Bool) (v : Drive) (i : ℕ) (g : Game)
    → is_over (g.players i).p_status ≡ true
    → clock ((udplayers_palive d b v i g).players i) ≡ clock (g.players i)
unfolding udplayers_palive
palive_over d b v i g e =
    let moved = move_ship v.engine i g in
    let kept = clock-move_ship v.engine i g in
    ap (λ (h : Game). clock (h.players i))
      (if_true (is_over (moved.players i).p_status) moved (palive_systems d b v i moved)
        (ap (λ (x : Status × ℤ). is_over x.0) kept ∙ e))
    ∙ kept
