-- ===== src/Tests.antt =====
-- Each theorem applied to a concrete state of the scenario.
use netrek_server.Base.{
  ◌+◌, ◌/◌, ◌⊎◌, ◌≤ℤ◌, ◌≤◌, ◌+ℤ◌, ℕ, ◌*◌, ◌<◌, ◌≡◌, ◌≢◌, refl, true, false, not, ◌&&◌, ◌||◌, ◌==◌,
  [], ◌∷◌, pos, arith, inl, ◌-ℤ◌, count, find, ltb, if◌then◌else◌, if_both, put,
}
use netrek_server.Game.{
  Game, Player, Flags, no_flags, Client, Ship, ShipType, Reply, mine, is_free, Teams, Team, fed,
  rom, kli, ori, has, only, nobody, cruiser, starbase, num_bays, meets,
}
use netrek_server.Bay.{bay_consistency_check, bay_closest, closest_of}
use netrek_server.Bay.Consistency.{bay_consistency_check_lem, genuine}
use netrek_server.Bay.Closest.{IsClosest, bay_closest_lem}
use netrek_server.Bay.Invariant.{IsMoored}
use netrek_server.Dock.{dock, dock_verdict, within, friendly, moor_at, hostile, orbit}
use netrek_server.Dock.Refusals.{IsWelcome, IsMooredAt, IsUnlocked, dock-success, dock-failure}
use netrek_server.Dock.Berths.{Berthed, orbit-Berthed}
use netrek_server.War.{declare_war}
use netrek_server.War.Masks.{IsSummed, declare_war_lem}
use netrek_server.Command.{
  lock_on_planet, lock_on_player, run, raise_shields, bomb_it, go_orbit, tractor, start_cloak,
  rebel, det_enemy, fire_torp,
}
use netrek_server.Command.Exclusive.{IsExclusive, Clean, put-Exclusive}
use netrek_server.Command.Moorings.{run-Berthed}
use netrek_server.Command.Sessions.{run-Clean}
use netrek_server.Queues.{queues_init, qu_god_obs}
use netrek_server.WaitQueue.{queue_add, queue_exit, queue_update, enter, joined, joined_queue}
use netrek_server.WaitQueue.Line.{IsLine}
use netrek_server.WaitQueue.Enter.{IsAnswered, queue_add-IsAdded, queue_add_lem}
use netrek_server.WaitQueue.Renumber.{IsUpdated, queue_update_lem}
use netrek_server.WaitQueue.Exit.{IsExited, queue_exit_lem}
use netrek_server.Slot.{slot, pickslot, pickslot_action, is_pickable, freeslot}
use netrek_server.Slot.Pick.{IsTaken, pickslot-slot, pickslot-no_slot, pickslot-god_obs}
use netrek_server.Slot.Account.{books, pickslot-books, freeslot-books}
use netrek_server.Torp.{Arms, ntorp}
use netrek_server.Torp.Free.{IsCounted}
use netrek_server.Torp.Counted.{ntorp-Counted}
use netrek_server.Upkeep.{changedir, turn_gain, repair_ship, make_fuel}
use netrek_server.Upkeep.Turn.{arc, changedir_lem}
use netrek_server.Upkeep.Phase.{updates, updates-hidden}
use netrek_server.Upkeep.Mend.{repair_ship_lem}
use netrek_server.Upkeep.Fuel.{IsTanked, make_fuel-cap, make_fuel-transfer}
use netrek_server.Scenario.{
  game_of, trig, ship_at, base_flags, moored_fleet, fleet, captain, enemy, empty_slots, full_slots,
  plain, rules, torp_cost, gunner, one_waiting, two_waiting, client_of,
}

-- The invariants hold of the scenario.
no_flags-Exclusive : IsExclusive no_flags
no_flags-Exclusive = record {
  bomb_only = λ e. absurd (cc);
  up_only = λ e. absurd (cc);
  bomb_open = λ e. absurd (cc);
  up_open = λ e. absurd (cc);
  down_open = λ e. absurd (cc);
  shield_or_repair = λ e. absurd (cc);
  one_lock = λ e. absurd (cc);
  press_is_tract = λ e. absurd (cc);
  cloak_no_tract = λ e. absurd (cc);
}

base_flags-Exclusive : IsExclusive base_flags
base_flags-Exclusive = record {
  bomb_only = λ e. absurd (cc);
  up_only = λ e. absurd (cc);
  bomb_open = λ e. absurd (cc);
  up_open = λ e. absurd (cc);
  down_open = λ e. absurd (cc);
  shield_or_repair = λ e. absurd (cc);
  one_lock = λ e. absurd (cc);
  press_is_tract = λ e. absurd (cc);
  cloak_no_tract = λ e. absurd (cc);
}

captain-Clean : Clean captain
captain-Clean =
    put-Exclusive 1 (ship_at starbase base_flags 1) (ship_at cruiser no_flags) base_flags-Exclusive
      (λ s. no_flags-Exclusive)

moored_fleet-IsMoored : IsMoored moored_fleet
moored_fleet-IsMoored = record {
  numbered = λ s. ground arith;
  claimed = λ s d. ground arith;
  occupied = λ b i s h. ground arith;
}

moored_fleet-Berthed : Berthed (client_of moored_fleet)
moored_fleet-Berthed = record {
  numbered = moored_fleet-IsMoored.numbered;
  claimed = moored_fleet-IsMoored.claimed;
}

gunner-IsCounted : IsCounted gunner
unfolding count
gunner-IsCounted = record {
  numbers = λ s h. ground arith;
  ntorps = λ s h. ground arith;
  nplasmas = λ s h. ground arith;
}

init-IsLine : IsLine 0 [] queues_init
unfolding queues_init
init-IsLine = record { line = (refl, refl); idle = λ i f. refl }

one-IsLine : IsLine 0 (0 ∷ []) one_waiting
unfolding queue_add queues_init find
one-IsLine = ((queue_add-IsAdded 77 0 [] queues_init (omega arith) init-IsLine).0 0 refl).1

two-IsLine : IsLine 0 (0 ∷ 1 ∷ []) two_waiting
unfolding queue_add queues_init find enter joined_queue joined
two-IsLine = ((queue_add-IsAdded 78 0 (0 ∷ []) one_waiting (omega arith) one-IsLine).0 1 refl).1

queue_exit_lem_example :
    IsExited 0 0 (0 ∷ 1 ∷ []) two_waiting (queue_exit 0 two_waiting).0 (queue_exit 0 two_waiting).1
queue_exit_lem_example =
    queue_exit_lem 0 0 (0 ∷ 1 ∷ []) two_waiting (omega arith) (omega arith) two-IsLine refl

queue_add_lem_example :
    IsAnswered 78 0 (0 ∷ []) one_waiting (queue_add 78 0 one_waiting).0 two_waiting
queue_add_lem_example = queue_add_lem 78 0 (0 ∷ []) one_waiting (omega arith) one-IsLine

queue_update_lem_example : IsUpdated 0 (0 ∷ 1 ∷ []) two_waiting (queue_update 0 two_waiting)
queue_update_lem_example =
    queue_update_lem 0 (0 ∷ 1 ∷ []) two_waiting (omega arith) (omega arith) two-IsLine

-- Every class as the ships of the scenario.
abbrev one_class : ShipType → Ship
one_class t = (ship_at t no_flags 0).p_ship

abbrev doubled : ℕ → ℕ → ℕ → ℕ → ℕ
doubled a b c d = d * 20

run-Clean_example :
    Clean
      (run trig true one_class doubled rules
        (raise_shields
          ∷ lock_on_player (pos 2)
          ∷ fire_torp torp_cost 7 64 plain
          ∷ start_cloak
          ∷ tractor (pos 2)
          ∷ go_orbit
          ∷ det_enemy
          ∷ bomb_it
          ∷ [])
        gunner).client
run-Clean_example =
    run-Clean trig true one_class doubled rules
      (raise_shields
        ∷ lock_on_player (pos 2)
        ∷ fire_torp torp_cost 7 64 plain
        ∷ start_cloak
        ∷ tractor (pos 2)
        ∷ go_orbit
        ∷ det_enemy
        ∷ bomb_it
        ∷ [])
      gunner captain-Clean

ntorp-Counted_example : IsCounted (ntorp (λ a b c d. d * 20) rules torp_cost 7 64 plain gunner).0
ntorp-Counted_example =
    ntorp-Counted (λ a b c d. d * 20) rules torp_cost 7 64 plain gunner gunner-IsCounted
      (omega arith)

pickslot-slot_example : IsTaken 0 0 empty_slots (pickslot 0 empty_slots).1
unfolding pickslot queues_init pickslot_action is_pickable
pickslot-slot_example = pickslot-slot 0 0 empty_slots (pickslot 0 empty_slots).1 refl

pickslot-no_slot_example : is_free (full_slots.players 3).p_status ≡ false
unfolding pickslot queues_init pickslot_action is_pickable
pickslot-no_slot_example =
    pickslot-no_slot 0 3 full_slots refl refl (omega arith, inl (omega arith), refl)

pickslot-god_obs_example : pickslot qu_god_obs empty_slots ≢ (slot 29, empty_slots)
pickslot-god_obs_example = pickslot-god_obs 29 empty_slots empty_slots refl refl refl

pickslot-books_example : books 0 (pickslot 0 empty_slots).1 ≡ books 0 empty_slots
unfolding queues_init
pickslot-books_example = pickslot-books 0 0 empty_slots (omega arith)

freeslot-books_example :
    (is_free ((freeslot 3 full_slots).1.players 3).p_status ≡ true)
    × (books 0 (freeslot 3 full_slots).1 ≡ books 0 full_slots)
freeslot-books_example = freeslot-books 3 0 full_slots (omega arith) refl

declare_war_lem_example :
    let q = mine (declare_war (only kli) true captain).0 in
    ((t : Team) → has q.p_hostile t ≡ (has (only kli) t && not (has (only fed) t) || has nobody t))
    × (q.p_swar ≡ nobody)
    × IsSummed q
unfolding netrek_server.Game.same netrek_server.Game.join
declare_war_lem_example = declare_war_lem (only kli) true captain refl refl

dock-success_example :
    IsWelcome 1 captain × (k : ℕ) × (k < num_bays) × IsMooredAt 1 (dock trig 1 captain).1 k
unfolding dock dock_verdict within ◌-ℤ◌ friendly meets moor_at bay_closest closest_of
    bay_consistency_check
dock-success_example = dock-success trig 1 captain refl

dock-failure_example :
    IsUnlocked (mine (dock trig 1 enemy).1).p_flags
    × ((mine (dock trig 1 enemy).1).p_flags.dock ≡ false)
unfolding dock dock_verdict within ◌-ℤ◌ friendly meets
dock-failure_example = dock-failure trig 1 enemy hostile refl

orbit-Berthed_example : Berthed (orbit trig true (client_of moored_fleet)).0
orbit-Berthed_example = orbit-Berthed trig true (client_of moored_fleet) moored_fleet-Berthed

bay_consistency_check_lem_example :
    ((j k : ℕ)
      → (bay_consistency_check 1 moored_fleet j).p_bays k ≡ (
          if 1 == j && ltb k num_bays then genuine moored_fleet 1 k else (moored_fleet j).p_bays k))
    × ((j : ℕ)
        → record (bay_consistency_check 1 moored_fleet j) { p_bays = (moored_fleet j).p_bays }
          ≡ moored_fleet j)
bay_consistency_check_lem_example = bay_consistency_check_lem 1 moored_fleet

bay_closest_lem_example :
    IsClosest
      ((bay_closest 1 (pos 5) (pos 5) moored_fleet).1 1).p_bays
      (bay_closest 1 (pos 5) (pos 5) moored_fleet).0
bay_closest_lem_example = bay_closest_lem 1 (pos 5) (pos 5) moored_fleet

-- Ship 2, docked at the starbase of slot 1 with room in its tank.
abbrev thirsty : Game
thirsty = game_of moored_fleet

changedir_lem_example :
    let p = record (ship_at cruiser no_flags 0) { p_speed = 2; p_dir = 250; p_desdir = 10 } in
    let q = changedir true p in
    let ticks = (p.p_subdir + turn_gain true p) / 1000 in
    (q.p_dir < 256)
    × (((p.p_speed ≡ 0) × (q.p_dir ≡ p.p_desdir) × (q.p_subdir ≡ 0))
        ⊎ ((p.p_speed ≢ 0)
            × ((q.p_dir ≡ p.p_desdir) ⊎ (arc q.p_dir p.p_desdir + ticks ≡ arc p.p_dir p.p_desdir))
            × (q.p_subdir < 1000)))
changedir_lem_example =
    changedir_lem true
      (record (ship_at cruiser no_flags 0) { p_speed = 2; p_dir = 250; p_desdir = 10 })
      (omega arith) (omega arith)

updates-hidden_example :
    (updates 11 (ship_at cruiser (record no_flags { cloak = true }) 0)).p_cloakphase ≡ 11
updates-hidden_example =
    updates-hidden 11 (ship_at cruiser (record no_flags { cloak = true }) 0) refl refl (omega arith)
      (omega arith)

repair_ship_lem_example :
    let p = record (ship_at cruiser no_flags 0) { p_shield = 60; p_damage = 30 } in
    let q = repair_ship thirsty p in
    (p.p_shield ≤ q.p_shield)
    × (q.p_shield ≤ q.p_ship.s_maxshield)
    × (q.p_damage ≤ p.p_damage)
    × ((p.p_flags.shield ≡ false) ⊎ (q.p_damage ≡ p.p_damage))
    × ((p.p_shield ≡ p.p_ship.s_maxshield) ⊎ (q.p_subshield < 1000))
repair_ship_lem_example =
    repair_ship_lem thirsty (record (ship_at cruiser no_flags 0) { p_shield = 60; p_damage = 30 })
      (omega arith)

-- The same fleet, with a tank of the size of a starbase's.
abbrev roomy : Game
roomy = game_of (
    put (put fleet 2 (moored_fleet 2)) 1
      (record (moored_fleet 1) { p_ship = record ((moored_fleet 1).p_ship) { s_maxfuel = 60000 } }))

roomy-Tanked : (i : ℕ) → IsTanked (roomy.players i)
roomy-Tanked i = if_both IsTanked (1 == i) (omega arith) (
    if_both IsTanked (2 == i) (omega arith) (if_both IsTanked (1 == i) (omega arith) (omega arith)))

make_fuel-cap_example : IsTanked ((make_fuel 2 roomy).players 1)
make_fuel-cap_example = make_fuel-cap 2 roomy roomy-Tanked 1

make_fuel-transfer_example :
    let h = make_fuel 2 thirsty in
    ((h.players 2).p_fuel +ℤ (h.players 1).p_fuel ≡ (pos 9000 +ℤ pos 24) +ℤ pos 40000)
    × ((h.players 1).p_fuel ≤ℤ pos 40000)
unfolding ◌+ℤ◌
make_fuel-transfer_example = make_fuel-transfer 2 thirsty refl (omega arith) (omega arith)

abbrev harboured : Arms
harboured = record gunner { client = client_of moored_fleet }

run-Berthed_example :
    Berthed
      (run trig true one_class doubled rules
        (lock_on_planet (pos 3) ∷ rebel ∷ tractor (pos 2) ∷ lock_on_player (pos 2) ∷ go_orbit ∷ [])
        harboured).client
run-Berthed_example =
    run-Berthed trig true one_class doubled rules
      (lock_on_planet (pos 3) ∷ rebel ∷ tractor (pos 2) ∷ lock_on_player (pos 2) ∷ go_orbit ∷ [])
      harboured moored_fleet-Berthed
