-- ===== src/Slot.antt =====
-- Player slots and the queues that share them out: ntserv/slotmaint.c. The statistics, votes and
-- keymap that a new slot is given are not modelled.
pub mod Scan
pub mod Pick
pub mod Account
use netrek_server.Base.{
  ℕ, zero, suc, ◌+◌, ◌-◌, Bool, true, false, not, ◌&&◌, ◌||◌, Option, none, some, ℤ, pos, negsuc,
  ◌+ℤ◌, ◌-ℤ◌, ◌==◌, ltb_ℤ, leb_ℤ, if◌then◌else◌, put, count,
}
use netrek_server.Game.{
  Player, Status, Teams, free, outfit, is_free, no_flags, nobody, all_teams, same, max_player,
}
use netrek_server.Queues.{Queue, QueueFlags}

-- The shared slots and queues, and this process's count of the observer slots that it has given.
pub record Slots : Type 0 where
  pub players : ℕ → Player
  pub queues : ℕ → Queue
  pub observers : ℕ

unfoldable pub add_free : ℤ → ℕ → Slots → Slots
add_free n w s =
    let q = s.queues w in
    record s { queues = put s.queues w (record q { free_slots = q.free_slots +ℤ n }) }

unfoldable pub clear_slot : ℕ → Slots → Slots
clear_slot i s =
    let p = s.players i in
    record s {
      players =
          put s.players i
            (record p { p_status = free; p_flags = no_flags; p_ghostbuster = 0; p_process = 0 });
    }

-- What the source returns: 1, or -2 for a slot that was free. The null pointer, for which it returns
-- -1, is no slot of the model.
pub data Freed : Type 0 where
  freed was_free : Freed

-- Free a slot that was allocated with `pickslot`.
unfoldable pub freeslot : ℕ → Slots → Freed × Slots
freeslot i s =
    let w = (s.players i).w_queue in
    if is_free (s.players i).p_status
    then (was_free, add_free (pos 1) w (clear_slot i (add_free (negsuc 0) w s)))
    else (freed, add_free (pos 1) w (clear_slot i s))

-- check for reasons why a slot should not be allocated
unfoldable pub verboten : Queue → ℕ → Bool
verboten q i = i == 29 && not q.q_flags.tok

abbrev pub fresh_player : ℕ → ℕ → Player → Player
fresh_player w i p = record p {
  p_status = outfit;
  p_no = i;
  p_team = nobody;
  p_ghostbuster = 0;
  p_flags = no_flags;
  w_queue = w;
  p_pos = none;
  p_process = 0;
}

-- The status is tested again under the lock: with no other process in between the outcome is the same.
unfoldable pub is_pickable : ℕ → ℕ → Slots → Bool
unfolding verboten
is_pickable w i s =
    is_free (s.players i).p_status
    && not (verboten (s.queues w) i)
    && is_free (s.players i).p_status

unfoldable pub take_slot : ℕ → ℕ → Slots → Slots
take_slot w i s =
    let t : Slots = record s {
      players = put s.players i (fresh_player w i (s.players i));
      observers = (if (s.queues w).q_flags.observer then s.observers + 1 else s.observers);
    } in
    add_free (negsuc 0) w t

-- `none` where the source returns 0, which leaves the state as it was.
unfoldable pub pickslot_action : ℕ → ℕ → Slots → Option Slots
pickslot_action w i s = if is_pickable w i s then some (take_slot w i s) else none

-- for (i = start; i < start + n; i++) if ((*action)(w_queue, i)) return i;
unfoldable pub scan_slots : (ℕ → Slots → Option Slots) → (n start : ℕ) → Slots → Option (ℕ × Slots)
scan_slots action zero start s = none
scan_slots action (suc n) start s =
    let rest = scan_slots action n (start + 1) s in
    elim (action start s) [ none ↦ rest | some t ↦ some (start, t) ]

abbrev pub or_else : Option (ℕ × Slots) → Option (ℕ × Slots) → Option (ℕ × Slots)
or_else none r = r
or_else (some x) r = some x

unfoldable pub scanqueue : ℕ → (ℕ → Slots → Option Slots) → Slots → Option (ℕ × Slots)
unfolding scan_slots
scanqueue w action s =
    let q = s.queues w in
    let preferred : Option (ℕ × Slots) =
      if q.prefer == 0 then none else scan_slots action (q.high_slot - q.prefer) q.prefer s in
    or_else preferred (scan_slots action (q.high_slot - q.low_slot) q.low_slot s)

-- What `pickslot` returns: a slot, -1 or -2.
pub data Picked : Type 0 where
  slot : ℕ → Picked
  no_slot closed : Picked

abbrev pub set_sem : ℕ → ℤ → Slots → Slots
set_sem w n s = record s { queues = put s.queues w (record (s.queues w) { enter_sem = n }) }

-- The semaphore is given back, with what the scan found.
unfoldable pub finish_pick : ℕ → Slots → Option (ℕ × Slots) → Picked × Slots
finish_pick w s none = (no_slot, set_sem w (pos 1) s)
finish_pick w s (some (i, t)) = (slot i, set_sem w (pos 1) t)

-- Where `pickslot` stops before it scans: the queue is closed, another process holds the
-- semaphore, or the queue has no slot left.
pub data Entry : Type 0 where
  shut_out busy full entered : Entry

unfoldable pub entry_of : Queue → Entry
entry_of q =
    if not q.q_flags.is_open
    then shut_out
    else if ltb_ℤ q.enter_sem (pos 1)
    then busy
    else if leb_ℤ q.free_slots (pos 0)
    then full
    else entered

abbrev pub lower_sem : ℕ → Slots → Slots
lower_sem w s = set_sem w ((s.queues w).enter_sem -ℤ pos 1) s

unfoldable pub pick_by : Entry → ℕ → Slots → Picked × Slots
unfolding finish_pick scanqueue
pick_by shut_out w s = (closed, s)
pick_by busy w s = (no_slot, lower_sem w s)
pick_by full w s = (no_slot, set_sem w (pos 1) (lower_sem w s))
pick_by entered w s = let t = lower_sem w s in finish_pick w t (scanqueue w (pickslot_action w) t)

-- Pick and allocate an empty slot.
unfoldable pub pickslot : ℕ → Slots → Picked × Slots
unfolding entry_of pick_by
pickslot w s = pick_by (entry_of (s.queues w)) w s

-- return a count of slots open for use in a given queue
unfoldable pub slots_free : ℕ → Slots → ℕ
slots_free w s =
    let q = s.queues w in
    count (q.high_slot - q.low_slot) q.low_slot (λ i. is_free (s.players i).p_status)

-- `is_robot` of ntserv/util.c; `by_host` is its comparison of the player's address with that of the
-- host of robots, for the servers that are set to make it.
unfoldable pub is_robot : (Player → Bool) → Player → Bool
is_robot by_host p = p.p_flags.bprobot || by_host p || p.p_flags.robot

unfoldable pub is_playing : (Player → Bool) → ℕ → Bool → Player → Bool
unfolding is_robot
is_playing by_host w showempty p =
    not (is_free p.p_status)
    && not (is_robot by_host p)
    && p.w_queue == w
    && (not (same p.p_team all_teams) || showempty)

-- Return a count of slots playing in a given queue.
unfoldable pub slots_playing : (Player → Bool) → ℕ → Bool → Slots → ℕ
unfolding is_playing
slots_playing by_host w showempty s =
    let q = s.queues w in
    count (q.high_slot - q.low_slot) q.low_slot (λ i. is_playing by_host w showempty (s.players i))
