-- ===== src/WaitQueue.antt =====
-- The wait queues: the functions of ntserv/queue.c after `queues_init`.
pub mod Line
pub mod Renumber
pub mod Append
pub mod Enter
pub mod Entered
pub mod Remove
pub mod Unlink
pub mod Exit
use netrek_server.Base.{
  ℕ, zero, suc, ◌+◌, ◌-◌, ◌/◌, ◌%◌, Bool, true, false, not, ◌&&◌, ◌||◌, Option, none, some, ℤ, pos,
  ◌==◌, ltb, ltb_ℤ, if◌then◌else◌, put, find,
}
use netrek_server.Game.{Teams, fed, rom, nobody, all_teams, only, max_player}
use netrek_server.Queues.{
  max_waiting, max_queue, no_count, QueueFlags, Queue, Wait, Waits, shut, god_obs, qu_god_obs,
  queues_init,
}

-- How a client leaves or joins the chain: the neighbours' links, and the ends of the queue.
abbrev pub set_next : Option ℕ → Option ℕ → (ℕ → Wait) → ℕ → Wait
set_next none v ws = ws
set_next (some j) v ws = put ws j (record (ws j) { next = v })

abbrev pub set_previous : Option ℕ → Option ℕ → (ℕ → Wait) → ℕ → Wait
set_previous none v ws = ws
set_previous (some j) v ws = put ws j (record (ws j) { previous = v })

-- `lwait` once it is in use: in an empty queue its `previous` is left as it is.
unfoldable pub joined : ℕ → ℕ → Queue → Wait → Wait
joined pid w q l =
    let m : Wait = record l {
      inuse = true;
      next = none;
      count = q.count;
      process = pid;
      w_queue = some w;
    } in
    elim q.first [ none ↦ m | some _ ↦ record m { previous = q.last } ]

unfoldable pub joined_queue : ℕ → Queue → Queue
joined_queue i q =
    let r : Queue = record q { last = some i; count = (q.count + 1) % 4294967296 } in
    elim q.first [ none ↦ record r { first = some i } | some _ ↦ r ]

-- The rest of `queue_add` once a free entry is found.
unfoldable pub enter : ℕ → ℕ → ℕ → Waits → Waits
enter pid w i s =
    let q : Queue = s.queues w in
    let linked : ℕ → Wait = elim q.first [
      | none ↦ s.waiting
      | some _ ↦ set_next q.last (some i) s.waiting
    ] in
    record {
      queues = put s.queues w (joined_queue i q);
      waiting = put linked i (joined pid w q (linked i));
    }

unfoldable pub add_at : ℕ → ℕ → Option ℕ → Waits → Option ℕ × Waits
add_at pid w none s = (none, s)
add_at pid w (some i) s = (some i, enter pid w i s)

-- `pid` is the process of the client; `none` where the source returns -1.
unfoldable pub queue_add : ℕ → ℕ → Waits → Option ℕ × Waits
unfolding add_at
queue_add pid w s =
    if (s.queues w).q_flags.is_open
    then add_at pid w (find max_waiting 0 (λ i. not (s.waiting i).inuse)) s
    else (none, s)

-- The loop of `queue_update`; `n` is what is left of MAXWAITING, at which the loop stops.
unfoldable pub renumber : (n lcount : ℕ) → Option ℕ → (ℕ → Wait) → ℕ × (ℕ → Wait)
renumber n lcount none ws = (lcount, ws)
renumber zero lcount (some i) ws = (lcount, ws)
renumber (suc n) lcount (some i) ws =
    let rest = renumber n (lcount + 1) (ws i).next (put ws i (record (ws i) { count = lcount })) in
    if (ws i).inuse && not ((ws i).process == 0) then rest else (lcount, ws)

unfoldable pub counted : ℕ → ℕ × (ℕ → Wait) → Waits → Waits
counted w r s = record {
  queues = put s.queues w (record (s.queues w) { count = r.0 });
  waiting = r.1;
}

unfoldable pub queue_update : ℕ → Waits → Waits
unfolding counted
queue_update w s =
    if ltb w max_queue then counted w (renumber max_waiting 0 (s.queues w).first s.waiting) s else s

-- An entry's links taken out of the chain, and the entry cleared.
unfoldable pub unlink : ℕ → (ℕ → Wait) → ℕ → Wait
unlink i ws =
    let out = set_previous (ws i).next (ws i).previous (set_next (ws i).previous (ws i).next ws) in
    put out i (record (out i) {
      previous = none;
      next = none;
      count = no_count;
      w_queue = none;
      process = 0;
      inuse = false;
    })

unfoldable pub shorten : Wait → Queue → Queue
shorten l q = record q {
  first = elim l.previous [ none ↦ l.next | some _ ↦ q.first ];
  last = elim l.next [ none ↦ l.previous | some _ ↦ q.last ];
}

-- `w` is the queue that the entry says it is in; `false` where the source returns 0, as no such
-- queue is valid.
unfoldable pub exit_from : Option ℕ → ℕ → Waits → Bool × Waits
exit_from none i s = (false, s)
exit_from (some w) i s =
    if ltb w max_queue
    then (
      true,
      queue_update w (record {
        queues = put s.queues w (shorten (s.waiting i) (s.queues w));
        waiting = unlink i s.waiting;
      }),
    )
    else (false, s)

unfoldable pub queue_exit : ℕ → Waits → Bool × Waits
unfolding exit_from
queue_exit i s = exit_from (s.waiting i).w_queue i s

-- The loop over one queue in `queues_purge`. `alive` is what `kill(process, 0)` says of a process;
-- `room` is what is left of MAXWAITING in `killcount`. The source goes round again with the same entry
-- when the entry is not in use or has no process, which only uses `room` up. `false`: the source
-- returns 0 from the whole function.
unfoldable pub purge_line : (ℕ → Bool) → (room : ℕ) → Option ℕ → Waits → Bool × ℕ × Waits
purge_line alive room none s = (true, room, s)
purge_line alive zero (some i) s = (false, zero, s)
purge_line alive (suc room) (some i) s =
    let l = s.waiting i in
    let again = purge_line alive room (some i) s in
    let kept = purge_line alive room l.next s in
    let removed = purge_line alive room l.next (queue_exit l.mynum s).1 in
    if not l.inuse || l.process == 0 then again else if alive l.process then kept else removed

unfoldable pub reduce_slots : ℕ → Waits → Waits
reduce_slots w s =
    let q = s.queues w in
    if ltb_ℤ q.max_slots q.free_slots
    then record s { queues = put s.queues w (record q { free_slots = q.max_slots }) }
    else s

-- The loop over the queues; `n` of them are left, from `w` on.
unfoldable pub purge_from : (ℕ → Bool) → (n w room : ℕ) → Waits → Bool × Waits
purge_from alive zero w room s = (true, s)
purge_from alive (suc n) w room s =
    let r = purge_line alive room (s.queues w).first s in
    let rest = purge_from alive n (w + 1) r.1 (reduce_slots w r.2) in
    if r.0 then rest else (false, r.2)

unfoldable pub queues_purge : (ℕ → Bool) → Waits → Bool × Waits
queues_purge alive s = purge_from alive max_queue 0 max_waiting s
