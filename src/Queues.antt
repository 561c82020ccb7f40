-- ===== src/Queues.antt =====
-- The queues and the entries of waiting clients: `struct pqueue` and `struct queuewait` of
-- include/struct.h, and `queues_init` of ntserv/queue.c. An index that the source marks absent by -1
-- is an Option. The name of a queue and the address of a client are text that nothing here reads.
use netrek_server.Base.{ℕ, ◌-◌, ◌/◌, Bool, true, false, Option, none, ℤ, pos, ◌==◌, if◌then◌else◌}
use netrek_server.Game.{Teams, fed, rom, nobody, all_teams, only, max_player}

abbrev pub max_waiting : ℕ
max_waiting = 32

abbrev pub max_queue : ℕ
max_queue = 14

abbrev testers : ℕ
testers = max_player - 16

-- (u_int) -1
abbrev pub no_count : ℕ
no_count = 4294967295

-- bits of `q_flags`
pub record QueueFlags : Type 0 where
  pub is_open : Bool
  pub observer : Bool
  pub restrict : Bool
  pub report : Bool
  pub tok : Bool

pub record Queue : Type 0 where
  pub enter_sem : ℤ
  pub free_slots : ℤ
  pub max_slots : ℤ
  pub tournmask : Teams
  pub low_slot : ℕ
  pub high_slot : ℕ
  pub prefer : ℕ
  pub first : Option ℕ
  pub last : Option ℕ
  pub count : ℕ
  pub q_flags : QueueFlags

pub record Wait : Type 0 where
  pub mynum : ℕ
  pub inuse : Bool
  pub previous : Option ℕ
  pub next : Option ℕ
  pub count : ℕ
  pub w_queue : Option ℕ
  pub process : ℕ

pub record Waits : Type 0 where
  pub queues : ℕ → Queue
  pub waiting : ℕ → Wait

abbrev pub shut : QueueFlags
shut = record { is_open = false; observer = false; restrict = false; report = false; tok = false }

abbrev idle_queue : Queue
idle_queue = record {
  enter_sem = pos 1;
  free_slots = pos 0;
  max_slots = pos 0;
  tournmask = nobody;
  low_slot = 0;
  prefer = 0;
  high_slot = 0;
  first = none;
  last = none;
  count = 0;
  q_flags = shut;
}

abbrev idle_wait : ℕ → Wait
idle_wait i = record {
  mynum = i;
  inuse = false;
  previous = none;
  next = none;
  count = no_count;
  w_queue = none;
  process = 0;
}

-- The queues that `queues_init` sets up, one `queues[QU_...]` block each.

abbrev pickup : Queue
pickup = record idle_queue {
  free_slots = pos (max_player - testers);
  max_slots = pos (max_player - testers);
  tournmask = all_teams;
  low_slot = 0;
  high_slot = max_player - testers;
  q_flags = record shut { is_open = true; restrict = true; report = true };
}

abbrev robot : Queue
robot = record idle_queue {
  free_slots = pos testers;
  max_slots = pos testers;
  tournmask = all_teams;
  low_slot = max_player - testers;
  high_slot = max_player;
  q_flags = record shut { is_open = true };
}

abbrev home : Queue
home = record idle_queue {
  free_slots = pos 0;
  max_slots = pos ((max_player - testers) / 2);
  tournmask = only fed;
  low_slot = 0;
  prefer = 0;
  high_slot = max_player - testers;
  q_flags = record shut { report = true };
}

abbrev away : Queue
away = record idle_queue {
  free_slots = pos 0;
  max_slots = pos ((max_player - testers) / 2);
  tournmask = only rom;
  low_slot = 0;
  prefer = 8;
  high_slot = max_player - testers;
  q_flags = record shut { report = true };
}

abbrev home_obs : Queue
home_obs = record idle_queue {
  free_slots = pos 0;
  max_slots = pos (testers / 2);
  tournmask = only fed;
  low_slot = max_player - testers;
  high_slot = max_player - testers / 2;
  q_flags = record shut { observer = true; report = true };
}

abbrev away_obs : Queue
away_obs = record idle_queue {
  free_slots = pos 0;
  max_slots = pos (testers / 2);
  tournmask = only rom;
  low_slot = max_player - testers / 2;
  high_slot = max_player;
  q_flags = record shut { observer = true; report = true };
}

abbrev pickup_obs : Queue
pickup_obs = record idle_queue {
  free_slots = pos (testers - 1);
  max_slots = pos (testers - 1);
  tournmask = all_teams;
  low_slot = max_player - testers;
  high_slot = max_player - 1;
  q_flags = record shut { is_open = true; restrict = true; observer = true; report = true };
}

abbrev god : Queue
god = record idle_queue {
  free_slots = pos max_player;
  max_slots = pos max_player;
  tournmask = all_teams;
  low_slot = 0;
  high_slot = max_player;
  q_flags = record shut { is_open = true };
}

abbrev pub god_obs : Queue
god_obs = record idle_queue {
  free_slots = pos 1;
  max_slots = pos 1;
  tournmask = all_teams;
  low_slot = 29;
  high_slot = 29;
  q_flags = record shut { is_open = true; observer = true; tok = true };
}

abbrev pret_dmn : Queue
pret_dmn = record idle_queue {
  free_slots = pos 1;
  max_slots = pos 1;
  tournmask = all_teams;
  low_slot = max_player - 1;
  high_slot = max_player;
  q_flags = record shut { is_open = true };
}

abbrev initial_queue : ℕ → Queue
initial_queue i =
    if i == 0
    then pickup
    else if i == 1
    then robot
    else if i == 2
    then home
    else if i == 3
    then away
    else if i == 4
    then home_obs
    else if i == 5
    then away_obs
    else if i == 6
    then pickup_obs
    else if i == 7
    then god
    else if i == 8
    then god_obs
    else if i == 13
    then pret_dmn
    else idle_queue

abbrev pub qu_god_obs : ℕ
qu_god_obs = 8

unfoldable pub queues_init : Waits
queues_init = record { queues = initial_queue; waiting = idle_wait }
