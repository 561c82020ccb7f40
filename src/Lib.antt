-- ===== src/Lib.antt =====
-- The Netrek server: the game rules that its player processes (ntserv) and its daemon run on the
-- shared memory.
--
-- The server is one daemon and one ntserv process for each player. All of them map the same shared
-- memory (`struct memory` of include/struct.h): players, planets, torpedoes, queues and the status.
-- An ntserv process reads packets from its client, and calls for each one a command of
-- ntserv/interface.c, ntserv/orbit.c, ntserv/torp.c, ntserv/plasma.c, ntserv/detonate.c or
-- ntserv/coup.c, which tests the state and writes it. Before a client plays it stands in a wait
-- queue (ntserv/queue.c) and is given a player slot (ntserv/slotmaint.c). Ships dock at starbases
-- through ntserv/bay.c. The daemon (ntserv/daemon.c) wakes at each frame and carries out what the
-- commands have only asked for: it moves torpedoes and lets them explode, beams armies, bombs,
-- grows planets, and takes a destroyed ship through its explosion to the next one. The client is
-- told of it in packets (ntserv/genspkt.c).
--
-- Which file models what:
--   Base          tests, arrays as functions, the loop rule, searches and counts, signed integers
--   Game          the shared memory and one process's view of it (include/struct.h, include/defs.h,
--                 ntserv/util.c: realNumShips, team_opposing)
--   Bay           ntserv/bay.c; the agreement of docked ships and bays (Invariant, Berth), the
--                 consistency check, the search for a bay
--   Dock          ntserv/orbit.c: de_lock, dock, orbit
--   Helm          ntserv/interface.c: set_speed, set_course, shields, repair, cloak
--   Task          ntserv/interface.c: bomb_planet, beam_up, beam_down
--   Lock          ntserv/interface.c: lock_planet, lock_player, tractor_player, pressor_player
--   Draft         ntserv/draft.c: inl_draft_select; ntserv/util.c: change_team_quietly
--   War           ntserv/interface.c: declare_war
--   Command       the commands as data, and a session as a list of them; no refit, no phaser
--   Queues        include/struct.h: struct pqueue, struct queuewait; ntserv/queue.c: queues_init
--   WaitQueue     ntserv/queue.c; Line has the abstract view of a queue as a list
--   Slot          ntserv/slotmaint.c
--   Torp          ntserv/torp.c: ntorp; ntserv/plasma.c: nplasmatorp
--   Upkeep        ntserv/daemon.c: the fuel, heat, repair, turning and cloak of living ships
--   Coup          ntserv/coup.c; Restored follows the coup into plfight
--   Detonate      ntserv/detonate.c
--   Populate      ntserv/daemon.c: udplanets, PopPlanet, RandomizePopOrder
--   Conquest      ntserv/daemon.c: checkwin, checkgen, addTroops, p_explosion; `struct team`
--   Beam          ntserv/daemon.c: beam, with every branch of beaming up and down
--   Blast         ntserv/daemon.c: t_explosion, blowup; ntserv/util.c: is_idle
--   Flight        ntserv/daemon.c: udtorps, t_track, t_move, t_check_wall, t_near
--   Drive         ntserv/daemon.c: motion, tractor beams and alert of living ships
--   Alive         ntserv/daemon.c: udplayers_palive, the ghostbuster, self destruction
--   Life          ntserv/daemon.c: the states of players in udplayers, ghostmess
--   Bombard       ntserv/daemon.c: plfight, pldamageplayer
--   ShortPacket   ntserv/genspkt.c: the own torpedoes of SupdateTorps, addVKills
--   Scenario      concrete states; Tests, DaemonTests, TorpTests and MarkTests apply the theorems
--
-- A C function of the source is a function of the same name here, from the state before to the
-- state after; a static or a global that it writes is a field of the state. Numbers that C keeps in
-- an int and that can be negative are signed, the others natural; the widths of int are not
-- modelled, those of u_char (directions, modulo 256) and of the queue's u_int count are. The bits
-- of a flags word are the Bools of a record. An index that the source marks absent by -1 is an
-- Option. The tables of sines, `to_dir`, `random()`, `kill(pid, 0)`, and the costs and speeds of
-- torpedoes and the results of a ship's motion, which the source reckons in floating point, are
-- arguments; so is the table of ship classes, which the server's settings can change.
--
-- Loops over an array run over its length. The loop of `queue_update` runs while MAXWAITING clients
-- have not been counted, which is the source's own test, so it needs no other bound; the loop of
-- `queues_purge` uses up the source's `killcount` in the same way. The daemon's loops call for each
-- player, planet or torpedo one step; a theorem on several updates counts them: forty calls of
-- `udplanets` in a round, and n + 602 updates for a ship with n frames of its explosion left.
--
-- The configuration is the default one of include/config.h.in: LTD_STATS, PRETSERVER and SBFUEL_FIX
-- are defined, STURGEON and NEWBIESERVER are not. Not modelled: the other packets, messages and
-- warnings' text, statistics, phasers, refits, the moves of udships between two updates, the robots
-- that `rescue` forks, what `conquer_begin` does after a conquest, the rest of the daemon, the
-- robots and tools, and what other processes write between two steps of one function (the locks of
-- ntserv/queue.c and ntserv/slotmaint.c are taken to exclude that).
pub mod Base
pub mod Game
pub mod Bay
pub mod Dock
pub mod Helm
pub mod Conquest
pub mod Beam
pub mod Blast
pub mod Flight
pub mod Draft
pub mod Drive
pub mod Alive
pub mod Life
pub mod Bombard
pub mod Coup
pub mod Detonate
pub mod ShortPacket
pub mod Populate
pub mod Task
pub mod Lock
pub mod War
pub mod Queues
pub mod WaitQueue
pub mod Slot
pub mod Torp
pub mod Upkeep
pub mod Command
pub mod Scenario
pub mod Tests
pub mod DaemonTests
pub mod TorpTests
pub mod MarkTests
