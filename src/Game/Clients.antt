-- ===== src/Game/Clients.antt =====
-- One server process (ntserv): the slot that it plays, its statics, and the shared memory that it
-- sees; and what a command answers. The `has_*` counters count accepted commands.
use netrek_server.Base.{ℕ, ℤ, Bool}
use netrek_server.Game.Slots.{Player, Flags}
use netrek_server.Game.World.{Game, set_player}

pub record Counters : Type 0 where
  pub set_speed : ℕ
  pub set_course : ℕ
  pub shield_up : ℕ
  pub shield_down : ℕ
  pub bombed : ℕ
  pub beamed_up : ℕ
  pub beamed_down : ℕ
  pub repaired : ℕ

pub record Client : Type 0 where
  pub me : ℕ
  pub game : Game
  -- `delay` and `rdelay`: the update at which a war or refit pause ends
  pub delay : ℕ
  pub rdelay : ℕ
  -- the static of `bomb_planet`
  pub bombs_out_of_tmode : ℕ
  pub is_observer : Bool
  pub counters : Counters

-- How a command ends: carried out, refused with the warning of this number (UNDEF is -1), or
-- returned from with no word to the player.
pub data Reply : Type 0 where
  accepted ignored : Reply
  refused : ℤ → Reply

-- `me`
abbrev pub mine : Client → Player
mine c = c.game.players c.me

-- `*me = p`
abbrev pub set_mine : Player → Client → Client
set_mine p c = record c { game = set_player c.me p c.game }

-- `me->p_flags` through `f`
abbrev pub my_flags : (Flags → Flags) → Client → Client
my_flags f c = let p = c.game.players c.me in set_mine (record p { p_flags = f p.p_flags }) c

-- the array of players of the shared memory through `f`, as a function of ntserv/bay.c changes it
abbrev pub on_players : ((ℕ → Player) → ℕ → Player) → Client → Client
on_players f c = record c { game = record (c.game) { players = f c.game.players } }
