-- ===== src/Game.antt =====
-- The shared memory segment of include/struct.h: players, ships, planets, torpedoes and the
-- status block, as the server processes and the daemon see them, with the bounds of
-- include/defs.h. One child for each group of types.
mod Masks
mod Ships
mod Slots
mod World
mod Clients
unfoldable pub use Masks.*
pub use Ships.*
pub use Slots.*
unfoldable pub use World.*
pub use Clients.*
