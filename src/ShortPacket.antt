-- ===== src/ShortPacket.antt =====
-- Packed updates to clients with short packets, ntserv/genspkt.c: the kills of SP_S_KILLS
-- (`addVKills`, `sndKills`) and the 9-bit coordinates of a player's own torpedoes in SP_S_TORP
-- (`SupdateTorps`). Which torpedoes are sent is left out.
pub mod Bits
pub mod RoundTrip
use Prim.Native.Nat.{bit_or}
use netrek_server.Base.{
  ℕ, zero, suc, ◌+◌, ◌-◌, ◌*◌, ◌/◌, ◌%◌, ◌^◌, Bool, true, false, not, ◌&&◌, ◌||◌, ltb, leb, ◌==◌,
  if◌then◌else◌, List, [], ◌∷◌, map,
}

-- Galactic units in a pixel, and pixels in the window.
abbrev pub scale : ℕ
scale = 40

abbrev pub winside : ℕ
winside = 500

-- `int view = SCALE * WINSIDE / 2`
abbrev pub view : ℕ
view = scale * winside / 2

-- dx > view || dx < -view, for dx = t - me
abbrev out_of_view : ℕ → ℕ → Bool
out_of_view t me = ltb (me + view) t || ltb (t + view) me

-- t / SCALE - me / SCALE + WINSIDE / 2, which is not negative in view
unfoldable pub view_coord : ℕ → ℕ → ℕ
view_coord t me = t / scale + winside / 2 - me / scale

pub record Point : Type 0 where
  pub x : ℕ
  pub y : ℕ

-- The coordinates that are sent: those of a torpedo out of view are clipped to 501.
unfoldable pub own_torp : Point → Point → Point
unfolding view_coord
own_torp me t =
    if out_of_view t.x me.x || out_of_view t.y me.y
    then record { x = 501; y = 501 }
    else record { x = view_coord t.x me.x; y = view_coord t.y me.y }

-- The bytes from `*torp_xy` on, which holds `low` when the next pair is written at `shift`.
unfoldable pub pack_coords : ℕ → ℕ → List Point → List ℕ
pack_coords shift low [] = low ∷ []
pack_coords shift low (p ∷ ps) =
    let dx = p.x * 2 ^ shift in
    let dy = p.y * 2 ^ (shift + 1) in
    let full = dy / 256 % 256 ∷ pack_coords 0 0 ps in
    let more = pack_coords (shift + 2) (dy / 256 % 256) ps in
    bit_or low (dx % 256)
    ∷ bit_or (dx / 256 % 256) (dy % 256)
    ∷ (if shift + 2 == 8 then full else more)

-- The two bytes of one entry of SP_S_KILLS: ten bits of kills in hundredths, six of the number.
unfoldable pub vkills_word : ℕ → ℕ → ℕ
vkills_word kills pnum = bit_or (kills % 65536) (pnum * 1024 % 65536)

unfoldable pub add_vkills : ℕ → ℕ → List ℕ
unfolding vkills_word
add_vkills kills pnum = vkills_word kills pnum % 256 ∷ vkills_word kills pnum / 256 % 256 ∷ []

-- `sndKills` packs an entry only where this holds.
abbrev pub fits_vkills : Bool → ℕ → ℕ → Bool
fits_vkills short2 kills pnum = short2 && ltb kills 1001 && ltb pnum 64
