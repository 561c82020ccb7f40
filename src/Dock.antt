-- ===== src/Dock.antt =====
-- Docking and orbiting: ntserv/orbit.c. The sine table and `to_dir` are floating point and enter as
-- a parameter.
pub mod Refusals
pub mod Berths
use netrek_server.Base.{
  ℕ, zero, suc, ◌+◌, ◌*◌, ◌/◌, ◌%◌, Bool, true, false, not, ◌&&◌, ◌||◌, Option, none, some, ℤ, pos,
  ◌-ℤ◌, abs_ℤ, ltb, ◌==◌, find, if◌then◌else◌, put,
}
use netrek_server.Game.{
  Player, Planet, Flags, Client, Reply, accepted, ignored, refused, mine, set_mine, my_flags,
  on_players, is_starbase, is_alive, is_off, meets, join, max_player, max_planets, set_planet,
}
use netrek_server.Torp.{spi}
use netrek_server.Bay.{Players, bay_closest, bay_claim}

abbrev pub dock_dist : ℕ
dock_dist = 600

abbrev pub ent_orb_dist : ℕ
ent_orb_dist = 900

abbrev pub orb_dist : ℕ
orb_dist = 800

abbrev pub orb_speed : ℕ
orb_speed = 2

-- `x + r * Cos[d]`, `y + r * Sin[d]` as integers, and `to_dir`.
pub record Trig : Type 0 where
  pub cos_from : ℤ → ℕ → ℕ → ℤ
  pub sin_from : ℤ → ℕ → ℕ → ℤ
  pub to_dir : ℤ → ℤ → ℤ → ℤ → ℕ

pub data Refusal : Type 0 where
  hostile no_permission base_to_base closed bays_full : Refusal

pub data DockResult : Type 0 where
  no_base success : DockResult
  failure : Refusal → DockResult

-- The three tests of range, `dx` and `dy` first on their own.
unfoldable pub within : ℕ → ℤ → ℤ → Bool
within r dx dy =
    not (ltb r (abs_ℤ dx))
    && not (ltb r (abs_ℤ dy))
    && not (ltb (r * r) (abs_ℤ dx * abs_ℤ dx + abs_ℤ dy * abs_ℤ dy))

-- `friendlyPlayer(p)`
unfoldable pub friendly : Player → Player → Bool
friendly me p = not (meets me.p_team p.p_swar) && not (meets p.p_team me.p_war)

-- The delay that a ship which was transwarping in is put under.
unfoldable pub end_twarp : Client → Client
end_twarp c =
    if (mine c).p_flags.twarp
    then record (my_flags (λ f. record f { twarp = false; refitting = true }) c) {
      rdelay = (mine c).p_updates + 50;
    }
    else c

unfoldable pub de_lock : Client → Client
unfolding end_twarp
de_lock c =
    end_twarp
      (my_flags (λ f. record f { plock = false; pllock = false; tract = false; press = false }) c)

-- The ship's own structure at a successful dock; `dir` is the direction from the base.
unfoldable pub berth : Trig → Player → ℕ → Player → Player
unfolding spi
berth trig base dir p = record p {
  p_flags = record (p.p_flags) {
    plock = false;
    pllock = false;
    tract = false;
    press = false;
    dock = true;
  };
  p_dir = (64 + dir) % 256;
  p_desdir = (64 + dir) % 256;
  p_x = trig.cos_from base.p_x dock_dist dir;
  p_y = trig.sin_from base.p_y dock_dist dir;
  p_x_internal = spi (trig.cos_from base.p_x dock_dist dir);
  p_y_internal = spi (trig.sin_from base.p_y dock_dist dir);
  p_speed = 0;
  p_desspeed = pos 0;
}

-- The two structures are adjusted to the ship's place in bay `k`.
unfoldable pub take_bay : Trig → ℕ → ℕ → Client → Client
unfolding berth
take_bay trig b k c =
    let dir = (k * 90 + 45) * 256 / 360 in
    on_players (bay_claim b c.me k)
      (end_twarp (set_mine (berth trig (c.game.players b) dir (mine c)) c))

-- From the search for a bay on.
unfoldable pub moor_at : Trig → ℕ → Client → DockResult × Client
moor_at trig b c =
    let dx = (c.game.players b).p_x -ℤ (mine c).p_x in
    let dy = (c.game.players b).p_y -ℤ (mine c).p_y in
    let found = bay_closest b dx dy c.game.players in
    let checked = on_players (λ _. found.1) c in
    elim found.0 [
      | none ↦ (failure bays_full, de_lock checked)
      | some k ↦ (success, take_bay trig b k checked)
    ]

-- The tests before the search for a bay, in order: the base is too far off, or refuses, or none.
pub data Verdict : Type 0 where
  far clear : Verdict
  refuse : Refusal → Verdict

unfoldable pub dock_verdict : ℕ → Client → Verdict
dock_verdict b c =
    let base = c.game.players b in
    let p = mine c in
    if not (within dock_dist (base.p_x -ℤ p.p_x) (base.p_y -ℤ p.p_y))
    then far
    else if not (friendly p base)
    then refuse hostile
    else if not p.p_candock
    then refuse no_permission
    else if is_starbase p.p_ship.s_type && not c.game.config.chaosmode
    then refuse base_to_base
    else if not base.p_flags.dockok
    then refuse closed
    else clear

unfoldable pub dock_by : Trig → ℕ → Verdict → Client → DockResult × Client
dock_by trig b far c = (no_base, c)
dock_by trig b (refuse r) c = (failure r, de_lock c)
dock_by trig b clear c = moor_at trig b c

unfoldable pub dock : Trig → ℕ → Client → DockResult × Client
unfolding dock_by
dock trig b c = dock_by trig b (dock_verdict b c) c

-- What player `j` does to this ship: no beam, a base's beam, or another's.
pub data Beam : Type 0 where
  no_beam base_beam ship_beam : Beam

unfoldable pub beam_of : ℕ → Client → Beam
beam_of j c =
    let other = c.game.players j in
    if is_alive other.p_status && other.p_flags.tract && other.p_tractor == (mine c).p_no
    then (if is_starbase other.p_ship.s_type then base_beam else ship_beam)
    else no_beam

-- One round of the loop over the players who hold this ship in a beam; `none` is its early return:
-- a beam that is not a base's, or a second one.
unfoldable pub held_round :
    Beam
    → ℕ
    → Option ℕ
    → Client
    → (Option ℕ → Client → Option (Option ℕ) × Client)
    → Option (Option ℕ) × Client
held_round no_beam j holder c next = next holder c
held_round base_beam j none c next =
    next (some j) (my_flags (λ f. record f { dock = false; orbit = false }) c)
held_round base_beam j (some _) c next = (none, c)
held_round ship_beam j holder c next = (none, c)

unfoldable pub held_by : ℕ → ℕ → Option ℕ → Client → Option (Option ℕ) × Client
unfolding held_round beam_of
held_by zero j holder c = (some holder, c)
held_by (suc n) j holder c = held_round (beam_of j c) j holder c (held_by n (j + 1))

-- A live base other than this ship.
unfoldable pub is_other_base : ℕ → Client → Bool
is_other_base j c =
    let other = c.game.players j in
    not (j == c.me) && is_starbase other.p_ship.s_type && is_alive other.p_status

-- One round of the loop over the bases: what docking came to, and what the later rounds come to.
unfoldable pub dock_round : Bool → DockResult → Client → Option Client → Option Client
dock_round true success c' rest = some c'
dock_round true (failure r) c' rest = some c'
dock_round _ _ c' rest = rest

-- The loop; `none` when no base is in range.
unfoldable pub dock_any : Trig → ℕ → ℕ → Client → Option Client
unfolding is_other_base dock_round
dock_any trig zero j c = none
dock_any trig (suc n) j c =
    dock_round (is_other_base j c) (dock trig j c).0 (dock trig j c).1 (dock_any trig n (j + 1) c)

-- A planet in range: the ship goes into orbit, and its team has now touched the planet.
unfoldable pub orbit_planet : Trig → ℕ → Client → Client
unfolding spi
orbit_planet trig i c =
    let l = c.game.planets i in
    let p = mine c in
    let dir = trig.to_dir l.pl_x l.pl_y p.p_x p.p_y in
    let seen =
      if meets l.pl_info p.p_team then l else record l { pl_info = join l.pl_info p.p_team } in
    set_mine
      (record p {
        p_flags = record (p.p_flags) {
          plock = false;
          pllock = false;
          tract = false;
          press = false;
          orbit = true;
        };
        p_dir = (dir + 64) % 256;
        p_desdir = (dir + 64) % 256;
        p_x = trig.cos_from l.pl_x orb_dist dir;
        p_y = trig.sin_from l.pl_y orb_dist dir;
        p_x_internal = spi (trig.cos_from l.pl_x orb_dist dir);
        p_y_internal = spi (trig.sin_from l.pl_y orb_dist dir);
        p_speed = 0;
        p_desspeed = pos 0;
        p_planet = l.pl_no;
      })
      (record c { game = set_planet i seen c.game })

unfoldable pub in_orbit_range : Client → ℕ → Bool
unfolding within
in_orbit_range c i =
    let l = c.game.planets i in
    within ent_orb_dist (l.pl_x -ℤ (mine c).p_x) (l.pl_y -ℤ (mine c).p_y)

-- `sborbit` is the setting that lets bases orbit foreign planets.
unfoldable pub may_orbit : Bool → Client → ℕ → Bool
may_orbit sborbit c i =
    sborbit
    || not (is_starbase (mine c).p_ship.s_type)
    || meets (mine c).p_team (c.game.planets i).pl_owner

unfoldable pub orbit_if : Bool → Trig → ℕ → Client → Client × Reply
orbit_if true trig i c = (orbit_planet trig i c, accepted)
orbit_if false trig i c = (c, refused (pos 80))

unfoldable pub find_orbit : Trig → Bool → Client → Client × Reply
find_orbit trig sborbit c = elim (find max_planets 0 (in_orbit_range c)) [
  | none ↦ (c, refused (pos 81))
  | some i ↦ orbit_if (may_orbit sborbit c i) trig i c
]

-- No beam holds the ship: bases are tried first, then planets.
unfoldable pub seek_base : Trig → Bool → Bool → Client → Client × Reply
seek_base trig sborbit true c = elim (dock_any trig max_player 0 c) [
  | some c' ↦ (c', accepted)
  | none ↦ find_orbit trig sborbit c
]
seek_base trig sborbit false c = find_orbit trig sborbit c

unfoldable pub orbit_free : Trig → Bool → Bool → Client → Client × Reply
unfolding seek_base
orbit_free trig sborbit true c = (c, ignored)
orbit_free trig sborbit false c =
    seek_base trig sborbit (not (is_starbase (mine c).p_ship.s_type) || c.game.config.chaosmode) c

-- After the loop over the beams.
unfoldable pub orbit_held : Trig → Bool → Option (Option ℕ) → Client → Client × Reply
unfolding orbit_free
orbit_held trig sborbit none c = (c, ignored)
orbit_held trig sborbit (some none) c =
    orbit_free trig sborbit ((mine c).p_flags.dock || (mine c).p_flags.orbit) c
orbit_held trig sborbit (some (some j)) c = ((dock trig j c).1, accepted)

unfoldable pub orbit_within : Trig → Bool → Bool → Client → Client × Reply
unfolding orbit_held
orbit_within trig sborbit true c =
    let (held, c') = held_by max_player 0 none c in orbit_held trig sborbit held c'
orbit_within trig sborbit false c = (c, refused (pos 79))

unfoldable pub orbit : Trig → Bool → Client → Client × Reply
unfolding orbit_within
orbit trig sborbit c =
    if not (is_off (mine c).p_inl_draft)
    then (c, ignored)
    else orbit_within trig sborbit (not (ltb orb_speed (mine c).p_speed)) c
