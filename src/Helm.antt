-- ===== src/Helm.antt =====
-- The commands of ntserv/interface.c that concern the ship alone: speed, course, shields, repair
-- and cloak. The packet's speed is any integer; its course is a byte.
use netrek_server.Base.{ℕ, ◌+◌, true, false, not, ◌&&◌, ℤ, pos, ltb_ℤ, if◌then◌else◌, ◌==◌}
use netrek_server.Game.{
  Client, Reply, accepted, ignored, refused, mine, set_mine, my_flags, on_players, is_off,
  is_moving,
}
use netrek_server.Bay.{bay_release}

-- What the source's first tests make of the speed: one above the ship's maximum stays as it is.
unfoldable pub wanted_speed : ℤ → ℤ
wanted_speed speed = if ltb_ℤ speed (pos 0) then pos 0 else speed

unfoldable pub set_speed : ℤ → Client → Client × Reply
unfolding wanted_speed bay_release
set_speed speed c =
    if not (is_off (mine c).p_inl_draft)
    then (c, ignored)
    else (let ordered = set_mine (record (mine c) { p_desspeed = wanted_speed speed }) c in
        let freed = on_players (bay_release c.me) ordered in
        let done =
          my_flags
            (λ f. record f {
              repair = false;
              bomb = false;
              orbit = false;
              beamup = false;
              beamdown = false;
            })
            freed in
        (
          record done { counters = record (c.counters) { set_speed = c.counters.set_speed + 1 } },
          accepted,
        ))

unfoldable pub set_course : ℕ → Client → Client × Reply
unfolding bay_release
set_course dir c =
    if is_moving (mine c).p_inl_draft
    then (c, ignored)
    else (let ordered = set_mine (record (mine c) { p_desdir = dir }) c in
        let freed = on_players (bay_release c.me) ordered in
        let done =
          my_flags (λ f. record f { bomb = false; orbit = false; beamup = false; beamdown = false })
            freed in
        (
          record done { counters = record (c.counters) { set_course = c.counters.set_course + 1 } },
          accepted,
        ))

unfoldable pub shield_up : Client → Client × Reply
shield_up c =
    let done =
      my_flags
        (λ f. record f {
          shield = true;
          bomb = false;
          repair = false;
          beamup = false;
          beamdown = false;
        })
        c in
    (
      record done { counters = record (c.counters) { shield_up = c.counters.shield_up + 1 } },
      accepted,
    )

unfoldable pub shield_down : Client → Client × Reply
shield_down c =
    let done = my_flags (λ f. record f { shield = false }) c in
    (
      record done { counters = record (c.counters) { shield_down = c.counters.shield_down + 1 } },
      accepted,
    )

unfoldable pub repair : Client → Client × Reply
repair c =
    let p = mine c in
    if p.p_flags.eng && not (p.p_speed == 0)
    then (c, refused (ℤ.negsuc 0))
    else (let done =
          set_mine
            (record p {
              p_desspeed = pos 0;
              p_flags = record (p.p_flags) {
                repair = true;
                shield = false;
                bomb = false;
                beamup = false;
                beamdown = false;
                plock = false;
                pllock = false;
              };
            })
            c in
        (
          record done { counters = record (c.counters) { repaired = c.counters.repaired + 1 } },
          accepted,
        ))

unfoldable pub repair_off : Client → Client × Reply
repair_off c = (my_flags (λ f. record f { repair = false }) c, accepted)

unfoldable pub cloak : Client → Client × Reply
cloak c =
    (my_flags (λ f. record f { cloak = not f.cloak; tract = false; press = false }) c, accepted)

unfoldable pub cloak_on : Client → Client × Reply
cloak_on c =
    if not (is_off (mine c).p_inl_draft)
    then (c, ignored)
    else (my_flags (λ f. record f { cloak = true; tract = false; press = false }) c, accepted)

unfoldable pub cloak_off : Client → Client × Reply
cloak_off c = (my_flags (λ f. record f { cloak = false }) c, accepted)
