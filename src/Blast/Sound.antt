-- ===== src/Blast/Sound.antt =====
-- Ships whose damage reaches their class's limit explode: the explosions of ntserv/daemon.c leave no
-- living ship beyond it.
use netrek_server.Base.{
  ℕ, false, ◌&&◌, ◌≡◌, refl, subst, ◌==◌, if_both, if_cases, put_self, loop_inv, arith,
}
use netrek_server.Game.{Player, Game, set_player, is_alive, max_player, WhyDead}
use netrek_server.Conquest.{p_explosion}
use netrek_server.Torp.{Torp}
use netrek_server.Blast.{
  inflict, killer_credit, Blow, is_destroyed, on_ship, credited, destroyed, take_blow, Physics,
  is_safe, torp_blow, war_started, torp_hits, torp_reaches, t_explosion, ship_blow, is_spared,
  start_war, ship_reaches, blowup,
}

-- A living ship is not destroyed.
abbrev pub Afloat : Player → Type 0
Afloat p = (is_alive p.p_status && is_destroyed p) ≡ false

pub record IsSound (g : Game) : Type 0 where
  pub afloat : (k : ℕ) → Afloat (g.players k)

pub IsSound-set :
    (i : ℕ) (p : Player) (g : Game) → IsSound g → Afloat p → IsSound (set_player i p g)
IsSound-set i p g s h = record { afloat = λ k. if_both Afloat (i == k) h (s.afloat k) }

-- A change that leaves the status, the damage and the class alone.
IsSound-same :
    (i : ℕ) (f : Player → Player) (g : Game)
    → ((p : Player) → Afloat p → Afloat (f p))
    → IsSound g
    → IsSound (on_ship i f g)
IsSound-same i f g keep s = IsSound-set i (f (g.players i)) g s (keep (g.players i) (s.afloat i))

credited-Sound : (b : Blow) (j : ℕ) (g : Game) → IsSound g → IsSound (credited b j g)
unfolding credited killer_credit
credited-Sound b j g s =
    if_both IsSound b.is_credited
      (IsSound-same b.killer (λ k. killer_credit k (g.players j)) g (λ p h. h) s) s

pub explosion-Afloat : (why : WhyDead) (who : ℕ) (p : Player) → Afloat (p_explosion why who p)
unfolding p_explosion
explosion-Afloat why who p = refl

-- Setting player j twice is setting it once.
pub set_twice :
    (j : ℕ) (p q : Player) (g : Game)
    → IsSound g
    → Afloat q
    → IsSound (set_player j q (set_player j p g))
set_twice j p q g s h = record {
  afloat = λ k.
      if_cases Afloat (j == k) (λ e. h)
        (λ ne. if_cases Afloat (j == k) (λ e. absurd (cc)) (λ n. s.afloat k));
}

pub holds-Afloat : (p : Player) → is_destroyed p ≡ false → Afloat p
holds-Afloat p h = ground arith

take_blow-Sound : (b : Blow) (j : ℕ) (g : Game) → IsSound g → IsSound (take_blow b j g)
unfolding take_blow destroyed
take_blow-Sound b j g s =
    let hit = on_ship j (inflict b.damage) g in
    if_cases IsSound (is_destroyed (hit.players j))
      (λ gone.
        credited-Sound b j (on_ship j (p_explosion b.cause (hit.players b.killer).p_no) hit) (
          set_twice j (inflict b.damage (g.players j)) _ g s
            (explosion-Afloat b.cause (hit.players b.killer).p_no (hit.players j))))
      (λ holds. IsSound-set j (inflict b.damage (g.players j)) g s (
        holds-Afloat (inflict b.damage (g.players j)) (
          subst (λ (p : Player). is_destroyed p ≡ false)
            (put_self g.players j (inflict b.damage (g.players j))) holds)))

war_started-Sound : (t : Torp) (p : Player) (g : Game) → IsSound g → IsSound (war_started t p g)
unfolding war_started
war_started-Sound t p g s =
    if_both IsSound _ (IsSound-same t.t_owner (start_war p.p_team) g (λ q h. h) s) s

torp_reaches-Sound :
    (h : Physics) (t : Torp) (j : ℕ) (g : Game) → IsSound g → IsSound (torp_reaches h t j g)
unfolding torp_reaches torp_hits
torp_reaches-Sound h t j g s =
    let w = war_started t (g.players j) g in
    if_both IsSound (is_safe h g t (g.players j)) s (
      if_both IsSound _
        (take_blow-Sound (torp_blow _ w t (w.players j)) j w
          (war_started-Sound t (g.players j) g s))
        s)

ship_reaches-Sound :
    (h : Physics) (sh j : ℕ) (g : Game) → IsSound g → IsSound (ship_reaches h sh j g)
unfolding ship_reaches
ship_reaches-Sound h sh j g s =
    if_both IsSound (is_spared h g sh j) s
      (if_both IsSound _ (take_blow-Sound (ship_blow _ g sh (g.players j)) j g s) s)

-- An exploding torpedo or plasma leaves no living ship with damage at or past its class's limit, if
-- there was none before: every ship that it destroys explodes.
pub t_explosion-Sound :
    (h : Physics) (t : Torp) (g : Game) → IsSound g → IsSound (t_explosion h t g)
unfolding t_explosion
t_explosion-Sound h t g s =
    loop_inv (λ i (x : Game). IsSound x) (torp_reaches h t) max_player 0 max_player g refl
      (λ i x lo hi k. torp_reaches-Sound h t i x k) s

-- The same of an exploding ship.
pub blowup-Sound : (h : Physics) (sh : ℕ) (g : Game) → IsSound g → IsSound (blowup h sh g)
unfolding blowup
blowup-Sound h sh g s =
    loop_inv (λ i (x : Game). IsSound x) (ship_reaches h sh) max_player 0 max_player g refl
      (λ i x lo hi k. ship_reaches-Sound h sh i x k) s
