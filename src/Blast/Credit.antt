-- ===== src/Blast/Credit.antt =====
-- Who is credited for a kill, in the two explosions of ntserv/daemon.c.
use netrek_server.Base.{
  ℕ, ◌+◌, ◌*◌, ◌/◌, Bool, true, false, not, ◌&&◌, ◌||◌, ◌≡◌, ◌≢◌, refl, sym, ap, ◌∙◌, if◌then◌else◌,
  if_both, if_true, put_self, put_ne, put_keeps, arith,
}
use netrek_server.Game.{Player, Game, same}
use netrek_server.Conquest.{p_explosion}
use netrek_server.Torp.{Torp}
use netrek_server.Blast.{
  inflict, is_destroyed, killer_credit, Blow, on_ship, credited, destroyed, take_blow, torp_killer,
  torp_blow, ship_killer, ship_blow,
}

-- What a kill of this ship is worth, in hundredths.
abbrev pub worth : Player → ℕ
worth p = 100 + p.p_armies * 10 + p.p_kills / 10

abbrev worths : Player → ℕ × ℕ
worths p = (p.p_armies, p.p_kills)

worths-inflict : (d : ℕ) (p : Player) → worths (inflict d p) ≡ worths p
unfolding inflict
worths-inflict d p = if_both (λ (q : Player). worths q ≡ worths p) p.p_flags.shield refl refl

module _ (b : Blow) (j : ℕ) (g : Game) where
  hit : Game
  hit = on_ship j (inflict b.damage) g

  gone : Game
  gone = on_ship j (p_explosion b.cause (hit.players b.killer).p_no) hit

  gone_worths : worths (gone.players j) ≡ worths (g.players j)
  unfolding gone hit p_explosion
  gone_worths =
      put_keeps worths hit.players j
        (p_explosion b.cause (hit.players b.killer).p_no (hit.players j)) j refl
      ∙ put_keeps worths g.players j (inflict b.damage (g.players j)) j
          (worths-inflict b.damage (g.players j))

  gone_killer : b.killer ≢ j → gone.players b.killer ≡ g.players b.killer
  unfolding gone hit
  gone_killer ne =
      put_ne hit.players j b.killer _ (λ e. ne (sym e))
      ∙ put_ne g.players j b.killer (inflict b.damage (g.players j)) (λ e. ne (sym e))

  credited_kills :
      b.killer ≢ j
      → ((credited b j gone).players b.killer).p_kills
        ≡ (g.players b.killer).p_kills + (if b.is_credited then worth (g.players j) else 0)
  unfolding credited killer_credit
  credited_kills ne = by_credit b.is_credited
    where
      kept : (gone.players b.killer).p_kills ≡ (g.players b.killer).p_kills
      kept = ap (λ (p : Player). p.p_kills) (gone_killer ne)

      same_worth : worth (gone.players j) ≡ worth (g.players j)
      same_worth = ap (λ (x : ℕ × ℕ). 100 + x.0 * 10 + x.1 / 10) gone_worths

      by_credit :
          (c : Bool)
          → ((if c
                then on_ship b.killer (λ k. killer_credit k (gone.players j)) gone
                else gone).players
              b.killer).p_kills
            ≡ (g.players b.killer).p_kills + (if c then worth (g.players j) else 0)
      by_credit true =
          ap (λ (p : Player). p.p_kills)
            (put_self gone.players b.killer
              (killer_credit (gone.players b.killer) (gone.players j)))
          ∙ omega (arith, kept, same_worth)
      by_credit false = omega (arith, kept)

  -- The kills of the player whom a deadly blow is put down to: the credit is all that changes them.
  take_blow_kills :
      is_destroyed (inflict b.damage (g.players j)) ≡ true
      → b.killer ≢ j
      → ((take_blow b j g).players b.killer).p_kills
        ≡ (g.players b.killer).p_kills + (if b.is_credited then worth (g.players j) else 0)
  unfolding take_blow destroyed gone hit
  take_blow_kills dead ne =
      ap (λ (x : Game). (x.players b.killer).p_kills)
        (if_true (is_destroyed (hit.players j)) (credited b j gone) hit
          (ap is_destroyed (put_self g.players j (inflict b.damage (g.players j))) ∙ dead))
      ∙ credited_kills ne

-- A deadly blow to a teammate in the two explosions, where the killer is not the victim: the explosion
-- of a torpedo credits the killer with the kill exactly where the victim is a practice robot, and adds
-- nothing else to his kills; that of a ship exactly where it is not.
pub team_kill_credit :
    (d e : ℕ) (g : Game) (t : Torp) (s j : ℕ)
    → same (g.players (torp_killer g t (g.players j))).p_team (g.players j).p_team ≡ true
    → same (g.players (ship_killer g s (g.players j))).p_team (g.players j).p_team ≡ true
    → torp_killer g t (g.players j) ≢ j
    → ship_killer g s (g.players j) ≢ j
    → is_destroyed (inflict d (g.players j)) ≡ true
    → is_destroyed (inflict e (g.players j)) ≡ true
    → let p = g.players j in
      let k = torp_killer g t p in
      let l = ship_killer g s p in
      (((take_blow (torp_blow d g t p) j g).players k).p_kills
        ≡ (g.players k).p_kills + (if p.p_flags.practr then worth p else 0))
      × (((take_blow (ship_blow e g s p) j g).players l).p_kills
          ≡ (g.players l).p_kills + (if p.p_flags.practr then 0 else worth p))
unfolding torp_blow ship_blow
team_kill_credit d e g t s j a b nk nl dk dl =
    let p = g.players j in
    let k = torp_killer g t p in
    let l = ship_killer g s p in
    (
      take_blow_kills (torp_blow d g t p) j g dk nk
          ∙ ap (λ (n : ℕ). (g.players k).p_kills + n)
              (torp_case (same (g.players k).p_team p.p_team) p.p_flags.practr (worth p) a),
      take_blow_kills (ship_blow e g s p) j g dl nl
          ∙ ap (λ (n : ℕ). (g.players l).p_kills + n)
              (ship_case (same (g.players l).p_team p.p_team) p.p_flags.practr (worth p) b),
    )
  where
    torp_case :
        (m r : Bool) (w : ℕ) → m ≡ true → (if not m || m && r then w else 0) ≡ (if r then w else 0)
    torp_case m r w e = ground arith

    ship_case :
        (m r : Bool) (w : ℕ)
        → m ≡ true
        → (if not m || m && not r then w else 0) ≡ (if r then 0 else w)
    ship_case m r w e = ground arith
