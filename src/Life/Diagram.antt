-- ===== src/Life/Diagram.antt =====
-- The diagram of a player's states, which the cases of `udplayers` of ntserv/daemon.c follow.
use netrek_server.Base.{
  ℕ, Bool, true, inl, inr, ◌||◌, ◌≡◌, refl, sym, ap, ◌∙◌, subst, Option, none, some, ltb,
  if◌then◌else◌, if_both, ap_if, put_self, put_keeps, ℤ, pos, negsuc, ◌-ℤ◌, leb_ℤ,
}
use netrek_server.Game.{
  Player, Game, Status, free, outfit, alive, explode, dead, observ, is_free, ghost,
}
use netrek_server.Slot.{Slots, Freed, freeslot, clear_slot, add_free}
use netrek_server.Blast.{Physics, blowup}
use netrek_server.Alive.{Delays, ghosttime, patience, Drive, is_over, udplayers_palive}
use netrek_server.Alive.Fate.{IsShip, palive-Ship, palive_over}
use netrek_server.Life.{
  Roster, on_me, rescued, refuge, home_start, ghostmess, outfit_delay, free_player,
  udplayers_poutfit, udplayers_pobserv, decay, udplayers_pdead, is_blast, uncloak, burn,
  explode_bays, break_orbit, udplayers_pexplode, status_by, status_update,
}
use netrek_server.Life.Frames.{phase, phase-explode_bays, phase-blowup}

infix 40 ◌⟶◌
pub data ◌⟶◌ : Status → Status → Type 0 where
  stays : {s : Status} → s ⟶ s
  burns_out : explode ⟶ dead
  decays : dead ⟶ outfit
  times_out : outfit ⟶ free
  ghosted : observ ⟶ dead
  destroyed : alive ⟶ explode

abbrev pub status_of : ℕ → Roster → Status
status_of i r = (r.game.players i).p_status

abbrev pub timer_of : ℕ → Roster → ℤ
timer_of i r = (r.game.players i).p_explode

on_me_at :
    (i : ℕ) (f : Player → Player) (r : Roster) → (on_me i f r).game.players i ≡ f (r.game.players i)
on_me_at i f r = put_self r.game.players i (f (r.game.players i))

-- What `burn` makes of a state and a timer.
unfoldable pub burned : Status × ℤ → Status × ℤ
burned x = if leb_ℤ (x.1 -ℤ pos 1) (pos 0) then (dead, pos 600) else (x.0, x.1 -ℤ pos 1)

pub phase-burn : (p : Player) → phase (burn p) ≡ burned (phase p)
unfolding burn burned
phase-burn p = ap_if phase (leb_ℤ (p.p_explode -ℤ pos 1) (pos 0)) _ _

blast_phase :
    (h : Physics) (i : ℕ) (a : Roster)
    → phase (
        (if is_blast (a.game.players i)
            then record a { game = blowup h i a.game }
            else a).game.players
          i)
      ≡ phase (a.game.players i)
blast_phase h i a =
    if_both (λ (x : Roster). phase (x.game.players i) ≡ phase (a.game.players i))
      (is_blast (a.game.players i)) (phase-blowup h i a.game) refl

-- The state and the timer after an update of an exploding player.
pub pexplode_phase :
    (d : Delays) (h : Physics) (i : ℕ) (r : Roster)
    → phase ((udplayers_pexplode d h i r).game.players i) ≡ burned (phase (r.game.players i))
unfolding udplayers_pexplode
pexplode_phase d h i r =
    let a = on_me i uncloak r in
    let b = if is_blast (a.game.players i) then record a { game = blowup h i a.game } else a in
    let c = explode_bays d i (on_me i burn b) in
    put_keeps phase c.game.players i (break_orbit (c.game.players i)) i refl
    ∙ phase-explode_bays d i (on_me i burn b) i
    ∙ ap phase (on_me_at i burn b)
    ∙ phase-burn (b.game.players i)
    ∙ ap burned
        (blast_phase h i a ∙ put_keeps phase r.game.players i (uncloak (r.game.players i)) i refl)

burned_edge : (s : Status) (t : ℤ) → s ≡ explode → s ⟶ (burned (s, t)).0
unfolding burned
burned_edge s t e =
    if_both (λ (x : Status × ℤ). s ⟶ x.0) (leb_ℤ (t -ℤ pos 1) (pos 0))
      (subst (λ x. x ⟶ dead) (sym e) burns_out) stays

burned_over : (s : Status) (t : ℤ) → s ≡ explode → is_over (burned (s, t)).0 ≡ true
unfolding burned
burned_over s t e =
    if_both (λ (x : Status × ℤ). is_over x.0 ≡ true) (leb_ℤ (t -ℤ pos 1) (pos 0)) refl
      (ap is_over e)

unfoldable pub decayed : Bool → Status × ℤ → Status × ℤ
decayed paused x =
    if leb_ℤ (x.1 -ℤ pos 1) (pos 0) || paused then (outfit, x.1 -ℤ pos 1) else (x.0, x.1 -ℤ pos 1)

pub pdead_phase :
    (i : ℕ) (r : Roster)
    → phase ((udplayers_pdead i r).game.players i)
      ≡ decayed r.game.paused (phase (r.game.players i))
unfolding udplayers_pdead decay decayed
pdead_phase i r =
    ap phase (on_me_at i (decay r.game.paused) r)
    ∙ ap_if phase (leb_ℤ ((r.game.players i).p_explode -ℤ pos 1) (pos 0) || r.game.paused) _ _

pdead_edge :
    (i : ℕ) (r : Roster) → status_of i r ≡ dead → status_of i r ⟶ status_of i (udplayers_pdead i r)
unfolding decayed
pdead_edge i r e =
    subst (λ x. status_of i r ⟶ x) (sym (ap (λ (x : Status × ℤ). x.0) (pdead_phase i r)))
      (if_both (λ (x : Status × ℤ). status_of i r ⟶ x.0)
        (leb_ℤ (timer_of i r -ℤ pos 1) (pos 0) || r.game.paused)
        (subst (λ x. x ⟶ outfit) (sym e) decays) stays)

rescued_status :
    (o : Option ℕ) (i k : ℕ) (g : Game)
    → ((rescued o i g).players k).p_status ≡ (g.players k).p_status
unfolding rescued
rescued_status none i k g = refl
rescued_status (some h) i k g = put_keeps (λ (p : Player). p.p_status) g.players i _ k refl

ghostmess_status :
    (i k : ℕ) (g : Game) → ((ghostmess i g).players k).p_status ≡ (g.players k).p_status
unfolding ghostmess
ghostmess_status i k g =
    let p = g.players i in
    if_both (λ (x : Game). (x.players k).p_status ≡ (g.players k).p_status) p.p_flags.observer refl
      (if_both (λ (x : Game). (x.players k).p_status ≡ (g.players k).p_status) (ltb 0 p.p_armies)
        (rescued_status (refuge (home_start p.p_team) p.p_team g) i k g) refl)

freeslot_status : (i : ℕ) (s : Slots) → ((freeslot i s).1.players i).p_status ≡ free
unfolding freeslot clear_slot add_free
freeslot_status i s =
    let cleared : (t : Slots) → ((clear_slot i t).players i).p_status ≡ free =
      λ t. ap (λ (p : Player). p.p_status) (put_self t.players i _) in
    if_both (λ (x : Freed × Slots). (x.1.players i).p_status ≡ free)
      (is_free (s.players i).p_status) (cleared (add_free (negsuc 0) (s.players i).w_queue s))
      (cleared s)

free_player_status : (i : ℕ) (r : Roster) → status_of i (free_player i r) ≡ free
unfolding free_player
free_player_status i r = freeslot_status i (record (r.slots) { players = r.game.players })

on_me_status :
    (i : ℕ) (f : Player → Player) (r : Roster)
    → (f (r.game.players i)).p_status ≡ status_of i r
    → status_of i (on_me i f r) ≡ status_of i r
on_me_status i f r e =
    put_keeps (λ (p : Player). p.p_status) r.game.players i (f (r.game.players i)) i e

-- An edge, where the state before and the state after are known.
edge_of : {s t s' t' : Status} → s' ⟶ t' → s ≡ s' → t ≡ t' → s ⟶ t
edge_of {s} {t} {s'} {t'} e p q = subst (λ x. x ⟶ t) (sym p) (subst (λ y. s' ⟶ y) (sym q) e)

poutfit_edge :
    (d : Delays) (i : ℕ) (r : Roster)
    → status_of i r ≡ outfit
    → status_of i r ⟶ status_of i (udplayers_poutfit d i r)
unfolding udplayers_poutfit
poutfit_edge d i r e =
    let s = on_me i patience r in
    let same = on_me_status i patience r refl in
    let g = record s { game = ghostmess i s.game } in
    let after_ghost = ghostmess_status i i s.game ∙ same in
    if_both (λ (x : Roster). status_of i r ⟶ status_of i x)
      (ltb (outfit_delay d (s.game.players i).p_whydead) (s.game.players i).p_ghostbuster)
      (if_both (λ (x : Roster). status_of i r ⟶ status_of i x) (ltb 1 (s.game.players i).p_process)
        (edge_of (stays {s = status_of i r}) refl after_ghost)
        (edge_of times_out e (free_player_status i g)))
      (edge_of (stays {s = status_of i r}) refl same)

pobserv_edge :
    (d : Delays) (i : ℕ) (r : Roster)
    → status_of i r ≡ observ
    → status_of i r ⟶ status_of i (udplayers_pobserv d i r)
unfolding udplayers_pobserv
pobserv_edge d i r e =
    let s = on_me i patience r in
    let g = record s { game = ghostmess i s.game } in
    if_both (λ (x : Roster). status_of i r ⟶ status_of i x)
      (ltb (ghosttime d) (s.game.players i).p_ghostbuster)
      (edge_of ghosted e (
        ap (λ (p : Player). p.p_status)
          (on_me_at i (λ p. record p { p_status = dead; p_whydead = ghost; p_whodead = p.p_no })
            g)))
      (edge_of (stays {s = status_of i r}) refl (on_me_status i patience r refl))

-- An exploding ship, with the move that follows.
pub moved_phase :
    (d : Delays) (h : Physics) (v : Drive) (i : ℕ) (r : Roster)
    → status_of i r ≡ explode
    → phase ((status_by explode d h v i r).game.players i) ≡ burned (phase (r.game.players i))
unfolding status_by
moved_phase d h v i r e =
    let x = udplayers_pexplode d h i r in
    let p = pexplode_phase d h i r in
    palive_over d h.safe_idle v i x.game
      (ap (λ (c : Status × ℤ). is_over c.0) p ∙ burned_over (status_of i r) (timer_of i r) e)
    ∙ p

moved_edge :
    (d : Delays) (h : Physics) (v : Drive) (i : ℕ) (r : Roster)
    → status_of i r ≡ explode
    → status_of i r ⟶ status_of i (status_by explode d h v i r)
moved_edge d h v i r e =
    subst (λ x. status_of i r ⟶ x) (sym (ap (λ (x : Status × ℤ). x.0) (moved_phase d h v i r e)))
      (burned_edge (status_of i r) (timer_of i r) e)

palive_edge :
    (d : Delays) (h : Physics) (v : Drive) (i : ℕ) (r : Roster)
    → status_of i r ≡ alive
    → status_of i r ⟶ status_of i (status_by alive d h v i r)
unfolding status_by
palive_edge d h v i r e = go (palive-Ship d h.safe_idle v i r.game e)
  where
    go :
        IsShip ((udplayers_palive d h.safe_idle v i r.game).players i).p_status
        → status_of i r ⟶ ((udplayers_palive d h.safe_idle v i r.game).players i).p_status
    go (inl a) = edge_of (stays {s = alive}) e a
    go (inr x) = edge_of destroyed e x

status_by_edge :
    (st : Status) (d : Delays) (h : Physics) (v : Drive) (i : ℕ) (r : Roster)
    → status_of i r ≡ st
    → status_of i r ⟶ status_of i (status_by st d h v i r)
unfolding status_by
status_by_edge outfit d h v i r e = poutfit_edge d i r e
status_by_edge free d h v i r e =
    edge_of (stays {s = status_of i r}) refl
      (on_me_status i (λ p. record p { p_ghostbuster = 0 }) r refl)
status_by_edge observ d h v i r e = pobserv_edge d i r e
status_by_edge dead d h v i r e = pdead_edge i r e
status_by_edge explode d h v i r e = moved_edge d h v i r e
status_by_edge alive d h v i r e = palive_edge d h v i r e

-- Each update of a player by the daemon keeps his state or follows an edge of the diagram: a living ship
-- explodes, an exploding ship dies, a dead one gets ready for the next, a player who does not choose one
-- in time loses the slot, and an observer who has gone dies.
pub status_update_edge :
    (d : Delays) (h : Physics) (v : Drive) (i : ℕ) (r : Roster)
    → status_of i r ⟶ status_of i (status_update d h v i r)
unfolding status_update
status_update_edge d h v i r = status_by_edge (status_of i r) d h v i r refl
