-- ===== src/Life/Ending.antt =====
-- A ship that explodes comes to its end in a bounded number of updates of ntserv/daemon.c.
use netrek_server.Base.{
  ℕ, zero, suc, ◌+◌, ◌≤◌, Bool, true, ◌||◌, ◌≡◌, refl, sym, ap, ◌∙◌, subst, inl, inr, ◌⊎◌, if_true,
  if_either, arith, ℤ, pos, ◌-ℤ◌, leb_ℤ,
}
use netrek_server.Game.{Status, outfit, explode, dead}
use netrek_server.Blast.{Physics}
use netrek_server.Alive.{Delays, Drive}
use netrek_server.Life.{Roster, status_by, status_update}
use netrek_server.Life.Frames.{phase}
use netrek_server.Life.Diagram.{status_of, burned, decayed, moved_phase, pdead_phase}

abbrev pub later : (ℕ → Drive) → ℕ → Drive
later v n = v (n + 1)

-- `n` updates of player i; `v n` is the drive of the n-th.
unfoldable pub updates : Delays → Physics → (ℕ → Drive) → ℕ → ℕ → Roster → Roster
updates d h v i zero r = r
updates d h v i (suc n) r = updates d h (later v) i n (status_update d h (v 0) i r)

-- Within `n` updates, counted from `r`, the player gets ready for the next ship.
abbrev pub EndsWithin : Delays → Physics → (ℕ → Drive) → ℕ → ℕ → Roster → Type 0
EndsWithin d h v i n r = (k : ℕ) × (k ≤ n) × (status_of i (updates d h v i k r) ≡ outfit)

one_update :
    (d : Delays) (h : Physics) (v : ℕ → Drive) (i n : ℕ) (r : Roster)
    → EndsWithin d h (later v) i n (status_update d h (v 0) i r)
    → EndsWithin d h v i (suc n) r
unfolding updates
one_update d h v i n r (k, le, e) = (suc k, omega arith, e)

dead_update :
    (d : Delays) (h : Physics) (v : ℕ → Drive) (i : ℕ) (r : Roster)
    → status_of i r ≡ dead
    → phase ((status_update d h (v 0) i r).game.players i)
      ≡ decayed r.game.paused (phase (r.game.players i))
unfolding status_update status_by
dead_update d h v i r e =
    subst
      (λ s.
        phase ((status_by s d h (v 0) i r).game.players i)
        ≡ decayed r.game.paused (phase (r.game.players i)))
      (sym e) (pdead_phase i r)

explode_update :
    (d : Delays) (h : Physics) (v : ℕ → Drive) (i : ℕ) (r : Roster)
    → status_of i r ≡ explode
    → phase ((status_update d h (v 0) i r).game.players i) ≡ burned (phase (r.game.players i))
unfolding status_update status_by
explode_update d h v i r e =
    subst
      (λ s. phase ((status_by s d h (v 0) i r).game.players i) ≡ burned (phase (r.game.players i)))
      (sym e) (moved_phase d h (v 0) i r e)

minus_one : (n : ℕ) → pos (suc n) -ℤ pos 1 ≡ pos n
unfolding ◌-ℤ◌
minus_one n = ground arith

minus_zero : leb_ℤ (pos 0 -ℤ pos 1) (pos 0) ≡ true
unfolding ◌-ℤ◌
minus_zero = refl

abbrev status_part : Status × ℤ → Status
status_part x = x.0

decayed_cases :
    (paused : Bool) (n : ℕ)
    → ((decayed paused (dead, pos (suc n))).0 ≡ outfit)
      ⊎ (decayed paused (dead, pos (suc n)) ≡ (dead, pos n))
unfolding decayed
decayed_cases paused n =
    let left = pos (suc n) -ℤ pos 1 in
    elim (if_either {A = Status × ℤ} (leb_ℤ left (pos 0) || paused) (outfit, left) (dead, left)) [
      | inl e ↦ inl (ap status_part e)
      | inr e ↦ inr (e ∙ ap (λ z. (dead, z)) (minus_one n))
    ]

decayed_last : (paused : Bool) → (decayed paused (dead, pos 0)).0 ≡ outfit
unfolding decayed
decayed_last paused =
    ap (λ (x : Status × ℤ). x.0)
      (if_true (leb_ℤ (pos 0 -ℤ pos 1) (pos 0) || paused) (outfit, pos 0 -ℤ pos 1)
        (dead, pos 0 -ℤ pos 1) (ap (λ b. b || paused) minus_zero))

burned_cases :
    (n : ℕ)
    → (burned (explode, pos (suc n)) ≡ (dead, pos 600))
      ⊎ (burned (explode, pos (suc n)) ≡ (explode, pos n))
unfolding burned
burned_cases n =
    let left = pos (suc n) -ℤ pos 1 in
    elim (if_either {A = Status × ℤ} (leb_ℤ left (pos 0)) (dead, pos 600) (explode, left)) [
      | inl e ↦ inl e
      | inr e ↦ inr (e ∙ ap (λ z. (explode, z)) (minus_one n))
    ]

burned_last : burned (explode, pos 0) ≡ (dead, pos 600)
unfolding burned
burned_last =
    if_true (leb_ℤ (pos 0 -ℤ pos 1) (pos 0)) (dead, pos 600) (explode, pos 0 -ℤ pos 1) minus_zero

ready :
    (d : Delays) (h : Physics) (v : ℕ → Drive) (i n : ℕ) (r : Roster)
    → status_of i r ≡ outfit
    → EndsWithin d h v i n r
unfolding updates
ready d h v i n r e = (0, omega arith, e)

-- A dead player with `n` frames left.
dead_ends :
    (d : Delays) (h : Physics) (v : ℕ → Drive) (i n : ℕ) (r : Roster)
    → phase (r.game.players i) ≡ (dead, pos n)
    → EndsWithin d h v i (suc n) r
dead_ends d h v i zero r e = one_update d h v i 0 r (
    ready d h (later v) i 0 (status_update d h (v 0) i r) (
      ap status_part (dead_update d h v i r (ap status_part e) ∙ ap (decayed r.game.paused) e)
      ∙ decayed_last r.game.paused))
dead_ends d h v i (suc n) r e =
    one_update d h v i (suc n) r
      (next (decayed_cases r.game.paused n) (dead_ends d h (later v) i n r'))
  where
    r' : Roster
    r' = status_update d h (v 0) i r

    step : phase (r'.game.players i) ≡ decayed r.game.paused (dead, pos (suc n))
    step = dead_update d h v i r (ap status_part e) ∙ ap (decayed r.game.paused) e

    next :
        ((decayed r.game.paused (dead, pos (suc n))).0 ≡ outfit)
          ⊎ (decayed r.game.paused (dead, pos (suc n)) ≡ (dead, pos n))
        → (phase (r'.game.players i) ≡ (dead, pos n) → EndsWithin d h (later v) i (suc n) r')
        → EndsWithin d h (later v) i (suc n) r'
    next (inl o) rec = ready d h (later v) i (suc n) r' (ap status_part step ∙ o)
    next (inr o) rec = rec (step ∙ o)

longer :
    (d : Delays) (h : Physics) (v : ℕ → Drive) (i n m : ℕ) (r : Roster)
    → n ≤ m
    → EndsWithin d h v i n r
    → EndsWithin d h v i m r
longer d h v i n m r le (k, kn, e) = (k, omega arith, e)

-- An exploding ship with `n` frames left gets ready for the next one within n + 602 updates: the frames
-- of the explosion, and the 600 of the dead state, which a pause of the game only cuts short. It is
-- not held up by the damage that it does or by the release of its bays.
pub explode_ends :
    (d : Delays) (h : Physics) (v : ℕ → Drive) (i n : ℕ) (r : Roster)
    → phase (r.game.players i) ≡ (explode, pos n)
    → EndsWithin d h v i (n + 602) r
explode_ends d h v i zero r e = longer d h v i 602 (0 + 602) r (omega arith) (
    one_update d h v i 601 r (
      dead_ends d h (later v) i 600 (status_update d h (v 0) i r)
        (explode_update d h v i r (ap status_part e) ∙ ap burned e ∙ burned_last)))
explode_ends d h v i (suc n) r e =
    longer d h v i (suc (n + 602)) (suc n + 602) r (omega arith)
      (one_update d h v i (n + 602) r (next (burned_cases n) (explode_ends d h (later v) i n r')))
  where
    r' : Roster
    r' = status_update d h (v 0) i r

    step : phase (r'.game.players i) ≡ burned (explode, pos (suc n))
    step = explode_update d h v i r (ap status_part e) ∙ ap burned e

    next :
        (burned (explode, pos (suc n)) ≡ (dead, pos 600))
          ⊎ (burned (explode, pos (suc n)) ≡ (explode, pos n))
        → (phase (r'.game.players i) ≡ (explode, pos n) → EndsWithin d h (later v) i (n + 602) r')
        → EndsWithin d h (later v) i (n + 602) r'
    next (inl o) rec =
        longer d h (later v) i 601 (n + 602) r' (omega arith)
          (dead_ends d h (later v) i 600 r' (step ∙ o))
    next (inr o) rec = rec (step ∙ o)
