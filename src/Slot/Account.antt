-- ===== src/Slot/Account.antt =====
-- The books of the queues: `free_slots` against the slots that are taken.
use netrek_server.Base.{
  ℕ, ◌+◌, ◌≤◌, ◌<◌, ◌≡◌, ◌≢◌, refl, sym, ap, Bool, true, false, not, ◌&&◌, Option, none, some,
  arith, ◌==◌, ◌∙◌, put_ne, put_keeps, subst, Bool-cases, inl, inr, ℤ, pos, negsuc, ◌+ℤ◌, +ℤ_parts,
  eq_of_parts, count, count_on, count_congr,
}
use netrek_server.Game.{Player, is_free, max_player}
use netrek_server.Queues.{Queue}
use netrek_server.Slot.{
  Slots, scanqueue, pickslot_action, set_sem, finish_pick, Entry, shut_out, busy, full, entered,
  entry_of, lower_sem, pick_by, pickslot, freeslot, freed, add_free, clear_slot,
}
use netrek_server.Slot.Pick.{IsTaken, pickslot-slot}

-- The slot is taken by a client of queue `w`.
abbrev pub is_used : ℕ → Player → Bool
is_used w p = not (is_free p.p_status) && p.w_queue == w

abbrev pub used_slots : ℕ → Slots → ℕ
used_slots w s = count max_player 0 (λ i. is_used w (s.players i))

-- The free slots of a queue and those taken from it, together.
abbrev pub books : ℕ → Slots → ℤ
books w s = (s.queues w).free_slots +ℤ pos (used_slots w s)

abbrev IsAccounted : ℤ → ℕ → Slots → Type 0
IsAccounted n w s = books w s ≡ n

one_taken : (f : ℤ) (n : ℕ) → (f +ℤ negsuc 0) +ℤ pos (n + 1) ≡ f +ℤ pos n
one_taken f n =
    let a = +ℤ_parts f (negsuc 0) in
    let b = +ℤ_parts (f +ℤ negsuc 0) (pos (n + 1)) in
    let c = +ℤ_parts f (pos n) in
    eq_of_parts ((f +ℤ negsuc 0) +ℤ pos (n + 1)) (f +ℤ pos n) (omega arith)

one_given : (f : ℤ) (n : ℕ) → (f +ℤ pos 1) +ℤ pos n ≡ f +ℤ pos (n + 1)
one_given f n =
    let a = +ℤ_parts f (pos 1) in
    let b = +ℤ_parts (f +ℤ pos 1) (pos n) in
    let c = +ℤ_parts f (pos (n + 1)) in
    eq_of_parts ((f +ℤ pos 1) +ℤ pos n) (f +ℤ pos (n + 1)) (omega arith)

taken-Accounted :
    (n : ℤ) (w i v : ℕ) (s t : Slots)
    → i < max_player
    → IsTaken w i s t
    → IsAccounted n v s
    → IsAccounted n v t
taken-Accounted n w i v s t lt k a = elim (Bool-cases (w == v)) [
  | inl e ↦
      let e' : w ≡ v = ground arith in
      subst (λ x. IsAccounted n x t) e' (own (subst (λ x. IsAccounted n x s) (sym e') a))
  | inr e ↦
      let ne : w ≢ v = ground arith in
      rw
        (
          k.other_queues v ne,
          count_congr max_player 0 (λ j. is_used v (t.players j)) (λ j. is_used v (s.players j))
              (λ j lo hi. same_use ne j),
        )
        a
]
  where
    own : IsAccounted n w s → IsAccounted n w t
    own b =
        rw
          (
            k.one_less,
            count_on max_player 0 (λ j. is_used w (s.players j)) (λ j. is_used w (t.players j)) i
                (omega arith) (omega arith) (let f = k.was_free in ground arith)
                (rw (k.now_outfit, k.now_queued) (ground arith))
                (λ j ne. ap (λ p. is_used w p) (sym (k.others j (λ q. ne (sym q))))),
          )
          (one_taken (s.queues w).free_slots (used_slots w s) ∙ b)

    same_use : w ≢ v → (j : ℕ) → is_used v (t.players j) ≡ is_used v (s.players j)
    same_use ne j = elim (Bool-cases (i == j)) [
      | inl e ↦
          let e' : i ≡ j = ground arith in
          let now : is_used v (t.players i) ≡ false =
            rw (k.now_outfit, k.now_queued) (ground arith) in
          let f = k.was_free in
          let before : is_used v (s.players i) ≡ false = ground arith in
          subst (λ x. is_used v (t.players x) ≡ is_used v (s.players x)) e' (now ∙ sym before)
      | inr e ↦ ap (λ p. is_used v p) (k.others j (ground arith))
    ]

-- Only the semaphore of a queue has changed.
sem-Accounted :
    (n : ℤ) (w v : ℕ) (e : ℤ) (s : Slots) → IsAccounted n v s → IsAccounted n v (set_sem w e s)
sem-Accounted n w v e s a =
    rw
      (put_keeps (λ (q : Queue). q.free_slots) s.queues w (record (s.queues w) { enter_sem = e }) v
        refl)
      a

pick-Accounted :
    (n : ℤ) (w v : ℕ) (s : Slots)
    → (s.queues w).high_slot ≤ max_player
    → IsAccounted n v s
    → IsAccounted n v (pickslot w s).1
unfolding pickslot pick_by finish_pick
pick-Accounted n w v s high a = go (entry_of (s.queues w)) refl
  where
    go : (x : Entry) → entry_of (s.queues w) ≡ x → IsAccounted n v (pick_by x w s).1
    go shut_out e = a
    go busy e = sem-Accounted n w v _ s a
    go full e = sem-Accounted n w v _ (lower_sem w s) (sem-Accounted n w v _ s a)
    go entered e = found (scanqueue w (pickslot_action w) (lower_sem w s)) refl
      where
        found :
            (o : Option (ℕ × Slots))
            → scanqueue w (pickslot_action w) (lower_sem w s) ≡ o
            → IsAccounted n v (finish_pick w (lower_sem w s) o).1
        found none f = sem-Accounted n w v _ (lower_sem w s) (sem-Accounted n w v _ s a)
        found (some (i, u)) f =
            let k : IsTaken w i s (set_sem w (pos 1) u) =
              pickslot-slot w i s (set_sem w (pos 1) u)
                (ap (λ x. pick_by x w s) e ∙ ap (λ o. finish_pick w (lower_sem w s) o) f) in
            let o = k.offered.0 in taken-Accounted n w i v s (set_sem w (pos 1) u) (omega arith) k a

-- Whatever `pickslot` returns, the free slots of each queue and those taken from it are together as
-- many as before, where the queue's range does not go past the last slot.
pub pickslot-books :
    (w v : ℕ) (s : Slots)
    → (s.queues w).high_slot ≤ max_player
    → books v (pickslot w s).1 ≡ books v s
pickslot-books w v s high = pick-Accounted (books v s) w v s high refl

-- What `freeslot` does with a slot that is taken.
record IsGiven (i : ℕ) (s t : Slots) : Type 0 where
  now_free : is_free (t.players i).p_status ≡ true
  others : (j : ℕ) → i ≢ j → t.players j ≡ s.players j
  one_more :
      (t.queues (s.players i).w_queue).free_slots
      ≡ (s.queues (s.players i).w_queue).free_slots +ℤ pos 1
  other_free :
      (v : ℕ) → (s.players i).w_queue ≢ v → (t.queues v).free_slots ≡ (s.queues v).free_slots

freeslot-step :
    (i : ℕ) (s : Slots)
    → is_free (s.players i).p_status ≡ false
    → freeslot i s ≡ (freed, add_free (pos 1) (s.players i).w_queue (clear_slot i s))
unfolding freeslot
freeslot-step i s f = rw (f) refl

given_lem :
    (i : ℕ) (s : Slots) → IsGiven i s (add_free (pos 1) (s.players i).w_queue (clear_slot i s))
unfolding add_free clear_slot
given_lem i s = record {
  now_free = ground arith;
  others = λ j ne. put_ne s.players i j _ ne;
  one_more = ground arith;
  other_free = λ v ne. ground arith;
}

given-Accounted :
    (n : ℤ) (i v : ℕ) (s t : Slots)
    → i < max_player
    → is_free (s.players i).p_status ≡ false
    → IsGiven i s t
    → IsAccounted n v s
    → IsAccounted n v t
given-Accounted n i v s t lt f k a = elim (Bool-cases ((s.players i).w_queue == v)) [
  | inl e ↦
      let e' : (s.players i).w_queue ≡ v = ground arith in
      let more : (t.queues v).free_slots ≡ (s.queues v).free_slots +ℤ pos 1 =
        subst (λ x. (t.queues x).free_slots ≡ (s.queues x).free_slots +ℤ pos 1) e' k.one_more in
      let m =
        count_on max_player 0 (λ j. is_used v (t.players j)) (λ j. is_used v (s.players j)) i
          (omega arith) (omega arith) (let g = k.now_free in ground arith) (ground arith)
          (λ j ne. ap (λ p. is_used v p) (k.others j (λ q. ne (sym q)))) in
      rw (more) (
        one_given (s.queues v).free_slots (used_slots v t)
        ∙ ap (λ x. (s.queues v).free_slots +ℤ pos x) (sym m)
        ∙ a)
  | inr e ↦
      let ne : (s.players i).w_queue ≢ v = ground arith in
      rw
        (
          k.other_free v ne,
          count_congr max_player 0 (λ j. is_used v (t.players j)) (λ j. is_used v (s.players j))
              (λ j lo hi. same_use ne j),
        )
        a
]
  where
    same_use :
        (s.players i).w_queue ≢ v → (j : ℕ) → is_used v (t.players j) ≡ is_used v (s.players j)
    same_use ne j = elim (Bool-cases (i == j)) [
      | inl e ↦
          let e' : i ≡ j = ground arith in
          let g = k.now_free in
          let now : is_used v (t.players i) ≡ false = ground arith in
          let before : is_used v (s.players i) ≡ false = ground arith in
          subst (λ x. is_used v (t.players x) ≡ is_used v (s.players x)) e' (now ∙ sym before)
      | inr e ↦ ap (λ p. is_used v p) (k.others j (ground arith))
    ]

-- After `freeslot` of a slot that was taken the slot is free, and the free slots of each queue and
-- those taken from it are together as many as before.
pub freeslot-books :
    (i v : ℕ) (s : Slots)
    → i < max_player
    → is_free (s.players i).p_status ≡ false
    → let t = (freeslot i s).1 in (is_free (t.players i).p_status ≡ true) × (books v t ≡ books v s)
freeslot-books i v s lt f =
    let k = given_lem i s in
    rw (freeslot-step i s f) (k.now_free, given-Accounted (books v s) i v s _ lt f k refl)
