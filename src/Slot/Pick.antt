-- ===== src/Slot/Pick.antt =====
-- Which slots `pickslot` gives, and what it leaves behind.
use netrek_server.Base.{
  ℕ, ◌≡◌, ◌≢◌, refl, sym, ap, true, false, Option, none, some, arith, ◌∙◌, put_self, put_ne, subst,
  inl, inr, pos, negsuc, ◌+ℤ◌, ◌-ℤ◌,
}
use netrek_server.Game.{is_free, outfit}
use netrek_server.Queues.{queues_init, qu_god_obs}
use netrek_server.Slot.{
  Slots, verboten, take_slot, add_free, pickslot_action, scanqueue, slot, no_slot, set_sem,
  finish_pick, Entry, shut_out, busy, full, entered, entry_of, lower_sem, pick_by, pickslot,
}
use netrek_server.Slot.Scan.{IsOffered, scanqueue-some, scanqueue-none}

-- What a slot is once it is given.
pub record IsTaken (w i : ℕ) (s t : Slots) : Type 0 where
  pub was_free : is_free (s.players i).p_status ≡ true
  pub offered : IsOffered (s.queues w) i
  pub now_outfit : (t.players i).p_status ≡ outfit
  pub now_queued : (t.players i).w_queue ≡ w
  pub now_number : (t.players i).p_no ≡ i
  pub others : (j : ℕ) → i ≢ j → t.players j ≡ s.players j
  pub sem_back : (t.queues w).enter_sem ≡ pos 1
  pub one_less : (t.queues w).free_slots ≡ (s.queues w).free_slots +ℤ negsuc 0
  pub other_queues : (v : ℕ) → w ≢ v → t.queues v ≡ s.queues v

taken_lem :
    (w i : ℕ) (s : Slots)
    → IsOffered (s.queues w) i
    → is_free (s.players i).p_status ≡ true
    → IsTaken w i s (set_sem w (pos 1) (take_slot w i (lower_sem w s)))
unfolding take_slot add_free
taken_lem w i s o f = record {
  was_free = f;
  offered = o;
  now_outfit = ground arith;
  now_queued = ground arith;
  now_number = ground arith;
  others = λ j ne. put_ne s.players i j _ ne;
  sem_back = ground arith;
  one_less = ground arith;
  other_queues = λ v ne. ground arith;
}

-- Lowering the semaphore changes nothing that decides which slots a queue is offered.
lower_sem-IsOffered :
    (w i : ℕ) (s : Slots)
    → (IsOffered ((lower_sem w s).queues w) i → IsOffered (s.queues w) i)
      × (IsOffered (s.queues w) i → IsOffered ((lower_sem w s).queues w) i)
unfolding verboten
lower_sem-IsOffered w i s =
    let e =
      put_self s.queues w (record (s.queues w) { enter_sem = (s.queues w).enter_sem -ℤ pos 1 }) in
    (λ o. subst (λ q. IsOffered q i) e o, λ o. subst (λ q. IsOffered q i) (sym e) o)

finish_pick-slot :
    (w i : ℕ) (s t : Slots) (o : Option (ℕ × Slots))
    → finish_pick w s o ≡ (slot i, t)
    → (u : Slots) × (o ≡ some (i, u)) × (t ≡ set_sem w (pos 1) u)
unfolding finish_pick
finish_pick-slot w i s t none e = absurd (cc)
finish_pick-slot w i s t (some (j, u)) e =
    let h : j ≡ i = cc in
    let h' : set_sem w (pos 1) u ≡ t = cc in (u, ap (λ x. some (x, u)) h, sym h')

-- A slot that `pickslot` returns was free, is in the queue's range or from its preferred slot on, and
-- is not slot 29 unless the queue may have it. It is now being outfitted, in that queue; the queue
-- has one free slot less and its semaphore back; the other slots and queues are as they were.
pub pickslot-slot : (w i : ℕ) (s t : Slots) → pickslot w s ≡ (slot i, t) → IsTaken w i s t
unfolding pickslot pick_by
pickslot-slot w i s t e = go (entry_of (s.queues w)) e
  where
    go : (x : Entry) → pick_by x w s ≡ (slot i, t) → IsTaken w i s t
    go shut_out f = absurd (cc)
    go busy f = absurd (cc)
    go full f = absurd (cc)
    go entered f =
        let (u, found, out) = finish_pick-slot w i (lower_sem w s) t _ f in
        let (o, was, taken) = scanqueue-some w i (lower_sem w s) u found in
        subst (λ x. IsTaken w i s x) (sym (out ∙ ap (λ x. set_sem w (pos 1) x) taken))
          (taken_lem w i s ((lower_sem-IsOffered w i s).0 o) was)

finish_pick-no_slot :
    (w : ℕ) (s : Slots) (o : Option (ℕ × Slots)) → (finish_pick w s o).0 ≡ no_slot → o ≡ none
unfolding finish_pick
finish_pick-no_slot w s none e = refl
finish_pick-no_slot w s (some (j, u)) e = absurd (cc)

-- `pickslot` refuses a queue that is open, whose semaphore is up and which counts a free slot, only
-- if none of the slots that the queue may be given is free.
pub pickslot-no_slot :
    (w i : ℕ) (s : Slots)
    → entry_of (s.queues w) ≡ entered
    → (pickslot w s).0 ≡ no_slot
    → IsOffered (s.queues w) i
    → is_free (s.players i).p_status ≡ false
unfolding pickslot pick_by
pickslot-no_slot w i s ready e o =
    let e' : (finish_pick w (lower_sem w s) (scanqueue w (pickslot_action w) (lower_sem w s))).0
        ≡ no_slot =
      ap (λ x. (pick_by x w s).0) (sym ready) ∙ e in
    scanqueue-none w i (lower_sem w s) (finish_pick-no_slot w (lower_sem w s) _ e')
      ((lower_sem-IsOffered w i s).1 o)

-- The queue of the god observer, as `queues_init` sets its slots up, never gives a slot.
pub pickslot-god_obs :
    (i : ℕ) (s t : Slots)
    → (s.queues qu_god_obs).low_slot ≡ (queues_init.queues qu_god_obs).low_slot
    → (s.queues qu_god_obs).high_slot ≡ (queues_init.queues qu_god_obs).high_slot
    → (s.queues qu_god_obs).prefer ≡ (queues_init.queues qu_god_obs).prefer
    → pickslot qu_god_obs s ≢ (slot i, t)
unfolding queues_init
pickslot-god_obs i s t low high prefer e =
    let o = (pickslot-slot qu_god_obs i s t e).offered in
    let hi = o.0 in elim (o.1) [ inl lo ↦ absurd (omega arith) | inr (ne, lo) ↦ absurd (ne prefer) ]
