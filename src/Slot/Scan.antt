-- ===== src/Slot/Scan.antt =====
-- Which slot `scanqueue` finds.
use netrek_server.Base.{
  ℕ, zero, suc, ◌+◌, ◌-◌, ◌≤◌, ◌<◌, ◌≡◌, ◌≢◌, refl, sym, ap, Bool, true, false, not, ◌&&◌, Option,
  none, some, arith, ◌==◌, ◌∙◌, if◌then◌else◌, subst, Bool-cases, inl, inr, ◌⊎◌,
}
use netrek_server.Game.{is_free}
use netrek_server.Queues.{Queue}
use netrek_server.Slot.{
  Slots, or_else, verboten, is_pickable, take_slot, pickslot_action, scan_slots, scanqueue,
}

-- A slot that queue `w` may be given, by its range, its preferred start and slot 29's rule.
abbrev pub IsOffered : Queue → ℕ → Type 0
IsOffered q i =
    (i < q.high_slot)
    × ((q.low_slot ≤ i) ⊎ ((q.prefer ≢ 0) × (q.prefer ≤ i)))
    × (verboten q i ≡ false)

-- What the scan of a range finds: the first slot that can be picked, taken.
scan_slots-some :
    (w n start i : ℕ) (s t : Slots)
    → scan_slots (pickslot_action w) n start s ≡ some (i, t)
    → (start ≤ i) × (i < start + n) × (is_pickable w i s ≡ true) × (t ≡ take_slot w i s)
unfolding scan_slots pickslot_action
scan_slots-some w zero start i s t e = absurd (cc)
scan_slots-some w (suc n) start i s t e =
    go (is_pickable w start s) refl (scan_slots-some w n (start + 1) i s t) e
  where
    go :
        (b : Bool)
        → is_pickable w start s ≡ b
        → (scan_slots (pickslot_action w) n (start + 1) s ≡ some (i, t)
            → (start + 1 ≤ i)
              × (i < start + 1 + n)
              × (is_pickable w i s ≡ true)
              × (t ≡ take_slot w i s))
        → (elim (if b then some (take_slot w start s) else none) [
          | none ↦ scan_slots (pickslot_action w) n (start + 1) s
          | some t' ↦ some (start, t')
        ])
          ≡ some (i, t)
        → (start ≤ i) × (i < start + suc n) × (is_pickable w i s ≡ true) × (t ≡ take_slot w i s)
    go true q next e' =
        let h : start ≡ i = cc in
        let h' : take_slot w start s ≡ t = cc in
        (
          omega arith,
          omega arith,
          subst (λ x. is_pickable w x s ≡ true) h q,
          sym h' ∙ ap (λ x. take_slot w x s) h,
        )
    go false q next e' = let r = next e' in (omega arith, omega arith, r.2, r.3)

scan_slots-none :
    (w n start i : ℕ) (s : Slots)
    → scan_slots (pickslot_action w) n start s ≡ none
    → start ≤ i
    → i < start + n
    → is_pickable w i s ≡ false
unfolding scan_slots pickslot_action
scan_slots-none w zero start i s e lo hi = absurd (omega arith)
scan_slots-none w (suc n) start i s e lo hi =
    go (is_pickable w start s) refl (scan_slots-none w n (start + 1) i s) e
  where
    go :
        (b : Bool)
        → is_pickable w start s ≡ b
        → (scan_slots (pickslot_action w) n (start + 1) s ≡ none
            → start + 1 ≤ i
            → i < start + 1 + n
            → is_pickable w i s ≡ false)
        → (elim (if b then some (take_slot w start s) else none) [
          | none ↦ scan_slots (pickslot_action w) n (start + 1) s
          | some t' ↦ some (start, t')
        ])
          ≡ none
        → is_pickable w i s ≡ false
    go true q next e' = absurd (cc)
    go false q next e' = elim (Bool-cases (start == i)) [
      | inl h ↦ let h' : start ≡ i = ground arith in subst (λ x. is_pickable w x s ≡ false) h' q
      | inr h ↦ next e' (ground arith) (omega arith)
    ]

pickable_lem :
    (w i : ℕ) (s : Slots)
    → is_pickable w i s ≡ is_free (s.players i).p_status && not (verboten (s.queues w) i)
unfolding is_pickable
pickable_lem w i s = ground arith

-- The two ranges that `scanqueue` goes over, as one.
pub scanqueue-some :
    (w i : ℕ) (s t : Slots)
    → scanqueue w (pickslot_action w) s ≡ some (i, t)
    → IsOffered (s.queues w) i × (is_free (s.players i).p_status ≡ true) × (t ≡ take_slot w i s)
unfolding scanqueue
scanqueue-some w i s t e = go ((s.queues w).prefer == 0) refl e
  where
    q : Queue
    q = s.queues w

    done :
        (start : ℕ)
        → (start ≤ i)
          × (i < start + (q.high_slot - start))
          × (is_pickable w i s ≡ true)
          × (t ≡ take_slot w i s)
        → (q.low_slot ≤ i) ⊎ ((q.prefer ≢ 0) × (q.prefer ≤ i))
        → IsOffered q i × (is_free (s.players i).p_status ≡ true) × (t ≡ take_slot w i s)
    done start r range =
        let p : (is_free (s.players i).p_status && not (verboten q i)) ≡ true =
          sym (pickable_lem w i s) ∙ r.2 in
        ((omega arith, range, ground arith), ground arith, r.3)

    low :
        scan_slots (pickslot_action w) (q.high_slot - q.low_slot) q.low_slot s ≡ some (i, t)
        → IsOffered q i × (is_free (s.players i).p_status ≡ true) × (t ≡ take_slot w i s)
    low e' =
        let r = scan_slots-some w (q.high_slot - q.low_slot) q.low_slot i s t e' in
        done q.low_slot r (inl r.0)

    pick :
        (b : q.prefer ≢ 0) (o : Option (ℕ × Slots))
        → scan_slots (pickslot_action w) (q.high_slot - q.prefer) q.prefer s ≡ o
        → or_else o (scan_slots (pickslot_action w) (q.high_slot - q.low_slot) q.low_slot s)
          ≡ some (i, t)
        → IsOffered q i × (is_free (s.players i).p_status ≡ true) × (t ≡ take_slot w i s)
    pick b none f e' = low e'
    pick b (some x) f e' =
        let r = scan_slots-some w (q.high_slot - q.prefer) q.prefer i s t (f ∙ e') in
        done q.prefer r (inr (b, r.0))

    go :
        (b : Bool)
        → (q.prefer == 0) ≡ b
        → or_else
            (if b then none else scan_slots (pickslot_action w) (q.high_slot - q.prefer) q.prefer s)
            (scan_slots (pickslot_action w) (q.high_slot - q.low_slot) q.low_slot s)
          ≡ some (i, t)
        → IsOffered q i × (is_free (s.players i).p_status ≡ true) × (t ≡ take_slot w i s)
    go true p e' = low e'
    go false p e' =
        pick (ground arith) (scan_slots (pickslot_action w) (q.high_slot - q.prefer) q.prefer s)
          refl e'

pub scanqueue-none :
    (w i : ℕ) (s : Slots)
    → scanqueue w (pickslot_action w) s ≡ none
    → IsOffered (s.queues w) i
    → is_free (s.players i).p_status ≡ false
unfolding scanqueue
scanqueue-none w i s e h = go ((s.queues w).prefer == 0) refl e
  where
    q : Queue
    q = s.queues w

    done : is_pickable w i s ≡ false → is_free (s.players i).p_status ≡ false
    done r =
        let p : (is_free (s.players i).p_status && not (verboten q i)) ≡ false =
          sym (pickable_lem w i s) ∙ r in
        let o = h.2 in ground arith

    both :
        (o : Option (ℕ × Slots))
        → scan_slots (pickslot_action w) (q.high_slot - q.prefer) q.prefer s ≡ o
        → or_else o (scan_slots (pickslot_action w) (q.high_slot - q.low_slot) q.low_slot s) ≡ none
        → is_free (s.players i).p_status ≡ false
    both none f e' = elim (h.1) [
      | inl lo ↦ done (
          scan_slots-none w (q.high_slot - q.low_slot) q.low_slot i s e' lo
            (let hi = h.0 in omega arith))
      | inr (ne, lo) ↦ done (
          scan_slots-none w (q.high_slot - q.prefer) q.prefer i s f lo
            (let hi = h.0 in omega arith))
    ]
    both (some x) f e' = absurd (cc)

    go :
        (b : Bool)
        → (q.prefer == 0) ≡ b
        → or_else
            (if b then none else scan_slots (pickslot_action w) (q.high_slot - q.prefer) q.prefer s)
            (scan_slots (pickslot_action w) (q.high_slot - q.low_slot) q.low_slot s)
          ≡ none
        → is_free (s.players i).p_status ≡ false
    go true p e' = elim (h.1) [
      | inl lo ↦ done (
          scan_slots-none w (q.high_slot - q.low_slot) q.low_slot i s e' lo
            (let hi = h.0 in omega arith))
      | inr (ne, lo) ↦ absurd (ne (ground arith))
    ]
    go false p e' =
        both (scan_slots (pickslot_action w) (q.high_slot - q.prefer) q.prefer s) refl e'
