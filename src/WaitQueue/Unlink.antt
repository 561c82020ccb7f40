-- ===== src/WaitQueue/Unlink.antt =====
-- The chain of a queue once one client is out of it, and that `unlink` makes such a chain.
use netrek_server.Base.{
  ℕ, ◌≡◌, ◌≢◌, refl, sym, ap, Bool, true, false, Option, none, some, List, [], ◌∷◌, arith, ◌==◌,
  ◌∙◌, put_ne, if◌then◌else◌, subst, inl, inr,
}
use netrek_server.Queues.{Wait}
use netrek_server.WaitQueue.{unlink, set_next, set_previous}
use netrek_server.WaitQueue.Line.{mem, IsWaiting, Line, mem_self}
use netrek_server.WaitQueue.Remove.{
  remove, mem-remove, previous-mem, next-mem, IsUnlinked, last_without, head_without,
}

ne_of_mem : (i j : ℕ) (is : List ℕ) → mem i is ≡ false → mem j is ≡ true → i ≢ j
ne_of_mem i j is f m h =
    let m' : mem i is ≡ true = subst (λ x. mem x is ≡ true) (sym h) m in absurd (cc)

module _ (w i : ℕ) (ws vs : ℕ → Wait) (u : IsUnlinked w i ws vs) where
  -- A stretch of the chain that holds neither `i` nor a neighbour of it is as it was.
  kept-Line :
      (is : List ℕ) (prev head last : Option ℕ)
      → mem i is ≡ false
      → ((t : ℕ) → (ws i).previous ≡ some t → mem t is ≡ false)
      → ((t : ℕ) → (ws i).next ≡ some t → mem t is ≡ false)
      → Line w ws prev head last is
      → Line w vs prev head last is
  kept-Line [] prev head last f p n v = v
  kept-Line (j ∷ is) prev head last f p n v =
      let ne : i ≢ j = ne_of_mem i j (j ∷ is) f (mem_self j is) in
      let pj : (ws i).previous ≢ some j =
        λ e. let a = p j e in let b = mem_self j is in absurd (cc) in
      let nj : (ws i).next ≢ some j = λ e. let a = n j e in let b = mem_self j is in absurd (cc) in
      (
        v.0,
        v.1,
        u.kept_previous j ne nj ∙ v.2,
        u.kept_waiting j ne v.3,
        v.4,
        rw (u.kept_next j ne pj) (
            kept-Line is (some j) (ws j).next last (ground arith)
              (λ t e. let a = p t e in ground arith) (λ t e. let a = n t e in ground arith) v.5),
      )

  -- The stretch behind `i`, closed up to the entry before it.
  closed-Line :
      (is : List ℕ) (last : Option ℕ)
      → mem i is ≡ false
      → ((t : ℕ) → (ws i).previous ≡ some t → mem t is ≡ false)
      → Line w ws (some i) (ws i).next last is
      → Line w vs (ws i).previous (ws i).next (last_without (ws i).next (ws i).previous last) is
  closed-Line [] last f p v = (v.0, rw (v.0) refl)
  closed-Line (j ∷ is) last f p v =
      let ne : i ≢ j = ne_of_mem i j (j ∷ is) f (mem_self j is) in
      let pj : (ws i).previous ≢ some j =
        λ e. let a = p j e in let b = mem_self j is in absurd (cc) in
      let same : last_without (ws i).next (ws i).previous last ≡ last = rw (v.0) refl in
      (
        v.0,
        v.1,
        u.new_previous j ne v.0,
        u.kept_waiting j ne v.3,
        v.4,
        subst (λ x. Line w vs (some j) (vs j).next x is) (sym same)
            (rw (u.kept_next j ne pj) (
              kept-Line is (some j) (ws j).next last (ground arith)
                (λ t e. let a = p t e in ground arith)
                (λ t e.
                  let a = v.0 in
                  let q : j ≡ t = cc in let b = v.4 in subst (λ x. mem x is ≡ false) q b)
                v.5)),
      )

  -- The `next` of an entry before `i`.
  next_before :
      (j : ℕ) (is : List ℕ) (last : Option ℕ)
      → i ≢ j
      → mem j is ≡ false
      → mem i is ≡ true
      → Line w ws (some j) (ws j).next last is
      → (vs j).next ≡ head_without i (ws i).next is (ws j).next
  next_before j [] last ne f m v = absurd (cc)
  next_before j (k ∷ is) last ne f m v = go (i == k) refl
    where
      go : (t : Bool) → (i == k) ≡ t → (vs j).next ≡ (if t then (ws i).next else (ws j).next)
      go true e =
          let q : k ≡ i = ground arith in
          u.new_next j ne (subst (λ x. (ws x).previous ≡ some j) q v.2)
      go false e = u.kept_next j ne (λ h.
          elim (previous-mem w i ws (some k) (ws k).next last is j v.5 (ground arith) h) [
            | inl q ↦ let q' : k ≡ j = cc in ground arith
            | inr q ↦ ground arith
          ])

  pub removed-Line :
      (is : List ℕ) (prev head last : Option ℕ)
      → mem i is ≡ true
      → ((t : ℕ) → prev ≡ some t → mem t is ≡ false)
      → Line w ws prev head last is
      → Line w vs prev
          (head_without i (ws i).next is head)
          (last_without (ws i).next (ws i).previous last)
          (remove i is)
  removed-Line [] prev head last m p v = absurd (cc)
  removed-Line (j ∷ is) prev head last m p v = go (i == j) refl (λ e.
      removed-Line is (some j) (ws j).next last (ground arith)
        (λ t q. let q' : j ≡ t = cc in subst (λ x. mem x is ≡ false) q' v.4) v.5)
    where
      go :
          (t : Bool)
          → (i == j) ≡ t
          → ((i == j) ≡ false
              → Line w vs
                  (some j)
                  (head_without i (ws i).next is (ws j).next)
                  (last_without (ws i).next (ws i).previous last)
                  (remove i is))
          → Line w vs prev
              (if t then (ws i).next else head)
              (last_without (ws i).next (ws i).previous last)
              (if t then is else (j ∷ remove i is))
      go true e rest =
          let q : j ≡ i = ground arith in
          let back : (ws i).previous ≡ prev = subst (λ x. (ws x).previous ≡ prev) q v.2 in
          let fresh : mem i is ≡ false = subst (λ x. mem x is ≡ false) q v.4 in
          subst (λ x. Line w vs x (ws i).next (last_without (ws i).next (ws i).previous last) is)
            back
            (closed-Line is last fresh (λ t h. let a = p t (sym back ∙ h) in ground arith)
              (subst (λ x. Line w ws (some x) (ws x).next last is) q v.5))
      go false e rest =
          let ne : i ≢ j = ground arith in
          let m' : mem i is ≡ true = ground arith in
          let nj : (ws i).next ≢ some j = λ h.
            let a = next-mem w i ws (some j) (ws j).next last is j v.5 m' h in
            let b = v.4 in absurd (cc) in
          (
            v.0,
            v.1,
            u.kept_previous j ne nj ∙ v.2,
            u.kept_waiting j ne v.3,
            mem-remove i j is v.4,
            rw (next_before j is last ne v.4 m' v.5) (rest e),
          )

-- The two writes to the neighbours, for any links `p` and `n` of the entry that leaves.
module _ (ws : ℕ → Wait) (j : ℕ) where
  abbrev relinked : Option ℕ → Option ℕ → Wait
  relinked p n = set_previous n p (set_next p n ws) j

  pub relinked-client :
      (p n : Option ℕ)
      → ((relinked p n).inuse ≡ (ws j).inuse)
        × ((relinked p n).process ≡ (ws j).process)
        × ((relinked p n).w_queue ≡ (ws j).w_queue)
  relinked-client none none = ground arith
  relinked-client none (some t) = ground arith
  relinked-client (some t) none = ground arith
  relinked-client (some t) (some r) = ground arith

  relinked-next :
      (p n : Option ℕ)
      → (p ≢ some j → (relinked p n).next ≡ (ws j).next) × (p ≡ some j → (relinked p n).next ≡ n)
  relinked-next none none = (λ h. refl, λ h. absurd (cc))
  relinked-next none (some t) = (λ h. ground arith, λ h. absurd (cc))
  relinked-next (some t) none = (λ h. ground arith, λ h. let q : t ≡ j = cc in ground arith)
  relinked-next (some t) (some r) = (λ h. ground arith, λ h. let q : t ≡ j = cc in ground arith)

  relinked-previous :
      (p n : Option ℕ)
      → (n ≢ some j → (relinked p n).previous ≡ (ws j).previous)
        × (n ≡ some j → (relinked p n).previous ≡ p)
  relinked-previous none none = (λ h. refl, λ h. absurd (cc))
  relinked-previous (some t) none = (λ h. ground arith, λ h. absurd (cc))
  relinked-previous none (some t) = (λ h. ground arith, λ h. let q : t ≡ j = cc in ground arith)
  relinked-previous (some t) (some r) = (λ h. ground arith, λ h. let q : r ≡ j = cc in ground arith)

pub unlink-other :
    (i j : ℕ) (ws : ℕ → Wait) → i ≢ j → unlink i ws j ≡ relinked ws j (ws i).previous (ws i).next
unfolding unlink
unlink-other i j ws ne =
    put_ne (set_previous (ws i).next (ws i).previous (set_next (ws i).previous (ws i).next ws)) i j
      _ ne

relinked-IsWaiting :
    (w j : ℕ) (ws : ℕ → Wait) (p n : Option ℕ)
    → IsWaiting w (ws j)
    → IsWaiting w (relinked ws j p n)
relinked-IsWaiting w j ws p n v =
    let e = relinked-client ws j p n in
    record { used = e.0 ∙ v.used; live = rw (e.1) v.live; queued = e.2 ∙ v.queued }

pub unlink-IsUnlinked : (w i : ℕ) (ws : ℕ → Wait) → IsUnlinked w i ws (unlink i ws)
unlink-IsUnlinked w i ws = record {
  kept_waiting = λ j ne v.
      subst (λ l. IsWaiting w l) (sym (unlink-other i j ws ne))
        (relinked-IsWaiting w j ws (ws i).previous (ws i).next v);
  kept_next = λ j ne h.
      ap (λ (l : Wait). l.next) (unlink-other i j ws ne)
      ∙ (relinked-next ws j (ws i).previous (ws i).next).0 h;
  kept_previous = λ j ne h.
      ap (λ (l : Wait). l.previous) (unlink-other i j ws ne)
      ∙ (relinked-previous ws j (ws i).previous (ws i).next).0 h;
  new_next = λ j ne h.
      ap (λ (l : Wait). l.next) (unlink-other i j ws ne)
      ∙ (relinked-next ws j (ws i).previous (ws i).next).1 h;
  new_previous = λ j ne h.
      ap (λ (l : Wait). l.previous) (unlink-other i j ws ne)
      ∙ (relinked-previous ws j (ws i).previous (ws i).next).1 h;
}
