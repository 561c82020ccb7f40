-- ===== src/WaitQueue/Entered.antt =====
-- The entry that `queue_add` of ntserv/queue.c takes, linked in at the end of its queue.
use netrek_server.Base.{
  ℕ, ◌<◌, ◌≡◌, ◌≢◌, refl, sym, ap, true, false, Option, none, some, List, [], ◌∷◌, ◌++◌, arith,
  ◌==◌, ◌∙◌, put, put_self, put_ne, put_keeps, subst, inl, inr, Bool-cases,
}
use netrek_server.Queues.{Wait, Queue, Waits, max_waiting}
use netrek_server.WaitQueue.{joined, joined_queue, enter, set_next}
use netrek_server.WaitQueue.Line.{mem, IsWaiting, Line, IsLine}
use netrek_server.WaitQueue.Append.{
  last-mem, head_with, IsAppended, append-Line, Line-used, fresh_of_free,
}

module _ (pid w i : ℕ) (live : pid ≢ 0) where
  joined-IsWaiting : (q : Queue) (l : Wait) → IsWaiting w (joined pid w q l)
  unfolding joined
  joined-IsWaiting q l = record { used = ground arith; live = ground arith; queued = ground arith }

  joined-next : (q : Queue) (l : Wait) → (joined pid w q l).next ≡ none
  unfolding joined
  joined-next q l = ground arith

  -- The two cases of the source, as writes to the entries.
  alone_lem :
      (s : Waits)
      → (s.queues w).first ≡ none
      → (enter pid w i s).waiting ≡ put s.waiting i (joined pid w (s.queues w) (s.waiting i))
  unfolding enter
  alone_lem s e = rw (e) refl

  behind_lem :
      (s : Waits) (f t : ℕ)
      → (s.queues w).first ≡ some f
      → (s.queues w).last ≡ some t
      → let ws : ℕ → Wait = put s.waiting t (record (s.waiting t) { next = some i }) in
        (enter pid w i s).waiting ≡ put ws i (joined pid w (s.queues w) (ws i))
  unfolding enter
  behind_lem s f t e e' = rw (e, e') refl

  joined-previous :
      (q : Queue) (l : Wait) (f : ℕ) → q.first ≡ some f → (joined pid w q l).previous ≡ q.last
  unfolding joined
  joined-previous q l f e = rw (e) refl

  joined_alone-previous :
      (q : Queue) (l : Wait) → q.first ≡ none → (joined pid w q l).previous ≡ l.previous
  unfolding joined
  joined_alone-previous q l e = rw (e) refl

  -- The writes behind the last entry `t` of a chain are those of an append.
  behind-Appended :
      (q : Queue) (f t : ℕ) (ws : ℕ → Wait) (is : List ℕ)
      → q.first ≡ some f
      → q.last ≡ some t
      → mem i is ≡ false
      → ((j : ℕ) → mem j is ≡ true → IsWaiting w (ws j))
      → let us : ℕ → Wait = put ws t (record (ws t) { next = some i }) in
        IsAppended w i q.last ws (put us i (joined pid w q (us i))) is
  behind-Appended q f t ws is e e' fresh used = record {
    old_previous = λ j m.
        ap (λ (l : Wait). l.previous) (put_ne us i j new (ne j m))
        ∙ put_keeps (λ (l : Wait). l.previous) ws t _ j refl;
    old_waiting =
        λ j m. subst (λ l. IsWaiting w l) (sym (put_ne us i j new (ne j m))) (used_us j m);
    old_next = λ j m h.
        ap (λ (l : Wait). l.next)
          (put_ne us i j new (ne j m) ∙ put_ne ws t j _ (λ q'. h (e' ∙ ap some q')));
    last_next = λ j m h.
        let same : t ≡ j = cc in
        ap (λ (l : Wait). l.next) (put_ne us i j new (ne j m))
        ∙ subst (λ k. (us k).next ≡ some i) same
            (ap (λ (l : Wait). l.next) (put_self ws t (record (ws t) { next = some i })));
    new_waiting = subst (λ l. IsWaiting w l) (sym (put_self us i new)) (joined-IsWaiting q (us i));
    new_previous = ap (λ (l : Wait). l.previous) (put_self us i new) ∙ joined-previous q (us i) f e;
    new_next = ap (λ (l : Wait). l.next) (put_self us i new) ∙ joined-next q (us i);
  }
    where
      us : ℕ → Wait
      us = put ws t (record (ws t) { next = some i })

      new : Wait
      new = joined pid w q (us i)

      ne : (j : ℕ) → mem j is ≡ true → i ≢ j
      ne j m h = let m' : mem i is ≡ true = subst (λ x. mem x is ≡ true) (sym h) m in absurd (cc)

      used_us : (j : ℕ) → mem j is ≡ true → IsWaiting w (us j)
      used_us j m = record {
        used = put_keeps (λ (l : Wait). l.inuse) ws t _ j refl ∙ (used j m).used;
        live =
            rw (put_keeps (λ (l : Wait). l.process) ws t (record (ws t) { next = some i }) j refl)
              (used j m).live;
        queued = put_keeps (λ (l : Wait). l.w_queue) ws t _ j refl ∙ (used j m).queued;
      }

  -- What `enter` keeps of an entry, and of the queues.
  enter-keeps :
      (s : Waits) (j : ℕ)
      → i ≢ j
      → let l : Wait = (enter pid w i s).waiting j in
        (l.inuse ≡ (s.waiting j).inuse) × (l.previous ≡ (s.waiting j).previous)
  unfolding enter
  enter-keeps s j ne = go (s.queues w).first (s.queues w).last
    where
      go :
          (f t : Option ℕ)
          → let linked : ℕ → Wait = elim f [
            | none ↦ s.waiting
            | some _ ↦ set_next t (some i) s.waiting
          ] in
            let l : Wait = put linked i (joined pid w (s.queues w) (linked i)) j in
            (l.inuse ≡ (s.waiting j).inuse) × (l.previous ≡ (s.waiting j).previous)
      go none t = ground arith
      go (some _) none = ground arith
      go (some _) (some k) = ground arith

  enter-idle :
      (s : Waits)
      → ((j : ℕ) → (s.waiting j).inuse ≡ false → (s.waiting j).previous ≡ none)
      → ((enter pid w i s).waiting i).inuse ≡ true
      → (j : ℕ) → ((enter pid w i s).waiting j).inuse ≡ false
      → ((enter pid w i s).waiting j).previous ≡ none
  enter-idle s idle used j free = elim (Bool-cases (i == j)) [
    | inl e ↦
        let same : i ≡ j = ground arith in
        let used' = subst (λ x. ((enter pid w i s).waiting x).inuse ≡ true) same used in absurd (cc)
    | inr e ↦
        let ne : i ≢ j = ground arith in let k = enter-keeps s j ne in k.1 ∙ idle j (sym k.0 ∙ free)
  ]

  enter-queue : (s : Waits) → (enter pid w i s).queues w ≡ joined_queue i (s.queues w)
  unfolding enter
  enter-queue s = put_self s.queues w _

  joined_queue-ends :
      (q : Queue)
      → ((joined_queue i q).first ≡ head_with i q.first) × ((joined_queue i q).last ≡ some i)
  unfolding joined_queue
  joined_queue-ends q = ground arith

  enter-chain :
      (s : Waits) (is : List ℕ)
      → i < max_waiting
      → (s.waiting i).inuse ≡ false
      → IsLine w is s
      → Line w
          (enter pid w i s).waiting
          none
          (head_with i (s.queues w).first)
          (some i)
          (is ++ (i ∷ []))
  enter-chain s [] lt free v =
      let first = v.line.0 in
      let back = v.line.1 in
      let old = s.waiting i in
      rw (alone_lem s first) (
        ap (λ h. head_with i h) first,
        lt,
        ap (λ (l : Wait). l.previous) (put_self s.waiting i (joined pid w (s.queues w) old))
            ∙ joined_alone-previous (s.queues w) old first
            ∙ v.idle i free,
        subst (λ l. IsWaiting w l) (sym (put_self s.waiting i (joined pid w (s.queues w) old)))
            (joined-IsWaiting (s.queues w) old),
        refl,
        (
          ap (λ (l : Wait). l.next) (put_self s.waiting i (joined pid w (s.queues w) old))
              ∙ joined-next (s.queues w) old,
          refl,
        ),
      )
  enter-chain s (j ∷ is) lt free v =
      let (t, e, m) = last-mem w s.waiting none (s.queues w).first (s.queues w).last j is v.line in
      let fresh = fresh_of_free w (j ∷ is) s i v free in
      let us : ℕ → Wait = put s.waiting t (record (s.waiting t) { next = some i }) in
      let vs : ℕ → Wait = put us i (joined pid w (s.queues w) (us i)) in
      subst
        (λ (xs : ℕ → Wait).
          Line w xs none (head_with i (s.queues w).first) (some i) ((j ∷ is) ++ (i ∷ [])))
        (sym (behind_lem s j t v.line.0 e))
        (append-Line w i (s.queues w).last none (s.queues w).first s.waiting vs (j ∷ is) lt fresh
          v.line
          (behind-Appended (s.queues w) j t s.waiting (j ∷ is) v.line.0 e fresh (λ k.
            Line-used w s.waiting none (s.queues w).first (s.queues w).last (j ∷ is) k v.line)))

  enter-used : (s : Waits) → ((enter pid w i s).waiting i).inuse ≡ true
  unfolding enter joined
  enter-used s = ground arith

  pub enter-client :
      (s : Waits)
      → (((enter pid w i s).waiting i).count ≡ (s.queues w).count)
        × (((enter pid w i s).waiting i).process ≡ pid)
  unfolding enter joined
  enter-client s = ground arith

  pub enter-IsLine :
      (s : Waits) (is : List ℕ)
      → i < max_waiting
      → (s.waiting i).inuse ≡ false
      → IsLine w is s
      → IsLine w (is ++ (i ∷ [])) (enter pid w i s)
  enter-IsLine s is lt free v = record {
    line =
        rw (enter-queue s, (joined_queue-ends (s.queues w)).0, (joined_queue-ends (s.queues w)).1)
          (enter-chain s is lt free v);
    idle = enter-idle s v.idle (enter-used s);
  }
