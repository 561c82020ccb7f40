-- ===== src/WaitQueue/Exit.antt =====
-- `queue_exit` takes a client out of its queue.
use netrek_server.Base.{
  ℕ, ◌≤◌, ◌<◌, ◌≡◌, ◌≢◌, refl, sym, ap, Bool, true, false, Option, none, some, List, [], ◌∷◌, arith,
  ◌==◌, ◌∙◌, put, put_self, put_ne, if◌then◌else◌, subst, Bool-cases, inl, inr, ltb,
}
use netrek_server.Queues.{Wait, Queue, Waits, max_waiting, max_queue}
use netrek_server.WaitQueue.{unlink, shorten, queue_update, exit_from, queue_exit}
use netrek_server.WaitQueue.Line.{mem, size, Line, IsLine}
use netrek_server.WaitQueue.Remove.{remove, size-remove, next-mem, head_without}
use netrek_server.WaitQueue.Renumber.{IsNumbered, queue_update_lem}
use netrek_server.WaitQueue.Append.{Line-used}
use netrek_server.WaitQueue.Unlink.{removed-Line, relinked-client, unlink-other, unlink-IsUnlinked}

-- The state between the unlinking and the renumbering.
abbrev left : ℕ → ℕ → Waits → Waits
left w i s = record {
  queues = put s.queues w (shorten (s.waiting i) (s.queues w));
  waiting = unlink i s.waiting;
}

previous-some :
    (w i j : ℕ) (ws : ℕ → Wait) (head last : Option ℕ) (is : List ℕ)
    → Line w ws (some j) head last is
    → mem i is ≡ true
    → (t : ℕ) × ((ws i).previous ≡ some t)
previous-some w i j ws head last [] v m = absurd (cc)
previous-some w i j ws head last (k ∷ is) v m = elim (Bool-cases (i == k)) [
  | inl e ↦ let q : k ≡ i = ground arith in (j, subst (λ x. (ws x).previous ≡ some j) q v.2)
  | inr e ↦ previous-some w i k ws (ws k).next last is v.5 (ground arith)
]

head-first :
    (w i : ℕ) (is : List ℕ) (s : Waits)
    → Line w s.waiting none (s.queues w).first (s.queues w).last is
    → mem i is ≡ true
    → (shorten (s.waiting i) (s.queues w)).first
      ≡ head_without i (s.waiting i).next is (s.queues w).first
unfolding shorten
head-first w i [] s v m = absurd (cc)
head-first w i (j ∷ is) s v m = go (i == j) refl
  where
    go :
        (t : Bool)
        → (i == j) ≡ t
        → elim (s.waiting i).previous [ none ↦ (s.waiting i).next | some _ ↦ (s.queues w).first ]
          ≡ (if t then (s.waiting i).next else (s.queues w).first)
    go true e =
        let q : j ≡ i = ground arith in
        let back : (s.waiting i).previous ≡ none =
          subst (λ x. (s.waiting x).previous ≡ none) q v.2 in
        rw (back) refl
    go false e =
        let (t, back) =
          previous-some w i j s.waiting (s.waiting j).next (s.queues w).last is v.5
            (ground arith) in
        rw (back) refl

unlink_self :
    (i : ℕ) (ws : ℕ → Wait) → ((unlink i ws i).previous ≡ none) × ((unlink i ws i).inuse ≡ false)
unfolding unlink
unlink_self i ws = ground arith

left-idle :
    (w i : ℕ) (is : List ℕ) (s : Waits)
    → IsLine w is s
    → mem i is ≡ true
    → (j : ℕ) → (unlink i s.waiting j).inuse ≡ false
    → (unlink i s.waiting j).previous ≡ none
left-idle w i is s v m j free = elim (Bool-cases (i == j)) [
  | inl e ↦
      let q : i ≡ j = ground arith in
      subst (λ x. (unlink i s.waiting x).previous ≡ none) q (unlink_self i s.waiting).0
  | inr e ↦
      let ne : i ≢ j = ground arith in
      let ws = s.waiting in
      let free' : (ws j).inuse ≡ false =
        sym (relinked-client ws j (ws i).previous (ws i).next).0
        ∙ ap (λ (l : Wait). l.inuse) (sym (unlink-other i j ws ne))
        ∙ free in
      (unlink-IsUnlinked w i ws).kept_previous j ne (λ h.
        let used =
          (Line-used w ws none (s.queues w).first (s.queues w).last is j v.line
            (next-mem w i ws none (s.queues w).first (s.queues w).last is j v.line m h)).used in
        absurd (cc))
      ∙ v.idle j free'
]

left-IsLine :
    (w i : ℕ) (is : List ℕ) (s : Waits)
    → IsLine w is s
    → mem i is ≡ true
    → IsLine w (remove i is) (left w i s)
unfolding shorten
left-IsLine w i is s v m = record {
  line =
      rw (put_self s.queues w (shorten (s.waiting i) (s.queues w)), head-first w i is s v.line m)
        (removed-Line w i s.waiting (unlink i s.waiting) (unlink-IsUnlinked w i s.waiting) is none
          (s.queues w).first (s.queues w).last m (λ t e. absurd (cc)) v.line);
  idle = left-idle w i is s v m;
}

removed-mem :
    (w i : ℕ) (ws : ℕ → Wait) (prev head last : Option ℕ) (is : List ℕ)
    → Line w ws prev head last is
    → mem i (remove i is) ≡ false
removed-mem w i ws prev head last [] v = refl
removed-mem w i ws prev head last (j ∷ is) v =
    go (i == j) refl (removed-mem w i ws (some j) (ws j).next last is v.5)
  where
    go :
        (t : Bool)
        → (i == j) ≡ t
        → mem i (remove i is) ≡ false
        → mem i (if t then is else (j ∷ remove i is)) ≡ false
    go true e rest = let q : j ≡ i = ground arith in subst (λ x. mem x is ≡ false) q v.4
    go false e rest = ground arith

exit-step :
    (w i : ℕ) (s : Waits)
    → w < max_queue
    → (s.waiting i).w_queue ≡ some w
    → queue_exit i s ≡ (true, queue_update w (left w i s))
unfolding queue_exit exit_from
exit-step w i s lt e =
    let t : ltb w max_queue ≡ true = ground arith in ap (λ o. exit_from o i s) e ∙ rw (t) refl

-- What a call that returns `r` and leaves `t` has done.
abbrev pub IsExited : ℕ → ℕ → List ℕ → Waits → Bool → Waits → Type 0
IsExited w i is s r t =
    (r ≡ true)
    × IsLine w (remove i is) t
    × IsNumbered t.waiting 0 (remove i is)
    × ((t.queues w).count ≡ size (remove i is))
    × ((v : ℕ) → w ≢ v → t.queues v ≡ s.queues v)
    × ((t.waiting i).inuse ≡ false)

-- A client of a queue that is the list `is` of at most MAXWAITING leaves it: the call succeeds, the
-- queue is the list without that client, the clients are numbered from 0 in order, the count is the
-- number of them, the other queues are as they were, and the client's entry is free again.
pub queue_exit_lem :
    (w i : ℕ) (is : List ℕ) (s : Waits)
    → w < max_queue
    → size is ≤ max_waiting
    → IsLine w is s
    → mem i is ≡ true
    → IsExited w i is s (queue_exit i s).0 (queue_exit i s).1
queue_exit_lem w i is s lt room v m =
    let used = Line-used w s.waiting none (s.queues w).first (s.queues w).last is i v.line m in
    let fresh = removed-mem w i s.waiting none (s.queues w).first (s.queues w).last is v.line in
    let fewer = size-remove i is m in
    let u =
      queue_update_lem w (remove i is) (left w i s) lt (omega arith) (left-IsLine w i is s v m) in
    rw (exit-step w i s lt used.queued) (
      refl,
      u.0,
      u.1,
      ap (λ (q : Queue). q.count) u.2,
      λ x ne. u.3 x ne ∙ put_ne s.queues w x _ ne,
      ap (λ (l : Wait). l.inuse) (u.4 i fresh) ∙ (unlink_self i s.waiting).1,
    )
