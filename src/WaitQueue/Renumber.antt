-- ===== src/WaitQueue/Renumber.antt =====
-- `queue_update` numbers the clients of a queue by their places in it.
use netrek_server.Base.{
  ℕ, zero, suc, ◌+◌, ◌≤◌, ◌<◌, ◌≡◌, ◌≢◌, refl, sym, ap, true, false, Option, none, some, List, [],
  ◌∷◌, arith, ◌∙◌, put, put_self, put_ne, put_keeps, ltb,
}
use netrek_server.Queues.{Wait, Waits, max_waiting, max_queue}
use netrek_server.WaitQueue.{renumber, counted, queue_update}
use netrek_server.WaitQueue.Line.{mem, size, IsWaiting, Line, IsLine, SameLinks, Line-congr}

-- The clients of the list are numbered from `k` on.
abbrev pub IsNumbered : (ℕ → Wait) → ℕ → List ℕ → Type 0
IsNumbered ws k [] = k ≡ k
IsNumbered ws k (i ∷ is) = ((ws i).count ≡ k) × IsNumbered ws (k + 1) is

put_count-SameLinks :
    (ws : ℕ → Wait) (i k j : ℕ) → SameLinks (ws j) (put ws i (record (ws i) { count = k }) j)
put_count-SameLinks ws i k j = record {
  same_previous = put_keeps (λ (l : Wait). l.previous) ws i _ j refl;
  same_next = put_keeps (λ (l : Wait). l.next) ws i _ j refl;
  same_inuse = put_keeps (λ (l : Wait). l.inuse) ws i _ j refl;
  same_process = put_keeps (λ (l : Wait). l.process) ws i _ j refl;
  same_queue = put_keeps (λ (l : Wait). l.w_queue) ws i _ j refl;
}

-- One step of the loop, at an entry that a live client holds.
renumber-step :
    (w n k i : ℕ) (ws : ℕ → Wait)
    → IsWaiting w (ws i)
    → renumber (suc n) k (some i) ws
      ≡ renumber n (k + 1) (ws i).next (put ws i (record (ws i) { count = k }))
unfolding renumber
renumber-step w n k i ws v = rw (v.used, v.live) refl

SameLinks-trans : (a b c : Wait) → SameLinks a b → SameLinks b c → SameLinks a c
SameLinks-trans a b c g h = record {
  same_previous = h.same_previous ∙ g.same_previous;
  same_next = h.same_next ∙ g.same_next;
  same_inuse = h.same_inuse ∙ g.same_inuse;
  same_process = h.same_process ∙ g.same_process;
  same_queue = h.same_queue ∙ g.same_queue;
}

SameLinks-refl : (a : Wait) → SameLinks a a
SameLinks-refl a = record {
  same_previous = refl;
  same_next = refl;
  same_inuse = refl;
  same_process = refl;
  same_queue = refl;
}

-- What the loop leaves, over the rest of a chain that it counts from `k` on.
pub record IsRenumbered (k : ℕ) (is : List ℕ) (ws : ℕ → Wait) (r : ℕ × (ℕ → Wait)) : Type 0 where
  pub total : r.0 ≡ k + size is
  pub numbered : IsNumbered r.1 k is
  pub links : (j : ℕ) → SameLinks (ws j) (r.1 j)
  pub others : (j : ℕ) → mem j is ≡ false → r.1 j ≡ ws j
  pub frame : (j : ℕ) → r.1 j ≡ record (ws j) { count = (r.1 j).count }

recounted :
    (ws : ℕ → Wait) (i k j n : ℕ)
    → (record (put ws i (record (ws i) { count = k }) j) { count = n })
      ≡ (record (ws j) { count = n })
recounted ws i k j n =
    put_keeps (λ (l : Wait). record l { count = n }) ws i (record (ws i) { count = k }) j refl

renumber_round :
    (k i : ℕ) (is : List ℕ) (ws : ℕ → Wait) (r : ℕ × (ℕ → Wait))
    → mem i is ≡ false
    → IsRenumbered (k + 1) is (put ws i (record (ws i) { count = k })) r
    → IsRenumbered k (i ∷ is) ws r
renumber_round k i is ws r fresh rest = record {
  total = let t = rest.total in omega arith;
  numbered = (
    ap (λ (l : Wait). l.count) (rest.others i fresh ∙ put_self ws i (record (ws i) { count = k })),
    rest.numbered,
  );
  links = λ j. SameLinks-trans (ws j) (vs j) (r.1 j) (put_count-SameLinks ws i k j) (rest.links j);
  others = λ j m. rest.others j (ground arith) ∙ put_ne ws i j _ (ground arith);
  frame = λ j. rest.frame j ∙ recounted ws i k j (r.1 j).count;
}
  where
    vs : ℕ → Wait
    vs = put ws i (record (ws i) { count = k })

-- Over a chain that the loop has room for, it counts every client, numbers them by their places,
-- and changes no link and no entry of another queue.
pub renumber_lem :
    (w n k : ℕ) (last prev head : Option ℕ) (is : List ℕ) (ws : ℕ → Wait)
    → size is ≤ n
    → Line w ws prev head last is
    → IsRenumbered k is ws (renumber n k head ws)
unfolding renumber
renumber_lem w n k last prev head [] ws room v = rw (v.0) (record {
  total = omega arith;
  numbered = refl;
  links = λ j. SameLinks-refl (ws j);
  others = λ j m. refl;
  frame = λ j. refl;
})
renumber_lem w zero k last prev head (i ∷ is) ws room v = absurd (omega arith)
renumber_lem w (suc n) k last prev head (i ∷ is) ws room v =
    let vs : ℕ → Wait = put ws i (record (ws i) { count = k }) in
    rw (v.0, renumber-step w n k i ws v.3)
      (renumber_round k i is ws (renumber n (k + 1) (ws i).next vs) v.4 (
        renumber_lem w n (k + 1) last (some i) (ws i).next is vs (omega arith) (
          Line-congr w ws vs is (some i) (ws i).next last (λ j m. put_count-SameLinks ws i k j)
            v.5)))

counted-IsLine :
    (w : ℕ) (is : List ℕ) (s : Waits) (r : ℕ × (ℕ → Wait))
    → IsLine w is s
    → ((j : ℕ) → SameLinks (s.waiting j) (r.1 j))
    → IsLine w is (counted w r s)
unfolding counted
counted-IsLine w is s r v links = record {
  line = rw (put_self s.queues w (record (s.queues w) { count = r.0 })) (
      Line-congr w s.waiting r.1 is none (s.queues w).first (s.queues w).last (λ j m. links j)
        v.line);
  idle = λ i free. (links i).same_previous ∙ v.idle i (sym (links i).same_inuse ∙ free);
}

-- The queue is the list `is` in `t`, numbered and counted: of its own record only the count may differ
-- from `s`, of its clients' entries only their numbers, and what is not of it is as in `s`.
abbrev pub IsUpdated : ℕ → List ℕ → Waits → Waits → Type 0
IsUpdated w is s t =
    IsLine w is t
    × IsNumbered t.waiting 0 is
    × (t.queues w ≡ record (s.queues w) { count = size is })
    × ((v : ℕ) → w ≢ v → t.queues v ≡ s.queues v)
    × ((j : ℕ) → mem j is ≡ false → t.waiting j ≡ s.waiting j)
    × ((j : ℕ) → t.waiting j ≡ record (s.waiting j) { count = (t.waiting j).count })

-- `queue_update` of a queue that is a list of at most MAXWAITING clients: the queue is the same
-- list after it, its clients are numbered by their places from 0 and are else as they were, its count
-- is the number of them and its record is else as it was, and the other queues and all entries that
-- are not of the queue are unchanged.
pub queue_update_lem :
    (w : ℕ) (is : List ℕ) (s : Waits)
    → w < max_queue
    → size is ≤ max_waiting
    → IsLine w is s
    → IsUpdated w is s (queue_update w s)
unfolding queue_update counted
queue_update_lem w is s lt room v =
    let r =
      renumber_lem w max_waiting 0 (s.queues w).last none (s.queues w).first is s.waiting room
        v.line in
    let e : ltb w max_queue ≡ true = ground arith in
    let total = r.total in
    rw (e) (
      counted-IsLine w is s (renumber max_waiting 0 (s.queues w).first s.waiting) v r.links,
      r.numbered,
      put_self s.queues w _ ∙ ap (λ (n : ℕ). record (s.queues w) { count = n }) (omega arith),
      λ u ne. put_ne s.queues w u _ ne,
      r.others,
      r.frame,
    )
