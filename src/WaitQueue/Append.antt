-- ===== src/WaitQueue/Append.antt =====
-- A client put at the end of the chain of its queue.
use netrek_server.Base.{
  ℕ, ◌<◌, ◌≡◌, ◌≢◌, refl, true, false, Option, none, some, List, [], ◌∷◌, ◌++◌, arith, ◌==◌, ◌∙◌,
  subst, inl, inr, Bool-cases,
}
use netrek_server.Queues.{Wait, Waits, max_waiting}
use netrek_server.WaitQueue.Line.{mem, IsWaiting, Line, IsLine, mem_self, mem-tail}

pub mem-append : (i j : ℕ) (is : List ℕ) → mem j is ≡ false → i ≢ j → mem j (is ++ (i ∷ [])) ≡ false
mem-append i j [] h ne = ground arith
mem-append i j (k ∷ is) h ne = ground (arith, mem-append i j is)

-- The last entry of a chain is one of it.
pub last-mem :
    (w : ℕ) (ws : ℕ → Wait) (prev head last : Option ℕ) (j : ℕ) (is : List ℕ)
    → Line w ws prev head last (j ∷ is)
    → (t : ℕ) × (last ≡ some t) × (mem t (j ∷ is) ≡ true)
last-mem w ws prev head last j [] v = (j, v.5.1, mem_self j [])
last-mem w ws prev head last j (k ∷ is) v =
    let (t, e, m) = last-mem w ws (some j) (ws j).next last k is v.5 in
    (t, e, mem-tail t j (k ∷ is) m)

-- The head of a chain once `i` is at its end.
abbrev pub head_with : ℕ → Option ℕ → Option ℕ
head_with i none = some i
head_with i (some j) = some j

-- What is written for `i` at the end of the chain `is`: its own entry, and the `next` of the last one.
pub record IsAppended (w i : ℕ) (last : Option ℕ) (ws vs : ℕ → Wait) (is : List ℕ) : Type 0 where
  pub old_previous : (j : ℕ) → mem j is ≡ true → (vs j).previous ≡ (ws j).previous
  pub old_waiting : (j : ℕ) → mem j is ≡ true → IsWaiting w (vs j)
  pub old_next : (j : ℕ) → mem j is ≡ true → last ≢ some j → (vs j).next ≡ (ws j).next
  pub last_next : (j : ℕ) → mem j is ≡ true → last ≡ some j → (vs j).next ≡ some i
  pub new_waiting : IsWaiting w (vs i)
  pub new_previous : (vs i).previous ≡ last
  pub new_next : (vs i).next ≡ none

IsAppended-tail :
    (w i j : ℕ) (last : Option ℕ) (ws vs : ℕ → Wait) (is : List ℕ)
    → IsAppended w i last ws vs (j ∷ is)
    → IsAppended w i last ws vs is
IsAppended-tail w i j last ws vs is a = record {
  old_previous = λ k m. a.old_previous k (mem-tail k j is m);
  old_waiting = λ k m. a.old_waiting k (mem-tail k j is m);
  old_next = λ k m. a.old_next k (mem-tail k j is m);
  last_next = λ k m. a.last_next k (mem-tail k j is m);
  new_waiting = a.new_waiting;
  new_previous = a.new_previous;
  new_next = a.new_next;
}

next_of_entry :
    (w i j : ℕ) (last prev head : Option ℕ) (ws vs : ℕ → Wait) (is : List ℕ)
    → Line w ws prev head last (j ∷ is)
    → IsAppended w i last ws vs (j ∷ is)
    → (vs j).next ≡ head_with i (ws j).next
next_of_entry w i j last prev head ws vs [] v a = rw (v.5.0) (a.last_next j (mem_self j []) v.5.1)
next_of_entry w i j last prev head ws vs (k ∷ is) v a =
    let (t, e, m) = last-mem w ws (some j) (ws j).next last k is v.5 in
    let fresh : mem j (k ∷ is) ≡ false = v.4 in
    let ne : last ≢ some j = λ q.
      let same : t ≡ j = cc in
      let m' : mem j (k ∷ is) ≡ true = subst (λ x. mem x (k ∷ is) ≡ true) same m in absurd (cc) in
    a.old_next j (mem_self j (k ∷ is)) ne ∙ rw (v.5.0) refl

pub append-Line :
    (w i : ℕ) (last prev head : Option ℕ) (ws vs : ℕ → Wait) (is : List ℕ)
    → i < max_waiting
    → mem i is ≡ false
    → Line w ws prev head last is
    → IsAppended w i last ws vs is
    → Line w vs prev (head_with i head) (some i) (is ++ (i ∷ []))
append-Line w i last prev head ws vs [] lt fresh v a =
    (rw (v.0) refl, lt, a.new_previous ∙ v.1, a.new_waiting, refl, (a.new_next, refl))
append-Line w i last prev head ws vs (j ∷ is) lt fresh v a =
    let ne : i ≢ j = ground arith in
    let rest : mem i is ≡ false = ground arith in
    (
      rw (v.0) refl,
      v.1,
      a.old_previous j (mem_self j is) ∙ v.2,
      a.old_waiting j (mem_self j is),
      mem-append i j is v.4 ne,
      rw (next_of_entry w i j last prev head ws vs is v a) (
          append-Line w i last (some j) (ws j).next ws vs is lt rest v.5
            (IsAppended-tail w i j last ws vs is a)),
    )

pub Line-used :
    (w : ℕ) (ws : ℕ → Wait) (prev head last : Option ℕ) (is : List ℕ) (k : ℕ)
    → Line w ws prev head last is
    → mem k is ≡ true
    → IsWaiting w (ws k)
Line-used w ws prev head last [] k v m = absurd (cc)
Line-used w ws prev head last (j ∷ is) k v m = elim (Bool-cases (k == j)) [
  | inl e ↦ let same : j ≡ k = ground arith in subst (λ x. IsWaiting w (ws x)) same v.3
  | inr e ↦ Line-used w ws (some j) (ws j).next last is k v.5 (ground arith)
]

pub fresh_of_free :
    (w : ℕ) (is : List ℕ) (s : Waits) (i : ℕ)
    → IsLine w is s
    → (s.waiting i).inuse ≡ false
    → mem i is ≡ false
fresh_of_free w is s i v free = elim (Bool-cases (mem i is)) [
  | inl m ↦
      let u =
        (Line-used w s.waiting none (s.queues w).first (s.queues w).last is i v.line m).used in
      absurd (cc)
  | inr f ↦ f
]
