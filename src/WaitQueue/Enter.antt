-- ===== src/WaitQueue/Enter.antt =====
-- `queue_add` puts a client at the end of its queue.
use netrek_server.Base.{
  Option-cases, ℕ, ◌<◌, ◌≡◌, ◌≢◌, refl, Bool, true, false, not, Option, none, some, List, [], ◌∷◌,
  ◌++◌, arith, if◌then◌else◌, find, find-some, find-none, subst, inl, inr, ◌⊎◌,
}
use netrek_server.Queues.{Waits, max_waiting}
use netrek_server.WaitQueue.{enter, add_at, queue_add}
use netrek_server.WaitQueue.Line.{IsLine}
use netrek_server.WaitQueue.Entered.{enter-client, enter-IsLine}

-- What a call that ends in `r` and the state `t` has done.
abbrev pub IsAdded : ℕ → ℕ → List ℕ → Waits → Option ℕ → Waits → Type 0
IsAdded pid w is s r t =
    ((i : ℕ)
      → r ≡ some i
      → ((s.waiting i).inuse ≡ false)
        × IsLine w (is ++ (i ∷ [])) t
        × ((t.waiting i).count ≡ (s.queues w).count)
        × ((t.waiting i).process ≡ pid))
    × (r ≡ none
        → (t ≡ s)
          × (((s.queues w).q_flags.is_open ≡ false)
              ⊎ ((i : ℕ) → i < max_waiting → (s.waiting i).inuse ≡ true)))

add_at-some :
    (pid w i : ℕ) (is : List ℕ) (s : Waits)
    → pid ≢ 0
    → i < max_waiting
    → (s.waiting i).inuse ≡ false
    → IsLine w is s
    → IsAdded pid w is s (some i) (enter pid w i s)
add_at-some pid w i is s live lt free v = (
  λ k e.
      let same : i ≡ k = cc in
      subst
        (λ x.
          ((s.waiting x).inuse ≡ false)
          × IsLine w (is ++ (x ∷ [])) (enter pid w i s)
          × (((enter pid w i s).waiting x).count ≡ (s.queues w).count)
          × (((enter pid w i s).waiting x).process ≡ pid))
        same
        (
          free,
          enter-IsLine pid w i live s is lt free v,
          (enter-client pid w i live s).0,
          (enter-client pid w i live s).1,
        ),
  λ e. absurd (cc),
)

add_at_lem :
    (pid w : ℕ) (is : List ℕ) (s : Waits) (found : Option ℕ)
    → pid ≢ 0
    → IsLine w is s
    → find max_waiting 0 (λ i. not (s.waiting i).inuse) ≡ found
    → IsAdded pid w is s (add_at pid w found s).0 (add_at pid w found s).1
unfolding add_at
add_at_lem pid w is s none live v e = (
  λ i e'. absurd (cc),
  λ e'. (
    refl,
    inr (λ i lt.
        let t =
          find-none max_waiting 0 (λ j. not (s.waiting j).inuse) i e (omega arith) (omega arith) in
        ground arith),
  ),
)
add_at_lem pid w is s (some i) live v e =
    let t = find-some max_waiting 0 (λ j. not (s.waiting j).inuse) i e in
    add_at-some pid w i is s live (omega arith) (ground arith) v

pub queue_add-IsAdded :
    (pid w : ℕ) (is : List ℕ) (s : Waits)
    → pid ≢ 0
    → IsLine w is s
    → IsAdded pid w is s (queue_add pid w s).0 (queue_add pid w s).1
unfolding queue_add
queue_add-IsAdded pid w is s live v = go (s.queues w).q_flags.is_open refl
  where
    go :
        (t : Bool)
        → (s.queues w).q_flags.is_open ≡ t
        → let r : Option ℕ × Waits =
            if t
            then add_at pid w (find max_waiting 0 (λ i. not (s.waiting i).inuse)) s
            else (none, s) in
          IsAdded pid w is s r.0 r.1
    go true e = add_at_lem pid w is s _ live v refl
    go false e = (λ i e'. absurd (cc), λ e'. (refl, inl e))

-- The two outcomes of a call, told apart by what it returns.
abbrev pub IsAnswered : ℕ → ℕ → List ℕ → Waits → Option ℕ → Waits → Type 0
IsAnswered pid w is s r t =
    ((i : ℕ) × (r ≡ some i)
      × ((s.waiting i).inuse ≡ false)
      × IsLine w (is ++ (i ∷ [])) t
      × ((t.waiting i).count ≡ (s.queues w).count)
      × ((t.waiting i).process ≡ pid))
    ⊎ ((r ≡ none)
        × (t ≡ s)
        × (((s.queues w).q_flags.is_open ≡ false)
            ⊎ ((i : ℕ) → i < max_waiting → (s.waiting i).inuse ≡ true)))

-- `queue_add` on a queue that is the list `is`. If it returns an entry, that entry was free, the queue
-- is the same list with it at the end, its number is the count of the queue before, and the process is
-- the caller's. If it returns none, nothing has changed, and the queue is closed or all MAXWAITING
-- entries are in use.
pub queue_add_lem :
    (pid w : ℕ) (is : List ℕ) (s : Waits)
    → pid ≢ 0
    → IsLine w is s
    → IsAnswered pid w is s (queue_add pid w s).0 (queue_add pid w s).1
queue_add_lem pid w is s live v =
    let a = queue_add-IsAdded pid w is s live v in
    elim (Option-cases (queue_add pid w s).0) [
      | inl e ↦ inr (e, (a.1 e).0, (a.1 e).1)
      | inr (i, e) ↦ inl (i, e, (a.0 i e).0, (a.0 i e).1, (a.0 i e).2, (a.0 i e).3)
    ]
