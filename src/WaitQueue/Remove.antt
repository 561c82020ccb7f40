-- ===== src/WaitQueue/Remove.antt =====
-- A client taken out of the chain of its queue, as `unlink` does.
use netrek_server.Base.{
  ℕ, ◌+◌, ◌≡◌, ◌≢◌, refl, sym, true, false, Option, none, some, List, [], ◌∷◌, arith, ◌==◌, ◌∙◌,
  if◌then◌else◌, subst, Bool-cases, inl, inr, ◌⊎◌,
}
use netrek_server.Queues.{Wait}
use netrek_server.WaitQueue.Line.{mem, size, IsWaiting, Line, mem-tail}

-- The list without `i`.
abbrev pub remove : ℕ → List ℕ → List ℕ
remove i [] = []
remove i (j ∷ js) = if i == j then js else (j ∷ remove i js)

pub mem-remove : (i j : ℕ) (is : List ℕ) → mem j is ≡ false → mem j (remove i is) ≡ false
mem-remove i j [] h = refl
mem-remove i j (k ∷ is) h = ground (arith, mem-remove i j is)

pub size-remove : (i : ℕ) (is : List ℕ) → mem i is ≡ true → size (remove i is) + 1 ≡ size is
size-remove i [] m = absurd (cc)
size-remove i (j ∷ is) m = ground (arith, size-remove i is)

-- The neighbours of an entry of the chain are entries of it, or its ends.
pub previous-mem :
    (w i : ℕ) (ws : ℕ → Wait) (prev head last : Option ℕ) (is : List ℕ) (t : ℕ)
    → Line w ws prev head last is
    → mem i is ≡ true
    → (ws i).previous ≡ some t
    → (prev ≡ some t) ⊎ (mem t is ≡ true)
previous-mem w i ws prev head last [] t v m e = absurd (cc)
previous-mem w i ws prev head last (j ∷ is) t v m e = elim (Bool-cases (i == j)) [
  | inl same ↦
      let q : i ≡ j = ground arith in
      let e' : (ws j).previous ≡ some t = subst (λ x. (ws x).previous ≡ some t) q e in
      inl (sym v.2 ∙ e')
  | inr other ↦ elim (previous-mem w i ws (some j) (ws j).next last is t v.5 (ground arith) e) [
    | inl q ↦ let q' : t ≡ j = cc in inr (ground arith)
    | inr q ↦ inr (mem-tail t j is q)
  ]
]

pub next-mem :
    (w i : ℕ) (ws : ℕ → Wait) (prev head last : Option ℕ) (is : List ℕ) (t : ℕ)
    → Line w ws prev head last is
    → mem i is ≡ true
    → (ws i).next ≡ some t
    → mem t is ≡ true
next-mem w i ws prev head last [] t v m e = absurd (cc)
next-mem w i ws prev head last (j ∷ is) t v m e = elim (Bool-cases (i == j)) [
  | inl same ↦
      let q : i ≡ j = ground arith in
      let e' : (ws j).next ≡ some t = subst (λ x. (ws x).next ≡ some t) q e in
      mem-tail t j is (head-mem is v.5 e')
  | inr other ↦
      mem-tail t j is (next-mem w i ws (some j) (ws j).next last is t v.5 (ground arith) e)
]
  where
    head-mem :
        (ks : List ℕ)
        → Line w ws (some j) (ws j).next last ks
        → (ws j).next ≡ some t
        → mem t ks ≡ true
    head-mem [] u e' = let u0 = u.0 in absurd (cc)
    head-mem (k ∷ ks) u e' = let u0 = u.0 in let q : t ≡ k = cc in ground arith

-- What is written when `i` leaves: the `next` of the entry before it and the `previous` of the one
-- behind it; the other entries of the chain are as they were.
pub record IsUnlinked (w i : ℕ) (ws vs : ℕ → Wait) : Type 0 where
  pub kept_waiting : (j : ℕ) → i ≢ j → IsWaiting w (ws j) → IsWaiting w (vs j)
  pub kept_next : (j : ℕ) → i ≢ j → (ws i).previous ≢ some j → (vs j).next ≡ (ws j).next
  pub kept_previous : (j : ℕ) → i ≢ j → (ws i).next ≢ some j → (vs j).previous ≡ (ws j).previous
  pub new_next : (j : ℕ) → i ≢ j → (ws i).previous ≡ some j → (vs j).next ≡ (ws i).next
  pub new_previous : (j : ℕ) → i ≢ j → (ws i).next ≡ some j → (vs j).previous ≡ (ws i).previous

-- The ends of a chain once `i` has left.
abbrev pub last_without : Option ℕ → Option ℕ → Option ℕ → Option ℕ
last_without next previous last = elim next [ none ↦ previous | some _ ↦ last ]

abbrev pub head_without : ℕ → Option ℕ → List ℕ → Option ℕ → Option ℕ
head_without i next [] head = head
head_without i next (j ∷ js) head = if i == j then next else head
