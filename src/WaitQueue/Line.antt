-- ===== src/WaitQueue/Line.antt =====
-- A wait queue as a list: the doubly linked chain of ntserv/queue.c from `first` to `last`.
use netrek_server.Base.{
  ℕ, ◌+◌, ◌<◌, ◌≡◌, Bool, true, false, ◌||◌, Option, none, some, List, [], ◌∷◌, arith, ◌∙◌, ◌==◌,
}
use netrek_server.Queues.{Wait, Waits, max_waiting}

abbrev pub mem : ℕ → List ℕ → Bool
mem i [] = false
mem i (j ∷ js) = (i == j) || mem i js

abbrev pub size : List ℕ → ℕ
size [] = 0
size (j ∷ js) = size js + 1

-- The entry is taken by a live client of queue `w`.
pub record IsWaiting (w : ℕ) (l : Wait) : Type 0 where
  pub used : l.inuse ≡ true
  pub live : (l.process == 0) ≡ false
  pub queued : l.w_queue ≡ some w

-- The entries of `is`, in order, are those from `head` to `last`, linked both ways, the first one
-- back to `prev`; no entry comes twice and each is below MAXWAITING.
abbrev pub Line : ℕ → (ℕ → Wait) → Option ℕ → Option ℕ → Option ℕ → List ℕ → Type 0
Line w ws prev head last [] = (head ≡ none) × (last ≡ prev)
Line w ws prev head last (i ∷ is) =
    (head ≡ some i)
    × (i < max_waiting)
    × ((ws i).previous ≡ prev)
    × IsWaiting w (ws i)
    × (mem i is ≡ false)
    × Line w ws (some i) (ws i).next last is

-- Queue `w` of the state is the list `is`, and a free entry has no previous one.
pub record IsLine (w : ℕ) (is : List ℕ) (s : Waits) : Type 0 where
  pub line : Line w s.waiting none (s.queues w).first (s.queues w).last is
  pub idle : (i : ℕ) → (s.waiting i).inuse ≡ false → (s.waiting i).previous ≡ none

-- What the chain reads of an entry.
pub record SameLinks (a b : Wait) : Type 0 where
  pub same_previous : b.previous ≡ a.previous
  pub same_next : b.next ≡ a.next
  pub same_inuse : b.inuse ≡ a.inuse
  pub same_process : b.process ≡ a.process
  pub same_queue : b.w_queue ≡ a.w_queue

pub IsWaiting-congr : (w : ℕ) (a b : Wait) → SameLinks a b → IsWaiting w a → IsWaiting w b
IsWaiting-congr w a b h v = record {
  used = h.same_inuse ∙ v.used;
  live = rw (h.same_process) v.live;
  queued = h.same_queue ∙ v.queued;
}

pub mem_self : (i : ℕ) (is : List ℕ) → mem i (i ∷ is) ≡ true
mem_self i is = ground arith

pub mem-tail : (i j : ℕ) (is : List ℕ) → mem i is ≡ true → mem i (j ∷ is) ≡ true
mem-tail i j is h = ground arith

pub Line-congr :
    (w : ℕ) (ws vs : ℕ → Wait) (is : List ℕ) (prev head last : Option ℕ)
    → ((j : ℕ) → mem j is ≡ true → SameLinks (ws j) (vs j))
    → Line w ws prev head last is
    → Line w vs prev head last is
Line-congr w ws vs [] prev head last h v = v
Line-congr w ws vs (i ∷ is) prev head last h v =
    let e = h i (mem_self i is) in
    (
      v.0,
      v.1,
      e.same_previous ∙ v.2,
      IsWaiting-congr w (ws i) (vs i) e v.3,
      v.4,
      Line-congr w ws vs is (some i) (vs i).next last (λ j m. h j (mem-tail j i is m))
          (rw (e.same_next) v.5),
    )
