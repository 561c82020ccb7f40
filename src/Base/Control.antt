-- ===== src/Base/Control.antt =====
-- Searches and counts over a range of an array.
use Prim.Native.Nat.{ℕ, zero, suc, ◌+◌, ◌≤◌, ◌<◌}
use mathlib.Core.Path.{◌≡◌, refl, ap}
use mathlib.Core.Logic.{◌≢◌, inl, inr}
use mathlib.Core.Bool.{Bool, true, false}
use mathlib.Core.Option.{Option, none, some}
use native.Mathlib.Omega.{arith}
use netrek_server.Base.Tests.{◌==◌, if◌then◌else◌, Bool-cases}

-- for (i = start; i < start + n; i++) if (test(i)) break;   `none`: no index passed
unfoldable pub find : (n start : ℕ) → (ℕ → Bool) → Option ℕ
find zero start test = none
find (suc n) start test =
    let rest = find n (start + 1) test in if test start then some start else rest

-- how many indices from `start` on pass
unfoldable pub count : (n start : ℕ) → (ℕ → Bool) → ℕ
count zero start test = 0
count (suc n) start test = (if test start then 1 else 0) + count n (start + 1) test

-- What a search that succeeds returns: an index in range that passes, the first such.
pub find-some :
    (n start : ℕ) (test : ℕ → Bool) (k : ℕ)
    → find n start test ≡ some k
    → (start ≤ k) × (k < start + n) × (test k ≡ true)
unfolding find
find-some zero start test k h = absurd (cc)
find-some (suc n) start test k h = elim (Bool-cases (test start)) [
  | inl t ↦ ground (arith)
  | inr f ↦ ground (arith, find-some n (start + 1) test k)
]

pub find-none :
    (n start : ℕ) (test : ℕ → Bool) (k : ℕ)
    → find n start test ≡ none
    → start ≤ k
    → k < start + n
    → test k ≡ false
unfolding find
find-none zero start test k h lo hi = absurd (omega arith)
find-none (suc n) start test k h lo hi = ground (arith, find-none n (start + 1) test k)

-- A search fails only where every index was counted out.
pub count_of_find-none :
    (n start : ℕ) (test : ℕ → Bool) → find n start test ≡ none → count n start test ≡ 0
unfolding find count
count_of_find-none zero start test h = refl
count_of_find-none (suc n) start test h = ground (arith, count_of_find-none n (start + 1) test)

pub count-le : (n start : ℕ) (test : ℕ → Bool) → count n start test ≤ n
unfolding count
count-le zero start test = omega arith
count-le (suc n) start test = ground (arith, count-le n (start + 1) test)

pub count_congr :
    (n start : ℕ) (f g : ℕ → Bool)
    → ((i : ℕ) → start ≤ i → i < start + n → f i ≡ g i)
    → count n start f ≡ count n start g
unfolding count
count_congr zero start f g h = refl
count_congr (suc n) start f g h = ground (
  arith,
  h start (omega arith) (omega arith),
  count_congr n (start + 1) f g (λ i lo hi. h i (omega arith) (omega arith)),
)

-- Turning one index of the range on adds one to the count.
pub count_on :
    (n start : ℕ) (f g : ℕ → Bool) (k : ℕ)
    → start ≤ k
    → k < start + n
    → f k ≡ false
    → g k ≡ true
    → ((i : ℕ) → i ≢ k → f i ≡ g i)
    → count n start g ≡ count n start f + 1
unfolding count
count_on zero start f g k lo hi fk gk h = absurd (omega arith)
count_on (suc n) start f g k lo hi fk gk h = elim (Bool-cases (start == k)) [
  | inl e ↦
      let e' : start ≡ k = ground arith in
      let rest = count_congr n (start + 1) f g (λ i a b. h i (omega arith)) in
      ground (arith, rest, e')
  | inr ne ↦
      let ne' : start ≢ k = ground arith in
      ground (arith, h start ne', count_on n (start + 1) f g k (ground arith) (omega arith) fk gk h)
]

-- The sum of `f` over a range.
unfoldable pub sum : (n start : ℕ) → (ℕ → ℕ) → ℕ
sum zero start f = 0
sum (suc n) start f = f start + sum n (start + 1) f

pub sum_congr :
    (n start : ℕ) (f g : ℕ → ℕ) → ((i : ℕ) → start ≤ i → f i ≡ g i) → sum n start f ≡ sum n start g
unfolding sum
sum_congr zero start f g h = refl
sum_congr (suc n) start f g h =
    omega (arith, h start (omega arith), sum_congr n (start + 1) f g (λ i lo. h i (omega arith)))

-- Sums of functions that differ at one index of the range only.
pub sum_change :
    (n start : ℕ) (f g : ℕ → ℕ) (k : ℕ)
    → start ≤ k
    → k < start + n
    → ((i : ℕ) → i ≢ k → f i ≡ g i)
    → sum n start f + g k ≡ sum n start g + f k
unfolding sum
sum_change zero start f g k lo hi h = absurd (omega arith)
sum_change (suc n) start f g k lo hi h = elim (Bool-cases (start == k)) [
  | inl e ↦
      let e' : start ≡ k = ground arith in
      let at_f : f start ≡ f k = ap f e' in
      let at_g : g start ≡ g k = ap g e' in
      let rest = sum_congr n (start + 1) f g (λ i a. h i (omega arith)) in
      omega (arith, rest, at_f, at_g)
  | inr ne ↦
      let ne' : start ≢ k = ground arith in
      let at = h start ne' in
      omega (arith, at, sum_change n (start + 1) f g k (ground arith) (omega arith) h)
]

-- Tests that differ at one index only differ by at most one in their counts.
pub count_near :
    (n start : ℕ) (f g : ℕ → Bool) (k : ℕ)
    → ((i : ℕ) → i ≢ k → f i ≡ g i)
    → count n start f ≤ count n start g + 1
unfolding count
count_near zero start f g k h = omega arith
count_near (suc n) start f g k h = elim (Bool-cases (start == k)) [
  | inl e ↦
      let e' : start ≡ k = ground arith in
      let rest = count_congr n (start + 1) f g (λ i a b. h i (omega arith)) in ground (arith, rest)
  | inr ne ↦
      let ne' : start ≢ k = ground arith in
      let at = h start ne' in ground (arith, at, count_near n (start + 1) f g k h)
]
