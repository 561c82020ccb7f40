-- ===== src/Base/Array.antt =====
-- C arrays as functions of the index. A write makes a new function; the bounds that the C code
-- relies on are stated where they matter.
use Prim.Native.Nat.{ℕ, zero, suc, ◌+◌, ◌≤◌, ◌<◌}
use mathlib.Core.Path.{◌≡◌, refl, subst}
use mathlib.Core.Logic.{◌≢◌}
use native.Mathlib.Omega.{arith}
use mathlib.Core.Bool.{◌&&◌}
use mathlib.Core.Logic.{inl, inr}
use netrek_server.Base.Tests.{◌==◌, leb, ltb, if◌then◌else◌, Bool-cases}

module _ {ℓ} {A : Type ℓ} where
  -- `a[i] = v`
  abbrev pub put : (ℕ → A) → ℕ → A → ℕ → A
  put a i v j = if i == j then v else a j

  pub put_self : (a : ℕ → A) (i : ℕ) (v : A) → put a i v i ≡ v
  put_self a i v = ground arith

  pub put_ne : (a : ℕ → A) (i j : ℕ) (v : A) → i ≢ j → put a i v j ≡ a j
  put_ne a i j v h = ground arith

-- A write that keeps some part of the element keeps that part of every element.
pub put_keeps {ℓ κ} :
    {A : Type ℓ} {B : Type κ} (f : A → B) (a : ℕ → A) (i : ℕ) (v : A) (j : ℕ)
    → f v ≡ f (a i)
    → f (put a i v j) ≡ f (a j)
put_keeps f a i v j e = ground arith

-- for (i = start; i < start + n; i++) s = body(i, s);
unfoldable pub loop {ℓ} : {S : Type ℓ} → (n start : ℕ) → (ℕ → S → S) → S → S
loop zero start body s = s
loop (suc n) start body s = loop n (start + 1) body (body start s)

-- The rule for such a loop: what holds before round `start` and is carried from one round to the
-- next holds after the last one.
pub loop_inv {ℓ κ} :
    {S : Type ℓ} (P : ℕ → S → Type κ) (body : ℕ → S → S) (n start stop : ℕ) (s : S)
    → start + n ≡ stop
    → ((i : ℕ) (t : S) → start ≤ i → i < stop → P i t → P (i + 1) (body i t))
    → P start s
    → P stop (loop n start body s)
unfolding loop
loop_inv P body zero start stop s e keep h =
    let e' : start ≡ stop = omega arith in mathlib.Core.Path.subst (λ k. P k s) e' h
loop_inv P body (suc n) start stop s e keep h =
    loop_inv P body n (start + 1) stop (body start s) (omega arith)
      (λ i t lo hi p. keep i t (omega arith) hi p) (keep start s (omega arith) (omega arith) h)

-- for (i = start; i < start + n; i++) a[i] = f(i, a[i]);
unfoldable pub sweep {ℓ} : {A : Type ℓ} → (n start : ℕ) → (ℕ → A → A) → (ℕ → A) → ℕ → A
unfolding loop
sweep n start f a = loop n start (λ i b. put b i (f i (b i))) a

-- Such a loop reaches each element of the range once, and no other.
pub sweep_at {ℓ} :
    {A : Type ℓ} (n start : ℕ) (f : ℕ → A → A) (a : ℕ → A) (j : ℕ)
    → sweep n start f a j ≡ (if leb start j && ltb j (start + n) then f j (a j) else a j)
unfolding sweep loop
sweep_at zero start f a j = ground arith
sweep_at (suc n) start f a j =
    let rest = sweep_at n (start + 1) f (put a start (f start (a start))) j in
    elim (Bool-cases (start == j)) [
      | inl e ↦
          let e' : start ≡ j = ground arith in
          let here : put a start (f start (a start)) j ≡ f j (a j) =
            subst (λ k. put a start (f start (a start)) k ≡ f k (a k)) e'
              (put_self a start (f start (a start))) in
          ground (arith, rest, here)
      | inr ne ↦ ground (arith, rest)
    ]

pub sweep_in {ℓ} :
    {A : Type ℓ} (n : ℕ) (f : ℕ → A → A) (a : ℕ → A) (j : ℕ) → j < n → sweep n 0 f a j ≡ f j (a j)
sweep_in n f a j h = ground (arith, sweep_at n 0 f a j)
