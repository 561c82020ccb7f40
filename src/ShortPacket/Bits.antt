-- ===== src/ShortPacket/Bits.antt =====
-- Bits that do not overlap: `|` is then a sum. A search over all values finds no exception.
use Prim.Native.Nat.{bit_or}
use netrek_server.Base.{
  ℕ, ◌+◌, ◌-◌, ◌*◌, ◌^◌, ◌<◌, Bool, true, false, not, Option, none, some, ◌≡◌, refl, ◌==◌, ==→eq,
  arith, find, find-none,
}

-- Whether the search for a number below `n` that fails the test finds none.
abbrev is_none : Option ℕ → Bool
is_none none = true
is_none (some i) = false

abbrev passes : ℕ → (ℕ → Bool) → Bool
passes n test = is_none (find n 0 (λ i. not (test i)))

none_found : (o : Option ℕ) → is_none o ≡ true → o ≡ none
none_found none e = refl
none_found (some i) e = absurd (cc)

passed : (n : ℕ) (test : ℕ → Bool) (i : ℕ) → passes n test ≡ true → i < n → test i ≡ true
passed n test i e lt =
    let f =
      find-none n 0 (λ j. not (test j)) i (none_found (find n 0 (λ j. not (test j))) e)
        (omega arith) (omega arith) in
    ground arith

abbrev is_sum : ℕ → ℕ → ℕ → Bool
is_sum shift low high = bit_or low (high * 2 ^ shift) == low + high * 2 ^ shift

-- The two parts of a byte that is split at any bit.
byte_sums : passes 8 (λ s. passes (2 ^ s) (λ a. passes (2 ^ (8 - s)) (is_sum s a))) ≡ true
unfolding find
byte_sums = refl

pub or-eq-add :
    (s a b : ℕ) → s < 8 → a < 2 ^ s → b < 2 ^ (8 - s) → bit_or a (b * 2 ^ s) ≡ a + b * 2 ^ s
or-eq-add s a b hs ha hb =
    let at_s =
      passed 8 (λ s. passes (2 ^ s) (λ a. passes (2 ^ (8 - s)) (is_sum s a))) s byte_sums hs in
    let at_a = passed (2 ^ s) (λ a. passes (2 ^ (8 - s)) (is_sum s a)) a at_s ha in
    ==→eq _ _ (passed (2 ^ (8 - s)) (is_sum s a) b at_a hb)

-- Ten bits of kills below six bits of a player's number.
kills_sums : passes 64 (λ n. passes 1024 (λ k. is_sum 10 k n)) ≡ true
unfolding find
kills_sums = refl

pub or-eq-add_kills : (k n : ℕ) → k < 1024 → n < 64 → bit_or k (n * 1024) ≡ k + n * 1024
or-eq-add_kills k n hk hn =
    let at_n = passed 64 (λ n. passes 1024 (λ k. is_sum 10 k n)) n kills_sums hn in
    ==→eq _ _ (passed 1024 (λ k. is_sum 10 k n) k at_n hk)
