-- ===== src/Torp/Free.antt =====
-- The unchecked search of `ntorp` for a free torpedo always finds one: the count that the owner keeps
-- is the number of its torpedoes in flight.
use netrek_server.Base.{
  ℕ, zero, suc, ◌+◌, ◌*◌, ◌≤◌, ◌<◌, ◌≡◌, ◌≢◌, refl, sym, ap, Bool, true, false, not, Option, none,
  some, arith, ◌∙◌, put, put_self, put_ne, subst, inl, inr, ◌⊎◌, pos, count, count_on, count_congr,
  find, find-some, find-none,
}
use netrek_server.Game.{mine, max_player, max_torp}
use netrek_server.Torp.{
  Torp, Rules, Cost, Arms, is_t_free, eq_ℤ, torp_refusal, torp_slot, first_plasma,
}

abbrev pub in_flight : (ℕ → Torp) → ℕ → Bool
in_flight ts i = not (is_t_free (ts i).t_status)

-- Each player's counts are the numbers of its torpedoes and plasmas that are not free.
pub record IsCounted (a : Arms) : Type 0 where
  pub numbers : (s : ℕ) → s < max_player → (a.client.game.players s).p_no ≡ s
  pub ntorps :
      (s : ℕ)
      → s < max_player
      → (a.client.game.players s).p_ntorp ≡ pos (count max_torp (max_torp * s) (in_flight a.torps))
  pub nplasmas :
      (s : ℕ)
      → s < max_player
      → (a.client.game.players s).p_nplasmatorp
        ≡ pos (count 1 (first_plasma + s) (in_flight a.torps))

count_all :
    (n start : ℕ) (test : ℕ → Bool)
    → ((i : ℕ) → start ≤ i → i < start + n → test i ≡ true)
    → count n start test ≡ n
unfolding count
count_all zero start test h = refl
count_all (suc n) start test h = ground (
  arith,
  h start (omega arith) (omega arith),
  count_all n (start + 1) test (λ i lo hi. h i (omega arith) (omega arith)),
)

not_full :
    (r : Rules) (k : Cost) (course : ℕ) (a : Arms)
    → torp_refusal r k course a ≡ none
    → eq_ℤ (mine a.client).p_ntorp (pos max_torp) ≡ false
unfolding torp_refusal
not_full r k course a e = ground arith

-- With fewer than eight in flight, the slot that the search finds is free and is the owner's.
abbrev pub IsOwnFree : ℕ → (ℕ → Torp) → ℕ → Type 0
IsOwnFree owner ts i =
    (max_torp * owner ≤ i) × (i < max_torp * owner + max_torp) × (is_t_free (ts i).t_status ≡ true)

torp_slot_lem :
    (owner : ℕ) (ts : ℕ → Torp)
    → count max_torp (max_torp * owner) (in_flight ts) ≢ max_torp
    → IsOwnFree owner ts (torp_slot owner ts)
unfolding torp_slot
torp_slot_lem owner ts room =
    go (find max_torp (max_torp * owner) (λ i. is_t_free (ts i).t_status)) refl
  where
    go :
        (o : Option ℕ)
        → find max_torp (max_torp * owner) (λ i. is_t_free (ts i).t_status) ≡ o
        → IsOwnFree owner ts (elim o [ none ↦ max_torp * owner + max_torp | some i ↦ i ])
    go none e = absurd (
        room (
          count_all max_torp (max_torp * owner) (in_flight ts) (λ i lo hi.
            let f =
              find-none max_torp (max_torp * owner) (λ j. is_t_free (ts j).t_status) i e lo hi in
            ground arith)))
    go (some i) e = find-some max_torp (max_torp * owner) (λ j. is_t_free (ts j).t_status) i e

-- Where `ntorp` fires, the slot that it writes is one of the shooter's own, and is free.
pub ntorp-slot :
    (rules : Rules) (k : Cost) (course : ℕ) (a : Arms)
    → IsCounted a
    → a.client.me < max_player
    → torp_refusal rules k course a ≡ none
    → IsOwnFree a.client.me a.torps (torp_slot (mine a.client).p_no a.torps)
ntorp-slot rules k course a c lt e =
    let full = not_full rules k course a e in
    let n = c.ntorps a.client.me lt in
    rw (c.numbers a.client.me lt) (
      torp_slot_lem a.client.me a.torps (λ q.
        let n' : (mine a.client).p_ntorp ≡ pos max_torp = n ∙ ap pos q in
        let f' : eq_ℤ (pos max_torp) (pos max_torp) ≡ false =
          subst (λ x. eq_ℤ x (pos max_torp) ≡ false) n' full in
        absurd (ground arith)))

-- One more torpedo in flight at slot `i`, and in no other.
pub flight_on :
    (n start i : ℕ) (ts : ℕ → Torp) (t : Torp)
    → start ≤ i
    → i < start + n
    → is_t_free (ts i).t_status ≡ true
    → is_t_free t.t_status ≡ false
    → count n start (in_flight (put ts i t)) ≡ count n start (in_flight ts) + 1
flight_on n start i ts t lo hi f g =
    count_on n start (in_flight ts) (in_flight (put ts i t)) i lo hi (ground arith)
      (rw (put_self ts i t) (ground arith))
      (λ j ne. ap (λ x. not (is_t_free x.t_status)) (sym (put_ne ts i j t (λ q. ne (sym q)))))

pub flight_off :
    (n start i : ℕ) (ts : ℕ → Torp) (t : Torp)
    → (i < start) ⊎ (start + n ≤ i)
    → count n start (in_flight (put ts i t)) ≡ count n start (in_flight ts)
flight_off n start i ts t out =
    count_congr n start (in_flight (put ts i t)) (in_flight ts) (λ j lo hi.
      ap (λ x. not (is_t_free x.t_status))
        (put_ne ts i j t
          (λ q. elim (out) [ inl h ↦ absurd (omega arith) | inr h ↦ absurd (omega arith) ])))
