-- ===== src/Flight/Counts.antt =====
-- Each player's counts stay the numbers of its torpedoes and plasmas in flight, through a whole pass
-- of `udtorps` of ntserv/daemon.c.
use netrek_server.Base.{
  ℕ, ◌+◌, ◌*◌, ◌≤◌, ◌<◌, Bool, true, false, not, ◌≡◌, ◌≢◌, refl, sym, ap, ◌∙◌, subst, fun_ext, ◌⊎◌,
  inl, inr, ◌==◌, if_cases, put, put_self, put_ne, put_keeps, loop_inv, count, count_on, arith, ℤ,
  pos, ◌-ℤ◌, -ℤ_parts, eq_of_parts, Bool-cases, ==→eq, ==→ne,
}
use netrek_server.Game.{Player, set_player, max_player, max_torp}
use netrek_server.Torp.{Torp, t_free, t_photon, t_plasma, is_t_free, first_plasma}
use netrek_server.Torp.Free.{in_flight, flight_off}
use netrek_server.Flight.{Motion, Shot, one_fewer, expire, shot_by, Sky, torp_turn, udtorps}
use netrek_server.Flight.Tally.{Live, Turn, idle, live, ends, shot_by-Turn}

-- The slot of a torpedo is one of its owner's: eight for photons, one for a plasma.
abbrev pub IsSlotOf : ℕ → Torp → Type 0
IsSlotOf i t =
    ((t.t_type ≡ t_photon)
      × (max_torp * t.t_owner ≤ i)
      × (i < max_torp * t.t_owner + max_torp)
      × (t.t_owner < max_player))
    ⊎ ((t.t_type ≡ t_plasma) × (i ≡ first_plasma + t.t_owner) × (t.t_owner < max_player))

-- The counts of every player, and the slots that are in use.
pub record IsTallied (s : Sky) : Type 0 where
  pub photons :
      (k : ℕ)
      → k < max_player
      → (s.game.players k).p_ntorp ≡ pos (count max_torp (max_torp * k) (in_flight s.torps))
  pub plasmas :
      (k : ℕ)
      → k < max_player
      → (s.game.players k).p_nplasmatorp ≡ pos (count 1 (first_plasma + k) (in_flight s.torps))
  pub slots : (i : ℕ) → (is_t_free (s.torps i).t_status ≡ true) ⊎ IsSlotOf i (s.torps i)

-- A slot that is in use before and after counts the same.
same_flight :
    (ts : ℕ → Torp) (i : ℕ) (t : Torp)
    → is_t_free (ts i).t_status ≡ is_t_free t.t_status
    → in_flight (put ts i t) ≡ in_flight ts
same_flight ts i t e =
    fun_ext (λ j. put_keeps (λ (u : Torp). not (is_t_free u.t_status)) ts i t j (ap not (sym e)))

put_again : (ts : ℕ → Torp) (i : ℕ) → put ts i (ts i) ≡ ts
put_again ts i = fun_ext (λ j. put_keeps (λ (u : Torp). u) ts i (ts i) j refl)

-- A slot that becomes free.
flight_end :
    (n start i : ℕ) (ts : ℕ → Torp) (t : Torp)
    → start ≤ i
    → i < start + n
    → is_t_free (ts i).t_status ≡ false
    → is_t_free t.t_status ≡ true
    → count n start (in_flight ts) ≡ count n start (in_flight (put ts i t)) + 1
flight_end n start i ts t lo hi f g =
    count_on n start (in_flight (put ts i t)) (in_flight ts) i lo hi
      (rw (put_self ts i t) (ap not g)) (ap not f)
      (λ j ne. ap (λ (x : Torp). not (is_t_free x.t_status)) (put_ne ts i j t (λ q. ne (sym q))))

one_down : (z : ℤ) (n m : ℕ) → z ≡ pos n → n ≡ m + 1 → z -ℤ pos 1 ≡ pos m
one_down z n m e f =
    rw e (eq_of_parts (pos n -ℤ pos 1) (pos m) (omega (arith, -ℤ_parts (pos n) (pos 1))))

slot_kept :
    (i j : ℕ) (t : Torp) (ts : ℕ → Torp)
    → (is_t_free t.t_status ≡ true) ⊎ IsSlotOf i t
    → (is_t_free (ts j).t_status ≡ true) ⊎ IsSlotOf j (ts j)
    → (is_t_free (put ts i t j).t_status ≡ true) ⊎ IsSlotOf j (put ts i t j)
slot_kept i j t ts a b =
    if_cases (λ (u : Torp). (is_t_free u.t_status ≡ true) ⊎ IsSlotOf j u) (i == j)
      (λ e. subst (λ k. (is_t_free t.t_status ≡ true) ⊎ IsSlotOf k t) (==→eq i j e) a) (λ ne. b)

in_use :
    (i : ℕ) (t : Torp)
    → is_t_free t.t_status ≡ false
    → (is_t_free t.t_status ≡ true) ⊎ IsSlotOf i t
    → IsSlotOf i t
in_use i t b (inl f) = absurd (cc)
in_use i t b (inr h) = h

slot_same :
    (i : ℕ) (t u : Torp) → u.t_type ≡ t.t_type → u.t_owner ≡ t.t_owner → IsSlotOf i t → IsSlotOf i u
slot_same i t u k o (inl (p, lo, hi, lt)) = inl (k ∙ p, omega arith, omega arith, omega arith)
slot_same i t u k o (inr (p, at, lt)) = inr (k ∙ p, omega arith, omega arith)

Live-turn :
    (s : Sky) (i : ℕ) (y : Shot)
    → IsTallied s
    → is_t_free (s.torps i).t_status ≡ false
    → Live (record { torp = s.torps i; game = s.game }) y
    → IsTallied (record { game = y.game; torps = put s.torps i y.torp })
Live-turn s i y c b l =
    let f = same_flight s.torps i y.torp (b ∙ sym l.busy) in
    let same = l.counts in
    record {
      photons = λ k h.
          ap (λ (t : ℕ × ℤ × ℤ). t.1) (same.same_tally k)
          ∙ c.photons k h
          ∙ ap (λ (g : ℕ → Bool). pos (count max_torp (max_torp * k) g)) (sym f);
      plasmas = λ k h.
          ap (λ (t : ℕ × ℤ × ℤ). t.2) (same.same_tally k)
          ∙ c.plasmas k h
          ∙ ap (λ (g : ℕ → Bool). pos (count 1 (first_plasma + k) g)) (sym f);
      slots = λ j.
          slot_kept i j y.torp s.torps
            (inr
              (slot_same i (s.torps i) y.torp l.kind l.owner (in_use i (s.torps i) b (c.slots i))))
            (c.slots j);
    }

pub elsewhere :
    (a k j : ℕ)
    → a ≢ k
    → max_torp * a ≤ j
    → j < max_torp * a + max_torp
    → (j < max_torp * k) ⊎ (max_torp * k + max_torp ≤ j)
elsewhere a k j ne lo hi = ground arith

beside :
    (a k j : ℕ) → a ≢ k → j ≡ first_plasma + a → (j < first_plasma + k) ⊎ (first_plasma + k + 1 ≤ j)
beside a k j ne at = ground arith

module _ (s : Sky) (i : ℕ) (c : IsTallied s) (b : is_t_free (s.torps i).t_status ≡ false) where
  gone : Torp
  gone = record (s.torps i) { t_status = t_free }

  o : ℕ
  o = (s.torps i).t_owner

  photon_end :
      (p : Player)
      → p.p_ntorp ≡ (s.game.players o).p_ntorp -ℤ pos 1
      → p.p_nplasmatorp ≡ (s.game.players o).p_nplasmatorp
      → max_torp * o ≤ i
      → i < max_torp * o + max_torp
      → o < max_player
      → IsTallied (record { game = set_player o p s.game; torps = put s.torps i gone })
  unfolding gone o
  photon_end p down same lo hi lt = record {
    photons = λ k h. elim (Bool-cases (o == k)) [
      | inl e ↦
          subst
            (λ x.
              (put s.game.players o p x).p_ntorp
              ≡ pos (count max_torp (max_torp * x) (in_flight (put s.torps i gone))))
            (==→eq o k e)
            (ap (λ (q : Player). q.p_ntorp) (put_self s.game.players o p)
              ∙ down
              ∙ one_down (s.game.players o).p_ntorp
                  (count max_torp (max_torp * o) (in_flight s.torps))
                  (count max_torp (max_torp * o) (in_flight (put s.torps i gone))) (c.photons o lt)
                  (flight_end max_torp (max_torp * o) i s.torps gone lo hi b refl))
      | inr ne ↦
          ap (λ (q : Player). q.p_ntorp) (put_ne s.game.players o k p (==→ne o k ne))
          ∙ c.photons k h
          ∙ ap pos (
              sym (
                flight_off max_torp (max_torp * k) i s.torps gone
                  (elsewhere o k i (==→ne o k ne) lo hi)))
    ];
    plasmas = λ k h.
        put_keeps (λ (q : Player). q.p_nplasmatorp) s.game.players o p k same
        ∙ c.plasmas k h
        ∙ ap pos (sym (flight_off 1 (first_plasma + k) i s.torps gone (inl (omega arith))));
    slots = λ j. slot_kept i j gone s.torps (inl refl) (c.slots j);
  }

  plasma_end :
      (p : Player)
      → p.p_ntorp ≡ (s.game.players o).p_ntorp
      → p.p_nplasmatorp ≡ (s.game.players o).p_nplasmatorp -ℤ pos 1
      → i ≡ first_plasma + o
      → o < max_player
      → IsTallied (record { game = set_player o p s.game; torps = put s.torps i gone })
  unfolding gone o
  plasma_end p same down at lt = record {
    photons = λ k h.
        put_keeps (λ (q : Player). q.p_ntorp) s.game.players o p k same
        ∙ c.photons k h
        ∙ ap pos (sym (flight_off max_torp (max_torp * k) i s.torps gone (inr (omega arith))));
    plasmas = λ k h. elim (Bool-cases (o == k)) [
      | inl e ↦
          subst
            (λ x.
              (put s.game.players o p x).p_nplasmatorp
              ≡ pos (count 1 (first_plasma + x) (in_flight (put s.torps i gone))))
            (==→eq o k e)
            (ap (λ (q : Player). q.p_nplasmatorp) (put_self s.game.players o p)
              ∙ down
              ∙ one_down (s.game.players o).p_nplasmatorp
                  (count 1 (first_plasma + o) (in_flight s.torps))
                  (count 1 (first_plasma + o) (in_flight (put s.torps i gone))) (c.plasmas o lt)
                  (flight_end 1 (first_plasma + o) i s.torps gone (omega arith) (omega arith) b
                    refl))
      | inr ne ↦
          let apart = ==→ne o k ne in
          ap (λ (q : Player). q.p_nplasmatorp) (put_ne s.game.players o k p apart)
          ∙ c.plasmas k h
          ∙ ap pos (sym (flight_off 1 (first_plasma + k) i s.torps gone (beside o k i apart at)))
    ];
    slots = λ j. slot_kept i j gone s.torps (inl refl) (c.slots j);
  }

  expire_turn : IsTallied (record {
    game = (expire (record { torp = s.torps i; game = s.game })).game;
    torps = put s.torps i (expire (record { torp = s.torps i; game = s.game })).torp;
  })
  unfolding expire gone o
  expire_turn = freed (in_use i (s.torps i) b (c.slots i))
    where
      freed :
          IsSlotOf i (s.torps i)
          → IsTallied (record {
            game = set_player o (one_fewer (s.torps i).t_type (s.game.players o)) s.game;
            torps = put s.torps i gone;
          })
      freed (inl (kind, lo, hi, lt)) =
          photon_end (one_fewer (s.torps i).t_type (s.game.players o))
            (ap (λ ty. (one_fewer ty (s.game.players o)).p_ntorp) kind)
            (ap (λ ty. (one_fewer ty (s.game.players o)).p_nplasmatorp) kind) lo hi lt
      freed (inr (kind, at, lt)) =
          plasma_end (one_fewer (s.torps i).t_type (s.game.players o))
            (ap (λ ty. (one_fewer ty (s.game.players o)).p_ntorp) kind)
            (ap (λ ty. (one_fewer ty (s.game.players o)).p_nplasmatorp) kind) at lt

torp_turn-Tallied :
    (m : Motion) (draws : ℕ → ℕ) (i : ℕ) (s : Sky) → IsTallied s → IsTallied (torp_turn m draws i s)
unfolding torp_turn
torp_turn-Tallied m draws i s c =
    turned (shot_by m (draws i) (s.torps i).t_status (record { torp = s.torps i; game = s.game })) (
      shot_by-Turn m (draws i) (s.torps i).t_status (record { torp = s.torps i; game = s.game })
        refl)
  where
    turned :
        (y : Shot)
        → Turn (record { torp = s.torps i; game = s.game }) y
        → IsTallied (record { game = y.game; torps = put s.torps i y.torp })
    turned y (idle e) =
        subst (λ (z : Shot). IsTallied (record { game = z.game; torps = put s.torps i z.torp }))
          (sym e)
          (subst (λ ts. IsTallied (record { game = s.game; torps = ts }))
            (sym (put_again s.torps i))
            (record { photons = c.photons; plasmas = c.plasmas; slots = c.slots }))
    turned y (live b l) = Live-turn s i y c b l
    turned y (ends b e) =
        subst (λ (z : Shot). IsTallied (record { game = z.game; torps = put s.torps i z.torp }))
          (sym e) (expire_turn s i c b)

-- A whole pass of `udtorps`, in which torpedoes fly, hit, explode and end, keeps every player's counts
-- equal to the numbers of its photons and plasmas that are not free, and every torpedo in a slot of
-- its owner.
pub udtorps-Tallied :
    (m : Motion) (draws : ℕ → ℕ) (s : Sky) → IsTallied s → IsTallied (udtorps m draws s)
unfolding udtorps
udtorps-Tallied m draws s c =
    loop_inv (λ i (x : Sky). IsTallied x) (torp_turn m draws) (first_plasma + max_player) 0
      (first_plasma + max_player) s refl (λ i x lo hi h. torp_turn-Tallied m draws i x h) c
