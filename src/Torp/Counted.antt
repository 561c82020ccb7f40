-- ===== src/Torp/Counted.antt =====
-- Firing keeps the counts of torpedoes and plasmas in flight, of every player.
use netrek_server.Base.{
  ℕ, ◌+◌, ◌*◌, ◌≤◌, ◌<◌, ◌≡◌, ◌≢◌, refl, sym, ap, true, false, Option, none, some, arith, ◌==◌, ◌∙◌,
  put, put_self, put_ne, put_keeps, subst, Bool-cases, inl, inr, ◌⊎◌, ℤ, pos, ◌+ℤ◌, ◌-ℤ◌, count,
  +ℤ_parts, eq_of_parts,
}
use netrek_server.Game.{Player, Reply, mine, set_mine, max_player, max_torp}
use netrek_server.Torp.{
  Torp, Rules, Cost, Arms, Attributes, is_t_free, torp_refusal, torp_slot, new_torp, launch_torp,
  ntorp_by, ntorp, new_plasma, plasma_refusal, plasma_heat, launch_plasma, nplasmatorp_by,
  nplasmatorp, first_plasma,
}
use netrek_server.Torp.Free.{IsCounted, IsOwnFree, in_flight, ntorp-slot, flight_on, flight_off}

one_up : (f : ℤ) (n : ℕ) → f ≡ pos n → f +ℤ pos 1 ≡ pos (n + 1)
one_up f n e =
    let a = +ℤ_parts (pos n) (pos 1) in
    rw (e) (eq_of_parts (pos n +ℤ pos 1) (pos (n + 1)) (omega arith))

module _ (a : Arms) (p : Player) (c : IsCounted a) (lt : a.client.me < max_player) where
  -- The shooter's structure with one more torpedo, and the slot that it took.
  torp-Counted :
      (i last : ℕ) (t : Torp)
      → p.p_no ≡ (mine a.client).p_no
      → p.p_ntorp ≡ (mine a.client).p_ntorp +ℤ pos 1
      → p.p_nplasmatorp ≡ (mine a.client).p_nplasmatorp
      → IsOwnFree a.client.me a.torps i
      → is_t_free t.t_status ≡ false
      → IsCounted (record {
        client = set_mine p a.client;
        torps = put a.torps i t;
        last_torp_fired_update = last;
      })
  torp-Counted i last t same_no up same_plasma own busy = record {
    numbers = λ s h.
        put_keeps (λ (x : Player). x.p_no) a.client.game.players a.client.me p s same_no
        ∙ c.numbers s h;
    ntorps = λ s h. elim (Bool-cases (a.client.me == s)) [
      | inl e ↦
          let e' : a.client.me ≡ s = ground arith in
          subst
            (λ x.
              (put a.client.game.players a.client.me p x).p_ntorp
              ≡ pos (count max_torp (max_torp * x) (in_flight (put a.torps i t))))
            e'
            (ap (λ (x : Player). x.p_ntorp) (put_self a.client.game.players a.client.me p)
              ∙ up
              ∙ one_up _ _ (c.ntorps a.client.me lt)
              ∙ ap pos (
                  sym (
                    flight_on max_torp (max_torp * a.client.me) i a.torps t own.0 own.1 own.2
                      busy)))
      | inr e ↦
          let ne : a.client.me ≢ s = ground arith in
          let lo = own.0 in
          let hi = own.1 in
          ap (λ (x : Player). x.p_ntorp) (put_ne a.client.game.players a.client.me s p ne)
          ∙ c.ntorps s h
          ∙ ap pos (sym (flight_off max_torp (max_torp * s) i a.torps t (elsewhere s i ne lo hi)))
    ];
    nplasmas = λ s h.
        let hi = own.1 in
        put_keeps (λ (x : Player). x.p_nplasmatorp) a.client.game.players a.client.me p s
          same_plasma
        ∙ c.nplasmas s h
        ∙ ap pos (sym (flight_off 1 (first_plasma + s) i a.torps t (inl (omega arith))));
  }
    where
      elsewhere :
          (s j : ℕ)
          → a.client.me ≢ s
          → max_torp * a.client.me ≤ j
          → j < max_torp * a.client.me + max_torp
          → (j < max_torp * s) ⊎ (max_torp * s + max_torp ≤ j)
      elsewhere s j ne lo hi = ground arith

  plasma-Counted :
      (t : Torp)
      → p.p_no ≡ (mine a.client).p_no
      → p.p_ntorp ≡ (mine a.client).p_ntorp
      → p.p_nplasmatorp ≡ (mine a.client).p_nplasmatorp +ℤ pos 1
      → is_t_free (a.torps (first_plasma + a.client.me)).t_status ≡ true
      → is_t_free t.t_status ≡ false
      → IsCounted (record a {
        client = set_mine p a.client;
        torps = put a.torps (first_plasma + a.client.me) t;
      })
  plasma-Counted t same_no same_torp up free busy = record {
    numbers = λ s h.
        put_keeps (λ (x : Player). x.p_no) a.client.game.players a.client.me p s same_no
        ∙ c.numbers s h;
    ntorps = λ s h.
        put_keeps (λ (x : Player). x.p_ntorp) a.client.game.players a.client.me p s same_torp
        ∙ c.ntorps s h
        ∙ ap pos (
            sym (
              flight_off max_torp (max_torp * s) (first_plasma + a.client.me) a.torps t
                (inr (omega arith))));
    nplasmas = λ s h. elim (Bool-cases (a.client.me == s)) [
      | inl e ↦
          let e' : a.client.me ≡ s = ground arith in
          subst
            (λ x.
              (put a.client.game.players a.client.me p x).p_nplasmatorp
              ≡ pos (
                  count 1 (first_plasma + x)
                    (in_flight (put a.torps (first_plasma + a.client.me) t))))
            e'
            (ap (λ (x : Player). x.p_nplasmatorp) (put_self a.client.game.players a.client.me p)
              ∙ up
              ∙ one_up _ _ (c.nplasmas a.client.me lt)
              ∙ ap pos (
                  sym (
                    flight_on 1 (first_plasma + a.client.me) (first_plasma + a.client.me) a.torps t
                      (omega arith) (omega arith) free busy)))
      | inr e ↦
          let ne : a.client.me ≢ s = ground arith in
          ap (λ (x : Player). x.p_nplasmatorp) (put_ne a.client.game.players a.client.me s p ne)
          ∙ c.nplasmas s h
          ∙ ap pos (
              sym (
                flight_off 1 (first_plasma + s) (first_plasma + a.client.me) a.torps t
                  (ground arith)))
    ];
  }

module _ (speed_of : ℕ → ℕ → ℕ → ℕ → ℕ) (rules : Rules) where
  launch_torp-Counted :
      (k : Cost) (rnd course : ℕ) (attributes : Attributes) (a : Arms)
      → IsCounted a
      → a.client.me < max_player
      → torp_refusal rules k course a ≡ none
      → IsCounted (launch_torp speed_of rules k rnd course attributes a)
  unfolding launch_torp new_torp
  launch_torp-Counted k rnd course attributes a c lt e =
      torp-Counted a _ c lt (torp_slot (mine a.client).p_no a.torps) _ _ refl refl refl
        (ntorp-slot rules k course a c lt e) refl

  -- `ntorp`, fired or refused, keeps every player's counts equal to the numbers of its torpedoes and
  -- plasmas in flight.
  pub ntorp-Counted :
      (k : Cost) (rnd course : ℕ) (attributes : Attributes) (a : Arms)
      → IsCounted a
      → a.client.me < max_player
      → IsCounted (ntorp speed_of rules k rnd course attributes a).0
  unfolding ntorp ntorp_by
  ntorp-Counted k rnd course attributes a c lt = go (torp_refusal rules k course a) refl
    where
      go :
          (o : Option Reply)
          → torp_refusal rules k course a ≡ o
          → IsCounted (ntorp_by speed_of rules o k rnd course attributes a).0
      go none e = launch_torp-Counted k rnd course attributes a c lt e
      go (some r) e = c

  plasma_ready :
      (a : Arms)
      → plasma_refusal rules a ≡ none
      → is_t_free (a.torps (first_plasma + (mine a.client).p_no)).t_status ≡ true
  unfolding plasma_refusal
  plasma_ready a e = ground arith

  launch_plasma-Counted :
      (course : ℕ) (attributes : Attributes) (a : Arms)
      → IsCounted a
      → a.client.me < max_player
      → is_t_free (a.torps (first_plasma + (mine a.client).p_no)).t_status ≡ true
      → IsCounted (launch_plasma speed_of rules course attributes a)
  unfolding launch_plasma new_plasma
  launch_plasma-Counted course attributes a c lt free =
      let num = c.numbers a.client.me lt in
      let p : Player = record (mine a.client) {
        p_nplasmatorp = (mine a.client).p_nplasmatorp +ℤ pos 1;
        p_fuel = (mine a.client).p_fuel -ℤ (mine a.client).p_ship.s_plasmacost;
        p_wtemp = (mine a.client).p_wtemp +ℤ plasma_heat (mine a.client).p_ship.s_plasmacost;
      } in
      let t : Torp = new_plasma speed_of rules course attributes (mine a.client) in
      subst
        (λ n.
          IsCounted
            (record a { client = set_mine p a.client; torps = put a.torps (first_plasma + n) t }))
        (sym num)
        (plasma-Counted a p c lt t refl refl refl
          (subst (λ n. is_t_free (a.torps (first_plasma + n)).t_status ≡ true) num free) refl)

  -- `nplasmatorp`, fired or refused, keeps the same counts of every player.
  pub nplasmatorp-Counted :
      (course : ℕ) (attributes : Attributes) (a : Arms)
      → IsCounted a
      → a.client.me < max_player
      → IsCounted (nplasmatorp speed_of rules course attributes a).0
  unfolding nplasmatorp nplasmatorp_by
  nplasmatorp-Counted course attributes a c lt = go (plasma_refusal rules a) refl
    where
      go :
          (o : Option Reply)
          → plasma_refusal rules a ≡ o
          → IsCounted (nplasmatorp_by speed_of rules o course attributes a).0
      go none e = launch_plasma-Counted course attributes a c lt (plasma_ready a e)
      go (some r) e = c
