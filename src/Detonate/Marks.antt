-- ===== src/Detonate/Marks.antt =====
-- Which torpedoes `detothers` of ntserv/detonate.c marks.
use netrek_server.Base.{
  ℕ, zero, suc, ◌+◌, ◌*◌, ◌≤◌, ◌<◌, Bool, true, false, not, ◌&&◌, ◌≡◌, refl, sym, ap, ◌∙◌, subst,
  Option, none, some, pos, negsuc, ltb, leb, ◌==◌, if◌then◌else◌, if_both, put, put_self, put_keeps,
  sweep, sweep_at, loop, arith, ltb_ℤ, ◌≤ℤ◌, -ℤ_parts, ==→eq,
}
use netrek_server.Game.{
  Player, Client, Reply, accepted, ignored, refused, mine, is_free, max_player, max_torp,
}
use netrek_server.Torp.{Torp, Arms, t_det}
use netrek_server.Detonate.{
  is_enemy, is_detted, detted, det_player, det_refusal, pay_det, det_all, det_by, detothers,
}

-- Eight torpedoes from `8 * j` on hold photon `k` of player `s` where the two are the same.
in_slots :
    (j s k : ℕ)
    → k < max_torp
    → (leb (max_torp * j) (max_torp * s + k) && ltb (max_torp * s + k) (max_torp * j + max_torp))
      ≡ (j == s)
in_slots j s k lt = ground arith

det_sweep :
    (me : Player) (m j s k : ℕ) (ts : ℕ → Torp)
    → m ≡ j
    → k < max_torp
    → sweep max_torp (max_torp * m) (λ i. detted me) ts (max_torp * s + k)
      ≡ (if j == s then detted me (ts (max_torp * s + k)) else ts (max_torp * s + k))
det_sweep me m j s k ts e lt =
    sweep_at max_torp (max_torp * m) (λ i. detted me) ts (max_torp * s + k)
    ∙ ap (λ (b : Bool). if b then detted me (ts (max_torp * s + k)) else ts (max_torp * s + k))
        (in_slots m s k lt ∙ ap (λ (x : ℕ). x == s) e)

unless {ℓ} :
    {A : Type ℓ} (f e : Bool) (u v : ℕ → A) (i : ℕ) (d : A)
    → v i ≡ (if e then d else u i)
    → (if f then u else v) i ≡ (if e && not f then d else u i)
unless true true u v i d h = refl
unless true false u v i d h = refl
unless false true u v i d h = h
unless false false u v i d h = h

both_not : (e a b : Bool) → (e ≡ true → a ≡ b) → (e && not a) ≡ (e && not b)
both_not true a b h = ap not (h refl)
both_not false a b h = refl

-- Photon `k` of player `s` at the round of player `j`.
det_player_at :
    (me : Player) (ps : ℕ → Player) (j s k : ℕ) (ts : ℕ → Torp)
    → (ps j).p_no ≡ j
    → k < max_torp
    → det_player me ps j ts (max_torp * s + k) ≡ (
        if (j == s) && not (is_free (ps s).p_status)
        then detted me (ts (max_torp * s + k))
        else ts (max_torp * s + k))
unfolding det_player
det_player_at me ps j s k ts nums lt =
    unless (is_free (ps j).p_status) (j == s) ts
      (sweep max_torp (max_torp * (ps j).p_no) (λ i. detted me) ts) (max_torp * s + k)
      (detted me (ts (max_torp * s + k))) (det_sweep me (ps j).p_no j s k ts nums lt)
    ∙ ap (λ (b : Bool). if b then detted me (ts (max_torp * s + k)) else ts (max_torp * s + k))
        (both_not (j == s) (is_free (ps j).p_status) (is_free (ps s).p_status)
          (λ e. ap (λ x. is_free (ps x).p_status) (==→eq j s e)))

det_loop_at :
    (me : Player) (ps : ℕ → Player) (n start s k : ℕ) (ts : ℕ → Torp)
    → ((j : ℕ) → start ≤ j → j < start + n → (ps j).p_no ≡ j)
    → k < max_torp
    → loop n start (det_player me ps) ts (max_torp * s + k) ≡ (
        if leb start s && ltb s (start + n) && not (is_free (ps s).p_status)
        then detted me (ts (max_torp * s + k))
        else ts (max_torp * s + k))
unfolding loop
det_loop_at me ps zero start s k ts nums lt = ground arith
det_loop_at me ps (suc n) start s k ts nums lt = ground (
  arith,
  det_loop_at me ps n (start + 1) s k (det_player me ps start ts)
      (λ j lo hi. nums j (omega arith) (omega arith)) lt,
  det_player_at me ps start s k ts (nums start (omega arith) (omega arith)) lt,
)

-- No test accepts.
abbrev is_accepted : Option Reply → Bool
is_accepted (some accepted) = true
is_accepted _ = false

never_accepted : (c : Client) → is_accepted (det_refusal c) ≡ false
unfolding det_refusal
never_accepted c =
    let p = mine c in
    let Refuses : Option Reply → Type 0 = λ o. is_accepted o ≡ false in
    if_both Refuses c.game.conquer refl (
      if_both Refuses (ltb_ℤ p.p_fuel (pos p.p_ship.s_detcost)) refl
        (if_both Refuses (p.p_flags.wep && not c.game.config.chaosmode) refl refl))

no_refusal :
    (o : Option Reply) (a : Arms) → is_accepted o ≡ false → (det_by o a).1 ≡ accepted → o ≡ none
unfolding det_by
no_refusal none a f e = refl
no_refusal (some r) a f e = let both = ap (λ (x : Reply). is_accepted (some x)) e in absurd (cc)

past :
    (b : Bool) (r : Reply) (o : Option Reply)
    → (if b then some r else o) ≡ none
    → (b ≡ false) × (o ≡ none)
past false r o e = (refl, e)
past true r o e = absurd (cc)

affords : (c : Client) → det_refusal c ≡ none → pos 0 ≤ℤ (pay_det (mine c)).p_fuel
unfolding det_refusal
affords c e =
    let p = mine c in
    let paid = -ℤ_parts p.p_fuel (pos p.p_ship.s_detcost) in
    let enough : ltb_ℤ p.p_fuel (pos p.p_ship.s_detcost) ≡ false =
      (past (ltb_ℤ p.p_fuel (pos p.p_ship.s_detcost)) (refused (negsuc 0)) _
        (past c.game.conquer ignored _ e).1).0 in
    ground arith

same_detted : (p : Player) (t : Torp) → detted (pay_det p) t ≡ detted p t
unfolding detted is_detted is_enemy
same_detted p t = refl

marked :
    (a : Arms) (s k : ℕ)
    → ((j : ℕ) → j < max_player → (a.client.game.players j).p_no ≡ j)
    → s < max_player
    → k < max_torp
    → (det_all a).torps (max_torp * s + k) ≡ (
        if not (is_free (a.client.game.players s).p_status)
        then detted (mine a.client) (a.torps (max_torp * s + k))
        else a.torps (max_torp * s + k))
unfolding det_all
marked a s k nums lt kt =
    let ps = a.client.game.players in
    let i = a.client.me in
    let paid = pay_det (mine a.client) in
    let t = a.torps (max_torp * s + k) in
    det_loop_at (put ps i paid i) (put ps i paid) max_player 0 s k a.torps
      (λ j lo hi. put_keeps (λ (p : Player). p.p_no) ps i paid j refl ∙ nums j hi) kt
    ∙ ap (λ (b : Bool). if b then detted (put ps i paid i) t else t)
        (in_range (not (is_free (put ps i paid s).p_status))
          ∙ ap (λ x. not (is_free x)) (put_keeps (λ (p : Player). p.p_status) ps i paid s refl))
    ∙ ap (λ (d : Torp). if not (is_free (ps s).p_status) then d else t)
        (ap (λ (p : Player). detted p t) (put_self ps i paid) ∙ same_detted (mine a.client) t)
  where
    in_range : (b : Bool) → (leb 0 s && ltb s (0 + max_player) && b) ≡ b
    in_range b = ground arith

nested :
    (b : Bool) (p : Player) (t : Torp)
    → (if b then detted p t else t)
      ≡ (if b && is_detted p t then record t { t_status = t_det; t_whodet = some p.p_no } else t)
unfolding detted
nested true p t = refl
nested false p t = refl

refused_not : (a : Arms) → (detothers a).1 ≡ accepted → det_refusal a.client ≡ none
unfolding detothers
refused_not a e = no_refusal (det_refusal a.client) a (never_accepted a.client) e

fired : (a : Arms) → det_refusal a.client ≡ none → (detothers a).0 ≡ det_all a
unfolding detothers det_by
fired a n = ap (λ (o : Option Reply). (det_by o a).0) n

payer : (a : Arms) → mine (det_all a).client ≡ pay_det (mine a.client)
unfolding det_all
payer a = put_self a.client.game.players a.client.me (pay_det (mine a.client))

-- The shot at the torpedoes of others, where it is accepted: exactly the photons that are in flight
-- within DETDIST, are enemy torpedoes, and belong to a slot in use are marked, with the player as the
-- one who detonates them; all other photons are as they were. The player can pay for it.
pub detothers_lem :
    (a : Arms) (s k : ℕ)
    → ((j : ℕ) → j < max_player → (a.client.game.players j).p_no ≡ j)
    → s < max_player
    → k < max_torp
    → (detothers a).1 ≡ accepted
    → let t = a.torps (max_torp * s + k) in
      ((detothers a).0.torps (max_torp * s + k) ≡ (
        if not (is_free (a.client.game.players s).p_status) && is_detted (mine a.client) t
        then record t { t_status = t_det; t_whodet = some (mine a.client).p_no }
        else t))
      × (pos 0 ≤ℤ (mine (detothers a).0.client).p_fuel)
detothers_lem a s k nums lt kt e =
    let n = refused_not a e in
    let t = a.torps (max_torp * s + k) in
    let me = mine a.client in
    (
      ap (λ (x : Arms). x.torps (max_torp * s + k)) (fired a n)
          ∙ marked a s k nums lt kt
          ∙ nested (not (is_free (a.client.game.players s).p_status)) me t,
      subst (λ (p : Player). pos 0 ≤ℤ p.p_fuel)
          (sym (ap (λ (x : Arms). mine x.client) (fired a n) ∙ payer a)) (affords a.client n),
    )
