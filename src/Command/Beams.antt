-- ===== src/Command/Beams.antt =====
-- Locks and beams keep the bits of `p_flags` exclusive, in every ship.
use netrek_server.Base.{
  ℕ, ◌≡◌, refl, Bool, true, false, not, ◌||◌, ◌==◌, Option, none, some, ℤ, pos, put, arith, inl,
  inr, Bool-cases, if◌then◌else◌, subst, sym,
}
use netrek_server.Game.{
  Flags, Client, Ship, ShipType, Reply, accepted, ignored, refused, mine, is_off,
}
use netrek_server.Bay.{Players, bay_release}
use netrek_server.Draft.{inl_draft_select}
use netrek_server.Draft.Quiet.{inl_draft_select-quiet}
use netrek_server.Lock.{
  is_sub_in_locked, lock_planet_on, lock_planet, is_lockable, lock_player_on, lock_player,
  in_tractor_range, seize, repel, beam_target, tractor_on, tractor_player, pressor_on,
  pressor_player,
}
use netrek_server.Command.Exclusive.{
  IsExclusive, AllExclusive, Clean, put-Exclusive, bay_release-Exclusive,
}

lock_planet_on-Clean : (i : Option ℕ) (c : Client) → Clean c → Clean (lock_planet_on i c).0
unfolding lock_planet_on
lock_planet_on-Clean none c v = v
lock_planet_on-Clean (some i) c v = elim (Bool-cases (is_sub_in_locked c)) [
  | inl e ↦ rw (e, lock_planet_on) v
  | inr e ↦
      rw (e, lock_planet_on)
        (put-Exclusive c.me _ c.game.players (let h = v c.me in ground arith) v)
]

pub lock_planet-Clean : (n : ℤ) (c : Client) → Clean c → Clean (lock_planet n c).0
unfolding lock_planet
lock_planet-Clean n c v = elim (Bool-cases (is_off (mine c).p_inl_draft)) [
  | inl e ↦ rw (e, lock_planet) (lock_planet_on-Clean _ c v)
  | inr e ↦ rw (e, lock_planet) v
]

lock_player_on-Clean : (i : Option ℕ) (c : Client) → Clean c → Clean (lock_player_on i c).0
unfolding lock_player_on
lock_player_on-Clean none c v = v
lock_player_on-Clean (some i) c v =
    elim (Bool-cases (not (is_lockable c i) || is_sub_in_locked c)) [
      | inl e ↦ rw (e, lock_player_on) v
      | inr e ↦
          rw (e, lock_player_on)
            (put-Exclusive c.me _ c.game.players (let h = v c.me in ground arith) v)
    ]

draft-Clean :
    (shipvals : ShipType → Ship) (n : ℤ) (c : Client)
    → Clean c
    → Clean (inl_draft_select shipvals n c)
draft-Clean =
    inl_draft_select-quiet AllExclusive
      (λ i p ps f m v. put-Exclusive i p ps (subst IsExclusive (sym f) (v i)) v)

pub lock_player-Clean :
    (shipvals : ShipType → Ship) (n : ℤ) (c : Client)
    → Clean c
    → Clean (lock_player (inl_draft_select shipvals) n c).0
unfolding lock_player
lock_player-Clean shipvals n c v = elim (Bool-cases (is_off (mine c).p_inl_draft)) [
  | inl e ↦ rw (e, lock_player) (lock_player_on-Clean _ c v)
  | inr e ↦ rw (e, lock_player) (draft-Clean shipvals n c v)
]

-- The bits that the commands of a beam clear in the target and then in the ship.
module _ (t : ℕ) (c : Client) (v : Clean c) (cut : Flags → Flags)
    (cut_fine : (f : Flags) → IsExclusive f → IsExclusive (cut f) × ((cut f).cloak ≡ f.cloak)) where
  freed : Players
  freed = bay_release c.me (bay_release t c.game.players)

  adrift : Players
  adrift = put freed t (record (freed t) { p_flags = cut (freed t).p_flags })

  off : Players
  off = put adrift c.me (record (adrift c.me) { p_flags = cut (adrift c.me).p_flags })

  freed-Clean : AllExclusive freed
  unfolding freed
  freed-Clean =
      bay_release-Exclusive c.me (bay_release t c.game.players)
        (bay_release-Exclusive t c.game.players v)

  adrift-Clean : AllExclusive adrift
  unfolding adrift
  adrift-Clean = put-Exclusive t _ freed (cut_fine _ (freed-Clean t)).0 freed-Clean

  off-Clean : AllExclusive off
  unfolding off
  off-Clean = put-Exclusive c.me _ adrift (cut_fine _ (adrift-Clean c.me)).0 adrift-Clean

  freed-cloak : (s : ℕ) → (freed s).p_flags.cloak ≡ (c.game.players s).p_flags.cloak
  unfolding freed bay_release
  freed-cloak s = ground arith

  off-cloak : (off c.me).p_flags.cloak ≡ (mine c).p_flags.cloak
  unfolding off adrift
  off-cloak =
      ground (
        arith,
        freed-cloak c.me,
        (cut_fine _ (adrift-Clean c.me)).1,
        (cut_fine _ (freed-Clean t)).1,
      )

module _ (t : ℕ) (c : Client) (v : Clean c) (uncloaked : (mine c).p_flags.cloak ≡ false) where
  seize-Clean : Clean (seize t c)
  unfolding seize off adrift freed
  seize-Clean =
      put-Exclusive c.me _ (off t c v cut fine)
        (let h = off-Clean t c v cut fine c.me in let k = off-cloak t c v cut fine in ground arith)
        (off-Clean t c v cut fine)
    where
      cut : Flags → Flags
      cut f = record f { orbit = false }

      fine : (f : Flags) → IsExclusive f → IsExclusive (cut f) × ((cut f).cloak ≡ f.cloak)
      fine f h = (ground arith, refl)

  repel-Clean : Clean (repel t c)
  unfolding repel off adrift freed
  repel-Clean =
      put-Exclusive c.me _ (off t c v cut fine)
        (let h = off-Clean t c v cut fine c.me in let k = off-cloak t c v cut fine in ground arith)
        (off-Clean t c v cut fine)
    where
      cut : Flags → Flags
      cut f = record f { orbit = false; dock = false }

      fine : (f : Flags) → IsExclusive f → IsExclusive (cut f) × ((cut f).cloak ≡ f.cloak)
      fine f h = (ground arith, refl)

tractor_on-Clean : (t : Option ℕ) (c : Client) → Clean c → Clean (tractor_on t c).0
unfolding tractor_on
tractor_on-Clean none c v = put-Exclusive c.me _ c.game.players (let h = v c.me in ground arith) v
tractor_on-Clean (some t) c v = elim (Bool-cases (mine c).p_flags.cloak) [
  | inl e ↦ rw (e, tractor_on) v
  | inr e ↦ elim (Bool-cases (t == (mine c).p_no || (c.game.players t).p_flags.cloak)) [
    | inl d ↦ rw (e, d, tractor_on) v
    | inr d ↦ elim (Bool-cases (in_tractor_range (mine c) (c.game.players t))) [
      | inl r ↦ rw (e, d, r, tractor_on) (seize-Clean t c v e)
      | inr r ↦ rw (e, d, r, tractor_on) v
    ]
  ]
]

pub tractor_player-Clean : (n : ℤ) (c : Client) → Clean c → Clean (tractor_player n c).0
unfolding tractor_player
tractor_player-Clean n c v = go c.game.config.tractors_allowed
  where
    go : (t : Bool) → Clean (if not t then (c, ignored) else tractor_on (beam_target n) c).0
    go true = tractor_on-Clean (beam_target n) c v
    go false = v

pressor_on-Clean : (t : Option ℕ) (c : Client) → Clean c → Clean (pressor_on t c).0
unfolding pressor_on
pressor_on-Clean none c v = put-Exclusive c.me _ c.game.players (let h = v c.me in ground arith) v
pressor_on-Clean (some t) c v =
    go (mine c).p_flags.press (mine c).p_flags.cloak (c.game.players t).p_flags.cloak
      (in_tractor_range (mine c) (c.game.players t)) refl
  where
    go :
        (pressing cloaked hidden near : Bool)
        → (mine c).p_flags.cloak ≡ cloaked
        → let r : Client × Reply =
            if pressing
            then (c, ignored)
            else if cloaked
            then (c, refused (pos 1))
            else if hidden
            then (c, ignored)
            else if near
            then (repel t c, accepted)
            else (c, refused (pos 2)) in
          Clean r.0
    go true k h r e = v
    go false true h r e = v
    go false false true r e = v
    go false false false true e = repel-Clean t c v e
    go false false false false e = v

pub pressor_player-Clean : (n : ℤ) (c : Client) → Clean c → Clean (pressor_player n c).0
unfolding pressor_player
pressor_player-Clean n c v = go c.game.config.tractors_allowed
  where
    go : (t : Bool) → Clean (if not t then (c, refused (pos 0)) else pressor_on (beam_target n) c).0
    go true = pressor_on-Clean (beam_target n) c v
    go false = v
