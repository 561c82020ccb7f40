-- ===== src/Command/Releases.antt =====
-- Locks and beams keep every docked ship in the bay that it names.
use netrek_server.Base.{
  ℕ, ◌≡◌, refl, Bool, true, false, not, ◌||◌, ◌==◌, Option, none, some, ℤ, pos, put, inl, inr,
  Bool-cases, if◌then◌else◌,
}
use netrek_server.Game.{Client, Ship, ShipType, Reply, accepted, ignored, refused, mine, is_off}
use netrek_server.Bay.{Players, bay_release}
use netrek_server.Draft.{inl_draft_select}
use netrek_server.Draft.Quiet.{inl_draft_select-quiet}
use netrek_server.Lock.{
  is_sub_in_locked, lock_planet_on, lock_planet, is_lockable, lock_player_on, lock_player,
  in_tractor_range, seize, repel, beam_target, tractor_on, tractor_player, pressor_on,
  pressor_player,
}
use netrek_server.Bay.Berth.{IsBerthed, put-IsBerthed, bay_release-IsBerthed, undock-IsBerthed}
use netrek_server.Dock.Berths.{Berthed}
use netrek_server.Command.Berths.{moored_as}

lock_planet_on-Berthed : (i : Option ℕ) (c : Client) → Berthed c → Berthed (lock_planet_on i c).0
unfolding lock_planet_on
lock_planet_on-Berthed none c v = v
lock_planet_on-Berthed (some i) c v = elim (Bool-cases (is_sub_in_locked c)) [
  | inl e ↦ rw (e, lock_planet_on) v
  | inr e ↦
      rw (e, lock_planet_on)
        (put-IsBerthed c.me _ c.game.players (moored_as _ _ refl refl refl refl (λ i. refl)) v)
]

pub lock_planet-Berthed : (n : ℤ) (c : Client) → Berthed c → Berthed (lock_planet n c).0
unfolding lock_planet
lock_planet-Berthed n c v = elim (Bool-cases (is_off (mine c).p_inl_draft)) [
  | inl e ↦ rw (e, lock_planet) (lock_planet_on-Berthed _ c v)
  | inr e ↦ rw (e, lock_planet) v
]

lock_player_on-Berthed : (i : Option ℕ) (c : Client) → Berthed c → Berthed (lock_player_on i c).0
unfolding lock_player_on
lock_player_on-Berthed none c v = v
lock_player_on-Berthed (some i) c v =
    elim (Bool-cases (not (is_lockable c i) || is_sub_in_locked c)) [
      | inl e ↦ rw (e, lock_player_on) v
      | inr e ↦
          rw (e, lock_player_on)
            (put-IsBerthed c.me _ c.game.players (moored_as _ _ refl refl refl refl (λ i. refl)) v)
    ]

draft-Berthed :
    (shipvals : ShipType → Ship) (n : ℤ) (c : Client)
    → Berthed c
    → Berthed (inl_draft_select shipvals n c)
draft-Berthed = inl_draft_select-quiet IsBerthed (λ i p ps f m v. put-IsBerthed i p ps m v)

pub lock_player-Berthed :
    (shipvals : ShipType → Ship) (n : ℤ) (c : Client)
    → Berthed c
    → Berthed (lock_player (inl_draft_select shipvals) n c).0
unfolding lock_player
lock_player-Berthed shipvals n c v = elim (Bool-cases (is_off (mine c).p_inl_draft)) [
  | inl e ↦ rw (e, lock_player) (lock_player_on-Berthed _ c v)
  | inr e ↦ rw (e, lock_player) (draft-Berthed shipvals n c v)
]

-- A beam frees both ships before it holds the target.
module _ (t : ℕ) (c : Client) (v : Berthed c) where
  freed : Players
  freed = bay_release c.me (bay_release t c.game.players)

  freed-IsBerthed : IsBerthed freed
  unfolding freed
  freed-IsBerthed =
      bay_release-IsBerthed c.me (bay_release t c.game.players)
        (bay_release-IsBerthed t c.game.players v)

  seize-Berthed : Berthed (seize t c)
  unfolding seize freed
  seize-Berthed = put-IsBerthed c.me _ off (moored_as _ _ refl refl refl refl (λ i. refl)) (
      put-IsBerthed c.me _ adrift (moored_as _ _ refl refl refl refl (λ i. refl))
        (put-IsBerthed t _ freed (moored_as _ _ refl refl refl refl (λ i. refl)) freed-IsBerthed))
    where
      adrift : Players
      adrift =
          put freed t (record (freed t) { p_flags = record ((freed t).p_flags) { orbit = false } })

      off : Players
      off =
          put adrift c.me
            (record (adrift c.me) { p_flags = record ((adrift c.me).p_flags) { orbit = false } })

  repel-Berthed : Berthed (repel t c)
  unfolding repel freed
  repel-Berthed = put-IsBerthed c.me _ off (moored_as _ _ refl refl refl refl (λ i. refl)) (
      undock-IsBerthed c.me adrift (record ((adrift c.me).p_flags) { orbit = false; dock = false })
        refl
        (undock-IsBerthed t freed (record ((freed t).p_flags) { orbit = false; dock = false }) refl
          freed-IsBerthed))
    where
      adrift : Players
      adrift = put freed t (record (freed t) {
        p_flags = record ((freed t).p_flags) { orbit = false; dock = false };
      })

      off : Players
      off = put adrift c.me (record (adrift c.me) {
        p_flags = record ((adrift c.me).p_flags) { orbit = false; dock = false };
      })

tractor_on-Berthed : (t : Option ℕ) (c : Client) → Berthed c → Berthed (tractor_on t c).0
unfolding tractor_on
tractor_on-Berthed none c v =
    put-IsBerthed c.me _ c.game.players (moored_as _ _ refl refl refl refl (λ i. refl)) v
tractor_on-Berthed (some t) c v = elim (Bool-cases (mine c).p_flags.cloak) [
  | inl e ↦ rw (e, tractor_on) v
  | inr e ↦ elim (Bool-cases (t == (mine c).p_no || (c.game.players t).p_flags.cloak)) [
    | inl d ↦ rw (e, d, tractor_on) v
    | inr d ↦ elim (Bool-cases (in_tractor_range (mine c) (c.game.players t))) [
      | inl r ↦ rw (e, d, r, tractor_on) (seize-Berthed t c v)
      | inr r ↦ rw (e, d, r, tractor_on) v
    ]
  ]
]

pub tractor_player-Berthed : (n : ℤ) (c : Client) → Berthed c → Berthed (tractor_player n c).0
unfolding tractor_player
tractor_player-Berthed n c v = go c.game.config.tractors_allowed
  where
    go : (t : Bool) → Berthed (if not t then (c, ignored) else tractor_on (beam_target n) c).0
    go true = tractor_on-Berthed (beam_target n) c v
    go false = v

pressor_on-Berthed : (t : Option ℕ) (c : Client) → Berthed c → Berthed (pressor_on t c).0
unfolding pressor_on
pressor_on-Berthed none c v =
    put-IsBerthed c.me _ c.game.players (moored_as _ _ refl refl refl refl (λ i. refl)) v
pressor_on-Berthed (some t) c v =
    go (mine c).p_flags.press (mine c).p_flags.cloak (c.game.players t).p_flags.cloak
      (in_tractor_range (mine c) (c.game.players t)) refl
  where
    go :
        (pressing cloaked hidden near : Bool)
        → (mine c).p_flags.cloak ≡ cloaked
        → let r : Client × Reply =
            if pressing
            then (c, ignored)
            else if cloaked
            then (c, refused (pos 1))
            else if hidden
            then (c, ignored)
            else if near
            then (repel t c, accepted)
            else (c, refused (pos 2)) in
          Berthed r.0
    go true k h r e = v
    go false true h r e = v
    go false false true r e = v
    go false false false true e = repel-Berthed t c v
    go false false false false e = v

pub pressor_player-Berthed : (n : ℤ) (c : Client) → Berthed c → Berthed (pressor_player n c).0
unfolding pressor_player
pressor_player-Berthed n c v = go c.game.config.tractors_allowed
  where
    go :
        (t : Bool)
        → Berthed (if not t then (c, refused (pos 0)) else pressor_on (beam_target n) c).0
    go true = pressor_on-Berthed (beam_target n) c v
    go false = v
