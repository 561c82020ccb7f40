-- ===== src/Command/Shots.antt =====
-- Coups, shots and detonations keep the bits of `p_flags` exclusive and every docked ship in the bay
-- that it names: they change counts, fuel, temperatures, planets and torpedoes.
use netrek_server.Base.{ℕ, refl, Option, none, some}
use netrek_server.Game.{Client, Reply}
use netrek_server.Torp.{
  Arms, Cost, Attributes, Rules, torp_refusal, plasma_refusal, launch_torp, ntorp_by, ntorp,
  launch_plasma, nplasmatorp_by, nplasmatorp,
}
use netrek_server.Detonate.{det_refusal, det_all, det_by, detothers}
use netrek_server.Coup.{coup_refusal, throw_coup, coup_by, coup}
use netrek_server.Bay.Berth.{put-IsBerthed}
use netrek_server.Dock.Berths.{Berthed}
use netrek_server.Command.Berths.{moored_as}
use netrek_server.Command.Exclusive.{Clean, put-Exclusive}

coup_by-Clean : (o : Option Reply) (c : Client) → Clean c → Clean (coup_by o c).0
unfolding coup_by throw_coup
coup_by-Clean (some r) c v = v
coup_by-Clean none c v = put-Exclusive c.me _ c.game.players (v c.me) v

pub coup-Clean : (c : Client) → Clean c → Clean (coup c).0
unfolding coup
coup-Clean c v = coup_by-Clean (coup_refusal c) c v

det_by-Clean : (o : Option Reply) (a : Arms) → Clean a.client → Clean (det_by o a).0.client
unfolding det_by det_all
det_by-Clean (some r) a v = v
det_by-Clean none a v = put-Exclusive a.client.me _ a.client.game.players (v a.client.me) v

pub detothers-Clean : (a : Arms) → Clean a.client → Clean (detothers a).0.client
unfolding detothers
detothers-Clean a v = det_by-Clean (det_refusal a.client) a v

module _ (speed_of : ℕ → ℕ → ℕ → ℕ → ℕ) (rules : Rules) where
  ntorp_by-Clean :
      (o : Option Reply) (k : Cost) (rnd d : ℕ) (attributes : Attributes) (a : Arms)
      → Clean a.client
      → Clean (ntorp_by speed_of rules o k rnd d attributes a).0.client
  unfolding ntorp_by launch_torp
  ntorp_by-Clean (some r) k rnd d attributes a v = v
  ntorp_by-Clean none k rnd d attributes a v =
      put-Exclusive a.client.me _ a.client.game.players (v a.client.me) v

  pub ntorp-Clean :
      (k : Cost) (rnd d : ℕ) (attributes : Attributes) (a : Arms)
      → Clean a.client
      → Clean (ntorp speed_of rules k rnd d attributes a).0.client
  unfolding ntorp
  ntorp-Clean k rnd d attributes a v =
      ntorp_by-Clean (torp_refusal rules k d a) k rnd d attributes a v

  nplasmatorp_by-Clean :
      (o : Option Reply) (d : ℕ) (attributes : Attributes) (a : Arms)
      → Clean a.client
      → Clean (nplasmatorp_by speed_of rules o d attributes a).0.client
  unfolding nplasmatorp_by launch_plasma
  nplasmatorp_by-Clean (some r) d attributes a v = v
  nplasmatorp_by-Clean none d attributes a v =
      put-Exclusive a.client.me _ a.client.game.players (v a.client.me) v

  pub nplasmatorp-Clean :
      (d : ℕ) (attributes : Attributes) (a : Arms)
      → Clean a.client
      → Clean (nplasmatorp speed_of rules d attributes a).0.client
  unfolding nplasmatorp
  nplasmatorp-Clean d attributes a v =
      nplasmatorp_by-Clean (plasma_refusal rules a) d attributes a v

coup_by-Berthed : (o : Option Reply) (c : Client) → Berthed c → Berthed (coup_by o c).0
unfolding coup_by throw_coup
coup_by-Berthed (some r) c v = v
coup_by-Berthed none c v =
    put-IsBerthed c.me _ c.game.players (moored_as _ _ refl refl refl refl (λ i. refl)) v

pub coup-Berthed : (c : Client) → Berthed c → Berthed (coup c).0
unfolding coup
coup-Berthed c v = coup_by-Berthed (coup_refusal c) c v

det_by-Berthed : (o : Option Reply) (a : Arms) → Berthed a.client → Berthed (det_by o a).0.client
unfolding det_by det_all
det_by-Berthed (some r) a v = v
det_by-Berthed none a v =
    put-IsBerthed a.client.me _ a.client.game.players
      (moored_as _ _ refl refl refl refl (λ i. refl)) v

pub detothers-Berthed : (a : Arms) → Berthed a.client → Berthed (detothers a).0.client
unfolding detothers
detothers-Berthed a v = det_by-Berthed (det_refusal a.client) a v

module _ (speed_of : ℕ → ℕ → ℕ → ℕ → ℕ) (rules : Rules) where
  ntorp_by-Berthed :
      (o : Option Reply) (k : Cost) (rnd d : ℕ) (attributes : Attributes) (a : Arms)
      → Berthed a.client
      → Berthed (ntorp_by speed_of rules o k rnd d attributes a).0.client
  unfolding ntorp_by launch_torp
  ntorp_by-Berthed (some r) k rnd d attributes a v = v
  ntorp_by-Berthed none k rnd d attributes a v =
      put-IsBerthed a.client.me _ a.client.game.players
        (moored_as _ _ refl refl refl refl (λ i. refl)) v

  pub ntorp-Berthed :
      (k : Cost) (rnd d : ℕ) (attributes : Attributes) (a : Arms)
      → Berthed a.client
      → Berthed (ntorp speed_of rules k rnd d attributes a).0.client
  unfolding ntorp
  ntorp-Berthed k rnd d attributes a v =
      ntorp_by-Berthed (torp_refusal rules k d a) k rnd d attributes a v

  nplasmatorp_by-Berthed :
      (o : Option Reply) (d : ℕ) (attributes : Attributes) (a : Arms)
      → Berthed a.client
      → Berthed (nplasmatorp_by speed_of rules o d attributes a).0.client
  unfolding nplasmatorp_by launch_plasma
  nplasmatorp_by-Berthed (some r) d attributes a v = v
  nplasmatorp_by-Berthed none d attributes a v =
      put-IsBerthed a.client.me _ a.client.game.players
        (moored_as _ _ refl refl refl refl (λ i. refl)) v

  pub nplasmatorp-Berthed :
      (d : ℕ) (attributes : Attributes) (a : Arms)
      → Berthed a.client
      → Berthed (nplasmatorp speed_of rules d attributes a).0.client
  unfolding nplasmatorp
  nplasmatorp-Berthed d attributes a v =
      nplasmatorp_by-Berthed (plasma_refusal rules a) d attributes a v
