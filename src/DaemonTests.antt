-- ===== src/DaemonTests.antt =====
-- The theorems about the daemon's planets, armies and conquests, and about packets, each applied to a
-- concrete state.
use netrek_server.Base.{
  ℕ, ◌+◌, ◌*◌, ◌%◌, ◌≤◌, ◌≡◌, ◌⊎◌, ◌↔◌, inl, inr, refl, true, false, ◌&&◌, ◌==◌, pos, negsuc, ◌+ℤ◌,
  ◌≤ℤ◌, if◌then◌else◌, if_both, put, count, arith, List, [], ◌∷◌,
}
use netrek_server.Game.{
  Team, Player, no_flags, Game, only, fed, rom, kli, ori, same, is_alive, cruiser, max_planets,
}
use netrek_server.Scenario.{ship_at, fleet, game_of}
use netrek_server.Populate.{Crop, Draws, pop_armies}
use netrek_server.Populate.Rounds.{populated, is_planet, populated_once}
use netrek_server.Populate.Growth.{pop_armies_bounds}
use netrek_server.Conquest.{
  Realm, Empire, pause_off, Spoils, owned, is_conquest, systems_won, system_winner, system_of,
  checkwin, checkgen, conquest, victory,
}
use netrek_server.Conquest.Victory.{
  systems_held, systems_without_rivals, conquest_sound, conquest_complete, conquest_any_winner,
}
use netrek_server.Conquest.Genocide.{checkgen_wiped}
use netrek_server.Beam.{beam, beam_ship}
use netrek_server.Beam.Steps.{armies_total}
use netrek_server.Beam.Balance.{IsAlongside, beam_ship-total}
use netrek_server.Beam.Laden.{Fits, IsLaden, beam-Laden}
use netrek_server.Bombard.{plfight}
use netrek_server.Bombard.Armies.{IsManned, plfight-Manned}
use netrek_server.ShortPacket.{Point, pack_coords}
use netrek_server.ShortPacket.RoundTrip.{number, unpack, points, own_torps_roundtrip}

-- A new server's table, and draws.
abbrev unset_crop : Crop
unset_crop = record { pl_poporder = λ i. if i == 0 then negsuc 0 else pos 0; lastpop = 0 }

abbrev rolls : ℕ → ℕ → ℕ
rolls k i = 7 * k + 3 * i

populated_once_example : count max_planets 0 (λ n. is_planet 7 (populated rolls unset_crop n)) ≡ 1
populated_once_example = populated_once rolls unset_crop 7 refl (inl refl) (omega arith)

abbrev peace : Game
peace = game_of fleet

abbrev draws : Draws
draws = record { plague_draw = 17; small_draw = 20; extra_draw = 30; extra_size = 5; agri_draw = 9 }

pop_armies_bounds_example :
    (pos 1 ≤ℤ (pop_armies draws peace (peace.planets 3)).pl_armies)
    × ((pop_armies draws peace (peace.planets 3)).pl_armies ≤ℤ pos 20 +ℤ pos 6)
pop_armies_bounds_example =
    pop_armies_bounds draws peace (peace.planets 3) (omega arith) (omega arith)

abbrev empire : Empire
empire = record {
  te_surrender = 0;
  te_surrender_frame = 0;
  te_surrender_pause = pause_off;
  te_plcount = 0;
}

abbrev realm_of : Game → Realm
realm_of g = record {
  game = g;
  empires = λ t. empire;
  frame = 1000;
  inl_mode = false;
  binconfirm = true;
  surrender_start = 1;
  surr_length = 30;
  pre_t_round = false;
  pret_planets = 3;
}

-- The Romulans hold every planet.
rom_holds_all : systems_held peace rom ≡ 4
unfolding count owned same
rom_holds_all = refl

conquest_complete_example : (checkwin (only fed) (realm_of peace)).1 ≡ conquest
conquest_complete_example =
    conquest_complete (only fed) (realm_of peace) rom refl (omega (arith, rom_holds_all))

conquest_sound_example : (false ≡ false) × ((t : Team) × (victory ≤ systems_without_rivals peace t))
conquest_sound_example = conquest_sound (only fed) (realm_of peace) conquest_complete_example

conquest_any_winner_example :
    ((checkwin (only fed) (realm_of peace)).1 ≡ conquest)
    ↔ ((checkwin (only ori) (realm_of peace)).1 ≡ conquest)
conquest_any_winner_example = conquest_any_winner (only fed) (only ori) (realm_of peace)

-- Romulans and Klingons share every system, and the Federation has lost all.
abbrev mixed : Game
mixed = record peace {
  planets =
      λ h. if h % 2 == 0 then peace.planets h else record (peace.planets h) { pl_owner = only kli };
}

abbrev spoils : Spoils
spoils = record { luck = 4; gift = λ h. 3 * h; coup_draw = 11 }

mixed-no_conquest : is_conquest mixed ≡ false
unfolding is_conquest systems_won system_winner system_of owned count same
mixed-no_conquest = refl

fed_lost : owned mixed (only fed) max_planets 0 ≡ 0
unfolding owned count same
fed_lost = refl

checkgen_wiped_example :
    (is_alive ((checkgen spoils (only fed) 0 (realm_of mixed)).0.game.players 5).p_status
        && same ((checkgen spoils (only fed) 0 (realm_of mixed)).0.game.players 5).p_team (only fed)
      ≡ false)
    × ((same (mixed.players 5).p_team (only fed) ≡ true)
        ⊎ (◌≡◌ {A = ℕ} 5 0)
        ⊎ ((checkgen spoils (only fed) 0 (realm_of mixed)).0.game.players 5 ≡ mixed.players 5))
    × (pos 20 ≤ℤ ((checkgen spoils (only fed) 0 (realm_of mixed)).0.game.planets 2).pl_armies)
checkgen_wiped_example =
    checkgen_wiped spoils (only fed) 0 (realm_of mixed) 5 2 refl fed_lost mixed-no_conquest
      (omega arith) (omega arith)

-- Ship 0 orbits a hostile planet with two armies aboard.
abbrev dropper : Player
dropper = record (ship_at cruiser (record no_flags { orbit = true; beamdown = true }) 0) {
  p_armies = 2;
  p_dock_with = 1;
}

abbrev drop_game : Game
drop_game = game_of (put fleet 0 dropper)

rom_has_forty : owned drop_game (only rom) max_planets 0 ≡ 40
unfolding owned count same
rom_has_forty = refl

dropper-IsAlongside : IsAlongside 0 drop_game
dropper-IsAlongside = record {
  ship = omega arith;
  planet = omega arith;
  base = omega arith;
  not_itself = omega arith;
}

beam_ship-total_example :
    (armies_total (beam_ship spoils 0 (realm_of drop_game)).0.game ≡ armies_total drop_game)
    ⊎ (armies_total (beam_ship spoils 0 (realm_of drop_game)).0.game + 2 ≡ armies_total drop_game)
beam_ship-total_example =
    beam_ship-total spoils 0 (realm_of drop_game) dropper-IsAlongside (omega arith)
      (inr (omega (arith, rom_has_forty)))

drop_game-IsLaden : IsLaden drop_game
drop_game-IsLaden = record {
  fits =
      λ k. if_both Fits (0 == k) (omega arith) (if_both Fits (1 == k) (omega arith) (omega arith));
}

beam-Laden_example : IsLaden (beam (λ i. spoils) (realm_of drop_game)).game
beam-Laden_example = beam-Laden (λ i. spoils) (realm_of drop_game) drop_game-IsLaden

plfight-Manned_example :
    IsManned (plfight (λ j. 10 * j) (record { game = drop_game; pl_warning = λ h. h })).game
plfight-Manned_example =
    plfight-Manned (λ j. 10 * j) (record { game = drop_game; pl_warning = λ h. h })
      (record { manned = λ h. omega arith })

abbrev centre : Point
centre = record { x = 50000; y = 50000 }

abbrev volley : List Point
volley =
    record { x = 50000; y = 50000 }
    ∷ record { x = 59999; y = 40001 }
    ∷ record { x = 61000; y = 50000 }
    ∷ record { x = 40000; y = 60000 }
    ∷ record { x = 51234; y = 48765 }
    ∷ []

own_torps_roundtrip_example :
    unpack 5 (number (pack_coords 0 0 (points centre volley))) ≡ points centre volley
own_torps_roundtrip_example = own_torps_roundtrip centre volley
