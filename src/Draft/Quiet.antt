-- ===== src/Draft/Quiet.antt =====
-- A selection in the draft leaves the flags of every ship alone, and what docking is about.
use netrek_server.Base.{ℕ, ◌≡◌, refl, ap, put, ◌+◌, ◌&&◌, ◌||◌, Option, none, some, ℤ, if_both}
use netrek_server.Game.{
  Player, Flags, Game, Client, Ship, ShipType, scout, battleship, Draft, off, moving_to_pool,
  captain_up, captain_down, pooled, moving_to_pick, picked, picked_selector, moving_to_home,
  draft_end, only, fed, rom, same, max_player,
}
use netrek_server.Bay.{Players}
use netrek_server.Bay.Berth.{SameMooring}
use netrek_server.Lock.{index_below}
use netrek_server.Draft.{
  is_up, is_down, is_selector, team_to_captain, next_captain, change_team_quietly, join_captain,
  number_home, number_away, set_draft, inl_draft_pick, highlight, hand_over, inl_draft_next, pass,
  choose, pick_from_pool, pick_for, finger_pooled, delegate, finger_captain, finger, finger_at,
  inl_draft_select,
}

-- A property of all players that a write keeps where it spares the flags and the mooring.
abbrev pub IsKeptByQuiet : (Players → Type 0) → Type 0
IsKeptByQuiet P =
    (i : ℕ) (p : Player) (ps : Players)
    → p.p_flags ≡ (ps i).p_flags
    → SameMooring p (ps i)
    → P ps
    → P (put ps i p)

module _ (P : Players → Type 0) (kept : IsKeptByQuiet P) where
  quietly :
      (i : ℕ) (p : Player) (ps : Players)
      → p.p_flags ≡ (ps i).p_flags
      → p.p_no ≡ (ps i).p_no
      → p.p_dock_with ≡ (ps i).p_dock_with
      → p.p_dock_bay ≡ (ps i).p_dock_bay
      → ((k : ℕ) → p.p_bays k ≡ (ps i).p_bays k)
      → P ps
      → P (put ps i p)
  quietly i p ps f a b c d = kept i p ps f (record {
    same_no = a;
    same_dock = ap (λ (x : Flags). x.dock) f;
    same_with = b;
    same_bay = c;
    same_bays = d;
  })

  join_captain-quiet : (j k : ℕ) (g : Game) → P g.players → P (join_captain j k g).players
  unfolding join_captain change_team_quietly
  join_captain-quiet j k g v =
      if_both (λ (h : Game). P h.players) (same (g.players j).p_team (g.players k).p_team) v
        (quietly (g.players j).p_no _ g.players refl refl refl refl (λ i. refl) v)

  number_home-quiet : (j : ℕ) (g : Game) → P g.players → P (number_home j g).players
  unfolding number_home
  number_home-quiet j g v =
      if_both (λ (h : Game). P h.players) (same (g.players j).p_team (only fed))
        (quietly j _ g.players refl refl refl refl (λ i. refl) v) v

  number_away-quiet : (j : ℕ) (g : Game) → P g.players → P (number_away j g).players
  unfolding number_away
  number_away-quiet j g v =
      if_both (λ (h : Game). P h.players) (same (g.players j).p_team (only rom))
        (quietly j _ g.players refl refl refl refl (λ i. refl) v) v

  set_draft-quiet : (j : ℕ) (s : Draft) (g : Game) → P g.players → P (set_draft j s g).players
  set_draft-quiet j s g v = quietly j _ g.players refl refl refl refl (λ i. refl) v

  pick-quiet : (j k : ℕ) (g : Game) → P g.players → P (inl_draft_pick j k g).players
  unfolding inl_draft_pick
  pick-quiet j k g v =
      let g1 = join_captain j k g in
      let g2 = number_home j g1 in
      set_draft-quiet j moving_to_pick (number_away j g2)
        (number_away-quiet j g2 (number_home-quiet j g1 (join_captain-quiet j k g v)))

  module _ (shipvals : ShipType → Ship) where
    highlight-quiet :
        (j : ℕ) (s : Draft) (t : ShipType) (g : Game)
        → P g.players
        → P (highlight shipvals j s t g).players
    unfolding highlight
    highlight-quiet j s t g v = quietly j _ g.players refl refl refl refl (λ i. refl) v

    pass-quiet :
        (o : Option ℕ) (k : ℕ) (g : Game)
        → P g.players
        → P (pass (hand_over shipvals o k g) g).players
    unfolding pass hand_over
    pass-quiet none k g v = v
    pass-quiet (some h) k g v =
        highlight-quiet k captain_down scout (highlight shipvals h captain_up battleship g)
          (highlight-quiet h captain_up battleship g v)

    choose-quiet :
        (o : Option ℕ) (j k : ℕ) (g : Game)
        → P g.players
        → P (choose j k (hand_over shipvals o k g) g).players
    unfolding choose hand_over
    choose-quiet none j k g v = v
    choose-quiet (some h) j k g v =
        pick-quiet j k
          (highlight shipvals k captain_down scout (highlight shipvals h captain_up battleship g))
          (highlight-quiet k captain_down scout (highlight shipvals h captain_up battleship g)
            (highlight-quiet h captain_up battleship g v))

    pool-quiet : (j k : ℕ) (g : Game) → P g.players → P (pick_from_pool shipvals j k g).players
    unfolding pick_from_pool inl_draft_next
    pool-quiet j k g v =
        if_both (λ (h : Game). P h.players) (g.players j).p_inl_captain v
          (choose-quiet (next_captain k g) j k g v)

    pick_for-quiet :
        (j : ℕ) (o : Option ℕ) (g : Game) → P g.players → P (pick_for shipvals j o g).players
    unfolding pick_for
    pick_for-quiet j none g v = v
    pick_for-quiet j (some k) g v =
        if_both (λ (h : Game). P h.players) (is_up (g.players k).p_inl_draft) (pool-quiet j k g v) v

    finger_pooled-quiet :
        (j k : ℕ) (g : Game) → P g.players → P (finger_pooled shipvals j k g).players
    unfolding finger_pooled
    finger_pooled-quiet j k g v =
        if_both (λ (h : Game). P h.players) (is_up (g.players k).p_inl_draft) (pool-quiet j k g v)
          (if_both (λ (h : Game). P h.players) (is_selector (g.players k).p_inl_draft)
            (pick_for-quiet j (team_to_captain (g.players k).p_team g) g v) v)

    delegate-quiet : (s : Draft) (j k : ℕ) (g : Game) → P g.players → P (delegate s j k g).players
    unfolding delegate
    delegate-quiet s j k g v =
        if_both (λ (h : Game). P h.players)
          ((is_up (g.players k).p_inl_draft || is_down (g.players k).p_inl_draft)
            && same (g.players j).p_team (g.players k).p_team)
          (set_draft-quiet j s g v) v

    finger_captain-quiet :
        (k : ℕ) (g : Game) → P g.players → P (finger_captain shipvals k g).players
    unfolding finger_captain inl_draft_next
    finger_captain-quiet k g v =
        if_both (λ (h : Game). P h.players) (is_up (g.players k).p_inl_draft)
          (pass-quiet (next_captain k g) k g v) v

    finger-quiet :
        (s : Draft) (j k : ℕ) (g : Game) → P g.players → P (finger shipvals s j k g).players
    unfolding finger
    finger-quiet off j k g v = v
    finger-quiet captain_up j k g v = v
    finger-quiet captain_down j k g v = finger_captain-quiet k g v
    finger-quiet moving_to_pool j k g v = finger_pooled-quiet j k g v
    finger-quiet pooled j k g v = finger_pooled-quiet j k g v
    finger-quiet moving_to_pick j k g v = delegate-quiet picked_selector j k g v
    finger-quiet picked j k g v = delegate-quiet picked_selector j k g v
    finger-quiet picked_selector j k g v = delegate-quiet picked j k g v
    finger-quiet moving_to_home j k g v = v
    finger-quiet draft_end j k g v = v

    finger_at-quiet :
        (o : Option ℕ) (c : Client) → P c.game.players → P (finger_at shipvals o c).game.players
    unfolding finger_at
    finger_at-quiet none c v = v
    finger_at-quiet (some j) c v = finger-quiet (c.game.players j).p_inl_draft j c.me c.game v

    pub inl_draft_select-quiet :
        (n : ℤ) (c : Client) → P c.game.players → P (inl_draft_select shipvals n c).game.players
    unfolding inl_draft_select
    inl_draft_select-quiet n c v = finger_at-quiet (index_below (max_player + 1) n) c v
