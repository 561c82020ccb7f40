-- ===== src/Draft.antt =====
-- The draft of INL mode, as far as a command of a player reaches it: `inl_draft_select` of
-- ntserv/draft.c and what it calls there, and `change_team_quietly` of ntserv/util.c. Left out are
-- the counts of free slots in the queues and the rank that a pick is given.
pub mod Quiet
use netrek_server.Base.{
  ℕ, ◌+◌, Bool, true, false, not, ◌&&◌, ◌||◌, ◌==◌, Option, none, some, ℤ, if◌then◌else◌, find,
}
use netrek_server.Game.{
  Player, Game, Client, Ship, ShipType, scout, battleship, Draft, off, moving_to_pool, captain_up,
  captain_down, pooled, moving_to_pick, picked, picked_selector, moving_to_home, draft_end, Teams,
  nobody, only, fed, rom, same, join, without, set_player, is_free, max_player,
}
use netrek_server.Lock.{index_below}

abbrev pub is_up : Draft → Bool
is_up captain_up = true
is_up _ = false

abbrev pub is_down : Draft → Bool
is_down captain_down = true
is_down _ = false

abbrev pub is_selector : Draft → Bool
is_selector picked_selector = true
is_selector _ = false

-- `inl_draft_ignore`
abbrev pub is_ignored : Player → Bool
is_ignored p = is_free p.p_status || p.p_flags.robot || p.p_flags.observer

-- `inl_draft_team_to_captain`
unfoldable pub team_to_captain : Teams → Game → Option ℕ
unfolding find
team_to_captain team g = find max_player 0 (λ h.
    let p = g.players h in
    not (is_ignored p)
    && p.p_inl_captain
    && same p.p_team team
    && (is_up p.p_inl_draft || is_down p.p_inl_draft))

-- the captain whom `inl_draft_next` gives the right to pick
unfoldable pub next_captain : ℕ → Game → Option ℕ
unfolding find
next_captain k g =
    find max_player 0
      (λ h. let p = g.players h in not (h == k) && not (is_ignored p) && p.p_inl_captain)

-- QU_PICKUP, QU_HOME and QU_AWAY
abbrev pub qu_pickup : ℕ
qu_pickup = 0

abbrev pub qu_home : ℕ
qu_home = 2

abbrev pub qu_away : ℕ
qu_away = 3

unfoldable pub team_queue : Teams → ℕ → ℕ
team_queue ours q =
    if not (q == qu_pickup) && not (same ours nobody)
    then (if same ours (only fed) then qu_home else qu_away)
    else q

unfoldable pub change_team_quietly : ℕ → Teams → Teams → Game → Game
unfolding team_queue
change_team_quietly p_no ours theirs g =
    let p = g.players p_no in
    let hostile = without (join p.p_hostile theirs) ours in
    let swar = without (join p.p_swar theirs) ours in
    set_player p_no
      (record p {
        w_queue = team_queue ours p.w_queue;
        p_hostile = hostile;
        p_swar = swar;
        p_war = join hostile swar;
        p_team = ours;
      })
      g

unfoldable pub join_captain : ℕ → ℕ → Game → Game
unfolding change_team_quietly
join_captain j k g =
    let p = g.players j in
    let q = g.players k in
    if same p.p_team q.p_team then g else change_team_quietly p.p_no q.p_team p.p_team g

unfoldable pub number_home : ℕ → Game → Game
number_home j g =
    if same (g.players j).p_team (only fed)
    then record (set_player j (record (g.players j) { p_inl_pick = g.inl_home_pick }) g) {
      inl_home_pick = g.inl_home_pick + 1;
    }
    else g

unfoldable pub number_away : ℕ → Game → Game
number_away j g =
    if same (g.players j).p_team (only rom)
    then record (set_player j (record (g.players j) { p_inl_pick = g.inl_away_pick }) g) {
      inl_away_pick = g.inl_away_pick + 1;
    }
    else g

abbrev pub set_draft : ℕ → Draft → Game → Game
set_draft j s g = set_player j (record (g.players j) { p_inl_draft = s }) g

unfoldable pub inl_draft_pick : ℕ → ℕ → Game → Game
unfolding join_captain number_home number_away
inl_draft_pick j k g =
    set_draft j moving_to_pick (number_away j (number_home j (join_captain j k g)))

unfoldable pub pass : Option Game → Game → Game
pass none g = g
pass (some h) g = h

unfoldable pub choose : ℕ → ℕ → Option Game → Game → Game
unfolding inl_draft_pick
choose j k none g = g
choose j k (some h) g = inl_draft_pick j k h

-- A captain gives a player of his team the duty to pick, or takes it from him.
unfoldable pub delegate : Draft → ℕ → ℕ → Game → Game
delegate s j k g =
    let p = g.players j in
    let q = g.players k in
    if (is_up q.p_inl_draft || is_down q.p_inl_draft) && same p.p_team q.p_team
    then set_draft j s g
    else g

module _ (shipvals : ShipType → Ship) where
  unfoldable pub highlight : ℕ → Draft → ShipType → Game → Game
  highlight j s t g = set_player j (record (g.players j) { p_inl_draft = s; p_ship = shipvals t }) g

  -- `inl_draft_next`: captain `h` is up and captain `k` is down; if there is no `h`, the draft stalls.
  unfoldable pub hand_over : Option ℕ → ℕ → Game → Option Game
  unfolding highlight
  hand_over none k g = none
  hand_over (some h) k g =
      some (highlight k captain_down scout (highlight h captain_up battleship g))

  unfoldable pub inl_draft_next : ℕ → Game → Option Game
  unfolding next_captain hand_over
  inl_draft_next k g = hand_over (next_captain k g) k g

  -- Captain `k` picks a player of the pool, who is no captain.
  unfoldable pub pick_from_pool : ℕ → ℕ → Game → Game
  unfolding inl_draft_next choose
  pick_from_pool j k g =
      if (g.players j).p_inl_captain then g else choose j k (inl_draft_next k g) g

  -- A selector picks for the captain of his team.
  unfoldable pub pick_for : ℕ → Option ℕ → Game → Game
  unfolding pick_from_pool
  pick_for j none g = g
  pick_for j (some k) g = if is_up (g.players k).p_inl_draft then pick_from_pool j k g else g

  unfoldable pub finger_pooled : ℕ → ℕ → Game → Game
  unfolding pick_from_pool pick_for team_to_captain
  finger_pooled j k g =
      let s = (g.players k).p_inl_draft in
      if is_up s
      then pick_from_pool j k g
      else if is_selector s
      then pick_for j (team_to_captain (g.players k).p_team g) g
      else g

  unfoldable pub finger_captain : ℕ → Game → Game
  unfolding inl_draft_next pass
  finger_captain k g = if is_up (g.players k).p_inl_draft then pass (inl_draft_next k g) g else g

  -- The switch on the state of the player that is fingered.
  unfoldable pub finger : Draft → ℕ → ℕ → Game → Game
  unfolding finger_captain finger_pooled delegate
  finger off j k g = g
  finger captain_up j k g = g
  finger captain_down j k g = finger_captain k g
  finger moving_to_pool j k g = finger_pooled j k g
  finger pooled j k g = finger_pooled j k g
  finger moving_to_pick j k g = delegate picked_selector j k g
  finger picked j k g = delegate picked_selector j k g
  finger picked_selector j k g = delegate picked j k g
  finger moving_to_home j k g = g
  finger draft_end j k g = g

  unfoldable pub finger_at : Option ℕ → Client → Client
  unfolding finger
  finger_at none c = c
  finger_at (some j) c = record c { game = finger (c.game.players j).p_inl_draft j c.me c.game }

  -- The test of the source, `n > MAXPLAYER`, lets MAXPLAYER itself through.
  unfoldable pub inl_draft_select : ℤ → Client → Client
  unfolding finger_at
  inl_draft_select n c = finger_at (index_below (max_player + 1) n) c
