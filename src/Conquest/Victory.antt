-- ===== src/Conquest/Victory.antt =====
-- When `checkwin` of ntserv/daemon.c declares the galaxy conquered.
use netrek_server.Base.{
  ℕ, zero, suc, ◌+◌, ◌*◌, ◌≤◌, Bool, true, false, ◌&&◌, ◌≡◌, ◌↔◌, inl, inr, ltb, leb, ◌==◌, count,
  Bool-cases, arith,
}
use netrek_server.Game.{Team, fed, rom, kli, ori, Teams, only, Game}
use netrek_server.Conquest.{
  Realm, owned, recount, system_of, system_winner, goes_to, systems_won, victory, is_conquest,
  conquest, end_surrender, round_outcome, outcome, checkwin,
}

-- Planets of system `i` that another team than `t` owns.
abbrev pub rivals : Game → Team → ℕ → ℕ
rivals g fed i =
    owned g (only rom) 10 (i * 10) + owned g (only kli) 10 (i * 10) + owned g (only ori) 10 (i * 10)
rivals g rom i =
    owned g (only fed) 10 (i * 10) + owned g (only kli) 10 (i * 10) + owned g (only ori) 10 (i * 10)
rivals g kli i =
    owned g (only fed) 10 (i * 10) + owned g (only rom) 10 (i * 10) + owned g (only ori) 10 (i * 10)
rivals g ori i =
    owned g (only fed) 10 (i * 10) + owned g (only rom) 10 (i * 10) + owned g (only kli) 10 (i * 10)

count_mono :
    (n start : ℕ) (f g : ℕ → Bool)
    → ((i : ℕ) → f i ≡ true → g i ≡ true)
    → count n start f ≤ count n start g
unfolding count
count_mono zero start f g h = omega arith
count_mono (suc n) start f g h = elim (Bool-cases (f start)) [
  | inl t ↦ let u = h start t in ground (arith, count_mono n (start + 1) f g h, u)
  | inr e ↦ ground (arith, count_mono n (start + 1) f g h)
]

-- A system is counted for a team only where no other team has a planet.
winner_no_rivals :
    (g : Game) (t : Team) (i : ℕ)
    → goes_to (system_winner g i) t ≡ true
    → (rivals g t i == 0) ≡ true
unfolding system_winner system_of
winner_no_rivals g fed i h = ground arith
winner_no_rivals g rom i h = ground arith
winner_no_rivals g kli i h = ground arith
winner_no_rivals g ori i h = ground arith

holder_wins :
    (g : Game) (t : Team) (i : ℕ)
    → ((rivals g t i == 0) && ltb 0 (owned g (only t) 10 (i * 10))) ≡ true
    → goes_to (system_winner g i) t ≡ true
unfolding system_winner system_of
holder_wins g fed i h = ground arith
holder_wins g rom i h = ground arith
holder_wins g kli i h = ground arith
holder_wins g ori i h = ground arith

pub recount_game : (w : Teams) (r : Realm) → (end_surrender w (recount r)).game ≡ r.game
unfolding end_surrender recount
recount_game w r = ground arith

-- How many systems hold no planet of a rival of `t`, and how many of these hold one of `t`.
abbrev pub systems_without_rivals : Game → Team → ℕ
systems_without_rivals g t = count 4 0 (λ i. rivals g t i == 0)

abbrev pub systems_held : Game → Team → ℕ
systems_held g t = count 4 0 (λ i. (rivals g t i == 0) && ltb 0 (owned g (only t) 10 (i * 10)))

won_no_rivals : (g : Game) (t : Team) → systems_won g t ≤ systems_without_rivals g t
unfolding systems_won
won_no_rivals g t =
    count_mono 4 0 (λ i. goes_to (system_winner g i) t) (λ i. rivals g t i == 0)
      (winner_no_rivals g t)

held_won : (g : Game) (t : Team) → systems_held g t ≤ systems_won g t
unfolding systems_won
held_won g t =
    count_mono 4 0 (λ i. (rivals g t i == 0) && ltb 0 (owned g (only t) 10 (i * 10)))
      (λ i. goes_to (system_winner g i) t) (holder_wins g t)

is_conquest-won : (g : Game) → is_conquest g ≡ true → (t : Team) × (victory ≤ systems_won g t)
unfolding is_conquest
is_conquest-won g h = elim (Bool-cases (leb victory (systems_won g fed))) [
  | inl f ↦ (fed, ground arith)
  | inr f ↦ elim (Bool-cases (leb victory (systems_won g rom))) [
    | inl r ↦ (rom, ground arith)
    | inr r ↦ elim (Bool-cases (leb victory (systems_won g kli))) [
      | inl k ↦ (kli, ground arith)
      | inr k ↦ (ori, ground arith)
    ]
  ]
]

won-is_conquest : (g : Game) (t : Team) → victory ≤ systems_won g t → is_conquest g ≡ true
unfolding is_conquest
won-is_conquest g fed h = ground arith
won-is_conquest g rom h = ground arith
won-is_conquest g kli h = ground arith
won-is_conquest g ori h = ground arith

-- The decision is that of the planets, whoever took the last one.
pub checkwin-decision :
    (w : Teams) (r : Realm)
    → ((checkwin w r).1 ≡ conquest) ↔ ((r.inl_mode ≡ false) × (is_conquest r.game ≡ true))
unfolding checkwin outcome round_outcome
checkwin-decision w r = let same_game = recount_game w r in ground (arith, same_game)

-- `checkwin` declares a conquest only outside INL mode, and only where some team has no rival's
-- planet in at least three of the four systems.
pub conquest_sound :
    (w : Teams) (r : Realm)
    → (checkwin w r).1 ≡ conquest
    → (r.inl_mode ≡ false) × ((t : Team) × (victory ≤ systems_without_rivals r.game t))
conquest_sound w r h =
    let d = (checkwin-decision w r).0 h in
    let won = is_conquest-won r.game d.1 in
    (d.0, (won.0, omega (arith, won.1, won_no_rivals r.game won.0)))

-- Outside INL mode, `checkwin` declares a conquest where a team holds at least three systems: a
-- planet of its own in each, and none of another team.
pub conquest_complete :
    (w : Teams) (r : Realm) (t : Team)
    → r.inl_mode ≡ false
    → victory ≤ systems_held r.game t
    → (checkwin w r).1 ≡ conquest
conquest_complete w r t i h =
    (checkwin-decision w r).1 (i, won-is_conquest r.game t (omega (arith, held_won r.game t)))

-- The player whose capture triggers the check has no part in the decision: a conquest is declared
-- for one team exactly when it would be for another, be it without a single planet.
pub conquest_any_winner :
    (w v : Teams) (r : Realm) → ((checkwin w r).1 ≡ conquest) ↔ ((checkwin v r).1 ≡ conquest)
conquest_any_winner w v r = (
  λ h. (checkwin-decision v r).1 ((checkwin-decision w r).0 h),
  λ h. (checkwin-decision w r).1 ((checkwin-decision v r).0 h),
)
