-- ===== src/Upkeep/Turn.antt =====
-- A turning ship comes closer to the course that was ordered, and never overshoots it.
use netrek_server.Base.{
  inl, inr, Bool-cases, ℕ, ◌+◌, ◌-◌, ◌/◌, ◌%◌, ◌<◌, ◌≡◌, ◌≢◌, refl, Bool, true, false, ltb, arith,
  if◌then◌else◌, ◌==◌, ◌⊎◌,
}
use netrek_server.Game.{Player}
use netrek_server.Upkeep.{turned, changedir, turn_gain}

-- The shorter arc between two directions, of 256 to the circle.
abbrev pub arc : ℕ → ℕ → ℕ
arc a b = let d = (a - b) + (b - a) in if ltb 128 d then 256 - d else d

-- A turn by `ticks` ends on the ordered course, or exactly `ticks` closer to it.
turned_lem :
    (ticks dir desdir : ℕ)
    → dir < 256
    → desdir < 256
    → (turned ticks dir desdir < 256)
      × ((turned ticks dir desdir ≡ desdir)
          ⊎ (arc (turned ticks dir desdir) desdir + ticks ≡ arc dir desdir))
unfolding turned
turned_lem ticks dir desdir hd he = ground arith

changedir-cases :
    (newturn : Bool) (p : Player)
    → p.p_dir < 256
    → p.p_desdir < 256
    → let q = changedir newturn p in
      let ticks = (p.p_subdir + turn_gain newturn p) / 1000 in
      (q.p_dir < 256)
      × (p.p_speed ≡ 0 → (q.p_dir ≡ p.p_desdir) × (q.p_subdir ≡ 0))
      × (p.p_speed ≢ 0
          → ((q.p_dir ≡ p.p_desdir) ⊎ (arc q.p_dir p.p_desdir + ticks ≡ arc p.p_dir p.p_desdir))
            × (q.p_subdir < 1000))
unfolding changedir
changedir-cases newturn p hd he =
    let t = turned_lem ((p.p_subdir + turn_gain newturn p) / 1000) p.p_dir p.p_desdir hd he in
    go (p.p_speed == 0) refl t
  where
    sub : ℕ
    sub = p.p_subdir + turn_gain newturn p

    IsTurned : Player → Type 0
    IsTurned q =
        (q.p_dir < 256)
        × (p.p_speed ≡ 0 → (q.p_dir ≡ p.p_desdir) × (q.p_subdir ≡ 0))
        × (p.p_speed ≢ 0
            → ((q.p_dir ≡ p.p_desdir)
                ⊎ (arc q.p_dir p.p_desdir + sub / 1000 ≡ arc p.p_dir p.p_desdir))
              × (q.p_subdir < 1000))

    moving : Bool → Player
    moving b =
        if b
        then record p { p_subdir = sub }
        else record p { p_dir = turned (sub / 1000) p.p_dir p.p_desdir; p_subdir = sub % 1000 }

    run :
        (b : Bool)
        → (sub / 1000 == 0) ≡ b
        → p.p_speed ≢ 0
        → (turned (sub / 1000) p.p_dir p.p_desdir < 256)
          × ((turned (sub / 1000) p.p_dir p.p_desdir ≡ p.p_desdir)
              ⊎ (arc (turned (sub / 1000) p.p_dir p.p_desdir) p.p_desdir + sub / 1000
                  ≡ arc p.p_dir p.p_desdir))
        → IsTurned (moving b)
    run true e ne t =
        let z : sub / 1000 ≡ 0 = ground arith in
        (hd, λ s. absurd (ne s), λ s. (inr (omega arith), omega arith))
    run false e ne t = (t.0, λ s. absurd (ne s), λ s. (t.1, omega arith))

    go :
        (b : Bool)
        → (p.p_speed == 0) ≡ b
        → (turned (sub / 1000) p.p_dir p.p_desdir < 256)
          × ((turned (sub / 1000) p.p_dir p.p_desdir ≡ p.p_desdir)
              ⊎ (arc (turned (sub / 1000) p.p_dir p.p_desdir) p.p_desdir + sub / 1000
                  ≡ arc p.p_dir p.p_desdir))
        → IsTurned
            (if b then record p { p_dir = p.p_desdir; p_subdir = 0 } else moving (sub / 1000 == 0))
    go true e t = (he, λ s. (refl, refl), λ s. absurd (s (ground arith)))
    go false e t = run (sub / 1000 == 0) refl (ground arith) t

-- `changedir` of a ship whose direction and order are bytes leaves a byte; a ship at rest has its
-- course at once; one that moves has it, or is closer to it by what its turning has saved up in whole
-- thousandths, of which less than one stays over.
pub changedir_lem :
    (newturn : Bool) (p : Player)
    → p.p_dir < 256
    → p.p_desdir < 256
    → let q = changedir newturn p in
      let ticks = (p.p_subdir + turn_gain newturn p) / 1000 in
      (q.p_dir < 256)
      × (((p.p_speed ≡ 0) × (q.p_dir ≡ p.p_desdir) × (q.p_subdir ≡ 0))
          ⊎ ((p.p_speed ≢ 0)
              × ((q.p_dir ≡ p.p_desdir) ⊎ (arc q.p_dir p.p_desdir + ticks ≡ arc p.p_dir p.p_desdir))
              × (q.p_subdir < 1000)))
changedir_lem newturn p hd he =
    let c = changedir-cases newturn p hd he in
    elim (Bool-cases (p.p_speed == 0)) [
      | inl e ↦ let z : p.p_speed ≡ 0 = ground arith in (c.0, inl (z, (c.1 z).0, (c.1 z).1))
      | inr e ↦ let n : p.p_speed ≢ 0 = ground arith in (c.0, inr (n, (c.2 n).0, (c.2 n).1))
    ]
