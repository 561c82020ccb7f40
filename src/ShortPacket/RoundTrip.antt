-- ===== src/ShortPacket/RoundTrip.antt =====
-- What a client reads from the packed bytes of ntserv/genspkt.c is what the server packed.
use Prim.Native.Nat.{bit_or}
use native.Mathlib.Nat.{add_assoc}
use netrek_server.Base.{
  if_cases, ℕ, zero, suc, ◌+◌, ◌-◌, ◌*◌, ◌/◌, ◌%◌, ◌^◌, ◌<◌, ◌≤◌, true, ◌≡◌, refl, sym, ap, subst,
  ◌∙◌, ◌==◌, if◌then◌else◌, List, [], ◌∷◌, map, arith,
}
use netrek_server.ShortPacket.{
  Point, own_torp, view_coord, pack_coords, vkills_word, add_vkills, fits_vkills, scale, winside,
  view,
}
use netrek_server.ShortPacket.Bits.{or-eq-add, or-eq-add_kills}

-- The number that the bytes spell, the lowest first.
abbrev pub number : List ℕ → ℕ
number [] = 0
number (b ∷ bs) = b + 256 * number bs

-- A client's reading: nine bits for x and nine for y, from the lowest bit on.
unfoldable pub unpack : ℕ → ℕ → List Point
unpack zero bits = []
unpack (suc n) bits = record { x = bits % 512; y = bits / 512 % 512 } ∷ unpack n (bits / 262144)

abbrev length {ℓ} : {A : Type ℓ} → List A → ℕ
length [] = 0
length (x ∷ xs) = suc (length xs)

abbrev digits : List Point → ℕ
digits [] = 0
digits (p ∷ ps) = p.x + 512 * (p.y + 512 * digits ps)

abbrev pub Fit : List Point → Type 0
Fit [] = Unit
Fit (p ∷ ps) = (p.x < 512) × (p.y < 512) × Fit ps

unpack-digits : (ps : List Point) → Fit ps → unpack (length ps) (digits ps) ≡ ps
unfolding unpack
unpack-digits [] f = refl
unpack-digits (p ∷ ps) f =
    let d = digits ps in
    let ex : (p.x + 512 * (p.y + 512 * d)) % 512 ≡ p.x = omega (arith, f.0) in
    let ey : (p.x + 512 * (p.y + 512 * d)) / 512 % 512 ≡ p.y = omega (arith, f.0, f.1) in
    let ed : (p.x + 512 * (p.y + 512 * d)) / 262144 ≡ d = omega (arith, f.0, f.1) in
    rw (ex, ey, ed) (ap (λ qs. p ∷ qs) (unpack-digits ps f.2))

-- What holds of the eight shifts of a byte.
below_eight :
    (P : ℕ → Type 0) → P 0 × P 1 × P 2 × P 3 × P 4 × P 5 × P 6 × P 7 → (s : ℕ) → s < 8 → P s
below_eight P p zero h = p.0
below_eight P p (suc zero) h = p.1
below_eight P p (suc (suc zero)) h = p.2
below_eight P p (suc (suc (suc zero))) h = p.3
below_eight P p (suc (suc (suc (suc zero)))) h = p.4
below_eight P p (suc (suc (suc (suc (suc zero))))) h = p.5
below_eight P p (suc (suc (suc (suc (suc (suc zero)))))) h = p.6
below_eight P p (suc (suc (suc (suc (suc (suc (suc zero))))))) h = p.7
below_eight P p (suc (suc (suc (suc (suc (suc (suc (suc s)))))))) h = absurd (omega arith)

shift_mod : (v s : ℕ) → s < 8 → v * 2 ^ s % 256 ≡ (v % 2 ^ (8 - s)) * 2 ^ s
shift_mod v = below_eight (λ s. v * 2 ^ s % 256 ≡ (v % 2 ^ (8 - s)) * 2 ^ s) (omega arith)

mod_bound : (v s : ℕ) → s < 8 → v % 2 ^ (8 - s) < 2 ^ (8 - s)
mod_bound v = below_eight (λ s. v % 2 ^ (8 - s) < 2 ^ (8 - s)) (omega arith)

or_shift :
    (s low v : ℕ) → s < 8 → low < 2 ^ s → bit_or low (v * 2 ^ s % 256) ≡ low + v * 2 ^ s % 256
or_shift s low v h lo =
    subst (λ w. bit_or low w ≡ low + w) (sym (shift_mod v s h))
      (or-eq-add s low (v % 2 ^ (8 - s)) h lo (mod_bound v s h))

-- The bits of a nine-bit value that go to the next byte.
carry :
    (v s : ℕ)
    → s < 8
    → v < 512
    → (v * 2 ^ s / 256 % 256 ≡ v * 2 ^ s / 256) × (v * 2 ^ s / 256 < 2 ^ (s + 1))
carry v s h lt =
    below_eight (λ k. (v * 2 ^ k / 256 % 256 ≡ v * 2 ^ k / 256) × (v * 2 ^ k / 256 < 2 ^ (k + 1)))
      (omega arith) s h

double : (s : ℕ) → s < 8 → (2 ^ (s + 1) ≡ 2 * 2 ^ s) × (2 ^ (s + 2) ≡ 4 * 2 ^ s)
double = below_eight (λ s. (2 ^ (s + 1) ≡ 2 * 2 ^ s) × (2 ^ (s + 2) ≡ 4 * 2 ^ s)) (omega arith)

-- One pair of coordinates, over its first two bytes.
pair_number :
    (s low x y rest : ℕ)
    → s < 7
    → low < 2 ^ s
    → x < 512
    → y < 512
    → bit_or low (x * 2 ^ s % 256)
        + 256
          * (bit_or (x * 2 ^ s / 256 % 256) (y * 2 ^ (s + 1) % 256)
              + 256 * (y * 2 ^ (s + 1) / 256 % 256 + rest))
      ≡ low + x * 2 ^ s + 256 * (y * 2 ^ (s + 1)) + 65536 * rest
pair_number s low x y rest h lo hx hy =
    let cx = carry x s (omega arith) hx in
    let cy = carry y (s + 1) (omega arith) hy in
    let first = or_shift s low x (omega arith) lo in
    let second = or_shift (s + 1) (x * 2 ^ s / 256 % 256) y (omega arith) (rw (cx.0) (cx.1)) in
    rw (first, second, cx.0, cy.0) (omega arith)

pack_number :
    (ps : List Point) (s low : ℕ)
    → Fit ps
    → s < 8
    → s % 2 ≡ 0
    → low < 2 ^ s
    → number (pack_coords s low ps) ≡ low + 2 ^ s * digits ps
unfolding pack_coords
pack_number [] s low f h even lo = omega arith
pack_number (p ∷ ps) s low f h even lo =
    let dy = p.y * 2 ^ (s + 1) in
    let low' = dy / 256 % 256 in
    let c = double s h in
    let whole = pack_number ps 0 0 f.2 (omega arith) (omega arith) (omega arith) in
    let full = low' ∷ pack_coords 0 0 ps in
    let more = pack_coords (s + 2) low' ps in
    let cy = carry p.y (s + 1) (ground (arith, even)) f.1 in
    let tail : number (if s + 2 == 8 then full else more) ≡ low' + 4 * 2 ^ s * digits ps =
      if_cases (λ bs. number bs ≡ low' + 4 * 2 ^ s * digits ps) (s + 2 == 8)
        (λ e.
          let six : s ≡ 6 = ground arith in
          subst (λ k. number full ≡ low' + 4 * 2 ^ k * digits ps) (sym six) (omega (arith, whole)))
        (λ ne.
          let ih =
            pack_number ps (s + 2) low' f.2 (ground (arith, even)) (omega arith)
              (rw (cy.0) (subst (λ k. dy / 256 < 2 ^ k) (add_assoc s 1 1) cy.1)) in
          ih ∙ ap (λ c. low' + c * digits ps) c.1) in
    ap
      (λ t.
        bit_or low (p.x * 2 ^ s % 256)
        + 256 * (bit_or (p.x * 2 ^ s / 256 % 256) (dy % 256) + 256 * t))
      tail
    ∙ pair_number s low p.x p.y (4 * 2 ^ s * digits ps) (ground (arith, even)) lo f.0 f.1
    ∙ omega (arith, ap (λ (t : ℕ). p.y * t) c.0)

abbrev pub points : Point → List Point → List Point
points me = map (own_torp me)

-- A coordinate fits in nine bits: 0 to 500 in view, 501 out of it.
own_torp_bounds : (me t : Point) → ((own_torp me t).x ≤ 501) × ((own_torp me t).y ≤ 501)
unfolding own_torp view_coord
own_torp_bounds me t = ground arith

points-Fit : (me : Point) (ts : List Point) → Fit (points me ts)
points-Fit me [] = tt
points-Fit me (t ∷ ts) =
    let b = own_torp_bounds me t in (omega (arith, b.0), omega (arith, b.1), points-Fit me ts)

length-points : (me : Point) (ts : List Point) → length (points me ts) ≡ length ts
length-points me [] = refl
length-points me (t ∷ ts) = ap suc (length-points me ts)

-- Whatever the positions of the player's torpedoes, a client that reads the packed bytes nine bits at
-- a time gets the coordinates that the server packed, in their order, none truncated.
pub own_torps_roundtrip :
    (me : Point) (ts : List Point)
    → unpack (length ts) (number (pack_coords 0 0 (points me ts))) ≡ points me ts
own_torps_roundtrip me ts =
    let f = points-Fit me ts in
    let n = pack_number (points me ts) 0 0 f (omega arith) (omega arith) (omega arith) in
    let d : number (pack_coords 0 0 (points me ts)) ≡ digits (points me ts) = omega (arith, n) in
    rw (d) (
      subst (λ k. unpack k (digits (points me ts)) ≡ points me ts) (length-points me ts)
        (unpack-digits (points me ts) f))

-- An entry of SP_S_KILLS holds the kills and the number of the player, for the values that the server
-- packs: a client finds the kills in the low ten bits of the two bytes and the number above them.
pub vkills_roundtrip :
    (kills pnum : ℕ)
    → fits_vkills true kills pnum ≡ true
    → (number (add_vkills kills pnum) % 1024 ≡ kills)
      × (number (add_vkills kills pnum) / 1024 ≡ pnum)
unfolding add_vkills vkills_word
vkills_roundtrip kills pnum h =
    let k : kills < 1024 = ground arith in
    let n : pnum < 64 = ground arith in
    let w = or-eq-add_kills kills pnum k n in
    let kk : kills % 65536 ≡ kills = omega arith in
    let nn : pnum * 1024 % 65536 ≡ pnum * 1024 = omega arith in rw (kk, nn, w) (omega arith)

-- In view the difference of the pixels is not cut at 0.
view_coord_exact :
    (t me : ℕ)
    → t ≤ me + view
    → me ≤ t + view
    → view_coord t me + me / scale ≡ t / scale + winside / 2
unfolding view_coord
view_coord_exact t me h k = omega arith
