-- ===== src/Game/Masks.antt =====
-- Sets of teams: the masks NOBODY, FED, ROM, KLI, ORI and ALLTEAM of include/defs.h, one Bool a bit.
use netrek_server.Base.{Bool, true, false, not, ◌&&◌, ◌||◌}

pub data Team : Type 0 where
  fed rom kli ori : Team

pub record Teams : Type 0 where
  pub has_fed : Bool
  pub has_rom : Bool
  pub has_kli : Bool
  pub has_ori : Bool

-- The bit of one team.
abbrev pub has : Teams → Team → Bool
has m fed = m.has_fed
has m rom = m.has_rom
has m kli = m.has_kli
has m ori = m.has_ori

abbrev pub nobody : Teams
nobody = record { has_fed = false; has_rom = false; has_kli = false; has_ori = false }

abbrev pub all_teams : Teams
all_teams = record { has_fed = true; has_rom = true; has_kli = true; has_ori = true }

abbrev pub only : Team → Teams
only fed = record nobody { has_fed = true }
only rom = record nobody { has_rom = true }
only kli = record nobody { has_kli = true }
only ori = record nobody { has_ori = true }

-- `a | b`
unfoldable pub join : Teams → Teams → Teams
join a b = record {
  has_fed = a.has_fed || b.has_fed;
  has_rom = a.has_rom || b.has_rom;
  has_kli = a.has_kli || b.has_kli;
  has_ori = a.has_ori || b.has_ori;
}

-- `a & ~b`
unfoldable pub without : Teams → Teams → Teams
without a b = record {
  has_fed = a.has_fed && not b.has_fed;
  has_rom = a.has_rom && not b.has_rom;
  has_kli = a.has_kli && not b.has_kli;
  has_ori = a.has_ori && not b.has_ori;
}

-- `a & b`, as a condition
unfoldable pub meets : Teams → Teams → Bool
meets a b =
    a.has_fed && b.has_fed
    || a.has_rom && b.has_rom
    || a.has_kli && b.has_kli
    || a.has_ori && b.has_ori

abbrev same_bit : Bool → Bool → Bool
same_bit true b = b
same_bit false b = not b

-- `a == b`
unfoldable pub same : Teams → Teams → Bool
same a b =
    same_bit a.has_fed b.has_fed
    && same_bit a.has_rom b.has_rom
    && same_bit a.has_kli b.has_kli
    && same_bit a.has_ori b.has_ori
