-- ===== src/Sdk/Compat.antt =====
-- packages/sdk/src/compat.ts: reads of a market that may predate the renaming of its fee. A reader
-- answers for the name of a function, `none` where the call throws. Number conversion keeps the
-- value, since a fee in basis points is small.
use ponshot.Base.{ℕ, Bool, true, false, Option, none, some, ◌≡◌, arith}
use ponshot.Base.Text.{Text, codes}

abbrev pub Reader : Type 0
Reader = Text → Option ℕ

-- The first answer, or else the second.
abbrev first_answer : Option ℕ → Option ℕ → Option ℕ
first_answer (some n) second = some n
first_answer none second = second

unfoldable pub read_fee_bps : Reader → Option ℕ
read_fee_bps read = first_answer (read (codes "burnFeeBps")) (read (codes "treasuryFeeBps"))

unfoldable pub read_fee_booked : Reader → Option ℕ
read_fee_booked read = first_answer (read (codes "burnAllocated")) (read (codes "treasuryAmount"))

abbrev is_answer : Option ℕ → Bool
is_answer none = false
is_answer (some n) = true

unfoldable pub has_burn_tokenomics : Reader → Bool
has_burn_tokenomics read = is_answer (read (codes "burner"))

-- The two versions of the market contract.
pub data Version : Type 0 where
  v1 v2 : Version

-- What a market of a version answers, with its fee and the amount that it has booked: the functions
-- of the other version do not exist.
pub record Serves (read : Reader) (burner fee booked : ℕ) (old new : Option ℕ → Option ℕ)
    : Type 0 where
  pub fee_new : read (codes "burnFeeBps") ≡ new (some fee)
  pub fee_old : read (codes "treasuryFeeBps") ≡ old (some fee)
  pub booked_new : read (codes "burnAllocated") ≡ new (some booked)
  pub booked_old : read (codes "treasuryAmount") ≡ old (some booked)
  pub burner_new : read (codes "burner") ≡ new (some burner)

abbrev pub only : Version → Version → Option ℕ → Option ℕ
only Version.v1 Version.v1 n = n
only Version.v2 Version.v2 n = n
only _ _ n = none

abbrev pub is_v2 : Version → Bool
is_v2 Version.v1 = false
is_v2 Version.v2 = true

-- Of a market of either version, the fee and the booked amount are read as they are, and the market
-- is told by its version to burn its fee or not.
pub reads_agree :
    (version : Version) (read : Reader) (burner fee booked : ℕ)
    → Serves read burner fee booked (only Version.v1 version) (only Version.v2 version)
    → (read_fee_bps read ≡ some fee)
      × (read_fee_booked read ≡ some booked)
      × (has_burn_tokenomics read ≡ is_v2 version)
unfolding read_fee_bps read_fee_booked has_burn_tokenomics
reads_agree Version.v1 read burner fee booked s =
    ground (arith, s.fee_new, s.fee_old, s.booked_new, s.booked_old, s.burner_new)
reads_agree Version.v2 read burner fee booked s =
    ground (arith, s.fee_new, s.booked_new, s.burner_new)
