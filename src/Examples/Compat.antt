-- ===== src/Examples/Compat.antt =====
-- A market of the first version.
use ponshot.Base.{◌≡◌, refl, some, none, if◌then◌else◌, false}
use ponshot.Base.Text.{codes, same_text}
use ponshot.Sdk.Compat.{
  Reader, Serves, Version, only, reads_agree, read_fee_bps, read_fee_booked, has_burn_tokenomics,
}

abbrev legacy : Reader
legacy name =
    if same_text name (codes "treasuryFeeBps")
    then some 300
    else if same_text name (codes "treasuryAmount")
    then some 40
    else none

legacy-Serves : Serves legacy 9 300 40 (only Version.v1 Version.v1) (only Version.v2 Version.v1)
legacy-Serves = record {
  fee_new = refl;
  fee_old = refl;
  booked_new = refl;
  booked_old = refl;
  burner_new = refl;
}

reads_agree_test :
    (read_fee_bps legacy ≡ some 300)
    × (read_fee_booked legacy ≡ some 40)
    × (has_burn_tokenomics legacy ≡ false)
reads_agree_test = reads_agree Version.v1 legacy 9 300 40 legacy-Serves
