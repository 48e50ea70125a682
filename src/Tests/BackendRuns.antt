-- ===== src/Tests/BackendRuns.antt =====
-- src/backend/flashing.rs: the checks of a plan with a bootloader.
use idf_remote.Base.{ℕ, ◌≡◌, refl, [], ◌∷◌, ◌++◌, some, Bytes, ok, err, ◌>>=◌, replicate, eq_bytes}
use idf_remote.Base.Text.{codes}
use idf_remote.Plan.Types.{PreparedPlan}
use idf_remote.Backend.Validate.{
  Espflash, dio, invalid_header, get_elem?, size_setting, configured_size, mode_setting,
  frequency_setting, check_size, size_matches, check_header, check_headers, validate,
  check_detected, is_detect, validate_detected_size, trim_hz, only_hz, trim_m, only_m,
}
use idf_remote.Backend.Header.{IsInRange}
use idf_remote.Backend.Checked.{flash-IsInRange}

-- One chip, with its bootloader at address 0, one frequency and one size of 4 MiB.
abbrev one_chip : Espflash ℕ ℕ ℕ
one_chip = record {
  parse_chip = λ text. some 5;
  boot_address = λ chip. 0;
  chip_id = λ chip. chip;
  parse_mode = λ text. some dio;
  parse_frequency = λ text. some 80;
  encode_flash_frequency = λ frequency chip. some 15;
  parse_size = λ text. some 2;
  size_bytes = λ size. 4194304;
  encode_flash_size = λ size. some size;
}

-- Mode 2, size 2 and frequency 15 in the header of chip 5.
abbrev header : Bytes
header = 0xe9 ∷ 1 ∷ 2 ∷ 0x2f ∷ replicate 8 0 ++ 5 ∷ 0 ∷ replicate 10 0

abbrev plan_with : Bytes → PreparedPlan
plan_with image = record {
  chip = codes "esp32c3";
  flash_settings = record {
    mode = some (codes "dio");
    frequency = some (codes "80m");
    size = some (codes "detect");
  };
  segments = record { offset = 0; image = image; original_size = 24 } ∷ [];
}

accepted_header : validate one_chip (plan_with header) ≡ ok 5
unfolding validate configured_size size_setting mode_setting frequency_setting check_size
    check_headers check_header size_matches get_elem? eq_bytes
accepted_header = refl

short_header : validate one_chip (plan_with (0xe9 ∷ 1 ∷ 2 ∷ [])) ≡ err invalid_header
unfolding validate configured_size size_setting mode_setting frequency_setting check_size
    check_headers check_header size_matches get_elem? eq_bytes
short_header = refl

detected_header : validate_detected_size one_chip (plan_with header) 5 4194304 ≡ ok tt
unfolding validate_detected_size is_detect check_detected get_elem? eq_bytes
detected_header = refl

trimmed : trim_m (trim_hz (codes "80mhzhz")) ≡ codes "80"
unfolding trim_m trim_hz only_m only_hz
trimmed = refl

flash-IsInRange_example : IsInRange (
    validate one_chip (plan_with header) >>= λ chip.
    validate_detected_size one_chip (plan_with header) chip 4194304)
flash-IsInRange_example = flash-IsInRange one_chip (plan_with header) 4194304
