-- ===== src/Backend/Validate.antt =====
-- `validate`, `configured_size` and `validate_detected_size` of src/backend/flashing.rs. What they call
-- of the espflash crate is a parameter.
use idf_remote.Base.{
  ℕ, ◌+◌, ◌*◌, ◌/◌, ◌%◌, zero, suc, Bool, true, false, ◌&&◌, ◌||◌, List, [], ◌∷◌, ◌++◌, Option,
  none, some, Bytes, length, leb, map, eq_bytes, ◌==◌, if◌then◌else◌, Result, err, ok, ensure,
  context, ◌>>=◌, ◌>>◌,
}
use idf_remote.Base.Text.{codes}
use idf_remote.Plan.Types.{PreparedSegment, PreparedPlan}
use idf_remote.Plan.Prepare.{PlanError}
use idf_remote.Plan.Prepare
use idf_remote.Wire.Digest.{decimal}

-- `FlashMode` of espflash, where `other` stands for the modes that the code does not name.
pub data FlashMode : Type 0 where
  qio qout dio dout other : FlashMode

-- What the code calls of espflash: the parsers of a chip, a mode, a frequency and a size, the boot
-- address and the number of a chip, and how a header encodes a frequency and a size.
pub record Espflash (Chip Frequency Size : Type 0) : Type 0 where
  pub parse_chip : Bytes → Option Chip
  pub boot_address : Chip → ℕ
  pub chip_id : Chip → ℕ
  pub parse_mode : Bytes → Option FlashMode
  pub parse_frequency : Bytes → Option Frequency
  pub encode_flash_frequency : Frequency → Chip → Option ℕ
  pub parse_size : Bytes → Option Size
  pub size_bytes : Size → ℕ
  pub encode_flash_size : Size → Option ℕ

-- `out_of_range` is the panic of an index that is out of range.
pub data FlashError : Type 0 where
  unsupported_chip invalid_mode unsupported_mode invalid_frequency : FlashError
  unencodable_frequency invalid_size unencodable_size : FlashError
  invalid_header chip_mismatch header_disagrees detected_mismatch out_of_range : FlashError
  plan_error : PlanError → FlashError

unfoldable pub get_elem? : ℕ → Bytes → Option ℕ
get_elem? n [] = none
get_elem? zero (b ∷ bs) = some b
get_elem? (suc n) (b ∷ bs) = get_elem? n bs

-- `data[n]`
abbrev pub index : Bytes → ℕ → Result FlashError ℕ
index bytes n = context (get_elem? n bytes) out_of_range

abbrev pub plan_result : Result PlanError (Unit {0}) → Result FlashError (Unit {0})
plan_result (err why) = err (plan_error why)
plan_result (ok u) = ok tt

abbrev pub none_or : Option ℕ → ℕ → Bool
none_or none n = true
none_or (some m) n = m == n

abbrev pub mode_code : FlashMode → Result FlashError (Option ℕ)
mode_code qio = ok (some 0)
mode_code qout = ok (some 1)
mode_code dio = ok (some 2)
mode_code dout = ok (some 3)
mode_code other = err unsupported_mode

-- `to_ascii_lowercase`
abbrev pub to_ascii_lowercase : Bytes → Bytes
to_ascii_lowercase = map (λ c. if leb b'A' c && leb c b'Z' then c + 32 else c)

-- `trim_end_matches("hz")`: whether nothing but repetitions of "hz" is left, and what stands before them.
unfoldable pub only_hz : Bytes → Bool
only_hz [] = true
only_hz (c ∷ []) = false
only_hz (c ∷ d ∷ r) = let rest = only_hz r in c == b'h' && d == b'z' && rest

unfoldable pub trim_hz : Bytes → Bytes
trim_hz [] = []
trim_hz (c ∷ r) = let rest = trim_hz r in if only_hz (c ∷ r) then [] else c ∷ rest

-- `trim_end_matches('m')`
unfoldable pub only_m : Bytes → Bool
only_m [] = true
only_m (c ∷ r) = let rest = only_m r in c == b'm' && rest

unfoldable pub trim_m : Bytes → Bytes
trim_m [] = []
trim_m (c ∷ r) = let rest = trim_m r in if only_m (c ∷ r) then [] else c ∷ rest

unfoldable pub is_detect : Option Bytes → Bool
is_detect none = false
is_detect (some text) = eq_bytes text (codes "detect")

module _ {Chip Frequency Size : Type 0} (esp : Espflash Chip Frequency Size) where
  unfoldable pub size_setting : Option Bytes → Result FlashError (Option Size)
  size_setting none = ok none
  size_setting (some text) =
      if eq_bytes text (codes "keep") || eq_bytes text (codes "detect")
      then ok none
      else context (esp.parse_size text) invalid_size >>= λ size. ok (some size)

  unfoldable pub configured_size : PreparedPlan → Result FlashError (Option Size)
  configured_size plan = size_setting plan.flash_settings.size

  unfoldable pub mode_setting : Option Bytes → Result FlashError (Option ℕ)
  mode_setting none = ok none
  mode_setting (some text) =
      if eq_bytes text (codes "keep")
      then ok none
      else context (esp.parse_mode text) invalid_mode >>= mode_code

  unfoldable pub frequency_setting : Chip → Option Bytes → Result FlashError (Option ℕ)
  frequency_setting chip none = ok none
  frequency_setting chip (some text) =
      let mhz = trim_m (trim_hz (to_ascii_lowercase text)) ++ codes "MHz" in
      if eq_bytes text (codes "keep")
      then ok none
      else context (esp.parse_frequency mhz) invalid_frequency >>= λ frequency.
          context (esp.encode_flash_frequency frequency chip) unencodable_frequency >>= λ code.
          ok (some code)

  unfoldable pub check_size : PreparedPlan → Option Size → Result FlashError (Unit {0})
  check_size plan none = ok tt
  check_size plan (some size) = plan_result (Prepare.validate_capacity plan (esp.size_bytes size))

  -- The last test of `matches`, which is made when the first two hold.
  unfoldable pub size_matches : Option Size → ℕ → Result FlashError Bool
  size_matches none b = ok true
  size_matches (some size) b =
      context (esp.encode_flash_size size) unencodable_size >>= λ code. ok (code == b / 16)

  -- One round of the loop of `validate`, for a segment at the boot address.
  unfoldable pub check_header :
      Chip → Option ℕ → Option ℕ → Option Size → Bytes → Result FlashError (Unit {0})
  check_header chip mode frequency size bytes = do
    ensure (leb 24 (length bytes)) invalid_header
    magic ← index bytes 0
    ensure (magic == 0xe9) invalid_header
    low ← index bytes 12
    high ← index bytes 13
    ensure (low + high * 256 == esp.chip_id chip) chip_mismatch
    mode_byte ← index bytes 2
    config ← index bytes 3
    matches ←
        if none_or mode mode_byte && none_or frequency (config % 16)
        then size_matches size config
        else ok false
    ensure matches header_disagrees

  unfoldable pub check_headers :
      Chip → Option ℕ → Option ℕ → Option Size → List PreparedSegment → Result FlashError (Unit {0})
  check_headers chip mode frequency size [] = ok tt
  check_headers chip mode frequency size (s ∷ ss) =
      let rest = check_headers chip mode frequency size ss in
      if s.offset == esp.boot_address chip
      then check_header chip mode frequency size s.image >> rest
      else rest

  unfoldable pub validate : PreparedPlan → Result FlashError Chip
  validate plan = do
    chip ← context (esp.parse_chip plan.chip) unsupported_chip
    mode ← mode_setting plan.flash_settings.mode
    frequency ← frequency_setting chip plan.flash_settings.frequency
    size ← configured_size plan
    check_size plan size
    check_headers chip mode frequency size plan.segments
    ok chip

  -- The loop of `validate_detected_size`.
  unfoldable pub check_detected : Chip → ℕ → List PreparedSegment → Result FlashError (Unit {0})
  check_detected chip header_size [] = ok tt
  check_detected chip header_size (s ∷ ss) =
      let rest = check_detected chip header_size ss in
      if s.offset == esp.boot_address chip
      then index s.image 3
        >>= (λ config. ensure (config / 16 == header_size) detected_mismatch >> rest)
      else rest

  unfoldable pub validate_detected_size : PreparedPlan → Chip → ℕ → Result FlashError (Unit {0})
  validate_detected_size plan chip detected =
      if is_detect plan.flash_settings.size
      then context (esp.parse_size (decimal (detected / (1024 * 1024)) ++ codes "MB")) invalid_size
        >>= (λ size. context (esp.encode_flash_size size) unencodable_size >>= λ header_size.
            check_detected chip header_size plan.segments)
      else ok tt
