-- ===== src/Wire/Manifest.antt =====
-- The flash upload of src/wire.rs: `FlashUploadManifest::{from_plan, with_warnings, validate,
-- into_plan}`.
use idf_remote.Base.{
  ℕ, suc, ◌+◌, ◌*◌, ◌%◌, ◌^◌, Bool, true, not, ◌&&◌, List, [], ◌∷◌, Option, none, some, Bytes,
  eq_bytes, length, is_empty, take, all, ltb, leb, ◌==◌, Result, ok, ensure, ◌>>=◌, ◌>>◌,
}
use idf_remote.Base.Words.{next_multiple_of}
use idf_remote.Base.Sorting.{sort_by_key, adjacent}
use idf_remote.Device.{DeviceId}
use idf_remote.Plan.Types.{FlashSettings, PreparedSegment, PreparedPlan}
use idf_remote.Plan.Prepare.{pad, erase_end, erase_start}
use idf_remote.Wire.Digest.{Hash, sha256, is_lower_hex, segment_name}

-- 32 MiB.
abbrev pub max_upload_bytes : ℕ
max_upload_bytes = 32 * 1024 * 1024

pub data FlashWarning : Type 0 where
  empty_idf_image_skipped : Option Bytes → ℕ → FlashWarning

pub record UploadSegmentMetadata : Type 0 where
  pub part : Bytes
  pub offset : ℕ  -- u32
  pub size : ℕ  -- u64
  pub digest_text : Bytes  -- the field `sha256`

pub record FlashUploadManifest : Type 0 where
  pub device_id : DeviceId
  pub version : ℕ
  pub chip : Bytes
  pub flash_settings : FlashSettings
  pub segments : List UploadSegmentMetadata
  pub flash_baud : ℕ
  pub monitor_baud : ℕ
  pub no_reset_before : Bool
  pub warnings : List FlashWarning

pub data UploadError : Type 0 where
  unsupported_version chip_required too_many_warnings invalid_image_name invalid_baud : UploadError
  segment_count part_name unaligned_offset size_overflow empty_or_too_large : UploadError
  invalid_digest address_overflow shared_sector missing_part : UploadError
  size_mismatch digest_mismatch : UploadError

-- The sum of `s.data.len()`.
abbrev pub image_total : List PreparedSegment → ℕ
image_total [] = 0
image_total (s ∷ ss) = length s.image + image_total ss

unfoldable pub describe_segments : Hash → ℕ → List PreparedSegment → List UploadSegmentMetadata
describe_segments h index [] = []
describe_segments h index (s ∷ ss) =
    record {
      part = segment_name index;
      offset = s.offset;
      size = s.original_size;
      digest_text = sha256 h (take s.original_size s.image);
    }
    ∷ describe_segments h (suc index) ss

unfoldable pub from_plan :
    Hash → DeviceId → PreparedPlan → ℕ → ℕ → Bool → Result UploadError FlashUploadManifest
from_plan h device_id plan flash_baud monitor_baud no_reset_before = do
  ensure (leb (image_total plan.segments) max_upload_bytes) empty_or_too_large
  ok (record {
    device_id = device_id;
    version = 2;
    chip = plan.chip;
    flash_settings = plan.flash_settings;
    segments = describe_segments h 0 plan.segments;
    flash_baud = flash_baud;
    monitor_baud = monitor_baud;
    no_reset_before = no_reset_before;
    warnings = [];
  })

unfoldable pub with_warnings : FlashUploadManifest → List FlashWarning → FlashUploadManifest
with_warnings m warnings = record m { warnings = warnings }

-- `image.is_none_or(|name| !name.is_empty() && name.len() <= 128)`
abbrev pub is_warning_ok : FlashWarning → Bool
is_warning_ok (empty_idf_image_skipped none offset) = true
is_warning_ok (empty_idf_image_skipped (some name) offset) =
    not (is_empty name) && leb (length name) 128

unfoldable pub check_warnings : List FlashWarning → Result UploadError (Unit {0})
check_warnings [] = ok tt
check_warnings (w ∷ ws) = do ensure (is_warning_ok w) invalid_image_name; check_warnings ws

-- One round of the loop of `validate`: the new total and the range that is pushed.
unfoldable pub check_segment : ℕ → ℕ → UploadSegmentMetadata → Result UploadError (ℕ × (ℕ × ℕ))
check_segment index total s = do
  ensure (eq_bytes s.part (segment_name index)) part_name
  ensure (s.offset % 4 == 0) unaligned_offset
  ensure (ltb (total + s.size) (2 ^ 64)) size_overflow
  ensure (ltb 0 s.size && leb (total + s.size) max_upload_bytes) empty_or_too_large
  ensure (length s.digest_text == 64 && all is_lower_hex s.digest_text) invalid_digest
  ensure (leb (s.offset + next_multiple_of s.size 4) (2 ^ 32)) address_overflow
  ok (total + s.size, (s.offset, next_multiple_of s.size 4))

unfoldable pub check_segments :
    ℕ → ℕ → List UploadSegmentMetadata → Result UploadError (List (ℕ × ℕ))
check_segments index total [] = ok []
check_segments index total (s ∷ ss) = do
  (total', range) ← check_segment index total s
  rest ← check_segments (suc index) total' ss
  ok (range ∷ rest)

-- The test on two neighbouring ranges.
abbrev pub ranges_apart : ℕ × ℕ → ℕ × ℕ → Bool
ranges_apart a b = leb (erase_end a.0 a.1) (erase_start b.0)

unfoldable pub validate : FlashUploadManifest → Result UploadError (Unit {0})
validate m = do
  ensure (m.version == 2) unsupported_version
  ensure (not (is_empty m.chip)) chip_required
  ensure (leb (length m.warnings) 64) too_many_warnings
  check_warnings m.warnings
  ensure (leb 115200 m.flash_baud && ltb 0 m.monitor_baud) invalid_baud
  ensure (not (is_empty m.segments) && leb (length m.segments) 64) segment_count
  ranges ← check_segments 0 0 m.segments
  ensure (adjacent ranges_apart (sort_by_key (λ (r : ℕ × ℕ). r.0) ranges)) shared_sector

-- The loop of `into_plan` over the metadata and the parts that were received.
unfoldable pub receive_parts :
    Hash → List UploadSegmentMetadata → List Bytes → Result UploadError (List PreparedSegment)
receive_parts h [] parts = ok []
receive_parts h (s ∷ ss) [] = ok []
receive_parts h (s ∷ ss) (part ∷ parts) = do
  ensure (length part == s.size) size_mismatch
  ensure (eq_bytes (sha256 h part) s.digest_text) digest_mismatch
  rest ← receive_parts h ss parts
  ok (record { offset = s.offset; image = pad part; original_size = length part } ∷ rest)

unfoldable pub into_plan : Hash → FlashUploadManifest → List Bytes → Result UploadError PreparedPlan
into_plan h m parts = do
  validate m
  ensure (length parts == length m.segments) missing_part
  received ← receive_parts h m.segments parts
  ok (record {
    chip = m.chip;
    flash_settings = m.flash_settings;
    segments = sort_by_key (λ (s : PreparedSegment). s.offset) received;
  })
