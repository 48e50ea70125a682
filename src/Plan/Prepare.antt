-- ===== src/Plan/Prepare.antt =====
-- `FlashPlan::prepare` and `PreparedPlan::validate_capacity` of src/plan.rs. The file system is a
-- parameter: what `base.join(file)` holds when it is opened, if it can be opened and read.
use idf_remote.Base.{
  ℕ, ◌+◌, ◌-◌, ◌*◌, ◌/◌, ◌%◌, ◌^◌, Bool, not, ◌&&◌, List, [], ◌∷◌, ◌++◌, Option, Bytes, length,
  is_empty, take, replicate, leb, ◌==◌, Result, ok, ensure, context, ◌>>=◌, ◌>>◌,
}
use idf_remote.Base.Words.{next_multiple_of}
use idf_remote.Base.Sorting.{sort_by_key, adjacent}
use idf_remote.Plan.Types.{
  FileSegment, FlashPlan, PreparedSegment, PreparedPlan, max_artifact_bytes, sector_size,
}

pub data PlanError : Type 0 where
  unsupported_version chip_required segment_count unaligned_offset : PlanError
  unreadable_artifact artifacts_too_large empty_artifact beyond_address_space : PlanError
  shared_sector beyond_capacity : PlanError

-- `data.resize(data.len().next_multiple_of(4), 0xff)`
unfoldable pub pad : Bytes → Bytes
unfolding next_multiple_of
pad bytes = bytes ++ replicate (next_multiple_of (length bytes) 4 - length bytes) 0xff

-- One round of the first loop of `prepare`: the new total and the segment that is pushed.
unfoldable pub prepare_segment :
    (Bytes → Option Bytes) → ℕ → FileSegment → Result PlanError (ℕ × PreparedSegment)
prepare_segment file_at total s = do
  ensure (s.offset % 4 == 0) unaligned_offset
  content ← context (file_at s.file) unreadable_artifact
  let bytes = take (max_artifact_bytes - total + 1) content
  let total' = total + length bytes
  ensure (leb total' max_artifact_bytes) artifacts_too_large
  ensure (not (is_empty bytes)) empty_artifact
  ensure (leb (s.offset + length (pad bytes)) (2 ^ 32)) beyond_address_space
  ok (total', record { offset = s.offset; image = pad bytes; original_size = length bytes })

unfoldable pub prepare_segments :
    (Bytes → Option Bytes) → ℕ → List FileSegment → Result PlanError (List PreparedSegment)
prepare_segments file_at total [] = ok []
prepare_segments file_at total (s ∷ ss) = do
  (total', p) ← prepare_segment file_at total s
  rest ← prepare_segments file_at total' ss
  ok (p ∷ rest)

-- `(offset + len).next_multiple_of(SECTOR_SIZE)` and `offset / SECTOR_SIZE * SECTOR_SIZE`
abbrev pub erase_end : ℕ → ℕ → ℕ
erase_end offset len = next_multiple_of (offset + len) sector_size

abbrev pub erase_start : ℕ → ℕ
erase_start offset = offset / sector_size * sector_size

-- The test of the second loop on two neighbours.
abbrev pub sectors_apart : PreparedSegment → PreparedSegment → Bool
sectors_apart a b = leb (erase_end a.offset (length a.image)) (erase_start b.offset)

unfoldable pub prepare : (Bytes → Option Bytes) → FlashPlan → Result PlanError PreparedPlan
prepare file_at p = do
  ensure (p.version == 1) unsupported_version
  ensure (not (is_empty p.chip)) chip_required
  ensure (not (is_empty p.segments) && leb (length p.segments) 64) segment_count
  unsorted ← prepare_segments file_at 0 p.segments
  let sorted = sort_by_key (λ (s : PreparedSegment). s.offset) unsorted
  ensure (adjacent sectors_apart sorted) shared_sector
  ok (record { chip = p.chip; flash_settings = p.flash_settings; segments = sorted })

-- The loop of `validate_capacity`.
unfoldable pub check_capacity : ℕ → List PreparedSegment → Result PlanError (Unit {0})
check_capacity size [] = ok tt
check_capacity size (s ∷ ss) = do
  ensure (leb (s.offset + length s.image) size) beyond_capacity
  check_capacity size ss

unfoldable pub validate_capacity : PreparedPlan → ℕ → Result PlanError (Unit {0})
validate_capacity p size = check_capacity size p.segments
