-- ===== src/Wire/Upload.antt =====
-- A prepared plan survives the upload: `from_plan` on the client, `validate` and `into_plan` on the
-- host, of src/wire.rs.
use idf_remote.Base.{
  ℕ, suc, ◌+◌, ◌≤◌, ◌<◌, ◌≡◌, refl, ap, arith, Bool, true, List, [], ◌∷◌, map, Bytes, eq_bytes_refl,
  length, take, take-append-drop, length-take, All, leb_iff, ok, is_empty_iff, length-map,
}
use idf_remote.Base.Words.{next_multiple_of, next_multiple_of_bounds, next_multiple_of_four}
use idf_remote.Base.Sorting.{
  sort_by_key, sort_by_key_of_IsSorted, adjacent, Pairwise-map, Pairwise→adjacent,
}
use idf_remote.Device.{DeviceId}
use idf_remote.Plan.Types.{PreparedSegment, PreparedPlan}
use idf_remote.Plan.Prepare.{pad, erase_end, erase_start}
use idf_remote.Plan.Segments.{IsPrepared}
use idf_remote.Plan.Layout.{IsLayout}
use idf_remote.Wire.Digest.{Hash, sha256, segment_name, length-sha256, all-sha256}
use idf_remote.Wire.Manifest.{
  UploadSegmentMetadata, FlashUploadManifest, max_upload_bytes, image_total, describe_segments,
  from_plan, check_segment, check_segments, check_warnings, ranges_apart, validate, receive_parts,
  into_plan,
}

-- The bytes that the client sends for a segment: its image without the padding.
abbrev pub part_of : PreparedSegment → Bytes
part_of s = take s.original_size s.image

pub length-part_of : (s : PreparedSegment) → IsPrepared s → length (part_of s) ≡ s.original_size
length-part_of s p = omega (arith, length-take s.original_size s.image, p.original_fits)

padded_size :
    (s : PreparedSegment) → IsPrepared s → next_multiple_of s.original_size 4 ≡ length s.image
padded_size s p = omega (
  arith,
  next_multiple_of_bounds s.original_size 4 (omega arith),
  next_multiple_of_four s.original_size,
  p.original_fits,
  p.padded_little,
  p.image_aligned,
)

-- The host pads a part to the image that the client had.
pad-part_of : (s : PreparedSegment) → IsPrepared s → pad (part_of s) ≡ s.image
unfolding pad
pad-part_of s p =
    rw (length-part_of s p, padded_size s p, ← p.padding) (take-append-drop s.original_size s.image)

abbrev range_of : PreparedSegment → ℕ × ℕ
range_of s = (s.offset, length s.image)

abbrev described : Hash → ℕ → PreparedSegment → UploadSegmentMetadata
described h index s = record {
  part = segment_name index;
  offset = s.offset;
  size = s.original_size;
  digest_text = sha256 h (part_of s);
}

check_segment-described :
    (h : Hash) (index total : ℕ) (s : PreparedSegment)
    → IsPrepared s
    → total + length s.image ≤ max_upload_bytes
    → check_segment index total (described h index s) ≡ ok (total + s.original_size, range_of s)
unfolding check_segment
check_segment-described h index total s p fits = ground (
  arith,
  p.aligned,
  p.not_empty,
  p.original_fits,
  p.addressable,
  padded_size s p,
  length-sha256 h (part_of s),
  all-sha256 h (part_of s),
  eq_bytes_refl (segment_name index),
)

check_segments-described :
    (h : Hash) (index total : ℕ) (ss : List PreparedSegment)
    → All IsPrepared ss
    → total + image_total ss ≤ max_upload_bytes
    → check_segments index total (describe_segments h index ss) ≡ ok (map range_of ss)
unfolding check_segments describe_segments
check_segments-described h index total [] p fits = refl
check_segments-described h index total (s ∷ ss) (p, ps) fits =
    rw (check_segment-described h index total s p (omega arith)) (
      rw (
        check_segments-described h (suc index) (total + s.original_size) ss ps
          (omega (arith, p.original_fits))))

receive_part :
    (s : PreparedSegment)
    → IsPrepared s
    → s ≡ record { offset = s.offset; image = pad (part_of s); original_size = length (part_of s) }
receive_part s p = rw (pad-part_of s p, length-part_of s p)

receive_parts-described :
    (h : Hash) (index : ℕ) (ss : List PreparedSegment)
    → All IsPrepared ss
    → receive_parts h (describe_segments h index ss) (map part_of ss) ≡ ok ss
unfolding receive_parts describe_segments
receive_parts-described h index [] p = refl
receive_parts-described h index (s ∷ ss) (p, ps) =
    rw (receive_parts-described h (suc index) ss ps)
      (ground (arith, length-part_of s p, receive_part s p, eq_bytes_refl (sha256 h (part_of s))))

length-describe_segments :
    (h : Hash) (index : ℕ) (ss : List PreparedSegment)
    → length (describe_segments h index ss) ≡ length ss
unfolding describe_segments
length-describe_segments h index [] = refl
length-describe_segments h index (s ∷ ss) = ap suc (length-describe_segments h (suc index) ss)

ranges_apart-layout :
    (plan : PreparedPlan)
    → IsLayout plan
    → adjacent ranges_apart (sort_by_key (λ (r : ℕ × ℕ). r.0) (map range_of plan.segments)) ≡ true
ranges_apart-layout plan l =
    let key = λ (r : ℕ × ℕ). r.0 in
    let R = λ (a b : ℕ × ℕ). key a ≤ key b in
    let S = λ (a b : ℕ × ℕ). erase_end a.0 a.1 ≤ erase_start b.0 in
    rw (sort_by_key_of_IsSorted key _ (Pairwise-map range_of R plan.segments l.in_order)) (
      Pairwise→adjacent {R = S} ranges_apart (λ a b. (leb_iff _ _).1) _
        (Pairwise-map range_of S plan.segments l.disjoint))

module _ (h : Hash) (id : DeviceId) (plan : PreparedPlan) (flash_baud monitor_baud : ℕ)
    (no_reset : Bool) (l : IsLayout plan) (fits : image_total plan.segments ≤ max_upload_bytes)
    (flash_baud_ok : 115200 ≤ flash_baud) (monitor_baud_ok : 0 < monitor_baud) where
  abbrev manifest : FlashUploadManifest
  manifest = record {
    device_id = id;
    version = 2;
    chip = plan.chip;
    flash_settings = plan.flash_settings;
    segments = describe_segments h 0 plan.segments;
    flash_baud = flash_baud;
    monitor_baud = monitor_baud;
    no_reset_before = no_reset;
    warnings = [];
  }

  from_plan-manifest : from_plan h id plan flash_baud monitor_baud no_reset ≡ ok manifest
  unfolding from_plan
  from_plan-manifest = ground arith

  validate-manifest : validate manifest ≡ ok tt
  unfolding validate check_warnings
  validate-manifest = ground (
    arith,
    l.chip_given,
    l.some_segments,
    l.few_segments,
    (is_empty_iff (describe_segments h 0 plan.segments)).1,
    length-describe_segments h 0 plan.segments,
    check_segments-described h 0 0 plan.segments l.all_prepared (omega arith),
    ranges_apart-layout plan l,
  )

  -- For a plan that is ready to be written and at most 32 MiB long, with a flash baud of at least 115200
  -- and a monitor baud that is not zero, the client's manifest passes the host's validation, and from it
  -- and the unpadded images the host rebuilds the very same plan.
  pub into_plan-from_plan :
      (m : FlashUploadManifest) × (from_plan h id plan flash_baud monitor_baud no_reset ≡ ok m)
      × (validate m ≡ ok tt)
      × (into_plan h m (map part_of plan.segments) ≡ ok plan)
  unfolding into_plan
  into_plan-from_plan = (
    manifest,
    from_plan-manifest,
    validate-manifest,
    ground (
      arith,
      validate-manifest,
      length-describe_segments h 0 plan.segments,
      length-map part_of plan.segments,
      receive_parts-described h 0 plan.segments l.all_prepared,
      sort_by_key_of_IsSorted (λ (s : PreparedSegment). s.offset) plan.segments l.in_order,
    ),
  )
