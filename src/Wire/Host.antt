-- ===== src/Wire/Host.antt =====
-- Whatever a client sends, a plan that `into_plan` of src/wire.rs accepts is safe to write.
use idf_remote.Base.{
  ℕ, suc, ◌+◌, ◌%◌, ◌^◌, ◌≤◌, ◌<◌, ◌≡◌, refl, sym, ap, ◌∙◌, arith, true, false, List, [], ◌∷◌, map,
  Bytes, eq_bytes→eq, length, is_empty, All, leb_iff, ok, >>=-eq-ok, is_empty_iff, Result-cases,
  inl, inr,
}
use idf_remote.Base.Words.{next_multiple_of}
use idf_remote.Base.Sorting.{
  sort_by_key, sort_by_key-IsSorted, sort_by_key-map, adjacent, adjacent-map, adjacent→Pairwise,
  All-sort_by_key, length-sort_by_key, sum_by-sort_by_key,
}
use idf_remote.Plan.Types.{PreparedSegment, PreparedPlan}
use idf_remote.Plan.Prepare.{pad, sectors_apart}
use idf_remote.Plan.Segments.{IsPrepared, total_size, length-pad, padded-IsPrepared}
use idf_remote.Plan.Layout.{IsLayout, SectorsBefore, SectorsBefore-trans}
use idf_remote.Wire.Digest.{Hash, sha256}
use idf_remote.Wire.Manifest.{
  UploadSegmentMetadata, FlashUploadManifest, max_upload_bytes, check_segment, check_segments,
  ranges_apart, validate, receive_parts, into_plan,
}

abbrev range_of : PreparedSegment → ℕ × ℕ
range_of s = (s.offset, length s.image)

-- A part that carries the digest that the manifest states for it.
abbrev pub HasDigest : Hash → UploadSegmentMetadata → Bytes → Type 0
HasDigest h s part = sha256 h part ≡ s.digest_text

abbrev pub AllDigests : Hash → List UploadSegmentMetadata → List Bytes → Type 0
AllDigests h [] parts = Unit
AllDigests h (s ∷ ss) [] = Unit
AllDigests h (s ∷ ss) (part ∷ parts) = HasDigest h s part × AllDigests h ss parts

check_segment_tests :
    (index total : ℕ) (s : UploadSegmentMetadata) (total' : ℕ) (range : ℕ × ℕ)
    → check_segment index total s ≡ ok (total', range)
    → (s.offset % 4 ≡ 0)
      × (0 < s.size)
      × (total' ≡ total + s.size)
      × (total' ≤ max_upload_bytes)
      × (s.offset + next_multiple_of s.size 4 ≤ 2 ^ 32)
      × (range ≡ (s.offset, next_multiple_of s.size 4))
unfolding check_segment
check_segment_tests index total s total' range e = ground arith

-- What the two loops of the host agree on.
record Received (h : Hash) (total : ℕ) (ss : List UploadSegmentMetadata) (parts : List Bytes)
    (ranges : List (ℕ × ℕ)) (ps : List PreparedSegment) : Type 0 where
  ranges_are : ranges ≡ map range_of ps
  prepared : All IsPrepared ps
  within : total + total_size ps ≤ max_upload_bytes
  digests : AllDigests h ss parts
  count : length ps ≡ length ss

received_segment :
    (s : UploadSegmentMetadata) (part : Bytes)
    → s.offset % 4 ≡ 0
    → 0 < s.size
    → s.offset + next_multiple_of s.size 4 ≤ 2 ^ 32
    → length part ≡ s.size
    → IsPrepared (record { offset = s.offset; image = pad part; original_size = length part })
received_segment s part a n f e =
    padded-IsPrepared s.offset part a (omega arith) (rw (length-pad, e) f)

receive_parts_step :
    (h : Hash) (s : UploadSegmentMetadata) (ss : List UploadSegmentMetadata) (part : Bytes)
    (parts : List Bytes) (ps : List PreparedSegment)
    → receive_parts h (s ∷ ss) (part ∷ parts) ≡ ok ps
    → (rest : List PreparedSegment) × (receive_parts h ss parts ≡ ok rest)
      × ((length part ≡ s.size)
          × HasDigest h s part
          × (ps
              ≡ record { offset = s.offset; image = pad part; original_size = length part } ∷ rest))
unfolding receive_parts
receive_parts_step h s ss part parts ps e = elim (Result-cases (receive_parts h ss parts)) [
  | inl (rest, f) ↦ (rest, f, ground (arith, eq_bytes→eq (sha256 h part) s.digest_text))
  | inr (x, f) ↦ absurd (ground arith)
]

check_segments_step :
    (index total : ℕ) (s : UploadSegmentMetadata) (ss : List UploadSegmentMetadata)
    (ranges : List (ℕ × ℕ))
    → check_segments index total (s ∷ ss) ≡ ok ranges
    → (total' : ℕ) × (range : ℕ × ℕ) × (rest : List (ℕ × ℕ)) × (check_segment index total s
        ≡ ok (total', range))
      × (check_segments (suc index) total' ss ≡ ok rest)
      × (ranges ≡ range ∷ rest)
unfolding check_segments
check_segments_step index total s ss ranges e =
    let ((total', range), one, e') = >>=-eq-ok (check_segment index total s) _ e in
    let (rest, two, is) = >>=-eq-ok (check_segments (suc index) total' ss) _ e' in
    (total', range, rest, one, two, cc)

check_segments_nil :
    (index total : ℕ) (ranges : List (ℕ × ℕ))
    → check_segments index total [] ≡ ok ranges
    → ranges ≡ []
unfolding check_segments
check_segments_nil index total ranges e = cc

receive_parts_nil :
    (h : Hash) (parts : List Bytes) (ps : List PreparedSegment)
    → receive_parts h [] parts ≡ ok ps
    → ps ≡ []
unfolding receive_parts
receive_parts_nil h parts ps e = cc

received :
    (h : Hash) (index total : ℕ) (ss : List UploadSegmentMetadata) (parts : List Bytes)
    (ranges : List (ℕ × ℕ)) (ps : List PreparedSegment)
    → total ≤ max_upload_bytes
    → length parts ≡ length ss
    → check_segments index total ss ≡ ok ranges
    → receive_parts h ss parts ≡ ok ps
    → Received h total ss parts ranges ps
received h index total [] parts ranges ps fits n c r =
    rw (check_segments_nil index total ranges c, receive_parts_nil h parts ps r)
      (record {
        ranges_are = refl;
        prepared = tt;
        within = omega arith;
        digests = tt;
        count = refl;
      })
received h index total (s ∷ ss) [] ranges ps fits n c r = absurd (omega arith)
received h index total (s ∷ ss) (part ∷ parts) ranges ps fits n c r =
    let (total', range, rest, one, two, is) = check_segments_step index total s ss ranges c in
    let (a, pos_size, total_is, small, addressable, range_is) =
      check_segment_tests index total s total' range one in
    let (rest_ps, three, facts) = receive_parts_step h s ss part parts ps r in
    let (size_is, digest, ps_is) = facts in
    let tail = received h (suc index) total' ss parts rest rest_ps small (omega arith) two three in
    rw (is, ps_is)
      (record {
        ranges_are = rw (range_is, tail.ranges_are, length-pad, size_is);
        prepared = (received_segment s part a pos_size addressable size_is, tail.prepared);
        within = omega (arith, tail.within);
        digests = (digest, tail.digests);
        count = ap suc tail.count;
      })

validate_tests :
    (m : FlashUploadManifest)
    → validate m ≡ ok tt
    → (ranges : List (ℕ × ℕ)) × (check_segments 0 0 m.segments ≡ ok ranges)
      × ((is_empty m.chip ≡ false)
          × (1 ≤ length m.segments)
          × (length m.segments ≤ 64)
          × (adjacent ranges_apart (sort_by_key (λ (r : ℕ × ℕ). r.0) ranges) ≡ true))
unfolding validate
validate_tests m e = elim (Result-cases (check_segments 0 0 m.segments)) [
  | inl (ranges, f) ↦ (ranges, f, ground (arith, (is_empty_iff m.segments).0))
  | inr (x, f) ↦ absurd (ground arith)
]

into_plan_tests :
    (h : Hash) (m : FlashUploadManifest) (parts : List Bytes) (plan : PreparedPlan)
    → into_plan h m parts ≡ ok plan
    → (ps : List PreparedSegment) × (receive_parts h m.segments parts ≡ ok ps)
      × ((validate m ≡ ok tt)
          × (length parts ≡ length m.segments)
          × (plan ≡ record {
            chip = m.chip;
            flash_settings = m.flash_settings;
            segments = sort_by_key (λ (s : PreparedSegment). s.offset) ps;
          }))
unfolding into_plan
into_plan_tests h m parts plan e = elim (Result-cases (receive_parts h m.segments parts)) [
  | inl (ps, f) ↦ (ps, f, ground arith)
  | inr (x, f) ↦ absurd (ground arith)
]

apart_of_ranges :
    (ps : List PreparedSegment)
    → adjacent ranges_apart (sort_by_key (λ (r : ℕ × ℕ). r.0) (map range_of ps)) ≡ true
    → adjacent sectors_apart (sort_by_key (λ (s : PreparedSegment). s.offset) ps) ≡ true
apart_of_ranges ps h =
    sym (adjacent-map range_of ranges_apart _)
    ∙ (rw (sort_by_key-map range_of (λ (r : ℕ × ℕ). r.0) ps) at h)

-- Whatever manifest and parts arrive, a plan that the host accepts is ready to be written: aligned,
-- padded, addressable segments in order, of which no two touch the same erase sector. The parts have
-- the digests that the manifest states, and are at most 32 MiB together.
pub into_plan-IsLayout :
    (h : Hash) (m : FlashUploadManifest) (parts : List Bytes) (plan : PreparedPlan)
    → into_plan h m parts ≡ ok plan
    → IsLayout plan
      × AllDigests h m.segments parts
      × (length parts ≡ length m.segments)
      × (total_size plan.segments ≤ max_upload_bytes)
into_plan-IsLayout h m parts plan e =
    let (ps, f, facts) = into_plan_tests h m parts plan e in
    let (valid, n, is) = facts in
    let (ranges, c, tests) = validate_tests m valid in
    let (chip, some_of, few, apart) = tests in
    let got = received h 0 0 m.segments parts ranges ps (omega arith) n c f in
    let key = λ (s : PreparedSegment). s.offset in
    let prepared = All-sort_by_key key IsPrepared ps got.prepared in
    (
      rw is (record {
        chip_given = chip;
        some_segments = omega (arith, length-sort_by_key key ps, got.count);
        few_segments = omega (arith, length-sort_by_key key ps, got.count);
        all_prepared = prepared;
        in_order = sort_by_key-IsSorted key ps;
        disjoint =
            adjacent→Pairwise {P = IsPrepared} {R = SectorsBefore} sectors_apart
              (λ a b. (leb_iff _ _).0) SectorsBefore-trans _ prepared
              (apart_of_ranges ps (rw got.ranges_are at apart));
      }),
      got.digests,
      n,
      rw is (
          omega (
            arith,
            got.within,
            sum_by-sort_by_key key (λ (s : PreparedSegment). s.original_size) ps,
          )),
    )
