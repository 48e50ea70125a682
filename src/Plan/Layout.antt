-- ===== src/Plan/Layout.antt =====
-- The plan that `FlashPlan::prepare` of src/plan.rs returns, and `validate_capacity`.
use idf_remote.Base.{
  ℕ, ◌+◌, ◌≤◌, ◌≡◌, ◌↔◌, refl, arith, Bool, true, List, [], ◌∷◌, leb, Option, some, map, Bytes,
  length, is_empty, All, ok, leb_iff, >>-eq-ok, Result-cases, inl, inr, ap, length-map,
  is_empty_iff,
}
use idf_remote.Base.Words.{next_multiple_of_bounds}
use idf_remote.Base.Sorting.{
  sort_by_key, adjacent, adjacent→Pairwise, Pairwise, IsSorted, All-sort_by_key, perm-sort_by_key,
  length-sort_by_key, sort_by_key-IsSorted, sum_by-sort_by_key,
}
use idf_remote.Plan.Types.{
  FlashPlan, PreparedSegment, PreparedPlan, max_artifact_bytes, sector_size,
}
use idf_remote.Plan.Prepare.{
  prepare_segments, erase_end, erase_start, sectors_apart, prepare, check_capacity,
  validate_capacity,
}
use idf_remote.Plan.Segments.{IsPrepared, snapshot, total_size, prepare_segments-Snapshots}
use mathlib.Core.List.{Perm}

-- The flash sectors that writing `a` erases end before those of `b` begin.
abbrev pub SectorsBefore : PreparedSegment → PreparedSegment → Type 0
SectorsBefore a b = erase_end a.offset (length a.image) ≤ erase_start b.offset

pub SectorsBefore-trans :
    (a b c : PreparedSegment)
    → IsPrepared b
    → SectorsBefore a b
    → SectorsBefore b c
    → SectorsBefore a c
SectorsBefore-trans a b c p h k =
    omega (arith, (next_multiple_of_bounds (b.offset + length b.image) sector_size (omega arith)).0)

-- A plan that is ready to be written.
pub record IsLayout (q : PreparedPlan) : Type 0 where
  pub chip_given : is_empty q.chip ≡ Bool.false
  pub some_segments : 1 ≤ length q.segments
  pub few_segments : length q.segments ≤ 64
  pub all_prepared : All IsPrepared q.segments
  pub in_order : IsSorted (λ (s : PreparedSegment). s.offset) q.segments
  pub disjoint : Pairwise SectorsBefore q.segments

-- Where the segments come from: the files of the plan, each whole, in some order.
pub record IsSnapshotOf (file_at : Bytes → Option Bytes) (p : FlashPlan) (q : PreparedPlan)
    : Type 0 where
  pub unsorted : List PreparedSegment
  pub are_snapshots : map (snapshot file_at) p.segments ≡ map some unsorted
  pub rearranged : Perm q.segments unsorted
  pub within_total : total_size q.segments ≤ max_artifact_bytes
  pub version_one : p.version ≡ 1

prepare_tests :
    (file_at : Bytes → Option Bytes) (p : FlashPlan) (q : PreparedPlan)
    → prepare file_at p ≡ ok q
    → (unsorted : List PreparedSegment) × (prepare_segments file_at 0 p.segments ≡ ok unsorted)
      × ((p.version ≡ 1)
          × (is_empty p.chip ≡ Bool.false)
          × (is_empty p.segments ≡ Bool.false)
          × (length p.segments ≤ 64)
          × (adjacent sectors_apart (sort_by_key (λ (s : PreparedSegment). s.offset) unsorted)
              ≡ true)
          × (q ≡ record {
            chip = p.chip;
            flash_settings = p.flash_settings;
            segments = sort_by_key (λ (s : PreparedSegment). s.offset) unsorted;
          }))
unfolding prepare
prepare_tests file_at p q e = elim (Result-cases (prepare_segments file_at 0 p.segments)) [
  | inl (unsorted, f) ↦ (unsorted, f, ground arith)
  | inr (x, f) ↦ absurd (ground arith)
]

-- A plan that `prepare` accepts is ready to be written: it has 1 to 64 segments in the order of their
-- offsets, each is aligned, not empty, padded to four bytes and within 32-bit addresses, and no two
-- segments, neighbours or not, touch the same erase sector.
pub prepare-IsLayout :
    (file_at : Bytes → Option Bytes) (p : FlashPlan) (q : PreparedPlan)
    → prepare file_at p ≡ ok q
    → IsLayout q
prepare-IsLayout file_at p q e =
    let (unsorted, f, facts) = prepare_tests file_at p q e in
    let (v, chip, some_of, few, apart, is) = facts in
    let key = λ (s : PreparedSegment). s.offset in
    let made = prepare_segments-Snapshots file_at p.segments 0 unsorted (omega arith) f in
    let prepared = All-sort_by_key key IsPrepared unsorted made.all_prepared in
    let count : length (sort_by_key key unsorted) ≡ length p.segments = omega (
      arith,
      length-sort_by_key key unsorted,
      ap length made.are_snapshots,
      length-map (snapshot file_at) p.segments,
      length-map {B = Option PreparedSegment} some unsorted,
    ) in
    rw is (record {
      chip_given = chip;
      some_segments = omega (arith, (is_empty_iff p.segments).0 some_of);
      few_segments = omega arith;
      all_prepared = prepared;
      in_order = sort_by_key-IsSorted key unsorted;
      disjoint =
          adjacent→Pairwise {P = IsPrepared} {R = SectorsBefore} sectors_apart
            (λ a b. (leb_iff _ _).0) SectorsBefore-trans _ prepared apart;
    })

-- A plan that `prepare` accepts holds exactly the files that the plan names, whole and padded, each at its own offset, and at
-- most 128 MiB of them.
pub prepare-IsSnapshotOf :
    (file_at : Bytes → Option Bytes) (p : FlashPlan) (q : PreparedPlan)
    → prepare file_at p ≡ ok q
    → IsSnapshotOf file_at p q
prepare-IsSnapshotOf file_at p q e =
    let (unsorted, f, facts) = prepare_tests file_at p q e in
    let (v, chip, some_of, few, apart, is) = facts in
    let made = prepare_segments-Snapshots file_at p.segments 0 unsorted (omega arith) f in
    record {
      unsorted = unsorted;
      are_snapshots = made.are_snapshots;
      rearranged = rw is (perm-sort_by_key (λ (s : PreparedSegment). s.offset) unsorted);
      within_total = omega (
        arith,
        made.within_total,
        ap (λ (r : PreparedPlan). total_size r.segments) is,
        sum_by-sort_by_key (λ (s : PreparedSegment). s.offset)
            (λ (s : PreparedSegment). s.original_size) unsorted,
      );
      version_one = v;
    }

abbrev IsWithin : ℕ → PreparedSegment → Type 0
IsWithin size s = s.offset + length s.image ≤ size

check_capacity_iff :
    (size : ℕ) (ss : List PreparedSegment)
    → (check_capacity size ss ≡ ok tt) ↔ All (IsWithin size) ss
unfolding check_capacity
check_capacity_iff size [] = (λ e. tt, λ h. refl)
check_capacity_iff size (s ∷ ss) =
    let rest = check_capacity_iff size ss in
    (
      λ e.
          let (fits, later) = >>-eq-ok (leb (s.offset + length s.image) size) _ _ e in
          ((leb_iff _ size).0 fits, rest.0 later),
      λ (fits, later). rw ((leb_iff _ size).1 fits) (rest.1 later),
    )

-- `validate_capacity` accepts a plan exactly when every segment, padding included, ends within the
-- flash.
validate_capacity_iff :
    (q : PreparedPlan) (size : ℕ)
    → (validate_capacity q size ≡ ok tt) ↔ All (IsWithin size) q.segments
unfolding validate_capacity
validate_capacity_iff q size = check_capacity_iff size q.segments
