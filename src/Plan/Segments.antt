-- ===== src/Plan/Segments.antt =====
-- What the first loop of `FlashPlan::prepare` of src/plan.rs builds, segment by segment.
use idf_remote.Base.{
  ℕ, ◌+◌, ◌-◌, ◌%◌, ◌^◌, ◌≤◌, ◌<◌, ◌≡◌, refl, arith, List, [], ◌∷◌, Option, none, some,
  Option-cases, inl, inr, map, Bytes, length, length-append, length-replicate, take, drop,
  take-eq_self, drop-append, length-take, replicate, All, sum_by, ok, >>=-eq-ok, take-append,
}
use idf_remote.Base.Words.{next_multiple_of, next_multiple_of_bounds, next_multiple_of_four}
use idf_remote.Plan.Types.{FileSegment, PreparedSegment, max_artifact_bytes}
use idf_remote.Plan.Prepare.{pad, prepare_segment, prepare_segments}

-- A segment as the flasher wants it: aligned, not empty, padded by fewer than four bytes 0xff, and
-- inside the 32-bit address space.
pub record IsPrepared (s : PreparedSegment) : Type 0 where
  pub aligned : s.offset % 4 ≡ 0
  pub not_empty : 0 < s.original_size
  pub original_fits : s.original_size ≤ length s.image
  pub padded_little : length s.image < s.original_size + 4
  pub image_aligned : length s.image % 4 ≡ 0
  pub padding : drop s.original_size s.image ≡ replicate (length s.image - s.original_size) 0xff
  pub addressable : s.offset + length s.image ≤ 2 ^ 32

-- What a segment of the plan becomes, when its file can be read: the whole file, padded.
unfoldable pub snapshot : (Bytes → Option Bytes) → FileSegment → Option PreparedSegment
snapshot file_at s = elim (file_at s.file) [
  | none ↦ none
  | some content ↦
      some (record { offset = s.offset; image = pad content; original_size = length content })
]

pub length-pad : (bytes : Bytes) → length (pad bytes) ≡ next_multiple_of (length bytes) 4
unfolding pad
length-pad bytes =
    let n = next_multiple_of (length bytes) 4 in
    omega (
      arith,
      length-append bytes (replicate (n - length bytes) 0xff),
      length-replicate {A = ℕ} (n - length bytes) 0xff,
      next_multiple_of_bounds (length bytes) 4,
    )

pub drop-pad :
    (bytes : Bytes)
    → drop (length bytes) (pad bytes) ≡ replicate (length (pad bytes) - length bytes) 0xff
drop-pad bytes = rw length-pad (unfold pad in drop-append bytes _)

pub take-pad : (bytes : Bytes) → take (length bytes) (pad bytes) ≡ bytes
unfolding pad
take-pad bytes = take-append bytes _

-- One round that succeeds.
record Round (file_at : Bytes → Option Bytes) (total : ℕ) (s : FileSegment) (total' : ℕ)
    (p : PreparedSegment) : Type 0 where
  prepared : IsPrepared p
  snapshot_is : snapshot file_at s ≡ some p
  total_is : total' ≡ total + p.original_size
  total_fits : total' ≤ max_artifact_bytes

-- The limit on the read never cuts a file that is accepted.
read_whole :
    (total : ℕ) (content : Bytes)
    → total ≤ max_artifact_bytes
    → total + length (take (max_artifact_bytes - total + 1) content) ≤ max_artifact_bytes
    → take (max_artifact_bytes - total + 1) content ≡ content
read_whole total content h k =
    take-eq_self _ content (omega (arith, length-take (max_artifact_bytes - total + 1) content))

-- The tests of a round, in the terms of the code.
prepare_segment_tests :
    (file_at : Bytes → Option Bytes) (total : ℕ) (s : FileSegment) (total' : ℕ)
    (p : PreparedSegment)
    → prepare_segment file_at total s ≡ ok (total', p)
    → (content : Bytes) × (file_at s.file ≡ some content)
      × let bytes = take (max_artifact_bytes - total + 1) content in
        (s.offset % 4 ≡ 0)
        × (total' ≡ total + length bytes)
        × (total' ≤ max_artifact_bytes)
        × (0 < length bytes)
        × (s.offset + length (pad bytes) ≤ 2 ^ 32)
        × (p ≡ record { offset = s.offset; image = pad bytes; original_size = length bytes })
unfolding prepare_segment
prepare_segment_tests file_at total s total' p e = elim (Option-cases (file_at s.file)) [
  | inl f ↦ absurd (ground arith)
  | inr (content, f) ↦ (content, f, ground arith)
]

pub padded-IsPrepared :
    (offset : ℕ) (bytes : Bytes)
    → offset % 4 ≡ 0
    → 0 < length bytes
    → offset + length (pad bytes) ≤ 2 ^ 32
    → IsPrepared (record { offset = offset; image = pad bytes; original_size = length bytes })
padded-IsPrepared offset bytes a n f =
    let (low, high) = next_multiple_of_bounds (length bytes) 4 (omega arith) in
    record {
      aligned = a;
      not_empty = n;
      original_fits = rw length-pad low;
      padded_little = rw length-pad high;
      image_aligned = rw length-pad (next_multiple_of_four (length bytes));
      padding = drop-pad bytes;
      addressable = f;
    }

snapshot-some :
    (file_at : Bytes → Option Bytes) (s : FileSegment) (content : Bytes)
    → file_at s.file ≡ some content
    → snapshot file_at s
      ≡ some (record { offset = s.offset; image = pad content; original_size = length content })
unfolding snapshot
snapshot-some file_at s content f = rw (f, snapshot)

prepare_segment-Round :
    (file_at : Bytes → Option Bytes) (total : ℕ) (s : FileSegment) (total' : ℕ)
    (p : PreparedSegment)
    → total ≤ max_artifact_bytes
    → prepare_segment file_at total s ≡ ok (total', p)
    → Round file_at total s total' p
prepare_segment-Round file_at total s total' p h e =
    let (content, f, facts) = prepare_segment_tests file_at total s total' p e in
    let (a, t, m, n, fits, is) = facts in
    let whole = read_whole total content h (omega arith) in
    rw (is, whole)
      (record {
        prepared = padded-IsPrepared s.offset content a (rw whole at n) (rw whole at fits);
        snapshot_is = snapshot-some file_at s content f;
        total_is = rw whole at t;
        total_fits = m;
      })

abbrev pub total_size : List PreparedSegment → ℕ
total_size = sum_by (λ (s : PreparedSegment). s.original_size)

-- What the loop returns: the segments of the plan in their order, each a snapshot of its file, all
-- well formed, and within the limit on the total.
pub record Snapshots (file_at : Bytes → Option Bytes) (total : ℕ) (ss : List FileSegment)
    (ps : List PreparedSegment) : Type 0 where
  pub all_prepared : All IsPrepared ps
  pub are_snapshots : map (snapshot file_at) ss ≡ map some ps
  pub within_total : total + total_size ps ≤ max_artifact_bytes

pub prepare_segments-Snapshots :
    (file_at : Bytes → Option Bytes) (ss : List FileSegment) (total : ℕ) (ps : List PreparedSegment)
    → total ≤ max_artifact_bytes
    → prepare_segments file_at total ss ≡ ok ps
    → Snapshots file_at total ss ps
unfolding prepare_segments
prepare_segments-Snapshots file_at [] total [] h e = record {
  all_prepared = tt;
  are_snapshots = refl;
  within_total = omega arith;
}
prepare_segments-Snapshots file_at [] total (p ∷ ps) h e = absurd (ground arith)
prepare_segments-Snapshots file_at (s ∷ ss) total ps h e =
    let ((total', p), one, e') = >>=-eq-ok (prepare_segment file_at total s) _ e in
    let (rest, two, is) = >>=-eq-ok (prepare_segments file_at total' ss) _ e' in
    let head = prepare_segment-Round file_at total s total' p h one in
    let tail = prepare_segments-Snapshots file_at ss total' rest head.total_fits two in
    let split : ps ≡ p ∷ rest = cc in
    rw split (record {
      all_prepared = (head.prepared, tail.all_prepared);
      are_snapshots = rw (head.snapshot_is, tail.are_snapshots);
      within_total = omega (arith, head.total_is, tail.within_total);
    })
