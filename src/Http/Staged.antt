-- ===== src/Http/Staged.antt =====
-- What the handler of src/server.rs has staged of a flash upload, part by part.
use idf_remote.Base.{
  ℕ, suc, ◌+◌, ◌^◌, ◌≡◌, refl, arith, not, Bool-cases, inl, inr, List, [], ◌∷◌, ◌++◌, Option, some,
  none, Bytes, length, length-append, eq_bytes, eq_bytes→eq, eq_bytes_refl, ltb, leb, ◌==◌, ==_iff,
  ok, context, ◌>>=◌, >>=-eq-ok, >>-eq-ok, context-eq-ok,
}
use idf_remote.Plan.Types.{PreparedSegment, PreparedPlan}
use idf_remote.Base.Sorting.{sort_by_key}
use idf_remote.Plan.Prepare.{pad}
use idf_remote.Wire.Digest.{Hash, sha256}
use idf_remote.Wire.Manifest.{
  UploadSegmentMetadata, FlashUploadManifest, validate, receive_parts, into_plan,
}
use idf_remote.Http.Staging.{
  part_unnamed, unknown_part, duplicate_part, create_failed, part_size_overflow, part_too_large,
  stage_failed, flush_failed, part_size_mismatch, part_digest_mismatch, Chunks, finished, broken,
  chunk, Part, Parts, no_more, unreadable, part, find_segment, one_further, no_paths, is_staged,
  set_staged, stage_chunks, stage_content, stage_part, stage_parts, all_staged,
}

-- A content that has the size and the digest that the manifest states.
abbrev pub IsContent : Hash → UploadSegmentMetadata → Bytes → Type 0
IsContent h s bytes = (length bytes ≡ s.size) × (sha256 h bytes ≡ s.digest_text)

abbrev pub IsContentOrNone : Hash → UploadSegmentMetadata → Option Bytes → Type 0
IsContentOrNone h s none = Unit
IsContentOrNone h s (some bytes) = IsContent h s bytes

-- For each segment of the manifest nothing so far, or its content.
abbrev pub IsStaging : Hash → List UploadSegmentMetadata → List (Option Bytes) → Type 0
IsStaging h [] [] = Unit
IsStaging h [] (p ∷ paths) = ⊥
IsStaging h (s ∷ ss) [] = ⊥
IsStaging h (s ∷ ss) (p ∷ paths) = IsContentOrNone h s p × IsStaging h ss paths

-- For each segment of the manifest its content.
abbrev pub AreContents : Hash → List UploadSegmentMetadata → List Bytes → Type 0
AreContents h [] [] = Unit
AreContents h [] (c ∷ cs) = ⊥
AreContents h (s ∷ ss) [] = ⊥
AreContents h (s ∷ ss) (c ∷ cs) = IsContent h s c × AreContents h ss cs

stage_chunks-length :
    (limit size : ℕ) (bytes : Bytes) (cs : Chunks) (n : ℕ) (out : Bytes)
    → size ≡ length bytes
    → stage_chunks limit size bytes cs ≡ ok (n, out)
    → n ≡ length out
unfolding stage_chunks
stage_chunks-length limit size bytes finished n out h e = ground arith
stage_chunks-length limit size bytes broken n out h e = absurd (cc)
stage_chunks-length limit size bytes (chunk c written cs) n out h e =
    let (_, e1) = >>-eq-ok (ltb (size + length c) (2 ^ 64)) part_size_overflow _ e in
    let (_, e2) = >>-eq-ok (leb (size + length c) limit) part_too_large _ e1 in
    let (_, e3) = >>-eq-ok written stage_failed _ e2 in
    stage_chunks-length limit (size + length c) (bytes ++ c) cs n out
      (omega (arith, length-append bytes c)) e3

stage_content-IsContent :
    (h : Hash) (s : UploadSegmentMetadata) (p : Part) (bytes : Bytes)
    → stage_content h s p ≡ ok bytes
    → IsContent h s bytes
unfolding stage_content
stage_content-IsContent h s p bytes e =
    let (_, e1) = >>-eq-ok p.is_created create_failed _ e in
    let ((n, out), staged, e2) = >>=-eq-ok (stage_chunks s.size 0 [] p.chunks) _ e1 in
    let (_, e3) = >>-eq-ok p.is_flushed flush_failed _ e2 in
    let (sized, e4) = >>-eq-ok (n == s.size) part_size_mismatch _ e3 in
    let (digest, e5) = >>-eq-ok (eq_bytes (sha256 h out) s.digest_text) part_digest_mismatch _ e4 in
    let counted = stage_chunks-length s.size 0 [] p.chunks n out refl staged in
    let is : out ≡ bytes = cc in rw (← is) (ground arith, eq_bytes→eq _ _ digest)

one_further-suc :
    (o : Option (ℕ × UploadSegmentMetadata)) (i : ℕ) (s : UploadSegmentMetadata)
    → one_further o ≡ some (i, s)
    → (j : ℕ) × (i ≡ suc j) × (o ≡ some (j, s))
one_further-suc none i s e = absurd (cc)
one_further-suc (some (j, x)) i s e = (j, ground arith, ground arith)

set_staged-IsStaging :
    (h : Hash) (ss : List UploadSegmentMetadata) (paths : List (Option Bytes)) (name : Bytes)
    (i : ℕ) (s : UploadSegmentMetadata) (bytes : Bytes)
    → find_segment name ss ≡ some (i, s)
    → IsContent h s bytes
    → IsStaging h ss paths
    → IsStaging h ss (set_staged i bytes paths)
unfolding find_segment set_staged
set_staged-IsStaging h [] paths name i s bytes e c k = absurd (cc)
set_staged-IsStaging h (x ∷ ss) [] name i s bytes e c k = absurd k
set_staged-IsStaging h (x ∷ ss) (p ∷ paths) name i s bytes e c (k, ks) =
    elim (Bool-cases (eq_bytes x.part name)) [
      | inl here ↦
          let found = rw here at e in
          let i_is : i ≡ 0 = ground arith in
          let x_is : s ≡ x = ground arith in rw i_is ((rw x_is at c), ks)
      | inr further ↦
          let found : one_further (find_segment name ss) ≡ some (i, s) = rw further at e in
          let (j, i_is, later) = one_further-suc (find_segment name ss) i s found in
          rw i_is (k, set_staged-IsStaging h ss paths name j s bytes later c ks)
    ]

stage_part-IsStaging :
    (h : Hash) (ss : List UploadSegmentMetadata) (paths : List (Option Bytes)) (p : Part)
    (paths' : List (Option Bytes))
    → stage_part h ss paths p ≡ ok paths'
    → IsStaging h ss paths
    → IsStaging h ss paths'
unfolding stage_part
stage_part-IsStaging h ss paths p paths' e k =
    let (name, _, e1) = >>=-eq-ok (context p.name part_unnamed) _ e in
    let ((i, s), found, e2) = >>=-eq-ok (context (find_segment name ss) unknown_part) _ e1 in
    let (_, e3) = >>-eq-ok (not (is_staged i paths)) duplicate_part _ e2 in
    let (bytes, content, e4) = >>=-eq-ok (stage_content h s p) _ e3 in
    let is : set_staged i bytes paths ≡ paths' = cc in
    rw (← is) (
      set_staged-IsStaging h ss paths name i s bytes
        (context-eq-ok (find_segment name ss) unknown_part (i, s) found)
        (stage_content-IsContent h s p bytes content) k)

stage_parts-IsStaging :
    (h : Hash) (ss : List UploadSegmentMetadata) (paths : List (Option Bytes)) (ps : Parts)
    (paths' : List (Option Bytes))
    → stage_parts h ss paths ps ≡ ok paths'
    → IsStaging h ss paths
    → IsStaging h ss paths'
unfolding stage_parts
stage_parts-IsStaging h ss paths no_more paths' e k = let is : paths ≡ paths' = cc in rw (← is) k
stage_parts-IsStaging h ss paths unreadable paths' e k = absurd (cc)
stage_parts-IsStaging h ss paths (part p ps) paths' e k =
    let (next, staged, rest) = >>=-eq-ok (stage_part h ss paths p) _ e in
    stage_parts-IsStaging h ss next ps paths' rest (stage_part-IsStaging h ss paths p next staged k)

no_paths-IsStaging : (h : Hash) (ss : List UploadSegmentMetadata) → IsStaging h ss (no_paths ss)
unfolding no_paths
no_paths-IsStaging h [] = tt
no_paths-IsStaging h (s ∷ ss) = (tt, no_paths-IsStaging h ss)

all_staged-AreContents :
    (h : Hash) (ss : List UploadSegmentMetadata) (paths : List (Option Bytes)) (cs : List Bytes)
    → all_staged paths ≡ ok cs
    → IsStaging h ss paths
    → AreContents h ss cs
unfolding all_staged
all_staged-AreContents h [] [] [] e k = tt
all_staged-AreContents h [] [] (c ∷ cs) e k = cc
all_staged-AreContents h [] (p ∷ paths) cs e k = absurd k
all_staged-AreContents h (s ∷ ss) [] cs e k = absurd k
all_staged-AreContents h (s ∷ ss) (none ∷ paths) cs e k = absurd (cc)
all_staged-AreContents h (s ∷ ss) (some b ∷ paths) [] e k =
    let (rest, staged, last) = >>=-eq-ok (all_staged paths) _ e in absurd (cc)
all_staged-AreContents h (s ∷ ss) (some b ∷ paths) (c ∷ cs) e (k, ks) =
    let (rest, staged, last) = >>=-eq-ok (all_staged paths) _ e in
    let is : (b ∷ rest) ≡ (c ∷ cs) = cc in
    let b_is : b ≡ c = ground arith in
    let rest_is : rest ≡ cs = ground arith in
    (rw (← b_is) k, all_staged-AreContents h ss paths cs (rw (← rest_is) staged) ks)

-- The contents that an upload has staged, whatever parts arrived in whatever order.
pub staged-AreContents :
    (h : Hash) (ss : List UploadSegmentMetadata) (ps : Parts) (cs : List Bytes)
    → (stage_parts h ss (no_paths ss) ps >>= all_staged) ≡ ok cs
    → AreContents h ss cs
staged-AreContents h ss ps cs e =
    let (paths, staged, all_there) = >>=-eq-ok (stage_parts h ss (no_paths ss) ps) _ e in
    all_staged-AreContents h ss paths cs all_there
      (stage_parts-IsStaging h ss (no_paths ss) ps paths staged (no_paths-IsStaging h ss))

receive_parts-AreContents :
    (h : Hash) (ss : List UploadSegmentMetadata) (cs : List Bytes)
    → AreContents h ss cs
    → (received : List PreparedSegment) × (receive_parts h ss cs ≡ ok received)
      × (length cs ≡ length ss)
unfolding receive_parts
receive_parts-AreContents h [] [] k = ([], refl, refl)
receive_parts-AreContents h [] (c ∷ cs) k = absurd k
receive_parts-AreContents h (s ∷ ss) [] k = absurd k
receive_parts-AreContents h (s ∷ ss) (c ∷ cs) ((size, digest), ks) =
    let (received, e, n) = receive_parts-AreContents h ss cs ks in
    let sized = (==_iff (length c) s.size).1 size in
    (
      record { offset = s.offset; image = pad c; original_size = length c } ∷ received,
      rw (sized, digest, eq_bytes_refl s.digest_text, e),
      omega arith,
    )

-- When the manifest is valid, the contents that the handler has staged make a plan: the tests of
-- `into_plan` are met.
pub into_plan-AreContents :
    (h : Hash) (m : FlashUploadManifest) (cs : List Bytes)
    → validate m ≡ ok tt
    → AreContents h m.segments cs
    → (plan : PreparedPlan) × (into_plan h m cs ≡ ok plan)
unfolding into_plan
into_plan-AreContents h m cs valid k =
    let (received, e, n) = receive_parts-AreContents h m.segments cs k in
    let counted = (==_iff (length cs) (length m.segments)).1 n in
    (
      record {
        chip = m.chip;
        flash_settings = m.flash_settings;
        segments = sort_by_key (λ (s : PreparedSegment). s.offset) received;
      },
      rw (valid, counted, e),
    )
