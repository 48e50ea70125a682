-- ===== src/Http/AnyOrder.antt =====
-- The parts of a flash upload in any order, as the handler of src/server.rs stages them.
use idf_remote.Base.{
  ℕ, zero, suc, ◌+◌, ◌^◌, ◌≤◌, ◌<◌, ◌≡◌, refl, sym, ap, ◌∙◌, arith, Bool, true, false, List, [],
  ◌∷◌, ◌++◌, append_assoc, append-nil, Option, some, none, Bytes, length, length-append,
  eq_bytes_refl, ltb, leb, ◌==◌, ok, ◌>>=◌,
}
use idf_remote.Wire.Digest.{Hash}
use idf_remote.Wire.Manifest.{UploadSegmentMetadata}
use idf_remote.Http.Staging.{
  Chunks, finished, broken, chunk, Part, Parts, no_more, unreadable, part, find_segment, no_paths,
  is_staged, set_staged, stage_chunks, stage_content, stage_part, stage_parts, all_staged,
}
use idf_remote.Http.Staged.{IsContent, AreContents}

-- The chunks of a text that are all written.
abbrev pub Chunked : Bytes → Chunks → Type 0
Chunked bytes finished = bytes ≡ []
Chunked bytes broken = ⊥
Chunked bytes (chunk c written cs) =
    (rest : Bytes) × (written ≡ true) × (bytes ≡ c ++ rest) × Chunked rest cs

plus_zero : (n : ℕ) → n + 0 ≡ n
plus_zero n = omega arith

stage_chunks-Chunked :
    (limit size : ℕ) (front bytes : Bytes) (cs : Chunks)
    → size + length bytes ≤ limit
    → limit < 2 ^ 64
    → Chunked bytes cs
    → stage_chunks limit size front cs ≡ ok (size + length bytes, front ++ bytes)
unfolding stage_chunks
stage_chunks-Chunked limit size front bytes finished fits small k =
    rw (k, append-nil front, plus_zero size)
stage_chunks-Chunked limit size front bytes broken fits small k = absurd k
stage_chunks-Chunked limit size front bytes (chunk c written cs) fits small (rest, w, is, k) =
    let count : length bytes ≡ length c + length rest =
      omega (arith, ap length is, length-append c rest) in
    let later =
      stage_chunks-Chunked limit (size + length c) (front ++ c) rest cs (omega arith) small k in
    let bounded : ltb (size + length c) (2 ^ 64) ≡ true = ground arith in
    let within : leb (size + length c) limit ≡ true = ground arith in
    let sum : size + length c + length rest ≡ size + length bytes = omega arith in
    let whole : (front ++ c) ++ rest ≡ front ++ bytes =
      append_assoc front c rest ∙ ap (λ t. front ++ t) (sym is) in
    rw (bounded, within, w) (later ∙ rw (sum, whole))

-- A part that holds a content, under a name.
pub record Holds (p : Part) (name bytes : Bytes) : Type 0 where
  pub named : p.name ≡ some name
  pub created : p.is_created ≡ true
  pub chunked : Chunked bytes p.chunks
  pub flushed : p.is_flushed ≡ true

stage_content-Holds :
    (h : Hash) (s : UploadSegmentMetadata) (p : Part) (name bytes : Bytes)
    → s.size < 2 ^ 64
    → IsContent h s bytes
    → Holds p name bytes
    → stage_content h s p ≡ ok bytes
unfolding stage_content
stage_content-Holds h s p name bytes small (sized, digest) k =
    let staged = stage_chunks-Chunked s.size 0 [] bytes p.chunks (omega arith) small k.chunked in
    let all_there : (0 + s.size == s.size) ≡ true = ground arith in
    rw (k.created, staged, k.flushed, sized, digest, eq_bytes_refl s.digest_text, all_there)

-- Of some contents those that a mask picks.
unfoldable pub fill : List Bool → List Bytes → List (Option Bytes)
fill [] cs = []
fill (m ∷ ms) [] = []
fill (true ∷ ms) (c ∷ cs) = some c ∷ fill ms cs
fill (false ∷ ms) (c ∷ cs) = none ∷ fill ms cs

-- The mask with a further place, and whether a place is free.
unfoldable pub with_place : ℕ → List Bool → List Bool
with_place i [] = []
with_place zero (m ∷ ms) = true ∷ ms
with_place (suc i) (m ∷ ms) = m ∷ with_place i ms

abbrev pub IsFree : ℕ → List Bool → Type 0
IsFree i [] = ⊥
IsFree zero (m ∷ ms) = m ≡ false
IsFree (suc i) (m ∷ ms) = IsFree i ms

abbrev pub AllTaken : List Bool → Type 0
AllTaken [] = Unit
AllTaken (m ∷ ms) = (m ≡ true) × AllTaken ms

-- The segment and the content at a place.
abbrev pub IsAt :
    ℕ → UploadSegmentMetadata → Bytes → List UploadSegmentMetadata → List Bytes → Type 0
IsAt i s c [] cs = ⊥
IsAt i s c (x ∷ ss) [] = ⊥
IsAt zero s c (x ∷ ss) (d ∷ cs) = (s ≡ x) × (c ≡ d)
IsAt (suc i) s c (x ∷ ss) (d ∷ cs) = IsAt i s c ss cs

is_staged-fill :
    (i : ℕ) (s : UploadSegmentMetadata) (c : Bytes) (ms : List Bool)
    (ss : List UploadSegmentMetadata) (cs : List Bytes)
    → IsFree i ms
    → IsAt i s c ss cs
    → (is_staged i (fill ms cs) ≡ false) × (set_staged i c (fill ms cs) ≡ fill (with_place i ms) cs)
unfolding is_staged set_staged fill with_place
is_staged-fill i s c [] ss cs f k = absurd f
is_staged-fill i s c (m ∷ ms) [] cs f k = absurd k
is_staged-fill i s c (m ∷ ms) (x ∷ ss) [] f k = absurd k
is_staged-fill zero s c (true ∷ ms) (x ∷ ss) (d ∷ cs) f k = cc
is_staged-fill zero s c (false ∷ ms) (x ∷ ss) (d ∷ cs) f (same, is) = (refl, rw is)
is_staged-fill (suc i) s c (true ∷ ms) (x ∷ ss) (d ∷ cs) f k =
    let (free, set) = is_staged-fill i s c ms ss cs f k in (free, rw set)
is_staged-fill (suc i) s c (false ∷ ms) (x ∷ ss) (d ∷ cs) f k =
    let (free, set) = is_staged-fill i s c ms ss cs f k in (free, rw set)

length-with_place : (i : ℕ) (ms : List Bool) → length (with_place i ms) ≡ length ms
unfolding with_place
length-with_place i [] = refl
length-with_place zero (m ∷ ms) = refl
length-with_place (suc i) (m ∷ ms) = ap suc (length-with_place i ms)

all_staged-fill :
    (ms : List Bool) (cs : List Bytes)
    → AllTaken ms
    → length ms ≡ length cs
    → all_staged (fill ms cs) ≡ ok cs
unfolding all_staged fill
all_staged-fill [] [] k e = refl
all_staged-fill [] (c ∷ cs) k e = absurd (omega arith)
all_staged-fill (m ∷ ms) [] k e = absurd (omega arith)
all_staged-fill (true ∷ ms) (c ∷ cs) (m, k) e = rw (all_staged-fill ms cs k (omega arith))
all_staged-fill (false ∷ ms) (c ∷ cs) (m, k) e = cc

-- No place is taken yet.
abbrev pub nothing_taken : List UploadSegmentMetadata → List Bool
nothing_taken [] = []
nothing_taken (s ∷ ss) = false ∷ nothing_taken ss

no_paths-fill :
    (h : Hash) (ss : List UploadSegmentMetadata) (cs : List Bytes)
    → AreContents h ss cs
    → (fill (nothing_taken ss) cs ≡ no_paths ss) × (length (nothing_taken ss) ≡ length cs)
unfolding fill no_paths
no_paths-fill h [] [] k = (refl, refl)
no_paths-fill h [] (c ∷ cs) k = absurd k
no_paths-fill h (s ∷ ss) [] k = absurd k
no_paths-fill h (s ∷ ss) (c ∷ cs) (k, ks) =
    let (same, count) = no_paths-fill h ss cs ks in (rw same, ap suc count)

module _ (h : Hash) (ss : List UploadSegmentMetadata) (cs : List Bytes) where
  -- A part that carries the content of the segment at a place.
  pub record IsPartAt (i : ℕ) (p : Part) : Type 0 where
    pub name : Bytes
    pub segment : UploadSegmentMetadata
    pub content : Bytes
    pub found : find_segment name ss ≡ some (i, segment)
    pub at : IsAt i segment content ss cs
    pub small : segment.size < 2 ^ 64
    pub stated : IsContent h segment content
    pub holds : Holds p name content

  -- The fields bring each part that is not there yet, once, in some order, and then end.
  abbrev pub Completes : List Bool → Parts → Type 0
  Completes ms no_more = AllTaken ms
  Completes ms unreadable = ⊥
  Completes ms (part p ps) = (i : ℕ) × IsFree i ms × IsPartAt i p × Completes (with_place i ms) ps

  stage_part-fill :
      (ms : List Bool) (i : ℕ) (p : Part)
      → IsFree i ms
      → IsPartAt i p
      → stage_part h ss (fill ms cs) p ≡ ok (fill (with_place i ms) cs)
  unfolding stage_part
  stage_part-fill ms i p f k =
      let (free, set) = is_staged-fill i k.segment k.content ms ss cs f k.at in
      let staged = stage_content-Holds h k.segment p k.name k.content k.small k.stated k.holds in
      simp (k.holds.named, k.found, free, staged, set)

  stage_parts-fill :
      (ms : List Bool) (ps : Parts)
      → Completes ms ps
      → (ns : List Bool) × AllTaken ns
        × (length ns ≡ length ms)
        × (stage_parts h ss (fill ms cs) ps ≡ ok (fill ns cs))
  unfolding stage_parts
  stage_parts-fill ms no_more k = (ms, k, refl, refl)
  stage_parts-fill ms unreadable k = absurd k
  stage_parts-fill ms (part p ps) (i, f, at, k) =
      let (ns, taken, count, rest) = stage_parts-fill (with_place i ms) ps k in
      (ns, taken, count ∙ length-with_place i ms, rw (stage_part-fill ms i p f at) rest)

  -- Parts that bring the contents of the manifest, each once, in any order and in any chunks, are staged as
  -- those contents, in the order of the manifest.
  pub stage_parts-Completes :
      (ps : Parts)
      → AreContents h ss cs
      → Completes (nothing_taken ss) ps
      → (stage_parts h ss (no_paths ss) ps >>= all_staged) ≡ ok cs
  stage_parts-Completes ps k complete =
      let (same, count) = no_paths-fill h ss cs k in
      let (ns, taken, as_many, staged) = stage_parts-fill (nothing_taken ss) ps complete in
      let from_none : stage_parts h ss (no_paths ss) ps ≡ ok (fill ns cs) = rw (← same) staged in
      rw from_none (all_staged-fill ns cs taken (as_many ∙ count))
