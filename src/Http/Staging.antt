-- ===== src/Http/Staging.antt =====
-- The parts of a flash upload as `flash` and `read_multipart_field` of src/server.rs take them from the
-- request. What the multipart reader gives, and whether the file system takes what is written, is an
-- argument; a staged file holds what was written to it.
use idf_remote.Base.{
  ℕ, zero, suc, ◌+◌, ◌^◌, Bool, true, false, not, List, [], ◌∷◌, ◌++◌, Option, some, none, Bytes,
  length, eq_bytes, ltb, leb, ◌==◌, if◌then◌else◌, Result, ok, err, ensure, context, ◌>>=◌, ◌>>◌,
}
use idf_remote.Wire.Digest.{Hash, sha256}
use idf_remote.Wire.Manifest.{UploadSegmentMetadata, UploadError}
use idf_remote.Wire.Requests.{RequestError}
use idf_remote.Wire.AppRequest.{AppRequestError}
use idf_remote.Store.Operations.{ApiError}
use idf_remote.Store.Start.{IdentityError}

-- `ApiError`, by its cause.
pub data HttpError : Type 0 where
  invalid_multipart missing_metadata metadata_not_first field_too_large : HttpError
  invalid_metadata not_allowed staging_failed part_unnamed unknown_part : HttpError
  duplicate_part create_failed part_size_overflow part_too_large stage_failed : HttpError
  flush_failed part_size_mismatch part_digest_mismatch part_missing : HttpError
  unreadable_part backend_refused missing_key invalid_key : HttpError
  request_error : RequestError → HttpError
  application_error : AppRequestError → HttpError
  upload_error : UploadError → HttpError
  identity_error : IdentityError → HttpError
  api_error : ApiError → HttpError

-- What `field.chunk()` gives, one after the other: chunks, each with what `write_all` answers for it,
-- and then the end of the field or an error.
pub data Chunks : Type 0 where
  finished broken : Chunks
  chunk : Bytes → Bool → Chunks → Chunks

-- A field, with what the creation and the flush of its file answer.
pub record Part : Type 0 where
  pub name : Option Bytes
  pub is_created : Bool
  pub chunks : Chunks
  pub is_flushed : Bool

-- What `multipart.next_field()` gives.
pub data Parts : Type 0 where
  no_more unreadable : Parts
  part : Part → Parts → Parts

-- `read_multipart_field`, with what has been read.
unfoldable pub read_multipart_field : ℕ → Bytes → Chunks → Result HttpError Bytes
read_multipart_field limit bytes finished = ok bytes
read_multipart_field limit bytes broken = err invalid_multipart
read_multipart_field limit bytes (chunk c written cs) =
    let rest = read_multipart_field limit (bytes ++ c) cs in
    if ltb limit (length bytes + length c) then err field_too_large else rest

abbrev pub one_further : Option (ℕ × UploadSegmentMetadata) → Option (ℕ × UploadSegmentMetadata)
one_further none = none
one_further (some (i, s)) = some (suc i, s)

-- `.position(|segment| segment.part == name)`, with the segment that is found there.
unfoldable pub find_segment :
    Bytes → List UploadSegmentMetadata → Option (ℕ × UploadSegmentMetadata)
find_segment name [] = none
find_segment name (s ∷ ss) =
    let rest = find_segment name ss in
    if eq_bytes s.part name then some (0, s) else one_further rest

-- `vec![None; upload.segments.len()]`
unfoldable pub no_paths : List UploadSegmentMetadata → List (Option Bytes)
no_paths [] = []
no_paths (s ∷ ss) = none ∷ no_paths ss

-- `paths[index].is_some()`
unfoldable pub is_staged : ℕ → List (Option Bytes) → Bool
is_staged i [] = false
is_staged zero (none ∷ paths) = false
is_staged zero (some bytes ∷ paths) = true
is_staged (suc i) (p ∷ paths) = is_staged i paths

-- `paths[index] = Some(path)`, where a path stands for what its file holds.
unfoldable pub set_staged : ℕ → Bytes → List (Option Bytes) → List (Option Bytes)
set_staged i bytes [] = []
set_staged zero bytes (p ∷ paths) = some bytes ∷ paths
set_staged (suc i) bytes (p ∷ paths) = p ∷ set_staged i bytes paths

-- The loop over the chunks of a part, with the size and the content so far.
unfoldable pub stage_chunks : ℕ → ℕ → Bytes → Chunks → Result HttpError (ℕ × Bytes)
stage_chunks limit size bytes finished = ok (size, bytes)
stage_chunks limit size bytes broken = err invalid_multipart
stage_chunks limit size bytes (chunk c written cs) = do
  ensure (ltb (size + length c) (2 ^ 64)) part_size_overflow
  ensure (leb (size + length c) limit) part_too_large
  ensure written stage_failed
  stage_chunks limit (size + length c) (bytes ++ c) cs

-- The content of a part, from the creation of its file to the test of its digest.
unfoldable pub stage_content : Hash → UploadSegmentMetadata → Part → Result HttpError Bytes
stage_content h expected p = do
  ensure p.is_created create_failed
  (size, bytes) ← stage_chunks expected.size 0 [] p.chunks
  ensure p.is_flushed flush_failed
  ensure (size == expected.size) part_size_mismatch
  ensure (eq_bytes (sha256 h bytes) expected.digest_text) part_digest_mismatch
  ok bytes

-- One round of the loop over the parts.
unfoldable pub stage_part :
    Hash
    → List UploadSegmentMetadata
    → List (Option Bytes)
    → Part
    → Result HttpError (List (Option Bytes))
stage_part h segments paths p = do
  name ← context p.name part_unnamed
  (index, expected) ← context (find_segment name segments) unknown_part
  ensure (not (is_staged index paths)) duplicate_part
  bytes ← stage_content h expected p
  ok (set_staged index bytes paths)

unfoldable pub stage_parts :
    Hash
    → List UploadSegmentMetadata
    → List (Option Bytes)
    → Parts
    → Result HttpError (List (Option Bytes))
stage_parts h segments paths no_more = ok paths
stage_parts h segments paths unreadable = err invalid_multipart
stage_parts h segments paths (part p ps) = do
  paths' ← stage_part h segments paths p
  stage_parts h segments paths' ps

-- The test for a missing part, and the contents in the order of the manifest.
unfoldable pub all_staged : List (Option Bytes) → Result HttpError (List Bytes)
all_staged [] = ok []
all_staged (none ∷ paths) = err part_missing
all_staged (some bytes ∷ paths) = do rest ← all_staged paths; ok (bytes ∷ rest)
