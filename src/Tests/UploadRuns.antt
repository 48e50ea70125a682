-- ===== src/Tests/UploadRuns.antt =====
-- The handler of a flash upload of src/server.rs, given an upload in two parts.
use idf_remote.Base.{
  ℕ, ◌≡◌, ◌⊎◌, refl, arith, true, false, List, [], ◌∷◌, ◌++◌, some, Bytes, Result, ok, err, ◌>>=◌,
  eq_bytes,
}
use idf_remote.Base.Text.{codes}
use idf_remote.Wire.Digest.{sha256, hex, segment_name}
use idf_remote.Wire.Manifest.{UploadSegmentMetadata, from_plan, describe_segments}
use idf_remote.Wire.Requests.{validate_idempotency_key}
use idf_remote.Store.Reading.{runtime, authorize_device}
use idf_remote.Store.Start.{request_identity, map_err}
use idf_remote.Store.Admit.{submit}
use idf_remote.Http.Staging.{
  read_multipart_field, HttpError, duplicate_part, part_missing, finished, chunk, Part, Parts,
  no_more, part, find_segment, no_paths, is_staged, set_staged, stage_chunks, stage_content,
  stage_part, stage_parts, all_staged,
}
use idf_remote.Http.Upload.{
  Codec, Upload, Submission, device_request, map_api, flash_action, flash_upload, receive_upload,
}
use idf_remote.Http.Verified.{IsVerified, flash_upload-IsVerified}
use idf_remote.Http.AnyOrder.{Holds, IsPartAt, Completes, nothing_taken, with_place}
use idf_remote.Http.Accepted.{IsServed, receive_upload-from_plan}
use idf_remote.Plan.Layout.{prepare-IsLayout}
use idf_remote.Store.Operations.{RequestIdentity}
use idf_remote.Tests.PlanRuns.{three_bytes, plan_at, prepared, prepare-prepared}
use idf_remote.Tests.WireRuns.{weak_hash, manifest, device}
use idf_remote.Tests.StoreRuns.{ten, idle_store, surroundings, descriptor}

-- Three bytes in two chunks, under a name.
abbrev part_named : Bytes → Part
part_named name = record {
  name = some name;
  is_created = true;
  chunks = chunk (1 ∷ []) true (chunk (2 ∷ 3 ∷ []) true finished);
  is_flushed = true;
}

-- The second part comes first.
abbrev two_parts : Parts
two_parts = part (part_named (codes "segment-1")) (part (part_named (codes "segment-0")) no_more)

abbrev contents : List Bytes
contents = (1 ∷ 2 ∷ 3 ∷ []) ∷ (1 ∷ 2 ∷ 3 ∷ []) ∷ []

abbrev staged : Parts → Result HttpError (List Bytes)
staged ps = stage_parts weak_hash manifest.segments (no_paths manifest.segments) ps >>= all_staged

two_parts-staged : staged two_parts ≡ ok contents
unfolding stage_parts stage_part stage_content stage_chunks find_segment is_staged set_staged
    no_paths all_staged describe_segments segment_name sha256 hex eq_bytes
two_parts-staged = refl

one_part_missing : staged (part (part_named (codes "segment-1")) no_more) ≡ err part_missing
unfolding stage_parts stage_part stage_content stage_chunks find_segment is_staged set_staged
    no_paths all_staged describe_segments segment_name sha256 hex eq_bytes
one_part_missing = refl

one_part_twice :
    staged (part (part_named (codes "segment-1")) (part (part_named (codes "segment-1")) no_more))
    ≡ err duplicate_part
unfolding stage_parts stage_part stage_content stage_chunks find_segment is_staged set_staged
    no_paths all_staged describe_segments segment_name sha256 hex eq_bytes
one_part_twice = refl

abbrev codec : Codec
codec = record {
  hash = weak_hash;
  from_slice = λ text. some manifest;
  canonical = λ m. some (codes "{}");
  to_str = λ value. some value;
  backend_validates = λ plan. true;
}

abbrev upload : Upload
upload = record {
  runtimes = record descriptor { id = device } ∷ [];
  key_header = some (codes "key-1");
  parts =
      part (record (part_named (codes "metadata")) { name = some (codes "metadata") }) two_parts;
  has_staging = true;
  is_read_back = true;
}

flash_upload-IsVerified_example :
    ((e : HttpError) × (flash_upload ℕ ten 0 codec upload surroundings idle_store
        ≡ (idle_store, err e)))
    ⊎ ((x : Submission) × IsVerified codec upload x
        × (flash_upload ℕ ten 0 codec upload surroundings idle_store
            ≡ map_api (
                submit ten 0 surroundings
                  (device_request x.manifest)
                  (flash_action ℕ ten 0 x)
                  x.identity
                  idle_store)))
flash_upload-IsVerified_example =
    flash_upload-IsVerified ℕ ten 0 codec upload surroundings idle_store

abbrev segment_at : ℕ → ℕ → UploadSegmentMetadata
segment_at index offset = record {
  part = segment_name index;
  offset = offset;
  size = 3;
  digest_text = sha256 weak_hash (1 ∷ 2 ∷ 3 ∷ []);
}

part-Holds : (name : Bytes) → Holds (part_named name) name (1 ∷ 2 ∷ 3 ∷ [])
part-Holds name = record {
  named = refl;
  created = refl;
  chunked = (2 ∷ 3 ∷ [], refl, refl, ([], refl, refl, refl));
  flushed = refl;
}

second_part : IsPartAt weak_hash manifest.segments contents 1 (part_named (codes "segment-1"))
unfolding find_segment describe_segments segment_name sha256 hex eq_bytes
second_part = record {
  name = codes "segment-1";
  segment = segment_at 1 0x10000;
  content = 1 ∷ 2 ∷ 3 ∷ [];
  found = refl;
  at = (refl, refl);
  small = omega arith;
  stated = (refl, refl);
  holds = part-Holds (codes "segment-1");
}

first_part : IsPartAt weak_hash manifest.segments contents 0 (part_named (codes "segment-0"))
unfolding find_segment describe_segments segment_name sha256 hex eq_bytes
first_part = record {
  name = codes "segment-0";
  segment = segment_at 0 0;
  content = 1 ∷ 2 ∷ 3 ∷ [];
  found = refl;
  at = (refl, refl);
  small = omega arith;
  stated = (refl, refl);
  holds = part-Holds (codes "segment-0");
}

two_parts-Completes :
    Completes weak_hash manifest.segments contents (nothing_taken manifest.segments) two_parts
unfolding describe_segments with_place
two_parts-Completes = (1, refl, second_part, (0, refl, first_part, (refl, (refl, tt))))

abbrev flash_identity : RequestIdentity
flash_identity = record {
  key = codes "key-1";
  fingerprint = sha256 weak_hash (codes "flash" ++ 0 ∷ codes "{}");
}

upload-IsServed : IsServed codec upload manifest prepared flash_identity two_parts
unfolding read_multipart_field authorize_device runtime request_identity map_err
    validate_idempotency_key eq_bytes
upload-IsServed = record {
  first = record (part_named (codes "metadata")) { name = some (codes "metadata") };
  text = 1 ∷ 2 ∷ 3 ∷ [];
  parts_are = refl;
  first_named = refl;
  first_read = refl;
  decoded = refl;
  allowed = refl;
  identified = refl;
  has_staging = refl;
  is_read_back = refl;
  taken = refl;
}

manifest_made : from_plan weak_hash device prepared 460800 115200 false ≡ ok manifest
unfolding from_plan
manifest_made = refl

receive_upload-from_plan_example :
    receive_upload codec upload
    ≡ ok (record { manifest = manifest; plan = prepared; identity = flash_identity })
receive_upload-from_plan_example =
    receive_upload-from_plan codec upload device prepared 460800 115200 false manifest
      flash_identity two_parts
      (prepare-IsLayout three_bytes (plan_at 0x10000 0) prepared prepare-prepared) (omega arith)
      (omega arith) (omega arith) manifest_made two_parts-Completes upload-IsServed
