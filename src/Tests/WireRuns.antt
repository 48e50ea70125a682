-- ===== src/Tests/WireRuns.antt =====
-- src/wire.rs: an upload and the other requests, with small stand-ins for the hash and for base64.
use idf_remote.Base.{
  ℕ, zero, suc, ◌+◌, ◌-◌, ◌*◌, ◌/◌, ◌≤◌, ◌≡◌, refl, ap, arith, [], ◌∷◌, ◌++◌, map, some, Option,
  Bytes, eq_bytes, IsByte, All, length, replicate, length-append, length-replicate, ok, err, false,
  ltb, if◌then◌else◌,
}
use idf_remote.Base.Text.{codes}
use idf_remote.Base.Words.{next_multiple_of}
use idf_remote.Base.Sorting.{sort_by_key, adjacent}
use idf_remote.Device.{DeviceId}
use idf_remote.Plan.Prepare.{pad}
use idf_remote.Plan.Segments.{total_size}
use idf_remote.Plan.Layout.{IsLayout, prepare-IsLayout}
use idf_remote.Wire.Digest.{Hash, sha256, hex, segment_name}
use idf_remote.Wire.Requests.{Base64, erase_flash_confirmation}
use idf_remote.Wire.ReadFlash
use idf_remote.Wire.EraseFlash
use idf_remote.Wire.SerialWrite
use idf_remote.Wire.Manifest.{
  FlashUploadManifest, size_mismatch, from_plan, describe_segments, check_warnings, check_segment,
  check_segments, validate, receive_parts, into_plan, max_upload_bytes,
}
use idf_remote.Wire.Upload.{into_plan-from_plan, part_of}
use idf_remote.Wire.Host.{into_plan-IsLayout, AllDigests}
use idf_remote.Wire.Requests.{validate_idempotency_key}
use idf_remote.Store.Operations.{RequestIdentity}
use idf_remote.Store.Start.{request_identity, map_err}
use idf_remote.Tests.PlanRuns.{three_bytes, plan_at, prepared, prepare-prepared}

abbrev pub device : DeviceId
device = record { text = codes "dev_test" }

-- A stand-in for SHA-256: 32 bytes that say little.
abbrev pub weak_hash : Hash
weak_hash = record {
  digest = λ b. replicate 32 7;
  digest_length = λ b. refl;
  digest-IsByte = λ b. omega arith;
}

-- A stand-in for base64: the bytes themselves, filled up with a number that is not a byte.
abbrev pub drop_filler : Bytes → Bytes
drop_filler [] = []
drop_filler (c ∷ r) = if ltb c 256 then c ∷ drop_filler r else []

abbrev pub filled : Bytes → Bytes
filled b = b ++ replicate ((length b + 2) / 3 * 4 - length b) 256

drop_filler_none : (n : ℕ) → drop_filler (replicate n 256) ≡ []
drop_filler_none zero = refl
drop_filler_none (suc n) = refl

pub drop_filler-append : (b : Bytes) (n : ℕ) → All IsByte b → drop_filler (b ++ replicate n 256) ≡ b
drop_filler-append [] n h = drop_filler_none n
drop_filler-append (c ∷ r) n (h, t) = ground (arith, drop_filler-append r n t)

pub length-filled : (b : Bytes) → length (filled b) ≡ (length b + 2) / 3 * 4
length-filled b =
    let n = (length b + 2) / 3 * 4 - length b in
    omega (arith, length-append b (replicate n 256), length-replicate {A = ℕ} n 256)

abbrev pub weak_base64 : Base64
weak_base64 = record {
  encode = filled;
  decode = λ b. some (drop_filler b);
  decode-encode = λ b h. ap some (drop_filler-append b _ h);
  length-encode = length-filled;
}

abbrev read_request : ReadFlash.ReadFlashRequest
read_request = record {
  device_id = device;
  offset = 0x1000;
  size = 0x2000;
  flash_baud = 460800;
  monitor_baud = 115200;
  no_reset_before = false;
}

abbrev erase_request : EraseFlash.EraseFlashRequest
erase_request = record {
  device_id = device;
  confirmation = erase_flash_confirmation;
  flash_baud = 460800;
  no_reset_before = false;
}

erase_admitted : EraseFlash.validate erase_request ≡ ok tt
unfolding EraseFlash.validate eq_bytes
erase_admitted = refl

abbrev pub hello : Bytes
hello = codes "hello"

abbrev pub hello_request : SerialWrite.SerialWriteRequest
hello_request = record {
  device_id = device;
  text = filled hello;
  digest_text = sha256 weak_hash hello;
  baud = 115200;
  timeout_ms = 1000;
}

hello_sent :
    SerialWrite.from_bytes weak_hash weak_base64 device hello 115200 1000 ≡ ok hello_request
unfolding SerialWrite.from_bytes SerialWrite.validate
hello_sent = refl

abbrev pub manifest : FlashUploadManifest
manifest = record {
  device_id = device;
  version = 2;
  chip = prepared.chip;
  flash_settings = prepared.flash_settings;
  segments = describe_segments weak_hash 0 prepared.segments;
  flash_baud = 460800;
  monitor_baud = 115200;
  no_reset_before = false;
  warnings = [];
}

into_plan-prepared : into_plan weak_hash manifest (map part_of prepared.segments) ≡ ok prepared
unfolding into_plan validate check_warnings check_segment check_segments receive_parts
    describe_segments segment_name sha256 hex pad next_multiple_of sort_by_key adjacent eq_bytes
into_plan-prepared = refl

into_plan_corrupt :
    into_plan weak_hash manifest ((1 ∷ 2 ∷ []) ∷ (1 ∷ 2 ∷ 3 ∷ []) ∷ []) ≡ err size_mismatch
unfolding into_plan validate check_warnings check_segment check_segments receive_parts
    describe_segments segment_name sha256 hex pad next_multiple_of sort_by_key adjacent eq_bytes
into_plan_corrupt = refl

into_plan-IsLayout_example :
    IsLayout prepared
    × AllDigests weak_hash manifest.segments (map part_of prepared.segments)
    × (2 ≡ length manifest.segments)
    × (total_size prepared.segments ≤ max_upload_bytes)
into_plan-IsLayout_example =
    into_plan-IsLayout weak_hash manifest (map part_of prepared.segments) prepared
      into_plan-prepared

into_plan-from_plan_example :
    (m : FlashUploadManifest) × (from_plan weak_hash device prepared 460800 115200 false ≡ ok m)
    × (validate m ≡ ok tt)
    × (into_plan weak_hash m (map part_of prepared.segments) ≡ ok prepared)
into_plan-from_plan_example =
    into_plan-from_plan weak_hash device prepared 460800 115200 false
      (prepare-IsLayout three_bytes (plan_at 0x10000 0) prepared prepare-prepared) (omega arith)
      (omega arith) (omega arith)

abbrev ascii : Bytes → Option Bytes
ascii value = some value

abbrev reset_identity : RequestIdentity
reset_identity = record {
  key = codes "key-1";
  fingerprint = sha256 weak_hash (codes "reset" ++ 0 ∷ codes "{}");
}

reset_identified :
    request_identity weak_hash (some (codes "key-1")) ascii (codes "reset") (some (codes "{}"))
    ≡ ok reset_identity
unfolding request_identity map_err validate_idempotency_key
reset_identified = refl
