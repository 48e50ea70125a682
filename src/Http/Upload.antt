-- ===== src/Http/Upload.antt =====
-- The handler `flash` of src/server.rs. The JSON reader, the text of the manifest, the test of the backend
-- and what reading a staged file back answers are parameters, as is what `submit` learns from outside.
use idf_remote.Base.{
  ℕ, ◌*◌, Bool, false, List, [], Option, some, none, Bytes, eq_bytes, Result, ok, err, ensure,
  context, ◌>>=◌, ◌>>◌,
}
use idf_remote.Base.Text.{codes}
use idf_remote.Device.{DeviceDescriptor}
use idf_remote.Plan.Types.{PreparedPlan}
use idf_remote.Wire.Digest.{Hash}
use idf_remote.Wire.Manifest.{FlashUploadManifest, UploadError, validate, into_plan}
use idf_remote.Wire.Requests.{DeviceRequest}
use idf_remote.Store.Events.{Event}
use idf_remote.Store.Operations.{Operation, RequestIdentity, Store, ApiError}
use idf_remote.Store.Reading.{ReadError, authorize_device}
use idf_remote.Store.Start.{IdentityError, request_identity}
use idf_remote.Store.Submit.{Action, flash, Surroundings}
use idf_remote.Store.Admit.{submit}
use idf_remote.Http.Staging.{
  HttpError, invalid_multipart, missing_metadata, metadata_not_first, invalid_metadata, not_allowed,
  staging_failed, unreadable_part, backend_refused, upload_error, identity_error, api_error, Parts,
  no_more, unreadable, part, read_multipart_field, no_paths, stage_parts, all_staged,
}

-- 64 KiB.
abbrev pub max_flash_metadata_bytes : ℕ
max_flash_metadata_bytes = 64 * 1024

-- What the handler calls: serde_json for the manifest and for the text that its identity is made of,
-- `to_str` of a header, the hash, and `backend.validate`.
pub record Codec : Type 0 where
  pub hash : Hash
  pub from_slice : Bytes → Option FlashUploadManifest
  pub canonical : FlashUploadManifest → Option Bytes
  pub to_str : Bytes → Option Bytes
  pub backend_validates : PreparedPlan → Bool

-- What the handler finds: the devices that have a worker, the header with the key, the parts, whether
-- the staging directory is created, and whether the staged files are read back.
pub record Upload : Type 0 where
  pub runtimes : List DeviceDescriptor
  pub key_header : Option Bytes
  pub parts : Parts
  pub has_staging : Bool
  pub is_read_back : Bool

abbrev pub map_upload : {A : Type 0} → Result UploadError A → Result HttpError A
map_upload (err why) = err (upload_error why)
map_upload (ok a) = ok a

abbrev pub map_identity : {A : Type 0} → Result IdentityError A → Result HttpError A
map_identity (err why) = err (identity_error why)
map_identity (ok a) = ok a

abbrev pub map_allowed : {A : Type 0} → Result ReadError A → Result HttpError A
map_allowed (err why) = err not_allowed
map_allowed (ok a) = ok a

-- `metadata_field.name() == Some("metadata")`
abbrev pub is_metadata : Option Bytes → Bool
is_metadata none = false
is_metadata (some name) = eq_bytes name (codes "metadata")

-- The first field, which is the manifest, and the fields behind it.
unfoldable pub read_metadata : Parts → Result HttpError (Bytes × Parts)
read_metadata no_more = err missing_metadata
read_metadata unreadable = err invalid_multipart
read_metadata (part p ps) = do
  ensure (is_metadata p.name) metadata_not_first
  metadata ← read_multipart_field max_flash_metadata_bytes [] p.chunks
  ok (metadata, ps)

-- The block that runs on a thread of its own: the plan, when the backend takes it.
unfoldable pub build_plan :
    Codec → FlashUploadManifest → Bool → List Bytes → Result HttpError PreparedPlan
build_plan c upload read_back contents = do
  ensure read_back unreadable_part
  plan ← map_upload (into_plan c.hash upload contents)
  ensure (c.backend_validates plan) backend_refused
  ok plan

-- What the handler submits.
pub record Submission : Type 0 where
  pub manifest : FlashUploadManifest
  pub plan : PreparedPlan
  pub identity : RequestIdentity

-- The tests on the manifest, and the identity of the request.
unfoldable pub identify_upload :
    Codec → Upload → FlashUploadManifest → Result HttpError RequestIdentity
identify_upload c u upload = do
  map_upload (validate upload)
  map_allowed (authorize_device u.runtimes upload.device_id)
  map_identity (request_identity c.hash u.key_header c.to_str (codes "flash") (c.canonical upload))

-- The fields behind the manifest, up to the plan that they make.
unfoldable pub stage_upload :
    Codec → Upload → FlashUploadManifest → Parts → Result HttpError PreparedPlan
stage_upload c u upload rest = do
  ensure u.has_staging staging_failed
  contents ← (stage_parts c.hash upload.segments (no_paths upload.segments) rest >>= all_staged)
  build_plan c upload u.is_read_back contents

unfoldable pub receive_fields :
    Codec → Upload → FlashUploadManifest → Parts → Result HttpError Submission
receive_fields c u upload rest = do
  identity ← identify_upload c u upload
  plan ← stage_upload c u upload rest
  ok (record { manifest = upload; plan = plan; identity = identity })

-- The handler up to the call of `submit`.
unfoldable pub receive_upload : Codec → Upload → Result HttpError Submission
receive_upload c u = do
  (metadata, rest) ← read_metadata u.parts
  upload ← context (c.from_slice metadata) invalid_metadata
  receive_fields c u upload rest

abbrev pub device_request : FlashUploadManifest → DeviceRequest
device_request m = record {
  device_id = m.device_id;
  monitor_baud = m.monitor_baud;
  no_reset_before = m.no_reset_before;
}

module _ {Value : Type 0} where
  abbrev pub map_api :
      Store Value × Result ApiError (Operation Value)
      → Store Value × Result HttpError (Operation Value)
  map_api (s, err why) = (s, err (api_error why))
  map_api (s, ok op) = (s, ok op)

module _ {Value : Type 0} (Command : Type 0) (encoded_len : Event Value → ℕ)
    (empty_object : Value) where
  abbrev pub flash_action : Submission → Action Command
  flash_action x = flash x.plan x.manifest.flash_baud x.manifest.warnings

  unfoldable pub submit_upload :
      Surroundings
      → Result HttpError Submission
      → Store Value
      → Store Value × Result HttpError (Operation Value)
  submit_upload w (err why) s = (s, err why)
  submit_upload w (ok x) s =
      map_api (
        submit encoded_len empty_object w (device_request x.manifest) (flash_action x) x.identity s)

  unfoldable pub flash_upload :
      Codec → Upload → Surroundings → Store Value → Store Value × Result HttpError (Operation Value)
  flash_upload c u w s = submit_upload w (receive_upload c u) s
