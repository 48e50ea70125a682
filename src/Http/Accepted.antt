-- ===== src/Http/Accepted.antt =====
-- An upload of a client that goes by src/wire.rs, met by the handler `flash` of src/server.rs.
use idf_remote.Base.{
  ℕ, suc, ◌≤◌, ◌<◌, ◌≡◌, refl, Bool, true, List, [], ◌∷◌, map, some, Bytes, All, ok, ok_injective,
  >>-eq-ok, leb, sym, ap, ◌∙◌, eq_bytes, ◌>>=◌,
}
use mathlib.Core.Path.{subst}
use idf_remote.Base.Text.{codes}
use idf_remote.Device.{DeviceId}
use idf_remote.Plan.Types.{PreparedSegment, PreparedPlan}
use idf_remote.Plan.Segments.{IsPrepared}
use idf_remote.Plan.Layout.{IsLayout}
use idf_remote.Wire.Digest.{Hash}
use idf_remote.Wire.Manifest.{
  FlashUploadManifest, max_upload_bytes, image_total, describe_segments, from_plan, validate,
  into_plan,
}
use idf_remote.Wire.Upload.{part_of, length-part_of, into_plan-from_plan}
use idf_remote.Store.Operations.{RequestIdentity}
use idf_remote.Store.Reading.{authorize_device}
use idf_remote.Store.Start.{request_identity}
use idf_remote.Http.Staging.{
  Part, Parts, part, read_multipart_field, stage_parts, all_staged, no_paths,
}
use idf_remote.Http.Staged.{AreContents}
use idf_remote.Http.AnyOrder.{Completes, nothing_taken, stage_parts-Completes}
use idf_remote.Http.Upload.{
  Codec, Upload, max_flash_metadata_bytes, read_metadata, identify_upload, build_plan, stage_upload,
  receive_fields, receive_upload,
}

describe_segments-AreContents :
    (h : Hash) (index : ℕ) (ss : List PreparedSegment)
    → All IsPrepared ss
    → AreContents h (describe_segments h index ss) (map part_of ss)
unfolding describe_segments
describe_segments-AreContents h index [] k = tt
describe_segments-AreContents h index (s ∷ ss) (k, ks) =
    ((length-part_of s k, refl), describe_segments-AreContents h (suc index) ss ks)

segments-from_plan :
    (h : Hash) (id : DeviceId) (plan : PreparedPlan) (flash_baud monitor_baud : ℕ) (no_reset : Bool)
    (m : FlashUploadManifest)
    → from_plan h id plan flash_baud monitor_baud no_reset ≡ ok m
    → m.segments ≡ describe_segments h 0 plan.segments
unfolding from_plan
segments-from_plan h id plan flash_baud monitor_baud no_reset m e =
    let (_, made) = >>-eq-ok (leb (image_total plan.segments) max_upload_bytes) _ _ e in
    sym (ap (λ (x : FlashUploadManifest). x.segments) (ok_injective made))

-- What a request finds that meets no obstacle: its first field is read and is the manifest, the device has
-- a worker, the key is one that is allowed, the files are written and read, and the backend takes the plan.
pub record IsServed (c : Codec) (u : Upload) (m : FlashUploadManifest) (plan : PreparedPlan)
    (i : RequestIdentity) (rest : Parts) : Type 0 where
  pub first : Part
  pub text : Bytes
  pub parts_are : u.parts ≡ part first rest
  pub first_named : first.name ≡ some (codes "metadata")
  pub first_read : read_multipart_field max_flash_metadata_bytes [] first.chunks ≡ ok text
  pub decoded : c.from_slice text ≡ some m
  pub allowed : authorize_device u.runtimes m.device_id ≡ ok tt
  pub identified :
      request_identity c.hash u.key_header c.to_str (codes "flash") (c.canonical m) ≡ ok i
  pub has_staging : u.has_staging ≡ true
  pub is_read_back : u.is_read_back ≡ true
  pub taken : c.backend_validates plan ≡ true

receive_upload-IsServed :
    (c : Codec) (u : Upload) (m : FlashUploadManifest) (plan : PreparedPlan) (i : RequestIdentity)
    (rest : Parts) (contents : List Bytes)
    → IsServed c u m plan i rest
    → validate m ≡ ok tt
    → (stage_parts c.hash m.segments (no_paths m.segments) rest >>= all_staged) ≡ ok contents
    → into_plan c.hash m contents ≡ ok plan
    → receive_upload c u ≡ ok (record { manifest = m; plan = plan; identity = i })
unfolding receive_upload read_metadata receive_fields identify_upload stage_upload build_plan
    eq_bytes
receive_upload-IsServed c u m plan i rest contents k valid staged made = simp (
  k.parts_are, k.first_named, k.first_read, k.decoded, valid, k.allowed, k.identified,
  k.has_staging, staged, k.is_read_back, made, k.taken,
)

-- The way of a plan over HTTP. For a plan that is ready to be written and at most 32 MiB long, in the
-- manifest that the client makes of it: when the fields behind the manifest bring the unpadded images,
-- each once, in any order and in any chunks, and the request meets no obstacle, then what the handler
-- submits is the very plan, with the client's manifest.
pub receive_upload-from_plan :
    (c : Codec) (u : Upload) (id : DeviceId) (plan : PreparedPlan) (flash_baud monitor_baud : ℕ)
    (no_reset : Bool) (m : FlashUploadManifest) (i : RequestIdentity) (rest : Parts)
    → IsLayout plan
    → image_total plan.segments ≤ max_upload_bytes
    → 115200 ≤ flash_baud
    → 0 < monitor_baud
    → from_plan c.hash id plan flash_baud monitor_baud no_reset ≡ ok m
    → Completes c.hash m.segments (map part_of plan.segments) (nothing_taken m.segments) rest
    → IsServed c u m plan i rest
    → receive_upload c u ≡ ok (record { manifest = m; plan = plan; identity = i })
receive_upload-from_plan c u id plan flash_baud monitor_baud no_reset m i rest l fits fast slow made
      complete served =
    let (m', made', valid, back) =
      into_plan-from_plan c.hash id plan flash_baud monitor_baud no_reset l fits fast slow in
    let same : m' ≡ m = ok_injective (sym made' ∙ made) in
    let stated =
      subst (λ ms. AreContents c.hash ms (map part_of plan.segments))
        (sym (segments-from_plan c.hash id plan flash_baud monitor_baud no_reset m made))
        (describe_segments-AreContents c.hash 0 plan.segments l.all_prepared) in
    receive_upload-IsServed c u m plan i rest (map part_of plan.segments) served
      (subst (λ x. validate x ≡ ok tt) same valid)
      (stage_parts-Completes c.hash m.segments (map part_of plan.segments) rest stated complete)
      (subst (λ x. into_plan c.hash x (map part_of plan.segments) ≡ ok plan) same back)
