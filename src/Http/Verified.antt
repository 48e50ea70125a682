-- ===== src/Http/Verified.antt =====
-- What a flash upload of src/server.rs comes to, over the whole of the handler.
use idf_remote.Base.{
  ok_injective, ℕ, ◌≡◌, true, inl, inr, ◌⊎◌, List, Bytes, Result, Result-cases, ok, err, context,
  ◌>>=◌, >>=-eq-ok, >>-eq-ok,
}
use mathlib.Core.Path.{subst}
use idf_remote.Base.Text.{codes}
use idf_remote.Plan.Types.{PreparedPlan}
use idf_remote.Plan.Layout.{IsLayout}
use idf_remote.Wire.Digest.{Hash}
use idf_remote.Wire.Manifest.{FlashUploadManifest, UploadError, validate, into_plan}
use idf_remote.Wire.Host.{into_plan-IsLayout}
use idf_remote.Store.Events.{Event}
use idf_remote.Store.Operations.{RequestIdentity, Store}
use idf_remote.Store.Reading.{ReadError, authorize_device}
use idf_remote.Store.Start.{IdentityError, IsKey, request_identity-IsKey}
use idf_remote.Store.Submit.{Surroundings}
use idf_remote.Store.Admit.{submit}
use idf_remote.Http.Staging.{
  HttpError, Parts, staging_failed, invalid_metadata, unreadable_part, backend_refused, no_paths,
  stage_parts, all_staged,
}
use idf_remote.Http.Staged.{AreContents, staged-AreContents, into_plan-AreContents}
use idf_remote.Http.Upload.{
  Codec, Upload, Submission, map_upload, map_identity, map_allowed, read_metadata, build_plan,
  identify_upload, stage_upload, receive_fields, receive_upload, device_request, map_api,
  flash_action, submit_upload, flash_upload,
}

-- A plan that may be handed over: it comes from a manifest that is valid and contents that it states, is
-- ready to be written, and the backend takes it.
pub record IsVerified (c : Codec) (u : Upload) (x : Submission) : Type 0 where
  pub contents : List Bytes
  pub valid : validate x.manifest ≡ ok tt
  pub allowed : authorize_device u.runtimes x.manifest.device_id ≡ ok tt
  pub as_stated : AreContents c.hash x.manifest.segments contents
  pub plan_is : into_plan c.hash x.manifest contents ≡ ok x.plan
  pub ready : IsLayout x.plan
  pub accepted : c.backend_validates x.plan ≡ true
  pub keyed : IsKey x.identity.key

map_upload-eq-ok : {A : Type 0} (r : Result UploadError A) (a : A) → map_upload r ≡ ok a → r ≡ ok a
map_upload-eq-ok (err why) a e = absurd (cc)
map_upload-eq-ok (ok x) a e = cc

build_plan_tests :
    (c : Codec) (m : FlashUploadManifest) (read_back : _) (contents : List Bytes)
    (plan : PreparedPlan)
    → build_plan c m read_back contents ≡ ok plan
    → (into_plan c.hash m contents ≡ ok plan) × (c.backend_validates plan ≡ true)
unfolding build_plan
build_plan_tests c m read_back contents plan e =
    let (_, e1) = >>-eq-ok read_back unreadable_part _ e in
    let (p, made, e2) = >>=-eq-ok (map_upload (into_plan c.hash m contents)) _ e1 in
    let (taken, e3) = >>-eq-ok (c.backend_validates p) backend_refused _ e2 in
    let is : p ≡ plan = cc in (map_upload-eq-ok _ plan (rw is at made), rw is at taken)

pub map_identity-eq-ok :
    {A : Type 0} (r : Result IdentityError A) (a : A) → map_identity r ≡ ok a → r ≡ ok a
map_identity-eq-ok (err why) a e = absurd (cc)
map_identity-eq-ok (ok x) a e = cc

map_allowed-eq-ok : {A : Type 0} (r : Result ReadError A) (a : A) → map_allowed r ≡ ok a → r ≡ ok a
map_allowed-eq-ok (err why) a e = absurd (cc)
map_allowed-eq-ok (ok x) a e = cc

identify_upload_tests :
    (c : Codec) (u : Upload) (m : FlashUploadManifest) (i : RequestIdentity)
    → identify_upload c u m ≡ ok i
    → (validate m ≡ ok tt) × (authorize_device u.runtimes m.device_id ≡ ok tt) × IsKey i.key
unfolding identify_upload
identify_upload_tests c u m i e =
    let (_, valid, e1) = >>=-eq-ok (map_upload (validate m)) _ e in
    let (_, allowed, e2) = >>=-eq-ok (map_allowed (authorize_device u.runtimes m.device_id)) _ e1 in
    let (text, _, keyed, _, _) =
      request_identity-IsKey c.hash u.key_header c.to_str (codes "flash") (c.canonical m) i
        (map_identity-eq-ok _ i e2) in
    (
      map_upload-eq-ok (validate m) tt valid,
      map_allowed-eq-ok (authorize_device u.runtimes m.device_id) tt allowed,
      keyed,
    )

stage_upload_tests :
    (c : Codec) (u : Upload) (m : FlashUploadManifest) (rest : Parts) (plan : PreparedPlan)
    → stage_upload c u m rest ≡ ok plan
    → (contents : List Bytes) × AreContents c.hash m.segments contents
      × (into_plan c.hash m contents ≡ ok plan)
      × (c.backend_validates plan ≡ true)
unfolding stage_upload
stage_upload_tests c u m rest plan e =
    let (_, e1) = >>-eq-ok u.has_staging staging_failed _ e in
    let (contents, staged, e2) =
      >>=-eq-ok (stage_parts c.hash m.segments (no_paths m.segments) rest >>= all_staged) _ e1 in
    (
      contents,
      staged-AreContents c.hash m.segments rest contents staged,
      (build_plan_tests c m u.is_read_back contents plan e2).0,
      (build_plan_tests c m u.is_read_back contents plan e2).1,
    )

receive_fields-IsVerified :
    (c : Codec) (u : Upload) (m : FlashUploadManifest) (rest : Parts) (x : Submission)
    → receive_fields c u m rest ≡ ok x
    → IsVerified c u x
unfolding receive_fields
receive_fields-IsVerified c u m rest x e =
    let (i, identified, e1) = >>=-eq-ok (identify_upload c u m) _ e in
    let (plan, staged, e2) = >>=-eq-ok (stage_upload c u m rest) _ e1 in
    let (valid, allowed, keyed) = identify_upload_tests c u m i identified in
    let (contents, as_stated, made, taken) = stage_upload_tests c u m rest plan staged in
    subst (IsVerified c u) (ok_injective e2) (record {
      contents = contents;
      valid = valid;
      allowed = allowed;
      as_stated = as_stated;
      plan_is = made;
      ready = (into_plan-IsLayout c.hash m contents plan made).0;
      accepted = taken;
      keyed = keyed;
    })

receive_upload-IsVerified :
    (c : Codec) (u : Upload) (x : Submission) → receive_upload c u ≡ ok x → IsVerified c u x
unfolding receive_upload
receive_upload-IsVerified c u x e =
    let ((metadata, rest), _, e1) = >>=-eq-ok (read_metadata u.parts) _ e in
    let (m, _, e2) = >>=-eq-ok (context (c.from_slice metadata) invalid_metadata) _ e1 in
    receive_fields-IsVerified c u m rest x e2

-- After the tests that `flash` makes while the parts arrive, `into_plan` finds nothing to refuse: of a valid
-- manifest, whatever parts come in whatever order and chunks, once no part is missing they make a plan,
-- and it is ready to be written.
pub into_plan-staged :
    (h : Hash) (m : FlashUploadManifest) (ps : Parts) (contents : List Bytes)
    → validate m ≡ ok tt
    → (stage_parts h m.segments (no_paths m.segments) ps >>= all_staged) ≡ ok contents
    → (plan : PreparedPlan) × (into_plan h m contents ≡ ok plan) × IsLayout plan
into_plan-staged h m ps contents valid e =
    let (plan, made) =
      into_plan-AreContents h m contents valid (staged-AreContents h m.segments ps contents e) in
    (plan, made, (into_plan-IsLayout h m contents plan made).0)

module _ {Value : Type 0} (Command : Type 0) (encoded_len : Event Value → ℕ)
    (empty_object : Value) where
  -- A flash upload either is refused and leaves the store as it was, or all of this holds: its manifest is
  -- valid and names a device that has a worker, its contents are those that the manifest states, the plan
  -- that they make is ready to be written and taken by the backend, the key is one that is allowed; and
  -- what becomes of the store and of the request is what `submit` makes of that plan.
  pub flash_upload-IsVerified :
      (c : Codec) (u : Upload) (w : Surroundings) (s : Store Value)
      → ((e : HttpError) × (flash_upload Command encoded_len empty_object c u w s ≡ (s, err e)))
        ⊎ ((x : Submission) × IsVerified c u x
            × (flash_upload Command encoded_len empty_object c u w s
                ≡ map_api (
                    submit encoded_len empty_object w
                      (device_request x.manifest)
                      (flash_action Command encoded_len empty_object x)
                      x.identity
                      s)))
  unfolding flash_upload submit_upload
  flash_upload-IsVerified c u w s = elim (Result-cases (receive_upload c u)) [
    | inl (x, e) ↦ inr (x, receive_upload-IsVerified c u x e, rw e)
    | inr (why, e) ↦ inl (why, rw e)
  ]
