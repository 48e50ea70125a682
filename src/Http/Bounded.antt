-- ===== src/Http/Bounded.antt =====
-- The actions that the handlers of src/server.rs submit, against the bounds of src/wire.rs.
use idf_remote.Base.{
  ok_injective, err-ne-ok, Result-cases, inl, inr, ℕ, ◌+◌, ◌^◌, ◌≤◌, ◌≡◌, refl, arith, ◌&&◌, Option,
  some, none, List, Bytes, length, is_empty_iff, eq_bytes, eq_bytes→eq, leb, ◌==◌, Result, ok, err,
  context, ◌>>=◌, >>=-eq-ok, >>-eq-ok,
}
use mathlib.Core.Path.{subst}
use idf_remote.Base.Text.{codes}
use idf_remote.Device.{DeviceDescriptor}
use idf_remote.Wire.Digest.{sha256}
use idf_remote.Wire.Requests.{
  RequestError, DeviceRequest, max_read_bytes, max_serial_write_bytes, invalid_base64,
}
use idf_remote.Wire.EraseFlash
use idf_remote.Wire.EraseFlash.{EraseFlashRequest}
use idf_remote.Wire.ReadFlash
use idf_remote.Wire.ReadFlash.{ReadFlashRequest}
use idf_remote.Wire.SerialWrite
use idf_remote.Wire.SerialWrite.{SerialWriteRequest}
use idf_remote.Wire.AppRequest
use idf_remote.Wire.AppRequest.{ApplicationRequest, AppRequestError, check_command}
use idf_remote.Application.Json.{Command, payload}
use idf_remote.Store.Operations.{RequestIdentity}
use idf_remote.Store.Reading.{authorize_device}
use idf_remote.Store.Start.{IsKey, request_identity-IsKey}
use idf_remote.Store.Submit.{Action}
use idf_remote.Http.Staging
use idf_remote.Http.Staging.{HttpError}
use idf_remote.Http.Upload.{map_allowed}
use idf_remote.Http.Verified.{map_identity-eq-ok}
use idf_remote.Http.Post.{
  Posted, erase_flash, read_flash, serial_write, application, probe, reset, monitor, PostCodec,
  Prepared, map_request, map_application, identify, prepare_erase, prepare_read, prepare_write,
  prepare_application, prepare_application_request, prepare_device, prepare,
}

module _ {N : Type 0} (c : PostCodec N) where
  -- A command that is there can be sent: it has a payload.
  abbrev pub IsSendable : Option (Command N) → Type 0
  IsSendable none = Unit
  IsSendable (some command) = (bytes : Bytes) × (payload c.serde command ≡ ok bytes)

  -- An action within the bounds. No plan comes from a JSON body.
  abbrev pub IsBounded : Action (Command N) → Type 0
  IsBounded Action.probe = Unit
  IsBounded Action.reset = Unit
  IsBounded Action.monitor = Unit
  IsBounded (Action.application command timeout_ms) =
      (1 ≤ timeout_ms) × (timeout_ms ≤ 30000) × IsSendable command
  IsBounded (Action.flash plan baud warnings) = ⊥
  IsBounded (Action.read_flash offset size baud) =
      (1 ≤ size) × (size ≤ max_read_bytes) × (offset + size ≤ 2 ^ 32) × (115200 ≤ baud)
  IsBounded (Action.erase_flash baud) = 115200 ≤ baud
  IsBounded (Action.serial_write bytes digest baud timeout_ms) =
      (1 ≤ length bytes)
      × (length bytes ≤ max_serial_write_bytes)
      × (sha256 c.hash bytes ≡ digest)
      × (1 ≤ baud)
      × (1 ≤ timeout_ms)
      × (timeout_ms ≤ 30000)

  pub record IsAllowed (x : Prepared N) : Type 0 where
    pub bounded : IsBounded x.action
    pub keyed : IsKey x.identity.key

  read_flash-bounds :
      (r : ReadFlashRequest)
      → ReadFlash.validate r ≡ ok tt
      → IsBounded (Action.read_flash r.offset r.size r.flash_baud)
  unfolding ReadFlash.validate
  read_flash-bounds r e = ground arith

  erase_flash-bounds :
      (r : EraseFlashRequest) → EraseFlash.validate r ≡ ok tt → 115200 ≤ r.flash_baud
  unfolding EraseFlash.validate
  erase_flash-bounds r e = ground arith

  SerialWrite-bounds :
      (bytes : Bytes) (baud timeout_ms : ℕ)
      → SerialWrite.validate bytes baud timeout_ms ≡ ok tt
      → (1 ≤ length bytes)
        × (length bytes ≤ max_serial_write_bytes)
        × (1 ≤ baud)
        × (1 ≤ timeout_ms)
        × (timeout_ms ≤ 30000)
  unfolding SerialWrite.validate
  SerialWrite-bounds bytes baud timeout_ms e = ground (arith, (is_empty_iff bytes).0)

  SerialWrite-decode_bounds :
      (r : SerialWriteRequest) (bytes : Bytes)
      → SerialWrite.decode c.hash c.base64 r ≡ ok bytes
      → IsBounded (Action.serial_write bytes r.digest_text r.baud r.timeout_ms)
  unfolding SerialWrite.decode
  SerialWrite-decode_bounds r bytes e =
      let (_, e1) = >>-eq-ok (leb (length r.text) SerialWrite.max_encoded_len) _ _ e in
      let (_, e2) = >>-eq-ok (length r.digest_text == 64) _ _ e1 in
      let (b, _, e3) = >>=-eq-ok (context (c.base64.decode r.text) invalid_base64) _ e2 in
      let (_, valid, e4) = >>=-eq-ok (SerialWrite.validate b r.baud r.timeout_ms) _ e3 in
      let (digest, e5) = >>-eq-ok (eq_bytes (sha256 c.hash b) r.digest_text) _ _ e4 in
      let (some_of, few, baud, slow, fast) = SerialWrite-bounds b r.baud r.timeout_ms valid in
      subst (λ bs. IsBounded (Action.serial_write bs r.digest_text r.baud r.timeout_ms))
        (ok_injective e5)
        (some_of, few, eq_bytes→eq (sha256 c.hash b) r.digest_text digest, baud, slow, fast)

  check_command-IsSendable :
      (o : Option (Command N)) → check_command c.serde o ≡ ok tt → IsSendable o
  unfolding check_command
  check_command-IsSendable none e = tt
  check_command-IsSendable (some command) e = elim (Result-cases (payload c.serde command)) [
    | inl (bytes, f) ↦ (bytes, f)
    | inr (why, f) ↦ absurd (err-ne-ok (rw (f, check_command) at e))
  ]

  AppRequest-bounds :
      (r : ApplicationRequest N)
      → AppRequest.validate c.serde r ≡ ok tt
      → IsBounded (Action.application r.command r.timeout_ms)
  unfolding AppRequest.validate
  AppRequest-bounds r e =
      let (_, e1) = >>-eq-ok (leb 1 r.monitor_baud) _ _ e in
      let (timed, e2) = >>-eq-ok (leb 1 r.timeout_ms && leb r.timeout_ms 30000) _ _ e1 in
      (ground arith, ground arith, check_command-IsSendable r.command e2)

  identify-IsKey :
      (header : Option Bytes) (name : Bytes) (r : Posted N) (i : RequestIdentity)
      → identify c header name r ≡ ok i
      → IsKey i.key
  identify-IsKey header name r i e =
      let (text, _, keyed, _, _) =
        request_identity-IsKey c.hash header c.to_str name (c.canonical r) i
          (map_identity-eq-ok _ i e) in
      keyed

  -- A handler that ends in the identity of its request.
  identified :
      (header : Option Bytes) (name : Bytes) (r : Posted N) (device : DeviceRequest)
      (action : Action (Command N)) (x : Prepared N)
      → IsBounded action
      → (identify c header name r >>= λ i.
          ok (record { device = device; action = action; identity = i }))
        ≡ ok x
      → IsAllowed x
  identified header name r device action x bounded e =
      let (i, named, last) = >>=-eq-ok (identify c header name r) _ e in
      subst IsAllowed (ok_injective last)
        (record { bounded = bounded; keyed = identify-IsKey header name r i named })

  map_request-eq-ok :
      {A : Type 0} (r : Result RequestError A) (a : A) → map_request r ≡ ok a → r ≡ ok a
  map_request-eq-ok (err why) a e = absurd (cc)
  map_request-eq-ok (ok x) a e = cc

  prepare_write-IsAllowed :
      (runtimes : List DeviceDescriptor) (header : Option Bytes) (r : SerialWriteRequest)
      (x : Prepared N)
      → prepare_write c runtimes header r ≡ ok x
      → IsAllowed x
  unfolding prepare_write
  prepare_write-IsAllowed runtimes header r x e =
      let (_, _, e1) = >>=-eq-ok (map_allowed (authorize_device runtimes r.device_id)) _ e in
      let (i, named, e2) =
        >>=-eq-ok (identify c header (codes "serial-write") (serial_write r)) _ e1 in
      let (bytes, decoded, e3) =
        >>=-eq-ok (map_request (SerialWrite.decode c.hash c.base64 r)) _ e2 in
      subst IsAllowed (ok_injective e3) (record {
        bounded = SerialWrite-decode_bounds r bytes (map_request-eq-ok _ bytes decoded);
        keyed = identify-IsKey header (codes "serial-write") (serial_write r) i named;
      })

  map_application-eq-ok :
      (r : Result AppRequestError (Unit {0})) → map_application r ≡ ok tt → r ≡ ok tt
  map_application-eq-ok (err why) e = absurd (cc)
  map_application-eq-ok (ok tt) e = refl

  prepare_application-IsAllowed :
      (key : Bytes) (r : ApplicationRequest N) (x : Prepared N)
      → prepare_application c key r ≡ ok x
      → IsAllowed x
  unfolding prepare_application
  prepare_application-IsAllowed key r x e =
      let (_, valid, e1) = >>=-eq-ok (map_application (AppRequest.validate c.serde r)) _ e in
      let (value, _, e2) = >>=-eq-ok (context (c.parse_key key) Staging.invalid_key) _ e1 in
      identified (some value) (codes "application") (application r) _
        (Action.application r.command r.timeout_ms) x
        (AppRequest-bounds r (map_application-eq-ok _ valid)) e2

  -- Whatever is posted as JSON, and on whichever route: what is submitted is within the bounds. A read is
  -- of 1 byte to 32 MiB and within 32-bit addresses, a write of 1 byte to 64 KiB that have the digest that
  -- the request states, a timeout of 1 ms to 30 s, a command one that has a payload, the flash baud at
  -- least 115200; the key is one that is allowed; and no plan is flashed.
  pub prepare-IsAllowed :
      (runtimes : List DeviceDescriptor) (header : Option Bytes) (r : Posted N) (x : Prepared N)
      → prepare c runtimes header r ≡ ok x
      → IsAllowed x
  unfolding prepare prepare_erase prepare_read prepare_application_request prepare_device
  prepare-IsAllowed runtimes header (erase_flash r) x e =
      let (_, valid, e1) = >>=-eq-ok (map_request (EraseFlash.validate r)) _ e in
      identified header (codes "erase-flash") (erase_flash r) _ (Action.erase_flash r.flash_baud) x
        (erase_flash-bounds r (map_request-eq-ok (EraseFlash.validate r) tt valid)) e1
  prepare-IsAllowed runtimes header (read_flash r) x e =
      let (_, valid, e1) = >>=-eq-ok (map_request (ReadFlash.validate r)) _ e in
      identified header (codes "read-flash") (read_flash r) _
        (Action.read_flash r.offset r.size r.flash_baud) x
        (read_flash-bounds r (map_request-eq-ok (ReadFlash.validate r) tt valid)) e1
  prepare-IsAllowed runtimes header (serial_write r) x e =
      prepare_write-IsAllowed runtimes header r x e
  prepare-IsAllowed runtimes header (application r) x e =
      let (value, _, e1) = >>=-eq-ok (context header Staging.missing_key) _ e in
      let (key, _, e2) = >>=-eq-ok (context (c.to_str value) Staging.missing_key) _ e1 in
      prepare_application-IsAllowed key r x e2
  prepare-IsAllowed runtimes header (probe r) x e =
      identified header (codes "probe") (probe r) r Action.probe x tt e
  prepare-IsAllowed runtimes header (reset r) x e =
      identified header (codes "reset") (reset r) r Action.reset x tt e
  prepare-IsAllowed runtimes header (monitor r) x e =
      identified header (codes "monitor") (monitor r) r Action.monitor x tt e
