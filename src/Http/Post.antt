-- ===== src/Http/Post.antt =====
-- The handlers of src/server.rs that submit an operation from a JSON body: `erase_flash`, `read_flash`,
-- `serial_write`, `application_request` with `submit_application_api`, `probe`, `reset` and `monitor`.
-- The reader of headers, base64, the hash and the JSON text of a request are parameters.
use idf_remote.Base.{ℕ, true, Option, some, List, Bytes, Result, ok, err, context, ◌>>=◌, ◌>>◌}
use idf_remote.Base.Text.{codes}
use idf_remote.Device.{DeviceDescriptor}
use idf_remote.Wire.Digest.{Hash}
use idf_remote.Wire.Requests.{RequestError, DeviceRequest, Base64}
use idf_remote.Wire.EraseFlash
use idf_remote.Wire.EraseFlash.{EraseFlashRequest}
use idf_remote.Wire.ReadFlash
use idf_remote.Wire.ReadFlash.{ReadFlashRequest}
use idf_remote.Wire.SerialWrite
use idf_remote.Wire.SerialWrite.{SerialWriteRequest}
use idf_remote.Wire.AppRequest
use idf_remote.Wire.AppRequest.{ApplicationRequest, AppRequestError}
use idf_remote.Application.Json.{Serde, Command}
use idf_remote.Store.Events.{Event}
use idf_remote.Store.Operations.{Operation, RequestIdentity, Store}
use idf_remote.Store.Reading.{authorize_device}
use idf_remote.Store.Start.{request_identity}
use idf_remote.Store.Submit.{Action, Surroundings}
use idf_remote.Store.Admit.{submit}
use idf_remote.Http.Staging
use idf_remote.Http.Staging.{HttpError, request_error, application_error}
use idf_remote.Http.Upload.{map_allowed, map_identity, map_api}

-- A request, by the route that it is posted to.
pub data Posted (N : Type 0) : Type 0 where
  erase_flash : EraseFlashRequest → Posted N
  read_flash : ReadFlashRequest → Posted N
  serial_write : SerialWriteRequest → Posted N
  application : ApplicationRequest N → Posted N
  probe reset monitor : DeviceRequest → Posted N

-- What the handlers call. `parse_key` makes a header of a key, and gives its value.
pub record PostCodec (N : Type 0) : Type 0 where
  pub hash : Hash
  pub base64 : Base64
  pub serde : Serde N
  pub to_str : Bytes → Option Bytes
  pub parse_key : Bytes → Option Bytes
  pub canonical : Posted N → Option Bytes

-- What a handler submits.
pub record Prepared (N : Type 0) : Type 0 where
  pub device : DeviceRequest
  pub action : Action (Command N)
  pub identity : RequestIdentity

abbrev pub map_request : {A : Type 0} → Result RequestError A → Result HttpError A
map_request (err why) = err (request_error why)
map_request (ok a) = ok a

abbrev pub map_application : {A : Type 0} → Result AppRequestError A → Result HttpError A
map_application (err why) = err (application_error why)
map_application (ok a) = ok a

module _ {N : Type 0} (c : PostCodec N) where
  abbrev pub identify : Option Bytes → Bytes → Posted N → Result HttpError RequestIdentity
  identify header name r =
      map_identity (request_identity c.hash header c.to_str name (c.canonical r))

  -- `erase_flash`
  unfoldable pub prepare_erase : Option Bytes → EraseFlashRequest → Result HttpError (Prepared N)
  prepare_erase header r = do
    map_request (EraseFlash.validate r)
    identity ← identify header (codes "erase-flash") (erase_flash r)
    ok (record {
      device = EraseFlash.device_request r;
      action = Action.erase_flash r.flash_baud;
      identity = identity;
    })

  -- `read_flash`
  unfoldable pub prepare_read : Option Bytes → ReadFlashRequest → Result HttpError (Prepared N)
  prepare_read header r = do
    map_request (ReadFlash.validate r)
    identity ← identify header (codes "read-flash") (read_flash r)
    ok (record {
      device = ReadFlash.device_request r;
      action = Action.read_flash r.offset r.size r.flash_baud;
      identity = identity;
    })

  -- `serial_write`
  unfoldable pub prepare_write :
      List DeviceDescriptor → Option Bytes → SerialWriteRequest → Result HttpError (Prepared N)
  prepare_write runtimes header r = do
    map_allowed (authorize_device runtimes r.device_id)
    identity ← identify header (codes "serial-write") (serial_write r)
    bytes ← map_request (SerialWrite.decode c.hash c.base64 r)
    ok (record {
      device = SerialWrite.device_request r;
      action = Action.serial_write bytes r.digest_text r.baud r.timeout_ms;
      identity = identity;
    })

  -- `submit_application_api`, up to the call of `submit`.
  unfoldable pub prepare_application : Bytes → ApplicationRequest N → Result HttpError (Prepared N)
  prepare_application key r = do
    map_application (AppRequest.validate c.serde r)
    value ← context (c.parse_key key) Staging.invalid_key
    identity ← identify (some value) (codes "application") (application r)
    ok (record {
      device = record {
        device_id = r.device_id;
        monitor_baud = r.monitor_baud;
        no_reset_before = true;
      };
      action = Action.application r.command r.timeout_ms;
      identity = identity;
    })

  -- `application_request`
  unfoldable pub prepare_application_request :
      Option Bytes → ApplicationRequest N → Result HttpError (Prepared N)
  prepare_application_request header r = do
    value ← context header Staging.missing_key
    key ← context (c.to_str value) Staging.missing_key
    prepare_application key r

  -- `probe`, `reset` and `monitor`
  unfoldable pub prepare_device :
      Option Bytes
      → Bytes
      → Posted N
      → DeviceRequest
      → Action (Command N)
      → Result HttpError (Prepared N)
  prepare_device header name r device action = do
    identity ← identify header name r
    ok (record { device = device; action = action; identity = identity })

  -- The route of a request.
  unfoldable pub prepare :
      List DeviceDescriptor → Option Bytes → Posted N → Result HttpError (Prepared N)
  prepare runtimes header (erase_flash r) = prepare_erase header r
  prepare runtimes header (read_flash r) = prepare_read header r
  prepare runtimes header (serial_write r) = prepare_write runtimes header r
  prepare runtimes header (application r) = prepare_application_request header r
  prepare runtimes header (probe r) = prepare_device header (codes "probe") (probe r) r Action.probe
  prepare runtimes header (reset r) = prepare_device header (codes "reset") (reset r) r Action.reset
  prepare runtimes header (monitor r) =
      prepare_device header (codes "monitor") (monitor r) r Action.monitor

module _ {N : Type 0} {Value : Type 0} (encoded_len : Event Value → ℕ) (empty_object : Value) where
  unfoldable pub submit_prepared :
      Surroundings
      → Result HttpError (Prepared N)
      → Store Value
      → Store Value × Result HttpError (Operation Value)
  submit_prepared w (err why) s = (s, err why)
  submit_prepared w (ok x) s =
      map_api (submit encoded_len empty_object w x.device x.action x.identity s)

  unfoldable pub post :
      PostCodec N
      → List DeviceDescriptor
      → Option Bytes
      → Posted N
      → Surroundings
      → Store Value
      → Store Value × Result HttpError (Operation Value)
  post c runtimes header r w s = submit_prepared w (prepare c runtimes header r) s
