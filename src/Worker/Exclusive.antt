-- ===== src/Worker/Exclusive.antt =====
-- A job of `Service::worker` of src/server.rs that needs the port for itself: it closes the monitor, calls the
-- backend and opens the monitor again. What the backend answers is a record.
use idf_remote.Base.{
  ℕ, Bool, true, false, ◌&&◌, List, [], ◌∷◌, Option, none, some, Bytes, ◌==◌, if◌then◌else◌, Result,
  err, ok, context, ensure, ◌>>=◌, ◌>>◌,
}
use idf_remote.Base.Text.{codes}
use idf_remote.Device.{DeviceId, DeviceDescriptor}
use idf_remote.Wire.Manifest.{FlashWarning}
use idf_remote.Store.Operations.{ArtifactRecord, Store, ApiError}
use idf_remote.Store.Admit.{refresh_device}
use idf_remote.Store.Submit.{is_available}
use idf_remote.Application.Json.{Value, null}
use idf_remote.Duplex.State.{is_some}
use idf_remote.Worker.State.{Host, Worker, no_line, emit_at, report_session}
use idf_remote.Worker.Jobs.{runs_at}

-- The other actions. The plan, the speed and the offset are only handed to the backend.
pub data PortAction : Type 0 where
  probe reset monitor erase_flash : PortAction
  flash : List FlashWarning → PortAction
  read_flash : (size : ℕ) → PortAction

pub record PortJob : Type 0 where
  pub id : Bytes
  pub monitor_baud : ℕ  -- the field of `request`
  pub action : PortAction

-- What comes from outside: the answer of `backend.refresh`, errors of `open` and `into_monitor` if there
-- are any, the progress of a flash, what the session returns for the action, and the file of a read.
pub record Answers (N : Type 0) : Type 0 where
  pub refreshed : Option DeviceDescriptor
  pub open_error : Option Bytes
  pub progress : List (Value N)
  pub outcome : Result Bytes (Value N)
  pub artifact : Result Bytes ArtifactRecord
  pub handoff_error : Option Bytes

-- Values that `json!` makes of answers, and the insertion of warnings into an object.
pub record Reports (N : Type 0) : Type 0 where
  pub reset_done : Value N
  pub monitor_open : Value N
  pub monitor_shared : Value N
  pub erased : Value N → Value N
  pub with_warnings : Value N → List FlashWarning → Option (Value N)

abbrev pub is_monitor : PortAction → Bool
is_monitor monitor = true
is_monitor _ = false

abbrev pub is_erase : PortAction → Bool
is_erase erase_flash = true
is_erase _ = false

-- The value of the job with the file that it has completed.
abbrev pub Finished : Type 0 → Type 0
Finished N = Value N × Option ArtifactRecord

module _ {N : Type 0} (host : Host N) (reports : Reports N) (device_id : DeviceId) where
  -- `if !preserves_monitor { .. }`
  unfoldable pub close_monitor : Worker N → Result ApiError (Worker N)
  close_monitor w = do
    s ←
        report_session host device_id w.store (is_some w.duplex.session)
          (codes "hardware operation")
    ok (record w {
      store = s;
      duplex = record (w.duplex) { session = none };
      reader = false;
      reader_baud = none;
      decoder = no_line;
    })

  unfoldable pub emit_progress :
      Store (Value N) → List (Value N) → Result ApiError (Store (Value N))
  emit_progress s [] = ok s
  emit_progress s (p ∷ ps) = do
    s' ← emit_at host device_id s (codes "progress") p
    emit_progress s' ps

  -- The result of a flash: the board, with the warnings if there are any.
  unfoldable pub flash_result : Value N → List FlashWarning → Result Bytes (Value N)
  flash_result info [] = ok info
  flash_result info (x ∷ xs) =
      context (reports.with_warnings info (x ∷ xs)) (codes "flash result must be a JSON object")

  -- An event for a value that the backend has returned, and what follows.
  unfoldable pub report_info :
      Store (Value N)
      → Bytes
      → Result Bytes (Value N)
      → (Value N → Result Bytes (Finished N))
      → Result ApiError (Store (Value N) × Result Bytes (Finished N))
  report_info s kind (err why) next = ok (s, err why)
  report_info s kind (ok info) next = do s' ← emit_at host device_id s kind info; ok (s', next info)

  -- The arm of the action in `match &job.action`: the store, and the result.
  unfoldable pub run_action :
      Store (Value N)
      → PortAction
      → Answers N
      → Result ApiError (Store (Value N) × Result Bytes (Finished N))
  run_action s probe a = ok (s, a.outcome >>= (λ value. ok (value, none)))
  run_action s reset a = ok (s, ok (reports.reset_done, none))
  run_action s monitor a = ok (s, ok (reports.monitor_open, none))
  run_action s (flash warnings) a = do
    s' ← emit_progress s a.progress
    report_info s' (codes "flash_verified") a.outcome
        (λ info. flash_result info warnings >>= (λ value. ok (value, none)))
  run_action s (read_flash size) a = ok (
    s,
    a.outcome >>= (λ value. a.artifact >>= (λ file.
        ensure (file.metadata.size == size) (codes "read artifact size mismatch")
        >> ok (value, some file))),
  )
  run_action s erase_flash a =
      report_info s (codes "flash_erased") a.outcome (λ info. ok (reports.erased info, none))

  -- `into_monitor`, which an erase does without, and after a failure.
  unfoldable pub hand_off :
      Worker N
      → PortJob
      → Option Bytes
      → Result Bytes (Finished N)
      → Worker N × Result Bytes (Finished N)
  hand_off w job error (err why) = (w, err why)
  hand_off w job none (ok done) =
      if is_erase job.action
      then (w, ok done)
      else (record w { reader = true; reader_baud = some job.monitor_baud }, ok done)
  hand_off w job (some why) (ok done) = if is_erase job.action then (w, ok done) else (w, err why)

  -- The closure from `self.backend.open` on.
  unfoldable pub use_port :
      Worker N
      → PortJob
      → Answers N
      → Option Bytes
      → Result ApiError (Worker N × Result Bytes (Finished N))
  use_port w job a (some why) = ok (w, err why)
  use_port w job a none = do
    ran ← run_action w.store job.action a
    ok (hand_off (record w { store = ran.0 }) job a.handoff_error ran.1)

  -- The closure from the test on the session of an application on.
  unfoldable pub share_or_use :
      Worker N → PortJob → Answers N → Result ApiError (Worker N × Result Bytes (Finished N))
  share_or_use w job a =
      let used = use_port w job a a.open_error in
      if is_monitor job.action && is_some w.duplex.session
      then (if runs_at job.monitor_baud w.reader_baud
          then ok (w, ok (reports.monitor_shared, none))
          else ok (w, err (codes "active application uses a different baud")))
      else used

  unfoldable pub use_refreshed :
      Worker N
      → PortJob
      → Answers N
      → Store (Value N) × Result ApiError DeviceDescriptor
      → Result ApiError (Worker N × Result Bytes (Finished N))
  use_refreshed w job a (s, err why) = ok (record w { store = s }, err (host.api_text why))
  use_refreshed w job a (s, ok device) =
      let used = share_or_use (record w { store = s }) job a in
      if is_available device.status.availability
      then used
      else ok (record w { store = s }, err (host.unavailable device.status.availability))

  -- The closure of the job.
  unfoldable pub try_port :
      Worker N → PortJob → Answers N → Bool → Result ApiError (Worker N × Result Bytes (Finished N))
  try_port w job a preserves =
      let reused = share_or_use w job a in
      let refreshed = use_refreshed w job a (
        refresh_device host.json.encoded_len null w.store device_id a.refreshed
          (w.store.devices device_id.text)) in
      if preserves && w.reader && runs_at job.monitor_baud w.reader_baud then reused else refreshed
