-- ===== src/Worker/Jobs.antt =====
-- A job of the stream in `Service::worker` of src/server.rs: a request of the application or input.
use idf_remote.Base.{
  ℕ, Bool, true, false, not, ◌&&◌, [], ◌∷◌, Option, none, some, Bytes, length, ◌==◌, if◌then◌else◌,
  Result, err, ok, ◌>>=◌,
}
use idf_remote.Base.Text.{codes}
use idf_remote.Device.{DeviceId, DeviceDescriptor}
use idf_remote.Store.Operations.{Store, ApiError}
use idf_remote.Store.Completion.{Lane, application, input}
use idf_remote.Store.Admit.{refresh_device}
use idf_remote.Store.Submit.{is_available}
use idf_remote.Application.Json.{Value, null, Command}
use idf_remote.Duplex.State.{
  Duplex, DuplexError, has_pending, is_some, start_application, start_input,
}
use idf_remote.Worker.State.{Host, Worker, no_line, finish_at}
use idf_remote.Worker.Idle.{Moment}

-- The two actions that `matches!` tells from the others.
pub data StreamAction (N : Type 0) : Type 0 where
  ask : Option (Command N) → ℕ → StreamAction N
  type_in : (bytes digest_text : Bytes) → (baud timeout_ms : ℕ) → StreamAction N

pub record Job (N : Type 0) : Type 0 where
  pub id : Bytes
  pub monitor_baud : ℕ  -- the field of `request`
  pub action : StreamAction N

abbrev pub lane_of : {N : Type 0} → StreamAction N → Lane
lane_of (ask command timeout_ms) = application
lane_of (type_in bytes digest_text baud timeout_ms) = input

unfoldable pub baud_of : {N : Type 0} → ℕ → StreamAction N → ℕ
baud_of monitor_baud (ask command timeout_ms) = monitor_baud
baud_of monitor_baud (type_in bytes digest_text baud timeout_ms) = baud

-- `matches!(job.action, Action::Application { command: None, .. })`, and with a command.
abbrev pub is_connect : {N : Type 0} → StreamAction N → Bool
is_connect (ask none timeout_ms) = true
is_connect (ask (some c) timeout_ms) = false
is_connect (type_in bytes digest_text baud timeout_ms) = false

abbrev pub is_command : {N : Type 0} → StreamAction N → Bool
is_command (ask none timeout_ms) = false
is_command (ask (some c) timeout_ms) = true
is_command (type_in bytes digest_text baud timeout_ms) = false

-- `reader_baud == Some(baud)`
abbrev pub runs_at : ℕ → Option ℕ → Bool
runs_at baud none = false
runs_at baud (some b) = b == baud

module _ {N : Type 0} (host : Host N) (device_id : DeviceId) where
  -- What the scheduler has done with the job, and the text of its error.
  unfoldable pub started_with :
      Worker N → Duplex N × Result DuplexError (Unit {0}) → Worker N × Result Bytes (Unit {0})
  started_with w (d, err why) = (record w { duplex = d }, err (host.duplex_text why))
  started_with w (d, ok done) = (record w { duplex = d }, ok tt)

  -- The calls of the scheduler, with a reading of the clock and a nonce.
  unfoldable pub start_action :
      Worker N → Bytes → (time fresh : ℕ) → StreamAction N → Worker N × Result Bytes (Unit {0})
  start_action w id time fresh (ask command timeout_ms) =
      started_with w (start_application host.serde w.duplex id command time timeout_ms fresh)
  start_action w id time fresh (type_in bytes digest_text baud timeout_ms) =
      started_with w (
        start_input w.duplex id bytes time timeout_ms
          (host.written (length bytes) digest_text baud))

  -- `self.backend.open(..)?.into_monitor(..)?`, after the port in use is closed.
  unfoldable pub open_port : Worker N → ℕ → Option Bytes → Worker N × Result Bytes (Unit {0})
  open_port w baud none =
      (record w { reader = true; reader_baud = some baud; decoder = no_line }, ok tt)
  open_port w baud (some why) = (record w { reader = false; reader_baud = none }, err why)

  unfoldable pub open_refreshed :
      Worker N
      → ℕ
      → Moment
      → Store (Value N) × Result ApiError DeviceDescriptor
      → Worker N × Result Bytes (Unit {0})
  open_refreshed w baud m (s, err why) = (record w { store = s }, err (host.api_text why))
  open_refreshed w baud m (s, ok device) =
      let opened = open_port (record w { store = s }) baud m.open_error in
      if is_available device.status.availability
      then opened
      else (record w { store = s }, err (host.unavailable device.status.availability))

  -- `if reader.is_none() || reader_baud != Some(baud)`
  unfoldable pub open_stream : Worker N → Bool → ℕ → Moment → Worker N × Result Bytes (Unit {0})
  open_stream w command baud m =
      let opened = open_refreshed w baud m (
        refresh_device host.json.encoded_len null w.store device_id m.refreshed
          (w.store.devices device_id.text)) in
      if w.reader && runs_at baud w.reader_baud
      then (w, ok tt)
      else if command
      then (w, err (codes "application not connected; use app-connect first"))
      else opened

  unfoldable pub start_opened :
      Bytes
      → (time fresh : ℕ) → StreamAction N
      → Worker N × Result Bytes (Unit {0})
      → Worker N × Result Bytes (Unit {0})
  start_opened id time fresh action (w, err why) = (w, err why)
  start_opened id time fresh action (w, ok done) = start_action w id time fresh action

  -- The closure of the job.
  unfoldable pub try_job :
      Worker N → Job N → Moment → (fresh : ℕ) → Worker N × Result Bytes (Unit {0})
  try_job w job m fresh =
      let baud = baud_of job.monitor_baud job.action in
      let same = runs_at baud w.reader_baud in
      let tried =
        start_opened job.id m.time fresh job.action
          (open_stream w (is_command job.action) baud m) in
      if has_pending w.duplex && not same
      then (w, err (codes "active stream uses a different baud"))
      else if is_some w.duplex.session && not (is_connect job.action) && not same
      then (w, err (codes "active application uses a different baud"))
      else tried

  -- What follows the closure.
  unfoldable pub after_job :
      Bytes → Lane → Worker N × Result Bytes (Unit {0}) → Result ApiError (Worker N)
  after_job id lane (w, ok done) = ok (record w { reconnect = none; boot_reopen_at = none })
  after_job id lane (w, err why) = do
    s ←
        finish_at host device_id w.store w.reader
          (record { key = id; lane = lane; result = err why } ∷ [])
    ok (record w { store = s })

  unfoldable pub stream_job : Worker N → Job N → Moment → (fresh : ℕ) → Result ApiError (Worker N)
  stream_job w job m fresh = after_job job.id (lane_of job.action) (try_job w job m fresh)
