-- ===== src/Store/Submit.antt =====
-- `Service::submit` of src/server.rs. It takes the store's lock three times: in `replay`, where it
-- reads or refreshes the device, and for the admission. Each is a step here, and `submit` runs them one
-- after the other. The backend's answer and whether the worker's channel takes the job are parameters.
use idf_remote.Base.{
  ℕ, Bool, true, false, not, ◌&&◌, ◌||◌, List, [], ◌∷◌, Option, some, none, Bytes, if◌then◌else◌,
  Result, ok, err,
}
use idf_remote.Device.{
  DeviceId, DeviceAvailability, DeviceActivity, DeviceStatus, DeviceCapability, DeviceDescriptor,
}
use idf_remote.Plan.Types.{PreparedPlan}
use idf_remote.Wire.Manifest.{FlashWarning}
use idf_remote.Store.Events.{DeviceState}
use idf_remote.Store.Operations.{Operation, running, RequestIdentity, ApiError, operation_id}

-- A JSON command of an application is a parameter.
pub data Action (Command : Type 0) : Type 0 where
  probe reset monitor : Action Command
  application : Option Command → ℕ → Action Command
  flash : PreparedPlan → ℕ → List FlashWarning → Action Command
  read_flash : ℕ → ℕ → ℕ → Action Command
  erase_flash : ℕ → Action Command
  serial_write : Bytes → Bytes → ℕ → ℕ → Action Command

-- What `submit` learns from outside of the store: `running`, the entry of the device in `devices`, the
-- answer of `backend.refresh`, and whether `try_send` succeeds.
pub record Surroundings : Type 0 where
  pub is_up : Bool
  pub runtime : Option DeviceDescriptor
  pub refreshed : Option DeviceDescriptor
  pub job_sent : Bool

module _ {Command : Type 0} where
  unfoldable pub capability_of : Action Command → DeviceCapability
  capability_of probe = DeviceCapability.probe
  capability_of reset = DeviceCapability.reset
  capability_of monitor = DeviceCapability.monitor
  capability_of (flash plan baud warnings) = DeviceCapability.flash
  capability_of (read_flash offset size baud) = DeviceCapability.read_flash
  capability_of (erase_flash baud) = DeviceCapability.erase_flash
  capability_of (serial_write bytes digest baud timeout_ms) = DeviceCapability.serial_write
  capability_of (application command timeout_ms) = DeviceCapability.serial_write

  -- `matches!(action, Action::SerialWrite { .. } | Action::Application { .. })`
  unfoldable pub uses_monitor : Action Command → Bool
  uses_monitor probe = false
  uses_monitor reset = false
  uses_monitor monitor = false
  uses_monitor (flash plan baud warnings) = false
  uses_monitor (read_flash offset size baud) = false
  uses_monitor (erase_flash baud) = false
  uses_monitor (serial_write bytes digest baud timeout_ms) = true
  uses_monitor (application command timeout_ms) = true

  unfoldable pub app_lane : Action Command → Bool
  app_lane probe = false
  app_lane reset = false
  app_lane monitor = false
  app_lane (flash plan baud warnings) = false
  app_lane (read_flash offset size baud) = false
  app_lane (erase_flash baud) = false
  app_lane (serial_write bytes digest baud timeout_ms) = false
  app_lane (application none timeout_ms) = false
  app_lane (application (some command) timeout_ms) = true

  unfoldable pub input_lane : Action Command → Bool
  input_lane probe = false
  input_lane reset = false
  input_lane monitor = false
  input_lane (flash plan baud warnings) = false
  input_lane (read_flash offset size baud) = false
  input_lane (erase_flash baud) = false
  input_lane (serial_write bytes digest baud timeout_ms) = true
  input_lane (application command timeout_ms) = false

-- The `match` on the availability of the device.
unfoldable pub check_availability : DeviceAvailability → Result ApiError (Unit {0})
check_availability DeviceAvailability.available = ok tt
check_availability DeviceAvailability.permission_required = err ApiError.permission_required
check_availability DeviceAvailability.disconnected = err ApiError.disconnected
check_availability DeviceAvailability.identity_mismatch = err ApiError.identity_mismatch
check_availability DeviceAvailability.ambiguous = err ApiError.ambiguous

-- `device.status.availability == DeviceAvailability::Available`
unfoldable pub is_available : DeviceAvailability → Bool
is_available DeviceAvailability.available = true
is_available DeviceAvailability.permission_required = false
is_available DeviceAvailability.disconnected = false
is_available DeviceAvailability.identity_mismatch = false
is_available DeviceAvailability.ambiguous = false

unfoldable pub is_monitoring : DeviceActivity → Bool
is_monitoring DeviceActivity.monitoring = true
is_monitoring DeviceActivity.idle = false
is_monitoring DeviceActivity.busy = false
is_monitoring DeviceActivity.reconnecting = false
is_monitoring DeviceActivity.error = false

module _ {Value : Type 0} where
  -- `active_monitor_status`, on the state of the device.
  unfoldable pub active_monitor_status : DeviceState Value → Option DeviceStatus
  active_monitor_status d =
      if is_available d.status.availability
        && (is_monitoring d.status.activity || d.application_pending || d.input_pending)
      then some d.status
      else none

  -- May an action join what is in flight on the device?
  unfoldable pub compatible : DeviceState Value → Bool → Bool → Bool
  compatible d app input =
      app && d.input_pending && not d.application_pending
      || input && d.application_pending && not d.input_pending

  -- The flags of the device when an action is admitted.
  unfoldable pub begin : DeviceState Value → Bool → Bool → Bool → DeviceState Value
  begin d app input monitored = record d {
    busy = true;
    application_pending = d.application_pending || app;
    input_pending = d.input_pending || input;
    discard_monitor_read = not monitored;
  }

  -- And when the worker's channel does not take the job.
  unfoldable pub roll_back : DeviceState Value → Bool → Bool → DeviceState Value
  roll_back d app input =
      let app_pending = d.application_pending && not app in
      let in_pending = d.input_pending && not input in
      let still_busy = app_pending || in_pending in
      record d {
        application_pending = app_pending;
        input_pending = in_pending;
        busy = still_busy;
        discard_monitor_read = false;
        status = record (d.status) {
          activity = if still_busy then DeviceActivity.busy else DeviceActivity.error;
        };
      }

  -- `operations.pop_back()`
  unfoldable pub pop_back : List (Operation Value) → List (Operation Value)
  pop_back [] = []
  pop_back (op ∷ []) = []
  pop_back (op ∷ next ∷ ops) = op ∷ pop_back (next ∷ ops)

  unfoldable pub new_operation : Bytes → DeviceId → RequestIdentity → ℕ → Operation Value
  new_operation epoch device_id identity after = record {
    id = operation_id epoch device_id after;
    device_id = device_id;
    request_key = identity.key;
    status = running;
    start_cursor = record { epoch = epoch; after = after };
    result = none;
    error = none;
    artifact = none;
  }
