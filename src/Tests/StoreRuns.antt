-- ===== src/Tests/StoreRuns.antt =====
-- src/server.rs: requests to a daemon with one device, whose events hold numbers.
use idf_remote.Base.{
  ℕ, ◌<◌, ◌≡◌, refl, true, false, not, ◌&&◌, [], ◌∷◌, some, none, Result, ok, err, eq_bytes,
}
use idf_remote.Base.Text.{codes, insert, Map}
use idf_remote.Device.{
  DeviceId, DeviceDescriptor, DeviceCapability, DeviceCapability-discrete, available_idle, supports,
  contains,
}
use idf_remote.Wire.Digest.{decimal}
use idf_remote.Wire.Requests.{DeviceRequest}
use idf_remote.Store.Events.{Event, DeviceState, new_device, emit, evict}
use idf_remote.Store.Operations.{
  Operation, RequestIdentity, Store, ApiError, device_busy, retention, is_running, count_finished,
  expire, push_operation, find_operation, replay, replay_record, operation_id,
}
use idf_remote.Store.Retention.{in_flight, push_operation_bounded}
use idf_remote.Store.Submit.{
  Action, reset, serial_write, application, Surroundings, capability_of, app_lane, input_lane,
  uses_monitor, check_availability, compatible, begin, new_operation, is_available, is_monitoring,
  active_monitor_status,
}
use idf_remote.Store.Admit.{
  lanes_of, begun, started, send_job, admit_device, admit_key, admit, check_device, refresh_device,
  meet_device, submit_checked, submit_met, submit_replayed, submit_allowed, submit,
}
use idf_remote.Store.Whole.{IsWhole}
use idf_remote.Store.Submitted.{admit-IsWhole, submit-IsWhole}
use idf_remote.Store.Replays.{replay-admit}
use idf_remote.Store.Completion.{Lane, Completion, finish_found, finish_one, finish_stream}
use idf_remote.Store.Completed.{finish_stream-IsWhole}
use idf_remote.Store.Lanes.{both, IsLaned, flight_after, admit_device-join}

abbrev pub ten : Event ℕ → ℕ
ten e = 10

abbrev pub dev : DeviceId
dev = record { text = codes "dev" }

abbrev pub no_devices : Map (DeviceState ℕ)
no_devices k = none

abbrev pub idle_store : Store ℕ
idle_store = record {
  epoch = codes "run";
  devices = insert no_devices (codes "dev") (new_device available_idle);
  operations = [];
  idempotency = λ k. none;
  artifacts = λ k. none;
}

idle_store-IsWhole : IsWhole idle_store
idle_store-IsWhole = record { retained = λ k r e. absurd cc; named = tt }

abbrev identity : RequestIdentity
identity = record { key = codes "key"; fingerprint = codes "abc" }

abbrev pub descriptor : DeviceDescriptor
descriptor = record {
  id = dev;
  display_name = codes "board";
  transport = record { kind = codes "serial"; address = none; metadata = [] };
  status = available_idle;
  capabilities = DeviceCapability.reset ∷ DeviceCapability.serial_write ∷ [];
}

abbrev pub surroundings : Surroundings
surroundings = record {
  is_up = true;
  runtime = some descriptor;
  refreshed = some descriptor;
  job_sent = true;
}

abbrev request : DeviceRequest
request = record { device_id = dev; monitor_baud = 115200; no_reset_before = false }

abbrev input : Action ℕ
input = serial_write (1 ∷ []) (codes "digest") 115200 1000

abbrev command : Action ℕ
command = application (some 7) 1000

abbrev first_operation : Operation ℕ
first_operation = new_operation (codes "run") dev identity 1

abbrev submitted : Store ℕ × Result ApiError (Operation ℕ)
submitted = submit ten 0 surroundings request input identity idle_store

submitted_ok : submitted.1 ≡ ok first_operation
unfolding submit submit_allowed replay replay_record submit_replayed meet_device refresh_device
    submit_met check_device supports contains DeviceCapability-discrete check_availability
    capability_of submit_checked admit admit_key admit_device begun begin emit evict new_device
    started send_job app_lane input_lane uses_monitor active_monitor_status is_available
    is_monitoring compatible insert eq_bytes
submitted_ok = refl

submit-IsWhole_example : IsWhole submitted.0
submit-IsWhole_example =
    submit-IsWhole ten 0 surroundings request input identity idle_store idle_store-IsWhole

abbrev admitted : Store ℕ × Result ApiError (Operation ℕ)
admitted = admit ten 0 true idle_store dev identity (lanes_of input)

admitted_ok : admitted.1 ≡ ok first_operation
unfolding admit admit_key admit_device begun begin emit evict new_device started send_job app_lane
    input_lane uses_monitor compatible insert eq_bytes
admitted_ok = refl

-- A command may join the input, a reset may not.
abbrev next : RequestIdentity
next = record { key = codes "next"; fingerprint = codes "def" }

joined_and_refused :
    ((admit ten 0 true admitted.0 dev next (lanes_of command)).1
      ≡ ok (new_operation (codes "run") dev next 2))
    × ((admit ten 0 true admitted.0 dev next (lanes_of {Command = ℕ} reset)).1 ≡ err device_busy)
unfolding admit admit_key admit_device begun begin emit evict new_device started send_job app_lane
    input_lane uses_monitor compatible insert eq_bytes push_operation expire
joined_and_refused = (refl, refl)

replay-admit_example : replay admitted.0 identity ≡ ok (some first_operation)
replay-admit_example =
    replay-admit ten 0 true idle_store dev identity (lanes_of input) first_operation
      idle_store-IsWhole admitted_ok

first_running : is_running first_operation ≡ true
unfolding new_operation
first_running = refl

push_operation_bounded_example :
    (count_finished (push_operation idle_store first_operation).operations < retention)
    × (in_flight (push_operation idle_store first_operation).operations ≡ first_operation ∷ [])
push_operation_bounded_example = push_operation_bounded idle_store first_operation first_running

abbrev completion : Completion ℕ
completion = record { key = first_operation.id; lane = Lane.input; result = ok 5 }

abbrev store_of : Result ApiError (Store ℕ) → Store ℕ
store_of (ok s) = s
store_of (err e) = idle_store

abbrev outcome : Operation ℕ → ℕ
outcome op = 0

abbrev finished : Result ApiError (Store ℕ)
finished = finish_stream ten outcome admitted.0 dev true (completion ∷ [])

finished_ok : finished ≡ ok (store_of finished)
unfolding finish_stream finish_one finish_found admit admit_key admit_device begun begin emit evict
    new_device started send_job app_lane input_lane uses_monitor compatible insert eq_bytes
    push_operation expire find_operation new_operation operation_id decimal
finished_ok = refl

finish_stream-IsWhole_example : IsWhole (store_of finished)
finish_stream-IsWhole_example =
    finish_stream-IsWhole ten outcome admitted.0 (store_of finished) dev true (completion ∷ [])
      (admit-IsWhole ten 0 true idle_store dev identity (lanes_of input) idle_store-IsWhole)
      finished_ok

abbrev with_input : DeviceState ℕ
with_input = record (new_device available_idle) { busy = true; input_pending = true }

with_input-IsLaned : IsLaned with_input
unfolding new_device
with_input-IsLaned = refl

admit_device-join_example :
    flight_after dev (
      admit_device ten 0 true idle_store dev
        (record { key = codes "key-1"; fingerprint = codes "digest" })
        (lanes_of command)
        (some with_input))
    ≡ some both
unfolding new_device
admit_device-join_example =
    admit_device-join ten 0 idle_store dev
      (record { key = codes "key-1"; fingerprint = codes "digest" }) with_input command
      with_input-IsLaned

with_input_joins :
    (with_input.busy && not (compatible with_input (app_lane command) (input_lane command))) ≡ false
unfolding new_device compatible app_lane input_lane
with_input_joins = refl
