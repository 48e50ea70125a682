-- ===== src/Store/Admit.antt =====
-- The critical sections of `Service::submit` of src/server.rs, and the whole of it.
use idf_remote.Base.{
  ℕ, Bool, true, false, not, ◌&&◌, Option, some, none, eq_bytes, ◌==◌, if◌then◌else◌, Result, ok,
  err, ensure, context, ◌>>◌,
}
use idf_remote.Base.Text.{insert, remove, codes}
use idf_remote.Device.{DeviceId, DeviceActivity, DeviceStatus, DeviceDescriptor, supports}
use idf_remote.Wire.Requests.{DeviceRequest}
use idf_remote.Store.Events.{Event, DeviceState, emit}
use idf_remote.Store.Operations.{
  Operation, RequestIdentity, IdempotencyRecord, Store, ApiError, shutting_down, device_not_allowed,
  key_conflict, unsupported_operation, device_refresh_failed, zero_baud, device_busy,
  worker_unavailable, no_such_device, no_such_operation, push_operation, find_operation, replay,
}
use idf_remote.Store.Submit.{
  Action, Surroundings, capability_of, uses_monitor, app_lane, input_lane, check_availability,
  active_monitor_status, compatible, begin, roll_back, pop_back, new_operation,
}

-- Which lanes an action takes, and whether it leaves the monitor open.
pub record Lanes : Type 0 where
  pub app : Bool
  pub input : Bool
  pub monitored : Bool

abbrev pub lanes_of : {Command : Type 0} → Action Command → Lanes
lanes_of action = record {
  app = app_lane action;
  input = input_lane action;
  monitored = uses_monitor action;
}

module _ {Value : Type 0} (encoded_len : Event Value → ℕ) (empty_object : Value) where
  -- The state of the device when the start of the operation has been reported.
  unfoldable pub begun : DeviceState Value → Lanes → DeviceState Value
  begun d l =
      emit encoded_len (begin d l.app l.input l.monitored) (codes "operation_started") empty_object

  abbrev pub set_busy : DeviceState Value → DeviceState Value
  set_busy d = record d { status = record (d.status) { activity = DeviceActivity.busy } }

  -- The store with the operation in it, before the job is sent.
  unfoldable pub started :
      Store Value → DeviceId → RequestIdentity → DeviceState Value → Operation Value → Store Value
  started s device_id identity d op =
      let s' = push_operation (record s { devices = insert s.devices device_id.text d }) op in
      record s' {
        idempotency =
            insert s'.idempotency identity.key
              (record { fingerprint = identity.fingerprint; operation_id = op.id });
        devices = insert s'.devices device_id.text (set_busy d);
      }

  -- `try_send`, and what is undone when it fails.
  unfoldable pub send_job :
      Bool
      → Store Value
      → DeviceId
      → RequestIdentity
      → DeviceState Value
      → Lanes
      → Operation Value
      → Store Value × Result ApiError (Operation Value)
  send_job true s device_id identity d l op = (s, ok op)
  send_job false s device_id identity d l op = (
    record s {
      devices = insert s.devices device_id.text (roll_back d l.app l.input);
      operations = pop_back s.operations;
      idempotency = remove s.idempotency identity.key;
    },
    err worker_unavailable,
  )

  unfoldable pub admit_device :
      Bool
      → Store Value
      → DeviceId
      → RequestIdentity
      → Lanes
      → Option (DeviceState Value)
      → Store Value × Result ApiError (Operation Value)
  admit_device sent s device_id identity l none = (s, err no_such_device)
  admit_device sent s device_id identity l (some d) =
      let d' = begun d l in
      let op = new_operation s.epoch device_id identity d'.seq in
      if d.busy && not (compatible d l.app l.input)
      then (s, err device_busy)
      else send_job sent (started s device_id identity d' op) device_id identity (set_busy d') l op

  -- The operation of a key that is stored.
  unfoldable pub stored_operation :
      Store Value → RequestIdentity → IdempotencyRecord → Result ApiError (Operation Value)
  stored_operation s identity r =
      if not (eq_bytes r.fingerprint identity.fingerprint)
      then err key_conflict
      else context (find_operation r.operation_id s.operations) no_such_operation

  -- The part of `submit` from the second lock on, with the record that it finds for the key.
  unfoldable pub admit_key :
      Bool
      → Store Value
      → DeviceId
      → RequestIdentity
      → Lanes
      → Option IdempotencyRecord
      → Store Value × Result ApiError (Operation Value)
  admit_key sent s device_id identity l (some r) = (s, stored_operation s identity r)
  admit_key sent s device_id identity l none =
      admit_device sent s device_id identity l (s.devices device_id.text)

  unfoldable pub admit :
      Bool
      → Store Value
      → DeviceId
      → RequestIdentity
      → Lanes
      → Store Value × Result ApiError (Operation Value)
  admit sent s device_id identity l =
      admit_key sent s device_id identity l (s.idempotency identity.key)

  -- The tests on the device and the request before the second lock.
  unfoldable pub check_device :
      {Command : Type 0} → DeviceDescriptor → Action Command → ℕ → Result ApiError (Unit {0})
  check_device device action monitor_baud = do
    ensure (supports device (capability_of action)) unsupported_operation
    check_availability device.status.availability
    ensure (not (monitor_baud == 0)) zero_baud
    ok tt

  -- `refresh_device_blocking`: the store takes over what the backend says of the device.
  unfoldable pub refresh_device :
      Store Value
      → DeviceId
      → Option DeviceDescriptor
      → Option (DeviceState Value)
      → Store Value × Result ApiError DeviceDescriptor
  refresh_device s device_id none found = (s, err device_refresh_failed)
  refresh_device s device_id (some device) none = (s, err no_such_device)
  refresh_device s device_id (some device) (some d) =
      let status = record (d.status) { availability = device.status.availability } in
      (
        record s { devices = insert s.devices device_id.text (record d { status = status }) },
        ok (record device { status = status }),
      )

  -- The device that the action meets: with a monitor open, console input and commands do without a
  -- refresh.
  unfoldable pub meet_device :
      Store Value
      → DeviceId
      → DeviceDescriptor
      → Option DeviceDescriptor
      → Bool
      → Option DeviceStatus
      → Store Value × Result ApiError DeviceDescriptor
  meet_device s device_id runtime refreshed true (some status) =
      (s, ok (record runtime { status = status }))
  meet_device s device_id runtime refreshed true none =
      refresh_device s device_id refreshed (s.devices device_id.text)
  meet_device s device_id runtime refreshed false active =
      refresh_device s device_id refreshed (s.devices device_id.text)

  abbrev pub active_status : Option (DeviceState Value) → Option DeviceStatus
  active_status none = none
  active_status (some d) = active_monitor_status d

  module _ {Command : Type 0} (w : Surroundings) (request : DeviceRequest) (action : Action Command)
      (identity : RequestIdentity) where
    unfoldable pub submit_checked :
        Store Value → Result ApiError (Unit {0}) → Store Value × Result ApiError (Operation Value)
    submit_checked s (err e) = (s, err e)
    submit_checked s (ok done) = admit w.job_sent s request.device_id identity (lanes_of action)

    unfoldable pub submit_met :
        Store Value × Result ApiError DeviceDescriptor
        → Store Value × Result ApiError (Operation Value)
    submit_met (s, err e) = (s, err e)
    submit_met (s, ok device) = submit_checked s (check_device device action request.monitor_baud)

    unfoldable pub submit_replayed :
        Store Value
        → DeviceDescriptor
        → Result ApiError (Option (Operation Value))
        → Store Value × Result ApiError (Operation Value)
    submit_replayed s runtime (err e) = (s, err e)
    submit_replayed s runtime (ok (some op)) = (s, ok op)
    submit_replayed s runtime (ok none) = submit_met (
        meet_device s request.device_id runtime w.refreshed (uses_monitor action)
          (active_status (s.devices request.device_id.text)))

    unfoldable pub submit_allowed :
        Store Value → Option DeviceDescriptor → Store Value × Result ApiError (Operation Value)
    submit_allowed s none = (s, err device_not_allowed)
    submit_allowed s (some runtime) = submit_replayed s runtime (replay s identity)

    unfoldable pub submit : Store Value → Store Value × Result ApiError (Operation Value)
    submit s = if w.is_up then submit_allowed s w.runtime else (s, err shutting_down)
