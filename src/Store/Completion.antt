-- ===== src/Store/Completion.antt =====
-- `Service::finish_stream` of src/server.rs: requests and console input that the scheduler has ended.
-- The JSON value of an operation and the length of an event's text are parameters.
use idf_remote.Base.{
  ℕ, Bool, true, false, ◌||◌, List, [], ◌∷◌, Option, some, none, Bytes, eq_bytes, if◌then◌else◌,
  Result, ok, err, ◌>>=◌,
}
use idf_remote.Base.Text.{insert, codes}
use idf_remote.Device.{DeviceId, DeviceActivity}
use idf_remote.Store.Events.{Event, DeviceState, emit}
use idf_remote.Store.Operations.{
  Operation, succeeded, failed, Store, ApiError, no_such_operation, no_such_device, find_operation,
}

pub data Lane : Type 0 where
  application input : Lane

pub record Completion (Value : Type 0) : Type 0 where
  pub key : Bytes
  pub lane : Lane
  pub result : Result Bytes Value

-- `state.status.activity == DeviceActivity::Reconnecting`
abbrev pub is_reconnecting : DeviceActivity → Bool
is_reconnecting DeviceActivity.reconnecting = true
is_reconnecting DeviceActivity.idle = false
is_reconnecting DeviceActivity.busy = false
is_reconnecting DeviceActivity.monitoring = false
is_reconnecting DeviceActivity.error = false

abbrev pub activity_after : Bool → Bool → DeviceActivity → DeviceActivity
activity_after still_busy has_reader activity =
    if still_busy
    then DeviceActivity.busy
    else if has_reader
    then DeviceActivity.monitoring
    else if is_reconnecting activity
    then DeviceActivity.reconnecting
    else DeviceActivity.error

module _ {Value : Type 0} where
  unfoldable pub complete : Operation Value → Result Bytes Value → Operation Value
  complete op (ok value) = record op { status = succeeded; result = some value }
  complete op (err error) = record op { status = failed; error = some error }

  -- The change through `iter_mut().find(|op| op.id == completion.key)`.
  unfoldable pub complete_first :
      Bytes → Result Bytes Value → List (Operation Value) → List (Operation Value)
  complete_first key result [] = []
  complete_first key result (op ∷ ops) =
      if eq_bytes op.id key then complete op result ∷ ops else op ∷ complete_first key result ops

  unfoldable pub clear_lane : DeviceState Value → Lane → DeviceState Value
  clear_lane d application = record d { application_pending = false }
  clear_lane d input = record d { input_pending = false }

  unfoldable pub settle : DeviceState Value → Bool → DeviceState Value
  settle d has_reader =
      let still_busy = d.application_pending || d.input_pending in
      record d {
        busy = still_busy;
        discard_monitor_read = false;
        status = record (d.status) {
          activity = activity_after still_busy has_reader d.status.activity;
        };
      }

module _ {Value : Type 0} (encoded_len : Event Value → ℕ)
    (operation_value : Operation Value → Value) where
  -- The state of the device when one completion has been taken in.
  unfoldable pub ended : DeviceState Value → Bool → Lane → Operation Value → DeviceState Value
  ended d has_reader lane op =
      emit encoded_len (settle (clear_lane d lane) has_reader) (codes "operation_finished")
        (operation_value op)

  unfoldable pub finish_found :
      Store Value
      → DeviceId
      → Bool
      → Completion Value
      → Option (Operation Value)
      → Option (DeviceState Value)
      → Result ApiError (Store Value)
  finish_found s device_id has_reader c none found = err no_such_operation
  finish_found s device_id has_reader c (some op) none = err no_such_device
  finish_found s device_id has_reader c (some op) (some d) = ok (record s {
    operations = complete_first c.key c.result s.operations;
    devices = insert s.devices device_id.text (ended d has_reader c.lane (complete op c.result));
  })

  unfoldable pub finish_one :
      Store Value → DeviceId → Bool → Completion Value → Result ApiError (Store Value)
  finish_one s device_id has_reader c =
      finish_found s device_id has_reader c (find_operation c.key s.operations)
        (s.devices device_id.text)

  unfoldable pub finish_stream :
      Store Value → DeviceId → Bool → List (Completion Value) → Result ApiError (Store Value)
  finish_stream s device_id has_reader [] = ok s
  finish_stream s device_id has_reader (c ∷ done) = do
    s' ← finish_one s device_id has_reader c
    finish_stream s' device_id has_reader done
