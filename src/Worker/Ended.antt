-- ===== src/Worker/Ended.antt =====
-- The end of a job of `Service::worker` of src/server.rs that has had the port for itself.
use idf_remote.Base.{
  Bool, true, false, ◌&&◌, List, [], ◌∷◌, Option, none, some, Bytes, eq_bytes, if◌then◌else◌,
  Result, err, ok, ◌>>=◌,
}
use idf_remote.Base.Text.{Map, codes, insert}
use idf_remote.Device.{DeviceId, DeviceActivity}
use idf_remote.Store.Events.{DeviceState, emit}
use idf_remote.Store.Operations.{
  Operation, ArtifactRecord, ApiError, no_such_operation, no_such_device, succeeded, failed,
  find_operation,
}
use idf_remote.Application.Json.{Value}
use idf_remote.Duplex.State.{is_some}
use idf_remote.Worker.State.{Host, Worker}
use idf_remote.Worker.Exclusive.{
  PortJob, Answers, Reports, Finished, is_monitor, close_monitor, try_port,
}

unfoldable pub rest_activity : Bool → Bool → DeviceActivity
rest_activity has_reader success =
    if has_reader
    then DeviceActivity.monitoring
    else if success
    then DeviceActivity.idle
    else DeviceActivity.error

module _ {N : Type 0} where
  unfoldable pub end_operation :
      Operation (Value N) → Result Bytes (Finished N) → Operation (Value N)
  end_operation op (err why) = record op { status = failed; error = some why }
  end_operation op (ok (value, none)) = record op {
    status = succeeded;
    result = some value;
    artifact = none;
  }
  end_operation op (ok (value, some file)) = record op {
    status = succeeded;
    result = some value;
    artifact = some file.metadata;
  }

  -- The change through `iter_mut().find(|op| op.id == job.id)`.
  unfoldable pub end_first :
      Bytes → Result Bytes (Finished N) → List (Operation (Value N)) → List (Operation (Value N))
  end_first id r [] = []
  end_first id r (op ∷ ops) =
      if eq_bytes op.id id then end_operation op r ∷ ops else op ∷ end_first id r ops

  -- `store.artifacts.insert(..)`, when there is a file.
  unfoldable pub keep_artifact :
      Map ArtifactRecord → Bytes → Result Bytes (Finished N) → Map ArtifactRecord
  keep_artifact m id (err why) = m
  keep_artifact m id (ok (value, none)) = m
  keep_artifact m id (ok (value, some file)) = insert m id file

  abbrev pub is_ok : Result Bytes (Finished N) → Bool
  is_ok (err why) = false
  is_ok (ok done) = true

module _ {N : Type 0} (host : Host N) (device_id : DeviceId) where
  unfoldable pub end_device :
      DeviceState (Value N)
      → (has_reader success : Bool) → Operation (Value N)
      → DeviceState (Value N)
  end_device d has_reader success op =
      emit host.json.encoded_len
        (record d {
          busy = false;
          discard_monitor_read = false;
          status = record (d.status) { activity = rest_activity has_reader success };
        })
        (codes "operation_finished") (host.operation_value op)

  unfoldable pub end_found :
      Worker N
      → Bytes
      → Result Bytes (Finished N)
      → Option (Operation (Value N))
      → Option (DeviceState (Value N))
      → Result ApiError (Worker N)
  end_found w id r none found = err no_such_operation
  end_found w id r (some op) none = err no_such_device
  end_found w id r (some op) (some d) = ok (record w {
    store = record (w.store) {
      operations = end_first id r w.store.operations;
      artifacts = keep_artifact w.store.artifacts id r;
      devices =
          insert w.store.devices device_id.text
            (end_device d w.reader (is_ok r) (end_operation op r));
    };
  })

  -- The end of the job, under one lock.
  unfoldable pub end_port :
      Worker N → Bytes → Result Bytes (Finished N) → Result ApiError (Worker N)
  end_port w id r =
      end_found w id r (find_operation id w.store.operations) (w.store.devices device_id.text)

  -- A job with its closure and its end. A monitor leaves the session of an application open.
  unfoldable pub port_job : Reports N → Worker N → PortJob → Answers N → Result ApiError (Worker N)
  port_job reports w job a = do
    let w0 = record w { reconnect = none; boot_reopen_at = none }
    let preserves = is_monitor job.action && is_some w.duplex.session
    w1 ← if preserves then ok w0 else close_monitor host reports device_id w0
    tried ← try_port host reports device_id w1 job a preserves
    end_port tried.0 job.id tried.1
