-- ===== src/Store/Operations.antt =====
-- The operations that the daemon keeps: `Store`, `Store::push_operation`, `Service::replay` and
-- `Service::get_operation` of src/server.rs. Threads take the store's lock, so that each of these is
-- one step on the store; artifacts are kept without their files.
use idf_remote.Base.{
  ℕ, zero, suc, Bool, true, false, not, List, [], ◌∷◌, ◌++◌, Option, some, none, Bytes, eq_bytes,
  length, ltb, if◌then◌else◌, Result, ok, err,
}
use idf_remote.Base.Text.{Map, remove}
use idf_remote.Device.{DeviceId}
use idf_remote.Wire.Digest.{decimal}
use idf_remote.Store.Events.{Cursor, DeviceState}

pub record ArtifactMetadata : Type 0 where
  pub size : ℕ
  pub digest_text : Bytes  -- the field `sha256`
  pub content_type : Bytes

-- The values of the field `status`, which is text in the source.
pub data OperationStatus : Type 0 where
  running succeeded failed : OperationStatus

pub record Operation (Value : Type 0) : Type 0 where
  pub id : Bytes
  pub device_id : DeviceId
  pub request_key : Bytes
  pub status : OperationStatus
  pub start_cursor : Cursor
  pub result : Option Value
  pub error : Option Bytes
  pub artifact : Option ArtifactMetadata

pub record IdempotencyRecord : Type 0 where
  pub fingerprint : Bytes
  pub operation_id : Bytes

pub record RequestIdentity : Type 0 where
  pub key : Bytes
  pub fingerprint : Bytes

pub record ArtifactRecord : Type 0 where
  pub metadata : ArtifactMetadata
  pub path : Bytes

pub record Store (Value : Type 0) : Type 0 where
  pub epoch : Bytes
  pub devices : Map (DeviceState Value)
  pub operations : List (Operation Value)
  pub idempotency : Map IdempotencyRecord
  pub artifacts : Map ArtifactRecord

-- `ApiError`, by its cause; the last two are the panics of `expect`.
pub data ApiError : Type 0 where
  shutting_down device_not_allowed key_conflict unsupported_operation : ApiError
  permission_required disconnected identity_mismatch ambiguous : ApiError
  zero_baud device_busy worker_unavailable device_refresh_failed : ApiError
  no_such_device no_such_operation : ApiError
  nothing_pending : ApiError  -- the `unwrap` in `Duplex::feed`

abbrev pub retention : ℕ
retention = 64

abbrev pub is_running_status : OperationStatus → Bool
is_running_status running = true
is_running_status succeeded = false
is_running_status failed = false

module _ {Value : Type 0} where
  -- `op.status == "running"`
  abbrev pub is_running : Operation Value → Bool
  is_running op = is_running_status op.status

  -- `.filter(|op| op.status != "running").count()`
  unfoldable pub count_finished : List (Operation Value) → ℕ
  count_finished [] = 0
  count_finished (op ∷ ops) = if is_running op then count_finished ops else suc (count_finished ops)

  -- The first that is not running, and the list without it: `position` and `remove`.
  unfoldable pub oldest_finished : List (Operation Value) → Option (Operation Value)
  oldest_finished [] = none
  oldest_finished (op ∷ ops) = if is_running op then oldest_finished ops else some op

  unfoldable pub without_oldest : List (Operation Value) → List (Operation Value)
  without_oldest [] = []
  without_oldest (op ∷ ops) = if is_running op then op ∷ without_oldest ops else ops

  -- One round of the loop of `push_operation`, with what `position` found.
  unfoldable pub expire_one : Store Value → Option (Operation Value) → Store Value
  expire_one s none = s
  expire_one s (some expired) = record s {
    operations = without_oldest s.operations;
    idempotency = remove s.idempotency expired.request_key;
    artifacts = remove s.artifacts expired.id;
  }

  -- The loop, on fuel.
  unfoldable pub expire : ℕ → Store Value → Store Value
  expire zero s = s
  expire (suc fuel) s =
      let rest = expire fuel (expire_one s (oldest_finished s.operations)) in
      if ltb (count_finished s.operations) retention then s else rest

  unfoldable pub push_operation : Store Value → Operation Value → Store Value
  push_operation s op =
      let s' = expire (length s.operations) s in record s' { operations = s'.operations ++ op ∷ [] }

  -- `.iter().find(|op| op.id == id)`, which is `get_operation`.
  unfoldable pub find_operation : Bytes → List (Operation Value) → Option (Operation Value)
  find_operation id [] = none
  find_operation id (op ∷ ops) = if eq_bytes op.id id then some op else find_operation id ops

  -- `.expect("idempotency records share the operation retention boundary")`
  abbrev pub expect_operation :
      Option (Operation Value) → Result ApiError (Option (Operation Value))
  expect_operation none = err no_such_operation
  expect_operation (some op) = ok (some op)

  -- What `replay` does with the record it found.
  unfoldable pub replay_record :
      Store Value
      → RequestIdentity
      → Option IdempotencyRecord
      → Result ApiError (Option (Operation Value))
  replay_record s identity none = ok none
  replay_record s identity (some r) =
      if not (eq_bytes r.fingerprint identity.fingerprint)
      then err key_conflict
      else expect_operation (find_operation r.operation_id s.operations)

  unfoldable pub replay : Store Value → RequestIdentity → Result ApiError (Option (Operation Value))
  replay s identity = replay_record s identity (s.idempotency identity.key)

-- `format!("{}-{}-{}", store.epoch, device_id, start_cursor.after)`
unfoldable pub operation_id : Bytes → DeviceId → ℕ → Bytes
operation_id epoch device_id after = epoch ++ b'-' ∷ (device_id.text ++ b'-' ∷ decimal after)
