-- ===== src/Store/Events.antt =====
-- The event log of a device: `DeviceState`, `Store::emit` and `Store::events_after` of src/server.rs.
-- JSON values are a parameter, and so is the length of the JSON text of an event.
use idf_remote.Base.{
  ℕ, ◌+◌, ◌-◌, ◌*◌, Bool, false, not, ◌||◌, List, [], ◌∷◌, ◌++◌, Bytes, eq_bytes, length, ltb,
  if◌then◌else◌, Result, ok, ensure, ◌>>◌,
}
use idf_remote.Device.{DeviceStatus}

abbrev pub max_events : ℕ
max_events = 4096

-- 4 MiB.
abbrev pub max_event_bytes : ℕ
max_event_bytes = 4 * 1024 * 1024

pub record Event (Value : Type 0) : Type 0 where
  pub seq : ℕ
  pub kind : Bytes
  pub body : Value  -- the field `data`

pub record Cursor : Type 0 where
  pub epoch : Bytes
  pub after : ℕ

pub record DeviceState (Value : Type 0) : Type 0 where
  pub seq : ℕ
  pub events : List (Event Value × ℕ)
  pub event_bytes : ℕ
  pub busy : Bool
  pub application_pending : Bool
  pub input_pending : Bool
  pub discard_monitor_read : Bool
  pub status : DeviceStatus

pub record EventBatch (Value : Type 0) : Type 0 where
  pub cursor : Cursor
  pub events : List (Event Value)
  pub device_status : DeviceStatus

pub data LogError : Type 0 where
  daemon_restarted cursor_ahead log_gap : LogError

-- `DeviceState::new`
unfoldable pub new_device : {Value : Type 0} → DeviceStatus → DeviceState Value
new_device status = record {
  seq = 0;
  events = [];
  event_bytes = 0;
  busy = false;
  application_pending = false;
  input_pending = false;
  discard_monitor_read = false;
  status = status;
}

-- The loop that drops the oldest events; it stops at an empty log, where the code would go on for as
-- long as the count of bytes is too large.
unfoldable pub evict : {Value : Type 0} → List (Event Value × ℕ) → ℕ → List (Event Value × ℕ) × ℕ
evict [] bytes = ([], bytes)
evict ((e, size) ∷ r) bytes =
    let rest = evict r (bytes - size) in
    if ltb max_events (length ((e, size) ∷ r)) || ltb max_event_bytes bytes
    then rest
    else ((e, size) ∷ r, bytes)

-- `Store::emit` on the state of its device.
unfoldable pub emit :
    {Value : Type 0} → (Event Value → ℕ) → DeviceState Value → Bytes → Value → DeviceState Value
emit {Value} encoded_len d kind value =
    let e : Event Value = record { seq = d.seq + 1; kind = kind; body = value } in
    let size = encoded_len e in
    let kept = evict (d.events ++ (e, size) ∷ []) (d.event_bytes + size) in
    record d { seq = d.seq + 1; events = kept.0; event_bytes = kept.1 }

-- `cursor.after < event.seq.saturating_sub(1)` for the oldest event.
unfoldable pub is_gap : {Value : Type 0} → List (Event Value × ℕ) → ℕ → Bool
is_gap [] after = false
is_gap ((e, size) ∷ r) after = ltb after (e.seq - 1)

-- The events behind a cursor.
unfoldable pub newer : {Value : Type 0} → ℕ → List (Event Value × ℕ) → List (Event Value)
newer after [] = []
newer after ((e, size) ∷ r) = if ltb after e.seq then e ∷ newer after r else newer after r

unfoldable pub events_after :
    {Value : Type 0} → Bytes → DeviceState Value → Cursor → Result LogError (EventBatch Value)
events_after epoch d cursor = do
  ensure (eq_bytes cursor.epoch epoch) daemon_restarted
  ensure (not (ltb d.seq cursor.after)) cursor_ahead
  ensure (not (is_gap d.events cursor.after)) log_gap
  ok (record {
    cursor = record { epoch = epoch; after = d.seq };
    events = newer cursor.after d.events;
    device_status = d.status;
  })
