-- ===== src/Http/Reports.antt =====
-- The handlers of src/server.rs that read events: `auth`, `events`, `logs`, `wait` and `stream`. What a
-- loop meets from outside is a list of rounds, and the regular expressions are a parameter.
use idf_remote.Base.{
  ℕ, Bool, false, not, ◌&&◌, ◌||◌, List, [], ◌∷◌, ◌++◌, map, Option, some, none, Bytes, length,
  is_empty, eq_bytes, ltb, ◌==◌, if◌then◌else◌, Result, ok, err, ensure, context, ◌>>=◌, ◌>>◌,
}
use idf_remote.Base.Text.{codes}
use idf_remote.Device.{DeviceId, DeviceDescriptor}
use idf_remote.Store.Events.{Event, Cursor, DeviceState, EventBatch, LogError, events_after}
use idf_remote.Store.Reading.{authorize_device, ReadError}

pub data ReportError : Type 0 where
  wait_too_long invalid_wait invalid_pattern empty_pattern shutting_down wait_timeout : ReportError
  unauthorized : ReportError
  still_waiting : ReportError  -- the rounds are used up
  log_error : LogError → ReportError
  read_error : ReadError → ReportError

-- What a loop meets in a round: the device as the store has it, whether the daemon is running, and
-- whether the deadline has come.
pub record Round (Value : Type 0) : Type 0 where
  pub state : DeviceState Value
  pub is_running : Bool
  pub is_late : Bool

-- What a subscriber is sent.
pub data Sent (Value : Type 0) : Type 0 where
  event : Event Value → Sent Value
  gap : LogError → Sent Value

-- `auth`, with the token of the service and the header of the request.
unfoldable pub auth : Option Bytes → Option Bytes → Result ReportError (Unit {0})
auth none header = ok tt
auth (some token) none = err unauthorized
auth (some token) (some value) = ensure (eq_bytes value (codes "Bearer " ++ token)) unauthorized

abbrev pub map_log : {A : Type 0} → Result LogError A → Result ReportError A
map_log (err why) = err (log_error why)
map_log (ok a) = ok a

abbrev pub map_read : {A : Type 0} → Result ReadError A → Result ReportError A
map_read (err why) = err (read_error why)
map_read (ok a) = ok a

module _ {Value : Type 0} where
  -- The loop of `events`.
  unfoldable pub poll_rounds :
      Bytes → Cursor → List (Round Value) → Result ReportError (EventBatch Value)
  poll_rounds epoch cursor [] = err still_waiting
  poll_rounds epoch cursor (r ∷ rs) = do
    batch ← map_log (events_after epoch r.state cursor)
    let rest = poll_rounds epoch cursor rs
    if not (is_empty batch.events) || r.is_late || not r.is_running then ok batch else rest

  unfoldable pub events :
      List DeviceDescriptor
      → Bytes
      → DeviceId
      → Cursor
      → ℕ
      → List (Round Value)
      → Result ReportError (EventBatch Value)
  events runtimes epoch id cursor wait_ms rounds = do
    map_read (authorize_device runtimes id)
    ensure (not (ltb 1000 wait_ms)) wait_too_long
    poll_rounds epoch cursor rounds

  -- `event.kind == "log"`
  abbrev pub is_log : Event Value → Bool
  is_log e = eq_bytes e.kind (codes "log")

  -- `batch.events.retain(|event| event.kind == "log")`
  unfoldable pub retain_logs : List (Event Value) → List (Event Value)
  retain_logs [] = []
  retain_logs (e ∷ es) = if is_log e then e ∷ retain_logs es else retain_logs es

  unfoldable pub logs :
      List DeviceDescriptor
      → Bytes
      → DeviceId
      → Cursor
      → DeviceState Value
      → Result ReportError (EventBatch Value)
  logs runtimes epoch id cursor state = do
    map_read (authorize_device runtimes id)
    batch ← map_log (events_after epoch state cursor)
    ok (record batch { events = retain_logs batch.events })

  -- `event.data["text"].as_str()`, and a pattern.
  module _ (text_of : Value → Option Bytes) (is_match : Bytes → Bool) where
    abbrev pub text_matches : Option Bytes → Bool
    text_matches none = false
    text_matches (some text) = is_match text

    -- The loop over the events of a batch.
    unfoldable pub find_match : List (Event Value) → Option (Event Value)
    find_match [] = none
    find_match (e ∷ es) =
        let rest = find_match es in
        if is_log e && text_matches (text_of e.body) then some e else rest

    abbrev pub found_or :
        Option (Event Value) → Result ReportError (Event Value) → Result ReportError (Event Value)
    found_or none rest = rest
    found_or (some e) rest = ok e

    -- The loop of `wait`.
    unfoldable pub wait_rounds :
        Bytes → Cursor → List (Round Value) → Result ReportError (Event Value)
    wait_rounds epoch cursor [] = err still_waiting
    wait_rounds epoch cursor (r ∷ rs) = do
      ensure r.is_running shutting_down
      batch ← map_log (events_after epoch r.state cursor)
      let rest = wait_rounds epoch batch.cursor rs
      found_or (find_match batch.events) (if r.is_late then err wait_timeout else rest)

  unfoldable pub wait :
      (Value → Option Bytes)
      → (Bytes → Option (Bytes → Bool))
      → List DeviceDescriptor
      → Bytes
      → DeviceId
      → Cursor
      → Bytes
      → ℕ
      → List (Round Value)
      → Result ReportError (Event Value)
  wait text_of compile runtimes epoch id cursor pattern timeout_ms rounds = do
    map_read (authorize_device runtimes id)
    ensure (not (timeout_ms == 0 || ltb 300000 timeout_ms || ltb 4096 (length pattern)))
        invalid_wait
    is_match ← context (compile pattern) invalid_pattern
    ensure (not (is_match [])) empty_pattern
    wait_rounds text_of is_match epoch cursor rounds

  -- What `stream` sends of a batch, and what comes behind it.
  unfoldable pub sent_batch :
      Result LogError (EventBatch Value) → (Cursor → List (Sent Value)) → List (Sent Value)
  sent_batch (err why) rest = gap why ∷ []
  sent_batch (ok batch) rest = map event batch.events ++ rest batch.cursor

  -- The loop of `stream`.
  unfoldable pub stream_rounds : Bytes → Cursor → List (Round Value) → List (Sent Value)
  stream_rounds epoch cursor [] = []
  stream_rounds epoch cursor (r ∷ rs) =
      let sent =
        sent_batch (events_after epoch r.state cursor) (λ next. stream_rounds epoch next rs) in
      if r.is_running then sent else []

  unfoldable pub stream :
      List DeviceDescriptor
      → Bytes
      → DeviceId
      → Cursor
      → DeviceState Value
      → List (Round Value)
      → Result ReportError (List (Sent Value))
  stream runtimes epoch id cursor state rounds = do
    map_read (authorize_device runtimes id)
    batch ← map_log (events_after epoch state cursor)
    ok (stream_rounds epoch cursor rounds)
