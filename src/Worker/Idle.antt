-- ===== src/Worker/Idle.antt =====
-- A pass of the loop of `Service::worker` of src/server.rs with no job in the channel: a write, a read or an
-- attempt to open the port again. What the pass meets from outside is a record.
use idf_remote.Base.{
  ℕ, ◌+◌, Bool, true, false, not, ◌&&◌, List, [], ◌∷◌, Option, none, some, Bytes, eq_bytes,
  is_empty, take, leb, if◌then◌else◌, Result, err, ok, context, ◌>>=◌,
}
use idf_remote.Base.Text.{codes, insert}
use idf_remote.Device.{DeviceId, DeviceDescriptor}
use idf_remote.Logs.{LogRecord, LineDecoder}
use idf_remote.Logs
use idf_remote.Store.Events.{DeviceState, emit}
use idf_remote.Store.Operations.{Store, ApiError, no_such_device, nothing_pending}
use idf_remote.Store.Admit.{refresh_device}
use idf_remote.Store.Reconnect.{MonitorReconnect, retry_later, finish_monitor_reconnect, emit_logs}
use idf_remote.Store.Submit.{is_available}
use idf_remote.Application.Json.{Value, null}
use idf_remote.Application.Session.{Session}
use idf_remote.Duplex.State.{
  DuplexError, already_pending, not_connected, write_in_progress, input_pending, write_late,
  stream_closed, write_broken, panicked, in_session, connecting, is_some,
}
use idf_remote.Duplex.Steps.{Write, Ended, Fed, tick}
use idf_remote.Duplex.Steps
use idf_remote.Worker.State.{
  Host, Worker, no_line, update_device, emit_at, finish_at, abort_duplex, close_lost, lose_reader,
  put_outputs,
}

-- What `serial.read` returns: bytes, `Ok(0)`, one of the three kinds of error that pass, or another.
pub data Read : Type 0 where
  got : Bytes → Read
  closed passing : Read
  broken : Bytes → Read

-- The readings of the clock, what the port and the backend answer, and an entry of the device.
pub record Moment : Type 0 where
  pub clock : ℕ → ℕ
  pub ticked : ℕ
  pub write : Write
  pub time : ℕ
  pub read : Read
  pub expected : ℕ
  pub later : ℕ
  pub reopens_after_boot_entry : Bool
  pub refreshed : Option DeviceDescriptor
  pub open_error : Option Bytes  -- of `open` and `into_monitor`, if they fail

-- `NATIVE_USB_BOOT_REOPEN_DELAY`
abbrev pub reopen_delay : ℕ
reopen_delay = 200

-- `record.text.starts_with("entry 0x")` of the last record.
unfoldable pub ends_at_entry : List LogRecord → Bool
ends_at_entry [] = false
ends_at_entry (r ∷ []) = eq_bytes (take 8 r.text) (codes "entry 0x")
ends_at_entry (r ∷ q ∷ rs) = ends_at_entry (q ∷ rs)

-- `boot_reopen_at.is_some_and(..)`
unfoldable pub is_due : ℕ → Option ℕ → Bool
is_due time none = false
is_due time (some deadline) = leb deadline time

-- A panic of the scheduler is one of the worker, and not an error that it handles.
unfoldable pub has_panicked : DuplexError → Bool
has_panicked panicked = true
has_panicked already_pending = false
has_panicked not_connected = false
has_panicked write_in_progress = false
has_panicked input_pending = false
has_panicked write_late = false
has_panicked stream_closed = false
has_panicked write_broken = false
has_panicked (in_session why) = false

module _ {N : Type 0} (host : Host N) (device_id : DeviceId) where
  -- What follows `duplex.tick`; an error drops the port, and the pass ends: `continue`.
  unfoldable pub on_tick :
      Worker N → Result DuplexError (Ended N) → Result ApiError (Worker N × Bool)
  on_tick w (ok done) = do
    s ← finish_at host device_id w.store true done
    ok (record w { store = s }, false)
  on_tick w (err why) = do
    w' ←
        abort_duplex host device_id
          (record w { reader = false; reader_baud = none; decoder = no_line }) false
          (is_some w.duplex.session) (host.duplex_text why) (host.duplex_text why)
    ok (w', true)

  -- A negotiation that has succeeded is reported.
  unfoldable pub report_connected :
      Store (Value N) → Bool → Option (Session N) → Result ApiError (Store (Value N))
  report_connected s was_connecting none = ok s
  report_connected s was_connecting (some session) =
      let reported = emit_at host device_id s (codes "application_connected") session.info in
      if was_connecting && session.valid then reported else ok s

  -- What follows `duplex.feed`, when its output is in the store.
  unfoldable pub on_fed :
      Worker N → Bool → Result DuplexError (Ended N) → Result ApiError (Worker N)
  on_fed w was_connecting (ok done) = do
    s ← report_connected w.store was_connecting w.duplex.session
    s' ← finish_at host device_id s true done
    ok (record w { store = s' })
  on_fed w was_connecting (err why) =
      let aborted =
        abort_duplex host device_id w true true (host.duplex_text why) (host.duplex_text why) in
      if has_panicked why then err nothing_pending else aborted

  unfoldable pub feed_duplex : Worker N → Bytes → Moment → Result ApiError (Worker N)
  feed_duplex w bytes m = do
    let fed = Steps.feed host.serde host.texts w.duplex bytes m.expected m.later
    let was_connecting = connecting w.duplex
    put ← put_outputs host device_id w.store w.decoder fed.emitted
    on_fed (record w { store = put.0; decoder = put.1; duplex = fed.duplex }) was_connecting
        fed.outcome

  -- Bytes with no session: the raw event, the lines, and the time to open a port that has just booted.
  unfoldable pub log_bytes : Worker N → Bytes → Moment → DeviceState (Value N) → Worker N
  log_bytes w bytes m d =
      let lines = Logs.feed host.lines w.decoder bytes in
      let d' =
        emit_logs host.json (emit host.json.encoded_len d (codes "raw") (host.json.raw bytes))
          lines.1 in
      let reopen =
        m.reopens_after_boot_entry
        && ends_at_entry lines.1
        && is_empty (host.lines.clean_text (lines.0).pending) in
      if d.discard_monitor_read then w else record w {
        store = record (w.store) { devices = insert w.store.devices device_id.text d' };
        decoder = lines.0;
        boot_reopen_at = if reopen then some (m.time + reopen_delay) else none;
      }

  unfoldable pub on_bytes : Worker N → Bytes → Moment → Result ApiError (Worker N)
  on_bytes w bytes m =
      let fed = feed_duplex w bytes m in
      let logged =
        context (w.store.devices device_id.text) no_such_device
        >>= (λ d. ok (log_bytes w bytes m d)) in
      if is_some w.duplex.session then fed else logged

  unfoldable pub on_read : Worker N → Moment → Read → Result ApiError (Worker N)
  on_read w m (got bytes) = on_bytes (record w { boot_reopen_at = none }) bytes m
  on_read w m closed =
      lose_reader host device_id w m.time (codes "serial stream closed") w.reader_baud
  on_read w m passing = ok w
  on_read w m (broken why) =
      lose_reader host device_id (record w { boot_reopen_at = none }) m.time why w.reader_baud

  -- What follows the refresh of the device in an attempt to open the port again.
  unfoldable pub on_refreshed :
      Worker N
      → Moment
      → MonitorReconnect
      → Store (Value N) × Result ApiError DeviceDescriptor
      → Result ApiError (Worker N)
  on_refreshed w m r (s, err why) =
      ok (record w { store = s; reconnect = some (retry_later m.time r) })
  on_refreshed w m r (s, ok device) =
      let reopened =
        update_device host device_id s
          (λ d. finish_monitor_reconnect host.json d r.baud (r.attempts + 1))
        >>= (λ s'. ok (record w {
          store = s';
          reader = true;
          reader_baud = some r.baud;
          reconnect = none;
          boot_reopen_at = none;
          decoder = no_line;
        })) in
      if is_available device.status.availability && not (is_some m.open_error)
      then reopened
      else ok (record w { store = s; reconnect = some (retry_later m.time r) })

  unfoldable pub try_reconnect :
      Worker N → Moment → Option MonitorReconnect → Result ApiError (Worker N)
  try_reconnect w m none = ok w
  try_reconnect w m (some r) =
      let tried = on_refreshed w m r (
        refresh_device host.json.encoded_len null w.store device_id m.refreshed
          (w.store.devices device_id.text)) in
      if leb r.next_attempt m.time then tried else ok w

  -- The pass from the test of `boot_reopen_at` on.
  unfoldable pub read_or_reopen : Worker N → Moment → Result ApiError (Worker N)
  read_or_reopen w m =
      let handed =
        lose_reader host device_id (record w { boot_reopen_at = none }) m.time
          (codes "native USB boot handoff") w.reader_baud in
      let read = on_read w m m.read in
      let reopened = try_reconnect w m w.reconnect in
      if is_due m.time w.boot_reopen_at then handed else if w.reader then read else reopened

  unfoldable pub after_tick : Moment → Worker N × Bool → Result ApiError (Worker N)
  after_tick m (w, ended) = let rest = read_or_reopen w m in if ended then ok w else rest

  unfoldable pub tick_reader : Worker N → Moment → Result ApiError (Worker N)
  tick_reader w m = do
    let written = tick w.duplex m.clock m.ticked m.write
    w' ← on_tick (record w { duplex = written.0 }) written.1
    after_tick m w'

  -- `Err(mpsc::TryRecvError::Empty)`
  unfoldable pub idle : Worker N → Moment → Result ApiError (Worker N)
  idle w m =
      let ticked = tick_reader w m in
      let rest = read_or_reopen w m in if w.reader then ticked else rest

  -- The loop, for the passes that find no job.
  unfoldable pub run : Worker N → List Moment → Result ApiError (Worker N)
  run w [] = ok w
  run w (m ∷ ms) = do w' ← close_lost host device_id w; w'' ← idle w' m; run w'' ms
