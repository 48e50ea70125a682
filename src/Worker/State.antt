-- ===== src/Worker/State.antt =====
-- The variables of `Service::worker` of src/server.rs, its steps on the store, and the first lines of its
-- loop. What texts and JSON values are made of is a parameter, as is the time.
use idf_remote.Base.{
  ℕ, Bool, false, not, ◌&&◌, ◌||◌, List, [], ◌∷◌, Option, none, some, Bytes, if◌then◌else◌, Result,
  ok, context, ◌>>=◌,
}
use idf_remote.Base.Text.{codes, insert}
use idf_remote.Device.{DeviceId, DeviceAvailability}
use idf_remote.Logs.{Console, LineDecoder}
use idf_remote.Store.Events.{DeviceState, emit}
use idf_remote.Store.Operations.{Operation, Store, ApiError, no_such_device}
use idf_remote.Store.Completion.{finish_stream}
use idf_remote.Store.Reconnect.{
  MonitorReconnect, Output, Json, begin_monitor_reconnect, application_output,
}
use idf_remote.Application.Json.{Value, Serde}
use idf_remote.Duplex.State.{Duplex, DuplexError, has_pending, is_some}
use idf_remote.Duplex.Steps.{Texts, Ended, abort}

-- What the worker uses: serde_json, `json!`, the console's expressions, and the texts of errors.
pub record Host (N : Type 0) : Type 0 where
  pub serde : Serde N
  pub texts : Texts N
  pub json : Json (Value N)
  pub operation_value : Operation (Value N) → Value N
  pub lines : Console
  pub reason : Bytes → Value N
  pub written : ℕ → Bytes → ℕ → Value N
  pub duplex_text : DuplexError → Bytes
  pub api_text : ApiError → Bytes
  pub unavailable : DeviceAvailability → Bytes

-- The variables of the loop, and the store that it shares. Of `reader` only matters whether it is there.
pub record Worker (N : Type 0) : Type 0 where
  pub store : Store (Value N)
  pub reader : Bool
  pub reader_baud : Option ℕ
  pub duplex : Duplex N
  pub reconnect : Option MonitorReconnect
  pub boot_reopen_at : Option ℕ
  pub decoder : LineDecoder

abbrev pub no_line : LineDecoder
no_line = record { pending = []; seq = 0 }

abbrev pub lost_text : Bytes
lost_text = codes "transport closed; outcome unknown (not retried)"

module _ {N : Type 0} (host : Host N) (device_id : DeviceId) where
  -- A change of the state of the device: `device_mut` and `emit` expect it to be in the store.
  unfoldable pub update_device :
      Store (Value N)
      → (DeviceState (Value N) → DeviceState (Value N))
      → Result ApiError (Store (Value N))
  update_device s change = do
    d ← context (s.devices device_id.text) no_such_device
    ok (record s { devices = insert s.devices device_id.text (change d) })

  -- `self.emit(..)`
  unfoldable pub emit_at : Store (Value N) → Bytes → Value N → Result ApiError (Store (Value N))
  emit_at s kind value = update_device s (λ d. emit host.json.encoded_len d kind value)

  -- `self.finish_stream(..)`
  abbrev pub finish_at : Store (Value N) → Bool → Ended N → Result ApiError (Store (Value N))
  finish_at s has_reader done =
      finish_stream host.json.encoded_len host.operation_value s device_id has_reader done

  -- `if had_session { self.emit(.., "application_disconnected", ..) }`
  unfoldable pub report_session : Store (Value N) → Bool → Bytes → Result ApiError (Store (Value N))
  report_session s had_session why =
      let reported = emit_at s (codes "application_disconnected") (host.reason why) in
      if had_session then reported else ok s

  -- The scheduler is aborted, its operations are ended, and the end of a session is reported.
  unfoldable pub abort_duplex :
      Worker N → (has_reader had_session : Bool) → (text why : Bytes) → Result ApiError (Worker N)
  abort_duplex w has_reader had_session text why = do
    s ← finish_at w.store has_reader (abort w.duplex text).1
    s' ← report_session s had_session why
    ok (record w { store = s'; duplex = (abort w.duplex text).0 })

  -- The first lines of the loop: a stream that is gone takes its requests with it.
  unfoldable pub close_lost : Worker N → Result ApiError (Worker N)
  close_lost w =
      let closed =
        abort_duplex w false (is_some w.duplex.session) lost_text (codes "transport closed") in
      if not w.reader && (is_some w.duplex.session || has_pending w.duplex) then closed else ok w

  -- `reader = None; if let Some(baud) = reader_baud.take() { .. }`
  unfoldable pub lose_reader : Worker N → ℕ → Bytes → Option ℕ → Result ApiError (Worker N)
  lose_reader w time why none = ok (record w { reader = false; reader_baud = none })
  lose_reader w time why (some baud) = do
    d ← context (w.store.devices device_id.text) no_such_device
    let (d', retry) = begin_monitor_reconnect host.json d time baud why
    ok (record w {
      store = record (w.store) { devices = insert w.store.devices device_id.text d' };
      reader = false;
      reader_baud = none;
      reconnect = some retry;
      decoder = no_line;
    })

  -- One `application_output` after the other.
  unfoldable pub put_outputs :
      Store (Value N)
      → LineDecoder
      → List (Output (Value N))
      → Result ApiError (Store (Value N) × LineDecoder)
  put_outputs s decoder [] = ok (s, decoder)
  put_outputs s decoder (output ∷ outputs) = do
    d ← context (s.devices device_id.text) no_such_device
    let (d', decoder') = application_output host.json host.lines d decoder output
    put_outputs (record s { devices = insert s.devices device_id.text d' }) decoder' outputs
