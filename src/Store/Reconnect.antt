-- ===== src/Store/Reconnect.antt =====
-- The steps of src/server.rs around a monitor that lost its device: `MonitorReconnect`,
-- `begin_monitor_reconnect`, `finish_monitor_reconnect` and `application_output`. Times are in
-- milliseconds, and the time now is an argument. JSON values are made by functions that are parameters.
use idf_remote.Base.{ℕ, ◌+◌, ◌*◌, ◌≤◌, ◌≡◌, arith, List, [], ◌∷◌, Bytes, length, leb, if◌then◌else◌}
use idf_remote.Base.Text.{codes}
use idf_remote.Device.{DeviceAvailability, DeviceActivity}
use idf_remote.Logs.{Console, LineDecoder, LogRecord, feed}
use idf_remote.Store.Events.{Event, DeviceState, emit}

abbrev pub initial_delay : ℕ
initial_delay = 50

abbrev pub max_delay : ℕ
max_delay = 100

pub record MonitorReconnect : Type 0 where
  pub baud : ℕ
  pub next_attempt : ℕ
  pub delay : ℕ
  pub attempts : ℕ

unfoldable pub now : ℕ → ℕ → MonitorReconnect
now time baud = record { baud = baud; next_attempt = time; delay = initial_delay; attempts = 0 }

unfoldable pub retry_later : ℕ → MonitorReconnect → MonitorReconnect
retry_later time m = record m {
  attempts = m.attempts + 1;
  next_attempt = time + m.delay;
  delay = if leb (m.delay * 2) max_delay then m.delay * 2 else max_delay;
}

-- `application::Output`
pub data Output (Value : Type 0) : Type 0 where
  console : Bytes → Output Value
  application_event : Value → Output Value
  corrupt_frame : Output Value

-- How the events' values are made: `json!` and `serde_json::to_value`.
pub record Json (Value : Type 0) : Type 0 where
  pub encoded_len : Event Value → ℕ
  pub lost : Bytes → ℕ → Value
  pub found : ℕ → ℕ → Value
  pub raw : Bytes → Value
  pub log : LogRecord → Value
  pub corruption : Value

module _ {Value : Type 0} (json : Json Value) where
  unfoldable pub begin_monitor_reconnect :
      DeviceState Value → ℕ → ℕ → Bytes → DeviceState Value × MonitorReconnect
  begin_monitor_reconnect d time baud reason = (
    emit json.encoded_len
        (record d {
          status = record {
            availability = DeviceAvailability.disconnected;
            activity = DeviceActivity.reconnecting;
          };
        })
        (codes "reconnecting") (json.lost reason baud),
    now time baud,
  )

  unfoldable pub finish_monitor_reconnect : DeviceState Value → ℕ → ℕ → DeviceState Value
  finish_monitor_reconnect d baud attempts =
      emit json.encoded_len
        (record d {
          status = record {
            availability = DeviceAvailability.available;
            activity = DeviceActivity.monitoring;
          };
        })
        (codes "reconnected") (json.found attempts baud)

  -- `for record in decoder.feed(&bytes)`
  unfoldable pub emit_logs : DeviceState Value → List LogRecord → DeviceState Value
  emit_logs d [] = d
  emit_logs d (r ∷ rs) = emit_logs (emit json.encoded_len d (codes "log") (json.log r)) rs

  unfoldable pub put_output :
      Console → DeviceState Value → LineDecoder → Output Value → DeviceState Value × LineDecoder
  put_output con d decoder (console bytes) =
      let fed = feed con decoder bytes in
      (emit_logs (emit json.encoded_len d (codes "raw") (json.raw bytes)) fed.1, fed.0)
  put_output con d decoder (application_event value) =
      (emit json.encoded_len d (codes "application_event") value, decoder)
  put_output con d decoder corrupt_frame =
      (emit json.encoded_len d (codes "application_protocol_error") json.corruption, decoder)

  unfoldable pub application_output :
      Console → DeviceState Value → LineDecoder → Output Value → DeviceState Value × LineDecoder
  application_output con d decoder output =
      let put = put_output con d decoder output in
      if d.discard_monitor_read then (d, decoder) else put

-- Failures of attempts, each at its time, the last one first.
abbrev pub after_failures : List ℕ → MonitorReconnect → MonitorReconnect
after_failures [] m = m
after_failures (time ∷ times) m = retry_later time (after_failures times m)

-- The time of the next attempt, when one has just failed at a time.
abbrev pub IsPaced : ℕ → ℕ → Type 0
IsPaced time next = (time + initial_delay ≤ next) × (next ≤ time + max_delay)

delay_bounds :
    (start baud : ℕ) (times : List ℕ)
    → (initial_delay ≤ (after_failures times (now start baud)).delay)
      × ((after_failures times (now start baud)).delay ≤ max_delay)
unfolding now retry_later
delay_bounds start baud [] = omega arith
delay_bounds start baud (time ∷ times) = ground (arith, delay_bounds start baud times)

-- However often a reconnect has failed, each failure is counted, and the next attempt is made 50 to 100
-- milliseconds after the last one.
pub retry_later-IsPaced :
    (start baud time : ℕ) (times : List ℕ)
    → ((after_failures (time ∷ times) (now start baud)).attempts ≡ length (time ∷ times))
      × IsPaced time (after_failures (time ∷ times) (now start baud)).next_attempt
unfolding now retry_later
retry_later-IsPaced start baud time [] = omega arith
retry_later-IsPaced start baud time (t ∷ times) =
    let (counted, paced) = retry_later-IsPaced start baud t times in
    let (low, high) = delay_bounds start baud (t ∷ times) in
    (omega (arith, counted), (omega (arith, low), omega (arith, high)))
