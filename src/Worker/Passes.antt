-- ===== src/Worker/Passes.antt =====
-- A pass of the loop of `Service::worker` of src/server.rs with no job.
use idf_remote.Base.{
  ℕ, ◌+◌, ◌≡◌, ◌≢◌, refl, ap, ◌∙◌, arith, inl, inr, Bool, true, false, not, ◌&&◌, List, [], ◌∷◌,
  Option, none, some, Bool-cases, Bytes, Result, err, ok, leb,
}
use idf_remote.Base.Text.{codes}
use idf_remote.Device.{DeviceId, DeviceDescriptor}
use idf_remote.Store.Events.{Event, DeviceState}
use idf_remote.Store.Operations.{Store, ApiError}
use idf_remote.Store.Admit.{refresh_device}
use idf_remote.Store.Reconnect.{MonitorReconnect, finish_monitor_reconnect}
use idf_remote.Store.Submit.{is_available}
use idf_remote.Application.Json.{Value, null}
use idf_remote.Application.Session.{Session}
use idf_remote.Duplex.State.{
  Duplex, DuplexError, already_pending, not_connected, write_in_progress, input_pending, write_late,
  stream_closed, write_broken, panicked, in_session, connecting, is_some,
}
use idf_remote.Duplex.Panics.{feed-panicked}
use idf_remote.Duplex.Steps.{Ended, Fed, tick}
use idf_remote.Duplex.Steps
use idf_remote.Duplex.Accounts.{count_open, count_outcome, tick-count}
use idf_remote.Duplex.Calls.{feed-count}
use idf_remote.Worker.State.{Host, Worker, no_line}
use idf_remote.Worker.Idle.{
  Moment, Read, got, closed, passing, broken, on_tick, report_connected, has_panicked, on_fed,
  feed_duplex, log_bytes, on_bytes, on_read, on_refreshed, try_reconnect, is_due, read_or_reopen,
  after_tick, tick_reader, idle, run,
}
use idf_remote.Worker.Held.{
  missing, IsSameKeys, IsKnown, IsSafe, known_device, is_some-insert, count_done-cong,
}
use idf_remote.Worker.Steady.{
  IsHeldIn, IsHeld, Runs, held_on, update_device-IsSafe, emit_at-IsSafe, either-IsSafe,
  finish_at-IsSafe, abort_duplex-Runs, either-Runs, close_lost-Runs, lose_reader-Runs,
  put_outputs-IsSafe,
}

has_panicked-no : (why : DuplexError) → why ≢ panicked → has_panicked why ≡ false
unfolding has_panicked
has_panicked-no panicked h = absurd (h refl)
has_panicked-no already_pending h = refl
has_panicked-no not_connected h = refl
has_panicked-no write_in_progress h = refl
has_panicked-no input_pending h = refl
has_panicked-no write_late h = refl
has_panicked-no stream_closed h = refl
has_panicked-no write_broken h = refl
has_panicked-no (in_session why) h = refl

module _ {N : Type 0} (host : Host N) (device_id : DeviceId) where
  -- The operations that a result ends, and those that are open after it, are in the store.
  IsAccounted : Store (Value N) → Duplex N → Result DuplexError (Ended N) → Type 0
  IsAccounted s d r =
      (count_open (missing s) d + count_outcome (missing s) r ≡ 0) × IsKnown device_id s

  on_tick-Runs :
      (w : Worker N) (r : Result DuplexError (Ended N))
      → IsAccounted w.store w.duplex r
      → (after : Worker N × Bool) × (on_tick host device_id w r ≡ ok after)
        × IsHeld host device_id after.0
  unfolding on_tick IsAccounted
  on_tick-Runs w (ok done) (h, k) =
      let (s, ran, keys, k1) = finish_at-IsSafe host device_id w.store true done k (omega arith) in
      rw ran (_, refl, (held_on host device_id w.store s w.duplex (omega arith) keys, k1))
  on_tick-Runs w (err why) (h, k) =
      let (w', ran, held) =
        abort_duplex-Runs host device_id
          (record w { reader = false; reader_baud = none; decoder = no_line }) false
          (is_some w.duplex.session) (host.duplex_text why) (host.duplex_text why)
          (omega arith, k) in
      rw ran (_, refl, held)

  report_connected-IsSafe :
      (s : Store (Value N)) (was_connecting : Bool) (o : Option (Session N))
      → IsKnown device_id s
      → IsSafe device_id s (report_connected host device_id s was_connecting o)
  unfolding report_connected
  report_connected-IsSafe s was_connecting none k = (s, refl, λ key. refl, k)
  report_connected-IsSafe s was_connecting (some session) k =
      either-IsSafe host device_id (was_connecting && session.valid) s _ k
        (emit_at-IsSafe host device_id s (codes "application_connected") session.info k)

  on_fed-Runs :
      (w : Worker N) (was_connecting : Bool) (r : Result DuplexError (Ended N))
      → r ≢ err panicked
      → IsAccounted w.store w.duplex r
      → Runs host device_id (on_fed host device_id w was_connecting r)
  unfolding on_fed IsAccounted
  on_fed-Runs w was_connecting (ok done) calm (h, k) =
      let (s, one, keys, k1) = report_connected-IsSafe w.store was_connecting w.duplex.session k in
      let fewer =
        count_done-cong (missing s) (missing w.store) (λ key lane. ap not (keys key)) done in
      let (s', two, keys', k2) =
        finish_at-IsSafe host device_id s true done k1 (fewer ∙ omega arith) in
      rw one (
        rw two (
          _,
          refl,
          (
            held_on host device_id w.store s' w.duplex (omega arith) (λ key. keys' key ∙ keys key),
            k2,
          ),
        ))
  on_fed-Runs w was_connecting (err why) calm (h, k) =
      rw (has_panicked-no why (λ e. calm (ap err e))) (
        abort_duplex-Runs host device_id w true true (host.duplex_text why) (host.duplex_text why)
          (omega arith, k))

  feed_duplex-Runs :
      (w : Worker N) (bytes : Bytes) (m : Moment)
      → IsHeld host device_id w
      → Runs host device_id (feed_duplex host device_id w bytes m)
  unfolding feed_duplex IsAccounted
  feed_duplex-Runs w bytes m (h, k) =
      let fed = Steps.feed host.serde host.texts w.duplex bytes m.expected m.later in
      let (put, ran, keys, k1) =
        put_outputs-IsSafe host device_id w.store w.decoder fed.emitted k in
      let counted =
        feed-count (missing put.0) host.serde host.texts w.duplex bytes m.expected m.later in
      rw ran (
        on_fed-Runs _ (connecting w.duplex) fed.outcome
          (feed-panicked host.serde host.texts w.duplex bytes m.expected m.later)
          (counted ∙ held_on host device_id w.store put.0 w.duplex h keys, k1))

  log_bytes-IsHeld :
      (w : Worker N) (bytes : Bytes) (m : Moment) (d : DeviceState (Value N))
      → IsHeld host device_id w
      → IsHeld host device_id (log_bytes host device_id w bytes m d)
  unfolding log_bytes
  log_bytes-IsHeld w bytes m d (h, k) = elim (Bool-cases d.discard_monitor_read) [
    | inl discarded ↦ rw discarded (h, k)
    | inr kept ↦ rw kept (h, is_some-insert device_id w.store.devices _)
  ]

  on_bytes-Runs :
      (w : Worker N) (bytes : Bytes) (m : Moment)
      → IsHeld host device_id w
      → Runs host device_id (on_bytes host device_id w bytes m)
  unfolding on_bytes
  on_bytes-Runs w bytes m h =
      let (d, known) = known_device device_id w.store h.1 in
      either-Runs host device_id (is_some w.duplex.session) _ _ (feed_duplex-Runs w bytes m h)
        (rw known (_, refl, log_bytes-IsHeld w bytes m d h))

  on_read-Runs :
      (w : Worker N) (m : Moment) (read : Read)
      → IsHeld host device_id w
      → Runs host device_id (on_read host device_id w m read)
  unfolding on_read
  on_read-Runs w m (got bytes) h = on_bytes-Runs (record w { boot_reopen_at = none }) bytes m h
  on_read-Runs w m closed h = lose_reader-Runs host device_id w m.time _ w.reader_baud h
  on_read-Runs w m passing h = (w, refl, h)
  on_read-Runs w m (broken why) h =
      lose_reader-Runs host device_id (record w { boot_reopen_at = none }) m.time why w.reader_baud
        h

  -- A refresh keeps the keys and the device.
  pub refresh_device-IsSafe :
      (encoded_len : Event (Value N) → ℕ) (empty : Value N) (s : Store (Value N))
      (found : Option DeviceDescriptor)
      → IsKnown device_id s
      → let s' =
          (refresh_device encoded_len empty s device_id found (s.devices device_id.text)).0 in
        IsSameKeys s s' × IsKnown device_id s'
  unfolding refresh_device
  refresh_device-IsSafe encoded_len empty s none k = (λ key. refl, k)
  refresh_device-IsSafe encoded_len empty s (some device) k =
      let (d, known) = known_device device_id s k in
      rw known (λ key. refl, is_some-insert device_id s.devices _)

  on_refreshed-Runs :
      (w : Worker N) (m : Moment) (r : MonitorReconnect)
      (answer : Store (Value N) × Result ApiError DeviceDescriptor)
      → IsHeldIn host device_id answer.0 w.duplex
      → Runs host device_id (on_refreshed host device_id w m r answer)
  unfolding on_refreshed
  on_refreshed-Runs w m r (s, err why) h = (_, refl, h)
  on_refreshed-Runs w m r (s, ok device) (h, k) =
      let (s', ran, keys, k1) =
        update_device-IsSafe host device_id s
          (λ d. finish_monitor_reconnect host.json d r.baud (r.attempts + 1)) k in
      either-Runs host device_id
        (is_available device.status.availability && not (is_some m.open_error)) _ _
        (rw ran (_, refl, (held_on host device_id s s' w.duplex h keys, k1))) (_, refl, (h, k))

  try_reconnect-Runs :
      (w : Worker N) (m : Moment) (o : Option MonitorReconnect)
      → IsHeld host device_id w
      → Runs host device_id (try_reconnect host device_id w m o)
  unfolding try_reconnect
  try_reconnect-Runs w m none h = (w, refl, h)
  try_reconnect-Runs w m (some r) (h, k) =
      let answer =
        refresh_device host.json.encoded_len null w.store device_id m.refreshed
          (w.store.devices device_id.text) in
      let (keys, k1) = refresh_device-IsSafe host.json.encoded_len null w.store m.refreshed k in
      either-Runs host device_id (leb r.next_attempt m.time) _ (ok w)
        (on_refreshed-Runs w m r answer
          (held_on host device_id w.store answer.0 w.duplex h keys, k1))
        (w, refl, (h, k))

  read_or_reopen-Runs :
      (w : Worker N) (m : Moment)
      → IsHeld host device_id w
      → Runs host device_id (read_or_reopen host device_id w m)
  unfolding read_or_reopen
  read_or_reopen-Runs w m h =
      either-Runs host device_id (is_due m.time w.boot_reopen_at) _ _
        (lose_reader-Runs host device_id (record w { boot_reopen_at = none }) m.time _ w.reader_baud
          h)
        (either-Runs host device_id w.reader _ _ (on_read-Runs w m m.read h)
          (try_reconnect-Runs w m w.reconnect h))

  tick_reader-Runs :
      (w : Worker N) (m : Moment)
      → IsHeld host device_id w
      → Runs host device_id (tick_reader host device_id w m)
  unfolding tick_reader after_tick IsAccounted
  tick_reader-Runs w m (h, k) =
      let written = tick w.duplex m.clock m.ticked m.write in
      let counted = tick-count (missing w.store) w.duplex m.clock m.ticked m.write in
      let (after, ran, held) =
        on_tick-Runs (record w { duplex = written.0 }) written.1 (counted ∙ h, k) in
      rw ran (
        either-Runs host device_id after.1 (ok after.0) _ (after.0, refl, held)
          (read_or_reopen-Runs after.0 m held))

  pub idle-Runs :
      (w : Worker N) (m : Moment)
      → IsHeld host device_id w
      → Runs host device_id (idle host device_id w m)
  unfolding idle
  idle-Runs w m h =
      either-Runs host device_id w.reader _ _ (tick_reader-Runs w m h) (read_or_reopen-Runs w m h)

  -- When the device and the operations of all that the scheduler has open are in the store, then however
  -- the port, the clock, the backend and the application behave, the passes of the worker's loop that find
  -- no job never panic, neither in the scheduler nor on the store: not one request or input that the
  -- scheduler ends is missing from the store, and those that it still has open are in the store after them.
  pub run-Runs :
      (w : Worker N) (ms : List Moment)
      → IsHeld host device_id w
      → Runs host device_id (run host device_id w ms)
  unfolding run
  run-Runs w [] h = (w, refl, h)
  run-Runs w (m ∷ ms) h =
      let (w1, one, h1) = close_lost-Runs host device_id w h in
      let (w2, two, h2) = idle-Runs w1 m h1 in rw one (rw two (run-Runs w2 ms h2))
