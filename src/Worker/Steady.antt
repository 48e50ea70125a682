-- ===== src/Worker/Steady.antt =====
-- The steps of `Service::worker` of src/server.rs and the operations of the scheduler in the store.
use idf_remote.Base.{
  ℕ, ◌≡◌, refl, ap, ◌∙◌, Bool, true, false, not, ◌&&◌, ◌||◌, List, [], ◌∷◌, Option, none, some,
  Bytes, Result, ok, if◌then◌else◌,
}
use idf_remote.Base.Text.{insert, codes}
use idf_remote.Device.{DeviceId}
use idf_remote.Logs.{LineDecoder}
use idf_remote.Store.Events.{DeviceState, emit}
use idf_remote.Store.Operations.{Store, ApiError}
use idf_remote.Store.Reconnect.{Output, application_output}
use idf_remote.Application.Json.{Value}
use idf_remote.Duplex.State.{Duplex, has_pending, is_some}
use idf_remote.Duplex.Steps.{Ended}
use idf_remote.Duplex.Accounts.{count_open, count_done, abort-count}
use idf_remote.Duplex.Once.{count_open-abort}
use idf_remote.Worker.State.{
  Host, Worker, update_device, emit_at, finish_at, report_session, abort_duplex, close_lost,
  lose_reader, put_outputs, lost_text,
}
use idf_remote.Worker.Held.{
  missing, IsSameKeys, IsKnown, IsSafe, known_device, is_some-insert, finish_stream-IsSafe,
  count_open-cong,
}

module _ {N : Type 0} (host : Host N) (device_id : DeviceId) where
  -- What is open in a scheduler has its operations in the store, which has the device too.
  abbrev pub IsHeldIn : Store (Value N) → Duplex N → Type 0
  IsHeldIn s d = (count_open (missing s) d ≡ 0) × IsKnown device_id s

  abbrev pub IsHeld : Worker N → Type 0
  IsHeld w = IsHeldIn w.store w.duplex

  -- A step that does not panic, with what holds after it.
  abbrev pub Runs : Result ApiError (Worker N) → Type 0
  Runs r = (w : Worker N) × (r ≡ ok w) × IsHeld w

  pub held_on :
      (s s' : Store (Value N)) (d : Duplex N)
      → count_open (missing s) d ≡ 0
      → IsSameKeys s s'
      → count_open (missing s') d ≡ 0
  held_on s s' d h keys =
      count_open-cong (missing s') (missing s) (λ key lane. ap not (keys key)) d ∙ h

  pub update_device-IsSafe :
      (s : Store (Value N)) (change : DeviceState (Value N) → DeviceState (Value N))
      → IsKnown device_id s
      → IsSafe device_id s (update_device host device_id s change)
  unfolding update_device
  update_device-IsSafe s change k =
      let (d, known) = known_device device_id s k in
      rw known (_, refl, λ key. refl, is_some-insert device_id s.devices (change d))

  pub emit_at-IsSafe :
      (s : Store (Value N)) (kind : Bytes) (value : Value N)
      → IsKnown device_id s
      → IsSafe device_id s (emit_at host device_id s kind value)
  unfolding emit_at
  emit_at-IsSafe s kind value k =
      update_device-IsSafe s (λ d. emit host.json.encoded_len d kind value) k

  pub either-IsSafe :
      (b : Bool) (s : Store (Value N)) (r : Result ApiError (Store (Value N)))
      → IsKnown device_id s
      → IsSafe device_id s r
      → IsSafe device_id s (if b then r else ok s)
  either-IsSafe true s r k h = h
  either-IsSafe false s r k h = (s, refl, λ key. refl, k)

  pub report_session-IsSafe :
      (s : Store (Value N)) (had_session : Bool) (why : Bytes)
      → IsKnown device_id s
      → IsSafe device_id s (report_session host device_id s had_session why)
  unfolding report_session
  report_session-IsSafe s had_session why k =
      either-IsSafe had_session s _ k
        (emit_at-IsSafe s (codes "application_disconnected") (host.reason why) k)

  pub finish_at-IsSafe :
      (s : Store (Value N)) (has_reader : Bool) (done : Ended N)
      → IsKnown device_id s
      → count_done (missing s) done ≡ 0
      → IsSafe device_id s (finish_at host device_id s has_reader done)
  finish_at-IsSafe s has_reader done k e =
      finish_stream-IsSafe device_id host.json.encoded_len host.operation_value s has_reader done k
        e

  pub abort_duplex-Runs :
      (w : Worker N) (has_reader had_session : Bool) (text why : Bytes)
      → IsHeld w
      → Runs (abort_duplex host device_id w has_reader had_session text why)
  unfolding abort_duplex
  abort_duplex-Runs w has_reader had_session text why (h, k) =
      let ended = abort-count (missing w.store) w.duplex text in
      let (s, one, keys, k1) = finish_at-IsSafe w.store has_reader _ k (ended ∙ h) in
      let (s', two, keys', k2) = report_session-IsSafe s had_session why k1 in
      rw one
        (rw two (_, refl, (count_open-abort (missing s') host.serde host.texts w.duplex text, k2)))

  pub either-Runs :
      (b : Bool) (x y : Result ApiError (Worker N)) → Runs x → Runs y → Runs (if b then x else y)
  either-Runs true x y h k = h
  either-Runs false x y h k = k

  -- A stream that is lost takes its requests with it.
  pub close_lost-Runs : (w : Worker N) → IsHeld w → Runs (close_lost host device_id w)
  unfolding close_lost
  close_lost-Runs w h =
      either-Runs (not w.reader && (is_some w.duplex.session || has_pending w.duplex)) _ (ok w)
        (abort_duplex-Runs w false (is_some w.duplex.session) lost_text (codes "transport closed")
          h)
        (w, refl, h)

  pub lose_reader-Runs :
      (w : Worker N) (time : ℕ) (why : Bytes) (baud : Option ℕ)
      → IsHeld w
      → Runs (lose_reader host device_id w time why baud)
  unfolding lose_reader
  lose_reader-Runs w time why none h = (_, refl, h)
  lose_reader-Runs w time why (some baud) (h, k) =
      let (d, known) = known_device device_id w.store k in
      rw known (_, refl, (h, is_some-insert device_id w.store.devices _))

  -- A store and a line decoder after output of the device.
  pub put_outputs-IsSafe :
      (s : Store (Value N)) (decoder : LineDecoder) (outputs : List (Output (Value N)))
      → IsKnown device_id s
      → (after : Store (Value N) × LineDecoder) × (put_outputs host device_id s decoder outputs
          ≡ ok after)
        × IsSameKeys s after.0
        × IsKnown device_id after.0
  unfolding put_outputs
  put_outputs-IsSafe s decoder [] k = ((s, decoder), refl, λ key. refl, k)
  put_outputs-IsSafe s decoder (output ∷ outputs) k =
      let (d, known) = known_device device_id s k in
      let put = application_output host.json host.lines d decoder output in
      let s1 = record s { devices = insert s.devices device_id.text put.0 } in
      let (after, ran, keys, k1) =
        put_outputs-IsSafe s1 put.1 outputs (is_some-insert device_id s.devices put.0) in
      rw known (after, ran, keys, k1)
