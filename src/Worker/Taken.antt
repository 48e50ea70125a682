-- ===== src/Worker/Taken.antt =====
-- A job of the stream in `Service::worker` of src/server.rs.
use idf_remote.Base.{
  ℕ, ◌+◌, ◌≡◌, refl, ap, ◌∙◌, arith, Bool, true, false, not, ◌&&◌, [], ◌∷◌, Option, none, some,
  Bytes, length, Result, err, ok, if◌then◌else◌,
}
use idf_remote.Base.Text.{codes}
use idf_remote.Device.{DeviceId, DeviceDescriptor}
use idf_remote.Store.Operations.{Store, ApiError}
use idf_remote.Store.Completion.{Lane, application, input}
use idf_remote.Store.Admit.{refresh_device}
use idf_remote.Store.Submit.{is_available}
use idf_remote.Application.Json.{Value, null}
use idf_remote.Duplex.State.{Duplex, DuplexError, has_pending, is_some}
use idf_remote.Duplex.Accounts.{bit, count_open, count_done}
use idf_remote.Duplex.Calls.{count_taken, start_application-count, start_input-count}
use idf_remote.Worker.State.{Host, Worker}
use idf_remote.Worker.Idle.{Moment}
use idf_remote.Worker.Jobs.{
  StreamAction, ask, type_in, Job, lane_of, baud_of, is_connect, is_command, runs_at, started_with,
  start_action, open_port, open_refreshed, open_stream, start_opened, try_job, after_job,
  stream_job,
}
use idf_remote.Worker.Held.{missing}
use idf_remote.Worker.Steady.{IsHeldIn, IsHeld, Runs, held_on, finish_at-IsSafe}
use idf_remote.Worker.Passes.{refresh_device-IsSafe}

-- The operation of the job is in the store.
abbrev pub IsStored : {V : Type 0} → Bytes → Lane → Store V → Type 0
IsStored id lane s = missing s id lane ≡ false

module _ {N : Type 0} (host : Host N) (device_id : DeviceId) (id : Bytes) (lane : Lane) where
  -- What the closure leaves: the state is held, and the operation of the job still there.
  abbrev IsReady : Worker N × Result Bytes (Unit {0}) → Type 0
  IsReady after = IsHeld host device_id after.0 × IsStored id lane after.0.store

  either-IsReady :
      (b : Bool) (x y : Worker N × Result Bytes (Unit {0}))
      → IsReady x
      → IsReady y
      → IsReady (if b then x else y)
  either-IsReady true x y h k = h
  either-IsReady false x y h k = k

  not_taken :
      (s : Store (Value N)) (r : Result DuplexError (Unit {0}))
      → IsStored id lane s
      → count_taken (missing s) id lane r ≡ 0
  not_taken s (err why) i = refl
  not_taken s (ok tt) i = ap bit i

  started_with-IsReady :
      (w : Worker N) (started : Duplex N × Result DuplexError (Unit {0}))
      → IsHeld host device_id w
      → IsStored id lane w.store
      → count_open (missing w.store) started.0
        ≡ count_open (missing w.store) w.duplex + count_taken (missing w.store) id lane started.1
      → IsReady (started_with host device_id w started)
  unfolding started_with
  started_with-IsReady w (d, err why) (h, k) i e = ((omega arith, k), i)
  started_with-IsReady w (d, ok tt) (h, k) i e =
      ((omega (arith, not_taken w.store (ok tt) i), k), i)

  open_port-IsReady :
      (w : Worker N) (baud : ℕ) (e : Option Bytes)
      → IsHeld host device_id w
      → IsStored id lane w.store
      → IsReady (open_port host device_id w baud e)
  unfolding open_port
  open_port-IsReady w baud none h i = (h, i)
  open_port-IsReady w baud (some why) h i = (h, i)

  open_refreshed-IsReady :
      (w : Worker N) (baud : ℕ) (m : Moment)
      (answer : Store (Value N) × Result ApiError DeviceDescriptor)
      → IsHeldIn host device_id answer.0 w.duplex
      → IsStored id lane answer.0
      → IsReady (open_refreshed host device_id w baud m answer)
  unfolding open_refreshed
  open_refreshed-IsReady w baud m (s, err why) h i = (h, i)
  open_refreshed-IsReady w baud m (s, ok device) h i =
      either-IsReady (is_available device.status.availability) _ _
        (open_port-IsReady (record w { store = s }) baud m.open_error h i) (h, i)

  open_stream-IsReady :
      (w : Worker N) (command : Bool) (baud : ℕ) (m : Moment)
      → IsHeld host device_id w
      → IsStored id lane w.store
      → IsReady (open_stream host device_id w command baud m)
  unfolding open_stream
  open_stream-IsReady w command baud m (h, k) i =
      let answer =
        refresh_device host.json.encoded_len null w.store device_id m.refreshed
          (w.store.devices device_id.text) in
      let (keys, k1) =
        refresh_device-IsSafe host device_id host.json.encoded_len null w.store m.refreshed k in
      either-IsReady (w.reader && runs_at baud w.reader_baud) (w, ok tt) _ ((h, k), i)
        (either-IsReady command _ _ ((h, k), i)
          (open_refreshed-IsReady w baud m answer
            (held_on host device_id w.store answer.0 w.duplex h keys, k1) (ap not (keys id) ∙ i)))

module _ {N : Type 0} (host : Host N) (device_id : DeviceId) where
  start_action-IsReady :
      (w : Worker N) (id : Bytes) (time fresh : ℕ) (action : StreamAction N)
      → IsHeld host device_id w
      → IsStored id (lane_of action) w.store
      → IsReady host device_id id
          (lane_of action)
          (start_action host device_id w id time fresh action)
  unfolding start_action
  start_action-IsReady w id time fresh (ask command timeout_ms) h i =
      started_with-IsReady host device_id id application w _ h i (
        start_application-count (missing w.store) host.serde w.duplex id command time timeout_ms
          fresh)
  start_action-IsReady w id time fresh (type_in bytes digest_text baud timeout_ms) h i =
      started_with-IsReady host device_id id input w _ h i (
        start_input-count (missing w.store) w.duplex id bytes time timeout_ms
          (host.written (length bytes) digest_text baud))

  start_opened-IsReady :
      (id : Bytes) (time fresh : ℕ) (action : StreamAction N)
      (opened : Worker N × Result Bytes (Unit {0}))
      → IsReady host device_id id (lane_of action) opened
      → IsReady host device_id id
          (lane_of action)
          (start_opened host device_id id time fresh action opened)
  unfolding start_opened
  start_opened-IsReady id time fresh action (w, err why) r = r
  start_opened-IsReady id time fresh action (w, ok done) (h, i) =
      start_action-IsReady w id time fresh action h i

  try_job-IsReady :
      (w : Worker N) (job : Job N) (m : Moment) (fresh : ℕ)
      → IsHeld host device_id w
      → IsStored job.id (lane_of job.action) w.store
      → IsReady host device_id job.id (lane_of job.action) (try_job host device_id w job m fresh)
  unfolding try_job
  try_job-IsReady w job m fresh h i =
      let lane = lane_of job.action in
      let baud = baud_of job.monitor_baud job.action in
      let same = runs_at baud w.reader_baud in
      let tried =
        start_opened host device_id job.id m.time fresh job.action
          (open_stream host device_id w (is_command job.action) baud m) in
      let in_session = is_some w.duplex.session && not (is_connect job.action) && not same in
      let busy_app : Worker N × Result Bytes (Unit {0}) =
        (w, err (codes "active application uses a different baud")) in
      either-IsReady host device_id job.id lane (has_pending w.duplex && not same)
        (w, err (codes "active stream uses a different baud"))
        (if in_session then busy_app else tried) (h, i)
        (either-IsReady host device_id job.id lane in_session busy_app tried (h, i)
          (start_opened-IsReady job.id m.time fresh job.action _
            (open_stream-IsReady host device_id job.id lane w (is_command job.action) baud m h i)))

  after_job-Runs :
      (id : Bytes) (lane : Lane) (after : Worker N × Result Bytes (Unit {0}))
      → IsReady host device_id id lane after
      → Runs host device_id (after_job host device_id id lane after)
  unfolding after_job
  after_job-Runs id lane (w, ok done) (h, i) = (_, refl, h)
  after_job-Runs id lane (w, err why) ((h, k), i) =
      let (s, ran, keys, k1) =
        finish_at-IsSafe host device_id w.store w.reader
          (record { key = id; lane = lane; result = err why } ∷ []) k
          (unfold count_done in omega (arith, ap bit i)) in
      rw ran (_, refl, (held_on host device_id w.store s w.duplex h keys, k1))

  -- A request or input whose operation is in the store is taken on or ended without a panic, whatever the
  -- baud, the state of the port, the answer of the backend and the session are; and all that the scheduler
  -- has open has its operations in the store after it.
  pub stream_job-Runs :
      (w : Worker N) (job : Job N) (m : Moment) (fresh : ℕ)
      → IsHeld host device_id w
      → missing w.store job.id (lane_of job.action) ≡ false
      → Runs host device_id (stream_job host device_id w job m fresh)
  unfolding stream_job
  stream_job-Runs w job m fresh h i =
      after_job-Runs job.id (lane_of job.action) _ (try_job-IsReady w job m fresh h i)
