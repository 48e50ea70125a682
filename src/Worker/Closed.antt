-- ===== src/Worker/Closed.antt =====
-- A job that has the port for itself in `Service::worker` of src/server.rs, from its start to its end.
use idf_remote.Base.{
  ◌≡◌, refl, ◌∙◌, arith, inl, inr, Bool, true, false, ◌&&◌, Option, none, some, Option-cases,
  Bool-cases, Bytes, if◌then◌else◌, Result, err, ok,
}
use idf_remote.Base.Text.{codes, insert_self}
use idf_remote.Device.{DeviceId, DeviceDescriptor}
use idf_remote.Store.Events.{DeviceState, emit}
use idf_remote.Store.Operations.{Operation, Store, ApiError, is_running, find_operation}
use idf_remote.Store.Admit.{refresh_device}
use idf_remote.Store.Submit.{is_available}
use idf_remote.Application.Json.{Value, null}
use idf_remote.Duplex.State.{Duplex, is_some}
use idf_remote.Duplex.Accounts.{count_open}
use idf_remote.Worker.State.{Host, Worker}
use idf_remote.Worker.Jobs.{runs_at}
use idf_remote.Worker.Exclusive.{
  PortJob, Answers, Reports, Finished, is_monitor, is_erase, close_monitor, hand_off, use_port,
  share_or_use, use_refreshed, try_port,
}
use idf_remote.Worker.Ended.{
  end_operation, end_first, is_ok, end_device, end_found, end_port, port_job,
}
use idf_remote.Worker.Held.{IsSameKeys, IsKnown, known_device, is_some-insert}
use idf_remote.Worker.Steady.{IsHeldIn, IsHeld, held_on, report_session-IsSafe}
use idf_remote.Worker.Passes.{refresh_device-IsSafe}
use idf_remote.Worker.Released.{
  end_operation-id, end_first-same, end_first-found, run_action-IsSafe,
}

module _ {N : Type 0} (host : Host N) (reports : Reports N) (device_id : DeviceId)
    (id : Bytes) where
  -- The state is held, and the operation of the job in the store.
  abbrev IsReady : Store (Value N) → Duplex N → Type 0
  IsReady s d = IsHeldIn host device_id s d × (is_some (find_operation id s.operations) ≡ true)

  abbrev IsReadyFor : Worker N → Type 0
  IsReadyFor w = IsReady w.store w.duplex

  abbrev RunsReady : Result ApiError (Worker N × Result Bytes (Finished N)) → Type 0
  RunsReady r = (after : Worker N × Result Bytes (Finished N)) × (r ≡ ok after) × IsReadyFor after.0

  either-RunsReady :
      (b : Bool) (x y : Result ApiError (Worker N × Result Bytes (Finished N)))
      → RunsReady x
      → RunsReady y
      → RunsReady (if b then x else y)
  either-RunsReady true x y h k = h
  either-RunsReady false x y h k = k

  ready_on :
      (s s' : Store (Value N)) (d : Duplex N)
      → IsReady s d
      → IsSameKeys s s'
      → IsKnown device_id s'
      → IsReady s' d
  ready_on s s' d ((h, k), i) keys k' = ((held_on host device_id s s' d h keys, k'), keys id ∙ i)

  close_monitor-Runs :
      (w : Worker N)
      → IsReadyFor w
      → (w' : Worker N) × (close_monitor host reports device_id w ≡ ok w') × IsReadyFor w'
  unfolding close_monitor count_open
  close_monitor-Runs w r =
      let (s, ran, keys, k) =
        report_session-IsSafe host device_id w.store (is_some w.duplex.session)
          (codes "hardware operation") r.0.1 in
      rw ran (_, refl, ready_on w.store s w.duplex r keys k)

  hand_off-IsReady :
      (w : Worker N) (job : PortJob) (error : Option Bytes) (r : Result Bytes (Finished N))
      → IsReadyFor w
      → IsReadyFor (hand_off host reports device_id w job error r).0
  unfolding hand_off
  hand_off-IsReady w job error (err why) h = h
  hand_off-IsReady w job none (ok done) h = elim (Bool-cases (is_erase job.action)) [
    | inl erased ↦ rw erased h
    | inr other ↦ rw other h
  ]
  hand_off-IsReady w job (some why) (ok done) h = elim (Bool-cases (is_erase job.action)) [
    | inl erased ↦ rw erased h
    | inr other ↦ rw other h
  ]

  use_port-RunsReady :
      (w : Worker N) (job : PortJob) (a : Answers N) (error : Option Bytes)
      → IsReadyFor w
      → RunsReady (use_port host reports device_id w job a error)
  unfolding use_port
  use_port-RunsReady w job a (some why) h = (_, refl, h)
  use_port-RunsReady w job a none h =
      let (after, ran, keys, k) =
        run_action-IsSafe host reports device_id w.store job.action a h.0.1 in
      rw ran (
        _,
        refl,
        hand_off-IsReady (record w { store = after.0 }) job a.handoff_error after.1
            (ready_on w.store after.0 w.duplex h keys k),
      )

  share_or_use-RunsReady :
      (w : Worker N) (job : PortJob) (a : Answers N)
      → IsReadyFor w
      → RunsReady (share_or_use host reports device_id w job a)
  unfolding share_or_use
  share_or_use-RunsReady w job a h =
      let shared = runs_at job.monitor_baud w.reader_baud in
      let done : Result ApiError (Worker N × Result Bytes (Finished N)) =
        ok (w, ok (reports.monitor_shared, none)) in
      let other : Result ApiError (Worker N × Result Bytes (Finished N)) =
        ok (w, err (codes "active application uses a different baud")) in
      either-RunsReady (is_monitor job.action && is_some w.duplex.session)
        (if shared then done else other) (use_port host reports device_id w job a a.open_error)
        (either-RunsReady shared done other (_, refl, h) (_, refl, h))
        (use_port-RunsReady w job a a.open_error h)

  use_refreshed-RunsReady :
      (w : Worker N) (job : PortJob) (a : Answers N)
      (answer : Store (Value N) × Result ApiError DeviceDescriptor)
      → IsReady answer.0 w.duplex
      → RunsReady (use_refreshed host reports device_id w job a answer)
  unfolding use_refreshed
  use_refreshed-RunsReady w job a (s, err why) h = (_, refl, h)
  use_refreshed-RunsReady w job a (s, ok device) h =
      let w' = record w { store = s } in
      let gone : Result ApiError (Worker N × Result Bytes (Finished N)) =
        ok (w', err (host.unavailable device.status.availability)) in
      either-RunsReady (is_available device.status.availability)
        (share_or_use host reports device_id w' job a) gone (share_or_use-RunsReady w' job a h)
        (_, refl, h)

  try_port-RunsReady :
      (w : Worker N) (job : PortJob) (a : Answers N) (preserves : Bool)
      → IsReadyFor w
      → RunsReady (try_port host reports device_id w job a preserves)
  unfolding try_port
  try_port-RunsReady w job a preserves h =
      let answer =
        refresh_device host.json.encoded_len null w.store device_id a.refreshed
          (w.store.devices device_id.text) in
      let (keys, k) =
        refresh_device-IsSafe host device_id host.json.encoded_len null w.store a.refreshed h.0.1 in
      either-RunsReady (preserves && w.reader && runs_at job.monitor_baud w.reader_baud)
        (share_or_use host reports device_id w job a)
        (use_refreshed host reports device_id w job a answer) (share_or_use-RunsReady w job a h)
        (use_refreshed-RunsReady w job a answer (ready_on w.store answer.0 w.duplex h keys k))

  -- The operation has ended, and the device is free again.
  abbrev pub IsOver : Worker N → Type 0
  IsOver w =
      ((op : Operation (Value N)) × (find_operation id w.store.operations ≡ some op)
        × (is_running op ≡ false))
      × ((d : DeviceState (Value N)) × (w.store.devices device_id.text ≡ some d) × (d.busy ≡ false))

  end_device-free :
      (d : DeviceState (Value N)) (has_reader success : Bool) (op : Operation (Value N))
      → (end_device host device_id d has_reader success op).busy ≡ false
  unfolding end_device emit
  end_device-free d has_reader success op = refl

  end_port-IsOver :
      (w : Worker N) (r : Result Bytes (Finished N))
      → IsReadyFor w
      → (w' : Worker N) × (end_port host device_id w id r ≡ ok w')
        × IsHeld host device_id w'
        × IsOver w'
  unfolding end_port end_found
  end_port-IsOver w r ((h, k), i) = elim (Option-cases (find_operation id w.store.operations)) [
    | inl e ↦ absurd (ground arith)
    | inr (op, e) ↦
        let (d, known) = known_device device_id w.store k in
        let kept =
          held_on host device_id w.store
            (record (w.store) { operations = end_first id r w.store.operations }) w.duplex h
            (λ key. end_first-same key id r w.store.operations) in
        rw (e, known)
          (
            _,
            refl,
            (kept, is_some-insert device_id w.store.devices _),
            (
              (
                end_operation op r,
                end_first-found id r w.store.operations op e,
                (end_operation-id op r).1,
              ),
              (
                _,
                insert_self w.store.devices device_id.text _,
                end_device-free d w.reader (is_ok r) (end_operation op r),
              ),
            ),
          )
  ]

-- A job that needs the port for itself, and whose operation is in the store, as are the device and the
-- operations of all that the scheduler has open, comes to its end without a panic, whether the refresh,
-- the opening, the action of the backend, the file or the handing over to the monitor fails or not: its
-- operation is no longer running, the device is free, and all that the scheduler has open has its
-- operations in the store.
pub port_job-IsOver :
    {N : Type 0} (host : Host N) (reports : Reports N) (device_id : DeviceId) (w : Worker N)
    (job : PortJob) (a : Answers N)
    → IsHeld host device_id w
    → is_some (find_operation job.id w.store.operations) ≡ true
    → (w' : Worker N) × (port_job host device_id reports w job a ≡ ok w')
      × IsHeld host device_id w'
      × IsOver host reports device_id job.id w'
unfolding port_job
port_job-IsOver host reports device_id w job a h i =
    elim (Bool-cases (is_monitor job.action && is_some w.duplex.session)) [
      | inl shared ↦
          let (tried, ran, ready) =
            try_port-RunsReady host reports device_id job.id
              (record w { reconnect = none; boot_reopen_at = none }) job a true (h, i) in
          let (w', over, held, free) =
            end_port-IsOver host reports device_id job.id tried.0 tried.1 ready in
          rw shared (rw ran (w', over, held, free))
      | inr alone ↦
          let (w1, closed, ready1) =
            close_monitor-Runs host reports device_id job.id
              (record w { reconnect = none; boot_reopen_at = none }) (h, i) in
          let (tried, ran, ready) =
            try_port-RunsReady host reports device_id job.id w1 job a false ready1 in
          let (w', over, held, free) =
            end_port-IsOver host reports device_id job.id tried.0 tried.1 ready in
          rw alone (rw closed (rw ran (w', over, held, free)))
    ]
