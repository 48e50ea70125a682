-- ===== src/Store/Submitted.antt =====
-- `Service::submit` of src/server.rs keeps the store whole, and a request that is sent again gets the
-- operation that it got before.
use idf_remote.Base.{
  All-map, ℕ, ◌+◌, ◌≡◌, refl, arith, Bool, true, false, not, ◌&&◌, inl, inr, Option, some, none,
  length, if◌then◌else◌, Bool-cases, Option-cases, ok, err, Result,
}
use idf_remote.Base.Text.{insert}
use idf_remote.Device.{DeviceId, DeviceDescriptor, DeviceStatus}
use idf_remote.Wire.Requests.{DeviceRequest}
use idf_remote.Store.Events.{Event, DeviceState, emit}
use idf_remote.Store.Operations.{
  Operation, RequestIdentity, Store, ApiError, expire, push_operation,
}
use idf_remote.Store.Submit.{
  Action, Surroundings, begin, compatible, roll_back, new_operation, uses_monitor,
}
use idf_remote.Store.Admit.{
  Lanes, lanes_of, begun, set_busy, started, send_job, admit_device, admit_key, admit,
  refresh_device, meet_device, submit_checked, submit_met, submit_replayed, submit_allowed, submit,
}
use idf_remote.Store.Whole.{IsWhole, IsNamed-insert}
use idf_remote.Store.Keeps.{expire-IsExpired, started-IsWhole, undone-IsWhole}

module _ {Value : Type 0} (encoded_len : Event Value → ℕ) (empty_object : Value) where
  either-IsWhole :
      {R : Type 0} (b : Bool) (x y : Store Value × R)
      → IsWhole x.0
      → IsWhole y.0
      → IsWhole (if b then x else y).0
  either-IsWhole true x y h k = h
  either-IsWhole false x y h k = k

  pub begun_later :
      (d : DeviceState Value) (l : Lanes) → (begun encoded_len empty_object d l).seq ≡ d.seq + 1
  unfolding begun begin emit
  begun_later d l = refl

  admitted-IsWhole :
      (sent : Bool) (s : Store Value) (id : DeviceId) (identity : RequestIdentity) (l : Lanes)
      (d : DeviceState Value)
      → s.devices id.text ≡ some d
      → IsWhole s
      → IsWhole
          (send_job encoded_len empty_object sent
            (started encoded_len empty_object s id identity
              (begun encoded_len empty_object d l)
              (new_operation s.epoch id identity (begun encoded_len empty_object d l).seq))
            id
            identity
            (set_busy encoded_len empty_object (begun encoded_len empty_object d l))
            l
            (new_operation s.epoch id identity (begun encoded_len empty_object d l).seq)).0
  unfolding send_job started push_operation
  admitted-IsWhole true s id identity l d known w =
      let d' = begun encoded_len empty_object d l in
      let s0 : Store Value = record s { devices = insert s.devices id.text d' } in
      started-IsWhole s id d d' (set_busy encoded_len empty_object d')
        (expire (length s.operations) s0) known (omega (arith, begun_later d l)) (omega arith)
        (expire-IsExpired s id.text d' (length s.operations) w) identity _ _ refl refl
  admitted-IsWhole false s id identity l d known w =
      let d' = begun encoded_len empty_object d l in
      let s0 : Store Value = record s { devices = insert s.devices id.text d' } in
      undone-IsWhole s id d d' (set_busy encoded_len empty_object d')
        (expire (length s.operations) s0) known (omega (arith, begun_later d l)) (omega arith)
        (expire-IsExpired s id.text d' (length s.operations) w) identity _ _
        (roll_back (set_busy encoded_len empty_object d') l.app l.input)
        (unfold roll_back in omega arith)

  admit_device-IsWhole :
      (sent : Bool) (s : Store Value) (id : DeviceId) (identity : RequestIdentity) (l : Lanes)
      → IsWhole s
      → IsWhole (admit_device encoded_len empty_object sent s id identity l (s.devices id.text)).0
  unfolding admit_device
  admit_device-IsWhole sent s id identity l w = elim (Option-cases (s.devices id.text)) [
    | inl e ↦ rw e w
    | inr (d, e) ↦ rw e (elim (Bool-cases (d.busy && not (compatible d l.app l.input))) [
      | inl refused ↦ rw refused w
      | inr taken ↦ rw taken (admitted-IsWhole sent s id identity l d e w)
    ])
  ]

  -- Whatever the admission of a request comes to, refused, admitted or undone since the worker does not
  -- take the job, the store stays whole: the operation of every stored key is there, under that key,
  -- and each operation has the name of its device and of an event that has been reported.
  pub admit-IsWhole :
      (sent : Bool) (s : Store Value) (id : DeviceId) (identity : RequestIdentity) (l : Lanes)
      → IsWhole s
      → IsWhole (admit encoded_len empty_object sent s id identity l).0
  unfolding admit admit_key
  admit-IsWhole sent s id identity l w = elim (Option-cases (s.idempotency identity.key)) [
    | inl e ↦ rw e (admit_device-IsWhole sent s id identity l w)
    | inr (r, e) ↦ rw e w
  ]

  -- What `refresh` leaves of the store, its answer aside.
  refresh_device-IsWhole :
      (s : Store Value) (id : DeviceId) (refreshed : Option DeviceDescriptor)
      → IsWhole s
      → IsWhole (refresh_device encoded_len empty_object s id refreshed (s.devices id.text)).0
  unfolding refresh_device
  refresh_device-IsWhole s id none w = w
  refresh_device-IsWhole s id (some device) w = elim (Option-cases (s.devices id.text)) [
    | inl e ↦ rw e w
    | inr (d, e) ↦ rw e (record {
      retained = w.retained;
      named =
          All-map _ _ (λ op h. IsNamed-insert s.epoch s.devices id.text d _ op e (omega arith) h)
            s.operations w.named;
    })
  ]

  meet_device-IsWhole :
      (s : Store Value) (id : DeviceId) (runtime : DeviceDescriptor)
      (refreshed : Option DeviceDescriptor) (monitored : Bool) (active : Option DeviceStatus)
      → IsWhole s
      → IsWhole (meet_device encoded_len empty_object s id runtime refreshed monitored active).0
  unfolding meet_device
  meet_device-IsWhole s id runtime refreshed true (some status) w = w
  meet_device-IsWhole s id runtime refreshed true none w = refresh_device-IsWhole s id refreshed w
  meet_device-IsWhole s id runtime refreshed false none w = refresh_device-IsWhole s id refreshed w
  meet_device-IsWhole s id runtime refreshed false (some status) w =
      refresh_device-IsWhole s id refreshed w

  module _ {Command : Type 0} (v : Surroundings) (request : DeviceRequest) (action : Action Command)
      (identity : RequestIdentity) where
    submit_checked-IsWhole :
        (s : Store Value) (r : Result ApiError (Unit {0}))
        → IsWhole s
        → IsWhole (submit_checked encoded_len empty_object v request action identity s r).0
    unfolding submit_checked
    submit_checked-IsWhole s (err e) w = w
    submit_checked-IsWhole s (ok done) w =
        admit-IsWhole v.job_sent s request.device_id identity (lanes_of action) w

    submit_met-IsWhole :
        (p : Store Value × Result ApiError DeviceDescriptor)
        → IsWhole p.0
        → IsWhole (submit_met encoded_len empty_object v request action identity p).0
    unfolding submit_met
    submit_met-IsWhole (s, err e) w = w
    submit_met-IsWhole (s, ok device) w = submit_checked-IsWhole s _ w

    submit_replayed-IsWhole :
        (s : Store Value) (runtime : DeviceDescriptor)
        (r : Result ApiError (Option (Operation Value)))
        → IsWhole s
        → IsWhole (submit_replayed encoded_len empty_object v request action identity s runtime r).0
    unfolding submit_replayed
    submit_replayed-IsWhole s runtime (err e) w = w
    submit_replayed-IsWhole s runtime (ok (some op)) w = w
    submit_replayed-IsWhole s runtime (ok none) w =
        submit_met-IsWhole _
          (meet_device-IsWhole s request.device_id runtime v.refreshed (uses_monitor action) _ w)

    submit_allowed-IsWhole :
        (s : Store Value) (runtime : Option DeviceDescriptor)
        → IsWhole s
        → IsWhole (submit_allowed encoded_len empty_object v request action identity s runtime).0
    unfolding submit_allowed
    submit_allowed-IsWhole s none w = w
    submit_allowed-IsWhole s (some runtime) w = submit_replayed-IsWhole s runtime _ w

    -- Whatever a submission comes to, a refusal of any kind, a replay or an admission, with the refresh
    -- of the device, the store stays whole: the operation of every stored key is there, under that key,
    -- and each operation has the name of its device and of an event that has been reported.
    pub submit-IsWhole :
        (s : Store Value)
        → IsWhole s
        → IsWhole (submit encoded_len empty_object v request action identity s).0
    unfolding submit
    submit-IsWhole s w = either-IsWhole v.is_up _ _ (submit_allowed-IsWhole s v.runtime w) w
