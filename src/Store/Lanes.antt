-- ===== src/Store/Lanes.antt =====
-- What may be in flight on a device at once: "at most one request and one console input; all other
-- actions are exclusive", as the comment at `DeviceState` of src/server.rs says, against the flags.
use idf_remote.Base.{
  ℕ, ◌≡◌, refl, ◌∙◌, Bool-cases, inl, inr, Result, ok, err, arith, Bool, true, false, not, ◌&&◌,
  ◌||◌, Option, some, none, if◌then◌else◌,
}
use idf_remote.Store.Events.{Event, DeviceState, emit}
use idf_remote.Device.{DeviceId}
use idf_remote.Base.Text.{insert, insert_self}
use idf_remote.Store.Operations.{Operation, RequestIdentity, Store, ApiError, push_operation}
use idf_remote.Store.Submit.{
  Action, probe, reset, monitor, application, flash, read_flash, erase_flash, serial_write,
  new_operation, app_lane, input_lane, uses_monitor, compatible, begin, roll_back,
}
use idf_remote.Store.Admit.{Lanes, lanes_of, begun, set_busy, started, send_job, admit_device}
use idf_remote.Store.Completion.{Lane, ended, settle, clear_lane}

-- What is in flight.
pub data Flight : Type 0 where
  nothing exclusive a_request an_input both : Flight

-- What a request to the device asks for.
pub data Kind : Type 0 where
  request input other : Kind

abbrev pub kind_of : {Command : Type 0} → Action Command → Kind
kind_of probe = other
kind_of reset = other
kind_of monitor = other
kind_of (application none timeout_ms) = other
kind_of (application (some command) timeout_ms) = request
kind_of (flash plan baud warnings) = other
kind_of (read_flash offset size baud) = other
kind_of (erase_flash baud) = other
kind_of (serial_write bytes digest baud timeout_ms) = input

-- The promise: what is in flight when something more is admitted.
abbrev pub join : Flight → Kind → Option Flight
join nothing request = some a_request
join nothing input = some an_input
join nothing other = some exclusive
join an_input request = some both
join a_request input = some both
join exclusive kind = none
join both kind = none
join an_input input = none
join an_input other = none
join a_request request = none
join a_request other = none

-- And what remains when a request or an input has ended.
abbrev pub leave : Flight → Lane → Flight
leave both Lane.application = an_input
leave both Lane.input = a_request
leave nothing lane = nothing
leave exclusive lane = nothing
leave a_request Lane.application = nothing
leave a_request Lane.input = a_request
leave an_input Lane.input = nothing
leave an_input Lane.application = an_input

abbrev pub flight : Bool → Bool → Bool → Flight
flight false app inp = nothing
flight true false false = exclusive
flight true true false = a_request
flight true false true = an_input
flight true true true = both

module _ {Value : Type 0} where
  abbrev pub flight_of : DeviceState Value → Flight
  flight_of d = flight d.busy d.application_pending d.input_pending

  -- The flags agree: what is pending keeps the device busy.
  abbrev pub IsLaned : DeviceState Value → Type 0
  IsLaned d = (not (d.application_pending || d.input_pending) || d.busy) ≡ true

  -- What is in flight on a device when an operation has been admitted; `none` when it has been refused.
  abbrev pub flight_after :
      DeviceId → Store Value × Result ApiError (Operation Value) → Option Flight
  flight_after id (s, err why) = none
  flight_after id (s, ok op) = elim (s.devices id.text) [
    | none ↦ none
    | some d ↦ some (flight_of d)
  ]

  begun-join :
      {Command : Type 0} (encoded_len : Event Value → ℕ) (empty_object : Value)
      (d : DeviceState Value) (action : Action Command)
      → IsLaned d
      → (if d.busy && not (compatible d (app_lane action) (input_lane action))
          then none
          else some (flight_of (begun encoded_len empty_object d (lanes_of action))))
        ≡ join (flight_of d) (kind_of action)
  unfolding compatible begun begin emit app_lane input_lane uses_monitor
  begun-join encoded_len empty_object d probe h = ground arith
  begun-join encoded_len empty_object d reset h = ground arith
  begun-join encoded_len empty_object d monitor h = ground arith
  begun-join encoded_len empty_object d (application none timeout_ms) h = ground arith
  begun-join encoded_len empty_object d (application (some command) timeout_ms) h = ground arith
  begun-join encoded_len empty_object d (flash plan baud warnings) h = ground arith
  begun-join encoded_len empty_object d (read_flash offset size baud) h = ground arith
  begun-join encoded_len empty_object d (erase_flash baud) h = ground arith
  begun-join encoded_len empty_object d (serial_write bytes digest baud timeout_ms) h = ground arith

  flight_after-found :
      (id : DeviceId) (s : Store Value) (op : Operation Value) (d : DeviceState Value)
      → s.devices id.text ≡ some d
      → flight_after id (s, ok op) ≡ some (flight_of d)
  flight_after-found id s op d e = rw e refl

  admit_device-flight_after :
      (encoded_len : Event Value → ℕ) (empty_object : Value) (s : Store Value) (id : DeviceId)
      (identity : RequestIdentity) (l : Lanes) (d : DeviceState Value)
      → flight_after id (admit_device encoded_len empty_object true s id identity l (some d)) ≡ (
          if d.busy && not (compatible d l.app l.input)
          then none
          else some (flight_of (begun encoded_len empty_object d l)))
  unfolding admit_device send_job started
  admit_device-flight_after encoded_len empty_object s id identity l d =
      elim (Bool-cases (d.busy && not (compatible d l.app l.input))) [
        | inl refused ↦ rw refused refl
        | inr free ↦
            let d' = begun encoded_len empty_object d l in
            let op = new_operation s.epoch id identity d'.seq in
            let pushed = push_operation (record s { devices = insert s.devices id.text d' }) op in
            let after = set_busy encoded_len empty_object d' in
            rw free (
              flight_after-found id (started encoded_len empty_object s id identity d' op) op after
                (insert_self pushed.devices id.text after))
      ]

  -- On a device whose flags agree, and whose worker takes the job, `admit_device` admits an action exactly
  -- when what is in flight there allows it: at most one request and one console input at once, and
  -- anything else alone. What is in flight on the device after it is then the action with the rest.
  pub admit_device-join :
      {Command : Type 0} (encoded_len : Event Value → ℕ) (empty_object : Value) (s : Store Value)
      (id : DeviceId) (identity : RequestIdentity) (d : DeviceState Value) (action : Action Command)
      → IsLaned d
      → flight_after id
          (admit_device encoded_len empty_object true s id identity (lanes_of action) (some d))
        ≡ join (flight_of d) (kind_of action)
  admit_device-join encoded_len empty_object s id identity d action h =
      admit_device-flight_after encoded_len empty_object s id identity (lanes_of action) d
      ∙ begun-join encoded_len empty_object d action h

  -- On a device whose flags agree, when a request or an input has ended, the other one is left in flight, if it was, and the flags
  -- agree again.
  pub ended-leave :
      (encoded_len : Event Value → ℕ) (operation_value : Operation Value → Value)
      (d : DeviceState Value) (has_reader : Bool) (lane : Lane) (op : Operation Value)
      → IsLaned d
      → (flight_of (ended encoded_len operation_value d has_reader lane op)
          ≡ leave (flight_of d) lane)
        × IsLaned (ended encoded_len operation_value d has_reader lane op)
  unfolding ended emit settle clear_lane
  ended-leave encoded_len operation_value d has_reader Lane.application op h = ground arith
  ended-leave encoded_len operation_value d has_reader Lane.input op h = ground arith

  -- A job that was admitted and that the worker then does not take leaves on the device what was in flight before.
  pub roll_back-begun :
      {Command : Type 0} (encoded_len : Event Value → ℕ) (empty_object : Value)
      (d : DeviceState Value) (action : Action Command)
      → IsLaned d
      → (d.busy && not (compatible d (app_lane action) (input_lane action))) ≡ false
      → flight_of (
          roll_back
            (begun encoded_len empty_object d (lanes_of action))
            (app_lane action)
            (input_lane action))
        ≡ flight_of d
  unfolding compatible begun begin emit app_lane input_lane roll_back
  roll_back-begun encoded_len empty_object d probe h t = ground arith
  roll_back-begun encoded_len empty_object d reset h t = ground arith
  roll_back-begun encoded_len empty_object d monitor h t = ground arith
  roll_back-begun encoded_len empty_object d (application none timeout_ms) h t = ground arith
  roll_back-begun encoded_len empty_object d (application (some command) timeout_ms) h t =
      ground arith
  roll_back-begun encoded_len empty_object d (flash plan baud warnings) h t = ground arith
  roll_back-begun encoded_len empty_object d (read_flash offset size baud) h t = ground arith
  roll_back-begun encoded_len empty_object d (erase_flash baud) h t = ground arith
  roll_back-begun encoded_len empty_object d (serial_write bytes digest baud timeout_ms) h t =
      ground arith
