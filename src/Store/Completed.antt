-- ===== src/Store/Completed.antt =====
-- The operations that `Service::finish_stream` of src/server.rs ends leave the store whole.
use idf_remote.Base.{
  All-map, ℕ, ◌+◌, ◌≡◌, refl, ◌∙◌, arith, Bool, inl, inr, List, [], ◌∷◌, Option, some, Bytes,
  eq_bytes, Result, ok, err, >>=-eq-ok, Bool-cases, Option-cases, All,
}
use idf_remote.Base.Text.{insert}
use idf_remote.Device.{DeviceId}
use idf_remote.Store.Events.{Event, DeviceState, emit}
use idf_remote.Store.Operations.{Operation, Store, find_operation}
use idf_remote.Store.Whole.{IsNamed, IsWhole, IsNamed-insert}
use idf_remote.Store.Completion.{
  Lane, application, input, Completion, complete, complete_first, clear_lane, settle, ended,
  finish_found, finish_one, finish_stream,
}

module _ {Value : Type 0} (encoded_len : Event Value → ℕ)
    (operation_value : Operation Value → Value) where
  -- Nothing but the outcome changes.
  IsSameRequest : Operation Value → Operation Value → Type 0
  IsSameRequest a b =
      (a.id ≡ b.id)
      × (a.request_key ≡ b.request_key)
      × (a.device_id ≡ b.device_id)
      × (a.start_cursor ≡ b.start_cursor)

  complete-IsSameRequest :
      (op : Operation Value) (r : Result Bytes Value) → IsSameRequest (complete op r) op
  unfolding complete IsSameRequest
  complete-IsSameRequest op (ok value) = (refl, refl, refl, refl)
  complete-IsSameRequest op (err error) = (refl, refl, refl, refl)

  find_operation-complete_first :
      (id key : Bytes) (r : Result Bytes Value) (l : List (Operation Value)) (op : Operation Value)
      → find_operation id l ≡ some op
      → (op' : Operation Value) × (find_operation id (complete_first key r l) ≡ some op')
        × (op'.request_key ≡ op.request_key)
  unfolding find_operation complete_first IsSameRequest
  find_operation-complete_first id key r [] op f = absurd cc
  find_operation-complete_first id key r (x ∷ xs) op f =
      let (name, asked, of, from) = complete-IsSameRequest x r in
      elim (Bool-cases (eq_bytes x.id key)) [
        | inl this ↦ elim (Bool-cases (eq_bytes x.id id)) [
          | inl found ↦ (complete x r, rw this (rw (name, found)), ground (arith, asked))
          | inr other ↦ (op, rw this (rw (name, other) (rw other at f)), refl)
        ]
        | inr later ↦ elim (Bool-cases (eq_bytes x.id id)) [
          | inl found ↦ (x, rw later (rw found), ground arith)
          | inr other ↦
              let (op', f', key') = find_operation-complete_first id key r xs op (rw other at f) in
              (op', rw later (rw other f'), key')
        ]
      ]

  All-complete_first :
      (P : Operation Value → Type 0) (key : Bytes) (r : Result Bytes Value)
      (l : List (Operation Value))
      → ((op : Operation Value) → P op → P (complete op r))
      → All P l
      → All P (complete_first key r l)
  unfolding complete_first
  All-complete_first P key r [] f h = h
  All-complete_first P key r (x ∷ xs) f (h, t) = elim (Bool-cases (eq_bytes x.id key)) [
    | inl this ↦ rw this (f x h, t)
    | inr later ↦ rw later (h, All-complete_first P key r xs f t)
  ]

  IsNamed-complete :
      (epoch : Bytes) (devices : Bytes → Option (DeviceState Value)) (op : Operation Value)
      (r : Result Bytes Value)
      → IsNamed epoch devices op
      → IsNamed epoch devices (complete op r)
  unfolding complete
  IsNamed-complete epoch devices op (ok value) h = record {
    device = h.device;
    known = h.known;
    reported = h.reported;
    name_is = h.name_is;
  }
  IsNamed-complete epoch devices op (err error) h = record {
    device = h.device;
    known = h.known;
    reported = h.reported;
    name_is = h.name_is;
  }

  ended_later :
      (d : DeviceState Value) (has_reader : Bool) (lane : Lane) (op : Operation Value)
      → (ended encoded_len operation_value d has_reader lane op).seq ≡ d.seq + 1
  unfolding ended emit settle clear_lane
  ended_later d has_reader application op = refl
  ended_later d has_reader input op = refl

  finish_found-IsWhole :
      (s s' : Store Value) (id : DeviceId) (has_reader : Bool) (c : Completion Value)
      (op : Operation Value) (d : DeviceState Value)
      → s.devices id.text ≡ some d
      → IsWhole s
      → finish_found encoded_len operation_value s id has_reader c (some op) (some d) ≡ ok s'
      → IsWhole s'
  unfolding finish_found
  finish_found-IsWhole s s' id has_reader c op d known w e =
      let s_is : s' ≡ record s {
        operations = complete_first c.key c.result s.operations;
        devices =
            insert s.devices id.text
              (ended encoded_len operation_value d has_reader c.lane (complete op c.result));
      } =
        cc in
      rw s_is (record {
        retained = λ k r found.
            let (o, f, key) = w.retained k r found in
            let (o', f', key') =
              find_operation-complete_first r.operation_id c.key c.result s.operations o f in
            (o', f', key' ∙ key);
        named =
            All-complete_first (IsNamed s.epoch _) c.key c.result s.operations
              (λ o h. IsNamed-complete s.epoch _ o c.result h)
              (All-map _ _
                (λ o h.
                  IsNamed-insert s.epoch s.devices id.text d _ o known
                    (omega (arith, ended_later d has_reader c.lane (complete op c.result))) h)
                s.operations w.named);
      })

  finish_one-IsWhole :
      (s s' : Store Value) (id : DeviceId) (has_reader : Bool) (c : Completion Value)
      → IsWhole s
      → finish_one encoded_len operation_value s id has_reader c ≡ ok s'
      → IsWhole s'
  unfolding finish_one
  finish_one-IsWhole s s' id has_reader c w =
      elim (Option-cases (find_operation c.key s.operations)) [
        | inl e ↦ rw e (λ bad. absurd (unfold finish_found in cc))
        | inr (op, e) ↦ elim (Option-cases (s.devices id.text)) [
          | inl f ↦ rw (e, f) (λ bad. absurd (unfold finish_found in cc))
          | inr (d, f) ↦ rw (e, f) (λ done. finish_found-IsWhole s s' id has_reader c op d f w done)
        ]
      ]

  -- The operations that the scheduler has ended, when they are all found in the store, leave the store
  -- whole.
  pub finish_stream-IsWhole :
      (s s' : Store Value) (id : DeviceId) (has_reader : Bool) (done : List (Completion Value))
      → IsWhole s
      → finish_stream encoded_len operation_value s id has_reader done ≡ ok s'
      → IsWhole s'
  unfolding finish_stream
  finish_stream-IsWhole s s' id has_reader [] w e = let same : s' ≡ s = cc in rw same w
  finish_stream-IsWhole s s' id has_reader (c ∷ done) w e =
      let (next, first, rest) =
        >>=-eq-ok (finish_one encoded_len operation_value s id has_reader c) _ e in
      finish_stream-IsWhole next s' id has_reader done
        (finish_one-IsWhole s next id has_reader c w first) rest
