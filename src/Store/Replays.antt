-- ===== src/Store/Replays.antt =====
-- A request that is sent again after `Service::submit` of src/server.rs took it.
use idf_remote.Base.{
  ℕ, ◌≡◌, refl, arith, Bool, true, false, not, ◌&&◌, inl, inr, some, Bytes, eq_bytes_refl, length,
  Bool-cases, Option-cases, ok,
}
use idf_remote.Base.Text.{insert, insert_self}
use idf_remote.Device.{DeviceId}
use idf_remote.Store.Events.{Event, DeviceState}
use idf_remote.Store.Operations.{
  Operation, IdempotencyRecord, RequestIdentity, Store, expire, push_operation, find_operation,
  replay, replay_record,
}
use idf_remote.Store.Submit.{compatible, new_operation}
use idf_remote.Store.Admit.{
  Lanes, begun, started, send_job, admit_device, stored_operation, admit_key, admit,
}
use idf_remote.Store.Whole.{IsWhole}
use idf_remote.Store.Keeps.{expire-IsExpired, started-found}
use idf_remote.Store.Submitted.{begun_later}

module _ {Value : Type 0} (encoded_len : Event Value → ℕ) (empty_object : Value) where
  -- A store that holds the record of a request, and the operation that this names.
  replay_found :
      (s : Store Value) (identity : RequestIdentity) (id : Bytes) (op : Operation Value)
      → s.idempotency identity.key
        ≡ some (record { fingerprint = identity.fingerprint; operation_id = id })
      → find_operation id s.operations ≡ some op
      → replay s identity ≡ ok (some op)
  unfolding replay replay_record
  replay_found s identity id op e f = rw (e, eq_bytes_refl identity.fingerprint, f)

  replay-started :
      (s : Store Value) (id : DeviceId) (identity : RequestIdentity) (l : Lanes)
      (d : DeviceState Value) (op : Operation Value)
      → s.devices id.text ≡ some d
      → IsWhole s
      → op ≡ new_operation s.epoch id identity (begun encoded_len empty_object d l).seq
      → replay
          (started encoded_len empty_object s id identity (begun encoded_len empty_object d l) op)
          identity
        ≡ ok (some op)
  unfolding started push_operation
  replay-started s id identity l d op known w is =
      let d' = begun encoded_len empty_object d l in
      let s0 : Store Value = record s { devices = insert s.devices id.text d' } in
      let e = expire (length s.operations) s0 in
      let r : IdempotencyRecord = record {
        fingerprint = identity.fingerprint;
        operation_id = op.id;
      } in
      replay_found _ identity op.id op (insert_self e.idempotency identity.key r) (
        started-found s id d d' d' e known (omega (arith, begun_later encoded_len empty_object d l))
          (omega arith) (expire-IsExpired s id.text d' (length s.operations) w) identity r op is)

  send_job_ok :
      (sent : Bool) (s : Store Value) (id : DeviceId) (identity : RequestIdentity)
      (d : DeviceState Value) (l : Lanes) (o op : Operation Value)
      → (send_job encoded_len empty_object sent s id identity d l o).1 ≡ ok op
      → ((send_job encoded_len empty_object sent s id identity d l o).0 ≡ s) × (o ≡ op)
  unfolding send_job
  send_job_ok true s id identity d l o op e = (refl, ground arith)
  send_job_ok false s id identity d l o op e = absurd cc

  admit_device-replay :
      (sent : Bool) (s : Store Value) (id : DeviceId) (identity : RequestIdentity) (l : Lanes)
      (op : Operation Value)
      → IsWhole s
      → (admit_device encoded_len empty_object sent s id identity l (s.devices id.text)).1 ≡ ok op
      → replay
          (admit_device encoded_len empty_object sent s id identity l (s.devices id.text)).0
          identity
        ≡ ok (some op)
  unfolding admit_device
  admit_device-replay sent s id identity l op w = elim (Option-cases (s.devices id.text)) [
    | inl e ↦ rw e (λ bad. absurd cc)
    | inr (d, e) ↦ rw e (elim (Bool-cases (d.busy && not (compatible d l.app l.input))) [
      | inl refused ↦ rw refused (λ bad. absurd cc)
      | inr taken ↦ rw taken (λ got.
          let (same, is) = send_job_ok sent _ id identity _ l _ op got in
          rw (same, ← is) (replay-started s id identity l d _ e w refl))
    ])
  ]

  stored-replay :
      (s : Store Value) (identity : RequestIdentity) (r : IdempotencyRecord) (op : Operation Value)
      → s.idempotency identity.key ≡ some r
      → stored_operation encoded_len empty_object s identity r ≡ ok op
      → replay s identity ≡ ok (some op)
  unfolding stored_operation replay replay_record
  stored-replay s identity r op e h = rw e (ground arith)

  -- With a store that is whole, a request that was admitted, or that came with a key that was stored already, is answered with the
  -- same operation when it comes again with the same key and the same content.
  pub replay-admit :
      (sent : Bool) (s : Store Value) (id : DeviceId) (identity : RequestIdentity) (l : Lanes)
      (op : Operation Value)
      → IsWhole s
      → (admit encoded_len empty_object sent s id identity l).1 ≡ ok op
      → replay (admit encoded_len empty_object sent s id identity l).0 identity ≡ ok (some op)
  unfolding admit admit_key
  replay-admit sent s id identity l op w = elim (Option-cases (s.idempotency identity.key)) [
    | inl e ↦ rw e (admit_device-replay sent s id identity l op w)
    | inr (r, e) ↦ rw e (λ h. stored-replay s identity r op e h)
  ]
