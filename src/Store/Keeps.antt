-- ===== src/Store/Keeps.antt =====
-- Submissions keep the daemon's store whole: `Service::submit` of src/server.rs.
use idf_remote.Base.{
  All-map, ℕ, ◌≤◌, ◌<◌, ◌≡◌, sym, arith, inl, inr, [], ◌∷◌, ◌++◌, some, Bytes, eq_bytes,
  eq_bytes→eq, Bool-cases, All, All-append,
}
use idf_remote.Base.Text.{insert, remove, remove-some, insert-some, insert-same, insert_self}
use idf_remote.Device.{DeviceId}
use idf_remote.Store.Events.{DeviceState}
use idf_remote.Store.Operations.{
  Operation, IdempotencyRecord, RequestIdentity, Store, expire, find_operation,
}
use idf_remote.Store.Retention.{IsRetained, expire-IsRetained, expire-IsKept}
use idf_remote.Store.Submit.{pop_back, new_operation}
use idf_remote.Store.Whole.{
  IsNamed, IsWhole, All-expire, IsNamed-insert, find_operation-none, find_operation-append,
  find_operation-snoc, pop_back-snoc,
}

module _ {Value : Type 0} where
  -- A store whose device has gone on to `d'` and from which finished operations have been dropped.
  pub record IsExpired (s : Store Value) (k : Bytes) (d' : DeviceState Value) (e : Store Value)
      : Type 0 where
    epoch_is : e.epoch ≡ s.epoch
    devices_are : e.devices ≡ insert s.devices k d'
    retained : IsRetained e
    named : All (IsNamed s.epoch s.devices) e.operations

  pub expire-IsExpired :
      (s : Store Value) (k : Bytes) (d' : DeviceState Value) (fuel : ℕ)
      → IsWhole s
      → IsExpired s k d' (expire fuel (record s { devices = insert s.devices k d' }))
  expire-IsExpired s k d' fuel w =
      let s0 : Store Value = record s { devices = insert s.devices k d' } in
      let kept = expire-IsKept fuel s0 in
      record {
        epoch_is = kept.same_epoch;
        devices_are = kept.same_devices;
        retained = expire-IsRetained fuel s0 w.retained;
        named = All-expire (IsNamed s.epoch s.devices) fuel s0 w.named;
      }

  module _ (s : Store Value) (id : DeviceId) (d d' d'' : DeviceState Value) (e : Store Value)
      (known : s.devices id.text ≡ some d) (later : d.seq < d'.seq) (on : d'.seq ≤ d''.seq)
      (x : IsExpired s id.text d' e) where
    IsNamed-onward :
        (op : Operation Value)
        → IsNamed s.epoch s.devices op
        → IsNamed e.epoch (insert e.devices id.text d'') op
    IsNamed-onward op h =
        rw (x.epoch_is, x.devices_are)
          (IsNamed-insert s.epoch (insert s.devices id.text d') id.text d' d'' op
            (insert_self s.devices id.text d') on
            (IsNamed-insert s.epoch s.devices id.text d d' op known (omega arith) h))

    module _ (identity : RequestIdentity) (r : IdempotencyRecord) (op : Operation Value) where
      -- The new operation is what its name finds.
      pub started-found :
          op ≡ new_operation s.epoch id identity d'.seq
          → find_operation op.id (e.operations ++ op ∷ []) ≡ some op
      unfolding new_operation
      started-found op_is = find_operation-snoc e.operations op (
          rw op_is
            (find_operation-none s.epoch s.devices id d d'.seq e.operations known later x.named))

      -- The operation stands in the store under its key.
      pub started-IsWhole :
          op ≡ new_operation s.epoch id identity d'.seq
          → r.operation_id ≡ op.id
          → IsWhole (record e {
            operations = e.operations ++ op ∷ [];
            idempotency = insert e.idempotency identity.key r;
            devices = insert e.devices id.text d'';
          })
      unfolding new_operation
      started-IsWhole op_is r_is = record {
        retained = λ k q found. elim (Bool-cases (eq_bytes k identity.key)) [
          | inl same ↦ (
            op,
            rw (insert-same e.idempotency identity.key k r q found same, r_is)
                (started-found op_is),
            rw op_is (sym (eq_bytes→eq k identity.key same)),
          )
          | inr other ↦
              let (found_op, f, key) =
                x.retained k q (insert-some e.idempotency identity.key k r q found other) in
              (
                found_op,
                find_operation-append q.operation_id e.operations (op ∷ []) found_op f,
                key,
              )
        ];
        named =
            All-append _ e.operations (op ∷ []) (All-map _ _ IsNamed-onward e.operations x.named) (
              rw op_is (record {
                device = d'';
                known = insert_self e.devices id.text d'';
                reported = on;
                name_is = rw x.epoch_is;
              }),
              tt,
            );
      }

      -- Nothing of it is left when the job cannot be sent.
      pub undone-IsWhole :
          (back : DeviceState Value)
          → d''.seq ≤ back.seq
          → IsWhole (record e {
            operations = pop_back (e.operations ++ op ∷ []);
            idempotency = remove (insert e.idempotency identity.key r) identity.key;
            devices = insert (insert e.devices id.text d'') id.text back;
          })
      undone-IsWhole back further = rw (pop_back-snoc e.operations op) (record {
        retained = λ k q found.
            let (there, other) =
              remove-some (insert e.idempotency identity.key r) identity.key k q found in
            x.retained k q (insert-some e.idempotency identity.key k r q there other);
        named =
            All-map _ _
              (λ o h.
                IsNamed-insert e.epoch (insert e.devices id.text d'') id.text d'' back o
                  (insert_self e.devices id.text d'') further (IsNamed-onward o h))
              e.operations x.named;
      })
