-- ===== src/Store/Reading.antt =====
-- Who may read the events of a device: `Service::runtime`, `authorize_device`, `application_events` and
-- `Store::device` of src/server.rs.
use idf_remote.Base.{
  ◌≡◌, ◌≤◌, arith, List, [], ◌∷◌, Bytes, eq_bytes, eq_bytes→eq, Bool-cases, inl, inr, if◌then◌else◌,
  ok, err, Result, context, ◌>>=◌, >>=-eq-ok,
}
use idf_remote.Device.{DeviceId, DeviceDescriptor}
use idf_remote.Store.Events.{Cursor, DeviceState, EventBatch, LogError, events_after}
use idf_remote.Store.Operations.{Store}

pub data ReadError : Type 0 where
  not_allowed no_state : ReadError
  log_error : LogError → ReadError

-- `.get(device_id).cloned()` on the devices that have a worker.
unfoldable pub runtime : List DeviceDescriptor → DeviceId → Result ReadError DeviceDescriptor
runtime [] id = err not_allowed
runtime (r ∷ rs) id = let rest = runtime rs id in if eq_bytes r.id.text id.text then ok r else rest

unfoldable pub authorize_device : List DeviceDescriptor → DeviceId → Result ReadError (Unit {0})
authorize_device rs id = do r ← runtime rs id; ok tt

runtime-named :
    (rs : List DeviceDescriptor) (id : DeviceId) (r : DeviceDescriptor)
    → runtime rs id ≡ ok r
    → r.id.text ≡ id.text
unfolding runtime
runtime-named [] id r e = absurd (cc)
runtime-named (x ∷ xs) id r e = elim (Bool-cases (eq_bytes x.id.text id.text)) [
  | inl same ↦ let is : x ≡ r = ground arith in rw (← is) (eq_bytes→eq x.id.text id.text same)
  | inr other ↦ runtime-named xs id r (rw other at e)
]

module _ {Value : Type 0} where
  -- `Store::device`, whose `expect` is the error `no_state`.
  unfoldable pub device : Store Value → DeviceId → Result ReadError (DeviceState Value)
  device s id = context (s.devices id.text) no_state

  abbrev pub or_log_error : Result LogError (EventBatch Value) → Result ReadError (EventBatch Value)
  or_log_error (ok b) = ok b
  or_log_error (err e) = err (log_error e)

  unfoldable pub application_events :
      List DeviceDescriptor → Store Value → DeviceId → Cursor → Result ReadError (EventBatch Value)
  application_events rs s id c = do
    allowed ← authorize_device rs id
    d ← device s id
    or_log_error (events_after s.epoch d c)

  events_after-cursor :
      (epoch : Bytes) (d : DeviceState Value) (c : Cursor) (b : EventBatch Value)
      → or_log_error (events_after epoch d c) ≡ ok b
      → (c.epoch ≡ epoch) × (c.after ≤ d.seq) × (b.cursor ≡ record { epoch = epoch; after = d.seq })
  unfolding events_after
  events_after-cursor epoch d c b e =
      (eq_bytes→eq c.epoch epoch (ground arith), ground arith, ground arith)

  -- Events are given only of a device that has a worker, and only for a cursor of this run of the daemon
  -- that is not ahead of the device; the next cursor is never behind the one that was sent.
  pub application_events_allowed :
      (rs : List DeviceDescriptor) (s : Store Value) (id : DeviceId) (c : Cursor)
      (b : EventBatch Value)
      → application_events rs s id c ≡ ok b
      → (r : DeviceDescriptor) × (r.id.text ≡ id.text)
        × (authorize_device rs id ≡ ok tt)
        × (c.epoch ≡ s.epoch)
        × (b.cursor.epoch ≡ s.epoch)
        × (c.after ≤ b.cursor.after)
  unfolding application_events authorize_device
  application_events_allowed rs s id c b e =
      let (allowed, auth, e1) = >>=-eq-ok (authorize_device rs id) _ e in
      let (r, found, e2) = >>=-eq-ok (runtime rs id) _ auth in
      let (d, has, e3) = >>=-eq-ok (device s id) _ e1 in
      let (run, known, next) = events_after-cursor s.epoch d c b e3 in
      (r, runtime-named rs id r found, rw found, run, rw next, rw next known)
