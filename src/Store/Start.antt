-- ===== src/Store/Start.antt =====
-- The store that the daemon starts with and how a request names itself: `Store::new`, `Store::cursor`,
-- `request_identity` and `EventQuery` of src/server.rs and src/wire.rs. The name of the run is an
-- argument, as is what the headers hold and the JSON text of a request.
use idf_remote.Base.{
  ℕ, ◌≡◌, ◌≤◌, arith, true, List, [], ◌∷◌, ◌++◌, Option, some, none, Bytes, length, is_empty_iff,
  all, ok, err, Result, context, ◌>>=◌, ◌>>◌, >>=-eq-ok,
}
use idf_remote.Base.Text.{Map, insert}
use idf_remote.Device.{DeviceId, DeviceStatus}
use idf_remote.Wire.Digest.{Hash, sha256, length-sha256}
use idf_remote.Wire.Requests.{
  RequestError, validate_idempotency_key, is_key_byte, max_idempotency_key_bytes,
}
use idf_remote.Store.Events.{Cursor, DeviceState, new_device}
use idf_remote.Store.Operations.{RequestIdentity, Store}
use idf_remote.Store.Whole.{IsWhole}

module _ {Value : Type 0} where
  unfoldable pub new_states : List (DeviceId × DeviceStatus) → Map (DeviceState Value)
  new_states [] = λ id. none
  new_states ((id, status) ∷ rest) = insert (new_states rest) id.text (new_device status)

  -- `Store::new`
  unfoldable pub new_store : Bytes → List (DeviceId × DeviceStatus) → Store Value
  new_store epoch devices = record {
    epoch = epoch;
    devices = new_states devices;
    operations = [];
    idempotency = λ key. none;
    artifacts = λ id. none;
  }

  -- `Store::cursor`, of a device that is there.
  unfoldable pub cursor : Store Value → DeviceState Value → Cursor
  cursor s d = record { epoch = s.epoch; after = d.seq }

  -- The store that the daemon starts with is whole.
  pub new_store-IsWhole :
      (epoch : Bytes) (devices : List (DeviceId × DeviceStatus)) → IsWhole (new_store epoch devices)
  unfolding new_store
  new_store-IsWhole epoch devices = record { retained = λ k r e. absurd (cc); named = tt }

pub record EventQuery : Type 0 where
  pub device_id : DeviceId
  pub epoch : Bytes
  pub after : ℕ

unfoldable pub new_query : DeviceId → Cursor → EventQuery
new_query device_id c = record { device_id = device_id; epoch = c.epoch; after = c.after }

unfoldable pub cursor_of : EventQuery → Cursor
cursor_of q = record { epoch = q.epoch; after = q.after }

pub data IdentityError : Type 0 where
  missing_key key_not_ascii not_canonical : IdentityError
  invalid_key : RequestError → IdentityError

unfoldable pub map_err : Result RequestError (Unit {0}) → Result IdentityError (Unit {0})
map_err (ok done) = ok tt
map_err (err e) = err (invalid_key e)

-- The header's value with what `to_str` makes of it, and the JSON text of the request.
unfoldable pub request_identity :
    Hash
    → Option Bytes
    → (Bytes → Option Bytes)
    → Bytes
    → Option Bytes
    → Result IdentityError RequestIdentity
request_identity h header to_str operation json_text = do
  value ← context header missing_key
  key ← context (to_str value) key_not_ascii
  map_err (validate_idempotency_key key)
  text ← context json_text not_canonical
  ok (record { key = key; fingerprint = sha256 h (operation ++ 0 ∷ text) })

-- What an admitted key looks like.
pub record IsKey (key : Bytes) : Type 0 where
  pub some_bytes : 1 ≤ length key
  pub short : length key ≤ max_idempotency_key_bytes
  pub characters : all is_key_byte key ≡ true

validate_idempotency_key-IsKey :
    (key : Bytes) → map_err (validate_idempotency_key key) ≡ ok tt → IsKey key
unfolding map_err validate_idempotency_key
validate_idempotency_key-IsKey key e = record {
  some_bytes = ground (arith, (is_empty_iff key).0);
  short = ground arith;
  characters = ground arith;
}

-- A request that gets an identity has a key of 1 to 128 bytes out of the letters, digits and marks that
-- are allowed, and a fingerprint of 64 digits, of the name of the operation and the text of the request.
pub request_identity-IsKey :
    (h : Hash) (header : Option Bytes) (to_str : Bytes → Option Bytes) (operation : Bytes)
    (json_text : Option Bytes) (i : RequestIdentity)
    → request_identity h header to_str operation json_text ≡ ok i
    → (text : Bytes) × (json_text ≡ some text)
      × IsKey i.key
      × (length i.fingerprint ≡ 64)
      × (i.fingerprint ≡ sha256 h (operation ++ 0 ∷ text))
unfolding request_identity
request_identity-IsKey h header to_str operation json_text i e =
    let (value, have_header, e1) = >>=-eq-ok (context header missing_key) _ e in
    let (key, have_key, e2) = >>=-eq-ok (context (to_str value) key_not_ascii) _ e1 in
    let (done, valid, e3) = >>=-eq-ok (map_err (validate_idempotency_key key)) _ e2 in
    let (text, have_text, e4) = >>=-eq-ok (context json_text not_canonical) _ e3 in
    let i_is : i ≡ record { key = key; fingerprint = sha256 h (operation ++ 0 ∷ text) } = cc in
    (
      text,
      some_of json_text text have_text,
      rw i_is (validate_idempotency_key-IsKey key valid),
      rw i_is (length-sha256 h (operation ++ 0 ∷ text)),
      rw i_is,
    )
  where
    some_of : (o : Option Bytes) (t : Bytes) → context o not_canonical ≡ ok t → o ≡ some t
    some_of none t bad = absurd (cc)
    some_of (some x) t is = ground arith
