-- ===== src/Store/Discovery.antt =====
-- `sync_discovered` and `upsert_discovered` of src/server.rs. The map of the devices that have a worker
-- is a list of descriptors, whose order does not matter; whether a thread can be started is an argument.
use idf_remote.Base.{
  ℕ, Bool, false, not, ◌||◌, List, [], ◌∷◌, Option, some, none, Bytes, eq_bytes, length, map, ltb,
  if◌then◌else◌,
}
use idf_remote.Base.Text.{Map, insert, remove}
use idf_remote.Device.{DeviceDescriptor, DeviceAvailability}
use idf_remote.Store.Events.{DeviceState, new_device}

abbrev pub max_managed_devices : ℕ
max_managed_devices = 64

-- The maps of `Service` that discovery changes: `devices`, and the `devices` of its store.
pub record Inventory (Value : Type 0) : Type 0 where
  pub runtimes : List DeviceDescriptor
  pub states : Map (DeviceState Value)

pub data DiscoveryResult : Type 0 where
  done device_limit_reached thread_not_started no_such_device : DiscoveryResult

unfoldable pub has_runtime : List DeviceDescriptor → Bytes → Bool
has_runtime [] id = false
has_runtime (r ∷ rs) id = eq_bytes r.id.text id || has_runtime rs id

-- `runtime.descriptor = descriptor.clone()`
unfoldable pub update_runtime : List DeviceDescriptor → DeviceDescriptor → List DeviceDescriptor
update_runtime [] descriptor = []
update_runtime (r ∷ rs) descriptor =
    if eq_bytes r.id.text descriptor.id.text
    then descriptor ∷ rs
    else r ∷ update_runtime rs descriptor

-- The devices that were not seen are disconnected, in both maps: here in the first. What a panic of the
-- loop leaves of this map is not kept apart.
unfoldable pub disconnect_runtimes :
    List DeviceDescriptor → List DeviceDescriptor → List DeviceDescriptor
disconnect_runtimes seen [] = []
disconnect_runtimes seen (r ∷ rs) =
    (if has_runtime seen r.id.text then r else record r {
      status = record (r.status) { availability = DeviceAvailability.disconnected };
    })
    ∷ disconnect_runtimes seen rs

module _ {Value : Type 0} where
  abbrev pub with_availability : DeviceState Value → DeviceAvailability → DeviceState Value
  with_availability d a = record d { status = record (d.status) { availability = a } }

  -- `self.inner.lock().unwrap().device_mut(&id).status.availability = ..`
  unfoldable pub set_availability :
      Map (DeviceState Value)
      → Bytes
      → DeviceAvailability
      → Option (DeviceState Value)
      → Map (DeviceState Value)
  set_availability states id a none = states
  set_availability states id a (some d) = insert states id (with_availability d a)

  abbrev pub expected : Option (DeviceState Value) → DiscoveryResult
  expected none = no_such_device
  expected (some d) = done

  unfoldable pub upsert_discovered :
      Bool → Inventory Value → DeviceDescriptor → Inventory Value × DiscoveryResult
  upsert_discovered spawned v descriptor =
      let id = descriptor.id.text in
      if has_runtime v.runtimes id
      then (
        record {
          runtimes = update_runtime v.runtimes descriptor;
          states = set_availability v.states id descriptor.status.availability (v.states id);
        },
        expected (v.states id),
      )
      else if not (ltb (length v.runtimes) max_managed_devices)
      then (v, device_limit_reached)
      else if spawned
      then (
        record {
          runtimes = descriptor ∷ v.runtimes;
          states = insert v.states id (new_device descriptor.status);
        },
        done,
      )
      else (
        record v { states = remove (insert v.states id (new_device descriptor.status)) id },
        thread_not_started,
      )

  -- What `?` does after one descriptor.
  unfoldable pub go_on :
      Inventory Value × DiscoveryResult
      → Inventory Value × DiscoveryResult
      → Inventory Value × DiscoveryResult
  go_on (v, done) rest = rest
  go_on (v, device_limit_reached) rest = (v, device_limit_reached)
  go_on (v, thread_not_started) rest = (v, thread_not_started)
  go_on (v, no_such_device) rest = (v, no_such_device)

  -- The loop over the descriptors.
  unfoldable pub upsert_all :
      Inventory Value → List (Bool × DeviceDescriptor) → Inventory Value × DiscoveryResult
  upsert_all v [] = (v, done)
  upsert_all v ((spawned, d) ∷ ds) =
      let one = upsert_discovered spawned v d in let rest = upsert_all one.0 ds in go_on one rest

  -- `device_mut` expects the state of a device: without it, the loop ends in a panic.
  unfoldable pub go_on_states :
      Option (DeviceState Value)
      → Map (DeviceState Value)
      → Map (DeviceState Value) × DiscoveryResult
      → Map (DeviceState Value) × DiscoveryResult
  go_on_states none states rest = (states, no_such_device)
  go_on_states (some d) states rest = rest

  -- The loop over the missing devices, in the map of the store.
  unfoldable pub disconnect_states :
      List DeviceDescriptor
      → List DeviceDescriptor
      → Map (DeviceState Value)
      → Map (DeviceState Value) × DiscoveryResult
  disconnect_states seen [] states = (states, done)
  disconnect_states seen (r ∷ rs) states =
      let id = r.id.text in
      let kept = disconnect_states seen rs states in
      let rest =
        disconnect_states seen rs
          (set_availability states id DeviceAvailability.disconnected (states id)) in
      if has_runtime seen id then kept else go_on_states (states id) states rest

  unfoldable pub sync_discovered :
      Inventory Value → List (Bool × DeviceDescriptor) → Inventory Value × DiscoveryResult
  sync_discovered v ds =
      let seen = map (λ (p : Bool × DeviceDescriptor). p.1) ds in
      let upserted = upsert_all v ds in
      let disconnected = disconnect_states seen upserted.0.runtimes upserted.0.states in
      go_on upserted (
        record { runtimes = disconnect_runtimes seen upserted.0.runtimes; states = disconnected.0 },
        disconnected.1,
      )
