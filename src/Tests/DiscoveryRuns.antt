-- ===== src/Tests/DiscoveryRuns.antt =====
-- src/server.rs: a daemon finds two devices, and then one of them is gone.
use idf_remote.Base.{ℕ, ◌≡◌, ◌≢◌, refl, arith, true, [], ◌∷◌, none, some, Bytes, eq_bytes}
use idf_remote.Base.Text.{codes, insert}
use idf_remote.Device.{DeviceDescriptor, DeviceAvailability, available_idle}
use idf_remote.Store.Events.{new_device}
use idf_remote.Store.Discovery.{
  Inventory, no_such_device, has_runtime, update_runtime, disconnect_runtimes, set_availability,
  upsert_discovered, go_on, upsert_all, go_on_states, disconnect_states, sync_discovered,
}
use idf_remote.Store.Stocked.{IsStocked, sync_discovered-IsStocked}

abbrev board : Bytes → DeviceDescriptor
board name = record {
  id = record { text = name };
  display_name = name;
  transport = record { kind = codes "serial"; address = none; metadata = [] };
  status = available_idle;
  capabilities = [];
}

abbrev nothing_known : Inventory ℕ
nothing_known = record { runtimes = []; states = λ id. none }

abbrev found_two : Inventory ℕ
found_two =
    (sync_discovered nothing_known ((true, board (codes "a")) ∷ (true, board (codes "b")) ∷ [])).0

one_gone :
    (sync_discovered found_two ((true, board (codes "b")) ∷ [])).0.states (codes "a")
    ≡ some (record (new_device available_idle) {
      status = record available_idle { availability = DeviceAvailability.disconnected };
    })
unfolding sync_discovered upsert_all upsert_discovered has_runtime update_runtime go_on
    disconnect_runtimes go_on_states disconnect_states set_availability new_device insert eq_bytes
one_gone = refl

nothing_known-IsStocked : IsStocked nothing_known
nothing_known-IsStocked = record { known = tt; few = omega arith }

found_two-IsStocked : IsStocked found_two
found_two-IsStocked =
    (sync_discovered-IsStocked nothing_known
      ((true, board (codes "a")) ∷ (true, board (codes "b")) ∷ []) nothing_known-IsStocked).0

-- The first device is gone.
sync_discovered-IsStocked_example :
    IsStocked (sync_discovered found_two ((true, board (codes "b")) ∷ [])).0
    × ((sync_discovered found_two ((true, board (codes "b")) ∷ [])).1 ≢ no_such_device)
sync_discovered-IsStocked_example =
    sync_discovered-IsStocked found_two ((true, board (codes "b")) ∷ []) found_two-IsStocked
