-- ===== src/Tests/LogRuns.antt =====
-- src/server.rs: an event log whose events hold numbers and have 2 MiB each.
use idf_remote.Base.{ℕ, ◌-◌, ◌*◌, ◌≡◌, refl, arith, [], ◌∷◌, map, some, none, ok, length, eq_bytes}
use idf_remote.Base.Text.{codes}
use idf_remote.Device.{available_idle}
use idf_remote.Store.Events.{
  Event, Cursor, is_gap, DeviceState, EventBatch, new_device, evict, emit, newer, events_after,
}
use idf_remote.Store.Log.{IsLog, seq_of, numbers, emit-IsLog, events_after_complete}
use idf_remote.Device.{DeviceId, DeviceDescriptor}
use idf_remote.Store.Operations.{Store}
use idf_remote.Store.Reading.{runtime, authorize_device, device, application_events}

abbrev pub two_mib : Event ℕ → ℕ
two_mib e = 2 * 1024 * 1024

abbrev pub fresh : DeviceState ℕ
fresh = new_device available_idle

fresh-IsLog : IsLog two_mib fresh
unfolding new_device
fresh-IsLog = record {
  consecutive = tt;
  from_one = omega arith;
  measured = tt;
  bytes_are = refl;
  few = omega arith;
  small = omega arith;
}

abbrev pub once : DeviceState ℕ
once = emit two_mib fresh (codes "log") 1

abbrev pub thrice : DeviceState ℕ
thrice = emit two_mib (emit two_mib once (codes "log") 2) (codes "log") 3

-- Of three events the oldest is gone.
thrice_events : map seq_of (newer 0 thrice.events) ≡ 2 ∷ 3 ∷ []
unfolding new_device emit evict newer
thrice_events = refl

emit-IsLog_example : IsLog two_mib once
emit-IsLog_example = emit-IsLog two_mib fresh (codes "log") 1 fresh-IsLog

pub thrice-IsLog : IsLog two_mib thrice
thrice-IsLog =
    emit-IsLog two_mib (emit two_mib once (codes "log") 2) (codes "log") 3 (
      emit-IsLog two_mib once (codes "log") 2
        (emit-IsLog two_mib fresh (codes "log") 1 fresh-IsLog))

thrice_seq : thrice.seq ≡ 3
unfolding new_device emit
thrice_seq = refl

pub thrice_length : length thrice.events ≡ 2
unfolding new_device emit evict
thrice_length = refl

events_after_complete_example :
    (b : EventBatch ℕ) × (events_after
        (codes "run")
        thrice
        (record { epoch = codes "run"; after = 1 })
      ≡ ok b)
    × (map seq_of b.events ≡ numbers 2 (thrice.seq - 1))
    × (b.cursor ≡ record { epoch = codes "run"; after = thrice.seq })
    × (b.device_status ≡ thrice.status)
events_after_complete_example =
    events_after_complete two_mib (codes "run") thrice 1 thrice-IsLog (omega (arith, thrice_length))
      (omega (arith, thrice_seq)) (omega (arith, thrice_length, thrice_seq))

abbrev dev : DeviceId
dev = record { text = codes "dev" }

abbrev board : DeviceDescriptor
board = record {
  id = dev;
  display_name = codes "board";
  transport = record { kind = codes "serial"; address = none; metadata = [] };
  status = available_idle;
  capabilities = [];
}

-- One device, whatever name is looked up.
abbrev one_store : Store ℕ
one_store = record {
  epoch = codes "run";
  devices = λ id. some fresh;
  operations = [];
  idempotency = λ key. none;
  artifacts = λ id. none;
}

abbrev from_start : Cursor
from_start = record { epoch = codes "run"; after = 0 }

abbrev empty_batch : EventBatch ℕ
empty_batch = record { cursor = from_start; events = []; device_status = available_idle }

nothing_yet : application_events (board ∷ []) one_store dev from_start ≡ ok empty_batch
unfolding application_events authorize_device runtime device events_after is_gap newer new_device
    eq_bytes
nothing_yet = refl
