-- ===== src/Tests/HttpRuns.antt =====
-- Handlers of src/server.rs: a posted request, and readers of a short log.
use idf_remote.Base.{
  ◌+◌, ◌↔◌, length, ℕ, ◌≡◌, Bool, refl, arith, true, false, [], ◌∷◌, ◌++◌, Option, some, Bytes, ok,
  eq_bytes,
}
use idf_remote.Base.Text.{codes}
use idf_remote.Wire.Digest.{sha256, hex}
use idf_remote.Wire.Requests.{validate_idempotency_key}
use idf_remote.Wire.SerialWrite
use idf_remote.Store.Events.{Event, Cursor, new_device, emit, evict, newer, is_gap, events_after}
use idf_remote.Store.Reading.{runtime, authorize_device}
use idf_remote.Store.Start.{request_identity, map_err}
use idf_remote.Http.Waited.{IsFirst, wait_rounds-stream_rounds_iff}
use idf_remote.Http.Reports.{Round, find_match, wait_rounds, stream_rounds}
use idf_remote.Http.Unbroken.{
  IsKept, RunsFrom, Follows, last_seq, sent_events, stream_rounds_complete,
}
use idf_remote.Http.Post.{PostCodec, Prepared, serial_write, prepare, prepare_write}
use idf_remote.Store.Submit
use idf_remote.Http.Bounded.{IsAllowed, prepare-IsAllowed}
use idf_remote.Tests.WireRuns.{weak_hash, weak_base64, hello, hello_request, device}
use idf_remote.Tests.LogRuns.{two_mib, thrice, thrice-IsLog, thrice_length}
use idf_remote.Tests.StoreRuns.{descriptor}
use idf_remote.Tests.ApplicationRuns.{lenient}

abbrev post_codec : PostCodec ℕ
post_codec = record {
  hash = weak_hash;
  base64 = weak_base64;
  serde = lenient;
  to_str = λ value. some value;
  parse_key = λ key. some key;
  canonical = λ r. some (codes "{}");
}

abbrev hello_prepared : Prepared ℕ
hello_prepared = record {
  device = record { device_id = device; monitor_baud = 115200; no_reset_before = true };
  action = Submit.serial_write hello (sha256 weak_hash hello) 115200 1000;
  identity = record {
    key = codes "key-1";
    fingerprint = sha256 weak_hash (codes "serial-write" ++ 0 ∷ codes "{}");
  };
}

hello_posted :
    prepare post_codec
      (record descriptor { id = device } ∷ [])
      (some (codes "key-1"))
      (serial_write hello_request)
    ≡ ok hello_prepared
unfolding prepare prepare_write authorize_device runtime request_identity map_err
    validate_idempotency_key SerialWrite.decode SerialWrite.validate SerialWrite.device_request
    sha256 hex eq_bytes
hello_posted = refl

prepare-IsAllowed_example : IsAllowed post_codec hello_prepared
prepare-IsAllowed_example =
    prepare-IsAllowed post_codec (record descriptor { id = device } ∷ []) (some (codes "key-1"))
      (serial_write hello_request) hello_prepared hello_posted

-- The log with its oldest event gone, in two rounds of a reader who knows the first event.
abbrev round : Round ℕ
round = record { state = thrice; is_running = true; is_late = false }

abbrev from_one : Cursor
from_one = record { epoch = codes "run"; after = 1 }

round-IsKept : IsKept two_mib round
round-IsKept = record { is_log = thrice-IsLog; has_event = omega (arith, thrice_length) }

-- The second round has nothing new.
rounds-Follows : Follows two_mib 1 (round ∷ round ∷ [])
unfolding new_device emit evict
rounds-Follows = (
  round-IsKept,
  refl,
  omega arith,
  omega (arith, thrice_length),
  (round-IsKept, refl, omega arith, omega arith, tt),
)

stream_rounds_complete_example :
    RunsFrom 1 (sent_events (stream_rounds (codes "run") from_one (round ∷ round ∷ [])))
    × (1 + length (sent_events (stream_rounds (codes "run") from_one (round ∷ round ∷ [])))
        ≡ last_seq 1 (round ∷ round ∷ []))
stream_rounds_complete_example =
    stream_rounds_complete two_mib (codes "run") 1 (round ∷ round ∷ []) rounds-Follows

abbrev text_of : ℕ → Option Bytes
text_of n = some (n ∷ [])

abbrev is_three : Bytes → Bool
is_three text = eq_bytes text (3 ∷ [])

abbrev third : Event ℕ
third = record { seq = 3; kind = codes "log"; body = 3 }

third_found : wait_rounds text_of is_three (codes "run") from_one (round ∷ []) ≡ ok third
unfolding wait_rounds find_match events_after is_gap newer new_device emit evict eq_bytes
third_found = refl

wait_rounds-stream_rounds_iff_example :
    (wait_rounds text_of is_three (codes "run") from_one (round ∷ []) ≡ ok third)
    ↔ IsFirst text_of is_three
        (sent_events (stream_rounds (codes "run") from_one (round ∷ [])))
        third
wait_rounds-stream_rounds_iff_example =
    wait_rounds-stream_rounds_iff text_of is_three (codes "run") from_one (round ∷ []) third
      ((refl, refl), tt)
