-- ===== src/Tests/ReconnectRuns.antt =====
-- src/server.rs: console output of a device, and attempts to find a device that is lost.
use idf_remote.Base.{ℕ, ◌≡◌, refl, [], ◌∷◌, none, length}
use idf_remote.Device.{available_idle}
use idf_remote.Logs.{Console, LineDecoder, feed, feed_byte, finish}
use idf_remote.Store.Events.{DeviceState, new_device, emit, evict}
use idf_remote.Store.Reconnect.{Json, console, emit_logs, put_output, application_output}

abbrev numbers_only : Json ℕ
numbers_only = record {
  encoded_len = λ e. 10;
  lost = λ reason baud. baud;
  found = λ attempts baud. attempts;
  raw = λ bytes. length bytes;
  log = λ r. r.seq;
  corruption = 0;
}

abbrev as_is : Console
as_is = record { clean_text = λ bytes. bytes; captures = λ text. none; clock = λ seq. seq }

abbrev no_line : LineDecoder
no_line = record { pending = []; seq = 0 }

abbrev quiet : DeviceState ℕ
quiet = new_device available_idle

-- One event for the bytes and one for each line.
two_lines :
    (application_output numbers_only as_is quiet no_line (console (97 ∷ 10 ∷ 98 ∷ 10 ∷ []))).0.seq
    ≡ 3
unfolding application_output put_output emit_logs emit evict new_device feed feed_byte finish
two_lines = refl
