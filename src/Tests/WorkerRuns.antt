-- ===== src/Tests/WorkerRuns.antt =====
-- `Service::worker` of src/server.rs: a worker with input under way, whose port fails.
use idf_remote.Base.{ℕ, ◌≡◌, refl, true, false, [], ◌∷◌, eq_bytes, none, some, ok, err, length}
use idf_remote.Base.Text.{codes, insert}
use idf_remote.Device.{DeviceId, DeviceDescriptor, available_idle}
use idf_remote.Store.Events.{new_device}
use idf_remote.Store.Operations.{Operation, running, Store, find_operation}
use idf_remote.Application.Json.{Value, null, number}
use idf_remote.Duplex.State.{new}
use idf_remote.Duplex.Steps.{wrote, failing}
use idf_remote.Duplex.Accounts.{count_open, count_tx}
use idf_remote.Worker.State.{Host, Worker, no_line}
use idf_remote.Worker.Idle.{Moment, passing, run}
use idf_remote.Worker.Jobs.{Job, type_in, stream_job}
use idf_remote.Worker.Exclusive.{PortJob, reset, Answers, Reports}
use idf_remote.Worker.Ended.{port_job}
use idf_remote.Worker.Steady.{IsHeld, Runs}
use idf_remote.Worker.Passes.{run-Runs}
use idf_remote.Worker.Taken.{stream_job-Runs}
use idf_remote.Worker.Closed.{IsOver, port_job-IsOver}
use idf_remote.Tests.ApplicationRuns.{lenient}
use idf_remote.Tests.DuplexRuns.{plain_texts, small}

abbrev dev : DeviceId
dev = record { text = codes "dev" }

abbrev board : DeviceDescriptor
board = record {
  id = dev;
  display_name = codes "board";
  transport = record { kind = codes "serial"; address = none; metadata = [] };
  status = available_idle;
  capabilities = [];
}

abbrev host : Host ℕ
host = record {
  serde = lenient;
  texts = plain_texts;
  json = record {
    encoded_len = λ e. 10;
    lost = λ reason baud. number baud;
    found = λ attempts baud. number attempts;
    raw = λ bytes. number (length bytes);
    log = λ r. number r.seq;
    corruption = null;
  };
  operation_value = λ op. null;
  lines = record { clean_text = λ bytes. bytes; captures = λ text. none; clock = λ seq. seq };
  reason = λ why. null;
  written = λ size digest_text baud. number size;
  duplex_text = λ why. codes "stream";
  api_text = λ why. codes "refresh";
  unavailable = λ a. codes "unavailable";
}

abbrev typing : Operation (Value ℕ)
typing = record {
  id = codes "op_1";
  device_id = dev;
  request_key = codes "key";
  status = running;
  start_cursor = record { epoch = codes "run"; after = 1 };
  result = none;
  error = none;
  artifact = none;
}

abbrev store : Store (Value ℕ)
store = record {
  epoch = codes "run";
  devices = insert (λ k. none) (codes "dev") (new_device available_idle);
  operations = typing ∷ [];
  idempotency = λ k. none;
  artifacts = λ k. none;
}

-- The worker has the input `op_1` in its scheduler.
abbrev at_work : Worker ℕ
at_work = record {
  store = store;
  reader = true;
  reader_baud = some 115200;
  duplex = small;
  reconnect = none;
  boot_reopen_at = none;
  decoder = no_line;
}

at_work-IsHeld : IsHeld host dev at_work
unfolding count_open count_tx find_operation insert eq_bytes
at_work-IsHeld = (refl, refl)

-- The port takes two bytes, and then fails.
abbrev first : Moment
first = record {
  clock = λ i. 1;
  ticked = 1;
  write = wrote 2;
  time = 2;
  read = passing;
  expected = 3;
  later = 4;
  reopens_after_boot_entry = false;
  refreshed = some board;
  open_error = none;
}

abbrev last : Moment
last = record first { write = failing }

run-Runs_example : Runs host dev (run host dev at_work (first ∷ last ∷ first ∷ []))
run-Runs_example = run-Runs host dev at_work (first ∷ last ∷ first ∷ []) at_work-IsHeld

abbrev free : Worker ℕ
free = record at_work { duplex = new ℕ }

free-IsHeld : IsHeld host dev free
unfolding count_open count_tx insert eq_bytes
free-IsHeld = (refl, refl)

abbrev job : Job ℕ
job = record {
  id = codes "op_1";
  monitor_baud = 115200;
  action = type_in (codes "help") (codes "digest") 9600 1000;
}

stream_job-Runs_example : Runs host dev (stream_job host dev free job first 7)
unfolding find_operation eq_bytes
stream_job-Runs_example = stream_job-Runs host dev free job first 7 free-IsHeld refl

abbrev reports : Reports ℕ
reports = record {
  reset_done = null;
  monitor_open = null;
  monitor_shared = null;
  erased = λ info. info;
  with_warnings = λ info warnings. none;
}

abbrev answers : Answers ℕ
answers = record {
  refreshed = some board;
  open_error = none;
  progress = [];
  outcome = ok null;
  artifact = err (codes "no file");
  handoff_error = none;
}

abbrev reset_job : PortJob
reset_job = record { id = codes "op_1"; monitor_baud = 115200; action = reset }

port_job-IsOver_example :
    (w' : Worker ℕ) × (port_job host dev reports free reset_job answers ≡ ok w')
    × IsHeld host dev w'
    × IsOver host reports dev (codes "op_1") w'
unfolding find_operation eq_bytes
port_job-IsOver_example = port_job-IsOver host reports dev free reset_job answers free-IsHeld refl
