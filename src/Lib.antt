-- ===== src/Lib.antt =====
-- idf-remote: a daemon that owns ESP devices on serial ports, and the clients that flash them, watch
-- them and talk to their firmware over HTTP and over a multiplexed console.
--
-- The parts and how they interact. A client makes a `FlashPlan` ready (src/plan.rs), describes it in a
-- manifest and uploads it (src/wire.rs). The daemon (src/server.rs) checks the manifest, rebuilds the
-- plan from the parts and hands it to the worker of the device. What happens on a device is reported
-- as events, which the daemon keeps in a bounded log per device, and which clients read by cursors.
-- On the serial line, console text and frames share one stream of bytes (src/mux.rs).
--
-- The files and the code they model:
--   Mux     src/mux.rs. Crc is `crc32`; Frame is `Frame::{encode, decode}`; Decoder is
--           `Decoder::feed`, as a function from the decoder and the bytes to the decoder and its
--           reports. The state inside the loop of `feed` is the record `Feed`.
--   Plan    src/plan.rs. Offset is `parse_offset`, with `u32::from_str_radix` written out; Prepare is
--           `FlashPlan::prepare` and `PreparedPlan::validate_capacity`. The file system is a function
--           from file names to contents, a missing file is `none`.
--   Device  src/device.rs.
--   Wire    src/wire.rs. Digest is `sha256`, with the hash itself a parameter (the sha2 crate), of
--           which only is used that a digest is 32 bytes. Manifest is `FlashUploadManifest`; Requests,
--           ReadFlash, EraseFlash, SerialWrite and AppRequest are the other requests, with base64 a parameter.
--   Store   src/server.rs, as steps on the store that its lock protects. Events is `DeviceState`,
--           `Store::emit` and `Store::events_after`; Operations is `Store`, `push_operation`, `replay`
--           and `get_operation`; Submit and Admit are `Service::submit`, with the parts between its
--           locks as functions of their own and the composition of all as `submit`; Completion is
--           `finish_stream`; Reconnect is `MonitorReconnect`, the steps around a reconnect and
--           `application_output`; Discovery is `sync_discovered` and `upsert_discovered`, on the two
--           maps that they change; Start is `Store::new` and `request_identity`; Reading is
--           `application_events`. JSON values are a parameter, as are the length of the JSON text
--           of an event, the answer of the backend, and whether the worker's channel takes a job.
--           A panic of `expect` is an error of its own. `Store.devices` and the other maps are functions from
--           texts. A theorem about `admit` holds for any store that other threads left before it.
--   Logs    src/logs.rs. The module itself is `LineDecoder`, Capture is `capture`, whose loop walks a
--           list of what it meets from outside, round by round. The regular expressions, the decoding
--           of UTF-8 and the clock are parameters.
--   Application  src/application.rs. Json is `Command`, `validate_json` and the tree of serde_json,
--           whose numbers, reader and writer are parameters; Session is `Session`, as functions from
--           the session and its inputs to the session, what is emitted and the result; Blocking is the
--           calls that block, whose loops walk a list of what they meet, turn by turn, to the deadline.
--   Duplex  src/duplex.rs. State is `Duplex` with `start_application` and `start_input`; Steps is `tick`,
--           `expire`, `feed` and `abort`. Each reading of the clock and the outcome of each write is an
--           argument, and a panic of `unwrap` is an error of its own.
--   Worker  `Service::worker` of src/server.rs, whose variables are the record `Worker`. State has its steps
--           on the store and the first lines of the loop; Idle is the pass of the loop with no job; Jobs is
--           the job of the stream; Exclusive and Ended are the job that has the port for itself. The
--           readings of the clock, and what the port and the backend answer, are records of a pass. Other
--           threads are not interleaved with the steps of a pass.
--   Backend  the checks of a plan in src/backend/flashing.rs: `validate`, `configured_size` and
--           `validate_detected_size`. The parsers and encoders of espflash are parameters, and a panic of an
--           index is an error of its own.
--   Http    the handlers of src/server.rs. Staging and Upload are `flash`: what the multipart reader gives is a
--           list of fields and chunks, each with what the file system answers, and a staged file is its
--           content. Post is the handlers of JSON requests; Reports is `auth`, `events`, `logs`, `wait` and
--           `stream`, whose loops walk a list of rounds, each with the device as the store has it then.
--   Idf     src/idf.rs. A `BTreeMap` is the list of its entries in the order of its keys; the reader of
--           an image entry, the sizes of files and the equality of paths are parameters.
--   Base    what the others share: Boolean tests, lists and bytes, results, words, sorting, texts.
--   Tests   runs at concrete inputs.
--
-- Machine integers are numbers with their bounds written out: a u8 of a frame is below 256 by
-- `IsByte`, the fields of a frame have the bounds of `IsSendable`, and an addition that the source
-- checks is a test against the bound of its type. Loops are recursions on the list they walk. The
-- fuel of `decimal`, which prints a number, is the number itself, and a number is not smaller
-- than the count of its digits less one. `crc_bits` takes the count of bits, which is 8, and `expire`
-- the count of operations, of which each round drops one. `chunks` takes the count of bytes, of
-- which each chunk takes at least one.
--
-- Not modelled: JSON texts; the routing and the status codes of HTTP, the listing of devices and the
-- artifacts; the threads of the daemon and their clocks; the serial ports, the registry of ports of
-- src/backend/espflash.rs, the espflash crate and the session with a flasher; the Android bindings;
-- the command line; the making of images from ELF files.
pub mod Base
pub mod Mux
pub mod Plan
pub mod Device
pub mod Wire
pub mod Store
pub mod Logs
pub mod Application
pub mod Backend
pub mod Duplex
pub mod Http
pub mod Idf
pub mod Worker
mod Tests
