-- ===== src/Tests/ApplicationRuns.antt =====
-- src/application.rs: a request and its answer, console input, and what a command may hold.
use idf_remote.Base.{
  All, ℕ, zero, suc, ◌+◌, ◌≤◌, ◌<◌, ◌≡◌, ◌↔◌, refl, arith, true, false, [], ◌∷◌, ◌++◌, List, Bytes,
  some, ok, err, replicate,
}
use idf_remote.Base.Words.{to_le_bytes, from_le_bytes}
use idf_remote.Base.Text.{codes}
use idf_remote.Mux.Crc.{crc32}
use idf_remote.Mux.Frame
use idf_remote.Mux.Frame.{Frame, encode, stuff, stuff_byte, body_of, header_and_payload, decode}
use idf_remote.Mux.Decoder
use idf_remote.Mux.Decoder.{
  Decoder, Decoded, frame, feed, close, feed_bytes, feed_byte, on_flag, push_byte, bound_body,
  flush, decoded_of,
}
use idf_remote.Mux.RoundTrip.{IsSendable}
use idf_remote.Mux.Stream.{between_frames, pending}
use idf_remote.Mux.Invariant.{new-IsValid}
use idf_remote.Application.Json.{
  Value, null, number, string, array, object, nil, item, end, field, Serde, Command, payload,
  validate_json, max_depth, nesting, string_nul, contains_nul,
}
use idf_remote.Wire.Requests.{default_baud}
use idf_remote.Wire.AppRequest
use idf_remote.Wire.AppRequest.{
  ApplicationRequest, command_refused, default_serial_write_timeout_ms, check_command,
}
use idf_remote.Application.Depth.{nesting_of, IsPlain, validate_json-accepts_iff}
use idf_remote.Application.Session.{
  Session, encode_frame, is_expected, on_reply, reply_of, on_decoded, run_decoded, finish_process,
  process, prepare_request, prepare_console,
}
use idf_remote.Application.Send.{
  IsSession, between_frames-IsValid, feed_each, frames, prepare_request-encode,
  prepare_console-feed_each, IsConsole, payloads,
}
use idf_remote.Duplex.Steps.{Write, wrote, passing}
use idf_remote.Application.Blocking.{
  Turn, Arrival, got, quiet, take_reply, wait, ask, request_prepared, request, write_from,
  write_frame,
}
use idf_remote.Application.Asked.{reported, request-IsAnsweredBy}
use idf_remote.Application.Answers.{IsAnsweredBy, process-IsAnsweredBy, process-encode}

-- A reader that takes every text for `null`.
abbrev pub lenient : Serde ℕ
lenient = record {
  is_interoperable = λ n. true;
  as_u64 = λ n. some n;
  to_vec = λ value. some (123 ∷ 125 ∷ []);
  from_slice = λ bytes. some null;
}

abbrev pub ping : Command ℕ
ping = record { method = codes "ping"; params = null }

-- A session that has been accepted and has asked nothing yet.
abbrev pub ready : Session ℕ
ready = record { nonce = 7; next_request = 1; decoder = between_frames; info = null; valid = true }

pub ready-IsSession : IsSession ready
ready-IsSession = record {
  nonce_ne_zero = λ e. omega arith;
  nonce_fits = omega arith;
  next_fits = omega arith;
  decoder_valid = between_frames-IsValid;
}

-- Sixteen arrays around a number pass, and one more does not.
abbrev arrays : ℕ → Value ℕ
arrays zero = number 1
arrays (suc n) = array (item (arrays n) nil)

too_deep : validate_json lenient (arrays 17) 0 ≡ err nesting
unfolding validate_json
too_deep = refl

validate_json-accepts_iff_example :
    (validate_json lenient (arrays 16) 0 ≡ ok tt)
    ↔ ((0 + nesting_of (arrays 16) ≤ max_depth) × IsPlain lenient (arrays 16))
validate_json-accepts_iff_example = validate_json-accepts_iff lenient (arrays 16) 0

-- The request of a client, with the two defaults.
abbrev pub request_with : Value ℕ → ApplicationRequest ℕ
request_with params = record {
  device_id = record { text = codes "usb" };
  monitor_baud = default_baud;
  timeout_ms = default_serial_write_timeout_ms;
  command = some (record { method = codes "ping"; params = params });
}

accepted_request : AppRequest.validate lenient (request_with null) ≡ ok tt
unfolding AppRequest.validate check_command payload contains_nul validate_json
accepted_request = refl

refused_request :
    AppRequest.validate lenient (request_with (arrays 17)) ≡ err (command_refused nesting)
unfolding AppRequest.validate check_command payload contains_nul validate_json
refused_request = refl

-- A field with NUL in its text stands on neither side.
abbrev nul_field : Value ℕ
nul_field = object (field (codes "a") (string (0 ∷ [])) end)

nul_field_refused : validate_json lenient nul_field 0 ≡ err string_nul
unfolding validate_json contains_nul
nul_field_refused = refl

abbrev request_of_ping : Frame
request_of_ping = record {
  kind = Frame.request;
  session = 7;
  request_id = 1;
  payload = 123 ∷ 125 ∷ [];
}

prepare_ping :
    prepare_request lenient ready ping ≡ ok (record ready { next_request = 2 }, request_of_ping)
unfolding prepare_request payload contains_nul validate_json
prepare_ping = refl

prepare_request-encode_example :
    (ready.valid ≡ true)
    × IsSession (record ready { next_request = 2 })
    × (request_of_ping.request_id ≡ 1)
    × (1 < 2)
    × ((wire : Bytes) × (encode_frame request_of_ping ≡ ok wire)
        × (feed Decoder.new wire
            ≡ (between_frames, pending Decoder.new ++ frame request_of_ping ∷ [])))
prepare_request-encode_example =
    prepare_request-encode lenient ready (record ready { next_request = 2 }) ping request_of_ping
      Decoder.new ready-IsSession new-IsValid prepare_ping

prepare_console-feed_each_example :
    (wires : List Bytes) × (prepare_console ready (replicate 300 65) ≡ ok wires)
    × ((fs : List Frame) × (feed_each between_frames wires ≡ (between_frames, frames fs))
        × All (IsConsole 7) fs
        × (payloads fs ≡ replicate 300 65))
prepare_console-feed_each_example =
    prepare_console-feed_each ready (replicate 300 65) ready-IsSession refl

-- The answer to the request 1 of the session 7.
abbrev answer : Frame
answer = record { kind = Frame.response; session = 7; request_id = 1; payload = codes "null" }

answer-IsSendable : IsSendable answer
answer-IsSendable = record {
  short = omega arith;
  kind_ok = refl;
  session_ne_zero = λ e. omega arith;
  session_fits = omega arith;
  request_fits = omega arith;
}

process-encode_example :
    (wire : Bytes) × (encode_frame answer ≡ ok wire)
    × (process lenient ready wire (some (Frame.response, 1))
        ≡ record { session = ready; emitted = []; outcome = ok (some (ok null)) })
unfolding close
process-encode_example =
    process-encode lenient ready answer null ready-IsSession refl answer-IsSendable refl
      (λ e. omega arith) refl

-- The bytes of the answer, as `encode` writes them.
answer_wire : Bytes
unfolding encode_frame encode stuff stuff_byte body_of header_and_payload to_le_bytes crc32
answer_wire = elim (encode answer) [ err why ↦ [] | ok wire ↦ wire ]

answered :
    (process lenient ready answer_wire (some (Frame.response, 1))).outcome ≡ ok (some (ok null))
unfolding answer_wire process finish_process run_decoded on_decoded on_reply is_expected reply_of
    feed feed_bytes feed_byte on_flag push_byte bound_body close flush decoded_of decode
    encode_frame encode stuff stuff_byte body_of header_and_payload to_le_bytes crc32 from_le_bytes
answered = refl

process-IsAnsweredBy_example :
    IsAnsweredBy lenient ready Frame.response 1 (ok null) (feed between_frames answer_wire).1
process-IsAnsweredBy_example =
    process-IsAnsweredBy lenient ready Frame.response 1 answer_wire (ok null) answered

-- The request in two writes with a wait between them, and its answer.
abbrev writes : List (Turn Write)
writes = (false, wrote 10) ∷ (false, passing) ∷ (false, wrote 14) ∷ []

abbrev reads : List (Turn Arrival)
reads = (false, quiet) ∷ (false, got answer_wire) ∷ []

asked : (request lenient ready ping writes reads).outcome ≡ ok (ok null)
unfolding answer_wire request request_prepared ask write_frame write_from wait take_reply
    prepare_request payload contains_nul validate_json process finish_process run_decoded on_decoded
    on_reply is_expected reply_of feed feed_bytes feed_byte on_flag push_byte bound_body close flush
    decoded_of decode encode_frame encode stuff stuff_byte body_of header_and_payload to_le_bytes
    crc32 from_le_bytes
asked = refl

request-IsAnsweredBy_example :
    (ready.valid ≡ true)
    × IsAnsweredBy lenient ready Frame.response 1 (ok null) (reported between_frames reads)
request-IsAnsweredBy_example = request-IsAnsweredBy lenient ready ping writes reads (ok null) asked
