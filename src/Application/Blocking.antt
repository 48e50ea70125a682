-- ===== src/Application/Blocking.antt =====
-- The calls of src/application.rs that block: `write_frame`, `wait`, and `Session::{connect, request,
-- console_input}`. What each turn of a loop meets is a list, whose end is the deadline.
use idf_remote.Base.{
  ℕ, ◌+◌, Bool, true, false, List, [], ◌∷◌, ◌++◌, Option, none, some, Bytes, length, leb,
  if◌then◌else◌, Result, err, ok,
}
use idf_remote.Mux.Frame
use idf_remote.Mux.Frame.{Frame, max_payload}
use idf_remote.Store.Reconnect.{Output}
use idf_remote.Application.Json.{
  Value, Serde, Command, AppError, session_lost, application_error, write_timeout, write_closed,
  write_failed, disconnected, response_timeout,
}
use idf_remote.Application.Session.{
  Session, Reply, Processed, begin_connect, accept_hello, prepare_request, encode_frame, process,
  chunks, console_frames,
}
use idf_remote.Duplex.Steps.{Write, wrote, passing, failing}

-- What `io.read` returns: bytes, `Ok(0)`, one of the three kinds of error that pass, or another.
pub data Arrival : Type 0 where
  got : Bytes → Arrival
  closed quiet broken : Arrival

-- A turn of a loop: whether the deadline has passed, and what the port answers.
abbrev pub Turn : Type 0 → Type 0
Turn A = Bool × A

-- The loop of `write_frame` over a frame of some length, from an offset on: how many bytes the port has
-- taken, and the turns that are left.
pub record Sent : Type 0 where
  pub offset : ℕ
  pub turns : List (Turn Write)
  pub result : Result AppError (Unit {0})

unfoldable pub write_from : (size offset : ℕ) → List (Turn Write) → Sent
write_from size offset [] = record {
  offset = offset;
  turns = [];
  result = if leb size offset then ok tt else err write_timeout;
}
write_from size offset ((late, wrote n) ∷ turns) =
    let rest = write_from size (offset + n) turns in
    if leb size offset
    then record { offset = offset; turns = (late, wrote n) ∷ turns; result = ok tt }
    else if late
    then record { offset = offset; turns = turns; result = err write_timeout }
    else if leb n 0
    then record { offset = offset; turns = turns; result = err write_closed }
    else rest
write_from size offset ((late, passing) ∷ turns) =
    let rest = write_from size offset turns in
    if leb size offset
    then record { offset = offset; turns = (late, passing) ∷ turns; result = ok tt }
    else if late
    then record { offset = offset; turns = turns; result = err write_timeout }
    else rest
write_from size offset ((late, failing) ∷ turns) =
    if leb size offset
    then record { offset = offset; turns = (late, failing) ∷ turns; result = ok tt }
    else if late
    then record { offset = offset; turns = turns; result = err write_timeout }
    else record { offset = offset; turns = turns; result = err write_failed }

unfoldable pub write_frame : Frame → List (Turn Write) → Sent
write_frame f turns = elim (encode_frame f) [
  | err why ↦ record { offset = 0; turns = turns; result = err why }
  | ok wire ↦ write_from (length wire) 0 turns
]

module _ {N : Type 0} (serde : Serde N) where
  -- The session, what is emitted, and the reply, when a call returns.
  pub record Returned : Type 0 where
    pub session : Session N
    pub emitted : List (Output (Value N))
    pub outcome : Result AppError (Reply N)

  abbrev emit_first : List (Output (Value N)) → Returned → Returned
  emit_first emitted r = record r { emitted = emitted ++ r.emitted }

  -- What `wait` does with what `process` returns.
  unfoldable pub take_reply :
      Processed serde → Result AppError (Option (Reply N)) → Returned → Returned
  take_reply p (err why) rest = record {
    session = p.session;
    emitted = p.emitted;
    outcome = err why;
  }
  take_reply p (ok (some reply)) rest = record {
    session = p.session;
    emitted = p.emitted;
    outcome = ok reply;
  }
  take_reply p (ok none) rest = emit_first p.emitted rest

  unfoldable pub wait : Session N → (kind id : ℕ) → List (Turn Arrival) → Returned
  wait s kind id [] = record { session = s; emitted = []; outcome = err response_timeout }
  wait s kind id ((true, arrival) ∷ turns) = record {
    session = s;
    emitted = [];
    outcome = err response_timeout;
  }
  wait s kind id ((false, got bytes) ∷ turns) =
      let p = process serde s bytes (some (kind, id)) in
      take_reply p p.outcome (wait p.session kind id turns)
  wait s kind id ((false, quiet) ∷ turns) = wait s kind id turns
  wait s kind id ((false, closed) ∷ turns) = record {
    session = record s { valid = false };
    emitted = [];
    outcome = err disconnected;
  }
  wait s kind id ((false, broken) ∷ turns) = record {
    session = record s { valid = false };
    emitted = [];
    outcome = err disconnected;
  }

  -- The write of a request, and what follows: a failure makes the session invalid.
  unfoldable pub ask :
      Session N → Frame → Result AppError (Unit {0}) → List (Turn Arrival) → Returned
  ask s f (err why) turns = record {
    session = record s { valid = false };
    emitted = [];
    outcome = err why;
  }
  ask s f (ok done) turns = wait s Frame.response f.request_id turns

  unfoldable pub request_prepared :
      Session N
      → Result AppError (Session N × Frame)
      → List (Turn Write)
      → List (Turn Arrival)
      → Returned
  request_prepared s (err why) writes reads = record {
    session = s;
    emitted = [];
    outcome = err why;
  }
  request_prepared s (ok (s', f)) writes reads = ask s' f (write_frame f writes).result reads

  unfoldable pub request :
      Session N → Command N → List (Turn Write) → List (Turn Arrival) → Returned
  request s command writes reads = request_prepared s (prepare_request serde s command) writes reads

  -- The loop of `console_input` over the frames of the chunks.
  unfoldable pub write_all :
      Session N → List Frame → List (Turn Write) → Session N × Result AppError (Unit {0})
  write_all s [] turns = (s, ok tt)
  write_all s (f ∷ fs) turns =
      let sent = write_frame f turns in
      let rest = write_all s fs sent.turns in
      elim (sent.result) [ err why ↦ (record s { valid = false }, err why) | ok done ↦ rest ]

  unfoldable pub console_input :
      Session N → Bytes → List (Turn Write) → Session N × Result AppError (Unit {0})
  console_input s bytes turns =
      let written = write_all s (console_frames s.nonce (chunks max_payload bytes)) turns in
      if s.valid then written else (s, err session_lost)

  -- `info?` of a reply, and `session.accept_hello(info)?`.
  unfoldable pub accept_reply : Session N → Result AppError (Reply N) → Result AppError (Session N)
  accept_reply s (err why) = err why
  accept_reply s (ok (err value)) = err application_error
  accept_reply s (ok (ok info)) = accept_hello serde s info

  unfoldable pub connect :
      (fresh : ℕ)
      → List (Turn Write)
      → List (Turn Arrival)
      → List (Output (Value N)) × Result AppError (Session N)
  connect fresh writes reads =
      let (session, hello) = begin_connect N fresh in
      let waited = wait session Frame.hello_ack 0 reads in
      let accepted = accept_reply waited.session waited.outcome in
      elim ((write_frame hello writes).result) [
        | err why ↦ ([], err why)
        | ok done ↦ (waited.emitted, accepted)
      ]
