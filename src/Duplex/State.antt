-- ===== src/Duplex/State.antt =====
-- `Duplex`, `Pending` and `Transfer` of src/duplex.rs, and the operations that put work into it. A
-- reading of the clock, in milliseconds, and a fresh nonce are arguments.
use idf_remote.Base.{
  ℕ, ◌+◌, Bool, true, false, not, ◌||◌, List, [], ◌∷◌, ◌++◌, Option, none, some, Bytes, ◌==◌,
  is_empty, if◌then◌else◌, Result, err, ok,
}
use idf_remote.Mux.Frame
use idf_remote.Mux.Frame.{Frame}
use idf_remote.Store.Completion.{Lane, application, input}
use idf_remote.Application.Json.{Value, null, Serde, Command, AppError}
use idf_remote.Application.Session.{
  Session, begin_connect, prepare_request, prepare_console, encode_frame, chunks,
}

pub record Pending : Type 0 where
  pub key : Bytes
  pub deadline : ℕ
  pub kind : ℕ  -- u8
  pub request_id : ℕ  -- u32, the field `request`

pub record Transfer (N : Type 0) : Type 0 where
  pub key : Bytes
  pub lane : Lane
  pub deadline : ℕ
  pub frames : List Bytes
  pub offset : ℕ
  pub result : Value N

pub record Duplex (N : Type 0) : Type 0 where
  pub session : Option (Session N)
  pub pending : Option Pending
  pub tx : List (Transfer N)

-- The messages of the file's errors, a failure inside the session, and a panic of `unwrap`.
pub data DuplexError : Type 0 where
  already_pending not_connected write_in_progress input_pending : DuplexError
  write_late stream_closed write_broken panicked : DuplexError
  in_session : AppError → DuplexError

abbrev pub is_some : {A : Type 0} → Option A → Bool
is_some none = false
is_some (some x) = true

abbrev pub is_input : Lane → Bool
is_input application = false
is_input input = true

unfoldable pub has_input : {N : Type 0} → List (Transfer N) → Bool
has_input [] = false
has_input (t ∷ ts) = is_input t.lane || has_input ts

-- `Duplex::default()`
abbrev pub new : (N : Type 0) → Duplex N
new N = record { session = none; pending = none; tx = [] }

unfoldable pub has_pending : {N : Type 0} → Duplex N → Bool
has_pending d = is_some d.pending || not (is_empty d.tx)

unfoldable pub connecting : {N : Type 0} → Duplex N → Bool
connecting d = elim (d.pending) [ none ↦ false | some p ↦ p.kind == Frame.hello_ack ]

-- What an operation leaves and returns.
abbrev pub Attempt : Type 0 → Type 0
Attempt N = Duplex N × Result DuplexError (Unit {0})

module _ {N : Type 0} where
  -- From `frame.encode()?` to the end of `start_application`, by what `encode` returns.
  unfoldable pub queue_wire :
      Duplex N → Bytes → (deadline kind id : ℕ) → Result AppError Bytes → Attempt N
  queue_wire d key deadline kind id (err why) = (d, err (in_session why))
  queue_wire d key deadline kind id (ok wire) = (
    record d {
      pending = some (record { key = key; deadline = deadline; kind = kind; request_id = id });
      tx =
          d.tx
          ++ record {
            key = key;
            lane = application;
            deadline = deadline;
            frames = wire ∷ [];
            offset = 0;
            result = null;
          }
            ∷ [];
    },
    ok tt,
  )

  unfoldable pub queue_application : Duplex N → Bytes → ℕ → ℕ → Frame → Attempt N
  queue_application d key deadline kind f =
      queue_wire d key deadline kind f.request_id (encode_frame f)

  -- A request, by what `prepare_request` returns.
  unfoldable pub send_request :
      Duplex N → Bytes → ℕ → Result AppError (Session N × Frame) → Attempt N
  send_request d key deadline (err why) = (d, err (in_session why))
  send_request d key deadline (ok prepared) =
      queue_application (record d { session = some prepared.0 }) key deadline Frame.response
        prepared.1

  unfoldable pub start_request :
      Serde N → Duplex N → Bytes → ℕ → Option (Session N) → Command N → Attempt N
  start_request serde d key deadline none command = (d, err not_connected)
  start_request serde d key deadline (some session) command =
      send_request d key deadline (prepare_request serde session command)

  -- A negotiation, by what is in the queue.
  unfoldable pub start_connect : Duplex N → Bytes → ℕ → ℕ → List (Transfer N) → Attempt N
  start_connect d key deadline fresh [] =
      let (session, f) = begin_connect N fresh in
      queue_application (record d { session = some session }) key deadline Frame.hello_ack f
  start_connect d key deadline fresh (t ∷ ts) = (d, err write_in_progress)

  -- The two kinds of request, when nothing is pending.
  unfoldable pub start_free :
      Serde N
      → Duplex N
      → Bytes
      → Option (Command N)
      → (deadline fresh : ℕ) → Option Pending
      → Attempt N
  start_free serde d key command deadline fresh (some w) = (d, err already_pending)
  start_free serde d key none deadline fresh none = start_connect d key deadline fresh d.tx
  start_free serde d key (some c) deadline fresh none =
      start_request serde d key deadline d.session c

  unfoldable pub start_application :
      Serde N → Duplex N → Bytes → Option (Command N) → (time timeout fresh : ℕ) → Attempt N
  start_application serde d key command time timeout fresh =
      start_free serde d key command (time + timeout) fresh d.pending

  -- The frames of `start_input`: of the session, or the bytes as they are.
  unfoldable pub input_frames : Option (Session N) → Bytes → Result AppError (List Bytes)
  input_frames none bytes = ok (chunks 256 bytes)
  input_frames (some session) bytes = prepare_console session bytes

  unfoldable pub queue_input :
      Duplex N → Bytes → ℕ → Value N → Result AppError (List Bytes) → Attempt N
  queue_input d key deadline result (err why) = (d, err (in_session why))
  queue_input d key deadline result (ok frames) = (
    record d {
      tx =
          d.tx
          ++ record {
            key = key;
            lane = input;
            deadline = deadline;
            frames = frames;
            offset = 0;
            result = result;
          }
            ∷ [];
    },
    ok tt,
  )

  unfoldable pub start_input : Duplex N → Bytes → Bytes → (time timeout : ℕ) → Value N → Attempt N
  start_input d key bytes time timeout result =
      let queued = queue_input d key (time + timeout) result (input_frames d.session bytes) in
      if has_input d.tx then (d, err input_pending) else queued
