-- ===== src/Application/Session.antt =====
-- `Session` of src/application.rs: what it sends, and what it makes of the bytes that it is fed. The
-- seed of the nonces, and what serde_json does, are arguments.
use idf_remote.Base.{
  ℕ, zero, suc, ◌+◌, ◌%◌, ◌^◌, Bool, true, false, ◌&&◌, ◌||◌, List, [], ◌∷◌, ◌++◌, Option, none,
  some, Bytes, length, take, drop, ltb, ◌==◌, if◌then◌else◌, Result, err, ok, ensure, context,
  ◌>>=◌, ◌>>◌,
}
use idf_remote.Base.Text.{codes}
use idf_remote.Mux.Frame
use idf_remote.Mux.Frame.{Frame, encode, max_payload}
use idf_remote.Mux.Decoder
use idf_remote.Mux.Decoder.{Decoder, Decoded, frame, raw, corrupt, feed}
use idf_remote.Store.Reconnect.{Output, console, application_event, corrupt_frame}
use idf_remote.Application.Json.{
  Value, null, Serde, get, number, Command, payload, AppError, session_lost, ids_exhausted,
  unsupported_protocol, invalid_response, session_ended, invalid_frame,
}

pub record Session (N : Type 0) : Type 0 where
  pub nonce : ℕ  -- u64
  pub next_request : ℕ  -- u32
  pub decoder : Decoder
  pub info : Value N
  pub valid : Bool

-- `nonce()`: the value, and what the counter `NEXT` holds after it.
unfoldable pub nonce : ℕ → ℕ → ℕ × ℕ
nonce seed next =
    let start = if next == 0 then (if seed == 0 then 1 else seed) else next in
    (start, (start + 1) % 2 ^ 64)

unfoldable pub begin_connect : (N : Type 0) → ℕ → Session N × Frame
begin_connect N fresh = (
  record { nonce = fresh; next_request = 1; decoder = Decoder.new; info = null; valid = false },
  record { kind = Frame.hello; session = fresh; request_id = 0; payload = [] },
)

-- `frame.encode()?` inside a function whose error is the file's.
unfoldable pub encode_frame : Frame → Result AppError Bytes
encode_frame f = elim (encode f) [ err why ↦ err invalid_frame | ok wire ↦ ok wire ]

-- `bytes.chunks(size)`, on fuel: each chunk takes at least one byte.
unfoldable pub chunks_within : ℕ → ℕ → Bytes → List Bytes
chunks_within zero size bytes = []
chunks_within (suc fuel) size [] = []
chunks_within (suc fuel) size (b ∷ bs) =
    take size (b ∷ bs) ∷ chunks_within fuel size (drop size (b ∷ bs))

unfoldable pub chunks : ℕ → Bytes → List Bytes
chunks size bytes = chunks_within (length bytes) size bytes

-- `.collect()` into a `Result`.
unfoldable pub encode_all : List Frame → Result AppError (List Bytes)
encode_all [] = ok []
encode_all (f ∷ fs) = do wire ← encode_frame f; wires ← encode_all fs; ok (wire ∷ wires)

unfoldable pub console_frames : ℕ → List Bytes → List Frame
console_frames session [] = []
console_frames session (chunk ∷ rest) =
    record { kind = Frame.console; session = session; request_id = 0; payload = chunk }
    ∷ console_frames session rest

unfoldable pub prepare_console : {N : Type 0} → Session N → Bytes → Result AppError (List Bytes)
prepare_console s bytes = do
  ensure s.valid session_lost
  encode_all (console_frames s.nonce (chunks 256 bytes))

-- The answer of the application: a value, or an error with its value.
abbrev pub Reply : Type 0 → Type 0
Reply N = Result (Value N) (Value N)

-- `reply` and `reset` of the loop in `process`, and what it has emitted.
pub record Round (N : Type 0) : Type 0 where
  pub reply : Option (Reply N)
  pub reset : Bool
  pub emitted : List (Output (Value N))

-- `expected.is_some_and(..)`
unfoldable pub is_expected : Option (ℕ × ℕ) → Frame → Bool
is_expected none f = false
is_expected (some (kind, id)) f = f.request_id == id && (f.kind == kind || f.kind == Frame.error)

module _ {N : Type 0} (serde : Serde N) where
  -- `info.get("protocol").and_then(Value::as_u64) == Some(1)`
  unfoldable pub speaks_one : Option (Value N) → Bool
  speaks_one (some (number n)) = elim (serde.as_u64 n) [
    | none ↦ false
    | some version ↦ version == 1
  ]
  speaks_one _ = false

  unfoldable pub accept_hello : Session N → Value N → Result AppError (Session N)
  accept_hello s info = do
    ensure (speaks_one (get info (codes "protocol"))) unsupported_protocol
    ok (record s { info = info; valid = true })

  unfoldable pub prepare_request : Session N → Command N → Result AppError (Session N × Frame)
  prepare_request s command = do
    ensure s.valid session_lost
    bytes ← payload serde command
    ensure (ltb (s.next_request + 1) (2 ^ 32)) ids_exhausted
    ok (
      record s { next_request = s.next_request + 1 },
      record {
        kind = Frame.request;
        session = s.nonce;
        request_id = s.next_request;
        payload = bytes;
      },
    )

  unfoldable pub reply_of : ℕ → Value N → Reply N
  reply_of kind value = if kind == Frame.error then err value else ok value

  -- `Output::Event`, or a corrupt frame where the text is no JSON.
  unfoldable pub event_of : Option (Value N) → Output (Value N)
  event_of none = corrupt_frame
  event_of (some value) = application_event value

  unfoldable pub on_reply : Round N → Frame → Result (List (Output (Value N))) (Round N)
  on_reply r f = do
    value ← context (serde.from_slice f.payload) r.emitted
    ok (record r { reply = some (reply_of f.kind value) })

  -- A frame of the session that is no answer to the pending request.
  unfoldable pub on_other : Round N → Frame → Round N
  on_other r f =
      if f.kind == Frame.console
      then record r { emitted = r.emitted ++ console f.payload ∷ [] }
      else if f.kind == Frame.event
      then record r { emitted = r.emitted ++ event_of (serde.from_slice f.payload) ∷ [] }
      else r

  -- One turn of the loop over what the decoder reports. An error keeps what was emitted before it.
  unfoldable pub on_decoded :
      Session N → Option (ℕ × ℕ) → Round N → Decoded → Result (List (Output (Value N))) (Round N)
  on_decoded s expected r (raw bytes) =
      ok (record r { reset = r.reset || s.valid; emitted = r.emitted ++ console bytes ∷ [] })
  on_decoded s expected r corrupt = ok (record r { emitted = r.emitted ++ corrupt_frame ∷ [] })
  on_decoded s expected r (frame f) =
      if f.session == s.nonce
      then if is_expected expected f then on_reply r f else ok (on_other r f)
      else ok r

  unfoldable pub run_decoded :
      Session N
      → Option (ℕ × ℕ)
      → Round N
      → List Decoded
      → Result (List (Output (Value N))) (Round N)
  run_decoded s expected r [] = ok r
  run_decoded s expected r (d ∷ ds) = do
    r' ← on_decoded s expected r d
    run_decoded s expected r' ds

  -- What `process` leaves, emits and returns.
  pub record Processed : Type 0 where
    pub session : Session N
    pub emitted : List (Output (Value N))
    pub outcome : Result AppError (Option (Reply N))

  unfoldable pub finish_process : Session N → Result (List (Output (Value N))) (Round N) → Processed
  finish_process s (err emitted) = record {
    session = s;
    emitted = emitted;
    outcome = err invalid_response;
  }
  finish_process s (ok r) =
      if r.reset
      then record {
        session = record s { valid = false };
        emitted = r.emitted;
        outcome = err session_ended;
      }
      else record { session = s; emitted = r.emitted; outcome = ok r.reply }

  unfoldable pub process : Session N → Bytes → Option (ℕ × ℕ) → Processed
  process s bytes expected =
      let fed = feed s.decoder bytes in
      finish_process (record s { decoder = fed.0 })
        (run_decoded s expected (record { reply = none; reset = false; emitted = [] }) fed.1)
