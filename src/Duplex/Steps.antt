-- ===== src/Duplex/Steps.antt =====
-- `tick`, `expire`, `feed` and `abort` of src/duplex.rs. Each reading of the clock, in milliseconds, and
-- the outcome of each write are arguments, as are the texts of errors.
use idf_remote.Base.{
  ℕ, zero, suc, ◌+◌, Bool, false, ◌||◌, List, [], ◌∷◌, ◌++◌, Option, none, some, Bytes, length,
  is_empty, take, drop, leb, ltb, ◌==◌, if◌then◌else◌, Result, err, ok,
}
use idf_remote.Base.Text.{codes}
use idf_remote.Mux.Frame
use idf_remote.Store.Reconnect.{Output, console}
use idf_remote.Store.Completion.{Lane, application, input, Completion}
use idf_remote.Application.Json.{Value, Serde, AppError}
use idf_remote.Application.Session.{Session, Reply, accept_hello, process}
use idf_remote.Duplex.State.{
  Pending, Transfer, Duplex, DuplexError, write_late, stream_closed, write_broken, panicked,
  in_session, new,
}

-- What `io.write` returns: a count, one of the three kinds of error that pass, or another error.
pub data Write : Type 0 where
  wrote : ℕ → Write
  passing failing : Write

-- How errors are printed: one of the file `application.rs`, and `application error: {value}`.
pub record Texts (N : Type 0) : Type 0 where
  pub of_error : AppError → Bytes
  pub of_reply : Value N → Bytes

abbrev pub timed_out : Bytes
timed_out = codes "application response timed out; outcome unknown (not retried)"

-- `self.tx.iter().any(|t| Instant::now() >= t.deadline)`, each transfer at a reading of its own.
unfoldable pub any_late : {N : Type 0} → (ℕ → ℕ) → List (Transfer N) → Bool
any_late clock [] = false
any_late clock (t ∷ ts) = leb t.deadline (clock 0) || any_late (λ i. clock (suc i)) ts

-- `&frame[front.offset..end]`
unfoldable pub piece : ℕ → Bytes → Bytes
piece offset bytes = take 256 (drop offset bytes)

-- The bytes that `tick` hands to `io.write`, of the frames in front and of the queue.
unfoldable pub offered_of : ℕ → List Bytes → Bytes
offered_of offset [] = []
offered_of offset (bytes ∷ rest) = piece offset bytes

unfoldable pub offered : {N : Type 0} → List (Transfer N) → Bytes
offered [] = []
offered (t ∷ ts) = offered_of t.offset t.frames

abbrev pub Ended : Type 0 → Type 0
Ended N = List (Completion (Value N))

-- `self.pending.as_ref().filter(..).map(..)`
unfoldable pub expected_at : ℕ → Option Pending → Option (ℕ × ℕ)
expected_at time none = none
expected_at time (some p) = if ltb time p.deadline then some (p.kind, p.request_id) else none

module _ {N : Type 0} where
  -- `expire` when something is pending.
  unfoldable pub expire_pending : Duplex N → ℕ → Pending → Duplex N × Ended N
  expire_pending d time p =
      if leb p.deadline time
      then (
        record d {
          session = if p.kind == Frame.hello_ack then none else d.session;
          pending = none;
        },
        record { key = p.key; lane = application; result = err timed_out } ∷ [],
      )
      else (d, [])

  unfoldable pub expire : Duplex N → ℕ → Duplex N × Ended N
  expire d time = elim (d.pending) [ none ↦ (d, []) | some p ↦ expire_pending d time p ]

  -- What ends with the last frame of a transfer.
  unfoldable pub completion_in : Transfer N → Lane → Ended N
  completion_in t application = []
  completion_in t input = record { key = t.key; lane = input; result = ok t.result } ∷ []

  unfoldable pub completion_of : Transfer N → Ended N
  completion_of t = completion_in t t.lane

  -- `front.offset += n`, and the frame that is complete goes.
  unfoldable pub advance : Transfer N → Bytes → List Bytes → ℕ → Transfer N
  advance t bytes rest n =
      if t.offset + n == length bytes
      then record t { frames = rest; offset = 0 }
      else record t { offset = t.offset + n }

  -- The transfer that is complete goes, and between frames the next one has its turn.
  unfoldable pub take_turns : Transfer N → List (Transfer N) → List (Transfer N) × Ended N
  take_turns t ts =
      if is_empty t.frames
      then (ts, completion_of t)
      else if t.offset == 0
      then (ts ++ t ∷ [], [])
      else (t ∷ ts, [])

  -- The end of `tick`: `done.extend(self.expire())`.
  unfoldable pub and_expire :
      Duplex N → ℕ → List (Transfer N) × Ended N → Duplex N × Result DuplexError (Ended N)
  and_expire d time (tx, done) =
      let (d', late) = expire (record d { tx = tx }) time in (d', ok (done ++ late))

  unfoldable pub on_write :
      Duplex N
      → ℕ
      → Transfer N
      → List (Transfer N)
      → Bytes
      → List Bytes
      → Write
      → Duplex N × Result DuplexError (Ended N)
  on_write d time t ts bytes rest (wrote zero) = (d, err stream_closed)
  on_write d time t ts bytes rest (wrote (suc n)) =
      and_expire d time (take_turns (advance t bytes rest (suc n)) ts)
  on_write d time t ts bytes rest passing = let (d', late) = expire d time in (d', ok late)
  on_write d time t ts bytes rest failing = (d, err write_broken)

  -- The body of `if let Some(front)`, by the frames of the front.
  unfoldable pub tick_frames :
      Duplex N
      → ℕ
      → Write
      → Transfer N
      → List (Transfer N)
      → List Bytes
      → Duplex N × Result DuplexError (Ended N)
  tick_frames d time outcome t ts [] = and_expire d time (take_turns t ts)
  tick_frames d time outcome t ts (bytes ∷ rest) = on_write d time t ts bytes rest outcome

  unfoldable pub tick_front :
      Duplex N → ℕ → Write → List (Transfer N) → Duplex N × Result DuplexError (Ended N)
  tick_front d time outcome [] = and_expire d time ([], [])
  tick_front d time outcome (t ∷ ts) = tick_frames d time outcome t ts t.frames

  unfoldable pub tick : Duplex N → (ℕ → ℕ) → ℕ → Write → Duplex N × Result DuplexError (Ended N)
  tick d clock time outcome =
      let ticked = tick_front d time outcome d.tx in
      if any_late clock d.tx then (d, err write_late) else ticked

module _ {N : Type 0} (serde : Serde N) (texts : Texts N) where
  abbrev text_of_reply : Reply N → Result Bytes (Value N)
  text_of_reply (err value) = err (texts.of_reply value)
  text_of_reply (ok value) = ok value

  -- `result.and_then(|info| session.accept_hello(info))`, and what becomes of the session.
  unfoldable pub negotiated : Session N → Reply N → Option (Session N) × Result Bytes (Value N)
  negotiated session (err value) = (none, err (texts.of_reply value))
  negotiated session (ok info) = elim (accept_hello serde session info) [
    | err why ↦ (none, err (texts.of_error why))
    | ok accepted ↦ (some accepted, ok info)
  ]

  unfoldable pub on_reply :
      Duplex N → Session N → Pending → Reply N → Duplex N × Completion (Value N)
  on_reply d session p reply =
      let (session', result) =
        if p.kind == Frame.hello_ack
        then negotiated session reply
        else (some session, text_of_reply reply) in
      (
        record d { session = session'; pending = none },
        record { key = p.key; lane = application; result = result },
      )

  -- What `feed` leaves, emits and returns.
  pub record Fed : Type 0 where
    pub duplex : Duplex N
    pub emitted : List (Output (Value N))
    pub outcome : Result DuplexError (Ended N)

  -- `done.extend(self.expire()); Ok(done)`
  unfoldable pub fed : Duplex N → ℕ → List (Output (Value N)) → Ended N → Fed
  fed d time emitted done =
      let (d', late) = expire d time in
      record { duplex = d'; emitted = emitted; outcome = ok (done ++ late) }

  -- A reply, with what was pending: `self.pending.take().unwrap()`.
  unfoldable pub feed_reply :
      Duplex N → Session N → ℕ → List (Output (Value N)) → Reply N → Option Pending → Fed
  feed_reply d session later emitted reply none = record {
    duplex = d;
    emitted = emitted;
    outcome = err panicked;
  }
  feed_reply d session later emitted reply (some w) =
      let (d', c) = on_reply d session w reply in fed d' later emitted (c ∷ [])

  unfoldable pub feed_outcome :
      Duplex N → Session N → ℕ → List (Output (Value N)) → Result AppError (Option (Reply N)) → Fed
  feed_outcome d session later emitted (err why) = record {
    duplex = d;
    emitted = emitted;
    outcome = err (in_session why);
  }
  feed_outcome d session later emitted (ok none) = fed d later emitted []
  feed_outcome d session later emitted (ok (some reply)) =
      feed_reply d session later emitted reply d.pending

  unfoldable pub feed_to : Duplex N → Option (Session N) → Bytes → (time later : ℕ) → Fed
  feed_to d none bytes time later = fed d later (console bytes ∷ []) []
  feed_to d (some session) bytes time later =
      let done = process serde session bytes (expected_at time d.pending) in
      feed_outcome (record d { session = some done.session }) done.session later done.emitted
        done.outcome

  unfoldable pub feed : Duplex N → Bytes → (time later : ℕ) → Fed
  feed d bytes time later = feed_to d d.session bytes time later

module _ {N : Type 0} where
  -- `self.tx.drain(..)` in `abort`.
  unfoldable pub abort_in : Bytes → Bytes → Lane → Ended N → Ended N
  abort_in key reason application rest = rest
  abort_in key reason input rest = record { key = key; lane = input; result = err reason } ∷ rest

  unfoldable pub abort_tx : List (Transfer N) → Bytes → Ended N
  abort_tx [] reason = []
  abort_tx (t ∷ ts) reason = abort_in t.key reason t.lane (abort_tx ts reason)

  unfoldable pub abort_pending : Option Pending → Bytes → Ended N
  abort_pending none reason = []
  abort_pending (some p) reason =
      record { key = p.key; lane = application; result = err reason } ∷ []

  unfoldable pub abort : Duplex N → Bytes → Duplex N × Ended N
  abort d reason = (new N, abort_pending d.pending reason ++ abort_tx d.tx reason)
