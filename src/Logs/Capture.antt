-- ===== src/Logs/Capture.antt =====
-- `capture` of src/logs.rs. What the loop meets from outside, round by round, is a list of rounds: the
-- flag `running`, the time since the start, the result of the read, and whether the callback `emit`
-- accepts what it is given. The expression to wait for is that of the regex crate, a parameter.
use idf_remote.Base.{
  ℕ, Bool, true, false, not, ◌&&◌, List, [], ◌∷◌, Option, some, none, Bytes, leb, is_empty,
  if◌then◌else◌,
}
use idf_remote.Logs.{Console, LineDecoder, LogRecord, feed, finish_pending}

pub record CaptureOptions : Type 0 where
  pub timeout : Option ℕ
  pub pattern : Option (Bytes → Bool)  -- the field `wait`

pub data CaptureOutcome : Type 0 where
  matched : Bytes → CaptureOutcome
  duration_elapsed interrupted : CaptureOutcome

pub data CaptureError : Type 0 where
  zero_timeout timed_out stream_closed read_failed emit_failed : CaptureError

-- What `reader.read` returns; `retry` stands for the errors that the loop passes over.
pub data ReadResult : Type 0 where
  got : Bytes → ReadResult
  retry failed : ReadResult

pub record Round : Type 0 where
  pub is_up : Bool
  pub elapsed : ℕ
  pub read : ReadResult
  pub accepted : Bool
  pub accepted_last : Bool

-- A call of `emit`: the bytes and the records.
pub record Emitted : Type 0 where
  pub bytes : Bytes
  pub records : List LogRecord

-- How the capture ended; `waiting` when the rounds are used up.
pub data Ending : Type 0 where
  ended : CaptureOutcome → Ending
  stopped : CaptureError → Ending
  waiting : Ending

abbrev pub has_timed_out : Option ℕ → ℕ → Bool
has_timed_out none elapsed = false
has_timed_out (some timeout) elapsed = leb timeout elapsed

abbrev pub is_some : {A : Type 0} → Option A → Bool
is_some none = false
is_some (some a) = true

-- The first record whose text matches, or else the text that is pending.
unfoldable pub find_text : (Bytes → Bool) → List LogRecord → Option Bytes
find_text matches [] = none
find_text matches (r ∷ rs) = if matches r.text then some r.text else find_text matches rs

abbrev pub or_pending : (Bytes → Bool) → Bytes → Option Bytes → Option Bytes
or_pending matches text (some found) = some found
or_pending matches text none = if not (is_empty text) && matches text then some text else none

unfoldable pub find_match : Option (Bytes → Bool) → List LogRecord → Bytes → Option Bytes
find_match none records text = none
find_match (some matches) records text = or_pending matches text (find_text matches records)

module _ (con : Console) (options : CaptureOptions) where
  -- The last `emit`, of what is pending, and then the ending.
  unfoldable pub flush_then : Option LogRecord → Bool → Ending → List Emitted × Ending
  flush_then none accepted ending = ([], ending)
  flush_then (some last) accepted ending = (
    record { bytes = []; records = last ∷ [] } ∷ [],
    if accepted then ending else stopped emit_failed,
  )

  -- After a read: go on, or end with a match.
  unfoldable pub after_match :
      LineDecoder → Option Bytes → Bool → List Emitted × Ending → List Emitted × Ending
  after_match d none accepted rest = rest
  after_match d (some text) accepted rest =
      flush_then (finish_pending con d).1 accepted (ended (matched text))

  -- A read of no bytes is the end of the stream.
  unfoldable pub on_bytes :
      Bytes → LineDecoder × List LogRecord → Round → List Emitted × Ending → List Emitted × Ending
  on_bytes bytes fed r rest =
      let later =
        after_match fed.0 (find_match options.pattern fed.1 (con.clean_text fed.0.pending))
          r.accepted_last rest in
      if is_empty bytes
      then ([], stopped stream_closed)
      else if r.accepted
      then (record { bytes = bytes; records = fed.1 } ∷ later.0, later.1)
      else (record { bytes = bytes; records = fed.1 } ∷ [], stopped emit_failed)

  abbrev pub timeout_ending : Ending
  timeout_ending = if is_some options.pattern then stopped timed_out else ended duration_elapsed

  abbrev pub decoder_after : LineDecoder → ReadResult → LineDecoder
  decoder_after d (got bytes) = (feed con d bytes).0
  decoder_after d retry = d
  decoder_after d failed = d

  unfoldable pub on_read :
      LineDecoder → ReadResult → Round → List Emitted × Ending → List Emitted × Ending
  on_read d (got bytes) r rest = on_bytes bytes (feed con d bytes) r rest
  on_read d retry r rest = rest
  on_read d failed r rest = ([], stopped read_failed)

  -- The loop.
  unfoldable pub rounds : LineDecoder → List Round → List Emitted × Ending
  rounds d [] = ([], waiting)
  rounds d (r ∷ rs) =
      let rest = rounds (decoder_after d r.read) rs in
      if not r.is_up
      then flush_then (finish_pending con d).1 r.accepted_last (ended interrupted)
      else if has_timed_out options.timeout r.elapsed
      then flush_then (finish_pending con d).1 r.accepted_last timeout_ending
      else on_read d r.read r rest

  unfoldable pub capture : List Round → List Emitted × Ending
  capture rs =
      let looped = rounds (record { pending = []; seq = 0 }) rs in
      if has_timed_out options.timeout 0 then ([], stopped zero_timeout) else looped
