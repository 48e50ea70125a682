-- ===== src/Logs/Whole.antt =====
-- `capture` of src/logs.rs reports the records of the whole output.
use idf_remote.Base.{
  ◌≡◌, sym, Bool, true, false, not, inl, inr, List, [], ◌∷◌, ◌++◌, append_assoc, Option, some, none,
  Bytes, is_empty, Option-cases, if◌then◌else◌,
}
use idf_remote.Logs.{Console, LineDecoder, LogRecord, feed, finish_pending}
use idf_remote.Logs.Lines.{feed_in_two}
use idf_remote.Logs.Capture.{
  CaptureOptions, CaptureOutcome, ReadResult, got, retry, failed, Round, Emitted, Ending, ended,
  has_timed_out, find_match, flush_then, after_match, on_bytes, on_read, decoder_after, rounds,
  capture,
}

abbrev pub bytes_of : List Emitted → Bytes
bytes_of [] = []
bytes_of (e ∷ es) = e.bytes ++ bytes_of es

abbrev pub records_of : List Emitted → List LogRecord
records_of [] = []
records_of (e ∷ es) = e.records ++ records_of es

abbrev pub last_of : Option LogRecord → List LogRecord
last_of none = []
last_of (some r) = r ∷ []

module _ (con : Console) (options : CaptureOptions) where
  -- The records of some output from a decoder on, the unfinished line with them.
  abbrev pub records_in : LineDecoder → Bytes → List LogRecord
  records_in d bytes = (feed con d bytes).1 ++ last_of (finish_pending con (feed con d bytes).0).1

  abbrev IsComplete : LineDecoder → List Emitted × Ending → Type 0
  IsComplete d p = records_of p.0 ≡ records_in d (bytes_of p.0)

  flush-IsComplete :
      (d : LineDecoder) (accepted : Bool) (ending : Ending)
      → IsComplete d (flush_then con options (finish_pending con d).1 accepted ending)
  unfolding flush_then feed
  flush-IsComplete d accepted ending = elim (Option-cases (finish_pending con d).1) [
    | inl e ↦ rw e (rw e)
    | inr (last, e) ↦ rw e (rw e)
  ]

  emitted-IsComplete :
      (d : LineDecoder) (bytes : Bytes) (p : List Emitted × Ending)
      → IsComplete (feed con d bytes).0 p
      → IsComplete d (record { bytes = bytes; records = (feed con d bytes).1 } ∷ p.0, p.1)
  emitted-IsComplete d bytes p h =
      rw (feed_in_two con d bytes (bytes_of p.0), h) (sym (append_assoc (feed con d bytes).1 _ _))

  -- What is claimed of a capture that ends without an error.
  abbrev IsGood : LineDecoder → List Emitted × Ending → Type 0
  IsGood d p = (o : CaptureOutcome) → p.1 ≡ ended o → IsComplete d p

  either-IsGood :
      (d : LineDecoder) (b : Bool) (x y : List Emitted × Ending)
      → IsGood d x
      → IsGood d y
      → IsGood d (if b then x else y)
  either-IsGood d true x y h k = h
  either-IsGood d false x y h k = k

  after_match-IsGood :
      (d : LineDecoder) (text : Option Bytes) (accepted : Bool) (rest : List Emitted × Ending)
      → IsGood d rest
      → IsGood d (after_match con options d text accepted rest)
  unfolding after_match
  after_match-IsGood d none accepted rest h = h
  after_match-IsGood d (some text) accepted rest h = λ o e. flush-IsComplete d accepted _

  on_bytes-IsGood :
      (d : LineDecoder) (bytes : Bytes) (r : Round) (rest : List Emitted × Ending)
      → IsGood (feed con d bytes).0 rest
      → IsGood d (on_bytes con options bytes (feed con d bytes) r rest)
  unfolding on_bytes
  on_bytes-IsGood d bytes r rest h =
      let fed = feed con d bytes in
      let found = find_match options.pattern fed.1 (con.clean_text fed.0.pending) in
      let later = after_match con options fed.0 found r.accepted_last rest in
      either-IsGood d (is_empty bytes) _ _ (λ o e. absurd (cc))
        (either-IsGood d r.accepted _ _
          (λ o e.
            emitted-IsComplete d bytes later
              (after_match-IsGood (feed con d bytes).0 found r.accepted_last rest h o e))
          (λ o e. absurd (cc)))

  on_read-IsGood :
      (d : LineDecoder) (read : ReadResult) (r : Round) (rest : List Emitted × Ending)
      → IsGood (decoder_after con options d read) rest
      → IsGood d (on_read con options d read r rest)
  unfolding on_read
  on_read-IsGood d (got bytes) r rest h = on_bytes-IsGood d bytes r rest h
  on_read-IsGood d retry r rest h = h
  on_read-IsGood d failed r rest h = λ o e. absurd (cc)

  rounds-IsGood : (d : LineDecoder) (rs : List Round) → IsGood d (rounds con options d rs)
  unfolding rounds
  rounds-IsGood d [] = λ o e. absurd (cc)
  rounds-IsGood d (r ∷ rs) =
      either-IsGood d (not r.is_up) _ _ (λ o e. flush-IsComplete d r.accepted_last _)
        (either-IsGood d (has_timed_out options.timeout r.elapsed) _ _
          (λ o e. flush-IsComplete d r.accepted_last _)
          (on_read-IsGood d r.read r _ (rounds-IsGood (decoder_after con options d r.read) rs)))

  -- However the output of the device is split over the reads, and whether the capture ends by a match,
  -- by its duration or by an interrupt: the records that it has reported are those of all the bytes
  -- that it has reported, decoded at once, with the unfinished line as the last one.
  pub capture_complete :
      (rs : List Round) (o : CaptureOutcome)
      → (capture con options rs).1 ≡ ended o
      → records_of (capture con options rs).0
        ≡ records_in (record { pending = []; seq = 0 }) (bytes_of (capture con options rs).0)
  unfolding capture
  capture_complete rs =
      either-IsGood (record { pending = []; seq = 0 }) (has_timed_out options.timeout 0) _ _
        (λ o e. absurd (cc)) (rounds-IsGood (record { pending = []; seq = 0 }) rs)
