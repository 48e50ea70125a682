-- ===== src/Tests/LineRuns.antt =====
-- src/logs.rs on two short lines, with expressions that match nothing.
use idf_remote.Base.{◌≡◌, refl, arith, true, false, List, [], ◌∷◌, none, some, Bytes}
use idf_remote.Logs.{Console, LineDecoder, finish, feed_byte, feed, finish_pending}
use idf_remote.Logs.Lines.{Piece, IsFed, IsReady, records, line, feed-IsFed}
use idf_remote.Logs.Capture.{
  CaptureOptions, interrupted, Round, got, retry, ended, capture, rounds, on_read, on_bytes,
  after_match, find_match, flush_then,
}
use idf_remote.Logs.Whole.{bytes_of, records_of, records_in, capture_complete}

abbrev plain : Console
plain = record { clean_text = λ bytes. bytes; captures = λ text. none; clock = λ seq. seq }

abbrev start : LineDecoder
start = record { pending = []; seq = 0 }

abbrev output : Bytes
output = 97 ∷ 98 ∷ 10 ∷ 99 ∷ []

output_cut : (feed plain start output).1 ≡ records plain 0 (line (97 ∷ 98 ∷ []) ∷ [])
unfolding feed feed_byte finish
output_cut = refl

start-IsReady : IsReady start
start-IsReady = record { room = omega arith; one_line = tt }

feed-IsFed_example : (ps : List Piece) × IsFed plain start output (feed plain start output) ps
feed-IsFed_example = feed-IsFed plain start output start-IsReady

-- Two reads, and an interrupt.
abbrev two_reads : List Round
two_reads =
    record { is_up = true; elapsed = 1; read = got output; accepted = true; accepted_last = true }
    ∷ record { is_up = true; elapsed = 2; read = retry; accepted = true; accepted_last = true }
    ∷ record { is_up = true; elapsed = 3; read = got output; accepted = true; accepted_last = true }
    ∷ record { is_up = false; elapsed = 4; read = retry; accepted = true; accepted_last = true }
    ∷ []

abbrev no_options : CaptureOptions
no_options = record { timeout = some 1000; pattern = none }

two_reads_end : (capture plain no_options two_reads).1 ≡ ended interrupted
unfolding capture rounds on_read on_bytes after_match find_match flush_then feed feed_byte finish
    finish_pending
two_reads_end = refl

capture_complete_example :
    records_of (capture plain no_options two_reads).0
    ≡ records_in plain no_options start (bytes_of (capture plain no_options two_reads).0)
capture_complete_example = capture_complete plain no_options two_reads interrupted two_reads_end
