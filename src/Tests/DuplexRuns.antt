-- ===== src/Tests/DuplexRuns.antt =====
-- src/duplex.rs: two senders on one stream, and what is ended when the stream is given up.
use idf_remote.Base.{
  ◌<◌, ◌≤◌, ◌%◌, ◌==◌, if◌then◌else◌, ℕ, ◌≡◌, ◌≢◌, refl, arith, true, [], ◌∷◌, List, none, some, ok,
  err, replicate,
}
use idf_remote.Base.Text.{codes}
use idf_remote.Store.Completion.{input}
use idf_remote.Application.Json.{number}
use idf_remote.Application.Session.{chunks, chunks_within}
use idf_remote.Duplex.State.{
  Duplex, start_input, queue_input, input_frames, has_input, new, panicked,
}
use idf_remote.Duplex.Steps.{
  Texts, wrote, tick, tick_front, tick_frames, on_write, advance, take_turns, completion_of,
  completion_in, and_expire, expire, any_late, offered, offered_of, piece, feed,
}
use idf_remote.Duplex.Accounts.{Choice, count_done}
use idf_remote.Duplex.Once.{
  Call, for_application, for_input, for_tick, for_abort, idle, call, calls, count_keys, calls-abort,
}
use idf_remote.Duplex.Stream.{Written, opened, entered, ticked, IsWhole, written-IsWhole}
use idf_remote.Duplex.Panics.{feed-panicked}
use idf_remote.Duplex.Progress.{work, work_of}
use idf_remote.Duplex.Drain.{Turns, drain, joined, IsDrained, drain-IsDrained}
use idf_remote.Tests.ApplicationRuns.{lenient, ready}

abbrev pub plain_texts : Texts ℕ
plain_texts = record {
  of_error = λ why. codes "error";
  of_reply = λ value. codes "application error";
}

abbrev everything : Choice
everything = λ key lane. true

-- A negotiation, input behind it, one write, and the end of the stream.
abbrev busy_calls : List (Call ℕ)
busy_calls =
    for_application (codes "op_1") none 0 1000 7
    ∷ for_input (codes "op_2") (replicate 300 65) 0 1000 (number 300)
    ∷ for_tick (λ i. 1) 1 (wrote 10)
    ∷ []

calls-abort_example :
    count_done everything
      (call lenient plain_texts
        (calls lenient plain_texts (idle ℕ) busy_calls)
        (for_abort (codes "gone"))).ended
    ≡ count_keys everything (calls lenient plain_texts (idle ℕ) busy_calls).taken
calls-abort_example = calls-abort lenient plain_texts everything busy_calls (codes "gone")

-- Input of three hundred bytes: a chunk of 256 and one of 44.
abbrev typed : Duplex ℕ
typed = (start_input (new ℕ) (codes "op_1") (replicate 300 65) 0 1000 (number 300)).0

abbrev typed_written : Written lenient plain_texts typed [] (replicate 300 65 ∷ [])
typed_written = entered (codes "op_1") (replicate 300 65) 0 1000 (number 300) opened

abbrev stepped : Duplex ℕ
stepped = (tick typed (λ i. 1) 1 (wrote 10)).0

-- Ten bytes of the first chunk are on the stream.
ten_written : Written lenient plain_texts stepped (replicate 10 65) (replicate 300 65 ∷ [])
unfolding start_input queue_input input_frames has_input chunks chunks_within tick tick_front
    tick_frames on_write advance take_turns and_expire expire any_late offered offered_of piece
ten_written = ticked (λ i. 1) 1 10 [] (omega arith) refl typed_written

written-IsWhole_example :
    IsWhole lenient plain_texts (replicate 300 65 ∷ []) stepped.tx (replicate 10 65)
written-IsWhole_example =
    written-IsWhole lenient plain_texts stepped (replicate 10 65) (replicate 300 65 ∷ [])
      ten_written

feed-panicked_example :
    (feed lenient plain_texts (record (new ℕ) { session = some ready }) (codes "boot") 1 2).outcome
    ≢ err panicked
feed-panicked_example =
    feed-panicked lenient plain_texts (record (new ℕ) { session = some ready }) (codes "boot") 1 2

-- Two frames of input on a stream that takes all that it is given.
abbrev pub small : Duplex ℕ
small = record (new ℕ) {
  tx =
      record {
        key = codes "op_1";
        lane = input;
        deadline = 100;
        frames = (1 ∷ 2 ∷ 3 ∷ []) ∷ (4 ∷ []) ∷ [];
        offset = 0;
        result = number 4;
      }
      ∷ [];
}

-- The stream takes all that it is given at odd turns, and one byte at the others.
abbrev uneven : Turns
uneven = record { clock = λ i j. 10; ticked = λ i. 10; give = λ i k. if i % 2 == 1 then k else 1 }

uneven_accepts : (i k : ℕ) → 0 < k → (0 < uneven.give i k) × (uneven.give i k ≤ k)
uneven_accepts i k h = ground arith

drain-IsDrained_example : IsDrained small (drain 5 uneven small) everything
unfolding work work_of
drain-IsDrained_example =
    drain-IsDrained uneven 10 (λ i j. omega arith) uneven_accepts everything 5 small
      (((omega arith, (omega arith, tt)), omega arith), tt) (omega arith)

one_byte_at_a_time :
    (drain 5 (record uneven { give = λ i k. 1 }) small).1
    ≡ ok (record { key = codes "op_1"; lane = input; result = ok (number 4) } ∷ [])
unfolding drain joined tick tick_front tick_frames on_write advance take_turns completion_of
    completion_in and_expire expire any_late offered offered_of piece
one_byte_at_a_time = refl
