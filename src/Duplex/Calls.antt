-- ===== src/Duplex/Calls.antt =====
-- What each operation of src/duplex.rs takes on and what it ends.
use idf_remote.Base.{
  ℕ, ◌+◌, ◌≡◌, refl, arith, List, [], ◌∷◌, Option, none, some, Bytes, Result, err, ok, inl, inr,
  Bool-cases,
}
use idf_remote.Mux.Frame
use idf_remote.Mux.Frame.{Frame}
use idf_remote.Store.Reconnect.{Output}
use idf_remote.Store.Completion.{Lane, application, input}
use idf_remote.Application.Json.{Value, Serde, Command, AppError}
use idf_remote.Application.Session.{
  Session, Reply, encode_frame, prepare_request, process, begin_connect,
}
use idf_remote.Duplex.State.{
  Pending, Transfer, Duplex, DuplexError, queue_application, start_request, start_connect,
  start_application, queue_wire, send_request, start_free, queue_input, input_frames, start_input,
  has_input,
}
use idf_remote.Duplex.Steps.{
  Texts, Ended, expire, on_reply, fed, feed_reply, feed_outcome, feed_to, feed, expected_at,
}
use idf_remote.Duplex.Accounts.{
  bit, Choice, count_tx, count_tx-append, count_open, count_done, count_done-append, count_outcome,
  expire-count,
}

module _ {N : Type 0} (p : Choice) (serde : Serde N) (texts : Texts N) where
  fed-count :
      (d : Duplex N) (later : ℕ) (emitted : List (Output (Value N))) (done : Ended N)
      → count_open p (fed serde texts d later emitted done).duplex
          + count_outcome p (fed serde texts d later emitted done).outcome
        ≡ count_open p d + count_done p done
  unfolding fed
  fed-count d later emitted done =
      omega (arith, expire-count p d later, count_done-append p done (expire d later).1)

  on_reply-count :
      (d : Duplex N) (session : Session N) (w : Pending) (reply : Reply N)
      → d.pending ≡ some w
      → count_open p (on_reply serde texts d session w reply).0
          + count_done p ((on_reply serde texts d session w reply).1 ∷ [])
        ≡ count_open p d
  unfolding on_reply count_open count_done
  on_reply-count d session w reply e = rw e (omega arith)

  feed_reply-count :
      (d : Duplex N) (session : Session N) (later : ℕ) (emitted : List (Output (Value N)))
      (reply : Reply N) (o : Option Pending)
      → d.pending ≡ o
      → count_open p (feed_reply serde texts d session later emitted reply o).duplex
          + count_outcome p (feed_reply serde texts d session later emitted reply o).outcome
        ≡ count_open p d
  unfolding feed_reply
  feed_reply-count d session later emitted reply none e = omega arith
  feed_reply-count d session later emitted reply (some w) e =
      let replied = on_reply serde texts d session w reply in
      omega (
        arith,
        fed-count replied.0 later emitted (replied.1 ∷ []),
        on_reply-count d session w reply e,
      )

  feed_outcome-count :
      (d : Duplex N) (session : Session N) (later : ℕ) (emitted : List (Output (Value N)))
      (outcome : Result AppError (Option (Reply N)))
      → count_open p (feed_outcome serde texts d session later emitted outcome).duplex
          + count_outcome p (feed_outcome serde texts d session later emitted outcome).outcome
        ≡ count_open p d
  unfolding feed_outcome count_done
  feed_outcome-count d session later emitted (err why) = omega arith
  feed_outcome-count d session later emitted (ok none) = omega (arith, fed-count d later emitted [])
  feed_outcome-count d session later emitted (ok (some reply)) =
      feed_reply-count d session later emitted reply d.pending refl

  feed_to-count :
      (d : Duplex N) (o : Option (Session N)) (bytes : Bytes) (time later : ℕ)
      → count_open p (feed_to serde texts d o bytes time later).duplex
          + count_outcome p (feed_to serde texts d o bytes time later).outcome
        ≡ count_open p d
  unfolding feed_to count_open count_done
  feed_to-count d none bytes time later =
      omega (arith, fed-count d later (Output.console bytes ∷ []) [])
  feed_to-count d (some session) bytes time later =
      let done = process serde session bytes (expected_at time d.pending) in
      omega (
        arith,
        feed_outcome-count (record d { session = some done.session }) done.session later
            done.emitted done.outcome,
      )

  pub feed-count :
      (d : Duplex N) (bytes : Bytes) (time later : ℕ)
      → count_open p (feed serde texts d bytes time later).duplex
          + count_outcome p (feed serde texts d bytes time later).outcome
        ≡ count_open p d
  unfolding feed
  feed-count d bytes time later = feed_to-count d d.session bytes time later

-- One key when the operation has taken it on, none when it has refused it.
abbrev pub count_taken : Choice → Bytes → Lane → Result DuplexError (Unit {0}) → ℕ
count_taken p key lane (err why) = 0
count_taken p key lane (ok tt) = bit (p key lane)

module _ {N : Type 0} (p : Choice) (serde : Serde N) where
  queue_wire-count :
      (d : Duplex N) (key : Bytes) (deadline kind id : ℕ) (wire : Result AppError Bytes)
      → d.pending ≡ none
      → count_open p (queue_wire d key deadline kind id wire).0
        ≡ count_open p d + count_taken p key application (queue_wire d key deadline kind id wire).1
  unfolding queue_wire count_open count_tx
  queue_wire-count d key deadline kind id (err why) e = omega arith
  queue_wire-count d key deadline kind id (ok wire) e =
      rw e (omega (arith, count_tx-append p d.tx (_ ∷ [])))

  queue_application-count :
      (d : Duplex N) (key : Bytes) (deadline kind : ℕ) (f : Frame)
      → d.pending ≡ none
      → count_open p (queue_application d key deadline kind f).0
        ≡ count_open p d + count_taken p key application (queue_application d key deadline kind f).1
  unfolding queue_application
  queue_application-count d key deadline kind f e =
      queue_wire-count d key deadline kind f.request_id (encode_frame f) e

  send_request-count :
      (d : Duplex N) (key : Bytes) (deadline : ℕ) (prepared : Result AppError (Session N × Frame))
      → d.pending ≡ none
      → count_open p (send_request d key deadline prepared).0
        ≡ count_open p d + count_taken p key application (send_request d key deadline prepared).1
  unfolding send_request count_open
  send_request-count d key deadline (err why) e = omega arith
  send_request-count d key deadline (ok (session, f)) e =
      queue_application-count (record d { session = some session }) key deadline Frame.response f e

  start_connect-count :
      (d : Duplex N) (key : Bytes) (deadline fresh : ℕ) (tx : List (Transfer N))
      → d.pending ≡ none
      → count_open p (start_connect d key deadline fresh tx).0
        ≡ count_open p d + count_taken p key application (start_connect d key deadline fresh tx).1
  unfolding start_connect count_open
  start_connect-count d key deadline fresh [] e =
      let (session, f) = begin_connect N fresh in
      queue_application-count (record d { session = some session }) key deadline Frame.hello_ack f e
  start_connect-count d key deadline fresh (t ∷ ts) e = omega arith

  start_request-count :
      (d : Duplex N) (key : Bytes) (deadline : ℕ) (o : Option (Session N)) (c : Command N)
      → d.pending ≡ none
      → count_open p (start_request serde d key deadline o c).0
        ≡ count_open p d + count_taken p key application (start_request serde d key deadline o c).1
  unfolding start_request
  start_request-count d key deadline none c e = omega arith
  start_request-count d key deadline (some session) c e =
      send_request-count d key deadline (prepare_request serde session c) e

  start_free-count :
      (d : Duplex N) (key : Bytes) (command : Option (Command N)) (deadline fresh : ℕ)
      (o : Option Pending)
      → d.pending ≡ o
      → count_open p (start_free serde d key command deadline fresh o).0
        ≡ count_open p d
          + count_taken p key application (start_free serde d key command deadline fresh o).1
  unfolding start_free
  start_free-count d key command deadline fresh (some w) e = omega arith
  start_free-count d key none deadline fresh none e =
      start_connect-count d key deadline fresh d.tx e
  start_free-count d key (some c) deadline fresh none e =
      start_request-count d key deadline d.session c e

  pub start_application-count :
      (d : Duplex N) (key : Bytes) (command : Option (Command N)) (time timeout fresh : ℕ)
      → count_open p (start_application serde d key command time timeout fresh).0
        ≡ count_open p d
          + count_taken p key application
              (start_application serde d key command time timeout fresh).1
  unfolding start_application
  start_application-count d key command time timeout fresh =
      start_free-count d key command (time + timeout) fresh d.pending refl

module _ {N : Type 0} (p : Choice) where
  queue_input-count :
      (d : Duplex N) (key : Bytes) (deadline : ℕ) (result : Value N)
      (frames : Result AppError (List Bytes))
      → count_open p (queue_input d key deadline result frames).0
        ≡ count_open p d + count_taken p key input (queue_input d key deadline result frames).1
  unfolding queue_input count_open count_tx
  queue_input-count d key deadline result (err why) = omega arith
  queue_input-count d key deadline result (ok frames) =
      omega (arith, count_tx-append p d.tx (_ ∷ []))

  pub start_input-count :
      (d : Duplex N) (key bytes : Bytes) (time timeout : ℕ) (result : Value N)
      → count_open p (start_input d key bytes time timeout result).0
        ≡ count_open p d + count_taken p key input (start_input d key bytes time timeout result).1
  unfolding start_input
  start_input-count d key bytes time timeout result = elim (Bool-cases (has_input d.tx)) [
    | inl busy ↦ rw busy (omega arith)
    | inr free ↦
        rw free (queue_input-count d key (time + timeout) result (input_frames d.session bytes))
  ]
