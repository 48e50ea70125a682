-- ===== src/Duplex/Panics.antt =====
-- The `unwrap` in `Duplex::feed` of src/duplex.rs.
use idf_remote.Base.{
  ℕ, ◌≡◌, ◌≢◌, refl, ◌∙◌, arith, List, [], ◌∷◌, Option, none, some, Bytes, Result, err, ok,
  >>=-eq-ok,
}
use idf_remote.Mux.Decoder.{Decoded, frame, raw, corrupt}
use idf_remote.Mux.Decoder
use idf_remote.Store.Reconnect.{Output}
use idf_remote.Application.Json.{Value, Serde, AppError}
use idf_remote.Application.Session.{
  Session, Reply, Round, is_expected, on_decoded, run_decoded, process,
}
use idf_remote.Application.Answers.{on_other-reply, finish_process-reply}
use idf_remote.Duplex.State.{Pending, Duplex, panicked}
use idf_remote.Duplex.Steps.{Texts, expected_at, fed, feed_reply, feed_outcome, feed_to, feed}

module _ {N : Type 0} (serde : Serde N) where
  -- A turn of the loop with nothing expected leaves the reply as it is.
  on_decoded-reply :
      (s : Session N) (r r' : Round N) (d : Decoded)
      → on_decoded serde s none r d ≡ ok r'
      → r'.reply ≡ r.reply
  unfolding on_decoded is_expected
  on_decoded-reply s r r' (raw bytes) e = cc
  on_decoded-reply s r r' corrupt e = cc
  on_decoded-reply s r r' (frame f) e = ground (arith, on_other-reply serde s 0 0 r f)

  run_decoded-reply :
      (s : Session N) (r r' : Round N) (ds : List Decoded)
      → run_decoded serde s none r ds ≡ ok r'
      → r'.reply ≡ r.reply
  unfolding run_decoded
  run_decoded-reply s r r' [] e = cc
  run_decoded-reply s r r' (d ∷ ds) e =
      let (next, one, rest) = >>=-eq-ok (on_decoded serde s none r d) _ e in
      run_decoded-reply s next r' ds rest ∙ on_decoded-reply s r next d one

  process-unexpected :
      (s : Session N) (bytes : Bytes) (a : Reply N)
      → (process serde s bytes none).outcome ≢ ok (some a)
  unfolding process
  process-unexpected s bytes a e =
      let (r, ran, replied) = finish_process-reply serde s 0 0 _ _ a e in
      let kept = run_decoded-reply s _ r (Decoder.feed s.decoder bytes).1 ran in cc

module _ {N : Type 0} (serde : Serde N) (texts : Texts N) where
  feed_reply-panicked :
      (d : Duplex N) (session : Session N) (later : ℕ) (emitted : List (Output (Value N)))
      (reply : Reply N) (o : Option Pending)
      → o ≢ none
      → (feed_reply serde texts d session later emitted reply o).outcome ≢ err panicked
  unfolding feed_reply fed
  feed_reply-panicked d session later emitted reply none h = absurd (h refl)
  feed_reply-panicked d session later emitted reply (some w) h = λ e. cc

  feed_outcome-panicked :
      (d : Duplex N) (session : Session N) (later : ℕ) (emitted : List (Output (Value N)))
      (outcome : Result AppError (Option (Reply N)))
      → (d.pending ≡ none → (a : Reply N) → outcome ≢ ok (some a))
      → (feed_outcome serde texts d session later emitted outcome).outcome ≢ err panicked
  unfolding feed_outcome fed
  feed_outcome-panicked d session later emitted (err why) h = λ e. cc
  feed_outcome-panicked d session later emitted (ok none) h = λ e. cc
  feed_outcome-panicked d session later emitted (ok (some reply)) h =
      feed_reply-panicked d session later emitted reply d.pending (λ e. h e reply refl)

  expected_at-none : (time : ℕ) (o : Option Pending) → o ≡ none → expected_at time o ≡ none
  unfolding expected_at
  expected_at-none time none e = refl
  expected_at-none time (some w) e = cc

  feed_to-panicked :
      (d : Duplex N) (o : Option (Session N)) (bytes : Bytes) (time later : ℕ)
      → (feed_to serde texts d o bytes time later).outcome ≢ err panicked
  unfolding feed_to fed
  feed_to-panicked d none bytes time later = λ e. cc
  feed_to-panicked d (some session) bytes time later =
      let done = process serde session bytes (expected_at time d.pending) in
      feed_outcome-panicked (record d { session = some done.session }) done.session later
        done.emitted done.outcome
        (λ e a.
          let quiet = expected_at-none time d.pending e in
          rw quiet (process-unexpected serde session bytes a))

  -- `feed` never takes a request out of an empty place: whatever the device sends, and whenever the clock
  -- is read, a reply is only found while a request is pending.
  pub feed-panicked :
      (d : Duplex N) (bytes : Bytes) (time later : ℕ)
      → (feed serde texts d bytes time later).outcome ≢ err panicked
  unfolding feed
  feed-panicked d bytes time later = feed_to-panicked d d.session bytes time later
