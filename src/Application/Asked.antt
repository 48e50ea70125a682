-- ===== src/Application/Asked.antt =====
-- The answers of the requests of src/application.rs that block: `wait` and `request`.
use idf_remote.Base.{
  ℕ, ◌≡◌, ◌⊎◌, inl, inr, refl, sym, ap, ◌∙◌, arith, true, false, List, [], ◌∷◌, ◌++◌, append_assoc,
  Option, none, some, Bytes, Result, err, ok,
}
use idf_remote.Mux.Frame
use idf_remote.Mux.Frame.{Frame}
use idf_remote.Mux.Decoder.{Decoder, Decoded, frame, feed}
use idf_remote.Store.Reconnect.{Output}
use idf_remote.Application.Json.{Value, Serde, Command, AppError}
use idf_remote.Application.Session.{
  Session, Reply, Round, Processed, prepare_request, finish_process, process,
}
use idf_remote.Application.Send.{prepare_request-ok}
use idf_remote.Application.Answers.{IsAnsweredBy, process-IsAnsweredBy}
use idf_remote.Duplex.Steps.{Write}
use idf_remote.Application.Blocking.{
  Arrival, got, closed, quiet, broken, Turn, Returned, take_reply, wait, ask, request_prepared,
  request, write_frame,
}

-- All that the decoder takes out of what arrives.
abbrev pub reported : Decoder → List (Turn Arrival) → List Decoded
reported d [] = []
reported d ((late, got bytes) ∷ turns) = (feed d bytes).1 ++ reported (feed d bytes).0 turns
reported d ((late, closed) ∷ turns) = reported d turns
reported d ((late, quiet) ∷ turns) = reported d turns
reported d ((late, broken) ∷ turns) = reported d turns

module _ {N : Type 0} (serde : Serde N) where
  take_reply-ok :
      (p : Processed serde) (o : Result AppError (Option (Reply N))) (rest : Returned serde)
      (a : Reply N)
      → (take_reply serde p o rest).outcome ≡ ok a
      → (o ≡ ok (some a)) ⊎ ((o ≡ ok none) × (rest.outcome ≡ ok a))
  unfolding take_reply
  take_reply-ok p (err why) rest a e = cc
  take_reply-ok p (ok (some reply)) rest a e = inl (ap (λ (r : Reply N). ok (some r)) same)
    where
      same : reply ≡ a
      same = cc
  take_reply-ok p (ok none) rest a e = inr (refl, e)

  finish_process-session :
      (s : Session N) (done : Result (List (Output (Value N))) (Round N)) (o : Option (Reply N))
      → (finish_process serde s done).outcome ≡ ok o
      → (finish_process serde s done).session ≡ s
  unfolding finish_process
  finish_process-session s (err emitted) o e = cc
  finish_process-session s (ok r) o e = ground arith

  process-session :
      (s : Session N) (bytes : Bytes) (expected : Option (ℕ × ℕ)) (o : Option (Reply N))
      → (process serde s bytes expected).outcome ≡ ok o
      → (process serde s bytes expected).session ≡ record s { decoder = (feed s.decoder bytes).0 }
  unfolding process
  process-session s bytes expected o e = finish_process-session _ _ o e

  -- An answer is one for each session with the same number.
  module _ (kind id : ℕ) (a : Reply N) where
    later_answer :
        (s s' : Session N) (first rest : List Decoded)
        → s'.nonce ≡ s.nonce
        → IsAnsweredBy serde s' kind id a rest
        → IsAnsweredBy serde s kind id a (first ++ rest)
    later_answer s s' first rest e (before, after, f, split, answer) = (
      first ++ before,
      after,
      f,
      ap (λ (l : List Decoded). first ++ l) split
          ∙ sym (append_assoc first before (frame f ∷ after)),
      record {
        of_session = answer.of_session ∙ e;
        of_request = answer.of_request;
        of_kind = answer.of_kind;
        reads = answer.reads;
      },
    )

    early_answer :
        (s : Session N) (first rest : List Decoded)
        → IsAnsweredBy serde s kind id a first
        → IsAnsweredBy serde s kind id a (first ++ rest)
    early_answer s first rest (before, after, f, split, answer) = (
      before,
      after ++ rest,
      f,
      ap (λ (l : List Decoded). l ++ rest) split ∙ append_assoc before (frame f ∷ after) rest,
      answer,
    )

    pub wait-IsAnsweredBy :
        (s : Session N) (turns : List (Turn Arrival))
        → (wait serde s kind id turns).outcome ≡ ok a
        → IsAnsweredBy serde s kind id a (reported s.decoder turns)
    unfolding wait
    wait-IsAnsweredBy s [] e = cc
    wait-IsAnsweredBy s ((true, arrival) ∷ turns) e = absurd cc
    wait-IsAnsweredBy s ((false, quiet) ∷ turns) e = wait-IsAnsweredBy s turns e
    wait-IsAnsweredBy s ((false, closed) ∷ turns) e = absurd cc
    wait-IsAnsweredBy s ((false, broken) ∷ turns) e = absurd cc
    wait-IsAnsweredBy s ((false, got bytes) ∷ turns) e =
        let p = process serde s bytes (some (kind, id)) in
        elim (take_reply-ok p p.outcome (wait serde p.session kind id turns) a e) [
          | inl now ↦
              early_answer s (feed s.decoder bytes).1 _
                (process-IsAnsweredBy serde s kind id bytes a now)
          | inr (nothing, more) ↦
              let kept = process-session s bytes (some (kind, id)) none nothing in
              let found : IsAnsweredBy serde p.session kind id a
                  (reported p.session.decoder turns) =
                wait-IsAnsweredBy p.session turns more in
              later_answer s _ (feed s.decoder bytes).1 _ refl (rw kept at found)
        ]

  ask-ok :
      (s : Session N) (f : Frame) (written : Result AppError (Unit {0}))
      (reads : List (Turn Arrival)) (a : Reply N)
      → (ask serde s f written reads).outcome ≡ ok a
      → (wait serde s Frame.response f.request_id reads).outcome ≡ ok a
  unfolding ask
  ask-ok s f (err why) reads a e = absurd cc
  ask-ok s f (ok tt) reads a e = e

  request_prepared-IsAnsweredBy :
      (s : Session N) (c : Command N) (prepared : Result AppError (Session N × Frame))
      (writes : List (Turn Write)) (reads : List (Turn Arrival)) (a : Reply N)
      → prepare_request serde s c ≡ prepared
      → (request_prepared serde s prepared writes reads).outcome ≡ ok a
      → (s.valid ≡ true)
        × IsAnsweredBy serde s Frame.response s.next_request a (reported s.decoder reads)
  unfolding request_prepared
  request_prepared-IsAnsweredBy s c (err why) writes reads a p e = absurd cc
  request_prepared-IsAnsweredBy s c (ok (s', f)) writes reads a p e =
      let (valid, fits, moved, (bytes, short, built)) = prepare_request-ok serde s s' c f p in
      let waited = ask-ok s' f (write_frame f writes).result reads a e in
      let answered = wait-IsAnsweredBy Frame.response f.request_id a s' reads waited in
      let (before, after, x, split, answer) = answered in
      (
        valid,
        (
          before,
          after,
          x,
          sym (ap (λ (t : Session N). reported t.decoder reads) moved) ∙ split,
          record {
            of_session = answer.of_session ∙ ap (λ (t : Session N). t.nonce) moved;
            of_request = answer.of_request ∙ ap (λ (g : Frame). g.request_id) built;
            of_kind = answer.of_kind;
            reads = answer.reads;
          },
        ),
      )

  -- A request that returns a value or an error of the application was made in a session that was valid, and
  -- of all that arrived until then the decoder has taken out a frame of this session, with the number of
  -- this request, whose text is that value: nothing that another request or an older session was
  -- answered is ever returned.
  pub request-IsAnsweredBy :
      (s : Session N) (c : Command N) (writes : List (Turn Write)) (reads : List (Turn Arrival))
      (a : Reply N)
      → (request serde s c writes reads).outcome ≡ ok a
      → (s.valid ≡ true)
        × IsAnsweredBy serde s Frame.response s.next_request a (reported s.decoder reads)
  unfolding request
  request-IsAnsweredBy s c writes reads a e =
      request_prepared-IsAnsweredBy s c (prepare_request serde s c) writes reads a refl e
