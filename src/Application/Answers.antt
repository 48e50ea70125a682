-- ===== src/Application/Answers.antt =====
-- What `Session::process` of src/application.rs takes for an answer.
use idf_remote.Base.{
  ℕ, ◌≡◌, ◌≢◌, ◌⊎◌, inl, inr, refl, sym, ◌∙◌, arith, true, false, List, [], ◌∷◌, ◌++◌, Option, none,
  some, Bytes, Result, ok, err, ◌==◌, context, >>=-eq-ok, context-eq-ok, Bool-cases,
}
use idf_remote.Mux.Frame
use idf_remote.Mux.Frame.{Frame}
use idf_remote.Mux.Decoder.{Decoded, frame, raw, corrupt, feed}
use idf_remote.Mux.RoundTrip.{IsSendable}
use idf_remote.Mux.Stream.{between_frames, pending}
use idf_remote.Store.Reconnect.{Output}
use idf_remote.Application.Json.{Value, Serde}
use idf_remote.Application.Session.{
  Session, Reply, Round, is_expected, reply_of, on_reply, on_other, on_decoded, run_decoded,
  finish_process, process, encode_frame,
}
use idf_remote.Application.Send.{IsSession, encode_frame-feed}

module _ {N : Type 0} (serde : Serde N) (s : Session N) (kind id : ℕ) where
  -- A frame of the session, with the number that is waited for, of the kind that is waited for or an
  -- error, and with a text that reads as the value of the reply.
  pub record IsAnswer (r : Reply N) (f : Frame) : Type 0 where
    pub of_session : f.session ≡ s.nonce
    pub of_request : f.request_id ≡ id
    pub of_kind : (f.kind ≡ kind) ⊎ (f.kind ≡ Frame.error)
    pub reads :
        (value : Value N) × (serde.from_slice f.payload ≡ some value)
        × (r ≡ reply_of serde f.kind value)

  -- The decoder has reported an answer.
  abbrev pub IsAnsweredBy : Reply N → List Decoded → Type 0
  IsAnsweredBy r ds =
      (before after : List Decoded) × (f : Frame) × (ds ≡ before ++ frame f ∷ after) × IsAnswer r f

  abbrev expected : Option (ℕ × ℕ)
  expected = some (kind, id)

  is_expected-kind :
      (f : Frame)
      → is_expected expected f ≡ true
      → (f.request_id ≡ id) × ((f.kind ≡ kind) ⊎ (f.kind ≡ Frame.error))
  unfolding is_expected
  is_expected-kind f h = ground arith

  -- One turn of the loop keeps the reply, or takes it from an answer.
  data IsTurn (r r' : Round N) (d : Decoded) : Type 0 where
    kept : r'.reply ≡ r.reply → IsTurn r r' d
    answered :
        (f : Frame) (a : Reply N) → d ≡ frame f → r'.reply ≡ some a → IsAnswer a f → IsTurn r r' d

  on_reply-IsTurn :
      (r r' : Round N) (f : Frame)
      → f.session ≡ s.nonce
      → is_expected expected f ≡ true
      → on_reply serde r f ≡ ok r'
      → IsTurn r r' (frame f)
  unfolding on_reply
  on_reply-IsTurn r r' f of_session h e =
      let (value, read, same) = >>=-eq-ok (context (serde.from_slice f.payload) r.emitted) _ e in
      let (of_request, of_kind) = is_expected-kind f h in
      answered f (reply_of serde f.kind value) refl (cc) (record {
        of_session = of_session;
        of_request = of_request;
        of_kind = of_kind;
        reads = (value, context-eq-ok (serde.from_slice f.payload) r.emitted value read, refl);
      })

  pub on_other-reply : (r : Round N) (f : Frame) → (on_other serde r f).reply ≡ r.reply
  unfolding on_other
  on_other-reply r f = ground arith

  on_decoded-IsTurn :
      (r r' : Round N) (d : Decoded) → on_decoded serde s expected r d ≡ ok r' → IsTurn r r' d
  unfolding on_decoded
  on_decoded-IsTurn r r' (raw bytes) e = kept cc
  on_decoded-IsTurn r r' corrupt e = kept cc
  on_decoded-IsTurn r r' (frame f) e = elim (Bool-cases (f.session == s.nonce)) [
    | inr other ↦ kept (ground arith)
    | inl mine ↦ elim (Bool-cases (is_expected expected f)) [
      | inl h ↦ on_reply-IsTurn r r' f (ground arith) h (rw (mine, h) at e)
      | inr h ↦ kept (ground (arith, on_other-reply r f))
    ]
  ]

  some-injective : (b a : Reply N) → some b ≡ some a → b ≡ a
  some-injective b a e = cc

  run_decoded-IsAnsweredBy :
      (r r' : Round N) (ds : List Decoded) (a : Reply N)
      → run_decoded serde s expected r ds ≡ ok r'
      → r'.reply ≡ some a
      → (r.reply ≡ some a) ⊎ IsAnsweredBy a ds
  unfolding run_decoded
  run_decoded-IsAnsweredBy r r' [] a e h = inl cc
  run_decoded-IsAnsweredBy r r' (d ∷ ds) a e h =
      let (next, one, rest) = >>=-eq-ok (on_decoded serde s expected r d) _ e in
      elim (run_decoded-IsAnsweredBy next r' ds a rest h) [
        | inr (before, after, f, split, answer) ↦ inr (d ∷ before, after, f, rw split refl, answer)
        | inl early ↦ elim (on_decoded-IsTurn r next d one) [
          | kept same ↦ inl (sym same ∙ early)
          | answered f b is_frame now answer ↦
              let same : b ≡ a = some-injective b a (sym now ∙ early) in
              inr ([], ds, f, rw is_frame refl, rw same at answer)
        ]
      ]

  pub finish_process-reply :
      (s' : Session N) (done : Result (List (Output (Value N))) (Round N)) (a : Reply N)
      → (finish_process serde s' done).outcome ≡ ok (some a)
      → (r : Round N) × (done ≡ ok r) × (r.reply ≡ some a)
  unfolding finish_process
  finish_process-reply s' (err emitted) a e = cc
  finish_process-reply s' (ok r) a e = (r, refl, ground arith)

  -- When `process` returns a reply for the request that is waited for, the decoder has taken out of the
  -- bytes a frame of this very session and request, of the kind that is waited for or an error, and the
  -- reply is what the text of the frame says: an answer of an older session or of another request is never
  -- one.
  pub process-IsAnsweredBy :
      (bytes : Bytes) (a : Reply N)
      → (process serde s bytes expected).outcome ≡ ok (some a)
      → IsAnsweredBy a (feed s.decoder bytes).1
  unfolding process
  process-IsAnsweredBy bytes a e =
      let (r, ran, replied) = finish_process-reply _ _ a e in
      elim (run_decoded-IsAnsweredBy (record { reply = none; reset = false; emitted = [] }) r
        (feed s.decoder bytes).1 a ran replied) [ inl early ↦ cc | inr found ↦ found ]

-- The loop over one frame, which is the answer.
run_decoded-answer :
    {N : Type 0} (serde : Serde N) (s : Session N) (f : Frame) (value : Value N) (r : Round N)
    → f.session ≡ s.nonce
    → f.kind ≢ Frame.error
    → serde.from_slice f.payload ≡ some value
    → run_decoded serde s (some (f.kind, f.request_id)) r (frame f ∷ [])
      ≡ ok (record r { reply = some (ok value) })
unfolding run_decoded on_decoded on_reply is_expected reply_of
run_decoded-answer serde s f value r mine fine read = ground arith

-- Between a session and a device that both follow the protocol, the answer arrives: when the decoder has
-- nothing open, the bytes that the device encodes of a frame with the session, the request and the kind
-- that are waited for, and with a text that reads as a value, give just that value, emit nothing, and
-- leave the session as it was, between frames.
pub process-encode :
    {N : Type 0} (serde : Serde N) (s : Session N) (f : Frame) (value : Value N)
    → IsSession s
    → pending s.decoder ≡ []
    → IsSendable f
    → f.session ≡ s.nonce
    → f.kind ≢ Frame.error
    → serde.from_slice f.payload ≡ some value
    → (wire : Bytes) × (encode_frame f ≡ ok wire)
      × (process serde s wire (some (f.kind, f.request_id)) ≡ record {
        session = record s { decoder = between_frames };
        emitted = [];
        outcome = ok (some (ok value));
      })
unfolding process finish_process
process-encode serde s f value g quiet h mine fine read =
    let (wire, made, fed) = encode_frame-feed f s.decoder h g.decoder_valid in
    (wire, made, rw (fed, quiet) (rw (run_decoded-answer serde s f value _ mine fine read) refl))
