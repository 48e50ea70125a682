-- ===== src/Application/Send.antt =====
-- The frames that a `Session` of src/application.rs sends, as the decoder of the other side reads them.
use idf_remote.Base.{
  ℕ, zero, suc, ◌+◌, ◌≤◌, ◌<◌, ◌^◌, ◌≡◌, ◌≢◌, refl, sym, arith, true, not, ◌&&◌, List, [], ◌∷◌,
  ◌++◌, Bytes, All, length, is_empty, length-take, length-drop, drop, take-append-drop, leb, ltb,
  ok, context, >>=-eq-ok, >>-eq-ok, append_assoc,
}
use idf_remote.Mux.Frame
use idf_remote.Mux.Frame.{Frame, encode, max_payload, is_kind}
use idf_remote.Mux.Decoder.{Decoder, Decoded, frame, feed, close}
use idf_remote.Mux.RoundTrip.{IsSendable}
use idf_remote.Mux.Stream.{feed-encode, between_frames, pending}
use idf_remote.Mux.Invariant.{IsValid}
use idf_remote.Application.Json.{
  Serde, Command, payload, validate_json, command_value, contains_nul, method_length, method_nul,
  serialization, request_too_long, session_lost, ids_exhausted,
}
use idf_remote.Application.Session.{
  Session, nonce, encode_frame, chunks_within, chunks, encode_all, console_frames, prepare_request,
  prepare_console,
}

-- The fields of a session fit their Rust types, and its number is one that frames accept.
pub record IsSession {N : Type 0} (s : Session N) : Type 0 where
  pub nonce_ne_zero : s.nonce ≢ 0
  pub nonce_fits : s.nonce < 2 ^ 64
  pub next_fits : s.next_request < 2 ^ 32
  pub decoder_valid : IsValid s.decoder

nonce-ne : (seed next : ℕ) → (nonce seed next).0 ≢ 0
unfolding nonce
nonce-ne seed next h = ground arith

nonce-lt : (seed next : ℕ) → seed < 2 ^ 64 → next < 2 ^ 64 → (nonce seed next).0 < 2 ^ 64
unfolding nonce
nonce-lt seed next h k = ground arith

-- A payload that a command makes fits in a frame.
payload-short :
    {N : Type 0} (serde : Serde N) (c : Command N) (bytes : Bytes)
    → payload serde c ≡ ok bytes
    → length bytes ≤ max_payload
unfolding payload
payload-short serde c bytes h =
    let (method_ok, h1) =
      >>-eq-ok (not (is_empty c.method) && leb (length c.method) 64) method_length _ h in
    let (nul_ok, h2) = >>-eq-ok (not (contains_nul c.method)) method_nul _ h1 in
    let (plain, valid, h3) = >>=-eq-ok (validate_json serde c.params 0) _ h2 in
    let (wire, made, h4) =
      >>=-eq-ok (context (serde.to_vec (command_value serde c)) serialization) _ h3 in
    let (short, same) = >>-eq-ok (leb (length wire) max_payload) request_too_long (ok wire) h4 in
    ground arith

encode_frame-ok : (f : Frame) (wire : Bytes) → encode f ≡ ok wire → encode_frame f ≡ ok wire
unfolding encode_frame
encode_frame-ok f wire h = rw (encode_frame, h) refl

-- What `prepare_request` has tested and built when it succeeds.
pub prepare_request-ok :
    {N : Type 0} (serde : Serde N) (s s' : Session N) (c : Command N) (f : Frame)
    → prepare_request serde s c ≡ ok (s', f)
    → (s.valid ≡ true)
      × (s.next_request + 1 < 2 ^ 32)
      × (s' ≡ record s { next_request = s.next_request + 1 })
      × ((bytes : Bytes) × (length bytes ≤ max_payload)
          × (f ≡ record {
            kind = Frame.request;
            session = s.nonce;
            request_id = s.next_request;
            payload = bytes;
          }))
unfolding prepare_request
prepare_request-ok serde s s' c f h =
    let (valid, h1) = >>-eq-ok s.valid session_lost _ h in
    let (bytes, made, h2) = >>=-eq-ok (payload serde c) _ h1 in
    let (fits, same) = >>-eq-ok (ltb (s.next_request + 1) (2 ^ 32)) ids_exhausted _ h2 in
    (valid, ground arith, cc, (bytes, payload-short serde c bytes made, cc))

-- A frame that is sendable reaches a decoder through `encode_frame`.
pub encode_frame-feed :
    (f : Frame) (d : Decoder)
    → IsSendable f
    → IsValid d
    → (wire : Bytes) × (encode_frame f ≡ ok wire)
      × (feed d wire ≡ (between_frames, pending d ++ frame f ∷ []))
encode_frame-feed f d h v =
    let (wire, made, read) = feed-encode f d h v in (wire, encode_frame-ok f wire made, read)

-- `prepare_request` succeeds only in a session that is valid. It takes the next number of the session
-- and moves that on to a larger one, so that no two requests have the same; and its frame is one that
-- `encode` accepts and that a decoder in any state takes out of the bytes whole.
pub prepare_request-encode :
    {N : Type 0} (serde : Serde N) (s s' : Session N) (c : Command N) (f : Frame) (d : Decoder)
    → IsSession s
    → IsValid d
    → prepare_request serde s c ≡ ok (s', f)
    → (s.valid ≡ true)
      × IsSession s'
      × (f.request_id ≡ s.next_request)
      × (s.next_request < s'.next_request)
      × ((wire : Bytes) × (encode_frame f ≡ ok wire)
          × (feed d wire ≡ (between_frames, pending d ++ frame f ∷ [])))
prepare_request-encode serde s s' c f d g v h =
    let (valid, fits, moved, (bytes, short, built)) = prepare_request-ok serde s s' c f h in
    (
      valid,
      rw moved (record {
        nonce_ne_zero = g.nonce_ne_zero;
        nonce_fits = g.nonce_fits;
        next_fits = fits;
        decoder_valid = g.decoder_valid;
      }),
      rw built refl,
      rw moved (omega arith),
      encode_frame-feed f d
          (rw built (record {
            short = short;
            kind_ok = refl;
            session_ne_zero = g.nonce_ne_zero;
            session_fits = g.nonce_fits;
            request_fits = g.next_fits;
          }))
          v,
    )

-- Several writes, read one after the other.
unfoldable pub feed_each : Decoder → List Bytes → Decoder × List Decoded
feed_each d [] = (d, [])
feed_each d (wire ∷ wires) =
    let read = feed d wire in let rest = feed_each read.0 wires in (rest.0, read.1 ++ rest.1)

unfoldable pub frames : List Frame → List Decoded
frames [] = []
frames (f ∷ fs) = frame f ∷ frames fs

pub between_frames-IsValid : IsValid between_frames
between_frames-IsValid = ground arith

encode_all-feed :
    (fs : List Frame)
    → All IsSendable fs
    → (wires : List Bytes) × (encode_all fs ≡ ok wires)
      × (feed_each between_frames wires ≡ (between_frames, frames fs))
unfolding encode_all feed_each frames close
encode_all-feed [] h = ([], refl, refl)
encode_all-feed (f ∷ fs) (h, hs) =
    let (wire, made, read) = encode_frame-feed f between_frames h between_frames-IsValid in
    let (wires, made_all, read_all) = encode_all-feed fs hs in
    (wire ∷ wires, rw (made, made_all) refl, rw (read, read_all) refl)

unfoldable pub join : List Bytes → Bytes
join [] = []
join (b ∷ bs) = b ++ join bs

pub join-append : (xs ys : List Bytes) → join (xs ++ ys) ≡ join xs ++ join ys
unfolding join
join-append [] ys = refl
join-append (x ∷ xs) ys = rw (join-append xs ys) (sym (append_assoc x (join xs) (join ys)))

-- `n` of fuel is enough for `n` bytes.
join-chunks_within :
    (fuel size : ℕ) (bytes : Bytes)
    → length bytes ≤ fuel
    → 0 < size
    → join (chunks_within fuel size bytes) ≡ bytes
unfolding join chunks_within
join-chunks_within zero size [] h k = refl
join-chunks_within zero size (b ∷ bs) h k = absurd (omega arith)
join-chunks_within (suc fuel) size [] h k = refl
join-chunks_within (suc fuel) size (b ∷ bs) h k =
    rw
      (join-chunks_within fuel size (drop size (b ∷ bs)) (omega (arith, length-drop size (b ∷ bs)))
        k)
      (take-append-drop size (b ∷ bs))

-- A frame of console text of a session, with 1 to 256 bytes.
pub record IsConsole (session : ℕ) (f : Frame) : Type 0 where
  pub kind_is : f.kind ≡ Frame.console
  pub session_is : f.session ≡ session
  pub not_a_request : f.request_id ≡ 0
  pub some_bytes : 1 ≤ length f.payload
  pub few_bytes : length f.payload ≤ 256

-- The payloads of some frames, one behind the other.
abbrev pub payloads : List Frame → Bytes
payloads [] = []
payloads (f ∷ fs) = f.payload ++ payloads fs

IsConsole-IsSendable :
    (session : ℕ) (fs : List Frame)
    → session ≢ 0
    → session < 2 ^ 64
    → All (IsConsole session) fs
    → All IsSendable fs
IsConsole-IsSendable session [] k l h = tt
IsConsole-IsSendable session (f ∷ fs) k l (c, h) = (
  record {
    short = omega (arith, c.few_bytes);
    kind_ok = rw c.kind_is refl;
    session_ne_zero = rw c.session_is k;
    session_fits = rw c.session_is l;
    request_fits = omega (arith, c.not_a_request);
  },
  IsConsole-IsSendable session fs k l h,
)

-- `n` of fuel is enough for `n` bytes.
console_frames-IsConsole :
    (fuel session : ℕ) (bytes : Bytes)
    → length bytes ≤ fuel
    → All (IsConsole session) (console_frames session (chunks_within fuel 256 bytes))
      × (payloads (console_frames session (chunks_within fuel 256 bytes)) ≡ bytes)
unfolding console_frames chunks_within
console_frames-IsConsole zero session [] h = (tt, refl)
console_frames-IsConsole zero session (b ∷ bs) h = absurd (omega arith)
console_frames-IsConsole (suc fuel) session [] h = (tt, refl)
console_frames-IsConsole (suc fuel) session (b ∷ bs) h =
    let (all, whole) =
      console_frames-IsConsole fuel session (drop 256 (b ∷ bs))
        (omega (arith, length-drop 256 (b ∷ bs))) in
    (
      (
        record {
          kind_is = refl;
          session_is = refl;
          not_a_request = refl;
          some_bytes = omega (arith, length-take 256 (b ∷ bs));
          few_bytes = omega (arith, length-take 256 (b ∷ bs));
        },
        all,
      ),
      rw whole (take-append-drop 256 (b ∷ bs)),
    )

-- Console input of any length is written in a valid session, and a decoder between frames reads from the
-- writes nothing but console frames of the session, each with 1 to 256 bytes and no request number, whose
-- payloads, put together, are the input.
pub prepare_console-feed_each :
    {N : Type 0} (s : Session N) (bytes : Bytes)
    → IsSession s
    → s.valid ≡ true
    → (wires : List Bytes) × (prepare_console s bytes ≡ ok wires)
      × ((fs : List Frame) × (feed_each between_frames wires ≡ (between_frames, frames fs))
          × All (IsConsole s.nonce) fs
          × (payloads fs ≡ bytes))
unfolding prepare_console chunks
prepare_console-feed_each s bytes g valid =
    let fs = console_frames s.nonce (chunks 256 bytes) in
    let (all, whole) = console_frames-IsConsole (length bytes) s.nonce bytes (omega arith) in
    let (wires, made, read) =
      encode_all-feed fs (IsConsole-IsSendable s.nonce fs g.nonce_ne_zero g.nonce_fits all) in
    (wires, rw valid made, (fs, read, all, whole))
