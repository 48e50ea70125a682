-- ===== src/Mux/Stream.antt =====
-- What `feed` does to the bytes that `encode` writes, in any state of the decoder.
use idf_remote.Base.{
  ℕ, ◌+◌, ◌≤◌, ◌<◌, ◌≡◌, ◌≢◌, refl, ap, ◌∙◌, arith, true, false, List, [], ◌∷◌, ◌++◌, append_assoc,
  append-nil, Bytes, length, length-append, ok, if◌then◌else◌,
}
use idf_remote.Mux.Frame.{
  Frame, header_and_payload, body_of, encode, decode, stuff_byte, stuff, max_body, flag, escape,
}
use idf_remote.Mux.Decoder.{Decoder, Decoded, frame, Feed, feed_bytes, feed, close, decoded_of}
use idf_remote.Mux.RoundTrip.{IsSendable, decode-body_of, length-body_of}
use idf_remote.Mux.Invariant.{IsValid}
use Prim.Native.Nat.{bit_xor}
use native.Mathlib.Decide.{ℕ_discrete}

-- The state of the loop inside a frame that has been read without an escape pending.
abbrev inside : Bytes → Bytes → List Decoded → Feed
inside acc text result = record {
  decoder = record { in_frame = true; escaped = false; overflow = false; body = acc };
  text = text;
  result = result;
}

-- One byte of a body, as `stuff` writes it, is appended to the body.
feed_bytes-plain :
    (acc text rest : Bytes) (b : ℕ) (result : List Decoded)
    → 0 < length acc
    → length acc < max_body
    → b ≢ flag
    → b ≢ escape
    → feed_bytes (inside acc text result) (b ∷ rest)
      ≡ feed_bytes (inside (acc ++ b ∷ []) text result) rest
unfolding feed_bytes
feed_bytes-plain acc text rest b result first h nf ne = ground (arith, length-append acc (b ∷ []))

feed_bytes-escaped :
    (acc text rest : Bytes) (b : ℕ) (result : List Decoded)
    → 0 < length acc
    → length acc < max_body
    → b ≢ flag
    → feed_bytes (inside acc text result) (escape ∷ b ∷ rest)
      ≡ feed_bytes (inside (acc ++ bit_xor b 0x20 ∷ []) text result) rest
unfolding feed_bytes
feed_bytes-escaped [] text rest b result first h nf = absurd (omega arith)
feed_bytes-escaped (a ∷ acc) text rest b result first h nf =
    ground (arith, length-append acc (bit_xor b 0x20 ∷ []))

stuff_byte-plain : (b : ℕ) → b ≢ flag → b ≢ escape → stuff_byte b ≡ b ∷ []
unfolding stuff_byte
stuff_byte-plain b nf ne = ground arith

feed_bytes-stuff_byte :
    (acc text rest : Bytes) (b : ℕ) (result : List Decoded)
    → 0 < length acc
    → length acc < max_body
    → feed_bytes (inside acc text result) (stuff_byte b ++ rest)
      ≡ feed_bytes (inside (acc ++ b ∷ []) text result) rest
feed_bytes-stuff_byte acc text rest b result first h = elim (ℕ_discrete b flag) [
  | yes e ↦
      rw e (unfold stuff_byte in feed_bytes-escaped acc text rest 0x5e result first h (omega arith))
  | no nf ↦ elim (ℕ_discrete b escape) [
    | yes e ↦
        rw e
          (unfold stuff_byte in feed_bytes-escaped acc text rest 0x5d result first h (omega arith))
    | no ne ↦ rw (stuff_byte-plain b nf ne) (feed_bytes-plain acc text rest b result first h nf ne)
  ]
]

feed_bytes-stuff :
    (bs acc text rest : Bytes) (result : List Decoded)
    → 0 < length acc
    → length acc + length bs ≤ max_body
    → feed_bytes (inside acc text result) (stuff bs ++ rest)
      ≡ feed_bytes (inside (acc ++ bs) text result) rest
unfolding stuff
feed_bytes-stuff [] acc text rest result first h = rw append-nil
feed_bytes-stuff (b ∷ bs) acc text rest result first h =
    rw (append_assoc (stuff_byte b) (stuff bs) rest) (
      feed_bytes-stuff_byte acc text (stuff bs ++ rest) b result first (omega arith)
      ∙ feed_bytes-stuff bs (acc ++ b ∷ []) text rest result
          (omega (arith, length-append acc (b ∷ []))) (omega (arith, length-append acc (b ∷ [])))
      ∙ rw append_assoc)

-- The state after a flag: inside a frame of which nothing has been read.
abbrev pub between_frames : Decoder
between_frames = record { in_frame = true; escaped = false; overflow = false; body = [] }

-- What the first flag that `d` reads reports.
abbrev pub pending : Decoder → List Decoded
pending d = if d.in_frame then close d else []

feed_bytes-flag :
    (d : Decoder) (rest : Bytes)
    → IsValid d
    → feed_bytes (record { decoder = d; text = []; result = [] }) (flag ∷ rest)
      ≡ feed_bytes (inside [] [] (pending d)) rest
unfolding feed_bytes
feed_bytes-flag d rest v = ground (arith, v.outside)

first_byte :
    (rest : Bytes) (result : List Decoded)
    → feed_bytes (inside [] [] result) (1 ∷ rest) ≡ feed_bytes (inside (1 ∷ []) [] result) rest
unfolding feed_bytes
first_byte rest result = refl

-- The flag that ends a frame: the body, which is not empty, is decoded.
last_flag :
    (b : ℕ) (body : Bytes) (result : List Decoded)
    → feed_bytes (inside (b ∷ body) [] result) (flag ∷ [])
      ≡ inside [] [] (result ++ decoded_of (decode (b ∷ body)) ∷ [])
unfolding feed_bytes
last_flag b body result = refl

body_of-cons : (f : Frame) → (t : Bytes) × (body_of f ≡ 1 ∷ t)
unfolding body_of header_and_payload
body_of-cons f = (_, refl)

stuff-one : (t : Bytes) → stuff (1 ∷ t) ≡ 1 ∷ stuff t
unfolding stuff
stuff-one t = refl

feed_bytes-body :
    (t : Bytes) (result : List Decoded)
    → length t < max_body
    → feed_bytes (inside [] [] result) (stuff (1 ∷ t) ++ flag ∷ [])
      ≡ inside [] [] (result ++ decoded_of (decode (1 ∷ t)) ∷ [])
feed_bytes-body t result h =
    rw (stuff-one t) (first_byte (stuff t ++ flag ∷ []) result)
    ∙ feed_bytes-stuff t (1 ∷ []) [] (flag ∷ []) result (omega arith) (omega arith)
    ∙ last_flag 1 t result

feed_bytes-body_of :
    (f : Frame) (result : List Decoded)
    → IsSendable f
    → feed_bytes (inside [] [] result) (stuff (body_of f) ++ flag ∷ [])
      ≡ inside [] [] (result ++ frame f ∷ [])
feed_bytes-body_of f result h =
    let (t, e) = body_of-cons f in
    let short : length t < max_body = omega (arith, ap length e, length-body_of f, h.short) in
    let read : decoded_of (decode (1 ∷ t)) ≡ frame f =
      rw (← e, decode-body_of f h) (unfold decoded_of in refl) in
    rw e (feed_bytes-body t result short ∙ rw read)

encode_ok : (f : Frame) → IsSendable f → encode f ≡ ok (flag ∷ (stuff (body_of f) ++ flag ∷ []))
unfolding encode
encode_ok f h = ground (arith, h.session_ne_zero)

-- `encode` accepts every sendable frame, and the decoder, in any state it can be in, takes the frame
-- out of the bytes whole, as the last item it reports; before it there is only what the state left
-- open.
pub feed-encode :
    (f : Frame) (d : Decoder)
    → IsSendable f
    → IsValid d
    → (wire : Bytes) × (encode f ≡ ok wire)
      × (feed d wire ≡ (between_frames, pending d ++ frame f ∷ []))
unfolding feed
feed-encode f d h v = (
  flag ∷ (stuff (body_of f) ++ flag ∷ []),
  encode_ok f h,
  rw (feed_bytes-flag d (stuff (body_of f) ++ flag ∷ []) v)
      (rw (feed_bytes-body_of f (pending d) h) refl),
)
