-- ===== src/Tests/FrameRuns.antt =====
-- src/mux.rs on the inputs of its own tests, and the theorems about it at concrete frames.
use idf_remote.Base.{◌≡◌, refl, arith, [], ◌∷◌, ◌++◌, some, Bytes, drop, none, ok, true, false}
use idf_remote.Base.Words.{from_le_bytes}
use idf_remote.Base.Text.{codes}
use idf_remote.Mux.Crc.{crc32}
use idf_remote.Mux.Frame.{Frame, encode, decode, body_of, request, flag}
use idf_remote.Mux.Decoder.{Decoder, frame, new, feed}
use idf_remote.Mux.Invariant.{IsValid, new-IsValid, feed-IsValid}
use idf_remote.Mux.RoundTrip.{IsSendable, decode-body_of}
use idf_remote.Mux.Stream.{feed-encode, between_frames, pending}
use idf_remote.Mux.Chunks.{feed-append, items}
use idf_remote.Mux.Sound.{decode_sound}

abbrev sample : Frame
sample = record { kind = request; session = 42; request_id = 7; payload = 0x7e ∷ 1 ∷ 0x7d ∷ [] }

crc32_reference : crc32 (codes "123456789") ≡ 0xcbf4_3926
unfolding crc32
crc32_reference = refl

sample-IsSendable : IsSendable sample
sample-IsSendable = record {
  short = omega arith;
  kind_ok = refl;
  session_ne_zero = omega arith;
  session_fits = omega arith;
  request_fits = omega arith;
}

-- A decoder in the middle of a frame that it has given up.
abbrev skipping : Decoder
skipping = record { in_frame = true; escaped = false; overflow = true; body = [] }

skipping-IsValid : IsValid skipping
skipping-IsValid = ground arith

feed-encode_example :
    (wire : Bytes) × (encode sample ≡ ok wire)
    × (feed skipping wire ≡ (between_frames, pending skipping ++ frame sample ∷ []))
feed-encode_example = feed-encode sample skipping sample-IsSendable skipping-IsValid

decode-body_of_example : decode (body_of sample) ≡ some sample
decode-body_of_example = decode-body_of sample sample-IsSendable

feed-append_example :
    let (d', first) = feed new (codes "boot" ++ flag ∷ []) in
    let (d'', second) = feed d' (1 ∷ codes "x") in
    ((feed new (codes "boot" ++ flag ∷ 1 ∷ codes "x")).0 ≡ d'')
    × (items (feed new (codes "boot" ++ flag ∷ 1 ∷ codes "x")).1 ≡ items first ++ items second)
feed-append_example = feed-append new (codes "boot" ++ flag ∷ []) (1 ∷ codes "x")

abbrev sample_body : Bytes
sample_body =
    1 ∷ 4 ∷ 42 ∷ 0 ∷ 0 ∷ 0 ∷ 0 ∷ 0 ∷ 0 ∷ 0 ∷ 7 ∷ 0 ∷ 0 ∷ 0 ∷ 0x7e ∷ 1 ∷ 0x7d ∷ 229 ∷ 114 ∷ 213 ∷ 217
    ∷ []

decode-sample_body : decode sample_body ≡ some sample
unfolding decode crc32 from_le_bytes
decode-sample_body = refl

-- A body with one bit changed is no frame.
decode_damaged : decode (1 ∷ 5 ∷ drop 2 sample_body) ≡ none
unfolding decode crc32 from_le_bytes
decode_damaged = refl

decode_sound_example : sample_body ≡ body_of sample
decode_sound_example = decode_sound sample_body sample (omega arith) decode-sample_body

feed-IsValid_example : IsValid (feed new (codes "log" ++ flag ∷ 1 ∷ 2 ∷ [])).0
feed-IsValid_example = feed-IsValid new (codes "log" ++ flag ∷ 1 ∷ 2 ∷ []) new-IsValid
