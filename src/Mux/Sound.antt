-- ===== src/Mux/Sound.antt =====
-- `Frame::decode` of src/mux.rs accepts nothing but what `Frame::encode` builds.
use idf_remote.Base.{
  ℕ, ◌+◌, ◌-◌, ◌≤◌, ◌<◌, ◌^◌, ◌≡◌, ◌≢◌, refl, sym, ap, ◌∙◌, arith, true, [], ◌∷◌, ◌++◌, some, Bytes,
  IsByte, All, All-take, All-drop, length, length-take, length-drop, take, take-eq_self, drop,
  get_or, take_split, drop-drop, take-append-drop,
}
use idf_remote.Base.Words.{to_le_bytes, from_le_bytes, to_le_bytes-from_le_bytes, from_le_bytes-lt}
use idf_remote.Mux.Crc.{crc32}
use idf_remote.Mux.Frame.{Frame, header_and_payload, body_of, decode, is_kind, max_body, slice}
use idf_remote.Mux.RoundTrip.{IsSendable}

-- The tests of `decode`, and the frame that it builds.
record Accepted (body : Bytes) (f : Frame) : Type 0 where
  long : 18 ≤ length body
  version : get_or body 0 0 ≡ 1
  kind_ok : is_kind f.kind ≡ true
  kind_is : f.kind ≡ get_or body 1 0
  sum_is : crc32 (take (length body - 4) body) ≡ from_le_bytes (drop (length body - 4) body)
  session_ne_zero : f.session ≢ 0
  session_is : f.session ≡ from_le_bytes (slice 2 10 body)
  request_is : f.request_id ≡ from_le_bytes (slice 10 14 body)
  payload_is : f.payload ≡ slice 14 (length body - 4) body

decode-Accepted : (body : Bytes) (f : Frame) → decode body ≡ some f → Accepted body f
unfolding decode
decode-Accepted body f e = ground arith

length-slice :
    (from to : ℕ) (body : Bytes)
    → from ≤ to
    → to ≤ length body
    → length (slice from to body) ≡ to - from
length-slice from to body h k =
    omega (arith, length-take (to - from) (drop from body), length-drop from body)

first_two : (body : Bytes) → 2 ≤ length body → take 2 body ≡ get_or body 0 0 ∷ get_or body 1 0 ∷ []
first_two [] h = absurd (omega arith)
first_two (a ∷ []) h = absurd (omega arith)
first_two (a ∷ b ∷ r) h = refl

-- The part under the checksum is cut as the header is laid out.
cut_in_four :
    (n : ℕ) (body : Bytes)
    → take (2 + (8 + (4 + n))) body
      ≡ take 2 body ++ (take 8 (drop 2 body) ++ (take 4 (drop 10 body) ++ take n (drop 14 body)))
cut_in_four n body =
    take_split 2 (8 + (4 + n)) body
    ∙ rw (take_split 8 (4 + n) (drop 2 body)) (
        rw (drop-drop 2 8 body)
          (rw (take_split 4 n (drop 10 body)) (rw (drop-drop 10 4 body) refl)))

checked_part-slices :
    (body : Bytes)
    → 18 ≤ length body
    → take (length body - 4) body
      ≡ get_or body 0 0
        ∷ get_or body 1 0
        ∷ (slice 2 10 body ++ (slice 10 14 body ++ slice 14 (length body - 4) body))
checked_part-slices body h =
    let n = length body - 4 - 14 in
    let e : length body - 4 ≡ 2 + (8 + (4 + n)) = omega arith in
    ap (λ (k : ℕ). take k body) e
    ∙ cut_in_four n body
    ∙ ap
        (λ (l : Bytes).
          l ++ (slice 2 10 body ++ (slice 10 14 body ++ slice 14 (length body - 4) body)))
        (first_two body (omega arith))

-- A slice of bytes is the word that it is read as.
to_le_bytes-slice :
    (from k : ℕ) (body : Bytes)
    → All IsByte body
    → from + k ≤ length body
    → to_le_bytes k (from_le_bytes (take k (drop from body))) ≡ take k (drop from body)
to_le_bytes-slice from k body bytes h =
    let part = take k (drop from body) in
    let e : length part ≡ k =
      omega (arith, length-take k (drop from body), length-drop from body) in
    ap (λ (n : ℕ). to_le_bytes n (from_le_bytes part)) (sym e)
    ∙ to_le_bytes-from_le_bytes part (All-take IsByte k _ (All-drop IsByte from body bytes))

from_le_bytes-slice-lt :
    (from k : ℕ) (body : Bytes)
    → All IsByte body
    → from + k ≤ length body
    → from_le_bytes (take k (drop from body)) < 256 ^ k
from_le_bytes-slice-lt from k body bytes h =
    let part = take k (drop from body) in
    let e : length part ≡ k =
      omega (arith, length-take k (drop from body), length-drop from body) in
    rw e at (from_le_bytes-lt part (All-take IsByte k _ (All-drop IsByte from body bytes)))

module _ (body : Bytes) (f : Frame) (bytes : All IsByte body) (e : decode body ≡ some f) where
  accepted : Accepted body f
  accepted = decode-Accepted body f e

  header_is : header_and_payload f ≡ take (length body - 4) body
  unfolding header_and_payload
  header_is = sym (
      checked_part-slices body a.long
      ∙ rw (
        a.version,
        ← a.kind_is,
        ← to_le_bytes-slice 2 8 body bytes (omega (arith, a.long)),
        ← to_le_bytes-slice 10 4 body bytes (omega (arith, a.long)),
        ← a.session_is,
        ← a.request_is,
        ← a.payload_is,
      ))
    where
      a : Accepted body f
      a = accepted

  trailer_is : to_le_bytes 4 (crc32 (header_and_payload f)) ≡ drop (length body - 4) body
  trailer_is =
      let a = accepted in
      let from = length body - 4 in
      let all : take 4 (drop from body) ≡ drop from body =
        take-eq_self 4 _ (omega (arith, length-drop from body)) in
      rw (header_is, a.sum_is, ← all) (to_le_bytes-slice from 4 body bytes (omega (arith, a.long)))

  -- `decode` accepts only the body that `encode` builds for the frame it returns.
  pub decode_sound : body ≡ body_of f
  unfolding body_of
  decode_sound = rw trailer_is (rw header_is (sym (take-append-drop (length body - 4) body)))

  -- And that frame is one that `encode` accepts, if the body is no longer than the decoder holds.
  pub decode-IsSendable : length body ≤ max_body → IsSendable f
  decode-IsSendable h = record {
    short =
        omega (arith, ap length a.payload_is, length-take (length body - 4 - 14) (drop 14 body));
    kind_ok = a.kind_ok;
    session_ne_zero = a.session_ne_zero;
    session_fits = rw a.session_is (from_le_bytes-slice-lt 2 8 body bytes (omega (arith, a.long)));
    request_fits = rw a.request_is (from_le_bytes-slice-lt 10 4 body bytes (omega (arith, a.long)));
  }
    where
      a : Accepted body f
      a = accepted
