-- ===== src/Mux/RoundTrip.antt =====
-- A frame that `encode` accepts comes back from `decode`, and from `feed` in any state.
use idf_remote.Base.{
  ◌+◌, ◌-◌, ◌≤◌, ◌<◌, ◌^◌, ◌≡◌, ◌≢◌, refl, sym, arith, true, ◌++◌, some, Bytes, length,
  length-append, take, drop, get_or, take-append, drop-append,
}
use idf_remote.Base.Words.{
  to_le_bytes, from_le_bytes, from_le_bytes-to_le_bytes, length-to_le_bytes,
}
use idf_remote.Mux.Crc.{crc32, crc32-lt}
use idf_remote.Mux.Frame.{Frame, header_and_payload, body_of, decode, is_kind, max_payload, slice}

-- The fields of a frame fit their Rust types, and `encode` accepts it.
pub record IsSendable (f : Frame) : Type 0 where
  pub short : length f.payload ≤ max_payload
  pub kind_ok : is_kind f.kind ≡ true
  pub session_ne_zero : f.session ≢ 0
  pub session_fits : f.session < 2 ^ 64
  pub request_fits : f.request_id < 2 ^ 32

length-header_and_payload : (f : Frame) → length (header_and_payload f) ≡ 14 + length f.payload
unfolding header_and_payload to_le_bytes
length-header_and_payload f = omega arith

pub length-body_of : (f : Frame) → length (body_of f) ≡ 18 + length f.payload
unfolding body_of
length-body_of f = omega (
  arith,
  length-append (header_and_payload f) (to_le_bytes 4 (crc32 (header_and_payload f))),
  length-to_le_bytes 4 (crc32 (header_and_payload f)),
  length-header_and_payload f,
)

-- What `decode` reads in a body, in front of any four bytes of checksum.
module _ (f : Frame) (sum : Bytes) (sum_length : length sum ≡ 4) where
  whole : Bytes
  whole = header_and_payload f ++ sum

  length-whole : length whole ≡ 18 + length f.payload
  unfolding whole
  length-whole =
      omega (arith, length-append (header_and_payload f) sum, length-header_and_payload f)

  end_of_whole : length whole - 4 ≡ length (header_and_payload f)
  end_of_whole = omega (arith, length-whole, length-header_and_payload f)

  checked_part : take (length whole - 4) whole ≡ header_and_payload f
  checked_part = rw end_of_whole (unfold whole in take-append (header_and_payload f) sum)

  sum_part : drop (length whole - 4) whole ≡ sum
  sum_part = rw end_of_whole (unfold whole in drop-append (header_and_payload f) sum)

  version_part : get_or whole 0 0 ≡ 1
  unfolding whole header_and_payload to_le_bytes
  version_part = refl

  kind_part : get_or whole 1 0 ≡ f.kind
  unfolding whole header_and_payload to_le_bytes
  kind_part = refl

  session_part : slice 2 10 whole ≡ to_le_bytes 8 f.session
  unfolding whole header_and_payload to_le_bytes
  session_part = refl

  request_part : slice 10 14 whole ≡ to_le_bytes 4 f.request_id
  unfolding whole header_and_payload to_le_bytes
  request_part = refl

  payload_part : slice 14 (length whole - 4) whole ≡ f.payload
  payload_part =
      let e : length whole - 4 - 14 ≡ length f.payload = omega (arith, length-whole) in
      rw e (unfold whole header_and_payload to_le_bytes in take-append f.payload sum)

  -- `decode` accepts a body whose checksum fits.
  decode_whole :
      f.session < 2 ^ 64
      → f.request_id < 2 ^ 32
      → f.session ≢ 0
      → is_kind f.kind ≡ true
      → crc32 (header_and_payload f) ≡ from_le_bytes sum
      → decode whole ≡ some f
  unfolding decode
  decode_whole hs hr hz hk e = ground (
    arith,
    length-whole,
    checked_part,
    sum_part,
    version_part,
    kind_part,
    session_part,
    request_part,
    payload_part,
    from_le_bytes-to_le_bytes 8 f.session hs,
    from_le_bytes-to_le_bytes 4 f.request_id hr,
  )

-- `decode` reads back the body that `encode` builds.
pub decode-body_of : (f : Frame) → IsSendable f → decode (body_of f) ≡ some f
unfolding body_of whole
decode-body_of f h =
    let sum = to_le_bytes 4 (crc32 (header_and_payload f)) in
    decode_whole f sum (length-to_le_bytes 4 (crc32 (header_and_payload f))) h.session_fits
      h.request_fits h.session_ne_zero h.kind_ok
      (sym (from_le_bytes-to_le_bytes 4 _ (crc32-lt (header_and_payload f))))
