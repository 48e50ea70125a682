-- ===== src/Mux/Frame.antt =====
-- `Frame`, `Frame::encode` and `Frame::decode` of src/mux.rs.
use idf_remote.Base.{
  ℕ, ◌+◌, ◌-◌, Bool, not, ◌&&◌, ◌||◌, [], ◌∷◌, ◌++◌, Option, none, some, Bytes, length, get_or,
  take, drop, ltb, leb, ◌==◌, if◌then◌else◌, Result, ok, ensure, ◌>>◌,
}
use idf_remote.Base.Words.{to_le_bytes, from_le_bytes}
use idf_remote.Mux.Crc.{crc32}
use Prim.Native.Nat.{bit_xor}

abbrev pub max_payload : ℕ
max_payload = 1024

abbrev pub max_body : ℕ
max_body = 14 + max_payload + 4

-- The values of `Frame::kind`.
abbrev pub hello : ℕ
hello = 1

abbrev pub hello_ack : ℕ
hello_ack = 2

abbrev pub console : ℕ
console = 3

abbrev pub request : ℕ
request = 4

abbrev pub response : ℕ
response = 5

abbrev pub event : ℕ
event = 6

abbrev pub error : ℕ
error = 7

pub record Frame : Type 0 where
  pub kind : ℕ  -- u8
  pub session : ℕ  -- u64
  pub request_id : ℕ  -- u32
  pub payload : Bytes

pub data EncodeError : Type 0 where
  payload_too_long invalid_kind zero_session : EncodeError

-- `(HELLO..=ERROR).contains(&kind)`
abbrev pub is_kind : ℕ → Bool
is_kind k = leb hello k && leb k error

abbrev pub flag : ℕ
flag = 0x7e

abbrev pub escape : ℕ
escape = 0x7d

-- What the loop over `body` appends to `wire` for one byte, and for all of them.
unfoldable pub stuff_byte : ℕ → Bytes
stuff_byte b = if b == flag || b == escape then escape ∷ bit_xor b 0x20 ∷ [] else b ∷ []

unfoldable pub stuff : Bytes → Bytes
unfolding stuff_byte
stuff [] = []
stuff (b ∷ bs) = stuff_byte b ++ stuff bs

-- The body before its checksum, and with it.
unfoldable pub header_and_payload : Frame → Bytes
header_and_payload f =
    1 ∷ f.kind ∷ (to_le_bytes 8 f.session ++ (to_le_bytes 4 f.request_id ++ f.payload))

unfoldable pub body_of : Frame → Bytes
body_of f = header_and_payload f ++ to_le_bytes 4 (crc32 (header_and_payload f))

unfoldable pub encode : Frame → Result EncodeError Bytes
unfolding stuff
encode f = do
  ensure (leb (length f.payload) max_payload) payload_too_long
  ensure (is_kind f.kind) invalid_kind
  ensure (not (f.session == 0)) zero_session
  ok (flag ∷ (stuff (body_of f) ++ flag ∷ []))

-- `body[from..to]`, where the bounds have been checked.
abbrev pub slice : ℕ → ℕ → Bytes → Bytes
slice from to body = take (to - from) (drop from body)

unfoldable pub decode : Bytes → Option Frame
unfolding from_le_bytes
decode body =
    let end = length body - 4 in
    let session = from_le_bytes (slice 2 10 body) in
    if ltb (length body) 18 || not (get_or body 0 0 == 1) || not (is_kind (get_or body 1 0))
    then none
    else if not (crc32 (take end body) == from_le_bytes (drop end body))
    then none
    else if session == 0
    then none
    else some (record {
      kind = get_or body 1 0;
      session = session;
      request_id = from_le_bytes (slice 10 14 body);
      payload = slice 14 end body;
    })
