-- ===== src/Mux/Decoder.antt =====
-- `Decoder::feed` of src/mux.rs: the state machine that takes frames out of a byte stream.
use idf_remote.Base.{
  ℕ, Bool, true, false, not, ◌&&◌, ◌||◌, List, [], ◌∷◌, ◌++◌, Option, none, some, Bytes, length,
  is_empty, ltb, ◌==◌, if◌then◌else◌,
}
use idf_remote.Mux.Frame.{Frame, decode, max_body, flag, escape}
use Prim.Native.Nat.{bit_xor}

pub data Decoded : Type 0 where
  frame : Frame → Decoded
  raw : Bytes → Decoded
  corrupt : Decoded

pub record Decoder : Type 0 where
  pub in_frame : Bool
  pub escaped : Bool
  pub overflow : Bool
  pub body : Bytes

-- `Decoder::default()`
abbrev pub new : Decoder
new = record { in_frame = false; escaped = false; overflow = false; body = [] }

-- The variables of the loop in `feed`: the decoder, `raw` and `result`.
pub record Feed : Type 0 where
  pub decoder : Decoder
  pub text : Bytes
  pub result : List Decoded

-- `if !raw.is_empty() { result.push(Decoded::Raw(..)) }`
unfoldable pub flush : Bytes → List Decoded → List Decoded
flush [] result = result
flush (b ∷ bs) result = result ++ raw (b ∷ bs) ∷ []

-- `Frame::decode(&self.body).map_or(Decoded::Corrupt, Decoded::Frame)`
unfoldable pub decoded_of : Option Frame → Decoded
decoded_of none = corrupt
decoded_of (some f) = frame f

-- What the flag that ends a frame adds to the result.
unfoldable pub close : Decoder → List Decoded
unfolding decoded_of
close d =
    if d.overflow || d.escaped
    then corrupt ∷ []
    else if is_empty d.body
    then []
    else decoded_of (decode d.body) ∷ []

-- The branch `b == 0x7e`.
unfoldable pub on_flag : Feed → Feed
unfolding flush close
on_flag s =
    let pushed = flush s.text s.result in
    if s.decoder.in_frame
    then record {
      decoder = record { in_frame = true; escaped = false; overflow = false; body = [] };
      text = [];
      result = pushed ++ close s.decoder;
    }
    else record { decoder = record (s.decoder) { in_frame = true }; text = []; result = pushed }

-- The body with one more byte of the frame, before the bound is tested.
unfoldable pub push_byte : Decoder → ℕ → Decoder
push_byte d b =
    if d.escaped
    then record d { body = d.body ++ bit_xor b 0x20 ∷ []; escaped = false }
    else if b == escape
    then record d { escaped = true }
    else record d { body = d.body ++ b ∷ [] }

-- `if self.body.len() > MAX_BODY { self.body.clear(); self.overflow = true }`
unfoldable pub bound_body : Decoder → Decoder
bound_body d = if ltb max_body (length d.body) then record d { body = []; overflow = true } else d

unfoldable pub feed_byte : Feed → ℕ → Feed
unfolding on_flag push_byte bound_body
feed_byte s b =
    let d = s.decoder in
    if b == flag
    then on_flag s
    else if not d.in_frame || (is_empty d.body && not d.escaped && not d.overflow && not (b == 1))
    then record s { decoder = record d { in_frame = false }; text = s.text ++ b ∷ [] }
    else if not d.overflow
    then record s { decoder = bound_body (push_byte d b) }
    else s

unfoldable pub feed_bytes : Feed → Bytes → Feed
unfolding feed_byte
feed_bytes s [] = s
feed_bytes s (b ∷ bs) = feed_bytes (feed_byte s b) bs

unfoldable pub feed : Decoder → Bytes → Decoder × List Decoded
unfolding feed_bytes flush
feed d bytes =
    let s = feed_bytes (record { decoder = d; text = []; result = [] }) bytes in
    (s.decoder, flush s.text s.result)
