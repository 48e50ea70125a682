-- ===== src/Mux/Invariant.antt =====
-- What holds of the decoder of src/mux.rs between two bytes.
use idf_remote.Base.{ℕ, ◌≤◌, ◌≡◌, arith, true, false, [], ◌∷◌, Bytes, length, length-append}
use idf_remote.Mux.Frame.{max_body}
use idf_remote.Mux.Decoder.{Decoder, new, Feed, feed_byte, feed_bytes, feed}
use Prim.Native.Nat.{bit_xor}

pub record IsValid (d : Decoder) : Type 0 where
  pub outside : d.in_frame ≡ false → d ≡ new
  pub bounded : length d.body ≤ max_body
  pub dropped : d.overflow ≡ true → (d.body ≡ []) × (d.escaped ≡ false)

pub feed_byte-IsValid : (s : Feed) (b : ℕ) → IsValid s.decoder → IsValid (feed_byte s b).decoder
unfolding feed_byte
feed_byte-IsValid s b v = ground (
  arith,
  v.outside,
  v.dropped,
  length-append s.decoder.body (b ∷ []),
  length-append s.decoder.body (bit_xor b 0x20 ∷ []),
)

feed_bytes-IsValid :
    (s : Feed) (bytes : Bytes) → IsValid s.decoder → IsValid (feed_bytes s bytes).decoder
unfolding feed_bytes
feed_bytes-IsValid s [] v = v
feed_bytes-IsValid s (b ∷ bs) v = feed_bytes-IsValid (feed_byte s b) bs (feed_byte-IsValid s b v)

pub new-IsValid : IsValid new
new-IsValid = ground arith

-- Whatever bytes arrive, in whatever chunks, the decoder holds at most 1042 bytes of a frame, holds
-- none outside a frame, and none while it skips a frame that was too long.
pub feed-IsValid : (d : Decoder) (bytes : Bytes) → IsValid d → IsValid (feed d bytes).0
unfolding feed
feed-IsValid d bytes v = feed_bytes-IsValid _ bytes v
