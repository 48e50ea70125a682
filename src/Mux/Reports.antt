-- ===== src/Mux/Reports.antt =====
-- Every frame that the decoder of src/mux.rs reports is well formed.
use idf_remote.Base.{
  ℕ, zero, suc, ◌<◌, ◌≤◌, ◌≡◌, refl, arith, Bool, true, ◌&&◌, List, [], ◌∷◌, Bytes, IsByte, All,
  All-append, length, ltb, Option-cases, inl, inr,
}
use idf_remote.Mux.Frame.{decode}
use idf_remote.Mux.Decoder.{
  Decoder, Decoded, frame, raw, corrupt, Feed, flush, close, decoded_of, feed_byte, feed_bytes,
  feed,
}
use idf_remote.Mux.RoundTrip.{IsSendable}
use idf_remote.Mux.Sound.{decode-IsSendable}
use idf_remote.Mux.Invariant.{IsValid, feed_byte-IsValid}
use Prim.Native.Nat.{bit_xor}

abbrev pub IsFit : Decoded → Type 0
IsFit (frame f) = IsSendable f
IsFit (raw bs) = Unit
IsFit corrupt = Unit

bytes_below : ℕ → Bool
bytes_below zero = true
bytes_below (suc n) = ltb (bit_xor n 0x20) 256 && bytes_below n

bytes_below_sound : (n b : ℕ) → bytes_below n ≡ true → b < n → bit_xor b 0x20 < 256
unfolding bytes_below
bytes_below_sound zero b e h = absurd (omega arith)
bytes_below_sound (suc n) b e h = ground (arith, bytes_below_sound n b)

xor-IsByte : (b : ℕ) → IsByte b → IsByte (bit_xor b 0x20)
unfolding bytes_below
xor-IsByte b h = bytes_below_sound 256 b refl h

decode-IsFit :
    (body : Bytes) → All IsByte body → length body ≤ 1042 → IsFit (decoded_of (decode body))
unfolding decoded_of
decode-IsFit body bytes h = elim (Option-cases (decode body)) [
  | inl e ↦ rw e tt
  | inr (f, e) ↦ rw e (decode-IsSendable body f bytes e h)
]

close-IsFit : (d : Decoder) → All IsByte d.body → length d.body ≤ 1042 → All IsFit (close d)
unfolding close
close-IsFit d bytes h = ground (arith, decode-IsFit d.body bytes h)

flush-IsFit : (t : Bytes) (r : List Decoded) → All IsFit r → All IsFit (flush t r)
unfolding flush
flush-IsFit [] r h = h
flush-IsFit (b ∷ bs) r h = All-append IsFit r (raw (b ∷ bs) ∷ []) h (tt, tt)

record IsClean (s : Feed) : Type 0 where
  valid : IsValid s.decoder
  bytes : All IsByte s.decoder.body
  fit : All IsFit s.result

feed_byte-IsByte :
    (s : Feed) (b : ℕ)
    → IsByte b
    → All IsByte s.decoder.body
    → All IsByte (feed_byte s b).decoder.body
unfolding feed_byte
feed_byte-IsByte s b h c = ground (
  arith,
  All-append IsByte s.decoder.body (b ∷ []) c (h, tt),
  All-append IsByte s.decoder.body (bit_xor b 0x20 ∷ []) c (xor-IsByte b h, tt),
)

feed_byte-IsFit :
    (s : Feed) (b : ℕ)
    → All IsByte s.decoder.body
    → length s.decoder.body ≤ 1042
    → All IsFit s.result
    → All IsFit (feed_byte s b).result
unfolding feed_byte
feed_byte-IsFit s b c h f =
    let pushed = flush-IsFit s.text s.result f in
    ground (
      arith,
      pushed,
      All-append IsFit (flush s.text s.result) (close s.decoder) pushed (close-IsFit s.decoder c h),
    )

feed_byte-IsClean : (s : Feed) (b : ℕ) → IsByte b → IsClean s → IsClean (feed_byte s b)
feed_byte-IsClean s b h c = record {
  valid = feed_byte-IsValid s b c.valid;
  bytes = feed_byte-IsByte s b h c.bytes;
  fit = feed_byte-IsFit s b c.bytes c.valid.bounded c.fit;
}

feed_bytes-IsClean :
    (s : Feed) (bytes : Bytes) → All IsByte bytes → IsClean s → IsClean (feed_bytes s bytes)
unfolding feed_bytes
feed_bytes-IsClean s [] h c = c
feed_bytes-IsClean s (b ∷ bs) (h, t) c =
    feed_bytes-IsClean (feed_byte s b) bs t (feed_byte-IsClean s b h c)

-- From bytes, whatever they are, the decoder reports only frames that `encode` would accept: a kind
-- from 1 to 7, a session that is not 0, at most 1024 bytes of payload, and words that fit.
pub feed-IsFit :
    (d : Decoder) (bytes : Bytes)
    → IsValid d
    → All IsByte d.body
    → All IsByte bytes
    → All IsFit (feed d bytes).1
unfolding feed
feed-IsFit d bytes v db h =
    let s = feed_bytes (record { decoder = d; text = []; result = [] }) bytes in
    flush-IsFit s.text s.result
      (feed_bytes-IsClean _ bytes h (record { valid = v; bytes = db; fit = tt })).fit
