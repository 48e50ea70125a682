-- ===== src/Mux/Chunks.antt =====
-- How the stream of src/mux.rs is cut into reads does not matter: a read may only cut a run of
-- unframed text into two.
use idf_remote.Base.{
  ℕ, ◌≡◌, refl, sym, ap, ◌∙◌, arith, List, [], ◌∷◌, ◌++◌, map, append_assoc, append-nil, Bytes,
}
use idf_remote.Mux.Frame.{Frame}
use idf_remote.Mux.Decoder.{
  Decoder, Decoded, frame, raw, corrupt, Feed, flush, on_flag, close, feed_byte, feed_bytes, feed,
}
use mathlib.Core.List.{map-append}

-- What was reported, with unframed text byte by byte.
pub data Item : Type 0 where
  text_byte : ℕ → Item
  whole_frame : Frame → Item
  broken : Item

abbrev pub items : List Decoded → List Item
items [] = []
items (frame f ∷ r) = whole_frame f ∷ items r
items (raw bs ∷ r) = map text_byte bs ++ items r
items (corrupt ∷ r) = broken ∷ items r

items-append : (a b : List Decoded) → items (a ++ b) ≡ items a ++ items b
items-append [] b = refl
items-append (frame f ∷ r) b = rw (items-append r b)
items-append (raw bs ∷ r) b = rw (items-append r b, append_assoc)
items-append (corrupt ∷ r) b = rw (items-append r b)

items-flush : (t : Bytes) (r : List Decoded) → items (flush t r) ≡ items r ++ map text_byte t
unfolding flush
items-flush [] r = sym (append-nil (items r))
items-flush (b ∷ bs) r = rw items-append (rw (append-nil))

-- What the loop has reported so far.
abbrev so_far : Feed → List Item
so_far s = items s.result ++ map text_byte s.text

abbrev start : Decoder → Feed
start d = record { decoder = d; text = []; result = [] }

-- A flag: what stood in `raw` is reported, then what the flag closes.
so_far-on_flag : (s : Feed) → so_far (on_flag s) ≡ so_far s ++ so_far (on_flag (start s.decoder))
unfolding on_flag
so_far-on_flag s = ground (
  arith,
  items-append (flush s.text s.result) (close s.decoder),
  items-flush s.text s.result,
  append-nil (items (flush s.text s.result)),
  append-nil (items (flush s.text s.result ++ close s.decoder)),
  append-nil (items (close s.decoder)),
)

so_far-text :
    (r : List Decoded) (t : Bytes) (b : ℕ)
    → items r ++ map text_byte (t ++ b ∷ []) ≡ (items r ++ map text_byte t) ++ text_byte b ∷ []
so_far-text r t b = rw (map-append, append_assoc)

-- One byte: the decoder and what it adds depend on the decoder alone.
feed_byte-start_decoder :
    (s : Feed) (b : ℕ) → (feed_byte s b).decoder ≡ (feed_byte (start s.decoder) b).decoder
unfolding feed_byte
feed_byte-start_decoder s b = ground arith

so_far-feed_byte :
    (s : Feed) (b : ℕ) → so_far (feed_byte s b) ≡ so_far s ++ so_far (feed_byte (start s.decoder) b)
unfolding feed_byte
so_far-feed_byte s b =
    ground (arith, so_far-on_flag s, so_far-text s.result s.text b, append-nil (so_far s))

abbrev run : Decoder → Bytes → Feed
run d bytes = feed_bytes (start d) bytes

feed_bytes-start :
    (bytes : Bytes) (s : Feed)
    → ((feed_bytes s bytes).decoder ≡ (run s.decoder bytes).decoder)
      × (so_far (feed_bytes s bytes) ≡ so_far s ++ so_far (run s.decoder bytes))
unfolding feed_bytes
feed_bytes-start [] s = (refl, sym (append-nil (so_far s)))
feed_bytes-start (b ∷ bs) s =
    let one = feed_byte (start s.decoder) b in
    let same = feed_byte-start_decoder s b in
    let (d, i) = feed_bytes-start bs (feed_byte s b) in
    let (d', i') = feed_bytes-start bs one in
    (
      d ∙ ap (λ (e : Decoder). (run e bs).decoder) same ∙ sym d',
      i
          ∙ ap (λ (e : Decoder). so_far (feed_byte s b) ++ so_far (run e bs)) same
          ∙ ap (λ (l : List Item). l ++ so_far (run one.decoder bs)) (so_far-feed_byte s b)
          ∙ append_assoc (so_far s) (so_far one) (so_far (run one.decoder bs))
          ∙ ap (λ (l : List Item). so_far s ++ l) (sym i'),
    )

feed_bytes-append :
    (xs ys : Bytes) (s : Feed) → feed_bytes s (xs ++ ys) ≡ feed_bytes (feed_bytes s xs) ys
unfolding feed_bytes
feed_bytes-append [] ys s = refl
feed_bytes-append (x ∷ xs) ys s = feed_bytes-append xs ys (feed_byte s x)

items-feed : (d : Decoder) (bytes : Bytes) → items (feed d bytes).1 ≡ so_far (run d bytes)
unfolding feed
items-feed d bytes = items-flush (run d bytes).text (run d bytes).result

decoder-feed : (d : Decoder) (bytes : Bytes) → (feed d bytes).0 ≡ (run d bytes).decoder
unfolding feed
decoder-feed d bytes = refl

-- Two reads in a row leave the decoder, and report the items, as one read of both does.
pub feed-append :
    (d : Decoder) (xs ys : Bytes)
    → let (d', first) = feed d xs in
      let (d'', second) = feed d' ys in
      ((feed d (xs ++ ys)).0 ≡ d'') × (items (feed d (xs ++ ys)).1 ≡ items first ++ items second)
feed-append d xs ys =
    let (decoder, reported) = feed_bytes-start ys (run d xs) in
    let joined = feed_bytes-append xs ys (start d) in
    (
      rw (decoder-feed, decoder-feed, decoder-feed, joined) decoder,
      rw (items-feed, items-feed, items-feed, decoder-feed, joined) reported,
    )
