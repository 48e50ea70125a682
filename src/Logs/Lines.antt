-- ===== src/Logs/Lines.antt =====
-- What the records of `LineDecoder` of src/logs.rs are made of.
use idf_remote.Base.{
  ℕ, ◌+◌, ◌<◌, ◌≡◌, inl, inr, refl, sym, ap, ◌∙◌, arith, true, false, List, [], ◌∷◌, ◌++◌,
  append_assoc, append-nil, Bytes, All, All-append, length, length-append, ◌==◌, Bool-cases,
}
use idf_remote.Logs.{
  max_line_bytes, LogRecord, LineDecoder, Console, record_of, finish, feed_byte, feed,
}

-- A piece of console output: what stood before a line feed, or a fragment of a long line.
pub data Piece : Type 0 where
  line : Bytes → Piece
  part : Bytes → Piece

-- The bytes that a piece was cut from.
abbrev pub origin : Piece → Bytes
origin (line l) = l ++ 10 ∷ []
origin (part l) = l

abbrev pub origins : List Piece → Bytes
origins [] = []
origins (p ∷ ps) = origin p ++ origins ps

abbrev pub NoFeed : Bytes → Type 0
NoFeed l = All (λ c. (c == 10) ≡ false) l

-- A part fills the buffer, a line is shorter. No line feed is inside.
abbrev pub IsCut : Piece → Type 0
IsCut (line l) = NoFeed l × (length l < max_line_bytes)
IsCut (part l) = NoFeed l × (length l ≡ max_line_bytes)

abbrev pub record_for : Console → ℕ → Piece → LogRecord
record_for con seq (line l) = record_of con seq l false
record_for con seq (part l) = record_of con seq l true

-- The records of some pieces, numbered from `seq + 1` on.
abbrev pub records : Console → ℕ → List Piece → List LogRecord
records con seq [] = []
records con seq (p ∷ ps) = record_for con (seq + 1) p ∷ records con (seq + 1) ps

-- What holds of the decoder between two calls.
pub record IsReady (d : LineDecoder) : Type 0 where
  pub room : length d.pending < max_line_bytes
  pub one_line : NoFeed d.pending

-- What a call of `feed` came to.
pub record IsFed (con : Console) (d : LineDecoder) (bytes : Bytes)
    (after : LineDecoder × List LogRecord) (ps : List Piece) : Type 0 where
  pub cut : All IsCut ps
  pub reported : after.1 ≡ records con d.seq ps
  pub nothing_lost : origins ps ++ after.0.pending ≡ d.pending ++ bytes
  pub ready : IsReady after.0
  pub counted : after.0.seq ≡ d.seq + length ps

origins-append : (a b : List Piece) → origins (a ++ b) ≡ origins a ++ origins b
origins-append [] b = refl
origins-append (p ∷ ps) b =
    rw (origins-append ps b, append_assoc (origin p) (origins ps) (origins b))

records-append :
    (con : Console) (seq : ℕ) (a b : List Piece)
    → records con seq (a ++ b) ≡ records con seq a ++ records con (seq + length a) b
records-append con seq [] b = ap (λ n. records con n b) (omega arith)
records-append con seq (p ∷ ps) b =
    let moved : seq + 1 + length ps ≡ seq + length (p ∷ ps) = omega arith in
    rw (records-append con (seq + 1) ps b, moved)

module _ (con : Console) where
  feed_byte-IsFed :
      (d : LineDecoder) (b : ℕ)
      → IsReady d
      → (ps : List Piece) × IsFed con d (b ∷ []) (feed_byte con d b) ps
  unfolding feed_byte finish
  feed_byte-IsFed d b r = elim (Bool-cases (b == 10)) [
    | inl feed_here ↦ (
      line d.pending ∷ [],
      rw feed_here (record {
        cut = ((r.one_line, r.room), tt);
        reported = refl;
        nothing_lost = rw (append-nil, append-nil) (ground arith);
        ready = record { room = omega arith; one_line = tt };
        counted = omega arith;
      }),
    )
    | inr other ↦ elim (Bool-cases (length (d.pending ++ b ∷ []) == max_line_bytes)) [
      | inl full ↦ (
        part (d.pending ++ b ∷ []) ∷ [],
        rw (other, full)
            (record {
              cut = ((All-append _ d.pending (b ∷ []) r.one_line (other, tt), ground arith), tt);
              reported = refl;
              nothing_lost = rw (append-nil, append-nil);
              ready = record { room = omega arith; one_line = tt };
              counted = omega arith;
            }),
      )
      | inr room ↦ (
        [],
        rw (other, room)
            (record {
              cut = tt;
              reported = refl;
              nothing_lost = refl;
              ready = record {
                room = ground (arith, length-append d.pending (b ∷ []), r.room);
                one_line = All-append _ d.pending (b ∷ []) r.one_line (other, tt);
              };
              counted = omega arith;
            }),
      )
    ]
  ]

  IsFed-append :
      (d : LineDecoder) (a b : Bytes) (one two : LineDecoder × List LogRecord) (ps qs : List Piece)
      → IsFed con d a one ps
      → IsFed con one.0 b two qs
      → IsFed con d (a ++ b) (two.0, one.1 ++ two.1) (ps ++ qs)
  IsFed-append d a b one two ps qs f g = record {
    cut = All-append IsCut ps qs f.cut g.cut;
    reported = rw (f.reported, g.reported, records-append con d.seq ps qs, f.counted);
    nothing_lost =
        rw
          (
            origins-append ps qs,
            append_assoc (origins ps) (origins qs) two.0.pending,
            g.nothing_lost,
          )
          (sym (append_assoc (origins ps) one.0.pending b)
            ∙ (ap (λ t. t ++ b) f.nothing_lost ∙ append_assoc d.pending a b));
    ready = g.ready;
    counted = omega (arith, f.counted, g.counted, length-append ps qs);
  }

  -- Console output is cut without loss, whatever the bytes: there are pieces, lines without their line
  -- feed that are shorter than 16 KiB and parts of longer lines of just 16 KiB, of which the records
  -- are made one by one, numbered on without a hole; and the pieces, put together, and what is pending
  -- are what was pending before and the bytes. What is pending is again part of one line, and shorter.
  pub feed-IsFed :
      (d : LineDecoder) (bytes : Bytes)
      → IsReady d
      → (ps : List Piece) × IsFed con d bytes (feed con d bytes) ps
  unfolding feed
  feed-IsFed d [] r = (
    [],
    record {
      cut = tt;
      reported = refl;
      nothing_lost = sym (append-nil d.pending);
      ready = r;
      counted = omega arith;
    },
  )
  feed-IsFed d (b ∷ bs) r =
      let (ps, f) = feed_byte-IsFed d b r in
      let (qs, g) = feed-IsFed (feed_byte con d b).0 bs f.ready in
      (ps ++ qs, IsFed-append d (b ∷ []) bs (feed_byte con d b) _ ps qs f g)

  -- The records and the decoder are the same, however the bytes are split over two calls of `feed`.
  pub feed_in_two :
      (d : LineDecoder) (a b : Bytes)
      → feed con d (a ++ b)
        ≡ ((feed con (feed con d a).0 b).0, (feed con d a).1 ++ (feed con (feed con d a).0 b).1)
  unfolding feed
  feed_in_two d [] b = refl
  feed_in_two d (x ∷ xs) b = rw (feed_in_two (feed_byte con d x).0 xs b) (rw append_assoc)
