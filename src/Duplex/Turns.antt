-- ===== src/Duplex/Turns.antt =====
-- What one write of `tick` in src/duplex.rs does to the queue.
use idf_remote.Base.{
  All-map, ℕ, zero, suc, ◌+◌, ◌≤◌, ◌≡◌, ◌⊎◌, inl, inr, refl, sym, ap, ◌∙◌, arith, true, List, [],
  ◌∷◌, ◌++◌, append-nil, All, All-append, Bytes, length, is_empty, take, drop, take_split,
  take-eq_self, ◌==◌, ok, Bool-cases,
}
use idf_remote.Mux.Frame.{Frame}
use mathlib.Core.List.{Memᴰ}
use idf_remote.Application.Session.{encode_frame, chunks}
use idf_remote.Application.Send.{join}
use idf_remote.Duplex.State.{Transfer}
use idf_remote.Duplex.Steps.{piece, advance, take_turns}

-- What is queued as one frame: a frame, encoded, or one of the chunks of a plain input.
abbrev pub IsUnit : List Bytes → Bytes → Type 0
IsUnit inputs bytes =
    ((f : Frame) × (encode_frame f ≡ ok bytes))
    ⊎ ((text : Bytes) × Memᴰ text inputs × Memᴰ bytes (chunks 256 text))

-- What is a unit stays one when more is entered.
pub IsUnit-later :
    (text : Bytes) (inputs : List Bytes) (bytes : Bytes)
    → IsUnit inputs bytes
    → IsUnit (text ∷ inputs) bytes
IsUnit-later text inputs bytes (inl encoded) = inl encoded
IsUnit-later text inputs bytes (inr (old, entered, cut)) = inr (old, Memᴰ.tail entered, cut)

-- The part of a frame that is written.
unfoldable pub partial_of : ℕ → List Bytes → Bytes
partial_of offset [] = []
partial_of offset (bytes ∷ rest) = take offset bytes

partial_of-zero : (frames : List Bytes) → partial_of 0 frames ≡ []
unfolding partial_of
partial_of-zero [] = refl
partial_of-zero (bytes ∷ rest) = refl

take-take : (n m : ℕ) (xs : Bytes) → n ≤ length (take m xs) → take n (take m xs) ≡ take n xs
take-take zero m xs h = refl
take-take (suc n) zero xs h = absurd (omega arith)
take-take (suc n) (suc m) [] h = refl
take-take (suc n) (suc m) (x ∷ xs) h = rw (take-take n m xs (omega arith)) refl

-- A write goes on where the last one ended.
goes_on :
    (offset n : ℕ) (bytes : Bytes)
    → n ≤ length (piece offset bytes)
    → take offset bytes ++ take n (piece offset bytes) ≡ take (offset + n) bytes
unfolding piece
goes_on offset n bytes h =
    rw (take-take n 256 (drop offset bytes) h) (sym (take_split offset n bytes))

no_frames :
    (offset : ℕ) (frames : List Bytes) → is_empty frames ≡ true → partial_of offset frames ≡ []
unfolding partial_of
no_frames offset [] h = refl
no_frames offset (b ∷ bs) h = cc

module _ {N : Type 0} where
  abbrev pub IsAtStart : Transfer N → Type 0
  IsAtStart t = t.offset ≡ 0

  unfoldable pub partial : List (Transfer N) → Bytes
  partial [] = []
  partial (t ∷ ts) = partial_of t.offset t.frames

  partial-at_start : (ts : List (Transfer N)) → All IsAtStart ts → partial ts ≡ []
  unfolding partial
  partial-at_start [] h = refl
  partial-at_start (t ∷ ts) (h, hs) = rw h (partial_of-zero t.frames)

module _ (inputs : List Bytes) {N : Type 0} where
  abbrev pub HasUnits : Transfer N → Type 0
  HasUnits t = All (IsUnit inputs) t.frames

  -- All but the front of the queue are between frames.
  unfoldable pub IsOrderly : List (Transfer N) → Type 0
  IsOrderly [] = Unit
  IsOrderly (t ∷ ts) = HasUnits t × All HasUnits ts × All IsAtStart ts

  at_start-IsOrderly : (ts : List (Transfer N)) → All HasUnits ts → All IsAtStart ts → IsOrderly ts
  unfolding IsOrderly
  at_start-IsOrderly [] u h = tt
  at_start-IsOrderly (t ∷ ts) (u, us) (h, hs) = (u, us, hs)

  -- A transfer that is appended between frames changes nothing of the front.
  pub append-IsOrderly :
      (ts : List (Transfer N)) (t : Transfer N)
      → IsOrderly ts
      → HasUnits t
      → IsAtStart t
      → IsOrderly (ts ++ t ∷ []) × (partial (ts ++ t ∷ []) ≡ partial ts)
  unfolding IsOrderly partial
  append-IsOrderly [] t o u h = ((u, tt, tt), rw h (partial_of-zero t.frames))
  append-IsOrderly (x ∷ xs) t (ux, us, hs) u h = (
    (ux, All-append HasUnits xs (t ∷ []) us (u, tt), All-append IsAtStart xs (t ∷ []) hs (h, tt)),
    refl,
  )

  pub take_turns-IsOrderly :
      (t : Transfer N) (ts : List (Transfer N))
      → HasUnits t
      → All HasUnits ts
      → All IsAtStart ts
      → IsOrderly (take_turns t ts).0 × (partial (take_turns t ts).0 ≡ partial_of t.offset t.frames)
  unfolding take_turns
  take_turns-IsOrderly t ts u us hs = elim (Bool-cases (is_empty t.frames)) [
    | inl done ↦ rw done (
      at_start-IsOrderly ts us hs,
      partial-at_start ts hs ∙ sym (no_frames t.offset t.frames done),
    )
    | inr more ↦ elim (Bool-cases (t.offset == 0)) [
      | inr inside ↦ rw (more, inside) (unfold IsOrderly partial in ((u, us, hs), refl))
      | inl between ↦
          let start : t.offset ≡ 0 = ground arith in
          let (o, e) = append-IsOrderly ts t (at_start-IsOrderly ts us hs) u start in
          rw (more, between)
            (
              o,
              e
                  ∙ partial-at_start ts hs
                  ∙ sym (ap (λ (k : ℕ). partial_of k t.frames) start ∙ partial_of-zero t.frames),
            )
    ]
  ]

  -- A write of `n` bytes of the front frame: the bytes, after the part that is written already, are the
  -- frame that the write completes, if it does, and the part of the frame that is in front then.
  pub advance-partial :
      (t : Transfer N) (bytes : Bytes) (rest : List Bytes) (n : ℕ)
      → t.frames ≡ bytes ∷ rest
      → HasUnits t
      → n ≤ length (piece t.offset bytes)
      → HasUnits (advance t bytes rest n)
        × ((finished : List Bytes) × All (IsUnit inputs) finished
            × (take t.offset bytes ++ take n (piece t.offset bytes)
                ≡ join finished
                  ++ partial_of (advance t bytes rest n).offset (advance t bytes rest n).frames))
  unfolding advance join
  advance-partial t bytes rest n e u h = elim (Bool-cases (t.offset + n == length bytes)) [
    | inl complete ↦ rw complete (
      (rw e at u).1,
      (
        bytes ∷ [],
        ((rw e at u).0, tt),
        goes_on t.offset n bytes h
            ∙ take-eq_self (t.offset + n) bytes (ground arith)
            ∙ rw (partial_of-zero rest, append-nil (bytes ++ []), append-nil bytes) refl,
      ),
    )
    | inr partly ↦ rw partly (
      u,
      (
        [],
        tt,
        goes_on t.offset n bytes h
            ∙ sym (ap (partial_of (t.offset + n)) e ∙ unfold partial_of in refl),
      ),
    )
  ]

pub HasUnits-later :
    {N : Type 0} (text : Bytes) (inputs : List Bytes) (t : Transfer N)
    → HasUnits inputs t
    → HasUnits (text ∷ inputs) t
HasUnits-later text inputs t u = All-map _ _ (IsUnit-later text inputs) t.frames u

pub IsOrderly-later :
    {N : Type 0} (text : Bytes) (inputs : List Bytes) (ts : List (Transfer N))
    → IsOrderly inputs ts
    → IsOrderly (text ∷ inputs) ts
unfolding IsOrderly
IsOrderly-later text inputs [] o = tt
IsOrderly-later text inputs (t ∷ ts) (u, us, hs) =
    (HasUnits-later text inputs t u, All-map _ _ (HasUnits-later text inputs) ts us, hs)
