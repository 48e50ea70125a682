-- ===== src/Duplex/Progress.antt =====
-- How much of the queue of src/duplex.rs is left, counted before and after a write.
use idf_remote.Base.{
  ℕ, suc, ◌+◌, ◌-◌, ◌≤◌, ◌<◌, ◌≡◌, inl, inr, refl, ap, arith, false, List, [], ◌∷◌, ◌++◌, All,
  All-append, Bytes, length, length-take, length-drop, is_empty, drop, ◌==◌, Bool-cases, ==_iff,
}
use idf_remote.Duplex.State.{Transfer}
use idf_remote.Duplex.Steps.{any_late, piece, advance, take_turns}

abbrev pub total : List Bytes → ℕ
total [] = 0
total (bytes ∷ rest) = length bytes + total rest

-- The bytes that are left of the frames, the first one from an offset on.
abbrev pub remain_of : ℕ → List Bytes → ℕ
remain_of offset [] = 0
remain_of offset (bytes ∷ rest) = (length bytes - offset) + total rest

abbrev pub HasBytes : Bytes → Type 0
HasBytes bytes = 0 < length bytes

-- No frame is empty, and the first one is not written to its end.
abbrev pub IsProper : ℕ → List Bytes → Type 0
IsProper offset [] = Unit
IsProper offset (bytes ∷ rest) = (offset < length bytes) × All HasBytes rest

remain_of-zero : (frames : List Bytes) → remain_of 0 frames ≡ total frames
remain_of-zero [] = refl
remain_of-zero (b ∷ bs) = omega arith

zero-IsProper : (frames : List Bytes) → All HasBytes frames → IsProper 0 frames
zero-IsProper [] h = tt
zero-IsProper (b ∷ bs) h = h

module _ {N : Type 0} where
  -- A transfer that is in time and in order.
  abbrev pub IsDue : ℕ → Transfer N → Type 0
  IsDue time t = IsProper t.offset t.frames × (time < t.deadline)

  -- One for each transfer and one for each byte that is left.
  unfoldable pub work_of : Transfer N → ℕ
  work_of t = 1 + remain_of t.offset t.frames

  unfoldable pub work : List (Transfer N) → ℕ
  work [] = 0
  work (t ∷ ts) = work_of t + work ts

  work-append : (ts us : List (Transfer N)) → work (ts ++ us) ≡ work ts + work us
  unfolding work
  work-append [] us = omega arith
  work-append (t ∷ ts) us = omega (arith, work-append ts us)

  pub any_late-no :
      (latest : ℕ) (clock : ℕ → ℕ) (ts : List (Transfer N))
      → ((i : ℕ) → clock i ≤ latest)
      → All (IsDue latest) ts
      → any_late clock ts ≡ false
  unfolding any_late
  any_late-no latest clock [] b h = refl
  any_late-no latest clock (t ∷ ts) b ((proper, early), hs) =
      ground (arith, b 0, any_late-no latest (λ i. clock (suc i)) ts (λ i. b (suc i)) hs)

  -- Each byte that is written is work that is done.
  pub advance-work :
      (time : ℕ) (t : Transfer N) (bytes : Bytes) (rest : List Bytes) (n : ℕ)
      → t.frames ≡ bytes ∷ rest
      → IsDue time t
      → n ≤ length (piece t.offset bytes)
      → IsDue time (advance t bytes rest n) × (work_of (advance t bytes rest n) + n ≡ work_of t)
  unfolding advance work_of piece
  advance-work time t bytes rest n e (proper, early) h =
      let (inside, more) : IsProper t.offset (bytes ∷ rest) = rw e at proper in
      let room : t.offset + n ≤ length bytes =
        omega (arith, length-take 256 (drop t.offset bytes), length-drop t.offset bytes) in
      elim (Bool-cases (t.offset + n == length bytes)) [
        | inl complete ↦ rw complete (
          (zero-IsProper rest more, early),
          omega (
            arith,
            remain_of-zero rest,
            ap (remain_of t.offset) e,
            (==_iff (t.offset + n) (length bytes)).0 complete,
          ),
        )
        | inr partly ↦
            let below : t.offset + n < length bytes = ground arith in
            rw partly rw e (((below, more), early), omega arith)
      ]

  pub take_turns-work :
      (time : ℕ) (t : Transfer N) (ts : List (Transfer N))
      → IsDue time t
      → All (IsDue time) ts
      → All (IsDue time) (take_turns t ts).0 × (work (take_turns t ts).0 ≤ work_of t + work ts)
  unfolding take_turns work
  take_turns-work time t ts h hs = elim (Bool-cases (is_empty t.frames)) [
    | inl done ↦ rw done (hs, omega arith)
    | inr more ↦ elim (Bool-cases (t.offset == 0)) [
      | inl between ↦
          rw (more, between)
            (All-append (IsDue time) ts (t ∷ []) hs (h, tt), omega (arith, work-append ts (t ∷ [])))
      | inr inside ↦ rw (more, inside) ((h, hs), omega arith)
    ]
  ]

  pub take_turns-empty :
      (t : Transfer N) (ts : List (Transfer N)) → t.frames ≡ [] → (take_turns t ts).0 ≡ ts
  unfolding take_turns
  take_turns-empty t ts e = rw e refl
