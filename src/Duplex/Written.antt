-- ===== src/Duplex/Written.antt =====
-- What the scheduler of src/duplex.rs has written since the stream was opened.
use idf_remote.Base.{
  ℕ, zero, suc, ◌≤◌, ◌≡◌, inl, inr, refl, sym, ap, ◌∙◌, arith, List, [], ◌∷◌, ◌++◌, append-nil, All,
  Bytes, err, ok, Bool-cases, length, take,
}
use idf_remote.Application.Send.{join}
use idf_remote.Duplex.State.{Transfer, Duplex, DuplexError}
use idf_remote.Duplex.Steps.{
  wrote, Ended, any_late, piece, offered, offered_of, expire, expire_pending, take_turns, advance,
  and_expire, on_write, tick_frames, tick_front, tick,
}
use idf_remote.Duplex.Turns.{
  IsUnit, IsOrderly, partial, partial_of, take_turns-IsOrderly, advance-partial,
}

pub take-nil : (n : ℕ) → take {A = ℕ} n [] ≡ []
take-nil zero = refl
take-nil (suc n) = refl

pub expire-tx : {N : Type 0} (d : Duplex N) (time : ℕ) → (expire d time).0.tx ≡ d.tx
unfolding expire expire_pending
expire-tx d time = ground arith

pub and_expire-tx :
    {N : Type 0} (d : Duplex N) (time : ℕ) (tx : List (Transfer N)) (done : Ended N)
    → (and_expire d time (tx, done)).0.tx ≡ tx
unfolding and_expire
and_expire-tx d time tx done = expire-tx (record d { tx = tx }) time

module _ (inputs : List Bytes) where
  -- The queue after a step that writes some bytes: whole frames have left it, and the rest of the bytes is a
  -- part of the frame in front.
  abbrev pub IsStep : {N : Type 0} → List (Transfer N) → Bytes → List (Transfer N) → Type 0
  IsStep tx bytes tx' =
      IsOrderly inputs tx'
      × ((finished : List Bytes) × All (IsUnit inputs) finished
          × (partial tx ++ bytes ≡ join finished ++ partial tx'))

  on_write-IsStep :
      {N : Type 0} (d : Duplex N) (time : ℕ) (t : Transfer N) (ts : List (Transfer N))
      (bytes : Bytes) (rest : List Bytes) (n : ℕ) (done : Ended N)
      → t.frames ≡ bytes ∷ rest
      → IsOrderly inputs (t ∷ ts)
      → n ≤ length (piece t.offset bytes)
      → (on_write d time t ts bytes rest (wrote n)).1 ≡ ok done
      → IsStep
          (t ∷ ts)
          (take n (piece t.offset bytes))
          (on_write d time t ts bytes rest (wrote n)).0.tx
  unfolding on_write IsOrderly partial
  on_write-IsStep d time t ts bytes rest zero done e o h ran = cc
  on_write-IsStep d time t ts bytes rest (suc n) done e o h ran =
      let (u, us, hs) = o in
      let t' = advance t bytes rest (suc n) in
      let (u', (finished, whole, split)) = advance-partial inputs t bytes rest (suc n) e u h in
      let (o', same) = take_turns-IsOrderly inputs t' ts u' us hs in
      let turn = take_turns t' ts in
      let front : partial (t ∷ ts) ++ take (suc n) (piece t.offset bytes)
          ≡ take t.offset bytes ++ take (suc n) (piece t.offset bytes) =
        ap (λ (fs : List Bytes). partial_of t.offset fs ++ take (suc n) (piece t.offset bytes)) e
        ∙ unfold partial_of in refl in
      rw (and_expire-tx d time turn.0 turn.1)
        (o', (finished, whole, front ∙ split ∙ ap (λ (l : Bytes). join finished ++ l) (sym same)))

  tick_frames-IsStep :
      {N : Type 0} (d : Duplex N) (time : ℕ) (t : Transfer N) (ts : List (Transfer N))
      (frames : List Bytes) (n : ℕ) (done : Ended N)
      → t.frames ≡ frames
      → IsOrderly inputs (t ∷ ts)
      → n ≤ length (offered_of t.offset frames)
      → (tick_frames d time (wrote n) t ts frames).1 ≡ ok done
      → IsStep
          (t ∷ ts)
          (take n (offered_of t.offset frames))
          (tick_frames d time (wrote n) t ts frames).0.tx
  unfolding tick_frames offered_of IsOrderly partial join
  tick_frames-IsStep d time t ts [] n done e (u, us, hs) h ran =
      let (o', same) = take_turns-IsOrderly inputs t ts u us hs in
      let turn = take_turns t ts in
      rw (and_expire-tx d time turn.0 turn.1)
        (o', ([], tt, rw (take-nil n, same) (append-nil (partial_of t.offset t.frames))))
  tick_frames-IsStep d time t ts (bytes ∷ rest) n done e o h ran =
      on_write-IsStep d time t ts bytes rest n done e o h ran

  tick_front-IsStep :
      {N : Type 0} (d : Duplex N) (time : ℕ) (tx : List (Transfer N)) (n : ℕ) (done : Ended N)
      → IsOrderly inputs tx
      → n ≤ length (offered tx)
      → (tick_front d time (wrote n) tx).1 ≡ ok done
      → IsStep tx (take n (offered tx)) (tick_front d time (wrote n) tx).0.tx
  unfolding tick_front offered partial join
  tick_front-IsStep d time [] n done o h ran =
      rw (and_expire-tx d time [] []) (o, ([], tt, rw (take-nil n) refl))
  tick_front-IsStep d time (t ∷ ts) n done o h ran =
      tick_frames-IsStep d time t ts t.frames n done refl o h ran

  pub tick-IsStep :
      {N : Type 0} (d : Duplex N) (clock : ℕ → ℕ) (time n : ℕ) (done : Ended N)
      → IsOrderly inputs d.tx
      → n ≤ length (offered d.tx)
      → (tick d clock time (wrote n)).1 ≡ ok done
      → IsStep d.tx (take n (offered d.tx)) (tick d clock time (wrote n)).0.tx
  unfolding tick
  tick-IsStep d clock time n done o h ran = elim (Bool-cases (any_late clock d.tx)) [
    | inl late ↦ absurd (impossible (rw late at ran))
    | inr early ↦ rw early (tick_front-IsStep d time d.tx n done o h (rw early at ran))
  ]
    where
      impossible : err DuplexError.write_late ≡ ok done → ⊥
      impossible p = cc
