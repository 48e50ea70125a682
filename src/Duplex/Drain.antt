-- ===== src/Duplex/Drain.antt =====
-- Ticks of src/duplex.rs in a row on a stream that takes bytes.
use idf_remote.Base.{
  ℕ, zero, suc, ◌+◌, ◌≤◌, ◌<◌, ◌≡◌, inl, inr, refl, arith, true, false, List, [], ◌∷◌, ◌++◌, All,
  Bytes, length, length-take, length-drop, is_empty, drop, Result, err, ok, if◌then◌else◌,
  Bool-cases,
}
use idf_remote.Duplex.State.{Transfer, Duplex, DuplexError}
use idf_remote.Duplex.Steps.{
  wrote, Ended, piece, offered, offered_of, advance, take_turns, and_expire, on_write, tick_frames,
  tick_front, tick,
}
use idf_remote.Duplex.Accounts.{
  Choice, count_pending, count_tx, count_open, count_done, count_done-append, tick-count,
}
use idf_remote.Duplex.Written.{and_expire-tx}
use idf_remote.Duplex.Progress.{
  IsProper, IsDue, work, work_of, any_late-no, advance-work, take_turns-work, take_turns-empty,
}

piece-nonempty :
    (offset : ℕ) (bytes : Bytes) → offset < length bytes → 0 < length (piece offset bytes)
unfolding piece
piece-nonempty offset bytes h =
    omega (arith, length-take 256 (drop offset bytes), length-drop offset bytes)

is_empty-nil : {A : Type 0} (xs : List A) → is_empty xs ≡ true → xs ≡ []
is_empty-nil [] h = refl
is_empty-nil (x ∷ xs) h = cc

no_work : {N : Type 0} (ts : List (Transfer N)) → work ts ≤ 0 → ts ≡ []
unfolding work work_of
no_work [] h = refl
no_work (t ∷ ts) h = absurd (omega arith)

-- What the turns meet, each by the count of turns behind it: the readings of the clock, and how many
-- of `k` bytes the stream takes.
pub record Turns : Type 0 where
  pub clock : ℕ → ℕ → ℕ
  pub ticked : ℕ → ℕ
  pub give : ℕ → ℕ → ℕ

module _ {N : Type 0} where
  -- A tick that ends well, with less to do after it.
  abbrev IsProgress : ℕ → List (Transfer N) → Duplex N × Result DuplexError (Ended N) → Type 0
  IsProgress time tx (d, result) =
      ((done : Ended N) × (result ≡ ok done)) × (All (IsDue time) d.tx × (work d.tx < work tx))

  and_expire-ok :
      (d : Duplex N) (time : ℕ) (tx : List (Transfer N)) (ended : Ended N)
      → (done : Ended N) × ((and_expire d time (tx, ended)).1 ≡ ok done)
  unfolding and_expire
  and_expire-ok d time tx ended = (_, refl)

  on_write-IsProgress :
      (latest time : ℕ) (d : Duplex N) (t : Transfer N) (ts : List (Transfer N)) (bytes : Bytes)
      (rest : List Bytes) (n : ℕ)
      → t.frames ≡ bytes ∷ rest
      → All (IsDue latest) (t ∷ ts)
      → 0 < n
      → n ≤ length (piece t.offset bytes)
      → IsProgress latest (t ∷ ts) (on_write d time t ts bytes rest (wrote n))
  unfolding on_write work
  on_write-IsProgress latest time d t ts bytes rest zero e (h, hs) pos fits = absurd (omega arith)
  on_write-IsProgress latest time d t ts bytes rest (suc n) e (h, hs) pos fits =
      let t' = advance t bytes rest (suc n) in
      let (h', done) = advance-work latest t bytes rest (suc n) e h fits in
      let (all, less) = take_turns-work latest t' ts h' hs in
      let turn = take_turns t' ts in
      (
        and_expire-ok d time turn.0 turn.1,
        rw (and_expire-tx d time turn.0 turn.1) (all, omega arith),
      )

  module _ (give : ℕ → ℕ) (latest time : ℕ) where
    tick_frames-IsProgress :
        (accepts : (k : ℕ) → 0 < k → (0 < give k) × (give k ≤ k)) (d : Duplex N) (t : Transfer N)
        (ts : List (Transfer N)) (frames : List Bytes)
        → t.frames ≡ frames
        → All (IsDue latest) (t ∷ ts)
        → IsProgress latest
            (t ∷ ts)
            (tick_frames d time (wrote (give (length (offered_of t.offset frames)))) t ts frames)
    unfolding tick_frames offered_of work work_of
    tick_frames-IsProgress accepts d t ts [] e (h, hs) =
        let turn = take_turns t ts in
        (
          and_expire-ok d time turn.0 turn.1,
          rw (and_expire-tx d time turn.0 turn.1, take_turns-empty t ts e) (hs, omega arith),
        )
    tick_frames-IsProgress accepts d t ts (bytes ∷ rest) e ((proper, early), hs) =
        let (inside, more) : IsProper t.offset (bytes ∷ rest) = rw e at proper in
        let (pos, fits) =
          accepts (length (piece t.offset bytes)) (piece-nonempty t.offset bytes inside) in
        on_write-IsProgress latest time d t ts bytes rest _ e ((proper, early), hs) pos fits

    tick_front-IsProgress :
        (accepts : (k : ℕ) → 0 < k → (0 < give k) × (give k ≤ k)) (d : Duplex N)
        (tx : List (Transfer N))
        → is_empty tx ≡ false
        → All (IsDue latest) tx
        → IsProgress latest tx (tick_front d time (wrote (give (length (offered tx)))) tx)
    unfolding tick_front offered
    tick_front-IsProgress accepts d [] e h = cc
    tick_front-IsProgress accepts d (t ∷ ts) e h =
        tick_frames-IsProgress accepts d t ts t.frames refl h

    tick-IsProgress :
        (accepts : (k : ℕ) → 0 < k → (0 < give k) × (give k ≤ k)) (clock : ℕ → ℕ) (d : Duplex N)
        → ((i : ℕ) → clock i ≤ latest)
        → is_empty d.tx ≡ false
        → All (IsDue latest) d.tx
        → IsProgress latest d.tx (tick d clock time (wrote (give (length (offered d.tx)))))
    unfolding tick
    tick-IsProgress accepts clock d b e h =
        rw (any_late-no latest clock d.tx b h) (tick_front-IsProgress accepts d d.tx e h)

  -- The rest of the turns, after one that ended well.
  unfoldable pub joined :
      Duplex N
      → Result DuplexError (Ended N)
      → Duplex N × Result DuplexError (Ended N)
      → Duplex N × Result DuplexError (Ended N)
  joined d' (err why) rest = (d', err why)
  joined d' (ok done) (d'', err why) = (d'', err why)
  joined d' (ok done) (d'', ok more) = (d'', ok (done ++ more))

  -- One turn of `tick`.
  abbrev pub turn : ℕ → Turns → Duplex N → Duplex N × Result DuplexError (Ended N)
  turn i w d = tick d (w.clock i) (w.ticked i) (wrote (w.give i (length (offered d.tx))))

  -- Turns until the queue is empty.
  unfoldable pub drain : ℕ → Turns → Duplex N → Duplex N × Result DuplexError (Ended N)
  drain zero w d = (d, ok [])
  drain (suc fuel) w d =
      let ticked = turn fuel w d in
      let rest = drain fuel w ticked.0 in
      if is_empty d.tx then (d, ok []) else joined ticked.0 ticked.1 rest

  -- The queue is empty, and all that was open in it has ended, but for a request that waits for its reply.
  abbrev pub IsDrained : Duplex N → Duplex N × Result DuplexError (Ended N) → Choice → Type 0
  IsDrained d after p =
      (done : Ended N) × (after.1 ≡ ok done)
      × (after.0.tx ≡ [])
      × (count_open p d ≡ count_done p done + count_pending p after.0.pending)

  joined-IsDrained :
      (p : Choice) (d d' : Duplex N) (ticked : Result DuplexError (Ended N)) (first : Ended N)
      (rest : Duplex N × Result DuplexError (Ended N))
      → ticked ≡ ok first
      → count_open p d' + count_done p first ≡ count_open p d
      → IsDrained d' rest p
      → IsDrained d (joined d' ticked rest) p
  unfolding joined
  joined-IsDrained p d d' (err why) first rest e c r = cc
  joined-IsDrained p d d' (ok done) first (d'', err why) e c (more, ran, empty, count) = cc
  joined-IsDrained p d d' (ok done) first (d'', ok last) e c (more, ran, empty, count) =
      let same : done ≡ first = cc in
      let also : last ≡ more = cc in
      (
        done ++ last,
        refl,
        empty,
        rw (same, also) (omega (arith, c, count, count_done-append p first more)),
      )

  nothing_open :
      (p : Choice) (d : Duplex N) → d.tx ≡ [] → count_open p d ≡ 0 + count_pending p d.pending
  unfolding count_open count_tx
  nothing_open p d e = rw e (omega arith)

  -- When no frame in the queue is empty, and none in front of its transfer is written to its end, then on
  -- a stream that takes at least one byte at each write, and while no deadline of the queue passes, as
  -- many turns as there are bytes and transfers in the queue empty it, with no error, whatever the lengths
  -- of the frames, the readings of the clock and the counts that the writes return, which may be another
  -- at each turn; and every input and request that was open has ended in them, but for a request that
  -- waits for its reply.
  pub drain-IsDrained :
      (w : Turns) (latest : ℕ) (in_time : (i j : ℕ) → w.clock i j ≤ latest)
      (accepts : (i k : ℕ) → 0 < k → (0 < w.give i k) × (w.give i k ≤ k)) (p : Choice) (fuel : ℕ)
      (d : Duplex N)
      → All (IsDue latest) d.tx
      → work d.tx ≤ fuel
      → IsDrained d (drain fuel w d) p
  unfolding drain count_done
  drain-IsDrained w latest in_time accepts p zero d due enough =
      let empty : d.tx ≡ [] = no_work d.tx enough in ([], refl, empty, nothing_open p d empty)
  drain-IsDrained w latest in_time accepts p (suc fuel) d due enough =
      elim (Bool-cases (is_empty d.tx)) [
        | inl e ↦ rw e ([], refl, is_empty-nil d.tx e, nothing_open p d (is_empty-nil d.tx e))
        | inr e ↦
            let ((done, ran), (due', less)) =
              tick-IsProgress (w.give fuel) latest (w.ticked fuel) (accepts fuel) (w.clock fuel) d
                (in_time fuel) e due in
            let ticked = turn fuel w d in
            let counted =
              tick-count p d (w.clock fuel) (w.ticked fuel)
                (wrote (w.give fuel (length (offered d.tx)))) in
            rw e (
              joined-IsDrained p d ticked.0 ticked.1 done _ ran (rw ran at counted)
                (drain-IsDrained w latest in_time accepts p fuel ticked.0 due' (omega arith)))
      ]
