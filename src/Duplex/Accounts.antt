-- ===== src/Duplex/Accounts.antt =====
-- Everything that src/duplex.rs has taken on and not ended, counted by key and lane.
use idf_remote.Base.{
  ℕ, zero, suc, ◌+◌, ◌≡◌, refl, ap, leb, Bool-cases, arith, Bool, true, false, List, [], ◌∷◌, ◌++◌,
  Option, none, some, inl, inr, Option-cases, Bytes, Result, err, ok,
}
use idf_remote.Store.Completion.{Lane, application, input}
use idf_remote.Duplex.State.{Pending, Transfer, Duplex, DuplexError}
use idf_remote.Duplex.Steps.{
  completion_in, abort_in, Write, wrote, passing, failing, any_late, Ended, expire_pending, expire,
  completion_of, advance, take_turns, and_expire, on_write, tick_frames, tick_front, tick, abort_tx,
  abort_pending, abort,
}

abbrev pub bit : Bool → ℕ
bit true = 1
bit false = 0

-- A choice of keys, each with its lane.
abbrev pub Choice : Type 0
Choice = Bytes → Lane → Bool

-- The transfers of the input lane; the other lane counts what is pending.
abbrev pub count_one : Choice → Bytes → Lane → ℕ
count_one p key application = 0
count_one p key input = bit (p key input)

abbrev pub count_pending : Choice → Option Pending → ℕ
count_pending p none = 0
count_pending p (some w) = bit (p w.key application)

expire-none : {N : Type 0} (d : Duplex N) (time : ℕ) → d.pending ≡ none → expire d time ≡ (d, [])
unfolding expire
expire-none d time e = rw e refl

expire-some :
    {N : Type 0} (d : Duplex N) (time : ℕ) (w : Pending)
    → d.pending ≡ some w
    → expire d time ≡ expire_pending d time w
unfolding expire
expire-some d time w e = rw e refl

module _ {N : Type 0} (p : Choice) where
  unfoldable pub count_tx : List (Transfer N) → ℕ
  count_tx [] = 0
  count_tx (t ∷ ts) = count_one p t.key t.lane + count_tx ts

  unfoldable pub count_open : Duplex N → ℕ
  count_open d = count_pending p d.pending + count_tx d.tx

  unfoldable pub count_done : Ended N → ℕ
  count_done [] = 0
  count_done (c ∷ cs) = bit (p c.key c.lane) + count_done cs

  pub count_tx-append :
      (ts us : List (Transfer N)) → count_tx (ts ++ us) ≡ count_tx ts + count_tx us
  unfolding count_tx
  count_tx-append [] us = omega arith
  count_tx-append (t ∷ ts) us = omega (arith, count_tx-append ts us)

  pub count_done-append : (cs es : Ended N) → count_done (cs ++ es) ≡ count_done cs + count_done es
  unfolding count_done
  count_done-append [] es = omega arith
  count_done-append (c ∷ cs) es = omega (arith, count_done-append cs es)

  completion_in-count :
      (t : Transfer N) (lane : Lane) → count_done (completion_in t lane) ≡ count_one p t.key lane
  unfolding completion_in count_done
  completion_in-count t application = refl
  completion_in-count t input = omega arith

  completion_of-count : (t : Transfer N) → count_done (completion_of t) ≡ count_one p t.key t.lane
  unfolding completion_of
  completion_of-count t = completion_in-count t t.lane

  take_turns-count :
      (t : Transfer N) (ts : List (Transfer N))
      → count_tx (take_turns t ts).0 + count_done (take_turns t ts).1
        ≡ count_one p t.key t.lane + count_tx ts
  unfolding take_turns count_tx count_done
  take_turns-count t ts = ground (arith, completion_of-count t, count_tx-append ts (t ∷ []))

  advance-same :
      (t : Transfer N) (bytes : Bytes) (rest : List Bytes) (n : ℕ)
      → ((advance t bytes rest n).key ≡ t.key) × ((advance t bytes rest n).lane ≡ t.lane)
  unfolding advance
  advance-same t bytes rest n = ground arith

  advance-count :
      (t : Transfer N) (bytes : Bytes) (rest : List Bytes) (n : ℕ)
      → count_one p (advance t bytes rest n).key (advance t bytes rest n).lane
        ≡ count_one p t.key t.lane
  advance-count t bytes rest n =
      let (key, lane) = advance-same t bytes rest n in rw (key, lane) refl

  -- An error ends nothing.
  abbrev pub count_outcome : Result DuplexError (Ended N) → ℕ
  count_outcome (err why) = 0
  count_outcome (ok done) = count_done done

  expire_pending-count :
      (d : Duplex N) (time : ℕ) (w : Pending)
      → d.pending ≡ some w
      → count_open (expire_pending d time w).0 + count_done (expire_pending d time w).1
        ≡ count_open d
  unfolding expire_pending count_open count_done
  expire_pending-count d time w e = elim (Bool-cases (leb w.deadline time)) [
    | inl late ↦ rw (e, late) (omega arith)
    | inr early ↦ rw (e, early) (omega arith)
  ]

  pub expire-count :
      (d : Duplex N) (time : ℕ)
      → count_open (expire d time).0 + count_done (expire d time).1 ≡ count_open d
  unfolding expire count_done
  expire-count d time = elim (Option-cases d.pending) [
    | inl e ↦ rw (expire-none d time e) (omega arith)
    | inr (w, e) ↦ rw (expire-some d time w e) (expire_pending-count d time w e)
  ]

  and_expire-count :
      (d : Duplex N) (time : ℕ) (tx : List (Transfer N)) (done : Ended N)
      → count_open (and_expire d time (tx, done)).0 + count_outcome (and_expire d time (tx, done)).1
        ≡ count_pending p d.pending + (count_tx tx + count_done done)
  unfolding and_expire count_open
  and_expire-count d time tx done =
      let d' = record d { tx = tx } in
      omega (arith, expire-count d' time, count_done-append done (expire d' time).1)

  on_write-count :
      (d : Duplex N) (time : ℕ) (t : Transfer N) (ts : List (Transfer N)) (bytes : Bytes)
      (rest : List Bytes) (outcome : Write)
      → d.tx ≡ t ∷ ts
      → count_open (on_write d time t ts bytes rest outcome).0
          + count_outcome (on_write d time t ts bytes rest outcome).1
        ≡ count_open d
  unfolding on_write count_open count_tx
  on_write-count d time t ts bytes rest (wrote zero) e = omega arith
  on_write-count d time t ts bytes rest (wrote (suc n)) e =
      let t' = advance t bytes rest (suc n) in
      let turn = take_turns t' ts in
      omega (
        arith,
        and_expire-count d time turn.0 turn.1,
        take_turns-count t' ts,
        advance-count t bytes rest (suc n),
        ap count_tx e,
      )
  on_write-count d time t ts bytes rest passing e = expire-count d time
  on_write-count d time t ts bytes rest failing e = omega arith

  tick_frames-count :
      (d : Duplex N) (time : ℕ) (outcome : Write) (t : Transfer N) (ts : List (Transfer N))
      (frames : List Bytes)
      → d.tx ≡ t ∷ ts
      → count_open (tick_frames d time outcome t ts frames).0
          + count_outcome (tick_frames d time outcome t ts frames).1
        ≡ count_open d
  unfolding tick_frames count_open count_tx
  tick_frames-count d time outcome t ts [] e =
      let turn = take_turns t ts in
      omega (arith, and_expire-count d time turn.0 turn.1, take_turns-count t ts, ap count_tx e)
  tick_frames-count d time outcome t ts (bytes ∷ rest) e =
      on_write-count d time t ts bytes rest outcome e

  tick_front-count :
      (d : Duplex N) (time : ℕ) (outcome : Write) (tx : List (Transfer N))
      → d.tx ≡ tx
      → count_open (tick_front d time outcome tx).0 + count_outcome (tick_front d time outcome tx).1
        ≡ count_open d
  unfolding tick_front count_open count_tx count_done
  tick_front-count d time outcome [] e = omega (arith, and_expire-count d time [] [], ap count_tx e)
  tick_front-count d time outcome (t ∷ ts) e = tick_frames-count d time outcome t ts t.frames e

  pub tick-count :
      (d : Duplex N) (clock : ℕ → ℕ) (time : ℕ) (outcome : Write)
      → count_open (tick d clock time outcome).0 + count_outcome (tick d clock time outcome).1
        ≡ count_open d
  unfolding tick
  tick-count d clock time outcome = elim (Bool-cases (any_late clock d.tx)) [
    | inl late ↦ rw late (omega arith)
    | inr early ↦ rw early (tick_front-count d time outcome d.tx refl)
  ]

  abort_in-count :
      (key reason : Bytes) (lane : Lane) (rest : Ended N)
      → count_done (abort_in key reason lane rest) ≡ count_one p key lane + count_done rest
  unfolding abort_in count_done
  abort_in-count key reason application rest = omega arith
  abort_in-count key reason input rest = refl

  abort_tx-count :
      (ts : List (Transfer N)) (reason : Bytes) → count_done (abort_tx ts reason) ≡ count_tx ts
  unfolding abort_tx count_tx count_done
  abort_tx-count [] reason = refl
  abort_tx-count (t ∷ ts) reason =
      omega
        (arith, abort_tx-count ts reason, abort_in-count t.key reason t.lane (abort_tx ts reason))

  abort_all-count :
      (o : Option Pending) (ts : List (Transfer N)) (reason : Bytes)
      → count_done (abort_pending o reason ++ abort_tx ts reason) ≡ count_pending p o + count_tx ts
  unfolding abort_pending count_done
  abort_all-count none ts reason = omega (arith, abort_tx-count ts reason)
  abort_all-count (some w) ts reason = omega (arith, abort_tx-count ts reason)

  pub abort-count : (d : Duplex N) (reason : Bytes) → count_done (abort d reason).1 ≡ count_open d
  unfolding abort count_open
  abort-count d reason = abort_all-count d.pending d.tx reason
