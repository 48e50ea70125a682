-- ===== src/Http/Unbroken.antt =====
-- What a subscriber of `stream` and a client of `wait` of src/server.rs get, over all the rounds.
use idf_remote.Base.{
  length-append, ok_injective, err-ne-ok, ℕ, zero, suc, ◌+◌, ◌-◌, ◌≤◌, ◌≡◌, refl, sym, ap, ◌∙◌,
  arith, true, Bool-cases, inl, inr, List, [], ◌∷◌, ◌++◌, map, Bytes, length, All, eq_bytes→eq, ltb,
  Result, Result-cases, ok, err,
}
use mathlib.Core.Path.{subst}
use idf_remote.Store.Events.{
  log_gap, Event, Cursor, DeviceState, EventBatch, LogError, events_after,
}
use idf_remote.Store.Log.{IsLog, seq_of, numbers, events_after_complete, events_after-log_gap_iff}
use idf_remote.Http.Reports.{Round, Sent, event, gap, sent_batch, stream_rounds}

module _ {Value : Type 0} where
  not-gap :
      (b : EventBatch Value) → ◌≡◌ {A = Result LogError (EventBatch Value)} (err log_gap) (ok b) → ⊥
  not-gap b e = err-ne-ok e

  -- The events among what was sent.
  unfoldable pub sent_events : List (Sent Value) → List (Event Value)
  sent_events [] = []
  sent_events (event e ∷ rest) = e ∷ sent_events rest
  sent_events (gap why ∷ rest) = sent_events rest

  pub sent_events-append :
      (es : List (Event Value)) (rest : List (Sent Value))
      → sent_events (map event es ++ rest) ≡ es ++ sent_events rest
  unfolding sent_events
  sent_events-append [] rest = refl
  sent_events-append (e ∷ es) rest = ap (λ t. e ∷ t) (sent_events-append es rest)

  -- Each event has the number behind the one before it.
  abbrev pub RunsFrom : ℕ → List (Event Value) → Type 0
  RunsFrom after [] = Unit
  RunsFrom after (e ∷ es) = (e.seq ≡ suc after) × RunsFrom (suc after) es

  RunsFrom-append :
      (after : ℕ) (xs ys : List (Event Value))
      → RunsFrom after xs
      → RunsFrom (after + length xs) ys
      → RunsFrom after (xs ++ ys)
  RunsFrom-append after [] ys h k = rw (← plus_zero after) k
    where
      plus_zero : (n : ℕ) → n + 0 ≡ n
      plus_zero n = omega arith
  RunsFrom-append after (x ∷ xs) ys (h, hs) k =
      let shifted : suc after + length xs ≡ after + length (x ∷ xs) = omega arith in
      (h, RunsFrom-append (suc after) xs ys hs (rw shifted k))

  -- Events that carry the next `n` numbers.
  numbers-RunsFrom :
      (after n : ℕ) (es : List (Event Value))
      → map seq_of es ≡ numbers (suc after) n
      → RunsFrom after es × (length es ≡ n)
  numbers-RunsFrom after zero [] e = (tt, refl)
  numbers-RunsFrom after zero (x ∷ es) e = cc
  numbers-RunsFrom after (suc n) [] e = cc
  numbers-RunsFrom after (suc n) (x ∷ es) e =
      let (run, count) = numbers-RunsFrom (suc after) n es (cc) in ((cc, run), omega arith)

  -- A log as the store keeps it, with an event in it.
  pub record IsKept (encoded_len : Event Value → ℕ) (r : Round Value) : Type 0 where
    pub is_log : IsLog encoded_len r.state
    pub has_event : 1 ≤ length r.state.events

  events_after_cursor :
      (epoch : Bytes) (d : DeviceState Value) (c : Cursor) (b : EventBatch Value)
      → events_after epoch d c ≡ ok b
      → (c.epoch ≡ epoch) × (c.after ≤ d.seq)
  unfolding events_after
  events_after_cursor epoch d c b e = (eq_bytes→eq c.epoch epoch (ground arith), ground arith)

  -- A batch is the run of events behind the cursor, and the next cursor is its end.
  batch-RunsFrom :
      (encoded_len : Event Value → ℕ) (epoch : Bytes) (r : Round Value) (c : Cursor)
      (b : EventBatch Value)
      → IsKept encoded_len r
      → events_after epoch r.state c ≡ ok b
      → RunsFrom c.after b.events × (b.cursor.after ≡ c.after + length b.events)
  batch-RunsFrom encoded_len epoch r c b k e =
      let (same, known) = events_after_cursor epoch r.state c b e in
      let at_epoch =
        subst (λ run. events_after epoch r.state (record { epoch = run; after = c.after }) ≡ ok b)
          same e in
      let lost =
        (events_after-log_gap_iff encoded_len epoch r.state c.after k.is_log k.has_event known).1 in
      let kept : r.state.seq ≤ c.after + length r.state.events =
        elim (Bool-cases (ltb (c.after + length r.state.events) r.state.seq)) [
          | inl less ↦ absurd (not-gap b (sym (lost (ground arith)) ∙ at_epoch))
          | inr more ↦ ground arith
        ] in
      let (b', got, run, next, _) =
        events_after_complete encoded_len epoch r.state c.after k.is_log k.has_event known kept in
      let is : b' ≡ b = ok_injective (sym got ∙ at_epoch) in
      let (runs, count) = numbers-RunsFrom c.after (r.state.seq - c.after) b'.events run in
      let ends : b'.cursor.after ≡ c.after + length b'.events =
        omega (arith, ap (λ (x : Cursor). x.after) next) in
      subst
        (λ (x : EventBatch Value).
          RunsFrom c.after x.events × (x.cursor.after ≡ c.after + length x.events))
        is (runs, ends)

  -- Whatever rounds a subscriber of `stream` is served in, when each finds the log as the store keeps it,
  -- with an event in it, the events that are sent carry the numbers behind the cursor one after the
  -- other: none is left out, sent twice or sent out of order.
  stream_rounds-RunsFrom :
      (encoded_len : Event Value → ℕ) (epoch : Bytes) (c : Cursor) (rs : List (Round Value))
      → All (IsKept encoded_len) rs
      → RunsFrom c.after (sent_events (stream_rounds epoch c rs))
  unfolding stream_rounds sent_batch sent_events
  stream_rounds-RunsFrom encoded_len epoch c [] k = tt
  stream_rounds-RunsFrom encoded_len epoch c (r ∷ rs) (k, ks) = elim (Bool-cases r.is_running) [
    | inl up ↦ elim (Result-cases (events_after epoch r.state c)) [
      | inl (b, e) ↦
          let (runs, ends) = batch-RunsFrom encoded_len epoch r c b k e in
          rw (up, e, sent_events-append b.events)
            (RunsFrom-append c.after b.events _ runs
              (rw (← ends) (stream_rounds-RunsFrom encoded_len epoch b.cursor rs ks)))
      | inr (why, e) ↦ rw (up, e) tt
    ]
    | inr down ↦ rw down tt
  ]

  -- Rounds with the daemon running, in each of which the log still has what the reader has not seen.
  abbrev pub Follows : (Event Value → ℕ) → ℕ → List (Round Value) → Type 0
  Follows encoded_len after [] = Unit
  Follows encoded_len after (r ∷ rs) =
      IsKept encoded_len r
      × (r.is_running ≡ true)
      × (after ≤ r.state.seq)
      × (r.state.seq ≤ after + length r.state.events)
      × Follows encoded_len r.state.seq rs

  Follows-IsKept :
      (encoded_len : Event Value → ℕ) (after : ℕ) (rs : List (Round Value))
      → Follows encoded_len after rs
      → All (IsKept encoded_len) rs
  Follows-IsKept encoded_len after [] k = tt
  Follows-IsKept encoded_len after (r ∷ rs) (k, up, known, kept, ks) =
      (k, Follows-IsKept encoded_len r.state.seq rs ks)

  -- The newest number in the last round.
  abbrev pub last_seq : ℕ → List (Round Value) → ℕ
  last_seq after [] = after
  last_seq after (r ∷ rs) = last_seq r.state.seq rs

  stream_rounds-length :
      (encoded_len : Event Value → ℕ) (epoch : Bytes) (after : ℕ) (rs : List (Round Value))
      → Follows encoded_len after rs
      → after
          + length (sent_events (stream_rounds epoch (record { epoch = epoch; after = after }) rs))
        ≡ last_seq after rs
  unfolding stream_rounds sent_batch sent_events
  stream_rounds-length encoded_len epoch after [] k = omega arith
  stream_rounds-length encoded_len epoch after (r ∷ rs) (k, up, known, kept, ks) =
      let (b, got, run, next, _) =
        events_after_complete encoded_len epoch r.state after k.is_log k.has_event known kept in
      let (_, count) = numbers-RunsFrom after (r.state.seq - after) b.events run in
      let later = stream_rounds-length encoded_len epoch r.state.seq rs ks in
      rw (up, got, sent_events-append b.events, next)
        (omega (
          arith,
          later,
          length-append b.events (
              sent_events (stream_rounds epoch (record { epoch = epoch; after = r.state.seq }) rs)),
        ))

  -- A subscriber of `stream` with a cursor of this run, served in rounds in which the log still has what
  -- it has not seen, is sent every event up to the newest of the last round, each once and in order: the
  -- numbers of what is sent follow the cursor one after the other and end at that newest.
  pub stream_rounds_complete :
      (encoded_len : Event Value → ℕ) (epoch : Bytes) (after : ℕ) (rs : List (Round Value))
      → Follows encoded_len after rs
      → RunsFrom after
          (sent_events (stream_rounds epoch (record { epoch = epoch; after = after }) rs))
        × (after
              + length
                  (sent_events (stream_rounds epoch (record { epoch = epoch; after = after }) rs))
            ≡ last_seq after rs)
  stream_rounds_complete encoded_len epoch after rs k = (
    stream_rounds-RunsFrom encoded_len epoch (record { epoch = epoch; after = after }) rs
        (Follows-IsKept encoded_len after rs k),
    stream_rounds-length encoded_len epoch after rs k,
  )
