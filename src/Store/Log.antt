-- ===== src/Store/Log.antt =====
-- The event log of src/server.rs has no holes, and a reader is told when it has missed an event.
use idf_remote.Base.{
  ℕ, zero, suc, ◌+◌, ◌-◌, ◌≤◌, ◌<◌, ◌≡◌, ◌↔◌, inl, inr, refl, ◌∙◌, arith, true, ◌||◌, List, [], ◌∷◌,
  ◌++◌, map, Bytes, eq_bytes_refl, length, length-append, All, All-append, sum_by, ltb,
  if◌then◌else◌, Bool-cases, if-of_not, ok, err,
}
use native.Mathlib.Decide.{ℕ_discrete}
use idf_remote.Store.Events.{
  Event, DeviceState, EventBatch, max_events, max_event_bytes, log_gap, evict, emit, is_gap, newer,
  events_after,
}

module _ {Value : Type 0} where
  -- Each event is followed by exactly the later ones: the numbers run on to `last`.
  abbrev pub UpTo : ℕ → List (Event Value × ℕ) → Type 0
  UpTo last [] = Unit
  UpTo last ((e, size) ∷ r) = (e.seq + length r ≡ last) × UpTo last r

  abbrev pub size_of : Event Value × ℕ → ℕ
  size_of p = p.1

  abbrev pub IsMeasured : (Event Value → ℕ) → Event Value × ℕ → Type 0
  IsMeasured encoded_len p = p.1 ≡ encoded_len p.0

  -- What holds of a device's log between two critical sections.
  pub record IsLog (encoded_len : Event Value → ℕ) (d : DeviceState Value) : Type 0 where
    pub consecutive : UpTo d.seq d.events
    pub from_one : length d.events ≤ d.seq
    pub measured : All (IsMeasured encoded_len) d.events
    pub bytes_are : d.event_bytes ≡ sum_by size_of d.events
    pub few : length d.events ≤ max_events
    pub small : d.event_bytes ≤ max_event_bytes

  UpTo-snoc :
      (last : ℕ) (l : List (Event Value × ℕ)) (e : Event Value) (size : ℕ)
      → UpTo last l
      → e.seq ≡ last + 1
      → UpTo (last + 1) (l ++ (e, size) ∷ [])
  UpTo-snoc last [] e size h s = (omega arith, tt)
  UpTo-snoc last ((x, n) ∷ r) e size (h, t) s =
      (omega (arith, length-append r ((e, size) ∷ [])), UpTo-snoc last r e size t s)

  sum_by-snoc :
      (l : List (Event Value × ℕ)) (p : Event Value × ℕ)
      → sum_by size_of (l ++ p ∷ []) ≡ sum_by size_of l + p.1
  sum_by-snoc [] p = omega arith
  sum_by-snoc (x ∷ r) p = omega (arith, sum_by-snoc r p)

  -- What eviction leaves: the end of the log, within both bounds, its bytes counted.
  record IsEvicted (encoded_len : Event Value → ℕ) (last : ℕ) (l : List (Event Value × ℕ))
      (kept : List (Event Value × ℕ) × ℕ) : Type 0 where
    consecutive : UpTo last kept.0
    measured : All (IsMeasured encoded_len) kept.0
    bytes_are : kept.1 ≡ sum_by size_of kept.0
    few : length kept.0 ≤ max_events
    small : kept.1 ≤ max_event_bytes
    no_more : length kept.0 ≤ length l

  evict-IsEvicted :
      (encoded_len : Event Value → ℕ) (last : ℕ) (l : List (Event Value × ℕ)) (bytes : ℕ)
      → UpTo last l
      → All (IsMeasured encoded_len) l
      → bytes ≡ sum_by size_of l
      → IsEvicted encoded_len last l (evict l bytes)
  unfolding evict
  evict-IsEvicted encoded_len last [] bytes u m b = record {
    consecutive = tt;
    measured = tt;
    bytes_are = b;
    few = omega arith;
    small = omega arith;
    no_more = omega arith;
  }
  evict-IsEvicted encoded_len last ((e, size) ∷ r) bytes (u, us) (m, ms) b =
      let dropped = evict-IsEvicted encoded_len last r (bytes - size) us ms (omega arith) in
      elim (Bool-cases (ltb max_events (length ((e, size) ∷ r)) || ltb max_event_bytes bytes)) [
        | inl over ↦ rw over (record {
          consecutive = dropped.consecutive;
          measured = dropped.measured;
          bytes_are = dropped.bytes_are;
          few = dropped.few;
          small = dropped.small;
          no_more = omega (arith, dropped.no_more);
        })
        | inr fits ↦ rw fits (record {
          consecutive = (u, us);
          measured = (m, ms);
          bytes_are = b;
          few = ground arith;
          small = ground arith;
          no_more = omega arith;
        })
      ]

  -- The newest event is kept, if it is not too large by itself.
  evict-snoc :
      (l : List (Event Value × ℕ)) (p : Event Value × ℕ) (bytes : ℕ)
      → bytes ≡ sum_by size_of (l ++ p ∷ [])
      → p.1 ≤ max_event_bytes
      → 1 ≤ length (evict (l ++ p ∷ []) bytes).0
  unfolding evict
  evict-snoc [] (e, size) bytes b small = ground arith
  evict-snoc ((x, n) ∷ r) p bytes b small = ground (arith, evict-snoc r p (bytes - n))

  -- Reporting an event keeps the log whole: consecutive numbers up to the newest, each size counted,
  -- at most 4096 events and 4 MiB.
  pub emit-IsLog :
      (encoded_len : Event Value → ℕ) (d : DeviceState Value) (kind : Bytes) (value : Value)
      → IsLog encoded_len d
      → IsLog encoded_len (emit encoded_len d kind value)
  unfolding emit
  emit-IsLog encoded_len d kind value g =
      let e : Event Value = record { seq = d.seq + 1; kind = kind; body = value } in
      let size = encoded_len e in
      let kept =
        evict-IsEvicted encoded_len (d.seq + 1) (d.events ++ (e, size) ∷ []) (d.event_bytes + size)
          (UpTo-snoc d.seq d.events e size g.consecutive refl)
          (All-append (IsMeasured encoded_len) d.events ((e, size) ∷ []) g.measured (refl, tt))
          (omega (arith, sum_by-snoc d.events (e, size), g.bytes_are)) in
      record {
        consecutive = kept.consecutive;
        from_one = omega (arith, kept.no_more, g.from_one, length-append d.events ((e, size) ∷ []));
        measured = kept.measured;
        bytes_are = kept.bytes_are;
        few = kept.few;
        small = kept.small;
      }

  -- An event of at most 4 MiB stays in the log when it is reported, under the next number.
  pub emit_keeps :
      (encoded_len : Event Value → ℕ) (d : DeviceState Value) (kind : Bytes) (value : Value)
      → IsLog encoded_len d
      → encoded_len (record { seq = d.seq + 1; kind = kind; body = value }) ≤ max_event_bytes
      → (1 ≤ length (emit encoded_len d kind value).events)
        × ((emit encoded_len d kind value).seq ≡ d.seq + 1)
  unfolding emit
  emit_keeps encoded_len d kind value g small =
      let e : Event Value = record { seq = d.seq + 1; kind = kind; body = value } in
      let size = encoded_len e in
      (
        evict-snoc d.events (e, size) (d.event_bytes + size)
            (omega (arith, sum_by-snoc d.events (e, size), g.bytes_are)) small,
        refl,
      )

  abbrev pub seq_of : Event Value → ℕ
  seq_of e = e.seq

-- `n` numbers from `start` on.
abbrev pub numbers : ℕ → ℕ → List ℕ
numbers start zero = []
numbers start (suc n) = start ∷ numbers (suc start) n

module _ {Value : Type 0} where
  -- All events of a log are newer than what comes before its first.
  all_newer :
      (last after start : ℕ) (l : List (Event Value × ℕ))
      → UpTo last l
      → start + length l ≡ suc last
      → after < start
      → map seq_of (newer after l) ≡ numbers start (length l)
  unfolding newer
  all_newer last after start [] u s h = refl
  all_newer last after start ((e, size) ∷ r) (u, us) s h =
      let first : e.seq ≡ start = omega arith in
      ground (arith, first, all_newer last after (suc start) r us (omega arith) (omega arith))

  newer_skip :
      (after : ℕ) (e : Event Value) (size : ℕ) (r : List (Event Value × ℕ))
      → e.seq ≤ after
      → map seq_of (newer after ((e, size) ∷ r)) ≡ map seq_of (newer after r)
  unfolding newer
  newer_skip after e size r h = ground arith

  newer-numbers :
      (last after k : ℕ) (l : List (Event Value × ℕ))
      → UpTo last l
      → last ≡ after + k
      → k ≤ length l
      → map seq_of (newer after l) ≡ numbers (suc after) k
  newer-numbers last after zero [] u e h = unfold newer in refl
  newer-numbers last after (suc k) [] u e h = absurd (omega arith)
  newer-numbers last after k ((e, size) ∷ r) (u, us) s h = elim (ℕ_discrete k (suc (length r))) [
    | yes all ↦
        rw all
          (all_newer last after (suc after) ((e, size) ∷ r) (u, us) (omega arith) (omega arith))
    | no some_old ↦
        newer_skip after e size r (omega arith) ∙ newer-numbers last after k r us s (omega arith)
  ]

  is_gap_iff :
      (last after : ℕ) (l : List (Event Value × ℕ))
      → UpTo last l
      → 1 ≤ length l
      → length l ≤ last
      → (is_gap l after ≡ true) ↔ (after + length l < last)
  unfolding is_gap
  is_gap_iff last after [] u h n = absurd (omega arith)
  is_gap_iff last after ((e, size) ∷ r) (u, us) h n = ground arith

  events_after_tests :
      (epoch : Bytes) (d : DeviceState Value) (after : ℕ)
      → after ≤ d.seq
      → events_after epoch d (record { epoch = epoch; after = after }) ≡ (
          if is_gap d.events after
          then err log_gap
          else ok (record {
            cursor = record { epoch = epoch; after = d.seq };
            events = newer after d.events;
            device_status = d.status;
          }))
  unfolding events_after
  events_after_tests epoch d after h = ground (arith, eq_bytes_refl epoch)

  -- Of a log that holds an event, a reader with a cursor of this run that is not ahead of the device is
  -- told of a gap, and gets nothing, exactly when an event
  -- behind its cursor is gone from the log.
  pub events_after-log_gap_iff :
      (encoded_len : Event Value → ℕ) (epoch : Bytes) (d : DeviceState Value) (after : ℕ)
      → IsLog encoded_len d
      → 1 ≤ length d.events
      → after ≤ d.seq
      → (events_after epoch d (record { epoch = epoch; after = after }) ≡ err log_gap)
        ↔ (after + length d.events < d.seq)
  events_after-log_gap_iff encoded_len epoch d after g some_events h =
      let gap = is_gap_iff d.seq after d.events g.consecutive some_events g.from_one in
      let tests = events_after_tests epoch d after h in
      (λ e. gap.0 (ground arith), λ lost. ground (arith, gap.1 lost))

  -- Of a log that holds an event, a reader with a cursor of this run that is not ahead of the device, and
  -- behind which no event is gone from the log, gets every event
  -- behind its cursor, in order and without a hole, the number of the newest as its next cursor, and the
  -- device's status.
  pub events_after_complete :
      (encoded_len : Event Value → ℕ) (epoch : Bytes) (d : DeviceState Value) (after : ℕ)
      → IsLog encoded_len d
      → 1 ≤ length d.events
      → after ≤ d.seq
      → d.seq ≤ after + length d.events
      → (b : EventBatch Value) × (events_after epoch d (record { epoch = epoch; after = after })
          ≡ ok b)
        × (map seq_of b.events ≡ numbers (suc after) (d.seq - after))
        × (b.cursor ≡ record { epoch = epoch; after = d.seq })
        × (b.device_status ≡ d.status)
  events_after_complete encoded_len epoch d after g some_events h kept =
      let gap = is_gap_iff d.seq after d.events g.consecutive some_events g.from_one in
      let tests = events_after_tests epoch d after h in
      (
        record {
          cursor = record { epoch = epoch; after = d.seq };
          events = newer after d.events;
          device_status = d.status;
        },
        tests ∙ if-of_not (is_gap d.events after) _ _ (λ e. absurd (omega (arith, gap.0 e))),
        newer-numbers d.seq after (d.seq - after) d.events g.consecutive (omega arith)
            (omega arith),
        refl,
        refl,
      )
