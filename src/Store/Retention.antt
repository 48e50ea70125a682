-- ===== src/Store/Retention.antt =====
-- Which operations src/server.rs keeps: `push_operation` keeps the running ones and bounds the others,
-- and an idempotency key that is stored has its operation.
use idf_remote.Base.{
  ℕ, zero, suc, ◌+◌, ◌≤◌, ◌<◌, ◌≡◌, ◌≢◌, refl, ◌∙◌, arith, true, ◌⊎◌, inl, inr, List, [], ◌∷◌, ◌++◌,
  some, none, Bytes, eq_bytes, eq_bytes_refl, length, ltb, if◌then◌else◌, Bool-cases, Option-cases,
  ok, err,
}
use idf_remote.Base.Text.{remove-some}
use idf_remote.Store.Operations.{
  Operation, IdempotencyRecord, RequestIdentity, Store, key_conflict, retention, is_running,
  count_finished, oldest_finished, without_oldest, expire_one, expire, push_operation,
  find_operation, replay_record, replay,
}

module _ {Value : Type 0} where
  -- The operations in flight.
  abbrev pub in_flight : List (Operation Value) → List (Operation Value)
  in_flight [] = []
  in_flight (op ∷ ops) = if is_running op then op ∷ in_flight ops else in_flight ops

  -- A stored key leads to an operation that was submitted under it.
  abbrev pub IsRetained : Store Value → Type 0
  IsRetained s =
      (k : Bytes) (r : IdempotencyRecord)
      → s.idempotency k ≡ some r
      → (op : Operation Value) × (find_operation r.operation_id s.operations ≡ some op)
        × (op.request_key ≡ k)

  count_finished-le-length : (l : List (Operation Value)) → count_finished l ≤ length l
  unfolding count_finished
  count_finished-le-length [] = omega arith
  count_finished-le-length (op ∷ ops) = ground (arith, count_finished-le-length ops)

  count_finished-append :
      (l r : List (Operation Value)) → count_finished (l ++ r) ≡ count_finished l + count_finished r
  unfolding count_finished
  count_finished-append [] r = omega arith
  count_finished-append (op ∷ ops) r = ground (arith, count_finished-append ops r)

  count_finished-without_oldest :
      (l : List (Operation Value))
      → 1 ≤ count_finished l
      → suc (count_finished (without_oldest l)) ≡ count_finished l
  unfolding count_finished without_oldest
  count_finished-without_oldest [] h = absurd (omega arith)
  count_finished-without_oldest (op ∷ ops) h = ground (arith, count_finished-without_oldest ops)

  in_flight-without_oldest :
      (l : List (Operation Value)) → in_flight (without_oldest l) ≡ in_flight l
  unfolding without_oldest
  in_flight-without_oldest [] = refl
  in_flight-without_oldest (op ∷ ops) = ground (arith, in_flight-without_oldest ops)

  in_flight-append :
      (l r : List (Operation Value)) → in_flight (l ++ r) ≡ in_flight l ++ in_flight r
  in_flight-append [] r = refl
  in_flight-append (op ∷ ops) r = ground (arith, in_flight-append ops r)

  oldest_finished-none :
      (l : List (Operation Value)) → oldest_finished l ≡ none → count_finished l ≡ 0
  unfolding oldest_finished count_finished
  oldest_finished-none [] h = refl
  oldest_finished-none (op ∷ ops) h = ground (arith, oldest_finished-none ops)

  -- What is found under a name is found without the oldest, if it is not that one.
  find_operation-without_oldest :
      (id : Bytes) (l : List (Operation Value)) (op old : Operation Value)
      → find_operation id l ≡ some op
      → oldest_finished l ≡ some old
      → op.request_key ≢ old.request_key
      → find_operation id (without_oldest l) ≡ some op
  unfolding find_operation oldest_finished without_oldest
  find_operation-without_oldest id [] op old f o ne = f
  find_operation-without_oldest id (x ∷ xs) op old f o ne =
      ground (arith, find_operation-without_oldest id xs op old)

  expire_one-IsRetained :
      (s : Store Value) → IsRetained s → IsRetained (expire_one s (oldest_finished s.operations))
  unfolding expire_one
  expire_one-IsRetained s h = elim (Option-cases (oldest_finished s.operations)) [
    | inl e ↦ rw e h
    | inr (old, e) ↦ rw e (λ k r found.
        let (there, other) = remove-some s.idempotency old.request_key k r found in
        let (op, f, key) = h k r there in
        (
          op,
          find_operation-without_oldest r.operation_id s.operations op old f e
              (λ same. absurd (ground (arith, eq_bytes_refl k))),
          key,
        ))
  ]

  pub expire-IsRetained : (fuel : ℕ) (s : Store Value) → IsRetained s → IsRetained (expire fuel s)
  unfolding expire
  expire-IsRetained zero s h = h
  expire-IsRetained (suc fuel) s h =
      elim (Bool-cases (ltb (count_finished s.operations) retention)) [
        | inl few ↦ rw few h
        | inr many ↦ rw many (expire-IsRetained fuel _ (expire_one-IsRetained s h))
      ]

  -- What `expire` does not change.
  pub record IsKept (s s' : Store Value) : Type 0 where
    pub same_epoch : s'.epoch ≡ s.epoch
    pub same_devices : s'.devices ≡ s.devices
    pub same_in_flight : in_flight s'.operations ≡ in_flight s.operations

  expire_one-IsKept : (s : Store Value) → IsKept s (expire_one s (oldest_finished s.operations))
  unfolding expire_one
  expire_one-IsKept s = elim (Option-cases (oldest_finished s.operations)) [
    | inl e ↦ rw e (record { same_epoch = refl; same_devices = refl; same_in_flight = refl })
    | inr (old, e) ↦ rw e (record {
      same_epoch = refl;
      same_devices = refl;
      same_in_flight = in_flight-without_oldest s.operations;
    })
  ]

  pub expire-IsKept : (fuel : ℕ) (s : Store Value) → IsKept s (expire fuel s)
  unfolding expire
  expire-IsKept zero s = record { same_epoch = refl; same_devices = refl; same_in_flight = refl }
  expire-IsKept (suc fuel) s = elim (Bool-cases (ltb (count_finished s.operations) retention)) [
    | inl few ↦ rw few (record { same_epoch = refl; same_devices = refl; same_in_flight = refl })
    | inr many ↦
        let one = expire_one-IsKept s in
        let rest = expire-IsKept fuel (expire_one s (oldest_finished s.operations)) in
        rw many (record {
          same_epoch = rest.same_epoch ∙ one.same_epoch;
          same_devices = rest.same_devices ∙ one.same_devices;
          same_in_flight = rest.same_in_flight ∙ one.same_in_flight;
        })
  ]

  expire_one-count :
      (s : Store Value)
      → 1 ≤ count_finished s.operations
      → suc (count_finished (expire_one s (oldest_finished s.operations)).operations)
        ≡ count_finished s.operations
  unfolding expire_one
  expire_one-count s h = elim (Option-cases (oldest_finished s.operations)) [
    | inl e ↦ absurd (omega (arith, oldest_finished-none s.operations e))
    | inr (old, e) ↦ rw e (count_finished-without_oldest s.operations h)
  ]

  expire_few :
      (fuel : ℕ) (s : Store Value)
      → count_finished s.operations ≤ fuel
      → count_finished (expire fuel s).operations < retention
  unfolding expire
  expire_few zero s h = omega arith
  expire_few (suc fuel) s h = elim (Bool-cases (ltb (count_finished s.operations) retention)) [
    | inl few ↦ rw few (ground arith)
    | inr many ↦ rw many (expire_few fuel _ (ground (arith, expire_one-count s)))
  ]

  -- Whatever number of requests has finished, `push_operation` leaves at most 63 finished operations
  -- beside a new one that runs. It loses no operation that is running, and puts the new one behind them.
  pub push_operation_bounded :
      (s : Store Value) (op : Operation Value)
      → is_running op ≡ true
      → (count_finished (push_operation s op).operations < retention)
        × (in_flight (push_operation s op).operations ≡ in_flight s.operations ++ op ∷ [])
  unfolding push_operation
  push_operation_bounded s op runs =
      let s' = expire (length s.operations) s in
      let none_more : count_finished (op ∷ []) ≡ 0 = unfold count_finished in rw runs in
      (
        omega (
          arith,
          none_more,
          count_finished-append s'.operations (op ∷ []),
          expire_few (length s.operations) s (count_finished-le-length s.operations),
        ),
        rw
            (
              in_flight-append s'.operations (op ∷ []),
              (expire-IsKept (length s.operations) s).same_in_flight,
            )
            (rw runs),
      )

  -- With a store in which the stored keys are retained, a replay does not run into the `expect`: it
  -- finds nothing, for a key that is not stored; or refuses a request that differs from the one that
  -- came with the key; or answers with an operation that was submitted under this very key.
  pub replay_cases :
      (s : Store Value) (identity : RequestIdentity)
      → IsRetained s
      → ((s.idempotency identity.key ≡ none) × (replay s identity ≡ ok none))
        ⊎ ((replay s identity ≡ err key_conflict)
            ⊎ ((op : Operation Value) × (replay s identity ≡ ok (some op))
                × (op.request_key ≡ identity.key)))
  unfolding replay replay_record
  replay_cases s identity h = elim (Option-cases (s.idempotency identity.key)) [
    | inl e ↦ inl (e, rw e)
    | inr (r, e) ↦
        let (op, f, key) = h identity.key r e in
        elim (Bool-cases (eq_bytes r.fingerprint identity.fingerprint)) [
          | inl same ↦ inr (inr (op, rw (e, same, f), key))
          | inr differs ↦ inr (inl (rw (e, differs)))
        ]
  ]
