-- ===== src/Store/Whole.antt =====
-- What holds of the daemon's store between two critical sections, and that submissions keep it.
use idf_remote.Base.{
  ℕ, zero, suc, ◌≤◌, ◌<◌, ◌≡◌, ◌≢◌, refl, sym, ap, ◌∙◌, arith, inl, inr, List, [], ◌∷◌, ◌++◌, some,
  none, Bytes, eq_bytes, eq_bytes→eq, eq_bytes_refl, ltb, Bool-cases, Option-cases, All,
}
use idf_remote.Base.Text.{Map, insert, eq_bytes-ne}
use idf_remote.Device.{DeviceId}
use idf_remote.Store.Events.{DeviceState}
use idf_remote.Store.Operations.{
  Operation, Store, retention, is_running, count_finished, oldest_finished, without_oldest,
  expire_one, expire, find_operation, operation_id,
}
use idf_remote.Store.Retention.{IsRetained}
use idf_remote.Store.Names.{operation_id_injective}
use idf_remote.Store.Submit.{pop_back}

module _ {Value : Type 0} where
  -- An operation has the name of its device and of an event that the device has reported.
  pub record IsNamed (epoch : Bytes) (devices : Map (DeviceState Value)) (op : Operation Value)
      : Type 0 where
    pub device : DeviceState Value
    pub known : devices op.device_id.text ≡ some device
    pub reported : op.start_cursor.after ≤ device.seq
    pub name_is : op.id ≡ operation_id epoch op.device_id op.start_cursor.after

  pub record IsWhole (s : Store Value) : Type 0 where
    pub retained : IsRetained s
    pub named : All (IsNamed s.epoch s.devices) s.operations

  All-without_oldest :
      (P : Operation Value → Type 0) (l : List (Operation Value))
      → All P l
      → All P (without_oldest l)
  unfolding without_oldest
  All-without_oldest P [] h = h
  All-without_oldest P (op ∷ ops) (h, t) = elim (Bool-cases (is_running op)) [
    | inl runs ↦ rw runs (h, All-without_oldest P ops t)
    | inr ended ↦ rw ended t
  ]

  pub All-expire :
      (P : Operation Value → Type 0) (fuel : ℕ) (s : Store Value)
      → All P s.operations
      → All P (expire fuel s).operations
  unfolding expire expire_one
  All-expire P zero s h = h
  All-expire P (suc fuel) s h = elim (Bool-cases (ltb (count_finished s.operations) retention)) [
    | inl few ↦ rw few h
    | inr many ↦ elim (Option-cases (oldest_finished s.operations)) [
      | inl e ↦ rw (many, e) (All-expire P fuel s h)
      | inr (old, e) ↦ rw (many, e) (All-expire P fuel _ (All-without_oldest P s.operations h))
    ]
  ]

  same_device :
      (devices : Map (DeviceState Value)) (j k : Bytes) (x y : DeviceState Value)
      → devices j ≡ some x
      → devices k ≡ some y
      → j ≡ k
      → x ≡ y
  same_device devices j k x y e f p = cc

  -- A device that has only gone on still knows the operations.
  pub IsNamed-insert :
      (epoch : Bytes) (devices : Map (DeviceState Value)) (k : Bytes) (d d' : DeviceState Value)
      (op : Operation Value)
      → devices k ≡ some d
      → d.seq ≤ d'.seq
      → IsNamed epoch devices op
      → IsNamed epoch (insert devices k d') op
  IsNamed-insert epoch devices k d d' op e on h = elim (Bool-cases (eq_bytes op.device_id.text k)) [
    | inl same ↦ record {
      device = d';
      known = unfold insert in rw same;
      reported = omega (
        arith,
        ap (λ (x : DeviceState Value). x.seq)
            (same_device devices _ k h.device d h.known e (eq_bytes→eq _ k same)),
      );
      name_is = h.name_is;
    }
    | inr other ↦ record {
      device = h.device;
      known = unfold insert in rw other h.known;
      reported = h.reported;
      name_is = h.name_is;
    }
  ]

  later_name :
      (epoch : Bytes) (devices : Map (DeviceState Value)) (id : DeviceId) (d : DeviceState Value)
      (after : ℕ) (op : Operation Value)
      → devices id.text ≡ some d
      → d.seq < after
      → IsNamed epoch devices op
      → op.id ≢ operation_id epoch id after
  later_name epoch devices id d after op e later h same =
      let (of, at_event) =
        operation_id_injective epoch op.device_id id _ after (sym h.name_is ∙ same) in
      let known_as =
        same_device devices _ _ h.device d h.known e (ap (λ (i : DeviceId). i.text) of) in
      omega (arith, h.reported, ap (λ (x : DeviceState Value). x.seq) known_as)

  -- The name of an operation that starts at a later event is new.
  pub find_operation-none :
      (epoch : Bytes) (devices : Map (DeviceState Value)) (id : DeviceId) (d : DeviceState Value)
      (after : ℕ) (l : List (Operation Value))
      → devices id.text ≡ some d
      → d.seq < after
      → All (IsNamed epoch devices) l
      → find_operation (operation_id epoch id after) l ≡ none
  unfolding find_operation
  find_operation-none epoch devices id d after [] e later h = refl
  find_operation-none epoch devices id d after (op ∷ ops) e later (h, t) =
      rw
        (eq_bytes-ne op.id (operation_id epoch id after)
          (λ same. later_name epoch devices id d after op e later h same))
        (find_operation-none epoch devices id d after ops e later t)

  pub find_operation-append :
      (id : Bytes) (l r : List (Operation Value)) (op : Operation Value)
      → find_operation id l ≡ some op
      → find_operation id (l ++ r) ≡ some op
  unfolding find_operation
  find_operation-append id [] r op h = absurd cc
  find_operation-append id (x ∷ xs) r op h = ground (arith, find_operation-append id xs r op)

  pub find_operation-snoc :
      (l : List (Operation Value)) (op : Operation Value)
      → find_operation op.id l ≡ none
      → find_operation op.id (l ++ op ∷ []) ≡ some op
  unfolding find_operation
  find_operation-snoc [] op h = rw (eq_bytes_refl op.id)
  find_operation-snoc (x ∷ xs) op h = ground (arith, find_operation-snoc xs op)

  pub pop_back-snoc :
      (l : List (Operation Value)) (op : Operation Value) → pop_back (l ++ op ∷ []) ≡ l
  unfolding pop_back
  pop_back-snoc [] op = refl
  pop_back-snoc (x ∷ []) op = refl
  pop_back-snoc (x ∷ y ∷ r) op = ap (λ t. x ∷ t) (pop_back-snoc (y ∷ r) op)
