-- ===== src/Worker/Held.antt =====
-- The operations that the scheduler of a worker of src/server.rs has taken on, as the store knows them;
-- `finish_stream` says of them `expect("running operations are retained")`.
use idf_remote.Base.{
  ℕ, ◌≡◌, refl, ap, ◌∙◌, arith, inl, inr, Bool, true, false, not, List, [], ◌∷◌, Option, none, some,
  Option-cases, Bytes, Result, err, ok,
}
use idf_remote.Base.Text.{Map, insert, insert_self}
use idf_remote.Device.{DeviceId}
use idf_remote.Store.Events.{DeviceState, Event}
use idf_remote.Store.Operations.{Operation, Store, ApiError, find_operation}
use idf_remote.Store.Completion.{
  Completion, Lane, complete, complete_first, finish_found, finish_one, finish_stream,
}
use idf_remote.Application.Json.{Value}
use idf_remote.Duplex.State.{Duplex, Pending, Transfer, is_some}
use idf_remote.Duplex.Steps.{Ended}
use idf_remote.Duplex.Accounts.{
  bit, Choice, count_one, count_pending, count_tx, count_open, count_done,
}

-- No operation of the store has the key.
abbrev pub missing : {V : Type 0} → Store V → Choice
missing s key lane = not (is_some (find_operation key s.operations))

-- The same keys have operations.
abbrev pub IsSameKeys : {V : Type 0} → Store V → Store V → Type 0
IsSameKeys s s' =
    (key : Bytes)
    → is_some (find_operation key s'.operations) ≡ is_some (find_operation key s.operations)

module _ {V : Type 0} where
  complete-id : (op : Operation V) (r : Result Bytes V) → (complete op r).id ≡ op.id
  unfolding complete
  complete-id op (err why) = refl
  complete-id op (ok value) = refl

  find_operation-complete_first :
      (key id : Bytes) (r : Result Bytes V) (l : List (Operation V))
      → is_some (find_operation key (complete_first id r l)) ≡ is_some (find_operation key l)
  unfolding find_operation complete_first
  find_operation-complete_first key id r [] = refl
  find_operation-complete_first key id r (x ∷ xs) =
      let rest = find_operation-complete_first key id r xs in
      let name = complete-id x r in ground (arith, name, rest)

module _ (p q : Choice) (same : (key : Bytes) (lane : Lane) → p key lane ≡ q key lane) where
  count_one-cong : (key : Bytes) (lane : Lane) → count_one p key lane ≡ count_one q key lane
  count_one-cong key Lane.application = refl
  count_one-cong key Lane.input = ap bit (same key Lane.input)

  count_pending-cong : (o : Option Pending) → count_pending p o ≡ count_pending q o
  count_pending-cong none = refl
  count_pending-cong (some w) = ap bit (same w.key Lane.application)

module _ {N : Type 0} (p q : Choice)
    (same : (key : Bytes) (lane : Lane) → p key lane ≡ q key lane) where
  count_tx-cong : (ts : List (Transfer N)) → count_tx p ts ≡ count_tx q ts
  unfolding count_tx
  count_tx-cong [] = refl
  count_tx-cong (t ∷ ts) = omega (arith, count_one-cong p q same t.key t.lane, count_tx-cong ts)

  pub count_open-cong : (d : Duplex N) → count_open p d ≡ count_open q d
  unfolding count_open
  count_open-cong d = omega (arith, count_pending-cong p q same d.pending, count_tx-cong d.tx)

  pub count_done-cong : (cs : Ended N) → count_done p cs ≡ count_done q cs
  unfolding count_done
  count_done-cong [] = refl
  count_done-cong (c ∷ cs) = omega (arith, ap bit (same c.key c.lane), count_done-cong cs)

bit-zero : (b : Bool) → bit b ≡ 0 → b ≡ false
bit-zero true e = absurd (omega arith)
bit-zero false e = refl

pub count_done-zero :
    {N : Type 0} (p : Choice) (c : Completion (Value N)) (cs : Ended N)
    → count_done p (c ∷ cs) ≡ 0
    → (p c.key c.lane ≡ false) × (count_done p cs ≡ 0)
unfolding count_done
count_done-zero p c cs e = (bit-zero (p c.key c.lane) (omega arith), omega arith)

-- The store of a step that does not fail: its keys are those of the store before, and it has the device.
module _ {N : Type 0} (device_id : DeviceId) where
  abbrev pub IsKnown : Store (Value N) → Type 0
  IsKnown s = is_some (s.devices device_id.text) ≡ true

  abbrev pub IsSafe : Store (Value N) → Result ApiError (Store (Value N)) → Type 0
  IsSafe s r = (s' : Store (Value N)) × (r ≡ ok s') × IsSameKeys s s' × IsKnown s'

  pub known_device :
      (s : Store (Value N))
      → IsKnown s
      → (d : DeviceState (Value N)) × (s.devices device_id.text ≡ some d)
  known_device s k = elim (Option-cases (s.devices device_id.text)) [
    | inl e ↦ absurd (ground arith)
    | inr found ↦ found
  ]

  pub is_some-insert :
      (m : Map (DeviceState (Value N))) (d : DeviceState (Value N))
      → is_some (insert m device_id.text d device_id.text) ≡ true
  is_some-insert m d = rw (insert_self m device_id.text d) refl

  module _ (encoded_len : Event (Value N) → ℕ)
      (operation_value : Operation (Value N) → Value N) where
    finish_one-IsSafe :
        (s : Store (Value N)) (has_reader : Bool) (c : Completion (Value N))
        → IsKnown s
        → missing s c.key c.lane ≡ false
        → IsSafe s (finish_one encoded_len operation_value s device_id has_reader c)
    unfolding finish_one finish_found
    finish_one-IsSafe s has_reader c k m =
        let (d, known) = known_device s k in
        elim (Option-cases (find_operation c.key s.operations)) [
          | inl e ↦ absurd (ground arith)
          | inr (op, e) ↦
              rw (e, known)
                (
                  _,
                  refl,
                  λ key. find_operation-complete_first key c.key c.result s.operations,
                  is_some-insert s.devices _,
                )
        ]

    pub finish_stream-IsSafe :
        (s : Store (Value N)) (has_reader : Bool) (done : List (Completion (Value N)))
        → IsKnown s
        → count_done (missing s) done ≡ 0
        → IsSafe s (finish_stream encoded_len operation_value s device_id has_reader done)
    unfolding finish_stream
    finish_stream-IsSafe s has_reader [] k e = (s, refl, λ key. refl, k)
    finish_stream-IsSafe s has_reader (c ∷ done) k e =
        let (here, rest) = count_done-zero (missing s) c done e in
        let (s1, one, keys, k1) = finish_one-IsSafe s has_reader c k here in
        let same = count_done-cong (missing s1) (missing s) (λ key lane. ap not (keys key)) done in
        let (s2, more, keys', k2) = finish_stream-IsSafe s1 has_reader done k1 (same ∙ rest) in
        (s2, rw one more, λ key. keys' key ∙ keys key, k2)
