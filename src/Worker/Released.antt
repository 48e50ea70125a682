-- ===== src/Worker/Released.antt =====
-- How a job that has the port for itself in `Service::worker` of src/server.rs goes on and ends.
use idf_remote.Base.{
  ◌≡◌, refl, ◌∙◌, arith, inl, inr, false, List, [], ◌∷◌, none, some, Bool-cases, Bytes, eq_bytes,
  Result, err, ok,
}
use idf_remote.Base.Text.{codes}
use idf_remote.Device.{DeviceId}
use idf_remote.Store.Operations.{Operation, Store, ApiError, is_running, find_operation}
use idf_remote.Application.Json.{Value}
use idf_remote.Duplex.State.{is_some}
use idf_remote.Worker.State.{Host}
use idf_remote.Worker.Exclusive.{
  PortAction, probe, reset, monitor, erase_flash, flash, read_flash, Answers, Reports, Finished,
  emit_progress, report_info, run_action,
}
use idf_remote.Worker.Ended.{end_operation, end_first}
use idf_remote.Worker.Held.{IsSameKeys, IsKnown, IsSafe}
use idf_remote.Worker.Steady.{emit_at-IsSafe}

module _ {N : Type 0} where
  pub end_operation-id :
      (op : Operation (Value N)) (r : Result Bytes (Finished N))
      → ((end_operation op r).id ≡ op.id) × (is_running (end_operation op r) ≡ false)
  unfolding end_operation
  end_operation-id op (err why) = (refl, refl)
  end_operation-id op (ok (value, none)) = (refl, refl)
  end_operation-id op (ok (value, some file)) = (refl, refl)

  pub end_first-same :
      (key id : Bytes) (r : Result Bytes (Finished N)) (l : List (Operation (Value N)))
      → is_some (find_operation key (end_first id r l)) ≡ is_some (find_operation key l)
  unfolding find_operation end_first
  end_first-same key id r [] = refl
  end_first-same key id r (x ∷ xs) =
      let rest = end_first-same key id r xs in
      let name = (end_operation-id x r).0 in ground (arith, name, rest)

  pub end_first-found :
      (id : Bytes) (r : Result Bytes (Finished N)) (l : List (Operation (Value N)))
      (op : Operation (Value N))
      → find_operation id l ≡ some op
      → find_operation id (end_first id r l) ≡ some (end_operation op r)
  unfolding find_operation end_first end_operation
  end_first-found id r [] op e = cc
  end_first-found id r (x ∷ xs) op e =
      let name = (end_operation-id x r).0 in
      elim (Bool-cases (eq_bytes x.id id)) [
        | inl this ↦
            let same : some x ≡ some op = rw this at e in
            let here : x ≡ op = cc in rw this (rw (name, this) (rw here refl))
        | inr later ↦ rw later (rw later (end_first-found id r xs op (rw later at e)))
      ]

-- The store when the closure is done, and the result.
module _ {N : Type 0} (host : Host N) (reports : Reports N) (device_id : DeviceId) where
  abbrev IsSafeWith :
      {A : Type 0} → Store (Value N) → Result ApiError (Store (Value N) × A) → Type 0
  IsSafeWith {A} s r =
      (after : Store (Value N) × A) × (r ≡ ok after)
      × IsSameKeys s after.0
      × IsKnown device_id after.0

  emit_progress-IsSafe :
      (s : Store (Value N)) (ps : List (Value N))
      → IsKnown device_id s
      → IsSafe device_id s (emit_progress host reports device_id s ps)
  unfolding emit_progress
  emit_progress-IsSafe s [] k = (s, refl, λ key. refl, k)
  emit_progress-IsSafe s (p ∷ ps) k =
      let (s1, one, keys, k1) = emit_at-IsSafe host device_id s (codes "progress") p k in
      let (s2, two, keys', k2) = emit_progress-IsSafe s1 ps k1 in
      rw one (s2, two, λ key. keys' key ∙ keys key, k2)

  report_info-IsSafe :
      (s : Store (Value N)) (kind : Bytes) (r : Result Bytes (Value N))
      (next : Value N → Result Bytes (Finished N))
      → IsKnown device_id s
      → IsSafeWith s (report_info host reports device_id s kind r next)
  unfolding report_info
  report_info-IsSafe s kind (err why) next k = (_, refl, λ key. refl, k)
  report_info-IsSafe s kind (ok info) next k =
      let (s1, one, keys, k1) = emit_at-IsSafe host device_id s kind info k in
      rw one (_, refl, keys, k1)

  pub run_action-IsSafe :
      (s : Store (Value N)) (action : PortAction) (a : Answers N)
      → IsKnown device_id s
      → IsSafeWith s (run_action host reports device_id s action a)
  unfolding run_action
  run_action-IsSafe s probe a k = (_, refl, λ key. refl, k)
  run_action-IsSafe s reset a k = (_, refl, λ key. refl, k)
  run_action-IsSafe s monitor a k = (_, refl, λ key. refl, k)
  run_action-IsSafe s (flash warnings) a k =
      let (s1, one, keys, k1) = emit_progress-IsSafe s a.progress k in
      let (after, two, keys', k2) = report_info-IsSafe s1 (codes "flash_verified") a.outcome _ k1 in
      rw one (after, two, λ key. keys' key ∙ keys key, k2)
  run_action-IsSafe s (read_flash size) a k = (_, refl, λ key. refl, k)
  run_action-IsSafe s erase_flash a k = report_info-IsSafe s (codes "flash_erased") a.outcome _ k
