-- ===== src/Store/Stocked.antt =====
-- What `sync_discovered` of src/server.rs keeps.
use idf_remote.Base.{
  suc, ◌≤◌, ◌≡◌, ◌≢◌, refl, sym, ap, ◌∙◌, arith, Bool, true, false, inl, inr, List, [], ◌∷◌, Option,
  some, none, Bytes, eq_bytes, eq_bytes→eq, length, map, All, ltb, Bool-cases,
}
use idf_remote.Base.Text.{Map, insert, remove, insert_self}
use idf_remote.Device.{DeviceDescriptor, DeviceAvailability}
use idf_remote.Store.Events.{DeviceState, new_device}
use idf_remote.Store.Discovery.{
  max_managed_devices, Inventory, DiscoveryResult, done, device_limit_reached, thread_not_started,
  no_such_device, has_runtime, update_runtime, disconnect_runtimes, set_availability,
  upsert_discovered, go_on, upsert_all, go_on_states, disconnect_states, sync_discovered,
}

length-update_runtime :
    (rs : List DeviceDescriptor) (d : DeviceDescriptor) → length (update_runtime rs d) ≡ length rs
unfolding update_runtime
length-update_runtime [] d = refl
length-update_runtime (r ∷ rs) d = ground (arith, length-update_runtime rs d)

module _ {Value : Type 0} where
  -- A device that has a worker has a state in the store.
  abbrev pub HasState : Map (DeviceState Value) → DeviceDescriptor → Type 0
  HasState states r = (d : DeviceState Value) × (states r.id.text ≡ some d)

  pub record IsStocked (v : Inventory Value) : Type 0 where
    pub known : All (HasState v.states) v.runtimes
    pub few : length v.runtimes ≤ max_managed_devices

  HasState-insert :
      (states : Map (DeviceState Value)) (id : Bytes) (d : DeviceState Value) (r : DeviceDescriptor)
      → HasState states r
      → HasState (insert states id d) r
  unfolding insert
  HasState-insert states id d r (x, e) = elim (Bool-cases (eq_bytes r.id.text id)) [
    | inl same ↦ (d, rw same)
    | inr other ↦ (x, rw other e)
  ]

  HasState-set :
      (states : Map (DeviceState Value)) (id : Bytes) (a : DeviceAvailability)
      (o : Option (DeviceState Value)) (r : DeviceDescriptor)
      → HasState states r
      → HasState (set_availability states id a o) r
  unfolding set_availability
  HasState-set states id a none r h = h
  HasState-set states id a (some d) r h = HasState-insert states id _ r h

  All-HasState :
      (s t : Map (DeviceState Value)) (rs : List DeviceDescriptor)
      → ((r : DeviceDescriptor) → HasState s r → HasState t r)
      → All (HasState s) rs
      → All (HasState t) rs
  All-HasState s t [] f h = h
  All-HasState s t (r ∷ rs) f (h, k) = (f r h, All-HasState s t rs f k)

  All-update_runtime :
      (s : Map (DeviceState Value)) (rs : List DeviceDescriptor) (d : DeviceDescriptor)
      → All (HasState s) rs
      → All (HasState s) (update_runtime rs d)
  unfolding update_runtime
  All-update_runtime s [] d h = h
  All-update_runtime s (r ∷ rs) d ((x, e), k) = elim (Bool-cases (eq_bytes r.id.text d.id.text)) [
    | inl same ↦ rw same ((x, ap s (sym (eq_bytes→eq r.id.text d.id.text same)) ∙ e), k)
    | inr other ↦ rw other ((x, e), All-update_runtime s rs d k)
  ]

  has_runtime-HasState :
      (s : Map (DeviceState Value)) (rs : List DeviceDescriptor) (d : DeviceDescriptor)
      → All (HasState s) rs
      → has_runtime rs d.id.text ≡ true
      → HasState s d
  unfolding has_runtime
  has_runtime-HasState s [] d h e = absurd (cc)
  has_runtime-HasState s (r ∷ rs) d ((x, f), k) e =
      elim (Bool-cases (eq_bytes r.id.text d.id.text)) [
        | inl same ↦ (x, ap s (sym (eq_bytes→eq r.id.text d.id.text same)) ∙ f)
        | inr other ↦ has_runtime-HasState s rs d k (rw other at e)
      ]

  All-removed :
      (s : Map (DeviceState Value)) (rs : List DeviceDescriptor) (id : Bytes)
      (d : DeviceState Value)
      → has_runtime rs id ≡ false
      → All (HasState s) rs
      → All (HasState (remove (insert s id d) id)) rs
  unfolding has_runtime remove insert
  All-removed s [] id d e h = h
  All-removed s (r ∷ rs) id d e ((x, f), k) = elim (Bool-cases (eq_bytes r.id.text id)) [
    | inl same ↦ absurd (ground arith)
    | inr other ↦ ((x, rw other f), All-removed s rs id d (rw other at e) k)
  ]

  upsert_discovered-IsStocked :
      (spawned : Bool) (v : Inventory Value) (d : DeviceDescriptor)
      → IsStocked v
      → IsStocked (upsert_discovered spawned v d).0
        × ((upsert_discovered spawned v d).1 ≢ no_such_device)
  unfolding upsert_discovered
  upsert_discovered-IsStocked spawned v d w = elim (Bool-cases (has_runtime v.runtimes d.id.text)) [
    | inl old ↦
        let (x, e) = has_runtime-HasState v.states v.runtimes d w.known old in
        rw (old, e)
          (
            record {
              known = All-update_runtime _ v.runtimes d (
                  All-HasState v.states _ v.runtimes
                    (λ r h. HasState-set v.states d.id.text d.status.availability (some x) r h)
                    w.known);
              few = omega (arith, w.few, length-update_runtime v.runtimes d);
            },
            λ bad. cc,
          )
    | inr fresh ↦ elim (Bool-cases (ltb (length v.runtimes) max_managed_devices)) [
      | inr full ↦ rw (fresh, full) (w, λ bad. cc)
      | inl room ↦ elim (Bool-cases spawned) [
        | inl yes_spawned ↦
            rw (fresh, room, yes_spawned)
              (
                record {
                  known = (
                    (new_device d.status, insert_self v.states d.id.text (new_device d.status)),
                    All-HasState v.states _ v.runtimes
                        (λ r h. HasState-insert v.states d.id.text _ r h) w.known,
                  );
                  few = ground arith;
                },
                λ bad. cc,
              )
        | inr not_spawned ↦
            rw (fresh, room, not_spawned)
              (
                record {
                  known =
                      All-removed v.states v.runtimes d.id.text (new_device d.status) fresh w.known;
                  few = w.few;
                },
                λ bad. cc,
              )
      ]
    ]
  ]

  go_on-IsStocked :
      (one rest : Inventory Value × DiscoveryResult)
      → IsStocked one.0 × (one.1 ≢ no_such_device)
      → IsStocked rest.0 × (rest.1 ≢ no_such_device)
      → IsStocked (go_on one rest).0 × ((go_on one rest).1 ≢ no_such_device)
  unfolding go_on
  go_on-IsStocked (v, done) rest h k = k
  go_on-IsStocked (v, device_limit_reached) rest h k = h
  go_on-IsStocked (v, thread_not_started) rest h k = h
  go_on-IsStocked (v, no_such_device) rest h k = h

  upsert_all-IsStocked :
      (v : Inventory Value) (ds : List (Bool × DeviceDescriptor))
      → IsStocked v
      → IsStocked (upsert_all v ds).0 × ((upsert_all v ds).1 ≢ no_such_device)
  unfolding upsert_all
  upsert_all-IsStocked v [] w = (w, λ bad. cc)
  upsert_all-IsStocked v ((spawned, d) ∷ ds) w =
      let one = upsert_discovered-IsStocked spawned v d w in
      go_on-IsStocked _ _ one (upsert_all-IsStocked (upsert_discovered spawned v d).0 ds one.0)

  -- The loop over the missing devices finds the state of each.
  disconnect_states-HasState :
      (seen rs all : List DeviceDescriptor) (s : Map (DeviceState Value))
      → All (HasState s) rs
      → All (HasState s) all
      → All (HasState (disconnect_states seen rs s).0) all
        × ((disconnect_states seen rs s).1 ≢ no_such_device)
  unfolding disconnect_states go_on_states
  disconnect_states-HasState seen [] all s h k = (k, λ bad. cc)
  disconnect_states-HasState seen (r ∷ rs) all s ((d, e), h) k =
      elim (Bool-cases (has_runtime seen r.id.text)) [
        | inl there ↦ rw there (disconnect_states-HasState seen rs all s h k)
        | inr missing ↦
            let set = set_availability s r.id.text DeviceAvailability.disconnected (some d) in
            let keeps : (x : DeviceDescriptor) → HasState s x → HasState set x =
              λ x y. HasState-set s r.id.text DeviceAvailability.disconnected (some d) x y in
            rw (missing, e)
              (disconnect_states-HasState seen rs all set (All-HasState s set rs keeps h)
                (All-HasState s set all keeps k))
      ]

  All-disconnect_runtimes :
      (seen : List DeviceDescriptor) (s : Map (DeviceState Value)) (rs : List DeviceDescriptor)
      → All (HasState s) rs
      → All (HasState s) (disconnect_runtimes seen rs)
        × (length (disconnect_runtimes seen rs) ≡ length rs)
  unfolding disconnect_runtimes
  All-disconnect_runtimes seen s [] h = (tt, refl)
  All-disconnect_runtimes seen s (r ∷ rs) (h, k) =
      let (all, size) = All-disconnect_runtimes seen s rs k in
      elim (Bool-cases (has_runtime seen r.id.text)) [
        | inl there ↦ rw there ((h, all), ap suc size)
        | inr missing ↦ rw missing ((h, all), ap suc size)
      ]

  -- Discovery keeps at most 64 devices with workers, each with its state in the store, whatever the
  -- backend finds and whether or not threads can be started; and it does not run into the `expect` on a
  -- device without a state, neither for a device that is found nor for one that is missing.
  pub sync_discovered-IsStocked :
      (v : Inventory Value) (ds : List (Bool × DeviceDescriptor))
      → IsStocked v
      → IsStocked (sync_discovered v ds).0 × ((sync_discovered v ds).1 ≢ no_such_device)
  unfolding sync_discovered
  sync_discovered-IsStocked v ds w =
      let seen = map (λ (p : Bool × DeviceDescriptor). p.1) ds in
      let up = upsert_all-IsStocked v ds w in
      let u = (upsert_all v ds).0 in
      let (kept, calm) =
        disconnect_states-HasState seen u.runtimes u.runtimes u.states up.0.known up.0.known in
      let left = All-disconnect_runtimes seen _ u.runtimes kept in
      go_on-IsStocked _ _ up
        (record { known = left.0; few = omega (arith, left.1, up.0.few) }, calm)
