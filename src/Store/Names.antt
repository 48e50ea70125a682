-- ===== src/Store/Names.antt =====
-- The names of operations: `format!("{}-{}-{}", store.epoch, device_id, start_cursor.after)` in
-- `Service::submit` of src/server.rs.
use idf_remote.Base.{ℕ, ◌≡◌, refl, sym, ap, ◌∙◌, arith, [], ◌∷◌, ◌++◌, append_assoc, Bytes, All}
use idf_remote.Device.{DeviceId}
use idf_remote.Wire.Digest.{decimal_injective, IsDigit, decimal-IsDigit}
use idf_remote.Store.Operations.{operation_id}

same_head : (a b : ℕ) (r t : Bytes) → a ∷ r ≡ b ∷ t → (a ≡ b) × (r ≡ t)
same_head a b r t e = ground arith

no_dash : (l r : Bytes) → All IsDigit (l ++ b'-' ∷ r) → ⊥
no_dash [] r (h, t) = omega arith
no_dash (c ∷ cs) r (h, t) = no_dash cs r t

-- Text that ends in a dash and digits is cut at its last dash in one way.
last_dash :
    (a b ds es : Bytes)
    → All IsDigit ds
    → All IsDigit es
    → a ++ b'-' ∷ ds ≡ b ++ b'-' ∷ es
    → (a ≡ b) × (ds ≡ es)
last_dash [] [] ds es d e h = (refl, (same_head _ _ ds es h).1)
last_dash [] (c ∷ cs) ds es d e h =
    absurd (no_dash cs es (rw (same_head _ _ ds (cs ++ b'-' ∷ es) h).1 at d))
last_dash (c ∷ cs) [] ds es d e h =
    absurd (no_dash cs ds (rw (sym (same_head _ _ (cs ++ b'-' ∷ ds) es h).1) at e))
last_dash (x ∷ xs) (y ∷ ys) ds es d e h =
    let (first, rest) = same_head x y _ _ h in
    let (fronts, backs) = last_dash xs ys ds es d e rest in (rw (first, fronts), backs)

after_prefix : (p a b : Bytes) → p ++ a ≡ p ++ b → a ≡ b
after_prefix [] a b h = h
after_prefix (c ∷ cs) a b h = after_prefix cs a b (same_head c c _ _ h).1

-- Two operations of a run of the daemon that have the same name are of the same device, and started at
-- the same event, even if the names of devices have dashes in them.
pub operation_id_injective :
    (epoch : Bytes) (d e : DeviceId) (m n : ℕ)
    → operation_id epoch d m ≡ operation_id epoch e n
    → (d ≡ e) × (m ≡ n)
unfolding operation_id
operation_id_injective epoch d e m n h =
    let whole =
      append_assoc epoch (b'-' ∷ d.text) _ ∙ (h ∙ sym (append_assoc epoch (b'-' ∷ e.text) _)) in
    let (front, back) =
      last_dash (epoch ++ b'-' ∷ d.text) (epoch ++ b'-' ∷ e.text) _ _ (decimal-IsDigit m)
        (decimal-IsDigit n) whole in
    let (dash, text) = same_head _ _ _ _ (after_prefix epoch _ _ front) in
    (ap (λ t. record { text = t }) text, decimal_injective m n back)
