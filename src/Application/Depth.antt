-- ===== src/Application/Depth.antt =====
-- What `validate_json` of src/application.rs accepts.
use idf_remote.Base.{
  >>-eq-ok_unit, ℕ, ◌+◌, ◌≤◌, ◌≡◌, ◌↔◌, refl, arith, true, false, not, leb, ok, ◌>>◌, >>-eq-ok,
  leb_iff,
}
use idf_remote.Application.Json.{
  Value, null, boolean, number, string, array, object, Items, nil, item, Fields, end, field, Serde,
  nesting, key_nul, contains_nul, max_depth, validate_json, validate_items, validate_fields,
}
use Prim.Native.Nat.{max}

-- How many arrays and objects are around the innermost value, and for members one more.
unfoldable mutual
  pub nesting_of : {N : Type 0} → Value N → ℕ
  nesting_of null = 0
  nesting_of (boolean b) = 0
  nesting_of (number n) = 0
  nesting_of (string text) = 0
  nesting_of (array values) = nesting_of_items values
  nesting_of (object values) = nesting_of_fields values

  pub nesting_of_items : {N : Type 0} → Items N → ℕ
  nesting_of_items nil = 0
  nesting_of_items (item value values) = max (nesting_of value + 1) (nesting_of_items values)

  pub nesting_of_fields : {N : Type 0} → Fields N → ℕ
  nesting_of_fields end = 0
  nesting_of_fields (field key value values) = max (nesting_of value + 1) (nesting_of_fields values)

module _ {N : Type 0} (serde : Serde N) where
  -- Each text and each key is free of NUL, and each number is in the range.
  unfoldable mutual
    pub IsPlain : Value N → Type 0
    IsPlain null = Unit
    IsPlain (boolean b) = Unit
    IsPlain (number n) = serde.is_interoperable n ≡ true
    IsPlain (string text) = contains_nul text ≡ false
    IsPlain (array values) = IsPlainItems values
    IsPlain (object values) = IsPlainFields values

    pub IsPlainItems : Items N → Type 0
    IsPlainItems nil = Unit
    IsPlainItems (item value values) = IsPlain value × IsPlainItems values

    pub IsPlainFields : Fields N → Type 0
    IsPlainFields end = Unit
    IsPlainFields (field key value values) =
        (contains_nul key ≡ false) × IsPlain value × IsPlainFields values

  mutual
    unfolding validate_json nesting_of IsPlain

    validate_json-ok :
        (v : Value N) (depth : ℕ)
        → validate_json serde v depth ≡ ok tt
        → (depth + nesting_of v ≤ max_depth) × IsPlain v
    validate_json-ok null depth h = ground arith
    validate_json-ok (boolean b) depth h = ground arith
    validate_json-ok (number n) depth h = ground arith
    validate_json-ok (string text) depth h = ground arith
    validate_json-ok (array values) depth h =
        let (fits, rest) =
          >>-eq-ok (leb depth max_depth) nesting (validate_items serde values (depth + 1)) h in
        validate_items-ok values depth rest ((leb_iff depth max_depth).0 fits)
    validate_json-ok (object values) depth h =
        let (fits, rest) =
          >>-eq-ok (leb depth max_depth) nesting (validate_fields serde values (depth + 1)) h in
        validate_fields-ok values depth rest ((leb_iff depth max_depth).0 fits)

    validate_items-ok :
        (vs : Items N) (depth : ℕ)
        → validate_items serde vs (depth + 1) ≡ ok tt
        → depth ≤ max_depth
        → (depth + nesting_of_items vs ≤ max_depth) × IsPlainItems vs
    validate_items-ok nil depth h k = (omega arith, tt)
    validate_items-ok (item v vs) depth h k =
        let (first, rest) =
          >>-eq-ok_unit (validate_json serde v (depth + 1)) (validate_items serde vs (depth + 1))
            h in
        let (deep, plain) = validate_json-ok v (depth + 1) first in
        let (deeper, plainer) = validate_items-ok vs depth rest k in (omega arith, (plain, plainer))

    validate_fields-ok :
        (vs : Fields N) (depth : ℕ)
        → validate_fields serde vs (depth + 1) ≡ ok tt
        → depth ≤ max_depth
        → (depth + nesting_of_fields vs ≤ max_depth) × IsPlainFields vs
    validate_fields-ok end depth h k = (omega arith, tt)
    validate_fields-ok (field key v vs) depth h k =
        let (key_ok, rest) =
          >>-eq-ok (not (contains_nul key)) key_nul
            (validate_json serde v (depth + 1) >> validate_fields serde vs (depth + 1)) h in
        let (first, last) =
          >>-eq-ok_unit (validate_json serde v (depth + 1)) (validate_fields serde vs (depth + 1))
            rest in
        let (deep, plain) = validate_json-ok v (depth + 1) first in
        let (deeper, plainer) = validate_fields-ok vs depth last k in
        (omega arith, (ground arith, plain, plainer))

  mutual
    unfolding validate_json nesting_of IsPlain

    validate_json-accepts :
        (v : Value N) (depth : ℕ)
        → depth + nesting_of v ≤ max_depth
        → IsPlain v
        → validate_json serde v depth ≡ ok tt
    validate_json-accepts null depth h p = ground arith
    validate_json-accepts (boolean b) depth h p = ground arith
    validate_json-accepts (number n) depth h p = ground arith
    validate_json-accepts (string text) depth h p = ground arith
    validate_json-accepts (array values) depth h p =
        let fits : leb depth max_depth ≡ true = ground arith in
        rw fits (validate_items-accepts values depth h p)
    validate_json-accepts (object values) depth h p =
        let fits : leb depth max_depth ≡ true = ground arith in
        rw fits (validate_fields-accepts values depth h p)

    validate_items-accepts :
        (vs : Items N) (depth : ℕ)
        → depth + nesting_of_items vs ≤ max_depth
        → IsPlainItems vs
        → validate_items serde vs (depth + 1) ≡ ok tt
    validate_items-accepts nil depth h p = refl
    validate_items-accepts (item v vs) depth h (p, ps) =
        rw (validate_json-accepts v (depth + 1) (omega arith) p)
          (validate_items-accepts vs depth (omega arith) ps)

    validate_fields-accepts :
        (vs : Fields N) (depth : ℕ)
        → depth + nesting_of_fields vs ≤ max_depth
        → IsPlainFields vs
        → validate_fields serde vs (depth + 1) ≡ ok tt
    validate_fields-accepts end depth h p = refl
    validate_fields-accepts (field key v vs) depth h (k, p, ps) =
        rw (k, validate_json-accepts v (depth + 1) (omega arith) p)
          (validate_fields-accepts vs depth (omega arith) ps)

  -- `validate_json` accepts a value at a depth exactly when the depth and the arrays and objects around
  -- its innermost member come to at most 16, and each text and key in it is free of NUL and each number
  -- in the range.
  pub validate_json-accepts_iff :
      (v : Value N) (depth : ℕ)
      → (validate_json serde v depth ≡ ok tt) ↔ ((depth + nesting_of v ≤ max_depth) × IsPlain v)
  validate_json-accepts_iff v depth =
      (validate_json-ok v depth, λ (h, p). validate_json-accepts v depth h p)
