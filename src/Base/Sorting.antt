-- ===== src/Base/Sorting.antt =====
-- `sort_by_key` and `windows(2)` of the standard library, over lists.
use idf_remote.Base.Tests.{leb, leb_iff, if◌then◌else◌, Bool-cases, and_parts}
use idf_remote.Base.Lists.{All, length, sum_by}
use Prim.Native.Nat.{ℕ, suc, ◌≤◌, ◌+◌}
use mathlib.Core.Path.{◌≡◌, refl, ap}
use mathlib.Core.Logic.{inl, inr}
use mathlib.Core.Bool.{Bool, true, ◌&&◌}
use mathlib.Core.List.{List, [], ◌∷◌, map, Perm}
use mathlib.Core.List.Perm
use native.Mathlib.Omega.{arith}
use native.Mathlib.Nat.{le_trans}

module _ {ℓ} {A : Type ℓ} where
  -- Every element before the others.
  abbrev pub Pairwise {κ} : (A → A → Type κ) → List A → Type κ
  Pairwise R [] = Unit {κ}
  Pairwise R (x ∷ xs) = All (R x) xs × Pairwise R xs

  -- The test on each pair of neighbours, as a loop over `windows(2)` makes it.
  unfoldable pub adjacent : (A → A → Bool) → List A → Bool
  adjacent test [] = true
  adjacent test (x ∷ []) = true
  adjacent test (x ∷ y ∷ r) = test x y && adjacent test (y ∷ r)

  All-mono {κ μ} :
      {P : A → Type κ} {Q : A → Type μ} (f : (a : A) → P a → Q a) (xs : List A)
      → All P xs
      → All Q xs
  All-mono f [] h = tt
  All-mono f (x ∷ xs) (h, t) = (f x h, All-mono f xs t)

  -- A transitive relation that holds of neighbours holds of all pairs.
  pub adjacent→Pairwise {κ μ} :
      {P : A → Type κ} {R : A → A → Type μ} (test : A → A → Bool)
      → ((a b : A) → test a b ≡ true → R a b)
      → ((a b c : A) → P b → R a b → R b c → R a c)
      → (xs : List A) → All P xs
      → adjacent test xs ≡ true
      → Pairwise R xs
  unfolding adjacent
  adjacent→Pairwise test sound trans [] p h = tt
  adjacent→Pairwise test sound trans (x ∷ []) p h = (tt, tt)
  adjacent→Pairwise {P} {R} test sound trans (x ∷ y ∷ r) (px, (py, pr)) h =
      let (t, rest) = and_parts (test x y) (adjacent test (y ∷ r)) h in
      let below = adjacent→Pairwise {P = P} {R = R} test sound trans (y ∷ r) (py, pr) rest in
      let first = sound x y t in ((first, All-mono (λ c. trans x y c py first) r below.0), below)

  pub Pairwise→adjacent {κ} :
      {R : A → A → Type κ} (test : A → A → Bool)
      → ((a b : A) → R a b → test a b ≡ true)
      → (xs : List A) → Pairwise R xs
      → adjacent test xs ≡ true
  unfolding adjacent
  Pairwise→adjacent test complete [] h = refl
  Pairwise→adjacent test complete (x ∷ []) h = refl
  Pairwise→adjacent {R} test complete (x ∷ y ∷ r) ((xy, xr), t) =
      rw (complete x y xy) (Pairwise→adjacent {R = R} test complete (y ∷ r) t)

module _ {ℓ κ} {A : Type ℓ} {B : Type κ} where
  All-map {μ} :
      (f : A → B) (P : B → Type μ) (xs : List A) → All (λ a. P (f a)) xs → All P (map f xs)
  All-map f P [] h = tt
  All-map f P (x ∷ xs) (p, h) = (p, All-map f P xs h)

  pub Pairwise-map {μ} :
      (f : A → B) (R : B → B → Type μ) (xs : List A)
      → Pairwise (λ a b. R (f a) (f b)) xs
      → Pairwise R (map f xs)
  Pairwise-map f R [] h = tt
  Pairwise-map f R (x ∷ xs) (p, h) = (All-map f (R (f x)) xs p, Pairwise-map f R xs h)

module _ {ℓ} {A : Type ℓ} (key : A → ℕ) where
  -- Stable: an element goes before those of the same key.
  unfoldable pub insert_by_key : A → List A → List A
  insert_by_key a [] = a ∷ []
  insert_by_key a (x ∷ xs) = if leb (key a) (key x) then a ∷ x ∷ xs else x ∷ insert_by_key a xs

  unfoldable pub sort_by_key : List A → List A
  unfolding insert_by_key
  sort_by_key [] = []
  sort_by_key (x ∷ xs) = insert_by_key x (sort_by_key xs)

  abbrev pub IsSorted : List A → Type 0
  IsSorted = Pairwise (λ a b. key a ≤ key b)

  -- `All`, length and order under an insertion and under the sort.
  All-insert_by_key {κ} :
      (P : A → Type κ) (a : A) (xs : List A) → P a → All P xs → All P (insert_by_key a xs)
  unfolding insert_by_key
  All-insert_by_key P a [] p h = (p, tt)
  All-insert_by_key P a (x ∷ xs) p (px, h) = elim (Bool-cases (leb (key a) (key x))) [
    | inl e ↦ rw e (p, (px, h))
    | inr e ↦ rw e (px, All-insert_by_key P a xs p h)
  ]

  pub All-sort_by_key {κ} : (P : A → Type κ) (xs : List A) → All P xs → All P (sort_by_key xs)
  unfolding sort_by_key
  All-sort_by_key P [] h = tt
  All-sort_by_key P (x ∷ xs) (p, h) = All-insert_by_key P x _ p (All-sort_by_key P xs h)

  perm-insert_by_key : (a : A) (xs : List A) → Perm (insert_by_key a xs) (a ∷ xs)
  unfolding insert_by_key
  perm-insert_by_key a [] = Perm.refl (a ∷ [])
  perm-insert_by_key a (x ∷ xs) = elim (Bool-cases (leb (key a) (key x))) [
    | inl e ↦ rw e (Perm.refl (a ∷ x ∷ xs))
    | inr e ↦ rw e (Perm.trans (Perm.cons x (perm-insert_by_key a xs)) (Perm.swap a x xs))
  ]

  pub perm-sort_by_key : (xs : List A) → Perm (sort_by_key xs) xs
  unfolding sort_by_key
  perm-sort_by_key [] = Perm.refl []
  perm-sort_by_key (x ∷ xs) =
      Perm.trans (perm-insert_by_key x (sort_by_key xs)) (Perm.cons x (perm-sort_by_key xs))

  pub length-insert_by_key : (a : A) (xs : List A) → length (insert_by_key a xs) ≡ suc (length xs)
  unfolding insert_by_key
  length-insert_by_key a [] = refl
  length-insert_by_key a (x ∷ xs) = ground (arith, length-insert_by_key a xs)

  pub length-sort_by_key : (xs : List A) → length (sort_by_key xs) ≡ length xs
  unfolding sort_by_key
  length-sort_by_key [] = refl
  length-sort_by_key (x ∷ xs) =
      omega (arith, length-insert_by_key x (sort_by_key xs), length-sort_by_key xs)

  sum_by-insert_by_key :
      (f : A → ℕ) (a : A) (xs : List A) → sum_by f (insert_by_key a xs) ≡ f a + sum_by f xs
  unfolding insert_by_key
  sum_by-insert_by_key f a [] = refl
  sum_by-insert_by_key f a (x ∷ xs) = ground (arith, sum_by-insert_by_key f a xs)

  pub sum_by-sort_by_key : (f : A → ℕ) (xs : List A) → sum_by f (sort_by_key xs) ≡ sum_by f xs
  unfolding sort_by_key
  sum_by-sort_by_key f [] = refl
  sum_by-sort_by_key f (x ∷ xs) =
      omega (arith, sum_by-insert_by_key f x (sort_by_key xs), sum_by-sort_by_key f xs)

  insert_by_key-IsSorted : (a : A) (xs : List A) → IsSorted xs → IsSorted (insert_by_key a xs)
  unfolding insert_by_key
  insert_by_key-IsSorted a [] h = (tt, tt)
  insert_by_key-IsSorted a (x ∷ xs) (h, t) =
      let below = (leb_iff (key a) (key x)).0 in
      elim (Bool-cases (leb (key a) (key x))) [
        | inl e ↦ rw e ((below e, All-mono (λ b k. le_trans (below e) k) xs h), (h, t))
        | inr e ↦ rw e (All-insert_by_key _ a xs (ground arith) h, insert_by_key-IsSorted a xs t)
      ]

  pub sort_by_key-IsSorted : (xs : List A) → IsSorted (sort_by_key xs)
  unfolding sort_by_key
  sort_by_key-IsSorted [] = tt
  sort_by_key-IsSorted (x ∷ xs) = insert_by_key-IsSorted x _ (sort_by_key-IsSorted xs)

  insert_by_key-first :
      (a : A) (xs : List A) → All (λ b. key a ≤ key b) xs → insert_by_key a xs ≡ a ∷ xs
  unfolding insert_by_key
  insert_by_key-first a [] h = refl
  insert_by_key-first a (x ∷ xs) (h, t) = rw ((leb_iff (key a) (key x)).1 h)

  -- What is in order stays as it is.
  pub sort_by_key_of_IsSorted : (xs : List A) → IsSorted xs → sort_by_key xs ≡ xs
  unfolding sort_by_key
  sort_by_key_of_IsSorted [] h = refl
  sort_by_key_of_IsSorted (x ∷ xs) (h, t) =
      rw (sort_by_key_of_IsSorted xs t) (insert_by_key-first x xs h)

-- The sort and the test on neighbours read only the keys.
module _ {ℓ κ} {A : Type ℓ} {B : Type κ} (f : A → B) where
  insert_by_key-map :
      (key : B → ℕ) (a : A) (xs : List A)
      → insert_by_key key (f a) (map f xs) ≡ map f (insert_by_key (λ x. key (f x)) a xs)
  unfolding insert_by_key
  insert_by_key-map key a [] = refl
  insert_by_key-map key a (x ∷ xs) = elim (Bool-cases (leb (key (f a)) (key (f x)))) [
    | inl e ↦ rw e
    | inr e ↦ rw e (ap (λ (l : List B). f x ∷ l) (insert_by_key-map key a xs))
  ]

  pub sort_by_key-map :
      (key : B → ℕ) (xs : List A)
      → sort_by_key key (map f xs) ≡ map f (sort_by_key (λ x. key (f x)) xs)
  unfolding sort_by_key
  sort_by_key-map key [] = refl
  sort_by_key-map key (x ∷ xs) =
      rw (sort_by_key-map key xs) (insert_by_key-map key x (sort_by_key (λ a. key (f a)) xs))

  pub adjacent-map :
      (test : B → B → Bool) (xs : List A)
      → adjacent test (map f xs) ≡ adjacent (λ a b. test (f a) (f b)) xs
  unfolding adjacent
  adjacent-map test [] = refl
  adjacent-map test (x ∷ []) = refl
  adjacent-map test (x ∷ y ∷ r) = rw (adjacent-map test (y ∷ r))
