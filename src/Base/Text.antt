-- ===== src/Base/Text.antt =====
-- Literals as bytes, and maps from texts as functions.
use idf_remote.Base.Tests.{if◌then◌else◌, Bool-cases}
use idf_remote.Base.Lists.{Bytes, eq_bytes, eq_bytes_refl, eq_bytes→eq}
use Prim.Native.Char.{code}
use Prim.Native.String.{String}
use mathlib.Core.Path.{◌≡◌}
use mathlib.Core.Logic.{◌≢◌, inl, inr}
use mathlib.Core.Bool.{true, false}
use mathlib.Core.Option.{Option, none, some}
use mathlib.Core.List.{[], ◌∷◌}

-- The bytes of an ASCII literal.
abbrev pub codes : String → Bytes
codes String.[] = []
codes (String.◌∷◌ c s) = code c ∷ codes s

-- A `HashMap` whose keys are texts.
abbrev pub Map : Type 0 → Type 0
Map V = Bytes → Option V

unfoldable pub insert : {V : Type 0} → Map V → Bytes → V → Map V
insert m k v j = if eq_bytes j k then some v else m j

unfoldable pub remove : {V : Type 0} → Map V → Bytes → Map V
remove m k j = if eq_bytes j k then none else m j

pub eq_bytes-ne : (a b : Bytes) → a ≢ b → eq_bytes a b ≡ false
eq_bytes-ne a b h = elim (Bool-cases (eq_bytes a b)) [
  | inl e ↦ absurd (h (eq_bytes→eq a b e))
  | inr e ↦ e
]

pub insert_self : {V : Type 0} (m : Map V) (k : Bytes) (v : V) → insert m k v k ≡ some v
unfolding insert
insert_self m k v = rw (eq_bytes_refl k)

pub insert_ne : {V : Type 0} (m : Map V) (k j : Bytes) (v : V) → j ≢ k → insert m k v j ≡ m j
unfolding insert
insert_ne m k j v h = rw (eq_bytes-ne j k h)

-- What a map holds after a removal, it held before, under another key.
pub remove-some :
    {V : Type 0} (m : Map V) (k j : Bytes) (v : V)
    → remove m k j ≡ some v
    → (m j ≡ some v) × (eq_bytes j k ≡ false)
unfolding remove
remove-some m k j v e = elim (Bool-cases (eq_bytes j k)) [
  | inl h ↦ absurd (impossible (rw h at e))
  | inr h ↦ (rw h at e, h)
]
  where
    impossible : none ≡ some v → ⊥
    impossible p = cc

pub insert-some :
    {V : Type 0} (m : Map V) (k j : Bytes) (v w : V)
    → insert m k v j ≡ some w
    → eq_bytes j k ≡ false
    → m j ≡ some w
unfolding insert
insert-some m k j v w e h = rw h at e

pub insert-same :
    {V : Type 0} (m : Map V) (k j : Bytes) (v w : V)
    → insert m k v j ≡ some w
    → eq_bytes j k ≡ true
    → w ≡ v
unfolding insert
insert-same m k j v w e h = same (rw h at e)
  where
    same : some v ≡ some w → w ≡ v
    same p = cc
