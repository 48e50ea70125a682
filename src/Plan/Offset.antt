-- ===== src/Plan/Offset.antt =====
-- `parse_offset` of src/plan.rs, with the standard library's `from_str_radix` on `u32`: an optional
-- plus sign, then one digit at least, each below the radix, and a value that fits 32 bits.
pub mod Value
use idf_remote.Base.{
  ℕ, zero, suc, ◌+◌, ◌-◌, ◌*◌, ◌/◌, ◌%◌, ◌^◌, ◌≤◌, ◌<◌, ◌≡◌, refl, arith, Bool, true, false, ◌&&◌,
  ◌||◌, List, [], ◌∷◌, ◌++◌, Option, none, some, Bytes, ltb, leb, ◌==◌, if◌then◌else◌, Result, ok,
  err, context, ◌>>=◌,
}

pub data OffsetError : Type 0 where
  invalid_offset : OffsetError

-- The value of a digit or letter, if it is below the radix.
unfoldable pub to_digit : ℕ → ℕ → Option ℕ
to_digit radix c =
    let value =
      if leb b'0' c && leb c b'9'
      then c - b'0'
      else if leb b'a' c && leb c b'z'
      then c - b'a' + 10
      else if leb b'A' c && leb c b'Z'
      then c - b'A' + 10
      else radix in
    if ltb value radix then some value else none

-- The value so far times the radix, plus a digit, where this fits a `u32`.
unfoldable pub add_digit : ℕ → ℕ → Option ℕ → Option ℕ
add_digit radix acc none = none
add_digit radix acc (some d) =
    if ltb (acc * radix + d) (2 ^ 32) then some (acc * radix + d) else none

unfoldable pub digits_from : ℕ → ℕ → Bytes → Option ℕ
digits_from radix acc [] = some acc
digits_from radix acc (c ∷ cs) = elim (add_digit radix acc (to_digit radix c)) [
  | none ↦ none
  | some acc' ↦ digits_from radix acc' cs
]

unfoldable pub from_str_radix : ℕ → Bytes → Option ℕ
from_str_radix radix [] = none
from_str_radix radix (c ∷ []) = if c == b'+' then none else digits_from radix 0 (c ∷ [])
from_str_radix radix (c ∷ d ∷ cs) =
    if c == b'+' then digits_from radix 0 (d ∷ cs) else digits_from radix 0 (c ∷ d ∷ cs)

-- `strip_prefix("0x")`, or else `strip_prefix("0X")`.
unfoldable pub strip_hex : Bytes → Option Bytes
strip_hex (z ∷ x ∷ rest) = if z == b'0' && (x == b'x' || x == b'X') then some rest else none
strip_hex _ = none

unfoldable pub parse_offset : Bytes → Result OffsetError ℕ
parse_offset value = elim (strip_hex value) [
  | some hex ↦ context (from_str_radix 16 hex) invalid_offset
  | none ↦ context (from_str_radix 10 value) invalid_offset
]
