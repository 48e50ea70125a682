-- ===== src/Plan/Offset/Value.antt =====
-- The number that `parse_offset` of src/plan.rs returns, against the value of the digits.
use idf_remote.Base.{
  ℕ, suc, ◌+◌, ◌*◌, ◌^◌, ◌≤◌, ◌<◌, ◌≡◌, refl, arith, true, false, ◌||◌, Bool, ap, eq_bytes, take,
  drop, [], ◌∷◌, Option, none, some, Option-cases, Bool-cases, sym, ◌∙◌, ltb_iff, Bytes, ltb, ◌==◌,
  if◌then◌else◌, context, inl, inr,
}
use idf_remote.Base.Text.{codes}
use idf_remote.Plan.Offset.{
  invalid_offset, to_digit, add_digit, digits_from, from_str_radix, strip_hex, parse_offset,
}

-- The place of a character among the digits, written from `n` on.
abbrev pub place_in : ℕ → Bytes → ℕ → Option ℕ
place_in n [] c = none
place_in n (x ∷ xs) c = let rest = place_in (suc n) xs c in if c == x then some n else rest

-- The decimal digits, and the hexadecimal ones in both cases.
abbrev pub decimal_digit : ℕ → Option ℕ
decimal_digit = place_in 0 (codes "0123456789")

abbrev pub hex_digit : ℕ → Option ℕ
hex_digit c = elim (place_in 0 (codes "0123456789abcdef") c) [
  | some n ↦ some n
  | none ↦ place_in 10 (codes "ABCDEF") c
]

to_digit-decimal : (c : ℕ) → to_digit 10 c ≡ decimal_digit c
unfolding to_digit
to_digit-decimal c = ground arith

to_digit-hex : (c : ℕ) → to_digit 16 c ≡ hex_digit c
unfolding to_digit
to_digit-hex c = ground arith

-- The value of a run of digits after `acc`, as a number of any size; `none` where one is no digit.
abbrev pub value_from : ℕ → ℕ → Bytes → Option ℕ
value_from radix acc [] = some acc
value_from radix acc (c ∷ cs) = elim (to_digit radix c) [
  | none ↦ none
  | some d ↦ value_from radix (acc * radix + d) cs
]

-- A number that does not fit 32 bits is refused.
abbrev pub fits_u32 : Option ℕ → Option ℕ
fits_u32 none = none
fits_u32 (some n) = if ltb n (2 ^ 32) then some n else none

too_large :
    (radix acc : ℕ) (cs : Bytes)
    → 1 ≤ radix
    → 2 ^ 32 ≤ acc
    → fits_u32 (value_from radix acc cs) ≡ none
too_large radix acc [] r h = ground arith
too_large radix acc (c ∷ cs) r h = elim (Option-cases (to_digit radix c)) [
  | inl e ↦ rw (e, value_from) refl
  | inr (d, e) ↦ rw (e, value_from) (too_large radix (acc * radix + d) cs r (grind arith))
]

add_digit_fits :
    (radix acc d : ℕ) (cs : Bytes)
    → ltb (acc * radix + d) (2 ^ 32) ≡ true
    → (elim (add_digit radix acc (some d)) as (λ x. Option ℕ) [
      | none ↦ none
      | some acc' ↦ digits_from radix acc' cs
    ])
      ≡ digits_from radix (acc * radix + d) cs
unfolding add_digit
add_digit_fits radix acc d cs h = ground arith

add_digit_over :
    (radix acc d : ℕ) (cs : Bytes)
    → ltb (acc * radix + d) (2 ^ 32) ≡ false
    → (elim (add_digit radix acc (some d)) as (λ x. Option ℕ) [
      | none ↦ none
      | some acc' ↦ digits_from radix acc' cs
    ])
      ≡ none
unfolding add_digit
add_digit_over radix acc d cs h = ground arith

-- Testing each step for overflow is the same as testing the value.
pub digits_from-fits_u32 :
    (radix acc : ℕ) (cs : Bytes)
    → 1 ≤ radix
    → acc < 2 ^ 32
    → digits_from radix acc cs ≡ fits_u32 (value_from radix acc cs)
unfolding digits_from
digits_from-fits_u32 radix acc [] r h = ground arith
digits_from-fits_u32 radix acc (c ∷ cs) r h = elim (Option-cases (to_digit radix c)) [
  | inl e ↦ rw (e, value_from, digits_from) (unfold add_digit in refl)
  | inr (d, e) ↦ elim (Bool-cases (ltb (acc * radix + d) (2 ^ 32))) [
    | inl fits ↦
        rw (e, value_from, digits_from)
          (add_digit_fits radix acc d cs fits
            ∙ digits_from-fits_u32 radix (acc * radix + d) cs r ((ltb_iff _ _).0 fits))
    | inr over ↦
        rw (e, value_from, digits_from)
          (add_digit_over radix acc d cs over
            ∙ sym (too_large radix (acc * radix + d) cs r (ground arith)))
  ]
]

-- A text without one leading plus sign.
abbrev pub unsigned : Bytes → Bytes
unsigned [] = []
unsigned (c ∷ cs) = if c == b'+' then cs else c ∷ cs

-- The number that a text stands for; an empty one stands for none.
abbrev pub magnitude : ℕ → Bytes → Option ℕ
magnitude radix [] = none
magnitude radix (c ∷ cs) = value_from radix 0 (c ∷ cs)

from_str_radix-magnitude :
    (radix : ℕ) (text : Bytes)
    → 1 ≤ radix
    → from_str_radix radix text ≡ fits_u32 (magnitude radix (unsigned text))
unfolding from_str_radix
from_str_radix-magnitude radix [] r = refl
from_str_radix-magnitude radix (c ∷ []) r = ground (arith, digits_from-fits_u32 radix 0 (c ∷ []))
from_str_radix-magnitude radix (c ∷ d ∷ cs) r =
    ground (arith, digits_from-fits_u32 radix 0 (d ∷ cs), digits_from-fits_u32 radix 0 (c ∷ d ∷ cs))

-- The same, with the digits of a table.
abbrev pub number_from : (ℕ → Option ℕ) → ℕ → ℕ → Bytes → Option ℕ
number_from digit radix acc [] = some acc
number_from digit radix acc (c ∷ cs) = elim (digit c) [
  | none ↦ none
  | some d ↦ number_from digit radix (acc * radix + d) cs
]

abbrev pub number_of : (ℕ → Option ℕ) → ℕ → Bytes → Option ℕ
number_of digit radix [] = none
number_of digit radix (c ∷ cs) = number_from digit radix 0 (c ∷ cs)

value_from-number_from :
    (digit : ℕ → Option ℕ) (radix acc : ℕ) (cs : Bytes)
    → ((c : ℕ) → to_digit radix c ≡ digit c)
    → value_from radix acc cs ≡ number_from digit radix acc cs
value_from-number_from digit radix acc [] same = refl
value_from-number_from digit radix acc (c ∷ cs) same = elim (Option-cases (digit c)) [
  | inl e ↦ rw (value_from, number_from, same c, e) refl
  | inr (d, e) ↦
      rw (value_from, number_from, same c, e)
        (value_from-number_from digit radix (acc * radix + d) cs same)
]

from_str_radix-number_of :
    (digit : ℕ → Option ℕ) (radix : ℕ) (text : Bytes)
    → 1 ≤ radix
    → ((c : ℕ) → to_digit radix c ≡ digit c)
    → from_str_radix radix text ≡ fits_u32 (number_of digit radix (unsigned text))
from_str_radix-number_of digit radix text r same =
    from_str_radix-magnitude radix text r ∙ ap fits_u32 (magnitude-number_of (unsigned text))
  where
    magnitude-number_of : (xs : Bytes) → magnitude radix xs ≡ number_of digit radix xs
    magnitude-number_of [] = refl
    magnitude-number_of (c ∷ cs) = value_from-number_from digit radix 0 (c ∷ cs) same

-- Whether a text begins with `0x` or `0X`.
abbrev pub is_hex : Bytes → Bool
is_hex text = eq_bytes (take 2 text) (codes "0x") || eq_bytes (take 2 text) (codes "0X")

strip_hex-is_hex :
    (text : Bytes) → strip_hex text ≡ (if is_hex text then some (drop 2 text) else none)
unfolding strip_hex eq_bytes
strip_hex-is_hex [] = refl
strip_hex-is_hex (z ∷ []) = ground arith
strip_hex-is_hex (z ∷ x ∷ rest) = ground arith

-- Behind `0x` or `0X` the digits are hexadecimal, otherwise decimal.
abbrev pub stands_for : Bytes → Option ℕ
stands_for text =
    if is_hex text
    then number_of hex_digit 16 (unsigned (drop 2 text))
    else number_of decimal_digit 10 (unsigned text)

-- `parse_offset` returns the number that the text stands for, by the places of its digits in
-- 0123456789abcdef, in both cases, when it begins with `0x` or `0X`, and in 0123456789 when it does not;
-- it refuses a text that stands for none, and a number of 2^32 or more.
pub parse_offset-stands_for :
    (text : Bytes) → parse_offset text ≡ context (fits_u32 (stands_for text)) invalid_offset
unfolding parse_offset
parse_offset-stands_for text = elim (Bool-cases (is_hex text)) [
  | inl hex ↦
      rw (parse_offset, strip_hex-is_hex text, hex)
        (ap (λ o. context o invalid_offset)
          (from_str_radix-number_of hex_digit 16 (drop 2 text) (omega arith) to_digit-hex))
  | inr decimal ↦
      rw (parse_offset, strip_hex-is_hex text, decimal)
        (ap (λ o. context o invalid_offset)
          (from_str_radix-number_of decimal_digit 10 text (omega arith) to_digit-decimal))
]
