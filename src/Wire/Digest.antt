-- ===== src/Wire/Digest.antt =====
-- `sha256` of src/wire.rs and `format!("segment-{index}")`. The hash itself is a parameter: SHA-256
-- of the sha2 crate, of which the code uses that it gives 32 bytes.
use idf_remote.Base.{
  ℕ, ◌*◌, ◌≤◌, sym, ap, ◌∙◌, inl, inr, All-append, Bool-cases, zero, suc, ◌+◌, ◌-◌, ◌/◌, ◌%◌, ◌≡◌,
  ◌<◌, refl, arith, Bool, true, ◌&&◌, ◌||◌, [], ◌∷◌, ◌++◌, Bytes, IsByte, All, all, length, ltb,
  leb, if◌then◌else◌,
}

pub record Hash : Type 0 where
  pub digest : Bytes → Bytes
  pub digest_length : (b : Bytes) → length (digest b) ≡ 32
  pub digest-IsByte : (b : Bytes) → All IsByte (digest b)

-- A lowercase hexadecimal digit.
abbrev pub hex_digit : ℕ → ℕ
hex_digit n = if ltb n 10 then b'0' + n else b'a' + n - 10

-- `{byte:02x}` of each byte.
unfoldable pub hex : Bytes → Bytes
hex [] = []
hex (b ∷ bs) = hex_digit (b / 16) ∷ hex_digit (b % 16) ∷ hex bs

unfoldable pub sha256 : Hash → Bytes → Bytes
sha256 h bytes = hex (h.digest bytes)

-- `byte.is_ascii_digit() || (b'a'..=b'f').contains(&byte)`
abbrev pub is_lower_hex : ℕ → Bool
is_lower_hex c = leb b'0' c && leb c b'9' || leb b'a' c && leb c b'f'

length-hex : (bs : Bytes) → length (hex bs) ≡ length bs + length bs
unfolding hex
length-hex [] = omega arith
length-hex (b ∷ bs) = omega (arith, length-hex bs)

hex_digit-is_lower_hex : (n : ℕ) → n < 16 → is_lower_hex (hex_digit n) ≡ true
hex_digit-is_lower_hex n h = ground arith

all-hex : (bs : Bytes) → All IsByte bs → all is_lower_hex (hex bs) ≡ true
unfolding hex
all-hex [] h = refl
all-hex (b ∷ bs) (h, t) = ground (
  arith,
  hex_digit-is_lower_hex (b / 16) (omega arith),
  hex_digit-is_lower_hex (b % 16) (omega arith),
  all-hex bs t,
)

pub length-sha256 : (h : Hash) (b : Bytes) → length (sha256 h b) ≡ 64
unfolding sha256
length-sha256 h b = omega (arith, length-hex (h.digest b), h.digest_length b)

pub all-sha256 : (h : Hash) (b : Bytes) → all is_lower_hex (sha256 h b) ≡ true
unfolding sha256
all-sha256 h b = all-hex (h.digest b) (h.digest-IsByte b)

-- A number in decimal. The fuel is the number itself, which is more than the digits it has.
decimal_from : ℕ → ℕ → Bytes
decimal_from zero n = (b'0' + n % 10) ∷ []
decimal_from (suc fuel) n =
    let front = decimal_from fuel (n / 10) in
    if ltb n 10 then (b'0' + n) ∷ [] else front ++ (b'0' + n % 10) ∷ []

unfoldable pub decimal : ℕ → Bytes
unfolding decimal_from
decimal n = decimal_from n n

-- `format!("segment-{index}")`
unfoldable pub segment_name : ℕ → Bytes
unfolding decimal
segment_name index = b's' ∷ b'e' ∷ b'g' ∷ b'm' ∷ b'e' ∷ b'n' ∷ b't' ∷ b'-' ∷ decimal index

-- The number that decimal digits stand for, behind those that stand for `acc`.
number : ℕ → Bytes → ℕ
number acc [] = acc
number acc (c ∷ cs) = number (acc * 10 + (c - b'0')) cs

number-snoc : (cs : Bytes) (acc c : ℕ) → number acc (cs ++ c ∷ []) ≡ number acc cs * 10 + (c - b'0')
unfolding number
number-snoc [] acc c = refl
number-snoc (d ∷ ds) acc c = number-snoc ds (acc * 10 + (d - b'0')) c

number-decimal_from : (fuel n : ℕ) → n ≤ fuel → number 0 (decimal_from fuel n) ≡ n
unfolding number decimal_from
number-decimal_from zero n h = omega arith
number-decimal_from (suc fuel) n h = elim (Bool-cases (ltb n 10)) [
  | inl small ↦ rw small (omega arith)
  | inr large ↦ rw large (
      omega (
        arith,
        number-snoc (decimal_from fuel (n / 10)) 0 (b'0' + n % 10),
        number-decimal_from fuel (n / 10) (ground arith),
      ))
]

number-decimal : (n : ℕ) → number 0 (decimal n) ≡ n
unfolding decimal
number-decimal n = number-decimal_from n n (omega arith)

pub decimal_injective : (m n : ℕ) → decimal m ≡ decimal n → m ≡ n
decimal_injective m n e = sym (number-decimal m) ∙ (ap (number 0) e ∙ number-decimal n)

-- Digits are not below `0`, which a dash is.
abbrev pub IsDigit : ℕ → Type 0
IsDigit c = b'0' ≤ c

decimal_from-IsDigit : (fuel n : ℕ) → All IsDigit (decimal_from fuel n)
unfolding decimal_from
decimal_from-IsDigit zero n = omega arith
decimal_from-IsDigit (suc fuel) n = elim (Bool-cases (ltb n 10)) [
  | inl small ↦ rw small (omega arith)
  | inr large ↦ rw large (
      All-append IsDigit (decimal_from fuel (n / 10)) _ (decimal_from-IsDigit fuel (n / 10))
        (omega arith))
]

pub decimal-IsDigit : (n : ℕ) → All IsDigit (decimal n)
unfolding decimal
decimal-IsDigit n = decimal_from-IsDigit n n
