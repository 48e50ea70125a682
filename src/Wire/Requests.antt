-- ===== src/Wire/Requests.antt =====
-- The other requests of src/wire.rs. Base64 is that of the base64 crate, a parameter.
use idf_remote.Base.{
  ℕ, ◌+◌, ◌*◌, ◌/◌, ◌≡◌, Bool, not, ◌&&◌, ◌||◌, [], ◌∷◌, Option, some, Bytes, IsByte, All, length,
  is_empty, all, leb, ◌==◌, Result, ok, ensure, ◌>>◌,
}
use idf_remote.Device.{DeviceId}

abbrev pub max_read_bytes : ℕ
max_read_bytes = 32 * 1024 * 1024

abbrev pub max_serial_write_bytes : ℕ
max_serial_write_bytes = 64 * 1024

abbrev pub max_idempotency_key_bytes : ℕ
max_idempotency_key_bytes = 128

-- "erase-all-flash"
abbrev pub erase_flash_confirmation : Bytes
erase_flash_confirmation =
    b'e' ∷ b'r' ∷ b'a' ∷ b's' ∷ b'e' ∷ b'-' ∷ b'a' ∷ b'l' ∷ b'l' ∷ b'-' ∷ b'f' ∷ b'l' ∷ b'a' ∷ b's'
    ∷ b'h' ∷ []

pub data RequestError : Type 0 where
  key_length key_characters read_size_zero read_too_large baud_too_low : RequestError
  monitor_baud_zero read_address_overflow confirmation_required : RequestError
  payload_empty payload_too_large serial_baud_zero timeout_range : RequestError
  invalid_digest invalid_base64 digest_mismatch : RequestError

-- `byte.is_ascii_alphanumeric() || matches!(byte, b'-' | b'_' | b'.' | b':')`
abbrev pub is_key_byte : ℕ → Bool
is_key_byte c =
    leb b'0' c && leb c b'9'
    || leb b'A' c && leb c b'Z'
    || leb b'a' c && leb c b'z'
    || c == b'-'
    || c == b'_'
    || c == b'.'
    || c == b':'

unfoldable pub validate_idempotency_key : Bytes → Result RequestError (Unit {0})
validate_idempotency_key key = do
  ensure (not (is_empty key) && leb (length key) max_idempotency_key_bytes) key_length
  ensure (all is_key_byte key) key_characters
  ok tt

pub record DeviceRequest : Type 0 where
  pub device_id : DeviceId
  pub monitor_baud : ℕ
  pub no_reset_before : Bool

abbrev pub default_baud : ℕ
default_baud = 115200

-- `BASE64_STANDARD`: what is encoded decodes, and three bytes make four characters.
pub record Base64 : Type 0 where
  pub encode : Bytes → Bytes
  pub decode : Bytes → Option Bytes
  pub decode-encode : (b : Bytes) → All IsByte b → decode (encode b) ≡ some b
  pub length-encode : (b : Bytes) → length (encode b) ≡ (length b + 2) / 3 * 4
