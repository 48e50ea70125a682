-- ===== src/Wire/SerialWrite.antt =====
-- `SerialWriteRequest` of src/wire.rs.
use idf_remote.Base.{
  ℕ, ◌+◌, ◌*◌, ◌/◌, true, not, ◌&&◌, Bytes, eq_bytes, length, is_empty, ltb, leb, ◌==◌, Result, ok,
  ensure, context, ◌>>=◌, ◌>>◌,
}
use idf_remote.Device.{DeviceId}
use idf_remote.Wire.Digest.{Hash, sha256}
use idf_remote.Wire.Requests.{
  RequestError, payload_empty, payload_too_large, serial_baud_zero, timeout_range, invalid_digest,
  invalid_base64, digest_mismatch, DeviceRequest, max_serial_write_bytes, Base64,
}

pub record SerialWriteRequest : Type 0 where
  pub device_id : DeviceId
  pub text : Bytes  -- the field `data`
  pub digest_text : Bytes  -- the field `sha256`
  pub baud : ℕ
  pub timeout_ms : ℕ

-- `validate_serial_write`
unfoldable pub validate : Bytes → ℕ → ℕ → Result RequestError (Unit {0})
validate bytes baud timeout_ms = do
  ensure (not (is_empty bytes)) payload_empty
  ensure (leb (length bytes) max_serial_write_bytes) payload_too_large
  ensure (ltb 0 baud) serial_baud_zero
  ensure (leb 1 timeout_ms && leb timeout_ms 30000) timeout_range
  ok tt

unfoldable pub from_bytes :
    Hash → Base64 → DeviceId → Bytes → ℕ → ℕ → Result RequestError SerialWriteRequest
from_bytes h b device_id bytes baud timeout_ms = do
  validate bytes baud timeout_ms
  ok (record {
    device_id = device_id;
    text = b.encode bytes;
    digest_text = sha256 h bytes;
    baud = baud;
    timeout_ms = timeout_ms;
  })

-- `MAX_SERIAL_WRITE_BYTES.div_ceil(3) * 4`
abbrev pub max_encoded_len : ℕ
max_encoded_len = (max_serial_write_bytes + 2) / 3 * 4

unfoldable pub decode : Hash → Base64 → SerialWriteRequest → Result RequestError Bytes
decode h b r = do
  ensure (leb (length r.text) max_encoded_len) payload_too_large
  ensure (length r.digest_text == 64) invalid_digest
  bytes ← context (b.decode r.text) invalid_base64
  validate bytes r.baud r.timeout_ms
  ensure (eq_bytes (sha256 h bytes) r.digest_text) digest_mismatch
  ok bytes

unfoldable pub device_request : SerialWriteRequest → DeviceRequest
device_request r = record { device_id = r.device_id; monitor_baud = r.baud; no_reset_before = true }
