-- ===== src/Wire/Admission.antt =====
-- What the requests of src/wire.rs admit.
use idf_remote.Base.{
  ℕ, ◌+◌, ◌^◌, ◌≤◌, ◌<◌, ◌≡◌, ◌↔◌, arith, Bytes, IsByte, All, eq_bytes→eq, eq_bytes_refl, ok,
}
use idf_remote.Device.{DeviceId}
use idf_remote.Wire.Digest.{Hash, sha256, length-sha256}
use idf_remote.Wire.Requests.{max_read_bytes, erase_flash_confirmation, Base64}
use idf_remote.Wire.ReadFlash
use idf_remote.Wire.EraseFlash
use idf_remote.Wire.SerialWrite

-- A request to read flash is admitted exactly when it asks for 1 byte to 32 MiB that end within the
-- 32-bit address space, at bauds the hardware can use.
pub validate_iff :
    (r : ReadFlash.ReadFlashRequest)
    → (ReadFlash.validate r ≡ ok tt) ↔ (
        (1 ≤ r.size)
        × (r.size ≤ max_read_bytes)
        × (115200 ≤ r.flash_baud)
        × (0 < r.monitor_baud)
        × (r.offset + r.size ≤ 2 ^ 32))
unfolding ReadFlash.validate
validate_iff r = ground arith

-- A request to erase the flash is admitted exactly when it holds the confirmation text and a baud
-- of 115200 at least.
pub validate_erase_iff :
    (r : EraseFlash.EraseFlashRequest)
    → (EraseFlash.validate r ≡ ok tt)
      ↔ ((r.confirmation ≡ erase_flash_confirmation) × (115200 ≤ r.flash_baud))
unfolding EraseFlash.validate
validate_erase_iff r =
    let text = r.confirmation in
    (
      λ e. (eq_bytes→eq text erase_flash_confirmation (ground arith), ground arith),
      λ (c, b). rw (c, eq_bytes_refl erase_flash_confirmation) (ground arith),
    )

-- What a client makes of a payload, the daemon reads back as that payload.
pub decode-from_bytes :
    (h : Hash) (b : Base64) (id : DeviceId) (payload : Bytes) (baud timeout_ms : ℕ)
    (r : SerialWrite.SerialWriteRequest)
    → All IsByte payload
    → SerialWrite.from_bytes h b id payload baud timeout_ms ≡ ok r
    → SerialWrite.decode h b r ≡ ok payload
unfolding SerialWrite.from_bytes SerialWrite.decode SerialWrite.validate
decode-from_bytes h b id payload baud timeout_ms r bytes e = ground (
  arith,
  length-sha256 h payload,
  b.decode-encode payload bytes,
  b.length-encode payload,
  eq_bytes_refl (sha256 h payload),
)
