-- ===== src/Wire/ReadFlash.antt =====
-- `ReadFlashRequest` of src/wire.rs.
use idf_remote.Base.{ℕ, ◌+◌, ◌^◌, Bool, ltb, leb, Result, ok, ensure, ◌>>◌}
use idf_remote.Device.{DeviceId}
use idf_remote.Wire.Requests.{
  RequestError, read_size_zero, read_too_large, baud_too_low, monitor_baud_zero,
  read_address_overflow, DeviceRequest, max_read_bytes,
}

pub record ReadFlashRequest : Type 0 where
  pub device_id : DeviceId
  pub offset : ℕ  -- u32
  pub size : ℕ  -- u32
  pub flash_baud : ℕ
  pub monitor_baud : ℕ
  pub no_reset_before : Bool

unfoldable pub validate : ReadFlashRequest → Result RequestError (Unit {0})
validate r = do
  ensure (ltb 0 r.size) read_size_zero
  ensure (leb r.size max_read_bytes) read_too_large
  ensure (leb 115200 r.flash_baud) baud_too_low
  ensure (ltb 0 r.monitor_baud) monitor_baud_zero
  ensure (leb (r.offset + r.size) (2 ^ 32)) read_address_overflow
  ok tt

unfoldable pub device_request : ReadFlashRequest → DeviceRequest
device_request r = record {
  device_id = r.device_id;
  monitor_baud = r.monitor_baud;
  no_reset_before = r.no_reset_before;
}
