-- ===== src/Wire/EraseFlash.antt =====
-- `EraseFlashRequest` of src/wire.rs.
use idf_remote.Base.{ℕ, Bool, Bytes, eq_bytes, leb, Result, ok, ensure, ◌>>◌}
use idf_remote.Device.{DeviceId}
use idf_remote.Wire.Requests.{
  RequestError, baud_too_low, confirmation_required, DeviceRequest, default_baud,
  erase_flash_confirmation,
}

pub record EraseFlashRequest : Type 0 where
  pub device_id : DeviceId
  pub confirmation : Bytes
  pub flash_baud : ℕ
  pub no_reset_before : Bool

unfoldable pub validate : EraseFlashRequest → Result RequestError (Unit {0})
validate r = do
  ensure (eq_bytes r.confirmation erase_flash_confirmation) confirmation_required
  ensure (leb 115200 r.flash_baud) baud_too_low
  ok tt

unfoldable pub device_request : EraseFlashRequest → DeviceRequest
device_request r = record {
  device_id = r.device_id;
  monitor_baud = default_baud;
  no_reset_before = r.no_reset_before;
}
