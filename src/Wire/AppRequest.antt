-- ===== src/Wire/AppRequest.antt =====
-- `ApplicationRequest` of src/wire.rs: a command for the application, or none for a connection only.
use idf_remote.Base.{ℕ, ◌&&◌, leb, Option, none, some, Result, ok, err, ensure, ◌>>◌}
use idf_remote.Device.{DeviceId}
use idf_remote.Application.Json.{Serde, Command, AppError, payload}

-- The messages of the two tests here, and those of `Command::payload`.
pub data AppRequestError : Type 0 where
  monitor_baud_zero timeout_range : AppRequestError
  command_refused : AppError → AppRequestError

abbrev pub default_serial_write_timeout_ms : ℕ
default_serial_write_timeout_ms = 2000

pub record ApplicationRequest (N : Type 0) : Type 0 where
  pub device_id : DeviceId
  pub monitor_baud : ℕ
  pub timeout_ms : ℕ
  pub command : Option (Command N)

module _ {N : Type 0} (serde : Serde N) where
  unfoldable pub check_command : Option (Command N) → Result AppRequestError (Unit {0})
  check_command none = ok tt
  check_command (some command) = elim (payload serde command) [
    | err e ↦ err (command_refused e)
    | ok bytes ↦ ok tt
  ]

  unfoldable pub validate : ApplicationRequest N → Result AppRequestError (Unit {0})
  validate request = do
    ensure (leb 1 request.monitor_baud) monitor_baud_zero
    ensure (leb 1 request.timeout_ms && leb request.timeout_ms 30000) timeout_range
    check_command request.command
