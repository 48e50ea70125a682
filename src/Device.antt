-- ===== src/Device.antt =====
-- src/device.rs: device identity, status and capabilities.
use idf_remote.Base.{
  Bool, true, false, ◌||◌, List, [], ◌∷◌, Option, Bytes, length, is_empty, ltb, Result, ok, err,
  if◌then◌else◌,
}
use mathlib.Core.Logic.{ite}

-- `DeviceId` wraps its text.
pub record DeviceId : Type 0 where
  pub text : Bytes

pub data DeviceError : Type 0 where
  device_id_length : DeviceError

-- `DeviceId::new`
unfoldable pub new : Bytes → Result DeviceError DeviceId
new value =
    if is_empty value || ltb 256 (length value)
    then err device_id_length
    else ok (record { text = value })

pub data DeviceAvailability : Type 0 where
  available permission_required disconnected identity_mismatch ambiguous : DeviceAvailability

pub data DeviceActivity : Type 0 where
  idle busy monitoring reconnecting error : DeviceActivity

pub record DeviceStatus : Type 0 where
  pub availability : DeviceAvailability
  pub activity : DeviceActivity

abbrev pub available_idle : DeviceStatus
available_idle = record { availability = available; activity = idle }

pub data DeviceCapability : Type 0 where
  probe flash read_flash erase_flash serial_write reset monitor : DeviceCapability

unfoldable pub DeviceCapability-discrete : Discrete DeviceCapability
DeviceCapability-discrete = hlevel

pub record TransportDescriptor : Type 0 where
  pub kind : Bytes
  pub address : Option Bytes
  pub metadata : List (Bytes × Bytes)

pub record DeviceDescriptor : Type 0 where
  pub id : DeviceId
  pub display_name : Bytes
  pub transport : TransportDescriptor
  pub status : DeviceStatus
  pub capabilities : List DeviceCapability

-- `capabilities.contains(&capability)`
unfoldable pub contains : List DeviceCapability → DeviceCapability → Bool
unfolding DeviceCapability-discrete
contains [] c = false
contains (x ∷ xs) c = ite (DeviceCapability-discrete x c) true (contains xs c)

unfoldable pub supports : DeviceDescriptor → DeviceCapability → Bool
supports d c = contains d.capabilities c
