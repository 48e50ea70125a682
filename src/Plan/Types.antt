-- ===== src/Plan/Types.antt =====
-- The data of src/plan.rs. Text is its bytes.
use idf_remote.Base.{ℕ, ◌*◌, List, Option, Bytes}

-- 128 MiB.
abbrev pub max_artifact_bytes : ℕ
max_artifact_bytes = 128 * 1024 * 1024

abbrev pub sector_size : ℕ
sector_size = 4096

pub record FlashSettings : Type 0 where
  pub mode : Option Bytes
  pub frequency : Option Bytes
  pub size : Option Bytes

pub record FileSegment : Type 0 where
  pub offset : ℕ  -- u32
  pub file : Bytes

pub record FlashPlan : Type 0 where
  pub version : ℕ
  pub chip : Bytes
  pub flash_settings : FlashSettings
  pub segments : List FileSegment

pub record PreparedSegment : Type 0 where
  pub offset : ℕ  -- u32
  pub image : Bytes  -- the field `data`
  pub original_size : ℕ

pub record PreparedPlan : Type 0 where
  pub chip : Bytes
  pub flash_settings : FlashSettings
  pub segments : List PreparedSegment
