-- ===== src/Idf/Manifest.antt =====
-- The manifest of src/idf.rs and the tests that `import` makes before it looks at the images. A `BTreeMap`
-- is the list of its entries in the order of its keys.
use idf_remote.Base.{
  ℕ, Bool, true, false, not, ◌&&◌, ◌||◌, List, [], ◌∷◌, map, Option, some, none, Bytes, eq_bytes,
  ◌==◌, if◌then◌else◌, Result, ok, err, ensure, ◌>>=◌, ◌>>◌,
}
use idf_remote.Base.Text.{codes}
use idf_remote.Plan.Types.{FlashPlan}
use idf_remote.Plan.Offset.{OffsetError}
use idf_remote.Application.Json.{Value, null, boolean, number, string, array, object, get}

abbrev pub Entries : Type 0 → Type 0
Entries V = List (Bytes × V)

pub record ExtraArgs : Type 0 where
  pub chip : Bytes
  pub before : Bytes
  pub after : Bytes
  pub stub : Bool

-- The fields of the file; what is not named goes to `images`.
pub record Manifest (N : Type 0) : Type 0 where
  pub flash_files : Entries Bytes
  pub flash_settings : Entries Bytes
  pub write_flash_args : List Bytes
  pub extra_esptool_args : ExtraArgs
  pub images : Entries (Value N)

pub record Image : Type 0 where
  pub offset : Bytes
  pub file : Bytes
  pub encrypted : Bool

pub record ImportWarning : Type 0 where
  pub image : Option Bytes
  pub offset : ℕ
  pub file : Bytes

pub record Import : Type 0 where
  pub plan : FlashPlan
  pub warnings : List ImportWarning

pub data ImportError : Type 0 where
  unsupported_reset bad_encrypted encrypted_image unsupported_argument missing_value : ImportError
  duplicate_argument settings_disagree settings_count no_artifact : ImportError
  duplicate_selection unknown_image invalid_image no_match empty_image nothing_to_flash :
      ImportError
  invalid_offset : OffsetError → ImportError

-- `replace('-', "_")`
unfoldable pub dashes_to_underscores : Bytes → Bytes
dashes_to_underscores = map (λ c. if c == b'-' then b'_' else c)

-- `trim_start_matches('_')`
unfoldable pub trim_start_underscores : Bytes → Bytes
trim_start_underscores [] = []
trim_start_underscores (c ∷ cs) =
    let rest = trim_start_underscores cs in if c == b'_' then rest else c ∷ cs

unfoldable pub starts_with : Bytes → Bytes → Bool
starts_with [] text = true
starts_with (c ∷ cs) [] = false
starts_with (c ∷ cs) (d ∷ ds) = let rest = starts_with cs ds in c == d && rest

-- `name.contains("encrypt")`, with any text for "encrypt".
unfoldable pub contains_text : Bytes → Bytes → Bool
contains_text needle [] = starts_with needle []
contains_text needle (c ∷ cs) =
    let rest = contains_text needle cs in starts_with needle (c ∷ cs) || rest

unfoldable pub check_reset : ExtraArgs → Result ImportError (Unit {0})
check_reset a =
    ensure
      (eq_bytes (dashes_to_underscores a.before) (codes "default_reset")
        && eq_bytes (dashes_to_underscores a.after) (codes "hard_reset")
        && a.stub)
      unsupported_reset

module _ {N : Type 0} where
  unfoldable pub encrypted_value : Value N → Result ImportError Bool
  encrypted_value (boolean b) = ok b
  encrypted_value (string text) =
      if eq_bytes text (codes "true")
      then ok true
      else if eq_bytes text (codes "false")
      then ok false
      else err bad_encrypted
  encrypted_value null = err bad_encrypted
  encrypted_value (number n) = err bad_encrypted
  encrypted_value (array values) = err bad_encrypted
  encrypted_value (object fields) = err bad_encrypted

  -- `.map(encrypted_value).transpose()?.unwrap_or(false)`
  unfoldable pub is_encrypted : Option (Value N) → Result ImportError Bool
  is_encrypted none = ok false
  is_encrypted (some value) = encrypted_value value

  -- The loop over the images. The value is looked at when the name says nothing.
  unfoldable pub check_images : Entries (Value N) → Result ImportError (Unit {0})
  check_images [] = ok tt
  check_images ((name, image) ∷ images) = do
    ensure (not (contains_text (codes "encrypt") name)) encrypted_image
    encrypted ← is_encrypted (get image (codes "encrypted"))
    ensure (not encrypted) encrypted_image
    check_images images
