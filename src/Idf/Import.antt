-- ===== src/Idf/Import.antt =====
-- `import` and `image_name` of src/idf.rs. The reader of an image entry, the sizes of the files and the
-- equality of paths are parameters.
use idf_remote.Base.{
  ℕ, Bool, true, false, not, ◌&&◌, ◌||◌, List, [], ◌∷◌, Option, some, none, Bytes, eq_bytes, ltb,
  ◌==◌, length, is_empty, if◌then◌else◌, Result, ok, err, ensure, context, ◌>>=◌, ◌>>◌,
}
use idf_remote.Base.Text.{codes}
use idf_remote.Plan.Types.{FileSegment}
use idf_remote.Plan.Offset.{OffsetError, parse_offset}
use idf_remote.Application.Json.{Value}
use idf_remote.Idf.Manifest.{
  Entries, Manifest, Image, ImportWarning, Import, ImportError, unsupported_argument, missing_value,
  duplicate_argument, settings_disagree, settings_count, no_artifact, duplicate_selection,
  unknown_image, invalid_image, encrypted_image, no_match, empty_image, nothing_to_flash,
  invalid_offset, dashes_to_underscores, trim_start_underscores, check_images, check_reset,
}

-- The order of texts, by their bytes.
unfoldable pub lt_bytes : Bytes → Bytes → Bool
lt_bytes a [] = false
lt_bytes [] (d ∷ ds) = true
lt_bytes (c ∷ cs) (d ∷ ds) = let rest = lt_bytes cs ds in ltb c d || c == d && rest

unfoldable pub lookup : {V : Type 0} → Bytes → Entries V → Option V
lookup key [] = none
lookup key ((k, v) ∷ entries) =
    let rest = lookup key entries in if eq_bytes k key then some v else rest

-- `insert`, of a key that is not there.
unfoldable pub insert_entry : {V : Type 0} → Bytes → V → Entries V → Entries V
insert_entry key value [] = (key, value) ∷ []
insert_entry key value ((k, v) ∷ entries) =
    let rest = insert_entry key value entries in
    if lt_bytes key k then (key, value) ∷ (k, v) ∷ entries else (k, v) ∷ rest

abbrev pub is_none : {V : Type 0} → Option V → Bool
is_none none = true
is_none (some v) = false

-- `settings == manifest.flash_settings`
unfoldable pub eq_entries : Entries Bytes → Entries Bytes → Bool
eq_entries [] [] = true
eq_entries [] (e ∷ es) = false
eq_entries (e ∷ es) [] = false
eq_entries ((k, v) ∷ es) ((j, w) ∷ fs) =
    let rest = eq_entries es fs in eq_bytes k j && eq_bytes v w && rest

abbrev pub is_flash_key : Bytes → Bool
is_flash_key key =
    eq_bytes key (codes "flash_mode")
    || eq_bytes key (codes "flash_freq")
    || eq_bytes key (codes "flash_size")

abbrev pub key_of : Bytes → Bytes
key_of arg = trim_start_underscores (dashes_to_underscores arg)

-- The loop over `write_flash_args`, two at a time.
unfoldable pub read_settings : Entries Bytes → List Bytes → Result ImportError (Entries Bytes)
read_settings settings [] = ok settings
read_settings settings (arg ∷ []) = do
  ensure (is_flash_key (key_of arg)) unsupported_argument
  err missing_value
read_settings settings (arg ∷ value ∷ args) = do
  ensure (is_flash_key (key_of arg)) unsupported_argument
  ensure (is_none (lookup (key_of arg) settings)) duplicate_argument
  read_settings (insert_entry (key_of arg) value settings) args

abbrev pub map_offset : Result OffsetError ℕ → Result ImportError ℕ
map_offset (err why) = err (invalid_offset why)
map_offset (ok n) = ok n

-- `parse_offset(key).ok() == Some(offset)`
abbrev pub has_offset : ℕ → Result OffsetError ℕ → Bool
has_offset offset (err why) = false
has_offset offset (ok n) = n == offset

-- What the code calls: `serde_json::from_value` of an image entry, the length of the artifact that a
-- path names below the base, and whether two paths are the same.
pub record Surroundings (N : Type 0) : Type 0 where
  pub from_value : Value N → Option Image
  pub len_of : Bytes → Option ℕ
  pub same_path : Bytes → Bytes → Bool

unfoldable pub contains : Bytes → List Bytes → Bool
contains name [] = false
contains name (x ∷ xs) = let rest = contains name xs in eq_bytes x name || rest

-- The tests that do not look at a file, and the settings.
unfoldable pub check_manifest : {N : Type 0} → Manifest N → Result ImportError (Entries Bytes)
check_manifest m = do
  check_reset m.extra_esptool_args
  check_images m.images
  settings ← read_settings [] m.write_flash_args
  ensure (eq_entries settings m.flash_settings) settings_disagree
  ensure (length settings == 3) settings_count
  ok settings

module _ {N : Type 0} (w : Surroundings N) where
  -- Whether an entry is that of an artifact at an offset.
  abbrev pub names_artifact : ℕ → Bytes → Option Image → Bool
  names_artifact offset file none = false
  names_artifact offset file (some image) =
      has_offset offset (parse_offset image.offset) && w.same_path image.file file

  unfoldable pub image_name : Entries (Value N) → ℕ → Bytes → Option Bytes
  image_name [] offset file = none
  image_name ((name, value) ∷ images) offset file =
      let rest = image_name images offset file in
      if names_artifact offset file (w.from_value value) then some name else rest

  -- What a file adds: a segment, or a warning when it is empty.
  unfoldable pub add_file :
      Entries (Value N)
      → ℕ
      → Bytes
      → ℕ
      → List FileSegment × List ImportWarning
      → List FileSegment × List ImportWarning
  add_file images offset file len (segments, warnings) =
      if len == 0
      then (
        segments,
        record { image = image_name images offset file; offset = offset; file = file } ∷ warnings,
      )
      else (record { offset = offset; file = file } ∷ segments, warnings)

  -- All files of the manifest, when no image is selected.
  unfoldable pub import_files :
      Entries (Value N) → Entries Bytes → Result ImportError (List FileSegment × List ImportWarning)
  import_files images [] = ok ([], [])
  import_files images ((key, file) ∷ files) = do
    offset ← map_offset (parse_offset key)
    len ← context (w.len_of file) no_artifact
    rest ← import_files images files
    ok (add_file images offset file len rest)

  -- `.any(|(key, file)| ..)`
  unfoldable pub is_flash_file : Entries Bytes → ℕ → Bytes → Bool
  is_flash_file [] offset path = false
  is_flash_file ((key, file) ∷ files) offset path =
      let rest = is_flash_file files offset path in
      has_offset offset (parse_offset key) && w.same_path file path || rest

  -- One round of the loop over the selection.
  unfoldable pub import_image : Manifest N → Bytes → Result ImportError FileSegment
  import_image m name = do
    value ← context (lookup name m.images) unknown_image
    image ← context (w.from_value value) invalid_image
    ensure (not image.encrypted) encrypted_image
    offset ← map_offset (parse_offset image.offset)
    ensure (is_flash_file m.flash_files offset image.file) no_match
    len ← context (w.len_of image.file) no_artifact
    ensure (ltb 0 len) empty_image
    ok (record { offset = offset; file = image.file })

  unfoldable pub import_selected :
      Manifest N → List Bytes → List Bytes → Result ImportError (List FileSegment)
  import_selected m seen [] = ok []
  import_selected m seen (name ∷ names) = do
    ensure (not (contains name seen)) duplicate_selection
    segment ← import_image m name
    rest ← import_selected m (name ∷ seen) names
    ok (segment ∷ rest)

  unfoldable pub import_segments :
      Manifest N → List Bytes → Result ImportError (List FileSegment × List ImportWarning)
  import_segments m [] = import_files m.images m.flash_files
  import_segments m (name ∷ names) = do
    segments ← import_selected m [] (name ∷ names)
    ok (segments, [])

  -- `import`, of the manifest that the file holds.
  unfoldable pub import : Manifest N → List Bytes → Result ImportError Import
  import m selected = do
    settings ← check_manifest m
    (segments, warnings) ← import_segments m selected
    ensure (not (is_empty segments)) nothing_to_flash
    ok (record {
      plan = record {
        version = 1;
        chip = m.extra_esptool_args.chip;
        flash_settings = record {
          mode = lookup (codes "flash_mode") settings;
          frequency = lookup (codes "flash_freq") settings;
          size = lookup (codes "flash_size") settings;
        };
        segments = segments;
      };
      warnings = warnings;
    })
