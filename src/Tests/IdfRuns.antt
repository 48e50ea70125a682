-- ===== src/Tests/IdfRuns.antt =====
-- src/idf.rs: the manifest of a small build.
use idf_remote.Base.{
  ℕ, ◌≡◌, refl, true, false, [], ◌∷◌, some, none, eq_bytes, ok, err, if◌then◌else◌,
}
use idf_remote.Base.Text.{codes}
use idf_remote.Plan.Offset.{
  parse_offset, strip_hex, from_str_radix, digits_from, to_digit, add_digit,
}
use idf_remote.Application.Json.{boolean, object, field, end, get_field}
use idf_remote.Idf.Manifest.{
  Manifest, Import, duplicate_selection, dashes_to_underscores, trim_start_underscores, starts_with,
  contains_text, encrypted_value, is_encrypted, check_images, check_reset,
}
use idf_remote.Idf.Import.{
  lookup, insert_entry, lt_bytes, eq_entries, read_settings, Surroundings, contains, image_name,
  add_file, import_files, is_flash_file, import_image, import_selected, import_segments,
  check_manifest, import,
}
use idf_remote.Idf.Imported.{IsFaithful, import-IsFaithful}

-- Every entry is that of the app; the bootloader is empty.
abbrev files : Surroundings ℕ
files = record {
  from_value =
      λ v. some (record { offset = codes "0x20000"; file = codes "app"; encrypted = false });
  len_of = λ p. if eq_bytes p (codes "boot") then some 0 else some 8;
  same_path = eq_bytes;
}

abbrev build : Manifest ℕ
build = record {
  flash_files = (codes "0x0", codes "boot") ∷ (codes "0x20000", codes "app") ∷ [];
  flash_settings =
      (codes "flash_freq", codes "80m")
      ∷ (codes "flash_mode", codes "dio")
      ∷ (codes "flash_size", codes "4MB")
      ∷ [];
  write_flash_args =
      codes "--flash_mode"
      ∷ codes "dio"
      ∷ codes "--flash-size"
      ∷ codes "4MB"
      ∷ codes "--flash_freq"
      ∷ codes "80m"
      ∷ [];
  extra_esptool_args = record {
    chip = codes "esp32s3";
    before = codes "default-reset";
    after = codes "hard_reset";
    stub = true;
  };
  images = (codes "app", object (field (codes "encrypted") (boolean false) end)) ∷ [];
}

abbrev imported : Import
imported = record {
  plan = record {
    version = 1;
    chip = codes "esp32s3";
    flash_settings = record {
      mode = some (codes "dio");
      frequency = some (codes "80m");
      size = some (codes "4MB");
    };
    segments = record { offset = 0x20000; file = codes "app" } ∷ [];
  };
  warnings = record { image = none; offset = 0; file = codes "boot" } ∷ [];
}

import-build : import files build [] ≡ ok imported
unfolding import import_segments import_files add_file image_name check_manifest check_reset
    check_images contains_text starts_with is_encrypted encrypted_value get_field read_settings
    eq_entries lookup insert_entry lt_bytes dashes_to_underscores trim_start_underscores
    parse_offset strip_hex from_str_radix digits_from to_digit add_digit eq_bytes
import-build = refl

import-IsFaithful_example : IsFaithful files build [] imported
import-IsFaithful_example = import-IsFaithful files build [] imported import-build

selected_twice : import files build (codes "app" ∷ codes "app" ∷ []) ≡ err duplicate_selection
unfolding import import_segments import_selected import_image is_flash_file contains check_manifest
    check_reset check_images contains_text starts_with is_encrypted encrypted_value get_field
    read_settings eq_entries lookup insert_entry lt_bytes dashes_to_underscores
    trim_start_underscores parse_offset strip_hex from_str_radix digits_from to_digit add_digit
    eq_bytes
selected_twice = refl
