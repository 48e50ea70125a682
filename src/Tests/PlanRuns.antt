-- ===== src/Tests/PlanRuns.antt =====
-- src/plan.rs on plans of two small files.
use idf_remote.Base.{ℕ, ◌≡◌, refl, [], ◌∷◌, some, none, Option, Bytes, ok, err, context}
use idf_remote.Base.Words.{next_multiple_of}
use idf_remote.Base.Sorting.{sort_by_key, adjacent}
use idf_remote.Base.Text.{codes}
use idf_remote.Plan.Types.{FlashPlan, PreparedPlan}
use idf_remote.Plan.Offset.{
  parse_offset, invalid_offset, strip_hex, from_str_radix, digits_from, to_digit, add_digit,
}
use idf_remote.Plan.Offset.Value.{parse_offset-stands_for, fits_u32, stands_for}
use idf_remote.Plan.Prepare.{shared_sector, prepare, prepare_segments, prepare_segment, pad}
use idf_remote.Plan.Layout.{IsLayout, IsSnapshotOf, prepare-IsLayout, prepare-IsSnapshotOf}

-- Every file holds three bytes.
abbrev pub three_bytes : Bytes → Option Bytes
three_bytes file = some (1 ∷ 2 ∷ 3 ∷ [])

abbrev pub plan_at : ℕ → ℕ → FlashPlan
plan_at a b = record {
  version = 1;
  chip = codes "esp32s3";
  flash_settings = record { mode = none; frequency = none; size = none };
  segments =
      record { offset = a; file = codes "app.bin" }
      ∷ record { offset = b; file = codes "boot.bin" }
      ∷ [];
}

abbrev pub prepared : PreparedPlan
prepared = record {
  chip = codes "esp32s3";
  flash_settings = record { mode = none; frequency = none; size = none };
  segments =
      record { offset = 0; image = 1 ∷ 2 ∷ 3 ∷ 0xff ∷ []; original_size = 3 }
      ∷ record { offset = 0x10000; image = 1 ∷ 2 ∷ 3 ∷ 0xff ∷ []; original_size = 3 }
      ∷ [];
}

pub prepare-prepared : prepare three_bytes (plan_at 0x10000 0) ≡ ok prepared
unfolding prepare prepare_segments prepare_segment pad next_multiple_of sort_by_key adjacent
prepare-prepared = refl

prepare_shared : prepare three_bytes (plan_at 4 0) ≡ err shared_sector
unfolding prepare prepare_segments prepare_segment pad next_multiple_of sort_by_key adjacent
prepare_shared = refl

prepare-IsLayout_example : IsLayout prepared
prepare-IsLayout_example =
    prepare-IsLayout three_bytes (plan_at 0x10000 0) prepared prepare-prepared

prepare-IsSnapshotOf_example : IsSnapshotOf three_bytes (plan_at 0x10000 0) prepared
prepare-IsSnapshotOf_example =
    prepare-IsSnapshotOf three_bytes (plan_at 0x10000 0) prepared prepare-prepared

parse_offset_hex : parse_offset (codes "0x10000") ≡ ok 65536
unfolding parse_offset strip_hex from_str_radix digits_from to_digit add_digit
parse_offset_hex = refl

parse_offset_large : parse_offset (codes "0x100000000") ≡ err invalid_offset
unfolding parse_offset strip_hex from_str_radix digits_from to_digit add_digit
parse_offset_large = refl

parse_offset-stands_for_example :
    parse_offset (codes "0x10000")
    ≡ context (fits_u32 (stands_for (codes "0x10000"))) invalid_offset
parse_offset-stands_for_example = parse_offset-stands_for (codes "0x10000")
