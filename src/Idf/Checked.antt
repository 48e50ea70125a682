-- ===== src/Idf/Checked.antt =====
-- What the tests of `import` of src/idf.rs on the manifest itself let through.
use idf_remote.Base.{
  ◌≡◌, refl, arith, true, false, not, [], ◌∷◌, Bytes, eq_bytes→eq, ◌==◌, length, All, ok, >>=-eq-ok,
  >>-eq-ok, ok_injective,
}
use mathlib.Core.Path.{subst}
use idf_remote.Base.Text.{codes}
use idf_remote.Application.Json.{Value, get}
use idf_remote.Idf.Manifest.{
  Entries, Manifest, encrypted_image, settings_disagree, settings_count, contains_text,
  is_encrypted, check_images, check_reset,
}
use idf_remote.Idf.Import.{eq_entries, read_settings, check_manifest}

-- An entry that is not encrypted, by its name and by what it says.
abbrev pub IsPlainImage : {N : Type 0} → Bytes × Value N → Type 0
IsPlainImage (name, image) =
    (contains_text (codes "encrypt") name ≡ false)
    × (is_encrypted (get image (codes "encrypted")) ≡ ok false)

check_images-IsPlainImage :
    {N : Type 0} (images : Entries (Value N))
    → check_images images ≡ ok tt
    → All IsPlainImage images
unfolding check_images
check_images-IsPlainImage [] e = tt
check_images-IsPlainImage ((name, image) ∷ images) e =
    let (plain, e1) = >>-eq-ok (not (contains_text (codes "encrypt") name)) encrypted_image _ e in
    let (b, says, e2) = >>=-eq-ok (is_encrypted (get image (codes "encrypted"))) _ e1 in
    let (open_text, e3) = >>-eq-ok (not b) encrypted_image _ e2 in
    let b_is : b ≡ false = ground arith in
    ((ground arith, rw b_is at says), check_images-IsPlainImage images e3)

eq_entries→eq : (es fs : Entries Bytes) → eq_entries es fs ≡ true → es ≡ fs
unfolding eq_entries
eq_entries→eq [] [] e = refl
eq_entries→eq [] (f ∷ fs) e = cc
eq_entries→eq (x ∷ es) [] e = cc
eq_entries→eq ((k, v) ∷ es) ((j, u) ∷ fs) e =
    ground (arith, eq_bytes→eq k j, eq_bytes→eq v u, eq_entries→eq es fs)

pub check_manifest_tests :
    {N : Type 0} (m : Manifest N) (settings : Entries Bytes)
    → check_manifest m ≡ ok settings
    → All IsPlainImage m.images × (settings ≡ m.flash_settings) × (length settings ≡ 3)
unfolding check_manifest
check_manifest_tests m settings e =
    let (_, _, e1) = >>=-eq-ok (check_reset m.extra_esptool_args) _ e in
    let (_, plain, e2) = >>=-eq-ok (check_images m.images) _ e1 in
    let (found, _, e3) = >>=-eq-ok (read_settings [] m.write_flash_args) _ e2 in
    let (agree, e4) = >>-eq-ok (eq_entries found m.flash_settings) settings_disagree _ e3 in
    let (three, e5) = >>-eq-ok (length found == 3) settings_count _ e4 in
    subst (λ es. All IsPlainImage m.images × (es ≡ m.flash_settings) × (length es ≡ 3))
      (ok_injective e5)
      (
        check_images-IsPlainImage m.images plain,
        eq_entries→eq found m.flash_settings agree,
        ground arith,
      )
