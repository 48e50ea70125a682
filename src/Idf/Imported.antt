-- ===== src/Idf/Imported.antt =====
-- What `import` of src/idf.rs keeps of its manifest.
use idf_remote.Base.{
  ℕ, ◌<◌, ◌≤◌, ◌≡◌, refl, ap, arith, true, false, not, ◌&&◌, Option, Bool-cases, inl, inr, List, [],
  ◌∷◌, some, Bytes, ltb, ◌==◌, length, is_empty, is_empty_iff, All, Result, ok, err, context,
  >>=-eq-ok, >>-eq-ok, context-eq-ok, ok_injective,
}
use mathlib.Core.Path.{subst}
use mathlib.Core.List.{Memᴰ}
use idf_remote.Base.Text.{codes}
use idf_remote.Plan.Types.{FileSegment}
use idf_remote.Plan.Offset.{OffsetError, parse_offset}
use idf_remote.Application.Json.{Value}
use idf_remote.Idf.Manifest.{
  Entries, Manifest, Image, ImportWarning, Import, encrypted_image, unknown_image, invalid_image,
  no_match, no_artifact, empty_image, nothing_to_flash, duplicate_selection,
}
use idf_remote.Idf.Import.{
  lookup, map_offset, has_offset, image_name, Surroundings, contains, add_file, import_files,
  is_flash_file, import_image, import_selected, import_segments, check_manifest, import,
}
use idf_remote.Idf.Checked.{IsPlainImage, check_manifest_tests}

map_offset-eq-ok : (r : Result OffsetError ℕ) (n : ℕ) → map_offset r ≡ ok n → r ≡ ok n
map_offset-eq-ok (err why) n e = absurd (cc)
map_offset-eq-ok (ok x) n e = cc

has_offset-eq-ok : (r : Result OffsetError ℕ) (n : ℕ) → has_offset n r ≡ true → r ≡ ok n
has_offset-eq-ok (err why) n e = cc
has_offset-eq-ok (ok x) n e = ap ok (ground arith)

module _ {N : Type 0} (w : Surroundings N) where
  -- An entry of `flash_files` that names an offset, and a file that is the same path.
  abbrev pub IsEntryOf : ℕ → Bytes → Bytes × Bytes → Type 0
  IsEntryOf offset path (key, file) =
      (parse_offset key ≡ ok offset) × (w.same_path file path ≡ true)

  is_flash_file-Mem :
      (files : Entries Bytes) (offset : ℕ) (path : Bytes)
      → is_flash_file w files offset path ≡ true
      → (entry : Bytes × Bytes) × Memᴰ entry files × IsEntryOf offset path entry
  unfolding is_flash_file
  is_flash_file-Mem [] offset path e = cc
  is_flash_file-Mem ((key, file) ∷ files) offset path e =
      elim (Bool-cases (has_offset offset (parse_offset key) && w.same_path file path)) [
        | inl this ↦ (
          (key, file),
          Memᴰ.head refl,
          (has_offset-eq-ok (parse_offset key) offset (ground arith), ground arith),
        )
        | inr other ↦
            let (entry, m, is_entry) = is_flash_file-Mem files offset path (rw other at e) in
            (entry, Memᴰ.tail m, is_entry)
      ]

  -- The segment that a name of the selection gives: the file and the offset of the image of that name,
  -- which is not encrypted, and which `flash_files` lists; the file is there and not empty.
  pub record IsOf (m : Manifest N) (name : Bytes) (s : FileSegment) : Type 0 where
    pub value : Value N
    pub image : Image
    pub named : lookup name m.images ≡ some value
    pub reads : w.from_value value ≡ some image
    pub open_text : image.encrypted ≡ false
    pub offset_is : parse_offset image.offset ≡ ok s.offset
    pub file_is : s.file ≡ image.file
    pub entry : Bytes × Bytes
    pub listed : Memᴰ entry m.flash_files
    pub is_entry : IsEntryOf s.offset s.file entry
    pub len : ℕ
    pub len_is : w.len_of s.file ≡ some len
    pub not_empty : 0 < len

  -- The segments of a selection, one for each name and in its order.
  abbrev pub AreOf : Manifest N → List Bytes → List FileSegment → Type 0
  AreOf m [] [] = Unit
  AreOf m [] (s ∷ ss) = ⊥
  AreOf m (name ∷ names) [] = ⊥
  AreOf m (name ∷ names) (s ∷ ss) = IsOf m name s × AreOf m names ss

  -- The segments and the warnings of all files, each entry of `flash_files` in its order: a segment with
  -- its offset and file when the file is not empty, and a warning with them when it is.
  pub data Covers : Entries Bytes → List FileSegment → List ImportWarning → Type 0 where
    nothing : Covers [] [] []
    segment :
        {files : Entries Bytes} {ss : List FileSegment} {xs : List ImportWarning} (key file : Bytes)
        (offset len : ℕ)
        → parse_offset key ≡ ok offset
        → w.len_of file ≡ some len
        → 0 < len
        → Covers files ss xs
        → Covers ((key, file) ∷ files) (record { offset = offset; file = file } ∷ ss) xs
    warning :
        {files : Entries Bytes} {ss : List FileSegment} {xs : List ImportWarning} (key file : Bytes)
        (offset : ℕ) (image : Option Bytes)
        → parse_offset key ≡ ok offset
        → w.len_of file ≡ some 0
        → Covers files ss xs
        → Covers
            ((key, file) ∷ files)
            ss
            (record { image = image; offset = offset; file = file } ∷ xs)

  -- What an import makes of its selection: without one, of all files.
  abbrev pub Accounts : Manifest N → List Bytes → List FileSegment × List ImportWarning → Type 0
  Accounts m [] (ss, xs) = Covers m.flash_files ss xs
  Accounts m (name ∷ names) (ss, xs) = AreOf m (name ∷ names) ss × (xs ≡ [])

  import_image-IsOf :
      (m : Manifest N) (name : Bytes) (s : FileSegment)
      → import_image w m name ≡ ok s
      → IsOf m name s
  unfolding import_image
  import_image-IsOf m name s e =
      let (value, known, e1) = >>=-eq-ok (context (lookup name m.images) unknown_image) _ e in
      let (image, reads, e2) = >>=-eq-ok (context (w.from_value value) invalid_image) _ e1 in
      let (plain, e3) = >>-eq-ok (not image.encrypted) encrypted_image _ e2 in
      let (offset, at_offset, e4) = >>=-eq-ok (map_offset (parse_offset image.offset)) _ e3 in
      let (found, e5) = >>-eq-ok (is_flash_file w m.flash_files offset image.file) no_match _ e4 in
      let (len, has_len, e6) = >>=-eq-ok (context (w.len_of image.file) no_artifact) _ e5 in
      let (some_bytes, e7) = >>-eq-ok (ltb 0 len) empty_image _ e6 in
      let (entry, listed, is_entry) = is_flash_file-Mem m.flash_files offset image.file found in
      subst (IsOf m name) (ok_injective e7) (record {
        value = value;
        image = image;
        named = context-eq-ok (lookup name m.images) unknown_image value known;
        reads = context-eq-ok (w.from_value value) invalid_image image reads;
        open_text = ground arith;
        offset_is = map_offset-eq-ok (parse_offset image.offset) offset at_offset;
        file_is = refl;
        entry = entry;
        listed = listed;
        is_entry = is_entry;
        len = len;
        len_is = context-eq-ok (w.len_of image.file) no_artifact len has_len;
        not_empty = ground arith;
      })

  import_selected-AreOf :
      (m : Manifest N) (seen names : List Bytes) (ss : List FileSegment)
      → import_selected w m seen names ≡ ok ss
      → AreOf m names ss
  unfolding import_selected
  import_selected-AreOf m seen [] ss e = subst (AreOf m []) (ok_injective e) tt
  import_selected-AreOf m seen (name ∷ names) ss e =
      let (_, e1) = >>-eq-ok (not (contains name seen)) duplicate_selection _ e in
      let (s, first, e2) = >>=-eq-ok (import_image w m name) _ e1 in
      let (rest, later, e3) = >>=-eq-ok (import_selected w m (name ∷ seen) names) _ e2 in
      subst (AreOf m (name ∷ names)) (ok_injective e3)
        (import_image-IsOf m name s first, import_selected-AreOf m (name ∷ seen) names rest later)

  add_file-Covers :
      (images : Entries (Value N)) (files : Entries Bytes) (key file : Bytes) (offset len : ℕ)
      (r : List FileSegment × List ImportWarning)
      → parse_offset key ≡ ok offset
      → w.len_of file ≡ some len
      → Covers files r.0 r.1
      → Covers
          ((key, file) ∷ files)
          (add_file w images offset file len r).0
          (add_file w images offset file len r).1
  unfolding add_file
  add_file-Covers images files key file offset len (ss, xs) at_offset has_len k =
      elim (Bool-cases (len == 0)) [
        | inl empty ↦
            let len_is : len ≡ 0 = ground arith in
            rw empty (
              warning key file offset (image_name w images offset file) at_offset
                (rw len_is at has_len) k)
        | inr full ↦ rw full (segment key file offset len at_offset has_len (ground arith) k)
      ]

  import_files-Covers :
      (images : Entries (Value N)) (files : Entries Bytes)
      (r : List FileSegment × List ImportWarning)
      → import_files w images files ≡ ok r
      → Covers files r.0 r.1
  unfolding import_files
  import_files-Covers images [] r e = subst (λ t. Covers [] t.0 t.1) (ok_injective e) nothing
  import_files-Covers images ((key, file) ∷ files) r e =
      let (offset, parsed, e1) = >>=-eq-ok (map_offset (parse_offset key)) _ e in
      let (len, has_len, e2) = >>=-eq-ok (context (w.len_of file) no_artifact) _ e1 in
      let (rest, later, e3) = >>=-eq-ok (import_files w images files) _ e2 in
      subst (λ t. Covers ((key, file) ∷ files) t.0 t.1) (ok_injective e3)
        (add_file-Covers images files key file offset len rest
          (map_offset-eq-ok (parse_offset key) offset parsed)
          (context-eq-ok (w.len_of file) no_artifact len has_len)
          (import_files-Covers images files rest later))

  import_segments-Accounts :
      (m : Manifest N) (selected : List Bytes) (r : List FileSegment × List ImportWarning)
      → import_segments w m selected ≡ ok r
      → Accounts m selected r
  unfolding import_segments
  import_segments-Accounts m [] r e = import_files-Covers m.images m.flash_files r e
  import_segments-Accounts m (name ∷ names) r e =
      let (ss, chosen, e1) = >>=-eq-ok (import_selected w m [] (name ∷ names)) _ e in
      subst (Accounts m (name ∷ names)) (ok_injective e1)
        (import_selected-AreOf m [] (name ∷ names) ss chosen, refl)

  -- What an import has in common with its manifest.
  pub record IsFaithful (m : Manifest N) (selected : List Bytes) (x : Import) : Type 0 where
    pub plain : All IsPlainImage m.images
    pub chip_is : x.plan.chip ≡ m.extra_esptool_args.chip
    pub mode_is : x.plan.flash_settings.mode ≡ lookup (codes "flash_mode") m.flash_settings
    pub frequency_is :
        x.plan.flash_settings.frequency ≡ lookup (codes "flash_freq") m.flash_settings
    pub size_is : x.plan.flash_settings.size ≡ lookup (codes "flash_size") m.flash_settings
    pub three_settings : length m.flash_settings ≡ 3
    pub accounts : Accounts m selected (x.plan.segments, x.warnings)
    pub some_segments : 1 ≤ length x.plan.segments

  -- An import that succeeds is faithful to the manifest. No image is encrypted, by its name or by what its
  -- entry says; chip and settings are those of the manifest, three in number. Without a selection, each
  -- entry of `flash_files`, in order, gives a segment with its offset and file when the file is not empty,
  -- and a warning with them when it is. With one, each name, in order, gives the segment with the offset
  -- and the file of the image of that name, which an entry of `flash_files` lists and which is not empty;
  -- and there are no warnings. There is a segment.
  pub import-IsFaithful :
      (m : Manifest N) (selected : List Bytes) (x : Import)
      → import w m selected ≡ ok x
      → IsFaithful m selected x
  unfolding import
  import-IsFaithful m selected x e =
      let (settings, checked, e1) = >>=-eq-ok (check_manifest m) _ e in
      let ((ss, xs), made, e2) = >>=-eq-ok (import_segments w m selected) _ e1 in
      let (some_of, e3) = >>-eq-ok (not (is_empty ss)) nothing_to_flash _ e2 in
      let (plain, same, three) = check_manifest_tests m settings checked in
      subst (IsFaithful m selected) (ok_injective e3) (record {
        plain = plain;
        chip_is = refl;
        mode_is = rw same;
        frequency_is = rw same;
        size_is = rw same;
        three_settings = rw (← same) three;
        accounts = import_segments-Accounts m selected (ss, xs) made;
        some_segments = (is_empty_iff ss).0 (ground arith);
      })
