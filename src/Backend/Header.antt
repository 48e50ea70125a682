-- ===== src/Backend/Header.antt =====
-- The header of a bootloader, as src/backend/flashing.rs reads it byte by byte.
use idf_remote.Base.{
  >>-eq-ok_unit, ℕ, zero, suc, ◌+◌, ◌*◌, ◌≤◌, ◌<◌, ◌≡◌, refl, arith, true, false, List, [], ◌∷◌,
  Option, none, some, Bytes, All, length, leb, leb_iff, ◌==◌, Result, ok, err, >>-eq-ok, inl, inr,
  Bool-cases, ensure, context, ◌>>=◌, if◌then◌else◌, Bool, ◌/◌,
}
use idf_remote.Plan.Types.{PreparedSegment}
use idf_remote.Backend.Validate.{
  Espflash, FlashError, out_of_range, get_elem?, index, size_matches, check_header, check_headers,
  check_detected, detected_mismatch, invalid_header, unencodable_size, chip_mismatch,
  header_disagrees,
}

-- A place before the end holds a byte.
pub get_elem?-length : (n : ℕ) (bs : Bytes) → n < length bs → (b : ℕ) × (get_elem? n bs ≡ some b)
unfolding get_elem?
get_elem?-length n [] h = absurd (omega arith)
get_elem?-length zero (b ∷ bs) h = (b, refl)
get_elem?-length (suc n) (b ∷ bs) h = get_elem?-length n bs (omega arith)

-- No panic of an index.
abbrev pub IsInRange : {A : Type 0} → Result FlashError A → Type 0
IsInRange r = ¬ (r ≡ err out_of_range)

pub >>=-IsInRange :
    {A B : Type 0} (r : Result FlashError A) (next : A → Result FlashError B)
    → IsInRange r
    → ((a : A) → IsInRange (next a))
    → IsInRange (r >>= next)
>>=-IsInRange (err why) next first rest h = first cc
>>=-IsInRange (ok a) next first rest h = rest a h

pub ensure-IsInRange :
    (holds : Bool) (why : FlashError) → ¬ (why ≡ out_of_range) → IsInRange (ensure holds why)
ensure-IsInRange false why other h = other cc
ensure-IsInRange true why other h = cc

pub context-IsInRange :
    {A : Type 0} (o : Option A) (why : FlashError)
    → ¬ (why ≡ out_of_range)
    → IsInRange (context o why)
context-IsInRange none why other h = other cc
context-IsInRange (some a) why other h = cc

pub index-IsInRange : (bs : Bytes) (n : ℕ) → n < length bs → IsInRange (index bs n)
index-IsInRange bs n h = let (b, e) = get_elem?-length n bs h in rw e (λ bad. cc)

module _ {Chip Frequency Size : Type 0} (esp : Espflash Chip Frequency Size) where
  size_matches-IsInRange : (size : Option Size) (b : ℕ) → IsInRange (size_matches esp size b)
  unfolding size_matches
  size_matches-IsInRange none b h = cc
  size_matches-IsInRange (some size) b bad =
      >>=-IsInRange (context (esp.encode_flash_size size) unencodable_size) _
        (context-IsInRange _ unencodable_size (λ e. cc)) (λ code h. cc) bad

  choice-IsInRange :
      (test : Bool) (size : Option Size) (b : ℕ)
      → IsInRange (if test then size_matches esp size b else ok false)
  choice-IsInRange false size b h = cc
  choice-IsInRange true size b h = size_matches-IsInRange size b h

  check_header-IsInRange :
      (chip : Chip) (mode frequency : Option ℕ) (size : Option Size) (bytes : Bytes)
      → IsInRange (check_header esp chip mode frequency size bytes)
  unfolding check_header
  check_header-IsInRange chip mode frequency size bytes =
      elim (Bool-cases (leb 24 (length bytes))) [
        | inl long ↦ rw long (
            >>=-IsInRange (index bytes 0) _ (index-IsInRange bytes 0 (ground arith)) (λ magic.
              >>=-IsInRange (ensure (magic == 0xe9) invalid_header) _
                (ensure-IsInRange _ _ (λ e. cc))
                (λ u.
                  >>=-IsInRange (index bytes 12) _ (index-IsInRange bytes 12 (ground arith)) (λ low.
                    >>=-IsInRange (index bytes 13) _ (index-IsInRange bytes 13 (ground arith))
                      (λ high.
                        >>=-IsInRange (ensure (low + high * 256 == esp.chip_id chip) chip_mismatch)
                          _ (ensure-IsInRange _ _ (λ e. cc))
                          (λ v.
                            >>=-IsInRange (index bytes 2) _ (index-IsInRange bytes 2 (ground arith))
                              (λ mode_byte.
                                >>=-IsInRange (index bytes 3) _
                                  (index-IsInRange bytes 3 (ground arith))
                                  (λ config.
                                    >>=-IsInRange _ _ (choice-IsInRange _ size config) (λ matches.
                                      ensure-IsInRange matches header_disagrees (λ e. cc))))))))))
        | inr short ↦ rw short (λ h. cc)
      ]

  -- Where the header of the chip would be, a segment is long enough to hold it.
  abbrev pub HoldsHeader : Chip → PreparedSegment → Type 0
  HoldsHeader chip s = (s.offset == esp.boot_address chip) ≡ true → 24 ≤ length s.image

  check_header-length :
      (chip : Chip) (mode frequency : Option ℕ) (size : Option Size) (bytes : Bytes)
      → check_header esp chip mode frequency size bytes ≡ ok tt
      → 24 ≤ length bytes
  unfolding check_header
  check_header-length chip mode frequency size bytes e =
      (leb_iff 24 (length bytes)).0 (>>-eq-ok (leb 24 (length bytes)) invalid_header _ e).0

  pub check_headers-IsInRange :
      (chip : Chip) (mode frequency : Option ℕ) (size : Option Size) (ss : List PreparedSegment)
      → IsInRange (check_headers esp chip mode frequency size ss)
  unfolding check_headers
  check_headers-IsInRange chip mode frequency size [] = λ h. cc
  check_headers-IsInRange chip mode frequency size (s ∷ ss) =
      elim (Bool-cases (s.offset == esp.boot_address chip)) [
        | inl at_boot ↦ rw at_boot (
            >>=-IsInRange (check_header esp chip mode frequency size s.image) _
              (check_header-IsInRange chip mode frequency size s.image)
              (λ u. check_headers-IsInRange chip mode frequency size ss))
        | inr elsewhere ↦ rw elsewhere (check_headers-IsInRange chip mode frequency size ss)
      ]

  pub check_headers-HoldsHeader :
      (chip : Chip) (mode frequency : Option ℕ) (size : Option Size) (ss : List PreparedSegment)
      → check_headers esp chip mode frequency size ss ≡ ok tt
      → All (HoldsHeader chip) ss
  unfolding check_headers
  check_headers-HoldsHeader chip mode frequency size [] = λ e. tt
  check_headers-HoldsHeader chip mode frequency size (s ∷ ss) =
      elim (Bool-cases (s.offset == esp.boot_address chip)) [
        | inl at_boot ↦ rw at_boot (λ e.
            let (here, later) =
              >>-eq-ok_unit (check_header esp chip mode frequency size s.image) _ e in
            (
              λ h. check_header-length chip mode frequency size s.image here,
              check_headers-HoldsHeader chip mode frequency size ss later,
            ))
        | inr elsewhere ↦
            rw elsewhere
              (λ e. (λ h. absurd cc, check_headers-HoldsHeader chip mode frequency size ss e))
      ]

  pub check_detected-IsInRange :
      (chip : Chip) (header_size : ℕ) (ss : List PreparedSegment)
      → All (HoldsHeader chip) ss
      → IsInRange (check_detected esp chip header_size ss)
  unfolding check_detected
  check_detected-IsInRange chip header_size [] all = λ h. cc
  check_detected-IsInRange chip header_size (s ∷ ss) (here, later) =
      elim (Bool-cases (s.offset == esp.boot_address chip)) [
        | inl at_boot ↦
            let long = here at_boot in
            rw at_boot (
              >>=-IsInRange (index s.image 3) _ (index-IsInRange s.image 3 (omega arith)) (λ config.
                >>=-IsInRange (ensure (config / 16 == header_size) detected_mismatch) _
                  (ensure-IsInRange _ _ (λ e. cc))
                  (λ u. check_detected-IsInRange chip header_size ss later)))
        | inr elsewhere ↦ rw elsewhere (check_detected-IsInRange chip header_size ss later)
      ]
