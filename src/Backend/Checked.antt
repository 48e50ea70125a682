-- ===== src/Backend/Checked.antt =====
-- The indexes into a bootloader in src/backend/flashing.rs, over the whole of `validate` and
-- `validate_detected_size`, in the order in which `flash` calls them.
use idf_remote.Base.{
  ℕ, ◌≡◌, refl, true, false, Bool, Bool-cases, Option, none, some, Bytes, All, Result, ok, err,
  context, ◌>>=◌, if◌then◌else◌, >>=-eq-ok, inl, inr,
}
use idf_remote.Plan.Types.{PreparedPlan}
use idf_remote.Plan.Prepare.{PlanError}
use idf_remote.Backend.Validate.{
  Espflash, FlashMode, qio, qout, dio, dout, other, FlashError, invalid_size, unencodable_size,
  invalid_mode, invalid_frequency, unencodable_frequency, unsupported_chip, plan_result, mode_code,
  size_setting, configured_size, mode_setting, frequency_setting, check_size, check_headers,
  validate, is_detect, validate_detected_size,
}
use idf_remote.Backend.Header.{
  IsInRange, >>=-IsInRange, context-IsInRange, HoldsHeader, check_headers-IsInRange,
  check_headers-HoldsHeader, check_detected-IsInRange,
}

plan_result-IsInRange : (r : Result PlanError (Unit {0})) → IsInRange (plan_result r)
plan_result-IsInRange (err why) h = cc
plan_result-IsInRange (ok u) h = cc

mode_code-IsInRange : (mode : FlashMode) → IsInRange (mode_code mode)
mode_code-IsInRange qio h = cc
mode_code-IsInRange qout h = cc
mode_code-IsInRange dio h = cc
mode_code-IsInRange dout h = cc
mode_code-IsInRange other h = cc

-- A setting that is kept, or read.
choice-IsInRange :
    {A : Type 0} (test : Bool) (r : Result FlashError (Option A))
    → IsInRange r
    → IsInRange (if test then ok none else r)
choice-IsInRange false r inside = inside
choice-IsInRange true r inside = λ h. cc

-- The next step, after what the first has returned.
>>=-IsInRange_after :
    {A B : Type 0} (r : Result FlashError A) (next : A → Result FlashError B)
    → IsInRange r
    → ((a : A) → r ≡ ok a → IsInRange (next a))
    → IsInRange (r >>= next)
>>=-IsInRange_after (err why) next first rest h = first cc
>>=-IsInRange_after (ok a) next first rest h = rest a refl h

module _ {Chip Frequency Size : Type 0} (esp : Espflash Chip Frequency Size) where
  size_setting-IsInRange : (o : Option Bytes) → IsInRange (size_setting esp o)
  unfolding size_setting
  size_setting-IsInRange none = λ h. cc
  size_setting-IsInRange (some text) = choice-IsInRange _ _ (
      >>=-IsInRange (context (esp.parse_size text) invalid_size) _ (context-IsInRange _ _ (λ e. cc))
        (λ size h. cc))

  mode_setting-IsInRange : (o : Option Bytes) → IsInRange (mode_setting esp o)
  unfolding mode_setting
  mode_setting-IsInRange none = λ h. cc
  mode_setting-IsInRange (some text) = choice-IsInRange _ _ (
      >>=-IsInRange (context (esp.parse_mode text) invalid_mode) _ (context-IsInRange _ _ (λ e. cc))
        mode_code-IsInRange)

  frequency_setting-IsInRange :
      (chip : Chip) (o : Option Bytes) → IsInRange (frequency_setting esp chip o)
  unfolding frequency_setting
  frequency_setting-IsInRange chip none = λ h. cc
  frequency_setting-IsInRange chip (some text) = choice-IsInRange _ _ (
      >>=-IsInRange (context _ invalid_frequency) _ (context-IsInRange _ _ (λ e. cc)) (λ frequency.
        >>=-IsInRange (context (esp.encode_flash_frequency frequency chip) unencodable_frequency) _
          (context-IsInRange _ _ (λ e. cc)) (λ code h. cc)))

  check_size-IsInRange :
      (plan : PreparedPlan) (size : Option Size) → IsInRange (check_size esp plan size)
  unfolding check_size
  check_size-IsInRange plan none = λ h. cc
  check_size-IsInRange plan (some size) = plan_result-IsInRange _

  validate-IsInRange : (plan : PreparedPlan) → IsInRange (validate esp plan)
  unfolding validate configured_size
  validate-IsInRange plan =
      >>=-IsInRange (context (esp.parse_chip plan.chip) unsupported_chip) _
        (context-IsInRange _ _ (λ e. cc))
        (λ chip. >>=-IsInRange _ _ (mode_setting-IsInRange plan.flash_settings.mode) (λ mode.
          >>=-IsInRange _ _ (frequency_setting-IsInRange chip plan.flash_settings.frequency)
            (λ frequency.
              >>=-IsInRange _ _ (size_setting-IsInRange plan.flash_settings.size) (λ size.
                >>=-IsInRange _ _ (check_size-IsInRange plan size) (λ u.
                  >>=-IsInRange _ _
                    (check_headers-IsInRange esp chip mode frequency size plan.segments)
                    (λ v h. cc))))))

  validate-HoldsHeader :
      (plan : PreparedPlan) (chip : Chip)
      → validate esp plan ≡ ok chip
      → All (HoldsHeader esp chip) plan.segments
  unfolding validate
  validate-HoldsHeader plan chip e =
      let (chip', _, e1) = >>=-eq-ok (context (esp.parse_chip plan.chip) unsupported_chip) _ e in
      let (mode, _, e2) = >>=-eq-ok (mode_setting esp plan.flash_settings.mode) _ e1 in
      let (frequency, _, e3) =
        >>=-eq-ok (frequency_setting esp chip' plan.flash_settings.frequency) _ e2 in
      let (size, _, e4) = >>=-eq-ok (configured_size esp plan) _ e3 in
      let (_, _, e5) = >>=-eq-ok (check_size esp plan size) _ e4 in
      let (_, headers, e6) =
        >>=-eq-ok (check_headers esp chip' mode frequency size plan.segments) _ e5 in
      let same : chip' ≡ chip = cc in
      rw (← same) (check_headers-HoldsHeader esp chip' mode frequency size plan.segments headers)

  validate_detected_size-IsInRange :
      (plan : PreparedPlan) (chip : Chip) (detected : ℕ)
      → All (HoldsHeader esp chip) plan.segments
      → IsInRange (validate_detected_size esp plan chip detected)
  unfolding validate_detected_size
  validate_detected_size-IsInRange plan chip detected all =
      elim (Bool-cases (is_detect plan.flash_settings.size)) [
        | inl detect ↦ rw detect (
            >>=-IsInRange (context _ invalid_size) _ (context-IsInRange _ _ (λ e. cc)) (λ size.
              >>=-IsInRange (context (esp.encode_flash_size size) unencodable_size) _
                (context-IsInRange _ _ (λ e. cc))
                (λ header_size. check_detected-IsInRange esp chip header_size plan.segments all)))
        | inr given ↦ rw given (λ h. cc)
      ]

  -- Whatever a plan holds and whatever size the device reports, checking the plan and then its
  -- bootloader against that size never reads a byte that the bootloader does not have: one that is too
  -- short is refused before.
  pub flash-IsInRange :
      (plan : PreparedPlan) (detected : ℕ)
      → IsInRange (validate esp plan >>= λ chip. validate_detected_size esp plan chip detected)
  flash-IsInRange plan detected =
      >>=-IsInRange_after (validate esp plan) _ (validate-IsInRange plan) (λ chip e.
        validate_detected_size-IsInRange plan chip detected (validate-HoldsHeader plan chip e))
