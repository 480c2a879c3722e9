-- ===== src/PluginApi/Accepted.antt =====
-- Trimming a frame that the checks accept leaves one that they accept.
use vrcft_go.Base.{
  ℕ, suc, bit_and, true, false, ◌≡◌, refl, arith, has_bits, and_not, bit_and_absorb,
  bit_and_right_comm, and_not-bit_and, has_bits-part, List, [], ◌∷◌, ok,
}
use vrcft_go.TrackingModel.Expressions.{
  ExpressionMask, ExpressionSet, no_expressions, mask_has, mask_is_zero, mask_intersect,
  mask_normalize, mask_eq,
}
use vrcft_go.TrackingModel.Frame.{
  EyeSample, TrackingFrame, capability_eye, capability_expression, known_capabilities,
  known_eye_valid, zero_invalid_eye_values, check_eye_rows, eye_checks, validate_finite_eye,
  validate_values, validate,
}
use vrcft_go.TrackingModel.Masks.{mask_has-normalize, mask_has-intersect}
use vrcft_go.TrackingModel.Canonical.{
  validate_values-zero_invalid, validate_finite_eye-zero_invalid, validate_inv, empty_values,
  empty_eye_finite,
}
use vrcft_go.PluginApi.Subscription.{Subscription, trim_eye, trim_expressions, trim_frame}

validate_values-part :
    (m n : ExpressionMask) (id : ℕ) (vs : List ℕ)
    → ((j : ℕ) → mask_has n j ≡ true → mask_has m j ≡ true)
    → validate_values m id vs ≡ ok tt
    → validate_values n id vs ≡ ok tt
unfolding validate_values
validate_values-part m n id [] part h = refl
validate_values-part m n id (v ∷ vs) part h =
    ground (arith, part id, validate_values-part m n (suc id) vs part)

check_eye_rows-part :
    (v w row : ℕ) (rows : List (ℕ × ℕ))
    → check_eye_rows v row rows ≡ ok tt
    → check_eye_rows (bit_and v w) row rows ≡ ok tt
unfolding check_eye_rows
check_eye_rows-part v w row [] h = refl
check_eye_rows-part v w row ((bit, x) ∷ rows) h =
    ground (arith, has_bits-part v w bit, check_eye_rows-part v w (suc row) rows)

eye-part :
    (e : EyeSample) (w : ℕ)
    → validate_finite_eye e ≡ ok tt
    → validate_finite_eye (record e { valid = bit_and e.valid w }) ≡ ok tt
unfolding validate_finite_eye
eye-part e w h = check_eye_rows-part e.valid w 0 (eye_checks e) h

trim_eye_finite :
    (s : Subscription) (c : ℕ) (e : EyeSample)
    → validate_finite_eye e ≡ ok tt
    → validate_finite_eye (trim_eye s c e) ≡ ok tt
unfolding trim_eye
trim_eye_finite s c e h =
    let known = record e { valid = bit_and e.valid known_eye_valid } in
    let chosen = record known { valid = bit_and known.valid s.eye } in
    ground (
      arith,
      eye-part e known_eye_valid h,
      eye-part known s.eye,
      validate_finite_eye-zero_invalid known,
      validate_finite_eye-zero_invalid chosen,
      empty_eye_finite,
    )

trim_expressions_finite :
    (s : Subscription) (c : ℕ) (x : ExpressionSet)
    → validate_values x.valid 0 x.values ≡ ok tt
    → validate_values (trim_expressions s c x).valid 0 (trim_expressions s c x).values ≡ ok tt
unfolding trim_expressions
trim_expressions_finite s c x h =
    let known = mask_normalize x.valid in
    let chosen = mask_intersect known s.expressions in
    ground (
      arith,
      validate_values-part x.valid known 0 x.values
          (λ j p. ground (arith, mask_has-normalize x.valid j)) h,
      validate_values-part known chosen 0 x.values
          (λ j p. ground (arith, mask_has-intersect known s.expressions j)),
      validate_values-zero_invalid known 0 x.values,
      validate_values-zero_invalid chosen 0 x.values,
      empty_values,
    )

none_unknown : and_not 0 known_eye_valid ≡ 0
unfolding and_not
none_unknown = refl

trim_eye_known :
    (s : Subscription) (c : ℕ) (e : EyeSample) → and_not (trim_eye s c e).valid known_eye_valid ≡ 0
unfolding trim_eye zero_invalid_eye_values
trim_eye_known s c e = ground (
  arith,
  and_not-bit_and e.valid known_eye_valid known_eye_valid refl,
  bit_and_right_comm e.valid known_eye_valid s.eye,
  and_not-bit_and (bit_and e.valid s.eye) known_eye_valid known_eye_valid refl,
  none_unknown,
)

trim_expressions_normal :
    (s : Subscription) (c : ℕ) (x : ExpressionSet)
    → mask_normalize (trim_expressions s c x).valid ≡ (trim_expressions s c x).valid
unfolding trim_expressions mask_normalize mask_intersect
trim_expressions_normal s c x = ground (
  arith,
  bit_and_absorb x.valid.word_1 4095,
  bit_and_right_comm (bit_and x.valid.word_1 4095) s.expressions.word_1 4095,
)

trimmed_known :
    (f s : ℕ) → and_not (bit_and f (bit_and known_capabilities s)) known_capabilities ≡ 0
trimmed_known f s =
    and_not-bit_and f known_capabilities (bit_and known_capabilities s)
      (bit_and_right_comm known_capabilities s known_capabilities)

trim_eye_off :
    (s : Subscription) (c : ℕ) (e : EyeSample)
    → has_bits c capability_eye ≡ false
    → (trim_eye s c e).valid ≡ 0
unfolding trim_eye
trim_eye_off s c e h = ground arith

trim_expressions_off :
    (s : Subscription) (c : ℕ) (x : ExpressionSet)
    → has_bits c capability_expression ≡ false
    → (trim_expressions s c x).valid ≡ no_expressions
unfolding trim_expressions
trim_expressions_off s c x h = ground arith

-- The checks, from what they read of a frame.
pub validate_from :
    (f : TrackingFrame)
    → and_not f.capabilities known_capabilities ≡ 0
    → and_not f.eye.valid known_eye_valid ≡ 0
    → mask_normalize f.expressions.valid ≡ f.expressions.valid
    → (has_bits f.capabilities capability_eye ≡ false → f.eye.valid ≡ 0)
    → (has_bits f.capabilities capability_expression ≡ false → f.expressions.valid ≡ no_expressions)
    → validate_finite_eye f.eye ≡ ok tt
    → validate_values f.expressions.valid 0 f.expressions.values ≡ ok tt
    → validate f ≡ ok tt
unfolding validate mask_eq mask_is_zero
validate_from f c e x ce cx fe fx = ground arith

-- Trimming a frame that passes the checks, by any subscription, leaves one that passes them.
pub trim_frame-validate :
    (s : Subscription) (f : TrackingFrame) → validate f ≡ ok tt → validate (trim_frame s f) ≡ ok tt
unfolding trim_frame
trim_frame-validate s f h =
    let c = bit_and f.capabilities (bit_and known_capabilities s.capabilities) in
    let (eye, values) = validate_inv f h in
    validate_from (trim_frame s f) (trimmed_known f.capabilities s.capabilities)
      (trim_eye_known s c f.eye) (trim_expressions_normal s c f.expressions)
      (trim_eye_off s c f.eye) (trim_expressions_off s c f.expressions)
      (trim_eye_finite s c f.eye eye) (trim_expressions_finite s c f.expressions values)
