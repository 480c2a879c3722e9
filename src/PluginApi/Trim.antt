-- ===== src/PluginApi/Trim.antt =====
-- What a trimmed frame shows (TrimFrame, IncludesEye, IncludesExpression, Normalize).
use vrcft_go.Base.{
  ℕ, zero, suc, ◌^◌, ◌<◌, bit_and, true, false, ◌&&◌, ◌||◌, ◌==◌, ◌≡◌, refl, ap, ◌∙◌, arith,
  has_bits, and_not, has_bits-bit_and, zero-bit_and,
}
use vrcft_go.TrackingModel.Expressions.{mask_has, mask_normalize}
use vrcft_go.TrackingModel.Frame.{
  TrackingFrame, capability_eye, capability_expression, known_capabilities, known_eye_valid,
  zero_invalid_eye_values,
}
use vrcft_go.TrackingModel.Masks.{mask_has-intersect, mask_has-normalize, mask_has_bound}
use vrcft_go.TrackingModel.Canonical.{no_expressions_has}
use vrcft_go.PluginApi.Subscription.{
  Subscription, includes_eye, includes_expression, trim_eye, trim_expressions, trim_frame,
}

-- At one of the six known bits `IncludesEye` reads the selection.
pub includes_eye_known :
    (s : Subscription) (k : ℕ)
    → k < 6
    → includes_eye s (2 ^ k)
      ≡ (has_bits s.capabilities capability_eye && (s.eye == 0 || has_bits s.eye (2 ^ k)))
unfolding includes_eye and_not
includes_eye_known s zero p = refl
includes_eye_known s (suc zero) p = refl
includes_eye_known s (suc (suc zero)) p = refl
includes_eye_known s (suc (suc (suc zero))) p = refl
includes_eye_known s (suc (suc (suc (suc zero)))) p = refl
includes_eye_known s (suc (suc (suc (suc (suc zero))))) p = refl
includes_eye_known s (suc (suc (suc (suc (suc (suc k)))))) p = absurd (omega arith)

known_bit : (k : ℕ) → k < 6 → has_bits known_eye_valid (2 ^ k) ≡ true
known_bit zero p = refl
known_bit (suc zero) p = refl
known_bit (suc (suc zero)) p = refl
known_bit (suc (suc (suc zero))) p = refl
known_bit (suc (suc (suc (suc zero)))) p = refl
known_bit (suc (suc (suc (suc (suc zero))))) p = refl
known_bit (suc (suc (suc (suc (suc (suc k)))))) p = absurd (omega arith)

trimmed_eye :
    (f s : ℕ)
    → has_bits (bit_and f (bit_and known_capabilities s)) capability_eye
      ≡ (has_bits f capability_eye && has_bits s capability_eye)
trimmed_eye f s =
    has_bits-bit_and 0 f (bit_and known_capabilities s)
    ∙ ap (λ b. has_bits f capability_eye && b) (has_bits-bit_and 0 known_capabilities s)

trimmed_expression :
    (f s : ℕ)
    → has_bits (bit_and f (bit_and known_capabilities s)) capability_expression
      ≡ (has_bits f capability_expression && has_bits s capability_expression)
trimmed_expression f s =
    has_bits-bit_and 1 f (bit_and known_capabilities s)
    ∙ ap (λ b. has_bits f capability_expression && b) (has_bits-bit_and 1 known_capabilities s)

zero-has_bits : (k : ℕ) → has_bits 0 (2 ^ k) ≡ false
zero-has_bits k = ground (arith, zero-bit_and (2 ^ k))

-- A trimmed frame shows a part of the eye exactly when the frame may, the subscription selects it, and
-- the frame has it.
pub trim_frame-eye :
    (s : Subscription) (f : TrackingFrame) (k : ℕ)
    → k < 6
    → has_bits (trim_frame s f).eye.valid (2 ^ k) ≡ (
        has_bits f.capabilities capability_eye
        && includes_eye s (2 ^ k)
        && has_bits f.eye.valid (2 ^ k))
unfolding trim_frame trim_eye zero_invalid_eye_values
trim_frame-eye s f k p = ground (
  arith,
  includes_eye_known s k p,
  known_bit k p,
  trimmed_eye f.capabilities s.capabilities,
  zero-has_bits k,
  has_bits-bit_and k f.eye.valid known_eye_valid,
  has_bits-bit_and k (bit_and f.eye.valid known_eye_valid) s.eye,
)

-- A trimmed frame shows an expression exactly when the frame may, the subscription selects it, and the
-- frame has it.
pub trim_frame-expression :
    (s : Subscription) (f : TrackingFrame) (id : ℕ)
    → mask_has (trim_frame s f).expressions.valid id ≡ (
        has_bits f.capabilities capability_expression
        && includes_expression s id
        && mask_has f.expressions.valid id)
unfolding trim_frame trim_expressions includes_expression
trim_frame-expression s f id = ground (
  arith,
  trimmed_expression f.capabilities s.capabilities,
  no_expressions_has id,
  mask_has-normalize f.expressions.valid id,
  mask_has-intersect (mask_normalize f.expressions.valid) s.expressions id,
  mask_has_bound f.expressions.valid id,
)
