-- ===== src/PluginApi/Subscription.antt =====
-- pkg/pluginapi/subscription.go.
use vrcft_go.Base.{
  ℕ, ◌-◌, bit_and, Bool, false, not, ◌&&◌, ◌||◌, leb, ◌==◌, if◌then◌else◌, has_bits, and_not,
  Result, ◌>>◌, fail_if,
}
use vrcft_go.TrackingModel.Expressions.{
  ExpressionMask, ExpressionSet, expression_count, no_expressions, empty_expressions, mask_has,
  mask_is_zero, mask_intersect, mask_normalize, mask_eq,
}
use vrcft_go.TrackingModel.Frame.{
  EyeSample, TrackingFrame, capability_eye, capability_expression, known_capabilities,
  known_eye_valid, empty_eye, zero_invalid_eye_values, zero_invalid_values,
}

pub record Subscription : Type 0 where
  pub generation : ℕ
  pub capabilities : ℕ
  pub eye : ℕ
  pub expressions : ExpressionMask

unfoldable pub normalize : Subscription → Subscription
normalize s = record s {
  eye = if has_bits s.capabilities capability_eye then s.eye else 0;
  expressions =
      if has_bits s.capabilities capability_expression
      then mask_normalize s.expressions
      else no_expressions;
}

pub data SubscriptionError : Type 0 where
  unknown_capability_bits unknown_eye_bits expression_tail_bits : SubscriptionError
  generation_zero_not_empty no_known_capability : SubscriptionError

-- Generation 0 is the empty subscription of a plugin that is not active.
unfoldable pub validate_generation : Subscription → Bool → Result SubscriptionError (Unit {0})
validate_generation s active =
    if s.generation == 0
    then fail_if
        (active
          || not (s.capabilities == 0)
          || not (s.eye == 0)
          || not (mask_is_zero s.expressions))
        generation_zero_not_empty
    else fail_if (bit_and s.capabilities known_capabilities == 0) no_known_capability

unfoldable pub validate : Subscription → Bool → Result SubscriptionError (Unit {0})
unfolding validate_generation
validate s active = do
  fail_if (not (and_not s.capabilities known_capabilities == 0)) unknown_capability_bits
  fail_if (not (and_not s.eye known_eye_valid == 0)) unknown_eye_bits
  fail_if (not (mask_eq s.expressions (mask_normalize s.expressions))) expression_tail_bits
  validate_generation s active

-- Whether `bit` is one known eye bit that the subscription selects; no detail selects all.
unfoldable pub includes_eye : Subscription → ℕ → Bool
includes_eye s bit =
    if bit == 0 || not (and_not bit known_eye_valid == 0) || not (bit_and bit (bit - 1) == 0)
    then false
    else has_bits s.capabilities capability_eye && (s.eye == 0 || has_bits s.eye bit)

unfoldable pub includes_expression : Subscription → ℕ → Bool
includes_expression s id =
    if leb expression_count id || not (has_bits s.capabilities capability_expression)
    then false
    else mask_is_zero s.expressions || mask_has s.expressions id

-- The body of `zeroUnselectedEyeValues` is that of `zeroInvalidEyeValues` of the frames.
abbrev pub zero_unselected_eye_values : EyeSample → EyeSample
zero_unselected_eye_values e = zero_invalid_eye_values e

abbrev pub zero_invalid_expression_values : ExpressionSet → ExpressionSet
zero_invalid_expression_values x = record x { values = zero_invalid_values x.valid 0 x.values }

unfoldable pub trim_eye : Subscription → ℕ → EyeSample → EyeSample
trim_eye s capabilities e =
    if has_bits capabilities capability_eye
    then (let known = bit_and e.valid known_eye_valid in
        zero_unselected_eye_values
          (record e { valid = if s.eye == 0 then known else bit_and known s.eye }))
    else empty_eye

unfoldable pub trim_expressions : Subscription → ℕ → ExpressionSet → ExpressionSet
trim_expressions s capabilities x =
    if has_bits capabilities capability_expression
    then (let known = mask_normalize x.valid in
        zero_invalid_expression_values (record x {
          valid = if mask_is_zero s.expressions then known else mask_intersect known s.expressions;
        }))
    else empty_expressions

unfoldable pub trim_frame : Subscription → TrackingFrame → TrackingFrame
trim_frame s f =
    let capabilities = bit_and f.capabilities (bit_and known_capabilities s.capabilities) in
    record f {
      capabilities = capabilities;
      eye = trim_eye s capabilities f.eye;
      expressions = trim_expressions s capabilities f.expressions;
    }
