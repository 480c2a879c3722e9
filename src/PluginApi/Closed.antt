-- ===== src/PluginApi/Closed.antt =====
-- Trimming and normalizing are closed: a second pass changes nothing, and the checks still pass.
use vrcft_go.Base.{ℕ, bit_and, Bool, ◌≡◌, arith, bit_and_absorb, bit_and_right_comm, ok}
use vrcft_go.TrackingModel.Expressions.{
  ExpressionMask, ExpressionSet, mask_intersect, mask_normalize, mask_eq,
}
use vrcft_go.TrackingModel.Frame.{
  EyeSample, TrackingFrame, known_capabilities, known_eye_valid, zero_invalid_eye_values,
}
use vrcft_go.TrackingModel.Masks.{mask_normalize_idem}
use vrcft_go.TrackingModel.Canonical.{zero_invalid_values_idem}
use vrcft_go.PluginApi.Subscription.{
  Subscription, normalize, validate, includes_eye, includes_expression, trim_eye, trim_expressions,
  trim_frame,
}

pub normalize_idem : (s : Subscription) → normalize (normalize s) ≡ normalize s
unfolding normalize
normalize_idem s = ground (arith, mask_normalize_idem s.expressions)

-- On a subscription that the check accepts, `Normalize` keeps whether each part of the eye and each
-- expression is selected.
pub normalize-includes :
    (s : Subscription) (active : Bool) (bit id : ℕ)
    → validate s active ≡ ok tt
    → (includes_eye (normalize s) bit ≡ includes_eye s bit)
      × (includes_expression (normalize s) id ≡ includes_expression s id)
unfolding normalize validate includes_eye includes_expression mask_eq mask_normalize
normalize-includes s active bit id h = ground arith

trim_eye_idem :
    (s : Subscription) (c : ℕ) (e : EyeSample) → trim_eye s c (trim_eye s c e) ≡ trim_eye s c e
unfolding trim_eye zero_invalid_eye_values
trim_eye_idem s c e = ground (
  arith,
  bit_and_absorb e.valid known_eye_valid,
  bit_and_right_comm (bit_and e.valid known_eye_valid) s.eye known_eye_valid,
  bit_and_absorb (bit_and e.valid known_eye_valid) s.eye,
)

intersect_normal :
    (m e : ExpressionMask)
    → mask_intersect (mask_normalize (mask_intersect (mask_normalize m) e)) e
      ≡ mask_intersect (mask_normalize m) e
unfolding mask_intersect mask_normalize
intersect_normal m e = ground (
  arith,
  bit_and_absorb m.word_0 e.word_0,
  bit_and_right_comm (bit_and m.word_1 4095) e.word_1 4095,
  bit_and_absorb m.word_1 4095,
  bit_and_absorb (bit_and m.word_1 4095) e.word_1,
)

trim_expressions_idem :
    (s : Subscription) (c : ℕ) (x : ExpressionSet)
    → trim_expressions s c (trim_expressions s c x) ≡ trim_expressions s c x
unfolding trim_expressions
trim_expressions_idem s c x = ground (
  arith,
  mask_normalize_idem x.valid,
  intersect_normal x.valid s.expressions,
  zero_invalid_values_idem (mask_normalize x.valid) 0 x.values,
  zero_invalid_values_idem (mask_intersect (mask_normalize x.valid) s.expressions) 0 x.values,
)

-- Trimming a trimmed frame by the same subscription changes nothing.
pub trim_frame_idem :
    (s : Subscription) (f : TrackingFrame) → trim_frame s (trim_frame s f) ≡ trim_frame s f
unfolding trim_frame
trim_frame_idem s f =
    let c = bit_and f.capabilities (bit_and known_capabilities s.capabilities) in
    ground (
      arith,
      bit_and_absorb f.capabilities (bit_and known_capabilities s.capabilities),
      trim_eye_idem s c f.eye,
      trim_expressions_idem s c f.expressions,
    )
