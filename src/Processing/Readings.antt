-- ===== src/Processing/Readings.antt =====
-- internal/processing/channel.go: what a channel reads in a frame that pkg/trackingmodel has made canonical.
use vrcft_go.Base.{
  ℕ, ◌+◌, ◌-◌, ◌≡◌, refl, ap, ◌∙◌, ◌⊎◌, inl, inr, Bool, true, false, not, ◌||◌, ltb, leb, ◌==◌,
  if◌then◌else◌, has_bits, ok, Bool-cases, arith,
}
use vrcft_go.Floats.{Float32, zero32}
use vrcft_go.TrackingModel.Expressions.{ExpressionSet, expression_count, expressions_get, mask_has}
use vrcft_go.TrackingModel.Frame.{
  EyeSample, Vec2, zero_vec2, TrackingFrame, capability_eye, validate, canonicalize, canonical_eye,
  zero_invalid_eye_values, empty_eye,
}
use vrcft_go.TrackingModel.Canonical.{canonicalize_inv, canonicalize-get}
use vrcft_go.Processing.Channel.{
  raw_channel_value, raw_expression_value, expression_id, channel_expression_base, channel_count,
}

-- A reading with a value that is not valid replaced by 0.
abbrev cleared : Float32 × Bool → Float32 × Bool
cleared (value, valid) = (if valid then value else zero32, valid)

capable_eye :
    (f : TrackingFrame)
    → validate f ≡ ok tt
    → (has_bits f.capabilities capability_eye ≡ true) ⊎ (f.eye.valid ≡ 0)
unfolding validate
capable_eye f h = ground arith

pick :
    (test : Bool) (p q r s : Float32 × Bool)
    → p ≡ cleared q
    → r ≡ cleared s
    → (if test then p else r) ≡ cleared (if test then q else s)
pick true p q r s here later = here
pick false p q r s here later = later

gaze_x : (b : Bool) (v : Vec2) → ((if b then v else zero_vec2).x, b) ≡ cleared (v.x, b)
gaze_x true v = refl
gaze_x false v = refl

gaze_y : (b : Bool) (v : Vec2) → ((if b then v else zero_vec2).y, b) ≡ cleared (v.y, b)
gaze_y true v = refl
gaze_y false v = refl

-- The eye's ten channels and those behind them, where an eye is cleared.
cleared_reading :
    (e : EyeSample) (x y : ExpressionSet) (id : ℕ)
    → raw_expression_value y id ≡ cleared (raw_expression_value x id)
    → raw_channel_value (zero_invalid_eye_values e) y id ≡ cleared (raw_channel_value e x id)
unfolding raw_channel_value zero_invalid_eye_values
cleared_reading e x y id rest = pick (id == 1) _ _ _ _ (gaze_x (has_bits e.valid 1) e.left_gaze) (
    pick (id == 2) _ _ _ _ (gaze_y (has_bits e.valid 1) e.left_gaze) (
      pick (id == 3) _ _ _ _ (gaze_x (has_bits e.valid 2) e.right_gaze) (
        pick (id == 4) _ _ _ _ (gaze_y (has_bits e.valid 2) e.right_gaze) (
          pick (id == 5) _ _ _ _ refl (
            pick (id == 6) _ _ _ _ refl (
              pick (id == 7) _ _ _ _ refl (
                pick (id == 8) _ _ _ _ refl
                  (pick (id == 9) _ _ _ _ refl (pick (id == 10) _ _ _ _ refl rest)))))))))

-- An eye that has no valid part reads as an empty one.
empty_reading :
    (e : EyeSample) (x y : ExpressionSet) (id : ℕ)
    → e.valid ≡ 0
    → raw_expression_value y id ≡ cleared (raw_expression_value x id)
    → raw_channel_value empty_eye y id ≡ cleared (raw_channel_value e x id)
unfolding raw_channel_value
empty_reading e x y id none rest = rw none (
    pick (id == 1) _ _ _ _ refl (
      pick (id == 2) _ _ _ _ refl (
        pick (id == 3) _ _ _ _ refl (
          pick (id == 4) _ _ _ _ refl (
            pick (id == 5) _ _ _ _ refl (
              pick (id == 6) _ _ _ _ refl (
                pick (id == 7) _ _ _ _ refl (
                  pick (id == 8) _ _ _ _ refl
                    (pick (id == 9) _ _ _ _ refl (pick (id == 10) _ _ _ _ refl rest))))))))))

expressions_get-cleared :
    (x : ExpressionSet) (id : ℕ) → expressions_get x id ≡ cleared (expressions_get x id)
unfolding expressions_get
expressions_get-cleared x id =
    elim (Bool-cases (leb expression_count id || not (mask_has x.valid id))) [
      | inl missing ↦ rw missing refl
      | inr there ↦ rw there refl
    ]

expression_reading :
    (f g : TrackingFrame) (id : ℕ)
    → canonicalize f ≡ ok g
    → raw_expression_value g.expressions id ≡ cleared (raw_expression_value f.expressions id)
unfolding raw_expression_value expression_id
expression_reading f g id h =
    elim (Bool-cases (ltb id channel_expression_base || leb (channel_count + 1) id)) [
      | inl unknown ↦ rw unknown refl
      | inr known ↦
          let kept = (canonicalize-get f g (id - channel_expression_base) h (ground arith)).1 in
          rw known (kept ∙ expressions_get-cleared f.expressions (id - channel_expression_base))
    ]

-- Where Canonicalize accepts a frame, what any channel reads in the canonical frame is what it reads in the frame as it was sent, with 0 in place of
-- a value that is not valid.
pub canonicalize-raw_channel_value :
    (f g : TrackingFrame) (channel : ℕ)
    → canonicalize f ≡ ok g
    → let (value, valid) = raw_channel_value f.eye f.expressions channel in
      raw_channel_value g.eye g.expressions channel ≡ (if valid then value else zero32, valid)
unfolding canonical_eye
canonicalize-raw_channel_value f g channel h =
    let (passed, e) = canonicalize_inv f g h in
    let rest = expression_reading f g channel h in
    rw (ap (λ (t : TrackingFrame). t.eye) e)
      (elim (Bool-cases (has_bits f.capabilities capability_eye)) [
        | inl able ↦ rw able (cleared_reading f.eye f.expressions g.expressions channel rest)
        | inr unable ↦ elim (capable_eye f passed) [
          | inl able ↦ absurd (ground arith)
          | inr none_valid ↦
              rw unable (empty_reading f.eye f.expressions g.expressions channel none_valid rest)
        ]
      ])
