-- ===== src/Processing/Bounds.antt =====
-- internal/processing/calibration.go and tuning.go: what a value that is let through satisfies.
use vrcft_go.Base.{◌≡◌, refl, sym, subst, ◌⊎◌, inl, inr, true, false, ok, >>=_inv, arith}
use vrcft_go.Floats.{
  Float32, Arithmetic, finite32, lt32, le32, abs32, zero32, one32, copysign32, is_nan32,
}
use vrcft_go.Processing.Config.{ChannelCalibration, ChannelTuning, invalid_tuning, validate_tuning}
use vrcft_go.Processing.Shaping.{clamp, finite_or, calibrate, apply_calibration, tune, apply_tuning}

-- A range that is not turned over holds what is clamped to it.
clamp-inside :
    (lo hi v : Float32)
    → finite32 lo ≡ true
    → finite32 hi ≡ true
    → lt32 hi lo ≡ false
    → (lt32 (clamp lo hi v) lo ≡ false) × (lt32 hi (clamp lo hi v) ≡ false)
unfolding clamp lt32 finite32 is_nan32
clamp-inside lo hi v fl fh k = (ground arith, ground arith)

zero_finite : finite32 zero32 ≡ true
unfolding finite32
zero_finite = refl

clamp_checked :
    (t : ChannelTuning)
    → t.clamp_enabled ≡ true
    → validate_tuning t ≡ ok tt
    → (finite32 t.clamp_min ≡ true)
      × (finite32 t.clamp_max ≡ true)
      × (lt32 t.clamp_max t.clamp_min ≡ false)
unfolding validate_tuning le32 lt32
clamp_checked t on h = (ground arith, ground arith, ground arith)

module _ (fl : Arithmetic) where
  open fl use {sub32, mul32, div32, pow32, div64, to64, to32, of_int64, billion}

  calibrate-finite :
      (c : ChannelCalibration) (raw r : Float32) → calibrate fl c raw ≡ ok r → finite32 r ≡ true
  unfolding calibrate
  calibrate-finite c raw r h = ground arith

  tune-finite : (t : ChannelTuning) (v r : Float32) → tune fl t v ≡ ok r → finite32 r ≡ true
  unfolding tune
  tune-finite t v r h = ground arith

  tune-clamps :
      (t : ChannelTuning) (v r : Float32)
      → t.clamp_enabled ≡ true
      → tune fl t v ≡ ok r
      → (x : Float32) × (r ≡ clamp t.clamp_min t.clamp_max x)
  unfolding tune
  tune-clamps t v r on h =
      let (scaled, _, h1) =
        >>=_inv
          (finite_or invalid_tuning (div32 (sub32 (abs32 v) t.deadzone) (sub32 one32 t.deadzone))) _
          _ h in
      let (amplified, _, h2) = >>=_inv (finite_or invalid_tuning (mul32 scaled t.gain)) _ _ h1 in
      let (bent, _, h3) = >>=_inv (finite_or invalid_tuning (pow32 amplified t.exponent)) _ _ h2 in
      let (signed, _, h4) = >>=_inv (finite_or invalid_tuning (copysign32 bent v)) _ _ h3 in
      (signed, ground arith)

  apply_tuning_inv :
      (t : ChannelTuning) (v r : Float32)
      → apply_tuning fl t v ≡ ok r
      → (validate_tuning t ≡ ok tt) × ((r ≡ zero32) ⊎ (tune fl t v ≡ ok r))
  unfolding apply_tuning
  apply_tuning_inv t v r h = ground arith

  -- A calibrated value is finite, whatever the machine's arithmetic gives.
  pub apply_calibration-finite :
      (c : ChannelCalibration) (raw r : Float32)
      → apply_calibration fl c raw ≡ ok r
      → finite32 r ≡ true
  unfolding apply_calibration
  apply_calibration-finite c raw r h = ground (arith, calibrate-finite c raw r)

  -- A tuned value is finite, whatever the machine's arithmetic gives.
  pub apply_tuning-finite :
      (t : ChannelTuning) (v r : Float32) → apply_tuning fl t v ≡ ok r → finite32 r ≡ true
  unfolding apply_tuning
  apply_tuning-finite t v r h = elim (apply_tuning_inv t v r h).1 [
    | inl zero ↦ subst (λ x. finite32 x ≡ true) (sym zero) zero_finite
    | inr tuned ↦ tune-finite t v r tuned
  ]

  -- With its clamp enabled, a tuned value is 0 or neither below the clamp's minimum nor above its maximum.
  pub apply_tuning-inside :
      (t : ChannelTuning) (v r : Float32)
      → t.clamp_enabled ≡ true
      → apply_tuning fl t v ≡ ok r
      → (r ≡ zero32) ⊎ ((lt32 r t.clamp_min ≡ false) × (lt32 t.clamp_max r ≡ false))
  apply_tuning-inside t v r on h =
      let (valid, cases) = apply_tuning_inv t v r h in
      elim cases [
        | inl zero ↦ inl zero
        | inr tuned ↦
            let (x, e) = tune-clamps t v r on tuned in
            let (a, b, c) = clamp_checked t on valid in
            inr (
              subst (λ y. (lt32 y t.clamp_min ≡ false) × (lt32 t.clamp_max y ≡ false)) (sym e)
                (clamp-inside t.clamp_min t.clamp_max x a b c))
      ]
