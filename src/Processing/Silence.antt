-- ===== src/Processing/Silence.antt =====
-- internal/processing/dropout.go: what a channel shows while it is silent.
use vrcft_go.Base.{
  ℕ, ◌+◌, ◌-◌, ◌≤◌, min, ◌≡◌, inl, inr, true, ltb, leb, if◌then◌else◌, Bool-cases, ℤ, pos, -ℤ_pos,
  +ℤ_pos, max_int64, arith,
}
use vrcft_go.Floats.{Float32, Arithmetic, zero32, one64}
use vrcft_go.Processing.Config.{DropoutPolicy}
use vrcft_go.Processing.Dropout.{
  ChannelState, add_duration_saturated, record_fresh, record_unavailable, faded, dropout_value,
}

-- A duration added to a time of the host stops at the largest int64.
pub add_duration_saturated-min :
    (at d : ℕ)
    → at ≤ max_int64
    → d ≤ max_int64
    → add_duration_saturated (pos at) (pos d) ≡ pos (min (at + d) max_int64)
unfolding add_duration_saturated
add_duration_saturated-min at d h k =
    rw (-ℤ_pos max_int64 d k (omega arith)) (elim (Bool-cases (ltb (max_int64 - d) at)) [
      | inl late ↦ ground arith
      | inr early ↦ rw (+ℤ_pos at d (ground arith)) (ground arith)
    ])

start_of_silence :
    (s : ChannelState) (v : Float32) (at stale hold decay lost : ℕ)
    → at ≤ max_int64
    → stale ≤ max_int64
    → record_unavailable
        (record_fresh s v (pos at) (record {
          hold_duration = pos hold;
          decay_duration = pos decay;
          stale_after = pos stale;
        }))
        (pos lost)
      ≡ record s {
        seen = true;
        last_fresh_at_ns = pos at;
        last_fresh_value = v;
        dropout_start_ns = pos (min lost (min (at + stale) max_int64));
      }
unfolding record_fresh record_unavailable
start_of_silence s v at stale hold decay lost h k =
    rw (add_duration_saturated-min at stale h k)
      (elim (Bool-cases (ltb lost (min (at + stale) max_int64))) [
        | inl sooner ↦ ground arith
        | inr later ↦ ground arith
      ])

module _ (fl : Arithmetic) where
  open fl use {sub64, mul32, div64, to32, of_int64}

  -- A channel has a value exactly when it has ever been fresh.
  pub dropout_value-seen :
      (s : ChannelState) (policy : DropoutPolicy) (now : ℤ)
      → (dropout_value fl s policy now).1 ≡ s.seen
  unfolding dropout_value
  dropout_value-seen s policy now = ground arith

  -- The value of a channel that fell silent at `start`, on numbers that do not wrap.
  unfoldable pub silent_value : Float32 → ℕ → ℕ → ℕ → ℕ → Float32
  silent_value last start hold decay now =
      if leb now (start + hold)
      then last
      else (if leb (start + hold + decay) now
          then zero32
          else mul32 last
              (to32 (sub64 one64 (div64 (of_int64 (now - start - hold)) (of_int64 decay)))))

  silent_state :
      (s : ChannelState) (policy : DropoutPolicy) (start hold decay now : ℕ)
      → now ≤ max_int64
      → dropout_value fl
          (record s { seen = true; dropout_start_ns = pos start })
          (record policy { hold_duration = pos hold; decay_duration = pos decay })
          (pos now)
        ≡ (silent_value s.last_fresh_value start hold decay now, true)
  unfolding dropout_value faded silent_value
  silent_state s policy start hold decay now h = elim (Bool-cases (leb now start)) [
    | inl early ↦ ground arith
    | inr late ↦
        rw (-ℤ_pos now start (ground arith) h) (elim (Bool-cases (leb (now - start) hold)) [
          | inl held ↦ ground arith
          | inr over ↦ rw (-ℤ_pos (now - start) hold (ground arith) (ground arith)) (ground arith)
        ])
  ]

  -- A channel that was given a value at the time `at`, and that its source leaves at the time `lost`,
  -- shows that value until the earlier of `lost` and the end of its stale time, holds it for the hold
  -- duration, fades it over the decay duration, and shows 0 from then on, all without overflow.
  pub fresh_then_lost :
      (s : ChannelState) (v : Float32) (at stale hold decay lost now : ℕ)
      → at ≤ max_int64
      → stale ≤ max_int64
      → now ≤ max_int64
      → dropout_value fl
          (record_unavailable
            (record_fresh s v (pos at) (record {
              hold_duration = pos hold;
              decay_duration = pos decay;
              stale_after = pos stale;
            }))
            (pos lost))
          (record { hold_duration = pos hold; decay_duration = pos decay; stale_after = pos stale })
          (pos now)
        ≡ (silent_value v (min lost (min (at + stale) max_int64)) hold decay now, true)
  fresh_then_lost s v at stale hold decay lost now h k l =
      rw (start_of_silence s v at stale hold decay lost h k) (
        silent_state (record s { last_fresh_at_ns = pos at; last_fresh_value = v })
          (record { hold_duration = pos hold; decay_duration = pos decay; stale_after = pos stale })
          (min lost (min (at + stale) max_int64)) hold decay now l)
