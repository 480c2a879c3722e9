-- ===== src/Processing/Dropout.antt =====
-- internal/processing/dropout.go: a value is held, then fades, once its channel falls silent.
use vrcft_go.Base.{
  Bool, true, false, not, ◌||◌, if◌then◌else◌, ℤ, pos, pos_part, ltb_ℤ, leb_ℤ, eqb_ℤ, ◌+ℤ◌, ◌-ℤ◌,
  max_int64,
}
use vrcft_go.Floats.{Float32, Arithmetic, zero32, one64}
use vrcft_go.Processing.Config.{DropoutPolicy}
use vrcft_go.Processing.Filter.{FilterState, no_history}

pub record ChannelState : Type 0 where
  pub filter : FilterState
  pub seen : Bool
  pub last_fresh_at_ns : ℤ
  pub last_fresh_value : Float32
  pub dropout_start_ns : ℤ

abbrev pub no_channel : ChannelState
no_channel = record {
  filter = no_history;
  seen = false;
  last_fresh_at_ns = pos 0;
  last_fresh_value = zero32;
  dropout_start_ns = pos 0;
}

unfoldable pub add_duration_saturated : ℤ → ℤ → ℤ
add_duration_saturated at duration =
    if ltb_ℤ (pos max_int64 -ℤ duration) at then pos max_int64 else at +ℤ duration

unfoldable pub record_fresh : ChannelState → Float32 → ℤ → DropoutPolicy → ChannelState
record_fresh s value at policy = record s {
  seen = true;
  last_fresh_at_ns = at;
  last_fresh_value = value;
  dropout_start_ns = add_duration_saturated at policy.stale_after;
}

unfoldable pub record_unavailable : ChannelState → ℤ → ChannelState
record_unavailable s at =
    if s.seen
    then (if ltb_ℤ at s.dropout_start_ns then record s { dropout_start_ns = at } else s)
    else s

module _ (fl : Arithmetic) where
  open fl use {sub64, mul32, div64, to32, of_int64}

  -- The value once the hold is over, `after_hold` nanoseconds ago.
  unfoldable pub faded : ChannelState → DropoutPolicy → ℤ → Float32
  faded s policy after_hold =
      if eqb_ℤ policy.decay_duration (pos 0) || leb_ℤ policy.decay_duration after_hold
      then zero32
      else mul32 s.last_fresh_value (
          to32 (
            sub64 one64
              (div64 (of_int64 (pos_part after_hold)) (of_int64 (pos_part policy.decay_duration)))))

  unfoldable pub dropout_value : ChannelState → DropoutPolicy → ℤ → Float32 × Bool
  dropout_value s policy now =
      if not s.seen
      then (zero32, false)
      else (if leb_ℤ now s.dropout_start_ns
          then (s.last_fresh_value, true)
          else (let elapsed = now -ℤ s.dropout_start_ns in
              if leb_ℤ elapsed policy.hold_duration
              then (s.last_fresh_value, true)
              else (faded s policy (elapsed -ℤ policy.hold_duration), true)))
