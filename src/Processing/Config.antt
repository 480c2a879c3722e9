-- ===== src/Processing/Config.antt =====
-- internal/processing/config.go and errors.go: the settings, their checks, and their compiled form.
use vrcft_go.Base.{
  ℕ, ◌-◌, Bool, true, false, not, ◌&&◌, ◌||◌, List, [], ◌∷◌, length, set, get_or, replicate, ltb,
  ◌==◌, if◌then◌else◌, Bytes, ℤ, pos, ltb_ℤ, leb_ℤ, Result, ok, err, ◌>>=◌, ◌>>◌, fail_if,
}
use vrcft_go.Floats.{Float32, finite32, lt32, le32, eq32, zero32, one32}
use vrcft_go.Processing.Channel.{channel_count, known_channel}

pub data ProcessingError : Type 0 where
  invalid_config unknown_channel invalid_calibration invalid_tuning : ProcessingError
  invalid_filter invalid_dropout invalid_mutual_exclusion invalid_input : ProcessingError
  generation_regression revision_regression revision_conflict time_regression : ProcessingError

pub record ChannelCalibration : Type 0 where
  pub enabled : Bool
  pub neutral : Float32
  pub min : Float32
  pub max : Float32
  pub gain : Float32
  pub invert : Bool

pub record ChannelTuning : Type 0 where
  pub deadzone : Float32
  pub gain : Float32
  pub exponent : Float32
  pub clamp_enabled : Bool
  pub clamp_min : Float32
  pub clamp_max : Float32

-- A string: one of three known modes, or another.
pub data FilterMode : Type 0 where
  none ema one_euro : FilterMode
  other : Bytes → FilterMode

pub record FilterConfig : Type 0 where
  pub mode : FilterMode
  pub ema_alpha : Float32
  pub min_cutoff : Float32
  pub beta : Float32
  pub derivative_cutoff : Float32

-- Durations are int64 nanoseconds.
pub record DropoutPolicy : Type 0 where
  pub hold_duration : ℤ
  pub decay_duration : ℤ
  pub stale_after : ℤ

pub record ChannelConfig : Type 0 where
  pub calibration : ChannelCalibration
  pub tuning : ChannelTuning
  pub filter : FilterConfig
  pub dropout : DropoutPolicy

pub record Config : Type 0 where
  pub default_channel : ChannelConfig
  pub overrides : List (ℕ × ChannelConfig)
  pub active_stale_after : ℤ
  pub mutual_exclusion : List (List ℕ)

abbrev pub default_config : Config
default_config = record {
  default_channel = record {
    calibration = record {
      enabled = false;
      neutral = zero32;
      min = zero32;
      max = zero32;
      gain = one32;
      invert = false;
    };
    tuning = record {
      deadzone = zero32;
      gain = one32;
      exponent = one32;
      clamp_enabled = false;
      clamp_min = zero32;
      clamp_max = zero32;
    };
    filter = record {
      mode = FilterMode.none;
      ema_alpha = zero32;
      min_cutoff = zero32;
      beta = zero32;
      derivative_cutoff = zero32;
    };
    dropout = record {
      hold_duration = pos 100_000_000;
      decay_duration = pos 300_000_000;
      stale_after = pos 500_000_000;
    };
  };
  overrides = [];
  active_stale_after = pos 500_000_000;
  mutual_exclusion = [];
}

unfoldable pub validate_calibration : ChannelCalibration → Result ProcessingError (Unit {0})
validate_calibration c =
    if not c.enabled
    then ok tt
    else fail_if
        (not (finite32 c.min)
          || not (finite32 c.neutral)
          || not (finite32 c.max)
          || not (finite32 c.gain)
          || lt32 c.neutral c.min
          || lt32 c.max c.neutral
          || (eq32 c.min c.neutral && eq32 c.neutral c.max)
          || le32 c.gain zero32)
        invalid_calibration

unfoldable pub validate_tuning : ChannelTuning → Result ProcessingError (Unit {0})
validate_tuning t = do
  fail_if
      (not (finite32 t.deadzone)
        || not (finite32 t.gain)
        || not (finite32 t.exponent)
        || lt32 t.deadzone zero32
        || le32 one32 t.deadzone
        || le32 t.gain zero32
        || le32 t.exponent zero32)
      invalid_tuning
  fail_if
      (t.clamp_enabled
        && (not (finite32 t.clamp_min)
            || not (finite32 t.clamp_max)
            || le32 t.clamp_max t.clamp_min))
      invalid_tuning

unfoldable pub filter_ok : FilterMode → FilterConfig → Bool
filter_ok FilterMode.none c = true
filter_ok ema c = finite32 c.ema_alpha && lt32 zero32 c.ema_alpha && le32 c.ema_alpha one32
filter_ok one_euro c =
    finite32 c.min_cutoff
    && finite32 c.beta
    && finite32 c.derivative_cutoff
    && lt32 zero32 c.min_cutoff
    && le32 zero32 c.beta
    && lt32 zero32 c.derivative_cutoff
filter_ok (other name) c = false

unfoldable pub validate_filter : FilterConfig → Result ProcessingError (Unit {0})
validate_filter c = fail_if (not (filter_ok c.mode c)) invalid_filter

unfoldable pub validate_dropout : DropoutPolicy → Result ProcessingError (Unit {0})
validate_dropout p =
    fail_if
      (leb_ℤ p.stale_after (pos 0)
        || ltb_ℤ p.hold_duration (pos 0)
        || ltb_ℤ p.decay_duration (pos 0))
      invalid_dropout

unfoldable pub validate_channel_config : ChannelConfig → Result ProcessingError (Unit {0})
validate_channel_config c = do
  validate_calibration c.calibration
  validate_tuning c.tuning
  validate_filter c.filter
  validate_dropout c.dropout

pub record CompiledConfig : Type 0 where
  pub channels : List ChannelConfig
  pub active_stale_after : ℤ
  pub mutual_exclusion : List (List ℕ)

-- `config.channels[id-1]`; every channel that the pipeline asks for is known.
abbrev pub config_at : CompiledConfig → ℕ → ChannelConfig
config_at c id = get_or c.channels (id - 1) default_config.default_channel

unfoldable pub contains : ℕ → List ℕ → Bool
contains id [] = false
contains id (j ∷ js) = j == id || contains id js

-- One group, with the channels seen before it; the result is what has been seen behind it.
unfoldable pub compile_group : List ℕ → List ℕ → Result ProcessingError (List ℕ)
compile_group seen [] = ok seen
compile_group seen (id ∷ ids) =
    if not (known_channel id)
    then err unknown_channel
    else (if contains id seen then err invalid_mutual_exclusion else compile_group (id ∷ seen) ids)

unfoldable pub compile_groups : List ℕ → List (List ℕ) → Result ProcessingError (List (List ℕ))
unfolding compile_group
compile_groups seen [] = ok []
compile_groups seen (group ∷ groups) =
    if ltb (length group) 2
    then err invalid_mutual_exclusion
    else (compile_group seen group >>= λ seen'.
        compile_groups seen' groups >>= λ compiled. ok (group ∷ compiled))

unfoldable pub compile_overrides :
    List ChannelConfig → List (ℕ × ChannelConfig) → Result ProcessingError (List ChannelConfig)
compile_overrides channels [] = ok channels
compile_overrides channels ((id, channel) ∷ overrides) =
    if not (known_channel id)
    then err unknown_channel
    else (validate_channel_config channel
        >> compile_overrides (set channels (id - 1) channel) overrides)

unfoldable pub compile_config : Config → Result ProcessingError CompiledConfig
compile_config c = do
  fail_if (leb_ℤ c.active_stale_after (pos 0)) invalid_dropout
  validate_channel_config c.default_channel
  channels ← compile_overrides (replicate channel_count c.default_channel) c.overrides
  groups ← compile_groups [] c.mutual_exclusion
  ok (record {
    channels = channels;
    active_stale_after = c.active_stale_after;
    mutual_exclusion = groups;
  })
