-- ===== src/Processing/Filter.antt =====
-- internal/processing/filter.go: no filter, an exponential average, or the one-euro filter.
use vrcft_go.Base.{
  ℕ, suc, ◌+◌, ◌-◌, ◌%◌, ◌^◌, Bool, true, false, not, ◌||◌, if◌then◌else◌, ℤ, pos, negsuc, leb_ℤ,
  Result, ok, err, ◌>>=◌, ◌>>◌, fail_if,
}
use vrcft_go.Floats.{Float32, Float64, Arithmetic, finite32, finite64, le64, abs64, zero64, one64}
use vrcft_go.Processing.Config.{
  ProcessingError, FilterConfig, FilterMode, ema, one_euro, other, invalid_filter, validate_filter,
}

pub record FilterState : Type 0 where
  pub initialized : Bool
  pub last_at_ns : ℤ
  pub last_raw : Float64
  pub filtered_value : Float64
  pub filtered_derivative : Float64

abbrev pub no_history : FilterState
no_history = record {
  initialized = false;
  last_at_ns = pos 0;
  last_raw = zero64;
  filtered_value = zero64;
  filtered_derivative = zero64;
}

-- `uint64(n)` of an int64.
abbrev pub to_uint64 : ℤ → ℕ
to_uint64 (pos n) = n
to_uint64 (negsuc n) = 2 ^ 64 - suc n

abbrev pub elapsed_uint64 : ℤ → ℤ → ℕ
elapsed_uint64 at last = (to_uint64 at + 2 ^ 64 - to_uint64 last) % 2 ^ 64

abbrev pub finite64_or : Float64 → Result ProcessingError Float64
finite64_or value = if finite64 value then ok value else err invalid_filter

module _ (fl : Arithmetic) where
  open fl use {add64, sub64, mul64, div64, to64, to32, of_int64, two_pi, billion}

  unfoldable pub low_pass_alpha : Float64 → Float64 → Float64
  low_pass_alpha cutoff dt =
      let tau = div64 one64 (mul64 two_pi cutoff) in div64 one64 (add64 one64 (div64 tau dt))

  -- `alpha*new + (1-alpha)*old`.
  unfoldable pub blend : Float64 → Float64 → Float64 → Float64
  blend alpha new old = add64 (mul64 alpha new) (mul64 (sub64 one64 alpha) old)

  -- The filtered value and derivative of each mode.
  unfoldable pub filter_mode :
      FilterMode
      → FilterConfig
      → FilterState
      → Float64
      → Float64
      → Result ProcessingError (Float64 × Float64)
  unfolding blend low_pass_alpha
  filter_mode FilterMode.none c s input dt = ok (input, zero64)
  filter_mode ema c s input dt = ok (blend (to64 c.ema_alpha) input s.filtered_value, zero64)
  filter_mode one_euro c s input dt = do
    raw_derivative ← finite64_or (div64 (sub64 input s.last_raw) dt)
    derivative_alpha ← finite64_or (low_pass_alpha (to64 c.derivative_cutoff) dt)
    derivative ← finite64_or (blend derivative_alpha raw_derivative s.filtered_derivative)
    cutoff ← finite64_or (add64 (to64 c.min_cutoff) (mul64 (to64 c.beta) (abs64 derivative)))
    fail_if (le64 cutoff zero64) invalid_filter
    value_alpha ← finite64_or (low_pass_alpha cutoff dt)
    ok (blend value_alpha input s.filtered_value, derivative)
  filter_mode (other name) c s input dt = err invalid_filter

  -- A later sample, at a time behind the last one.
  unfoldable pub filter_next :
      FilterState → FilterConfig → Float32 → ℤ → Result ProcessingError (FilterState × Float32)
  filter_next s c value at = do
    fail_if (leb_ℤ at s.last_at_ns) invalid_filter
    dt ← finite64_or (div64 (of_int64 (elapsed_uint64 at s.last_at_ns)) billion)
    fail_if (le64 dt zero64) invalid_filter
    (filtered, derivative) ← filter_mode c.mode c s (to64 value) dt
    filtered' ← finite64_or filtered
    result ← (if finite32 (to32 filtered') then ok (to32 filtered') else err invalid_filter)
    ok (
      record {
        initialized = true;
        last_at_ns = at;
        last_raw = to64 value;
        filtered_value = filtered';
        filtered_derivative = derivative;
      },
      result,
    )

  unfoldable pub filter_first : Float32 → ℤ → FilterState × Float32
  filter_first value at = (
    record {
      initialized = true;
      last_at_ns = at;
      last_raw = to64 value;
      filtered_value = to64 value;
      filtered_derivative = zero64;
    },
    value,
  )

  unfoldable pub apply_filter :
      FilterState → FilterConfig → Float32 → ℤ → Result ProcessingError (FilterState × Float32)
  apply_filter s c value at = elim (validate_filter c) [
    | err _ ↦ err invalid_filter
    | ok _ ↦
        if not (finite32 value) || not (finite64 (to64 value))
        then err invalid_filter
        else (if not s.initialized then ok (filter_first value at) else filter_next s c value at)
  ]
