-- ===== src/Sender/Outputs.antt =====
-- internal/osc/sender.go and catalog.go: the value of one output.
use vrcft_go.Base.{
  ℕ, ◌+◌, ◌%◌, ◌^◌, Bool, not, ◌&&◌, ◌||◌, Option, none, some, ltb, ◌==◌, if◌then◌else◌, Result, ok,
  err, ◌>>=◌, ℤ, pos, has_bits, Bytes,
}
use vrcft_go.Floats.{Float32, Arithmetic, zero32, one32, finite32, is_nan32, lt32, le32, abs32}
use vrcft_go.Parameters.Definition.{ValueRange}
use vrcft_go.Sender.Scalar.{
  ScalarValue, float_scalar, int_scalar, bool_scalar, scalar_float32, scalar_int32, scalar_false,
  scalar_true,
}
use vrcft_go.Sender.Builder.{SenderError, unsupported_type}

abbrev pub output_direct_float : ℕ
output_direct_float = 1

abbrev pub output_direct_bool : ℕ
output_direct_bool = 2

abbrev pub output_binary_negative : ℕ
output_binary_negative = 3

abbrev pub output_binary_bit : ℕ
output_binary_bit = 4

pub record OutputBinding : Type 0 where
  pub parameter : ℕ
  pub address : Bytes
  pub operation : ℕ
  pub wire_kind : ℕ
  pub weight : ℕ
  pub quantize_max : ℕ
  pub range : ValueRange
  pub has_range : Bool
  pub cache_index : ℕ

-- `ValueSource`, which a snapshot of the evaluator is.
pub record ValueSource : Type 0 where
  pub float : ℕ → Float32 × Bool
  pub bool : ℕ → Bool × Bool

-- The conversions of the machine: `int32(math.Round(float64(v)))`, `uint32(math.Floor(float64(v)))`
-- and `float32` of a uint32.
pub record Conversions : Type 0 where
  pub round_int32 : Float32 → ℤ
  pub floor_uint32 : Float32 → ℕ
  pub of_uint32 : ℕ → Float32

-- The constant 0.5.
abbrev half32 : Float32
half32 = 0x3f000000

unfoldable pub clamp_between : Float32 → Float32 → Float32 → Float32
clamp_between value lowest highest =
    if lt32 value lowest then lowest else if lt32 highest value then highest else value

unfoldable pub clamp_output : OutputBinding → Float32 → Float32
clamp_output output value =
    if not output.has_range
    then value
    else clamp_between value output.range.lowest output.range.highest

unfoldable pub scalar_from_bool : ℕ → Bool → Result SenderError ScalarValue
scalar_from_bool kind value =
    if kind == scalar_float32
    then ok (float_scalar (if value then one32 else zero32))
    else if kind == scalar_int32
    then ok (int_scalar (pos (if value then 1 else 0)))
    else if kind == scalar_false || kind == scalar_true
    then ok (bool_scalar value)
    else err unsupported_type

module _ (fl : Arithmetic) (cv : Conversions) where
  unfoldable pub scalar_from_float : ℕ → Float32 → Result SenderError ScalarValue
  scalar_from_float kind value =
      if kind == scalar_float32
      then ok (float_scalar value)
      else if kind == scalar_int32
      then ok (int_scalar (cv.round_int32 value))
      else if kind == scalar_false || kind == scalar_true
      then ok (bool_scalar (le32 half32 value))
      else err unsupported_type

  -- `math.Max`, where not both are zero.
  abbrev pub larger : Float32 → Float32 → Float32
  larger a b = if is_nan32 a then a else if is_nan32 b then b else if lt32 a b then b else a

  unfoldable pub binary_magnitude : Bool → ValueRange → Float32 → Float32
  binary_magnitude has_range range value =
      if not has_range || le32 range.highest range.lowest
      then clamp_between (abs32 value) zero32 one32
      else if has_range && lt32 range.lowest zero32
      then (let limit = larger (abs32 range.lowest) (abs32 range.highest) in
          if le32 limit zero32
          then zero32
          else clamp_between (fl.div32 (abs32 value) limit) zero32 one32)
      else clamp_between
          (fl.div32 (fl.sub32 value range.lowest) (fl.sub32 range.highest range.lowest)) zero32
          one32

  -- `output.QuantizeMax+1` is a uint32.
  abbrev pub quantized : OutputBinding → Float32 → ℕ
  quantized output value =
      let n = cv.floor_uint32 (
        fl.mul32 (binary_magnitude output.has_range output.range value)
          (cv.of_uint32 ((output.quantize_max + 1) % 2 ^ 32))) in
      if ltb output.quantize_max n then output.quantize_max else n

  -- The output of a float that is there and finite.
  unfoldable pub float_output : OutputBinding → Float32 → Result SenderError ScalarValue
  float_output output value =
      if output.operation == output_direct_float
      then scalar_from_float output.wire_kind (clamp_output output value)
      else if output.operation == output_binary_negative
      then scalar_from_bool output.wire_kind (lt32 (clamp_output output value) zero32)
      else scalar_from_bool output.wire_kind
          (has_bits (quantized output (clamp_output output value)) output.weight)

  abbrev pub found : Result SenderError ScalarValue → Result SenderError (Option ScalarValue)
  found r = do v ← r; ok (some v)

  -- The scalar of an output, none if its parameter has no value.
  unfoldable pub evaluate_output :
      OutputBinding → ValueSource → Result SenderError (Option ScalarValue)
  evaluate_output output source =
      if output.operation == output_direct_bool
      then (let (value, valid) = source.bool output.parameter in
          if not valid then ok none else found (scalar_from_bool output.wire_kind value))
      else if output.operation == output_direct_float
          || output.operation == output_binary_negative
          || output.operation == output_binary_bit
      then (let (value, valid) = source.float output.parameter in
          if not valid || not (finite32 value) then ok none else found (float_output output value))
      else err unsupported_type
