-- ===== src/Floats.antt =====
-- Go's float32 and float64 as IEEE 754 bit patterns. Tests, comparisons, sign and absolute value are
-- read off the bits; rounding arithmetic is the machine's, and is a parameter.
use vrcft_go.Base.{
  ℕ, ◌+◌, ◌-◌, ◌/◌, ◌%◌, ◌^◌, Bool, false, not, ◌&&◌, ltb, leb, ◌==◌, if◌then◌else◌, ◌≡◌, arith,
}

-- A bit pattern below 2 ^ 32.
abbrev pub Float32 : Type 0
Float32 = ℕ

-- A bit pattern below 2 ^ 64.
abbrev pub Float64 : Type 0
Float64 = ℕ

-- Neither NaN nor infinite: the exponent's eight bits are not all ones.
unfoldable pub finite32 : Float32 → Bool
finite32 x = not (x / 2 ^ 23 % 2 ^ 8 == 255)

unfoldable pub is_nan32 : Float32 → Bool
is_nan32 x = x / 2 ^ 23 % 2 ^ 8 == 255 && not (x % 2 ^ 23 == 0)

unfoldable pub finite64 : Float64 → Bool
finite64 x = not (x / 2 ^ 52 % 2 ^ 11 == 2047)

unfoldable pub is_nan64 : Float64 → Bool
is_nan64 x = x / 2 ^ 52 % 2 ^ 11 == 2047 && not (x % 2 ^ 52 == 0)

-- The place of a number on the line, -0 and 0 at one place, 2 ^ 31.
unfoldable pub rank32 : Float32 → ℕ
rank32 x = if ltb x (2 ^ 31) then 2 ^ 31 + x else 2 ^ 32 - x

unfoldable pub rank64 : Float64 → ℕ
rank64 x = if ltb x (2 ^ 63) then 2 ^ 63 + x else 2 ^ 64 - x

-- `a < b`, `a <= b` and `a == b`: false where an operand is NaN.
unfoldable pub lt32 : Float32 → Float32 → Bool
lt32 a b = not (is_nan32 a) && not (is_nan32 b) && ltb (rank32 a) (rank32 b)

unfoldable pub le32 : Float32 → Float32 → Bool
le32 a b = not (is_nan32 a) && not (is_nan32 b) && leb (rank32 a) (rank32 b)

unfoldable pub eq32 : Float32 → Float32 → Bool
eq32 a b = not (is_nan32 a) && not (is_nan32 b) && rank32 a == rank32 b

unfoldable pub le64 : Float64 → Float64 → Bool
le64 a b = not (is_nan64 a) && not (is_nan64 b) && leb (rank64 a) (rank64 b)

-- The sign bit is cleared, or turned over.
unfoldable pub abs32 : Float32 → Float32
abs32 x = x % 2 ^ 31

unfoldable pub neg32 : Float32 → Float32
neg32 x = if ltb x (2 ^ 31) then x + 2 ^ 31 else x - 2 ^ 31

unfoldable pub abs64 : Float64 → Float64
abs64 x = x % 2 ^ 63

-- `float32(math.Copysign(float64(m), float64(s)))`: both conversions are exact.
unfoldable pub copysign32 : Float32 → Float32 → Float32
copysign32 m s = if ltb s (2 ^ 31) then m % 2 ^ 31 else m % 2 ^ 31 + 2 ^ 31

abbrev pub zero32 : Float32
zero32 = 0

abbrev pub one32 : Float32
one32 = 0x3f800000

abbrev pub zero64 : Float64
zero64 = 0

abbrev pub one64 : Float64
one64 = 0x3ff0000000000000

-- The operations that round. `pow32 x y` is `float32(math.Pow(float64(x), float64(y)))`, `of_int64 n`
-- is `float64(n)` at an integer that is not negative, and `two_pi` is the constant `2 * math.Pi`.
pub record Arithmetic : Type 0 where
  pub add32 : Float32 → Float32 → Float32
  pub sub32 : Float32 → Float32 → Float32
  pub mul32 : Float32 → Float32 → Float32
  pub div32 : Float32 → Float32 → Float32
  pub pow32 : Float32 → Float32 → Float32
  pub add64 : Float64 → Float64 → Float64
  pub sub64 : Float64 → Float64 → Float64
  pub mul64 : Float64 → Float64 → Float64
  pub div64 : Float64 → Float64 → Float64
  pub to64 : Float32 → Float64
  pub to32 : Float64 → Float32
  pub of_int64 : ℕ → Float64
  pub two_pi : Float64
  pub billion : Float64

pub lt32_irrefl : (x : Float32) → lt32 x x ≡ false
unfolding lt32
lt32_irrefl x = ground arith
