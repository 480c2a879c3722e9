-- ===== src/Sender/Scalar.antt =====
-- internal/osc/scalar.go: the values that are sent, as their bits.
use vrcft_go.Base.{ℕ, Bool, false, not, ◌==◌, if◌then◌else◌, ℤ}
use vrcft_go.Floats.{Float32, Arithmetic, abs32, le32}
use vrcft_go.Osc.Values.{uint32_of}

abbrev pub scalar_float32 : ℕ
scalar_float32 = 1

abbrev pub scalar_int32 : ℕ
scalar_int32 = 2

abbrev pub scalar_false : ℕ
scalar_false = 3

abbrev pub scalar_true : ℕ
scalar_true = 4

pub record ScalarValue : Type 0 where
  pub bits : ℕ
  pub kind : ℕ

abbrev pub float_scalar : Float32 → ScalarValue
float_scalar value = record { bits = value; kind = scalar_float32 }

abbrev pub int_scalar : ℤ → ScalarValue
int_scalar value = record { bits = uint32_of value; kind = scalar_int32 }

abbrev pub bool_scalar : Bool → ScalarValue
bool_scalar value = record { bits = 0; kind = if value then scalar_true else scalar_false }

unfoldable pub type_tag : ScalarValue → ℕ
type_tag v =
    if v.kind == scalar_float32
    then b'f'
    else if v.kind == scalar_int32
    then b'i'
    else if v.kind == scalar_false
    then b'F'
    else if v.kind == scalar_true
    then b'T'
    else 0

unfoldable pub scalar_equal : Arithmetic → ScalarValue → ScalarValue → Float32 → Bool
scalar_equal fl left right epsilon =
    if not (left.kind == right.kind)
    then false
    else if left.kind == scalar_float32
    then le32 (abs32 (fl.sub32 left.bits right.bits)) epsilon
    else left.bits == right.bits
