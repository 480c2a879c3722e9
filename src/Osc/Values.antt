-- ===== src/Osc/Values.antt =====
-- pkg/osc/packet.go: values, messages, bundles, and the errors of the wire format.
use vrcft_go.Base.{
  ℕ, ◌+◌, ◌-◌, ◌*◌, ◌/◌, ◌%◌, ◌^◌, ◌<◌, Bool, true, false, ◌&&◌, ◌||◌, not, List, [], ◌∷◌, ltb,
  ◌==◌, if◌then◌else◌, get_or, ℤ, pos, negsuc, Bytes,
}
use vrcft_go.Floats.{Float32, zero32}

pub data OscError : Type 0 where
  malformed_packet unsupported_type invalid_address invalid_argument : OscError

abbrev pub value_int32 : ℕ
value_int32 = 1

abbrev pub value_float32 : ℕ
value_float32 = 2

abbrev pub value_string : ℕ
value_string = 3

abbrev pub value_bool : ℕ
value_bool = 4

-- Only the field that belongs to the kind is used.
pub record Value : Type 0 where
  pub kind : ℕ
  pub i32 : ℤ
  pub f32 : Float32
  pub str : Bytes
  pub bool : Bool

abbrev pub int32 : ℤ → Value
int32 v = record { kind = value_int32; i32 = v; f32 = zero32; str = []; bool = false }

abbrev pub float32 : Float32 → Value
float32 v = record { kind = value_float32; i32 = pos 0; f32 = v; str = []; bool = false }

abbrev pub string : Bytes → Value
string v = record { kind = value_string; i32 = pos 0; f32 = zero32; str = v; bool = false }

abbrev pub bool_value : Bool → Value
bool_value v = record { kind = value_bool; i32 = pos 0; f32 = zero32; str = []; bool = v }

pub record Message : Type 0 where
  pub address : Bytes
  pub args : List Value

pub record Bundle : Type 0 where
  pub timetag : ℕ
  pub elements : List Bytes

-- `strings.ContainsRune(s, '\x00')`.
unfoldable pub contains_nul : Bytes → Bool
contains_nul [] = false
contains_nul (c ∷ s) = c == 0 || contains_nul s

unfoldable pub has_prefix : Bytes → Bytes → Bool
has_prefix s [] = true
has_prefix [] (p ∷ ps) = false
has_prefix (c ∷ s) (p ∷ ps) = c == p && has_prefix s ps

unfoldable pub valid_address : Bytes → Bool
valid_address address = has_prefix address (b'/' ∷ []) && not (contains_nul address)

-- `uint32(v)` of an int32, and back.
abbrev pub uint32_of : ℤ → ℕ
uint32_of (pos n) = n % 2 ^ 32
uint32_of (negsuc n) = 2 ^ 32 - 1 - n % 2 ^ 32

abbrev pub int32_of : ℕ → ℤ
int32_of u = if ltb u (2 ^ 31) then pos u else negsuc (2 ^ 32 - 1 - u)

-- The integers of an int32.
abbrev pub InInt32 : ℤ → Type 0
InInt32 (pos n) = n < 2 ^ 31
InInt32 (negsuc n) = n < 2 ^ 31

-- `binary.BigEndian`.
unfoldable pub put_uint32 : ℕ → Bytes
put_uint32 v = (v / 2 ^ 24 % 256) ∷ (v / 2 ^ 16 % 256) ∷ (v / 2 ^ 8 % 256) ∷ (v % 256) ∷ []

unfoldable pub uint32_at : Bytes → ℕ → ℕ
uint32_at packet offset =
    get_or packet offset 0 * 2 ^ 24
    + get_or packet (offset + 1) 0 * 2 ^ 16
    + get_or packet (offset + 2) 0 * 2 ^ 8
    + get_or packet (offset + 3) 0

unfoldable pub put_uint64 : ℕ → Bytes
put_uint64 v =
    (v / 2 ^ 56 % 256)
    ∷ (v / 2 ^ 48 % 256)
    ∷ (v / 2 ^ 40 % 256)
    ∷ (v / 2 ^ 32 % 256)
    ∷ (v / 2 ^ 24 % 256)
    ∷ (v / 2 ^ 16 % 256)
    ∷ (v / 2 ^ 8 % 256)
    ∷ (v % 256)
    ∷ []
