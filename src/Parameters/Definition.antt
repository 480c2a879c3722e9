-- ===== src/Parameters/Definition.antt =====
-- internal/parameters/types.go: what a parameter is.
use Prim.Native.Char.{code}
use Prim.Native.String.{String}
use vrcft_go.Base.{ℕ, Bool, true, false, List, [], ◌∷◌, bit_or, has_bits, Bytes}
use vrcft_go.Floats.{Float32, zero32}

-- The bytes of a text, which is ASCII.
abbrev pub codes : String → Bytes
codes String.[] = []
codes (String.◌∷◌ c s) = code c ∷ codes s

abbrev pub kind_detailed : ℕ
kind_detailed = 1

abbrev pub kind_simplified : ℕ
kind_simplified = 2

abbrev pub kind_tracking_active : ℕ
kind_tracking_active = 3

abbrev pub value_float : ℕ
value_float = 1

abbrev pub value_bool : ℕ
value_bool = 2

abbrev pub encoding_float : ℕ
encoding_float = 1

abbrev pub encoding_binary : ℕ
encoding_binary = 2

abbrev pub encoding_bool : ℕ
encoding_bool = 4

-- `Encoding.Has`.
unfoldable pub encoding_has : ℕ → ℕ → Bool
encoding_has e flag = has_bits e flag

pub record ValueRange : Type 0 where
  pub lowest : Float32
  pub highest : Float32

pub record SemanticRange : Type 0 where
  pub lowest : Float32
  pub highest : Float32
  pub meaning : String

pub record BoolSemantics : Type 0 where
  pub when_true : String
  pub when_false : String

pub record ParameterDefinition : Type 0 where
  pub id : ℕ
  pub name : String
  pub osc_name : Bytes
  pub group : String
  pub kind : ℕ
  pub value_type : ℕ
  pub encodings : ℕ
  pub range : ValueRange
  pub has_range : Bool
  pub unit : String
  pub semantics : List SemanticRange
  pub bool : BoolSemantics

abbrev pub minus_one32 : Float32
minus_one32 = 0xbf800000

abbrev pub meaning : Float32 → Float32 → String → SemanticRange
meaning lowest highest text = record { lowest = lowest; highest = highest; meaning = text }

-- The rows of the generated table: a float has a range and both encodings of floats, a Boolean has none.
abbrev pub float_row :
    ℕ
    → String
    → String
    → String
    → ℕ
    → Float32
    → Float32
    → String
    → List SemanticRange
    → ParameterDefinition
float_row id name osc_name group kind lowest highest unit semantics = record {
  id = id;
  name = name;
  osc_name = codes osc_name;
  group = group;
  kind = kind;
  value_type = value_float;
  encodings = bit_or encoding_float encoding_binary;
  range = record { lowest = lowest; highest = highest };
  has_range = true;
  unit = unit;
  semantics = semantics;
  bool = record { when_true = ""; when_false = "" };
}

abbrev pub bool_row : ℕ → String → String → String → String → String → ParameterDefinition
bool_row id name osc_name group when_true when_false = record {
  id = id;
  name = name;
  osc_name = codes osc_name;
  group = group;
  kind = kind_tracking_active;
  value_type = value_bool;
  encodings = encoding_bool;
  range = record { lowest = zero32; highest = zero32 };
  has_range = false;
  unit = "";
  semantics = [];
  bool = record { when_true = when_true; when_false = when_false };
}
