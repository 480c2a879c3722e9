-- ===== src/Parameters/Types.antt =====
-- internal/parameters/types.go: the lookup of parameters, and the range of their values.
use vrcft_go.Base.{ℕ, not, Option, none, some, leb, if◌then◌else◌, get_or, Bytes, lookup}
use vrcft_go.Floats.{Float32, lt32}
use vrcft_go.Parameters.Definition.{ParameterDefinition, bool_row}
use vrcft_go.Parameters.Table.{definitions}
use vrcft_go.Parameters.Names.{parameter_by_osc_name}

abbrev pub parameter_count : ℕ
parameter_count = 127

-- Go's zero value, which no caller looks at.
abbrev pub no_definition : ParameterDefinition
no_definition = bool_row 0 "" "" "" "" ""

unfoldable pub definition : ℕ → Option ParameterDefinition
definition id = if leb parameter_count id then none else some (get_or definitions id no_definition)

unfoldable pub lookup_osc_name : Bytes → Option ℕ
lookup_osc_name name = lookup name parameter_by_osc_name

-- The value in the parameter's range, if there is a parameter.
unfoldable pub clamp_to : ParameterDefinition → Float32 → Float32
clamp_to def value =
    if not def.has_range
    then value
    else if lt32 value def.range.lowest
    then def.range.lowest
    else if lt32 def.range.highest value
    then def.range.highest
    else value

unfoldable pub clamp : ℕ → Float32 → Option Float32
clamp id value = elim (definition id) [ none ↦ none | some def ↦ some (clamp_to def value) ]
