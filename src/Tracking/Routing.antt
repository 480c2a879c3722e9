-- ===== src/Tracking/Routing.antt =====
-- internal/tracking/routing.go and source.go: which plugin feeds each group.
pub mod Choice
use vrcft_go.Base.{
  ℕ, Bool, true, false, not, ◌&&◌, ◌||◌, List, [], ◌∷◌, Option, none, some, Bytes, is_empty, str_eq,
  str_lt, lookup, if◌then◌else◌, has_bits, ℤ, Result, ok, err, ◌>>=◌, ◌>>◌,
}
use vrcft_go.TrackingModel.Frame.{TrackingFrame}

pub record SourceState : Type 0 where
  pub frame : TrackingFrame
  pub received_at_ns : ℤ
  pub last_sequence : ℕ
  pub last_timestamp_ns : ℤ
  pub last_source_clock_ns : ℤ

abbrev pub Sources : Type 0
Sources = List (Bytes × SourceState)

pub record SourceSelection : Type 0 where
  pub auto : Bool
  pub plugin_id : Bytes

pub record RoutingConfig : Type 0 where
  pub eye : SourceSelection
  pub expression : SourceSelection
  pub lip : SourceSelection

abbrev pub auto_selection : SourceSelection
auto_selection = record { auto = true; plugin_id = [] }

abbrev pub default_routing : RoutingConfig
default_routing = record { eye = auto_selection; expression = auto_selection; lip = auto_selection }

pub data RoutingError : Type 0 where
  invalid_routing : RoutingError

abbrev pub bool_eq : Bool → Bool → Bool
bool_eq true b = b
bool_eq false b = not b

unfoldable pub validate_selection : SourceSelection → Result RoutingError (Unit {0})
validate_selection s =
    if bool_eq s.auto (not (is_empty s.plugin_id)) then err invalid_routing else ok tt

unfoldable pub validate_routing : RoutingConfig → Result RoutingError (Unit {0})
unfolding validate_selection
validate_routing r = do
  validate_selection r.eye
  validate_selection r.expression
  validate_selection r.lip

unfoldable pub selection_eq : SourceSelection → SourceSelection → Bool
selection_eq a b = bool_eq a.auto b.auto && str_eq a.plugin_id b.plugin_id

unfoldable pub routing_eq : RoutingConfig → RoutingConfig → Bool
unfolding selection_eq
routing_eq a b =
    selection_eq a.eye b.eye && selection_eq a.expression b.expression && selection_eq a.lip b.lip

abbrev pub capable : ℕ → SourceState → Bool
capable capability s = has_bits s.frame.capabilities capability

-- `source, ok := sources[id]; ok && source.frame.Capabilities.Has(capability)`.
abbrev pub found_capable : ℕ → Option SourceState → Bool
found_capable capability none = false
found_capable capability (some s) = capable capability s

abbrev pub offers : ℕ → Sources → Bytes → Bool
offers capability sources id = found_capable capability (lookup id sources)

-- The `range` over the map, with the name selected so far.
unfoldable pub least_from : ℕ → Bytes → Sources → Bytes
least_from capability selected [] = selected
least_from capability selected ((id, source) ∷ sources) =
    least_from capability
      (if capable capability source && (is_empty selected || str_lt id selected)
        then id
        else selected)
      sources

unfoldable pub choose_auto_source : Bytes → Sources → ℕ → Bytes
choose_auto_source current sources capability =
    if offers capability sources current then current else least_from capability [] sources

unfoldable pub resolve_source : SourceSelection → Bytes → Sources → ℕ → Bytes
resolve_source selection current sources capability =
    if selection.auto
    then choose_auto_source current sources capability
    else (if offers capability sources selection.plugin_id then selection.plugin_id else [])
