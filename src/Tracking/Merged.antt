-- ===== src/Tracking/Merged.antt =====
-- internal/tracking/frame.go: the frame that is made of the selected sources.
use vrcft_go.Base.{
  ℕ, Bool, ◌&&◌, [], Option, none, some, Bytes, is_empty, str_eq, lookup, ◌==◌, if◌then◌else◌,
  bit_or, ℤ, pos, eqb_ℤ,
}
use vrcft_go.TrackingModel.Expressions.{ExpressionSet, empty_expressions, expressions_eq}
use vrcft_go.TrackingModel.Frame.{
  EyeSample, capability_eye, capability_expression, capability_lip, empty_eye, eye_eq,
}
use vrcft_go.Tracking.Routing.{SourceState, Sources}

pub record MergedFrame : Type 0 where
  pub generation : ℕ
  pub sequence : ℕ
  pub updated_at_ns : ℤ
  pub capabilities : ℕ
  pub eye : EyeSample
  pub expressions : ExpressionSet
  pub eye_source_id : Bytes
  pub expression_source_id : Bytes
  pub lip_source_id : Bytes
  pub eye_updated_at_ns : ℤ
  pub expression_updated_at_ns : ℤ
  pub lip_updated_at_ns : ℤ

abbrev pub empty_merged : MergedFrame
empty_merged = record {
  generation = 0;
  sequence = 0;
  updated_at_ns = pos 0;
  capabilities = 0;
  eye = empty_eye;
  expressions = empty_expressions;
  eye_source_id = [];
  expression_source_id = [];
  lip_source_id = [];
  eye_updated_at_ns = pos 0;
  expression_updated_at_ns = pos 0;
  lip_updated_at_ns = pos 0;
}

unfoldable pub merged_content_equal : MergedFrame → MergedFrame → Bool
merged_content_equal a b =
    a.generation == b.generation
    && a.capabilities == b.capabilities
    && eye_eq a.eye b.eye
    && expressions_eq a.expressions b.expressions
    && str_eq a.eye_source_id b.eye_source_id
    && str_eq a.expression_source_id b.expression_source_id
    && str_eq a.lip_source_id b.lip_source_id
    && eqb_ℤ a.eye_updated_at_ns b.eye_updated_at_ns
    && eqb_ℤ a.expression_updated_at_ns b.expression_updated_at_ns
    && eqb_ℤ a.lip_updated_at_ns b.lip_updated_at_ns

-- The three blocks of `recomputeMergedLocked`, one for each group. A name that is not in the map
-- would read Go's zero value, which has no data.
abbrev pub with_eye : Option SourceState → MergedFrame → MergedFrame
with_eye none m = record m { capabilities = bit_or m.capabilities capability_eye; eye = empty_eye }
with_eye (some s) m = record m {
  capabilities = bit_or m.capabilities capability_eye;
  eye = s.frame.eye;
  eye_updated_at_ns = s.received_at_ns;
}

abbrev pub with_expression : Option SourceState → MergedFrame → MergedFrame
with_expression none m = record m {
  capabilities = bit_or m.capabilities capability_expression;
  expressions = empty_expressions;
}
with_expression (some s) m = record m {
  capabilities = bit_or m.capabilities capability_expression;
  expressions = s.frame.expressions;
  expression_updated_at_ns = s.received_at_ns;
}

abbrev pub with_lip : Option SourceState → MergedFrame → MergedFrame
with_lip none m = record m { capabilities = bit_or m.capabilities capability_lip }
with_lip (some s) m = record m {
  capabilities = bit_or m.capabilities capability_lip;
  lip_updated_at_ns = s.received_at_ns;
}

unfoldable pub compose_merged : ℕ → Bytes → Bytes → Bytes → Sources → MergedFrame
compose_merged generation eye_id expression_id lip_id sources =
    let start = record empty_merged {
      generation = generation;
      eye_source_id = eye_id;
      expression_source_id = expression_id;
      lip_source_id = lip_id;
    } in
    let eye = if is_empty eye_id then start else with_eye (lookup eye_id sources) start in
    let expression =
      if is_empty expression_id then eye else with_expression (lookup expression_id sources) eye in
    if is_empty lip_id then expression else with_lip (lookup lip_id sources) expression
