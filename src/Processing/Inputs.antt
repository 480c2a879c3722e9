-- ===== src/Processing/Inputs.antt =====
-- internal/tracking/frame.go and internal/processing/validation.go: the frame that is made of checked
-- sources is a valid input.
use vrcft_go.Floats.{rank32, is_nan32, eq32}
use vrcft_go.Base.{
  ℕ, ◌<◌, ◌≡◌, refl, sym, ap, subst, ◌∙◌, Bool, true, false, not, [], Option, none, some, Bytes,
  is_empty, lookup, bit_or, has_bits, and_not, ℤ, pos, ◌≤ℤ◌, ◌<ℤ◌, ok, arith,
}
use vrcft_go.TrackingModel.Expressions.{
  values_eq, ExpressionSet, no_expressions, empty_expressions, expressions_eq, mask_normalize,
  mask_eq,
}
use vrcft_go.TrackingModel.Frame.{
  vec2_eq, TrackingFrame, EyeSample, capability_eye, capability_expression, capability_lip,
  known_capabilities, known_eye_valid, empty_eye, eye_eq, validate, validate_finite_eye,
  validate_values,
}
use vrcft_go.TrackingModel.Canonical.{validate_inv, empty_eye_finite, empty_values}
use vrcft_go.PluginApi.Accepted.{validate_from}
use vrcft_go.Tracking.Routing.{SourceState, Sources}
use vrcft_go.Tracking.Merged.{MergedFrame, compose_merged}
use vrcft_go.Processing.Validation.{
  validate_group, validate_payload, model_frame, as_input_error, validate_merged_input,
}

-- What a group takes of its source.
abbrev pub capability_of : ℕ → Option SourceState → ℕ
capability_of c none = 0
capability_of c (some s) = c

abbrev pub eye_of : Option SourceState → EyeSample
eye_of none = empty_eye
eye_of (some s) = s.frame.eye

abbrev pub expressions_of : Option SourceState → ExpressionSet
expressions_of none = empty_expressions
expressions_of (some s) = s.frame.expressions

abbrev pub time_of : Option SourceState → ℤ
time_of none = pos 0
time_of (some s) = s.received_at_ns

-- The source that a name selects.
abbrev pub Names : Sources → Bytes → Option SourceState → Type 0
Names m id none = id ≡ []
Names m id (some s) = (lookup id m ≡ some s) × (is_empty id ≡ false)

-- A source that a service of that host time may hold.
abbrev pub Held : ℤ → Option SourceState → Type 0
Held time none = Unit {0}
Held time (some s) =
    (validate s.frame ≡ ok tt) × (pos 0 <ℤ s.received_at_ns) × (s.received_at_ns ≤ℤ time)

abbrev pub capabilities_of : Option SourceState → Option SourceState → Option SourceState → ℕ
capabilities_of a b c =
    bit_or (bit_or (capability_of capability_eye a) (capability_of capability_expression b))
      (capability_of capability_lip c)

abbrev pub merged_from :
    ℕ
    → Bytes
    → Bytes
    → Bytes
    → Option SourceState
    → Option SourceState
    → Option SourceState
    → MergedFrame
merged_from g e x l a b c = record {
  generation = g;
  sequence = 0;
  updated_at_ns = pos 0;
  capabilities = capabilities_of a b c;
  eye = eye_of a;
  expressions = expressions_of b;
  eye_source_id = e;
  expression_source_id = x;
  lip_source_id = l;
  eye_updated_at_ns = time_of a;
  expression_updated_at_ns = time_of b;
  lip_updated_at_ns = time_of c;
}

pub compose_merged-from :
    (g : ℕ) (e x l : Bytes) (m : Sources) (a b c : Option SourceState)
    → Names m e a
    → Names m x b
    → Names m l c
    → compose_merged g e x l m ≡ merged_from g e x l a b c
unfolding compose_merged
compose_merged-from g e x l m none none none p q r = rw (p, q, r) refl
compose_merged-from g e x l m none none (some t) p q (r, r') = rw (p, q, r', r) refl
compose_merged-from g e x l m none (some t) none p (q, q') r = rw (p, q', q, r) refl
compose_merged-from g e x l m none (some t) (some u) p (q, q') (r, r') = rw (p, q', q, r', r) refl
compose_merged-from g e x l m (some s) none none (p, p') q r = rw (p', p, q, r) refl
compose_merged-from g e x l m (some s) none (some u) (p, p') q (r, r') = rw (p', p, q, r', r) refl
compose_merged-from g e x l m (some s) (some t) none (p, p') (q, q') r = rw (p', p, q', q, r) refl
compose_merged-from g e x l m (some s) (some t) (some u) (p, p') (q, q') (r, r') =
    rw (p', p, q', q, r', r) refl

abbrev present : Option SourceState → Bool
present none = false
present (some s) = true

-- The capabilities name the groups that have a source.
capabilities-has :
    (a b c : Option SourceState)
    → (has_bits (capabilities_of a b c) capability_eye ≡ present a)
      × (has_bits (capabilities_of a b c) capability_expression ≡ present b)
      × (has_bits (capabilities_of a b c) capability_lip ≡ present c)
      × (and_not (capabilities_of a b c) known_capabilities ≡ 0)
unfolding and_not
capabilities-has none none none = (refl, refl, refl, refl)
capabilities-has none none (some u) = (refl, refl, refl, refl)
capabilities-has none (some t) none = (refl, refl, refl, refl)
capabilities-has none (some t) (some u) = (refl, refl, refl, refl)
capabilities-has (some s) none none = (refl, refl, refl, refl)
capabilities-has (some s) none (some u) = (refl, refl, refl, refl)
capabilities-has (some s) (some t) none = (refl, refl, refl, refl)
capabilities-has (some s) (some t) (some u) = (refl, refl, refl, refl)

-- A group passes its check, whether it has a source or not.
validate_group-Held :
    (m : Sources) (id : Bytes) (time now : ℤ) (o : Option SourceState) (data_left : Bool)
    → Names m id o
    → Held time o
    → time ≤ℤ now
    → (present o ≡ false → data_left ≡ false)
    → validate_group (present o) id (time_of o) now data_left ≡ ok tt
unfolding validate_group
validate_group-Held m id time now none left p h k e = rw (p, e refl) refl
validate_group-Held m id time now (some s) left (_, named) (_, after, before) k e = ground arith

no_eye_left :
    (o : Option SourceState) → present o ≡ false → not (eye_eq (eye_of o) empty_eye) ≡ false
unfolding eye_eq vec2_eq eq32 is_nan32 rank32
no_eye_left none e = refl
no_eye_left (some s) e = ground arith

no_expression_left :
    (o : Option SourceState)
    → present o ≡ false
    → not (expressions_eq (expressions_of o) empty_expressions) ≡ false
unfolding expressions_eq values_eq eq32 is_nan32 rank32 mask_eq
no_expression_left none e = refl
no_expression_left (some s) e = ground arith

frame_known :
    (f : TrackingFrame)
    → validate f ≡ ok tt
    → (and_not f.eye.valid known_eye_valid ≡ 0)
      × (mask_normalize f.expressions.valid ≡ f.expressions.valid)
unfolding validate mask_eq mask_normalize
frame_known f h = (ground arith, ground arith)

eye_of-Held :
    (time : ℤ) (o : Option SourceState)
    → Held time o
    → (and_not (eye_of o).valid known_eye_valid ≡ 0)
      × (validate_finite_eye (eye_of o) ≡ ok tt)
      × (present o ≡ false → (eye_of o).valid ≡ 0)
unfolding and_not
eye_of-Held time none h = (refl, empty_eye_finite, λ e. refl)
eye_of-Held time (some s) (v, _, _) =
    ((frame_known s.frame v).0, (validate_inv s.frame v).0, λ e. ground arith)

expressions_of-Held :
    (time : ℤ) (o : Option SourceState)
    → Held time o
    → (mask_normalize (expressions_of o).valid ≡ (expressions_of o).valid)
      × (validate_values (expressions_of o).valid 0 (expressions_of o).values ≡ ok tt)
      × (present o ≡ false → (expressions_of o).valid ≡ no_expressions)
unfolding mask_normalize
expressions_of-Held time none h = (refl, empty_values, λ e. refl)
expressions_of-Held time (some s) (v, _, _) =
    ((frame_known s.frame v).1, (validate_inv s.frame v).1, λ e. ground arith)

validate_payload-Held :
    (g : ℕ) (e x l : Bytes) (n : ℕ) (at : ℤ) (time : ℤ) (a b c : Option SourceState)
    → Held time a
    → Held time b
    → validate_payload (record (merged_from g e x l a b c) { sequence = n; updated_at_ns = at })
      ≡ ok tt
unfolding validate_payload
validate_payload-Held g e x l n at time a b c ha hb =
    let (one, two, four, known) = capabilities-has a b c in
    let (eye_known, eye_finite, eye_off) = eye_of-Held time a ha in
    let (normal, finite, off) = expressions_of-Held time b hb in
    ap as_input_error (
      validate_from (model_frame (merged_from g e x l a b c)) known eye_known normal
        (λ h. eye_off (sym one ∙ h)) (λ h. off (sym two ∙ h)) eye_finite finite)

-- The checks in their order.
valid_input :
    (m : MergedFrame) (now : ℤ)
    → 0 < m.generation
    → 0 < m.sequence
    → pos 0 ≤ℤ m.updated_at_ns
    → m.updated_at_ns ≤ℤ now
    → and_not m.capabilities known_capabilities ≡ 0
    → validate_group
        (has_bits m.capabilities capability_eye)
        m.eye_source_id
        m.eye_updated_at_ns
        now
        (not (eye_eq m.eye empty_eye))
      ≡ ok tt
    → validate_group
        (has_bits m.capabilities capability_expression)
        m.expression_source_id
        m.expression_updated_at_ns
        now
        (not (expressions_eq m.expressions empty_expressions))
      ≡ ok tt
    → validate_group
        (has_bits m.capabilities capability_lip)
        m.lip_source_id
        m.lip_updated_at_ns
        now
        false
      ≡ ok tt
    → validate_payload m ≡ ok tt
    → validate_merged_input m now ≡ ok tt
unfolding validate_merged_input
valid_input m now g n u v k e x l p = ground arith

pub merged_from-valid :
    (m : Sources) (g n : ℕ) (e x l : Bytes) (at time now : ℤ) (a b c : Option SourceState)
    → 0 < g
    → 0 < n
    → pos 0 ≤ℤ at
    → at ≤ℤ now
    → time ≤ℤ now
    → Names m e a
    → Names m x b
    → Names m l c
    → Held time a
    → Held time b
    → Held time c
    → validate_merged_input
        (record (merged_from g e x l a b c) { sequence = n; updated_at_ns = at })
        now
      ≡ ok tt
merged_from-valid m g n e x l at time now a b c hg hn hu hv ht na nb nc ha hb hc =
    let (one, two, four, known) = capabilities-has a b c in
    valid_input (record (merged_from g e x l a b c) { sequence = n; updated_at_ns = at }) now hg hn
      hu hv known
      (subst (λ p. validate_group p e (time_of a) now (not (eye_eq (eye_of a) empty_eye)) ≡ ok tt)
        (sym one) (validate_group-Held m e time now a _ na ha ht (no_eye_left a)))
      (subst
        (λ p.
          validate_group p x (time_of b) now
            (not (expressions_eq (expressions_of b) empty_expressions))
          ≡ ok tt)
        (sym two) (validate_group-Held m x time now b _ nb hb ht (no_expression_left b)))
      (subst (λ p. validate_group p l (time_of c) now false ≡ ok tt) (sym four)
        (validate_group-Held m l time now c false nc hc ht (λ _. refl)))
      (validate_payload-Held g e x l n at time a b c ha hb)
