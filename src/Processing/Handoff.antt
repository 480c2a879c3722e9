-- ===== src/Processing/Handoff.antt =====
-- internal/tracking and internal/processing: the service's merged frame is a valid input of the pipeline.
use vrcft_go.Base.{
  ℕ, ◌≡◌, refl, sym, ap, subst, ◌∙◌, inl, inr, true, false, Bool-cases, true_not_false,
  Option-cases, [], ◌∷◌, Option, none, some, Bytes, is_empty, lookup, Entries-lookup, ℤ, ◌≤ℤ◌, ok,
  arith,
}
use vrcft_go.TrackingModel.Frame.{capability_eye, capability_expression, capability_lip}
use vrcft_go.Tracking.Routing.{SourceState, SourceSelection, offers, found_capable, resolve_source}
use vrcft_go.Tracking.Routing.Choice.{resolve_source-offers}
use vrcft_go.Tracking.Merged.{MergedFrame}
use vrcft_go.Tracking.Service.{Service, merged_of}
use vrcft_go.Tracking.Invariant.{Inv, IsReceived}
use vrcft_go.Tracking.Invariant.Calls.{Reachable, Reachable-Inv}
use vrcft_go.Processing.Validation.{validate_merged_input}
use vrcft_go.Processing.Inputs.{Names, Held, compose_merged-from, merged_from-valid}

is_empty_nil : (id : Bytes) → is_empty id ≡ true → id ≡ []
is_empty_nil [] h = refl
is_empty_nil (c ∷ id) h = absurd (cc)

named_not_nil : (id : Bytes) → is_empty id ≡ false → id ≡ [] → ⊥
named_not_nil id named e = true_not_false (sym (ap is_empty e) ∙ named)

no_offer : (c : ℕ) (o : Option SourceState) → o ≡ none → found_capable c o ≡ true → ⊥
no_offer c o e h = true_not_false (sym h ∙ ap (found_capable c) e)

-- What a service of the invariant selects for a group, it holds.
selected :
    (s : Service)
    → Inv s
    → (selection : SourceSelection) (id : Bytes) (c : ℕ)
    → resolve_source selection id s.sources c ≡ id
    → (o : Option SourceState) × Names s.sources id o × Held s.last_host_time_ns o
selected s v selection id c settled = elim (Bool-cases (is_empty id)) [
  | inl e ↦ (none, is_empty_nil id e, tt)
  | inr named ↦ elim (resolve_source-offers selection id s.sources c v.kept.names) [
    | inl e ↦ absurd (named_not_nil id named (sym settled ∙ e))
    | inr offer ↦ elim (Option-cases (lookup id s.sources)) [
      | inl none_there ↦ absurd (
          no_offer c (lookup id s.sources) none_there
            (subst (λ x. offers c s.sources x ≡ true) settled offer))
      | inr (source, found) ↦ (
        some source,
        (found, named),
        Entries-lookup (IsReceived s.last_host_time_ns) id source s.sources v.kept.received found,
      )
    ]
  ]
]

-- In every state that a service comes to, its latest merged frame is a valid input of the pipeline at any
-- time that is not before the service's host time.
pub latest_merged-valid :
    (s : Service) (now : ℤ)
    → Reachable s
    → s.has_latest ≡ true
    → s.last_host_time_ns ≤ℤ now
    → validate_merged_input s.latest_merged now ≡ ok tt
unfolding merged_of
latest_merged-valid s now reachable has later =
    let v = Reachable-Inv reachable in
    let (a, na, ha) = selected s v s.routing.eye s.eye_source_id capability_eye v.settled.eye in
    let (b, nb, hb) =
      selected s v s.routing.expression s.expression_source_id capability_expression
        v.settled.expression in
    let (c, nc, hc) = selected s v s.routing.lip s.lip_source_id capability_lip v.settled.lip in
    let (same, nonneg, before) = v.current has in
    subst (λ f. validate_merged_input f now ≡ ok tt)
      (sym (
        same
        ∙ ap
            (λ (f : MergedFrame). record f {
              sequence = s.merged_sequence;
              updated_at_ns = s.latest_merged.updated_at_ns;
            })
            (compose_merged-from s.generation s.eye_source_id s.expression_source_id s.lip_source_id
              s.sources a b c na nb nc)))
      (merged_from-valid s.sources s.generation s.merged_sequence s.eye_source_id
        s.expression_source_id s.lip_source_id s.latest_merged.updated_at_ns s.last_host_time_ns now
        a b c (v.kept.latest_generation has) (v.kept.latest_numbered has) nonneg (omega arith) later
        na nb nc ha hb hc)
