-- ===== src/Scenarios/Services.antt =====
-- The theorems on the tracking service at a service that has taken one frame.
use vrcft_go.Floats.{finite32}
use vrcft_go.TrackingModel.Expressions.{mask_has, mask_normalize, mask_eq}
use vrcft_go.Base.{
  and_not, if◌then◌else◌, ◌≡◌, ◌≢◌, ◌↔◌, ◌⊎◌, refl, sym, ◌∙◌, arith, Bool, true, false, [], ◌∷◌,
  Bytes, Option, none, some, lookup, str_eq, pos, ok, eqb_ℤ,
}
use vrcft_go.TrackingModel.Frame.{
  validate_values, check_eye_rows, validate_finite_eye, TrackingFrame, canonicalize, canonical_eye,
  canonical_expressions,
}
use vrcft_go.Tracking.Routing.{
  SourceState, auto_selection, offers, choose_auto_source, resolve_source,
}
use vrcft_go.Tracking.Routing.Choice.{
  IsMap, AtMost, choose_auto_source-least, resolve_source_order, resolve_source-offers,
}
use vrcft_go.Tracking.Rejections.{saturating_add, TrackingError}
use vrcft_go.Tracking.Service.{Service, new_service, next_receipt_time}
use vrcft_go.Tracking.Submit.{
  submits, sets_generation, removes_source, step, submit, last_timestamp, last_source_clock,
  check_submit, check_generation, checked_frame, check_source, reject,
}
use vrcft_go.Tracking.Invariant.{Inv}
use vrcft_go.Tracking.Invariant.Calls.{Reachable, start, call, Reachable-Inv}
use vrcft_go.Tracking.Order.{Advances, step-Advances}
use vrcft_go.Tracking.Refusals.{IsWelcome, submit_accepts_iff, submit_refused}
use vrcft_go.Tracking.Acceptance.{submit_stores}
use vrcft_go.Scenarios.Data.{name_a, name_b, full_frame, source_of, two_sources, two_sources_turned}

abbrev pub opened : Service
opened = step new_service (sets_generation 1 (pos 10))

abbrev pub fed : Service
fed = step opened (submits name_a 1 full_frame (pos 20) (pos 21))

pub opened-Reachable : Reachable opened
opened-Reachable = call (sets_generation 1 (pos 10)) (omega arith) start

pub fed-Reachable : Reachable fed
fed-Reachable =
    call (submits name_a 1 full_frame (pos 20) (pos 21)) (omega arith, omega arith) opened-Reachable

-- Sequence 1 of plugin a has been taken.
abbrev waiting : Service
waiting = record new_service {
  generation = 1;
  sources = (name_a, source_of full_frame) ∷ [];
  expression_source_id = name_a;
  last_host_time_ns = pos 20;
  accepted_frames = 1;
}

-- The same frame is not taken twice.
again_refused :
    (submit waiting name_a 1 full_frame (pos 30) (pos 31)).1
    ≡ some TrackingError.sequence_not_increasing
unfolding submit check_submit check_generation checked_frame check_source reject canonicalize
    vrcft_go.TrackingModel.Frame.validate and_not mask_eq mask_normalize validate_finite_eye
    check_eye_rows finite32 validate_values mask_has lookup str_eq
again_refused = refl

some_ne_none : {e : TrackingError} → ◌≡◌ {A = Option TrackingError} (some e) none → ⊥
some_ne_none h = cc

taken_again : (submit waiting name_a 1 full_frame (pos 30) (pos 31)).1 ≢ none
taken_again h = some_ne_none (sym again_refused ∙ h)

taken_of_b : (submit waiting name_b 1 full_frame (pos 30) (pos 31)).1 ≡ none
unfolding submit check_submit check_generation checked_frame check_source canonicalize
    vrcft_go.TrackingModel.Frame.validate and_not mask_eq mask_normalize validate_finite_eye
    check_eye_rows finite32 validate_values mask_has lookup str_eq
taken_of_b = refl

Reachable-Inv_example : Inv fed
Reachable-Inv_example = Reachable-Inv fed-Reachable

step-Advances_example : Advances fed (step fed (removes_source name_a (pos 15)))
step-Advances_example =
    step-Advances fed (removes_source name_a (pos 15)) (omega arith) (Reachable-Inv fed-Reachable)

submit_accepts_iff_example :
    ((submit waiting name_b 1 full_frame (pos 30) (pos 31)).1 ≡ none)
    ↔ ((c : TrackingFrame) × (canonicalize full_frame ≡ ok c) × IsWelcome waiting name_b 1 c)
submit_accepts_iff_example = submit_accepts_iff waiting name_b 1 full_frame (pos 30) (pos 31)

submit_refused_example :
    let t = (submit waiting name_a 1 full_frame (pos 30) (pos 31)).0 in
    (t ≡ record waiting {
      rejected_frames = saturating_add waiting.rejected_frames 1;
      rejected = t.rejected;
      last_rejection = t.last_rejection;
      summary_subscribers = t.summary_subscribers;
    })
    × (t.last_rejection.plugin_id ≡ name_a)
    × (t.last_rejection.generation ≡ 1)
submit_refused_example = submit_refused waiting name_a 1 full_frame (pos 30) (pos 31) taken_again

b_is_not_a : str_eq name_b name_a ≡ false
unfolding str_eq
b_is_not_a = refl

submit_stores_example :
    let t = (submit waiting name_b 1 full_frame (pos 30) (pos 31)).0 in
    (q : SourceState) × (lookup name_b t.sources ≡ some q)
    × (canonicalize full_frame ≡ ok q.frame)
    × (q.received_at_ns ≡ next_receipt_time waiting.last_host_time_ns (pos 30))
    × (q.last_sequence ≡ full_frame.sequence)
    × (q.last_timestamp_ns ≡ (
        if eqb_ℤ full_frame.timestamp_ns (pos 0)
        then last_timestamp (lookup name_b waiting.sources)
        else full_frame.timestamp_ns))
    × (q.last_source_clock_ns ≡ (
        if eqb_ℤ full_frame.source_clock_ns (pos 0)
        then last_source_clock (lookup name_b waiting.sources)
        else full_frame.source_clock_ns))
    × (lookup name_a t.sources ≡ lookup name_a waiting.sources)
    × (t.accepted_frames ≡ saturating_add waiting.accepted_frames 1)
    × (t.rejected_frames ≡ waiting.rejected_frames)
submit_stores_example =
    submit_stores waiting name_b 1 full_frame (pos 30) (pos 31) name_a taken_of_b b_is_not_a

two_sources-IsMap : IsMap two_sources
unfolding lookup str_eq
two_sources-IsMap = (refl, refl, (refl, refl, tt))

two_sources_turned-IsMap : IsMap two_sources_turned
unfolding lookup str_eq
two_sources_turned-IsMap = (refl, refl, (refl, refl, tt))

swapped :
    (x y : Bool) (s t : Option SourceState)
    → (if x then s else (if y then s else t)) ≡ (if y then s else (if x then s else t))
swapped true true s t = refl
swapped true false s t = refl
swapped false true s t = refl
swapped false false s t = refl

two_sources_same : (id : Bytes) → lookup id two_sources ≡ lookup id two_sources_turned
unfolding lookup
two_sources_same id =
    swapped (str_eq name_b id) (str_eq name_a id) (some (source_of full_frame)) none

choose_auto_source-least_example :
    (offers 1 two_sources (choose_auto_source [] two_sources 1) ≡ true)
    × AtMost (choose_auto_source [] two_sources 1) name_b
unfolding lookup str_eq
choose_auto_source-least_example =
    choose_auto_source-least 1 two_sources [] name_b two_sources-IsMap refl refl

resolve_source_order_example :
    resolve_source auto_selection [] two_sources 1
    ≡ resolve_source auto_selection [] two_sources_turned 1
resolve_source_order_example =
    resolve_source_order auto_selection [] two_sources two_sources_turned 1 two_sources-IsMap
      two_sources_turned-IsMap two_sources_same

resolve_source-offers_example :
    (resolve_source auto_selection [] two_sources 1 ≡ [])
    ⊎ (offers 1 two_sources (resolve_source auto_selection [] two_sources 1) ≡ true)
resolve_source-offers_example =
    resolve_source-offers auto_selection [] two_sources 1 two_sources-IsMap
