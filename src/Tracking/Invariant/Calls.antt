-- ===== src/Tracking/Invariant/Calls.antt =====
-- Every call of the tracking service keeps its invariant.
use vrcft_go.Base.{
  ℕ, true, false, refl, arith, inl, inr, Result-cases, Bytes, ℤ, pos, ◌≤ℤ◌, max_int64,
}
use vrcft_go.TrackingModel.Frame.{
  TrackingFrame, capability_eye, capability_expression, capability_lip,
}
use vrcft_go.Tracking.Routing.{auto_selection}
use vrcft_go.Tracking.Service.{Service, new_service}
use vrcft_go.Tracking.Submit.{
  Call, submits, sets_generation, sets_routing, removes_source, subscribes_merged,
  subscribes_summary, cancels_merged, cancels_summary, step, submit, check_submit, reject,
  subscribe_merged, subscribe_summary, cancel_merged, cancel_summary, Refusal,
}
use vrcft_go.Tracking.Invariant.{Inv}
use vrcft_go.Tracking.Invariant.Maps.{resolve_source_empty}
use vrcft_go.Tracking.Invariant.Control.{set_generation-Inv, set_routing-Inv}
use vrcft_go.Tracking.Invariant.Sources.{check_submit_inv, accept-Inv, remove_source-Inv}
use vrcft_go.Tracking.Invariant.Recompute.{observers-Inv, publish_summary-Inv}

-- Clock readings are int64.
abbrev pub IsCall : Call → Type 0
IsCall (submits id generation f now later) = (now ≤ℤ pos max_int64) × (later ≤ℤ pos max_int64)
IsCall (sets_generation generation now) = now ≤ℤ pos max_int64
IsCall (sets_routing config now) = now ≤ℤ pos max_int64
IsCall (removes_source id now) = now ≤ℤ pos max_int64
IsCall _ = Unit {0}

pub new_service-Inv : Inv new_service
new_service-Inv = record {
  kept = record {
    names = tt;
    received = tt;
    time_nonneg = omega arith;
    time_int64 = omega arith;
    sequence_uint64 = omega arith;
    latest_numbered = λ e. cc;
    latest_generation = λ e. cc;
  };
  current = λ e. cc;
  settled = record {
    eye = resolve_source_empty auto_selection capability_eye;
    expression = resolve_source_empty auto_selection capability_expression;
    lip = resolve_source_empty auto_selection capability_lip;
  };
  unset = λ _. (refl, refl, refl, refl, refl);
  started = λ h. absurd (omega arith);
}

reject-Inv : (s : Service) (id : Bytes) (g : ℕ) (r : Refusal) → Inv s → Inv (reject s id g r).0
unfolding reject
reject-Inv s id g r v = publish_summary-Inv _ (observers-Inv s _ _ _ _ _ _ v)

submit-Inv :
    (s : Service) (id : Bytes) (g : ℕ) (f : TrackingFrame) (now later : ℤ)
    → now ≤ℤ pos max_int64
    → later ≤ℤ pos max_int64
    → Inv s
    → Inv (submit s id g f now later).0
unfolding submit
submit-Inv s id g f now later h k v = elim (Result-cases (check_submit s id g f)) [
  | inr (r, refused) ↦ rw (refused, submit) (reject-Inv s id g r v)
  | inl (c, passed) ↦
      rw (passed, submit)
        (accept-Inv s id g f c now later h k (check_submit_inv s id g f c passed) v)
]

-- Each call of the service, with any outcome, keeps the invariant.
pub step-Inv : (s : Service) (c : Call) → IsCall c → Inv s → Inv (step s c)
unfolding step
step-Inv s (submits id g f now later) (h, k) v = submit-Inv s id g f now later h k v
step-Inv s (sets_generation g now) h v = set_generation-Inv s g now h v
step-Inv s (sets_routing config now) h v = set_routing-Inv s config now h v
step-Inv s (removes_source id now) h v = remove_source-Inv s id now h v
step-Inv s (subscribes_merged id true) h v = unfold subscribe_merged in v
step-Inv s (subscribes_merged id false) h v =
    unfold subscribe_merged in observers-Inv s _ s.summary_subscribers _ _ _ _ v
step-Inv s (subscribes_summary id true) h v = unfold subscribe_summary in v
step-Inv s (subscribes_summary id false) h v =
    unfold subscribe_summary in observers-Inv s s.merged_subscribers _ _ _ _ _ v
step-Inv s (cancels_merged id) h v =
    unfold cancel_merged in observers-Inv s _ s.summary_subscribers _ _ _ _ v
step-Inv s (cancels_summary id) h v =
    unfold cancel_summary in observers-Inv s s.merged_subscribers _ _ _ _ _ v

-- The states that a new service comes to by calls.
pub data Reachable : Service → Type 0 where
  start : Reachable new_service
  call : {s : Service} (c : Call) → IsCall c → Reachable s → Reachable (step s c)

-- In every state that a new service comes to, with clock readings below 2 ^ 63, the invariant holds: the
-- stored sources are checked and not later than the host time, the selection is settled, and the latest
-- frame is what the selected sources hold.
pub Reachable-Inv : {s : Service} → Reachable s → Inv s
Reachable-Inv start = new_service-Inv
Reachable-Inv (call c h r) = step-Inv _ c h (Reachable-Inv r)
