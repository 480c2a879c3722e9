-- ===== src/Tracking/Order.antt =====
-- The generation, the host time and the number of the merged frame never fall.
use vrcft_go.Base.{
  ℕ, ◌≤◌, Bool, true, false, not, ◌&&◌, ◌==◌, ltb, ◌≡◌, ◌⊎◌, refl, ap, arith, inl, inr, Bool-cases,
  Option-cases, Result-cases, Bytes, is_empty, lookup, ℤ, pos, ◌≤ℤ◌, ◌<ℤ◌, max_int64,
}
use vrcft_go.TrackingModel.Frame.{TrackingFrame}
use vrcft_go.Tracking.Routing.{RoutingConfig, validate_routing, routing_eq}
use vrcft_go.Tracking.Merged.{MergedFrame, merged_content_equal}
use vrcft_go.Tracking.Service.{
  Service, reselect, merged_of, same_selection, install_merged, recompute_merged, publish_if,
  publish_merged, publish_summary, advance_sequence, set_generation, set_routing, remove_source,
}
use vrcft_go.Tracking.Submit.{
  Call, submits, sets_generation, sets_routing, removes_source, subscribes_merged,
  subscribes_summary, cancels_merged, cancels_summary, step, submit, accept, store_source,
  check_submit, is_selected, reject, subscribe_merged, subscribe_summary, cancel_merged,
  cancel_summary,
}
use vrcft_go.Tracking.Invariant.{Inv}
use vrcft_go.Tracking.Invariant.Clock.{next_time_bounds, next_receipt_time_bounds}
use vrcft_go.Tracking.Invariant.Sources.{check_submit_inv, room_left}
use vrcft_go.Tracking.Invariant.Calls.{IsCall}

-- The latest frame stays under its number, or a new one has the next number.
abbrev pub Advances : Service → Service → Type 0
Advances s t =
    (s.generation ≤ t.generation)
    × (s.last_host_time_ns ≤ℤ t.last_host_time_ns)
    × (((t.merged_sequence ≡ s.merged_sequence) × (t.latest_merged ≡ s.latest_merged))
        ⊎ ((t.merged_sequence ≡ advance_sequence s.merged_sequence)
            × (t.latest_merged.sequence ≡ t.merged_sequence)))

install_merged-Advances :
    (s t : Service) (next : MergedFrame) (now : ℤ)
    → now ≤ℤ pos max_int64
    → s.last_host_time_ns ≤ℤ t.last_host_time_ns
    → t.last_host_time_ns ≤ℤ pos max_int64
    → t.merged_sequence ≡ s.merged_sequence
    → s.generation ≤ t.generation
    → Advances s (install_merged t next now)
unfolding install_merged
install_merged-Advances s t next now h p k e g =
    let (later, _) = next_time_bounds t.last_host_time_ns now h k in
    (g, omega arith, inr (ap advance_sequence e, refl))

recompute_merged-Advances :
    (force : Bool) (s t : Service) (now : ℤ)
    → now ≤ℤ pos max_int64
    → s.last_host_time_ns ≤ℤ t.last_host_time_ns
    → t.last_host_time_ns ≤ℤ pos max_int64
    → t.merged_sequence ≡ s.merged_sequence
    → s.generation ≤ t.generation
    → t.latest_merged ≡ s.latest_merged
    → Advances s (publish_if (recompute_merged force t now))
unfolding recompute_merged publish_if publish_merged reselect
recompute_merged-Advances force s t now h p k e g l =
    elim (Bool-cases (
      not force
      && same_selection (reselect t) t
      && t.has_latest
      && merged_content_equal (merged_of (reselect t)) t.latest_merged)) [
        | inl stays ↦ rw stays (g, p, inl (e, l))
        | inr moves ↦
            rw moves (install_merged-Advances s (reselect t) (merged_of (reselect t)) now h p k e g)
      ]

-- Publishing and the statistics are no part of it.
Advances-observers :
    (s t : Service)
    → Advances s t
    → (n : ℕ) → Advances s (publish_summary (record t { accepted_frames = n }))
unfolding publish_summary
Advances-observers s t a n = a

Advances-published : (s t : Service) → Advances s t → Advances s (publish_summary t)
unfolding publish_summary
Advances-published s t a = a

Advances-refl : (s : Service) → Advances s s
Advances-refl s = (omega arith, omega arith, inl (refl, refl))

accept-Advances :
    (s : Service) (id : Bytes) (c : TrackingFrame) (now later : ℤ)
    → now ≤ℤ pos max_int64
    → later ≤ℤ pos max_int64
    → s.last_host_time_ns <ℤ pos max_int64
    → Inv s
    → Advances s (accept s id c now later)
unfolding accept store_source
accept-Advances s id c now later h k room v =
    let (past, bound) =
      next_receipt_time_bounds s.last_host_time_ns now h v.kept.time_nonneg room in
    Advances-observers s
      (publish_if (recompute_merged (is_selected s id) (store_source s id c now) later))
      (recompute_merged-Advances (is_selected s id) s (store_source s id c now) later k
        (omega arith) bound refl (omega arith) refl)
      _

submit-Advances :
    (s : Service) (id : Bytes) (g : ℕ) (f : TrackingFrame) (now later : ℤ)
    → now ≤ℤ pos max_int64
    → later ≤ℤ pos max_int64
    → Inv s
    → Advances s (submit s id g f now later).0
unfolding submit
submit-Advances s id g f now later h k v = elim (Result-cases (check_submit s id g f)) [
  | inr (r, refused) ↦ rw (refused, submit) (unfold reject in Advances-refl s)
  | inl (c, passed) ↦
      rw (passed, submit)
        (accept-Advances s id c now later h k
          (room_left s (lookup id s.sources) c v.kept.time_int64
            (check_submit_inv s id g f c passed).source)
          v)
]

set_generation-Advances :
    (s : Service) (g : ℕ) (now : ℤ)
    → now ≤ℤ pos max_int64
    → Inv s
    → Advances s (set_generation s g now).0
unfolding set_generation
set_generation-Advances s g now h v = elim (Bool-cases (g == 0)) [
  | inl zero_given ↦ rw zero_given (Advances-refl s)
  | inr positive ↦ elim (Bool-cases (ltb g s.generation)) [
    | inl older ↦ rw (positive, older) (Advances-refl s)
    | inr newer ↦ elim (Bool-cases (g == s.generation)) [
      | inl same ↦ rw (positive, newer, same) (Advances-refl s)
      | inr other ↦
          rw (positive, newer, other)
            (Advances-published s _ (
              unfold publish_merged in
              install_merged-Advances s _ _ now h (omega arith) v.kept.time_int64 refl
                (ground arith)))
    ]
  ]
]

set_routing-Advances :
    (s : Service) (config : RoutingConfig) (now : ℤ)
    → now ≤ℤ pos max_int64
    → Inv s
    → Advances s (set_routing s config now).0
unfolding set_routing
set_routing-Advances s config now h v = elim (Result-cases (validate_routing config)) [
  | inr (e, bad) ↦ rw (bad, set_routing) (Advances-refl s)
  | inl (_, good) ↦
      rw (good, set_routing)
        (elim (Bool-cases (routing_eq config s.routing)) [
          | inl same ↦ rw same (Advances-refl s)
          | inr other ↦ elim (Bool-cases (s.generation == 0)) [
            | inl none_yet ↦
                rw (other, none_yet)
                  (Advances-published s _ (omega arith, omega arith, inl (refl, refl)))
            | inr some_yet ↦
                rw (other, some_yet)
                  (Advances-published s _ (
                    recompute_merged-Advances true s _ now h (omega arith) v.kept.time_int64 refl
                      (omega arith) refl))
          ]
        ])
]

remove_source-Advances :
    (s : Service) (id : Bytes) (now : ℤ)
    → now ≤ℤ pos max_int64
    → Inv s
    → Advances s (remove_source s id now)
unfolding remove_source
remove_source-Advances s id now h v = elim (Bool-cases (is_empty id)) [
  | inl nameless ↦ rw nameless (Advances-refl s)
  | inr named ↦ rw named (elim (Option-cases (lookup id s.sources)) [
    | inl missing ↦ rw (missing, remove_source) (Advances-refl s)
    | inr (old, found) ↦
        rw (found, remove_source)
          (Advances-published s _ (
            recompute_merged-Advances false s _ now h (omega arith) v.kept.time_int64 refl
              (omega arith) refl))
  ])
]

-- A call on a state of the invariant lowers neither the generation nor the host time, and the latest
-- frame stays under its number or a new one takes the next number, which stops at 2 ^ 64 - 1.
pub step-Advances : (s : Service) (c : Call) → IsCall c → Inv s → Advances s (step s c)
unfolding step
step-Advances s (submits id g f now later) (h, k) v = submit-Advances s id g f now later h k v
step-Advances s (sets_generation g now) h v = set_generation-Advances s g now h v
step-Advances s (sets_routing config now) h v = set_routing-Advances s config now h v
step-Advances s (removes_source id now) h v = remove_source-Advances s id now h v
step-Advances s (subscribes_merged id true) h v = unfold subscribe_merged in Advances-refl s
step-Advances s (subscribes_merged id false) h v = unfold subscribe_merged in Advances-refl s
step-Advances s (subscribes_summary id true) h v = unfold subscribe_summary in Advances-refl s
step-Advances s (subscribes_summary id false) h v = unfold subscribe_summary in Advances-refl s
step-Advances s (cancels_merged id) h v = unfold cancel_merged in Advances-refl s
step-Advances s (cancels_summary id) h v = unfold cancel_summary in Advances-refl s
