-- ===== src/Tracking/Service.antt =====
-- internal/tracking/service.go, frame.go, routing.go, summary.go and subscription.go: the state of the
-- service behind its mutex, and each method. A clock reading is an argument of the call.
use vrcft_go.Base.{
  ℕ, suc, Bool, true, false, not, ◌&&◌, List, [], ◌∷◌, Option, none, some, Bytes, is_empty, str_eq,
  lookup, erase, length, ltb, ◌==◌, if◌then◌else◌, ℤ, pos, ltb_ℤ, leb_ℤ, ◌+ℤ◌, max_int64,
  max_uint64, ok, err,
}
use vrcft_go.TrackingModel.Frame.{capability_eye, capability_expression, capability_lip}
use vrcft_go.Tracking.Routing.{
  Sources, RoutingConfig, RoutingError, default_routing, validate_routing, routing_eq, offers,
  resolve_source,
}
use vrcft_go.Tracking.Merged.{MergedFrame, empty_merged, merged_content_equal, compose_merged}
use vrcft_go.Tracking.Rejections.{
  RejectionReason, TrackingError, RejectionCounts, Rejection, Summary,
}

-- A subscriber's channel holds one value at most. `offerLatest` replaces what nobody has taken.
abbrev pub Channels {ℓ} : Type ℓ → Type ℓ
Channels A = List (ℕ × Option A)

module _ {ℓ} {A : Type ℓ} where
  try_send : Option A → A → Option A × Bool
  try_send none value = (some value, true)
  try_send (some old) value = (some old, false)

  unfoldable pub offer_latest : Option A → A → Option A
  unfolding try_send
  offer_latest slot value =
      let (once, sent) = try_send slot value in if sent then once else (try_send none value).0

  unfoldable pub offer_all : Channels A → A → Channels A
  unfolding offer_latest
  offer_all [] value = []
  offer_all ((id, slot) ∷ channels) value = (id, offer_latest slot value) ∷ offer_all channels value

  -- The cancelled subscription is taken out; its channel is closed.
  unfoldable pub cancel : ℕ → Channels A → Channels A
  cancel id [] = []
  cancel id ((j, slot) ∷ channels) =
      let rest = cancel id channels in if j == id then rest else (j, slot) ∷ rest

pub record Service : Type 0 where
  pub generation : ℕ
  pub routing : RoutingConfig
  pub sources : Sources
  pub eye_source_id : Bytes
  pub expression_source_id : Bytes
  pub lip_source_id : Bytes
  pub merged_sequence : ℕ
  pub last_host_time_ns : ℤ
  pub latest_merged : MergedFrame
  pub has_latest : Bool
  pub accepted_frames : ℕ
  pub rejected_frames : ℕ
  pub rejected : RejectionCounts
  pub last_rejection : Rejection
  pub merged_subscribers : Channels MergedFrame
  pub summary_subscribers : Channels Summary

abbrev pub no_rejections : RejectionCounts
no_rejections = record {
  generation_unset = 0;
  generation_zero = 0;
  stale_generation = 0;
  future_generation = 0;
  invalid_plugin_id = 0;
  invalid_frame = 0;
  sequence_not_increasing = 0;
  timestamp_regression = 0;
  source_clock_regression = 0;
}

abbrev pub no_rejection : Rejection
no_rejection = record { plugin_id = []; generation = 0; reason = RejectionReason.none_yet }

abbrev pub new_service : Service
new_service = record {
  generation = 0;
  routing = default_routing;
  sources = [];
  eye_source_id = [];
  expression_source_id = [];
  lip_source_id = [];
  merged_sequence = 0;
  last_host_time_ns = pos 0;
  latest_merged = empty_merged;
  has_latest = false;
  accepted_frames = 0;
  rejected_frames = 0;
  rejected = no_rejections;
  last_rejection = no_rejection;
  merged_subscribers = [];
  summary_subscribers = [];
}

unfoldable pub source_has_capability : Service → Bytes → ℕ → Bool
source_has_capability s id capability = not (is_empty id) && offers capability s.sources id

unfoldable pub current_summary : Service → Summary
current_summary s = record {
  generation = s.generation;
  routing = s.routing;
  source_count = length s.sources;
  eye_source_id = s.eye_source_id;
  eye_available = source_has_capability s s.eye_source_id capability_eye;
  expression_source_id = s.expression_source_id;
  expression_available = source_has_capability s s.expression_source_id capability_expression;
  lip_source_id = s.lip_source_id;
  lip_available = source_has_capability s s.lip_source_id capability_lip;
  accepted_frames = s.accepted_frames;
  rejected_frames = s.rejected_frames;
  rejected = s.rejected;
  last_rejection = s.last_rejection;
}

unfoldable pub publish_summary : Service → Service
publish_summary s = record s {
  summary_subscribers = offer_all s.summary_subscribers (current_summary s);
}

unfoldable pub publish_merged : Service → Service
publish_merged s = record s { merged_subscribers = offer_all s.merged_subscribers s.latest_merged }

-- `nextTimeLocked` and `nextReceiptTimeLocked`: the new host time is also the result.
unfoldable pub next_time : ℤ → ℤ → ℤ
next_time last now = if ltb_ℤ now last then last else now

unfoldable pub next_receipt_time : ℤ → ℤ → ℤ
next_receipt_time last now =
    if leb_ℤ now last then (if ltb_ℤ last (pos max_int64) then last +ℤ pos 1 else last) else now

unfoldable pub advance_sequence : ℕ → ℕ
advance_sequence n = if ltb n max_uint64 then suc n else n

-- The selection of `recomputeMergedLocked`, and the frame that goes with it.
unfoldable pub reselect : Service → Service
reselect s = record s {
  eye_source_id = resolve_source s.routing.eye s.eye_source_id s.sources capability_eye;
  expression_source_id =
      resolve_source s.routing.expression s.expression_source_id s.sources capability_expression;
  lip_source_id = resolve_source s.routing.lip s.lip_source_id s.sources capability_lip;
}

unfoldable pub merged_of : Service → MergedFrame
merged_of s =
    compose_merged s.generation s.eye_source_id s.expression_source_id s.lip_source_id s.sources

unfoldable pub same_selection : Service → Service → Bool
same_selection s t =
    str_eq s.eye_source_id t.eye_source_id
    && str_eq s.expression_source_id t.expression_source_id
    && str_eq s.lip_source_id t.lip_source_id

-- The tail of `recomputeMergedLocked`: `next` becomes the latest frame.
unfoldable pub install_merged : Service → MergedFrame → ℤ → Service
unfolding next_time advance_sequence
install_merged s next now =
    let sequence = advance_sequence s.merged_sequence in
    let time = next_time s.last_host_time_ns now in
    record s {
      merged_sequence = sequence;
      last_host_time_ns = time;
      latest_merged = record next { sequence = sequence; updated_at_ns = time };
      has_latest = true;
    }

unfoldable pub recompute_merged : Bool → Service → ℤ → Service × Bool
recompute_merged force s now =
    let t = reselect s in
    let next = merged_of t in
    if not force && same_selection t s && s.has_latest && merged_content_equal next s.latest_merged
    then (t, false)
    else (install_merged t next now, true)

unfoldable pub publish_if : Service × Bool → Service
publish_if (s, changed) = if changed then publish_merged s else s

unfoldable pub set_generation : Service → ℕ → ℤ → Service × Option TrackingError
set_generation s generation now =
    if generation == 0
    then (s, some TrackingError.generation_zero)
    else (if ltb generation s.generation
        then (s, some TrackingError.generation_regression)
        else (if generation == s.generation then (s, none) else (
          let cleared = record s {
            generation = generation;
            sources = [];
            eye_source_id = [];
            expression_source_id = [];
            lip_source_id = [];
          } in
              publish_summary (
                publish_merged
                  (install_merged cleared (record empty_merged { generation = generation }) now)),
          none,
        )))

unfoldable pub set_routing : Service → RoutingConfig → ℤ → Service × Option RoutingError
set_routing s config now = elim (validate_routing config) [
  | err e ↦ (s, some e)
  | ok _ ↦ if routing_eq config s.routing then (s, none) else (
    let t = record s { routing = config } in
        publish_summary (if s.generation == 0 then t else publish_if (recompute_merged true t now)),
    none,
  )
]

unfoldable pub remove_source : Service → Bytes → ℤ → Service
remove_source s id now = if is_empty id then s else elim (lookup id s.sources) [
  | none ↦ s
  | some _ ↦
      let t = record s { sources = erase id s.sources } in
      publish_summary (publish_if (recompute_merged false t now))
]
