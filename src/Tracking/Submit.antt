-- ===== src/Tracking/Submit.antt =====
-- internal/tracking/service.go and subscription.go: `Submit`, the subscriptions, and one call of all.
use vrcft_go.Base.{
  ℕ, Bool, false, not, ◌&&◌, ◌||◌, ◌∷◌, Option, none, some, Bytes, is_empty, str_eq, lookup, insert,
  ltb, leb, ◌==◌, if◌then◌else◌, ℤ, pos, ltb_ℤ, eqb_ℤ, max_int64, Result, ok, err, ◌>>=◌, ◌>>◌,
  fail_if,
}
use vrcft_go.TrackingModel.Frame.{TrackingFrame, canonicalize}
use vrcft_go.Tracking.Routing.{SourceState, RoutingConfig}
use vrcft_go.Tracking.Rejections.{RejectionReason, TrackingError, saturating_add, increment}
use vrcft_go.Tracking.Service.{
  Service, offer_latest, cancel, current_summary, publish_summary, publish_if, next_receipt_time,
  recompute_merged, set_generation, set_routing, remove_source,
}

-- A refused frame, as `rejectLocked` takes it down.
pub record Refusal : Type 0 where
  pub reason : RejectionReason
  pub error : TrackingError

abbrev pub refuse : RejectionReason → TrackingError → Refusal
refuse r e = record { reason = r; error = e }

unfoldable pub reject : Service → Bytes → ℕ → Refusal → Service × Option TrackingError
unfolding publish_summary saturating_add increment
reject s id generation r = (
  publish_summary (record s {
    rejected_frames = saturating_add s.rejected_frames 1;
    rejected = increment s.rejected r.reason;
    last_rejection = record { plugin_id = id; generation = generation; reason = r.reason };
  }),
  some r.error,
)

-- `frame.Canonicalize()`, with its error in the service's words.
unfoldable pub checked_frame : TrackingFrame → Result Refusal TrackingFrame
checked_frame f = elim (canonicalize f) [
  | ok c ↦ ok c
  | err _ ↦ err (refuse RejectionReason.invalid_frame TrackingError.invalid_frame)
]

-- `previous, exists := s.sources[pluginID]`: a missing source reads as zeros.
abbrev pub sequence_stale : Option SourceState → ℕ → Bool
sequence_stale none sequence = false
sequence_stale (some p) sequence = leb sequence p.last_sequence

abbrev pub last_timestamp : Option SourceState → ℤ
last_timestamp none = pos 0
last_timestamp (some p) = p.last_timestamp_ns

abbrev pub last_source_clock : Option SourceState → ℤ
last_source_clock none = pos 0
last_source_clock (some p) = p.last_source_clock_ns

-- A clock that a source reports fell; 0 stands for no report.
abbrev pub fell : ℤ → ℤ → Bool
fell now last = not (eqb_ℤ now (pos 0)) && not (eqb_ℤ last (pos 0)) && ltb_ℤ now last

-- The guards of `Submit`, in its order.
unfoldable pub check_generation : Service → Bytes → ℕ → Result Refusal (Unit {0})
check_generation s id generation = do
  fail_if (is_empty id) (refuse RejectionReason.invalid_plugin_id TrackingError.invalid_plugin_id)
  fail_if (s.generation == 0)
      (refuse RejectionReason.generation_unset TrackingError.generation_unset)
  fail_if (generation == 0) (refuse RejectionReason.generation_zero TrackingError.generation_zero)
  fail_if (ltb generation s.generation)
      (refuse RejectionReason.stale_generation TrackingError.stale_generation)
  fail_if (ltb s.generation generation)
      (refuse RejectionReason.future_generation TrackingError.future_generation)

unfoldable pub check_source :
    Service → Option SourceState → TrackingFrame → Result Refusal (Unit {0})
check_source s previous c = do
  fail_if (sequence_stale previous c.sequence)
      (refuse RejectionReason.sequence_not_increasing TrackingError.sequence_not_increasing)
  fail_if (ltb_ℤ c.timestamp_ns (pos 0) || ltb_ℤ c.source_clock_ns (pos 0))
      (refuse RejectionReason.invalid_frame TrackingError.invalid_frame)
  fail_if (fell c.timestamp_ns (last_timestamp previous))
      (refuse RejectionReason.timestamp_regression TrackingError.timestamp_regression)
  fail_if (fell c.source_clock_ns (last_source_clock previous))
      (refuse RejectionReason.source_clock_regression TrackingError.source_clock_regression)
  fail_if (eqb_ℤ s.last_host_time_ns (pos max_int64))
      (refuse RejectionReason.timestamp_regression TrackingError.timestamp_regression)

unfoldable pub check_submit : Service → Bytes → ℕ → TrackingFrame → Result Refusal TrackingFrame
check_submit s id generation f = do
  check_generation s id generation
  c ← checked_frame f
  check_source s (lookup id s.sources) c
  ok c

-- What the map holds for the source from now on.
unfoldable pub new_source : Option SourceState → TrackingFrame → ℤ → SourceState
new_source previous c received = record {
  frame = c;
  received_at_ns = received;
  last_sequence = c.sequence;
  last_timestamp_ns =
      if eqb_ℤ c.timestamp_ns (pos 0) then last_timestamp previous else c.timestamp_ns;
  last_source_clock_ns =
      if eqb_ℤ c.source_clock_ns (pos 0) then last_source_clock previous else c.source_clock_ns;
}

unfoldable pub is_selected : Service → Bytes → Bool
is_selected s id =
    str_eq id s.eye_source_id || str_eq id s.expression_source_id || str_eq id s.lip_source_id

-- The map and the host time after the receipt of a frame.
unfoldable pub store_source : Service → Bytes → TrackingFrame → ℤ → Service
unfolding new_source
store_source s id c now =
    let received = next_receipt_time s.last_host_time_ns now in
    record s {
      last_host_time_ns = received;
      sources = insert id (new_source (lookup id s.sources) c received) s.sources;
    }

-- `now` is the reading at the receipt, `later` that of the merge.
unfoldable pub accept : Service → Bytes → TrackingFrame → ℤ → ℤ → Service
accept s id c now later =
    let t = publish_if (recompute_merged (is_selected s id) (store_source s id c now) later) in
    publish_summary (record t { accepted_frames = saturating_add t.accepted_frames 1 })

unfoldable pub submit : Service → Bytes → ℕ → TrackingFrame → ℤ → ℤ → Service × Option TrackingError
submit s id generation f now later = elim (check_submit s id generation f) [
  | err r ↦ reject s id generation r
  | ok c ↦ (accept s id c now later, none)
]

-- A subscription whose context is done already is not kept.
unfoldable pub subscribe_merged : Service → ℕ → Bool → Service
subscribe_merged s id done = if done then s else record s {
  merged_subscribers =
      (id, if s.has_latest then offer_latest none s.latest_merged else none) ∷ s.merged_subscribers;
}

unfoldable pub subscribe_summary : Service → ℕ → Bool → Service
subscribe_summary s id done = if done then s else record s {
  summary_subscribers = (id, offer_latest none (current_summary s)) ∷ s.summary_subscribers;
}

unfoldable pub cancel_merged : Service → ℕ → Service
cancel_merged s id = record s { merged_subscribers = cancel id s.merged_subscribers }

unfoldable pub cancel_summary : Service → ℕ → Service
cancel_summary s id = record s { summary_subscribers = cancel id s.summary_subscribers }

-- The calls that change the service, with the clock readings that they see.
pub data Call : Type 0 where
  submits : Bytes → ℕ → TrackingFrame → ℤ → ℤ → Call
  sets_generation : ℕ → ℤ → Call
  sets_routing : RoutingConfig → ℤ → Call
  removes_source : Bytes → ℤ → Call
  subscribes_merged subscribes_summary : ℕ → Bool → Call
  cancels_merged cancels_summary : ℕ → Call

unfoldable pub step : Service → Call → Service
step s (submits id generation f now later) = (submit s id generation f now later).0
step s (sets_generation generation now) = (set_generation s generation now).0
step s (sets_routing config now) = (set_routing s config now).0
step s (removes_source id now) = remove_source s id now
step s (subscribes_merged id done) = subscribe_merged s id done
step s (subscribes_summary id done) = subscribe_summary s id done
step s (cancels_merged id) = cancel_merged s id
step s (cancels_summary id) = cancel_summary s id
