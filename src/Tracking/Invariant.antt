-- ===== src/Tracking/Invariant.antt =====
-- What holds of the tracking service between two calls.
pub mod Clock
pub mod Maps
pub mod Recompute
pub mod Control
pub mod Sources
pub mod Calls
use vrcft_go.Base.{
  ℕ, ◌≤◌, ◌<◌, Bool, true, false, [], Bytes, Entries, ◌≡◌, ℤ, pos, ◌≤ℤ◌, ◌<ℤ◌, max_int64,
  max_uint64, ok,
}
use vrcft_go.TrackingModel.Frame.{validate, capability_eye, capability_expression, capability_lip}
use vrcft_go.Tracking.Routing.{SourceState, resolve_source}
use vrcft_go.Tracking.Routing.Choice.{IsMap}
use vrcft_go.Tracking.Service.{Service, merged_of}

-- A stored source passed the checks, and came after time 0 and by the host time.
abbrev pub IsReceived : ℤ → Bytes → SourceState → Type 0
IsReceived time id s =
    (validate s.frame ≡ ok tt) × (pos 0 <ℤ s.received_at_ns) × (s.received_at_ns ≤ℤ time)

-- The parts that the choice of sources does not touch.
pub record Kept (s : Service) : Type 0 where
  pub names : IsMap s.sources
  pub received : Entries (IsReceived s.last_host_time_ns) s.sources
  pub time_nonneg : pos 0 ≤ℤ s.last_host_time_ns
  pub time_int64 : s.last_host_time_ns ≤ℤ pos max_int64
  pub sequence_uint64 : s.merged_sequence ≤ max_uint64
  pub latest_numbered : s.has_latest ≡ true → 0 < s.merged_sequence
  pub latest_generation : s.has_latest ≡ true → 0 < s.generation

-- The latest frame is what the selected sources hold now.
abbrev pub IsCurrent : Service → Type 0
IsCurrent s =
    s.has_latest ≡ true
    → (s.latest_merged ≡ record (merged_of s) {
      sequence = s.merged_sequence;
      updated_at_ns = s.latest_merged.updated_at_ns;
    })
      × (pos 0 ≤ℤ s.latest_merged.updated_at_ns)
      × (s.latest_merged.updated_at_ns ≤ℤ s.last_host_time_ns)

-- Resolving the routing again would select the same sources.
pub record IsSettled (s : Service) : Type 0 where
  pub eye : resolve_source s.routing.eye s.eye_source_id s.sources capability_eye ≡ s.eye_source_id
  pub expression :
      resolve_source s.routing.expression s.expression_source_id s.sources capability_expression
      ≡ s.expression_source_id
  pub lip : resolve_source s.routing.lip s.lip_source_id s.sources capability_lip ≡ s.lip_source_id

-- Before the first generation there is no source, no selection and no frame.
abbrev pub IsFresh : Service → Type 0
IsFresh s =
    (s.sources ≡ [])
    × (s.eye_source_id ≡ [])
    × (s.expression_source_id ≡ [])
    × (s.lip_source_id ≡ [])
    × (s.has_latest ≡ false)

pub record Inv (s : Service) : Type 0 where
  pub kept : Kept s
  pub current : IsCurrent s
  pub settled : IsSettled s
  pub unset : s.generation ≡ 0 → IsFresh s
  pub started : 0 < s.generation → s.has_latest ≡ true
