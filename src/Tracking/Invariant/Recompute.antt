-- ===== src/Tracking/Invariant/Recompute.antt =====
-- `recomputeMergedLocked` settles the selection and makes the latest frame current.
use vrcft_go.Base.{
  ℕ, ◌<◌, Bool, true, false, not, ◌&&◌, ◌≡◌, refl, subst, arith, inl, inr, Bool-cases, Bytes,
  eq_of_str_eq, lookup, ℤ, pos, ◌≤ℤ◌, max_int64,
}
use vrcft_go.TrackingModel.Frame.{capability_eye, capability_expression, capability_lip}
use vrcft_go.Tracking.Routing.{Sources, resolve_source}
use vrcft_go.Tracking.Routing.Choice.{resolve_source_idem}
use vrcft_go.Tracking.Merged.{MergedFrame, compose_merged, merged_content_equal}
use vrcft_go.Tracking.Service.{
  Service, reselect, merged_of, same_selection, install_merged, recompute_merged, publish_if,
  publish_merged, publish_summary, next_time, Channels,
}
use vrcft_go.Tracking.Rejections.{RejectionCounts, Rejection, Summary}
use vrcft_go.Tracking.Invariant.{Kept, IsCurrent, IsSettled, Inv}
use vrcft_go.Tracking.Invariant.Clock.{next_time_bounds, advance_sequence_bounds, IsReceived-later}

-- The frame reads the map only at the three selected names.
pub compose_merged_cong :
    (g : ℕ) (e x l : Bytes) (m n : Sources)
    → lookup e m ≡ lookup e n
    → lookup x m ≡ lookup x n
    → lookup l m ≡ lookup l n
    → compose_merged g e x l m ≡ compose_merged g e x l n
unfolding compose_merged
compose_merged_cong g e x l m n he hx hl = rw (he, hx, hl)

pub reselect_same : (s : Service) → same_selection (reselect s) s ≡ true → reselect s ≡ s
unfolding same_selection reselect
reselect_same s h = ground (
  arith,
  eq_of_str_eq (resolve_source s.routing.eye s.eye_source_id s.sources capability_eye)
      s.eye_source_id,
  eq_of_str_eq
      (resolve_source s.routing.expression s.expression_source_id s.sources capability_expression)
      s.expression_source_id,
  eq_of_str_eq (resolve_source s.routing.lip s.lip_source_id s.sources capability_lip)
      s.lip_source_id,
)

reselect-Kept : (s : Service) → Kept s → Kept (reselect s)
unfolding reselect
reselect-Kept s k = record {
  names = k.names;
  received = k.received;
  time_nonneg = k.time_nonneg;
  time_int64 = k.time_int64;
  sequence_uint64 = k.sequence_uint64;
  latest_numbered = k.latest_numbered;
  latest_generation = k.latest_generation;
}

reselect-IsSettled : (s : Service) → Kept s → IsSettled (reselect s)
unfolding reselect
reselect-IsSettled s k = record {
  eye = resolve_source_idem s.routing.eye s.eye_source_id s.sources capability_eye k.names;
  expression =
      resolve_source_idem s.routing.expression s.expression_source_id s.sources
        capability_expression k.names;
  lip = resolve_source_idem s.routing.lip s.lip_source_id s.sources capability_lip k.names;
}

pub install_merged-Kept :
    (s : Service) (next : MergedFrame) (now : ℤ)
    → now ≤ℤ pos max_int64
    → 0 < s.generation
    → Kept s
    → Kept (install_merged s next now)
unfolding install_merged
install_merged-Kept s next now h g k =
    let (later, bound) = next_time_bounds s.last_host_time_ns now h k.time_int64 in
    let (few, some_yet, _) = advance_sequence_bounds s.merged_sequence k.sequence_uint64 in
    record {
      names = k.names;
      received =
          IsReceived-later s.last_host_time_ns (next_time s.last_host_time_ns now) s.sources later
            k.received;
      time_nonneg = omega (arith, k.time_nonneg);
      time_int64 = bound;
      sequence_uint64 = few;
      latest_numbered = λ _. some_yet;
      latest_generation = λ _. g;
    }

pub install_merged-IsCurrent :
    (s : Service) (now : ℤ)
    → now ≤ℤ pos max_int64
    → Kept s
    → IsCurrent (install_merged s (merged_of s) now)
unfolding install_merged merged_of
install_merged-IsCurrent s now h k _ =
    let (later, _) = next_time_bounds s.last_host_time_ns now h k.time_int64 in
    (refl, omega (arith, k.time_nonneg), omega arith)

pub install_merged-Inv :
    (s : Service) (now : ℤ)
    → now ≤ℤ pos max_int64
    → 0 < s.generation
    → Kept s
    → IsSettled s
    → Inv (install_merged s (merged_of s) now)
unfolding install_merged
install_merged-Inv s now h g k settled = record {
  kept = install_merged-Kept s (merged_of s) now h g k;
  current = install_merged-IsCurrent s now h k;
  settled = record { eye = settled.eye; expression = settled.expression; lip = settled.lip };
  unset = λ e. absurd (omega arith);
  started = λ _. refl;
}

stay-Inv :
    (s : Service)
    → 0 < s.generation
    → Kept s
    → same_selection (reselect s) s ≡ true
    → s.has_latest ≡ true
    → IsCurrent s
    → Inv (reselect s)
stay-Inv s g k same has current = rw (reselect_same s same) (record {
  kept = k;
  current = current;
  settled = subst IsSettled (reselect_same s same) (reselect-IsSettled s k);
  unset = λ e. absurd (omega arith);
  started = λ _. has;
})

reselect-generation : (s : Service) → 0 < s.generation → 0 < (reselect s).generation
unfolding reselect
reselect-generation s g = g

-- Where the selection stays and nothing forces a new frame, the old one must be current.
pub recompute_merged-Inv :
    (force : Bool) (s : Service) (now : ℤ)
    → now ≤ℤ pos max_int64
    → 0 < s.generation
    → Kept s
    → (force ≡ false → same_selection (reselect s) s ≡ true → IsCurrent s)
    → Inv (recompute_merged force s now).0
unfolding recompute_merged
recompute_merged-Inv force s now h g k held =
    let stays =
      not force
      && same_selection (reselect s) s
      && s.has_latest
      && merged_content_equal (merged_of (reselect s)) s.latest_merged in
    elim (Bool-cases stays) [
      | inl e ↦
          rw e (stay-Inv s g k (ground arith) (ground arith) (held (ground arith) (ground arith)))
      | inr e ↦ rw e (
          install_merged-Inv (reselect s) now h (reselect-generation s g) (reselect-Kept s k)
            (reselect-IsSettled s k))
    ]

-- The subscribers' channels and the statistics are read by nothing else.
pub observers-Inv :
    (s : Service) (merged : Channels MergedFrame) (summaries : Channels Summary) (a r : ℕ)
    (c : RejectionCounts) (l : Rejection)
    → Inv s
    → Inv (record s {
      merged_subscribers = merged;
      summary_subscribers = summaries;
      accepted_frames = a;
      rejected_frames = r;
      rejected = c;
      last_rejection = l;
    })
unfolding merged_of
observers-Inv s merged summaries a r c l v = record {
  kept = record {
    names = v.kept.names;
    received = v.kept.received;
    time_nonneg = v.kept.time_nonneg;
    time_int64 = v.kept.time_int64;
    sequence_uint64 = v.kept.sequence_uint64;
    latest_numbered = v.kept.latest_numbered;
    latest_generation = v.kept.latest_generation;
  };
  current = v.current;
  settled = record { eye = v.settled.eye; expression = v.settled.expression; lip = v.settled.lip };
  unset = v.unset;
  started = v.started;
}

pub publish_summary-Inv : (s : Service) → Inv s → Inv (publish_summary s)
unfolding publish_summary
publish_summary-Inv s v = observers-Inv s s.merged_subscribers _ _ _ _ _ v

pub publish_merged-Inv : (s : Service) → Inv s → Inv (publish_merged s)
unfolding publish_merged
publish_merged-Inv s v = observers-Inv s _ s.summary_subscribers _ _ _ _ v

pub publish_if-Inv : (s : Service) (changed : Bool) → Inv s → Inv (publish_if (s, changed))
unfolding publish_if
publish_if-Inv s true v = publish_merged-Inv s v
publish_if-Inv s false v = v
