-- ===== src/Tracking/Acceptance.antt =====
-- What `Submit` stores of a frame that it takes.
use vrcft_go.Base.{
  ℕ, Bool, false, not, ◌&&◌, ◌≡◌, refl, ap, ◌∙◌, inl, inr, Bool-cases, Result-cases, Bytes, none,
  some, str_eq, lookup, insert, lookup-insert_self, lookup-insert_ne, ℤ, ok, Option, sym, pos,
  eqb_ℤ, if◌then◌else◌,
}
use vrcft_go.TrackingModel.Frame.{TrackingFrame, canonicalize}
use vrcft_go.Tracking.Rejections.{saturating_add}
use vrcft_go.Tracking.Merged.{merged_content_equal}
use vrcft_go.Tracking.Service.{
  Service, publish_summary, publish_merged, publish_if, recompute_merged, reselect, merged_of,
  same_selection, install_merged, next_receipt_time,
}
use vrcft_go.Tracking.Submit.{
  submit, accept, store_source, new_source, check_submit, is_selected, last_timestamp,
  last_source_clock,
}
use vrcft_go.Tracking.Routing.{SourceState}
use vrcft_go.TrackingModel.Canonical.{canonicalize_inv}
use vrcft_go.Tracking.Refusals.{submit_refuses}
use vrcft_go.Tracking.Invariant.Sources.{check_submit_inv}

-- Making the merged frame leaves the map and the statistics alone.
recompute_merged-sources :
    (force : Bool) (s : Service) (now : ℤ)
    → let t = publish_if (recompute_merged force s now) in
      (t.sources ≡ s.sources)
      × (t.accepted_frames ≡ s.accepted_frames)
      × (t.rejected_frames ≡ s.rejected_frames)
unfolding recompute_merged publish_if publish_merged reselect install_merged
recompute_merged-sources force s now =
    elim (Bool-cases (
      not force
      && same_selection (reselect s) s
      && s.has_latest
      && merged_content_equal (merged_of (reselect s)) s.latest_merged)) [
        | inl stays ↦ rw stays (refl, refl, refl)
        | inr moves ↦ rw moves (refl, refl, refl)
      ]

accept-sources :
    (s : Service) (id : Bytes) (c : TrackingFrame) (now later : ℤ)
    → let t = accept s id c now later in
      (t.sources
        ≡ insert id
            (new_source (lookup id s.sources) c (next_receipt_time s.last_host_time_ns now))
            s.sources)
      × (t.accepted_frames ≡ saturating_add s.accepted_frames 1)
      × (t.rejected_frames ≡ s.rejected_frames)
unfolding accept publish_summary store_source
accept-sources s id c now later =
    let (m, a, r) = recompute_merged-sources (is_selected s id) (store_source s id c now) later in
    (m, ap (λ n. saturating_add n 1) a, r)

-- What new_source keeps of a frame, in the words of the frame as it was sent.
new_source-keeps :
    (previous : Option SourceState) (f c : TrackingFrame) (received : ℤ)
    → canonicalize f ≡ ok c
    → let q = new_source previous c received in
      (q.frame ≡ c)
      × (q.received_at_ns ≡ received)
      × (q.last_sequence ≡ f.sequence)
      × (q.last_timestamp_ns
          ≡ (if eqb_ℤ f.timestamp_ns (pos 0) then last_timestamp previous else f.timestamp_ns))
      × (q.last_source_clock_ns ≡ (
          if eqb_ℤ f.source_clock_ns (pos 0)
          then last_source_clock previous
          else f.source_clock_ns))
unfolding new_source
new_source-keeps previous f c received h =
    rw ((canonicalize_inv f c h).1) (refl, refl, refl, refl, refl)

-- A frame that is taken stands in the map under its source's name: the map holds for it the frame's canonical
-- form, the time of its receipt, its sequence number, and its timestamp and source clock, in whose place the
-- last ones of the source stay where the frame has 0. Any other source stays, and one more frame counts as
-- accepted.
pub submit_stores :
    (s : Service) (id : Bytes) (g : ℕ) (f : TrackingFrame) (now later : ℤ) (j : Bytes)
    → (submit s id g f now later).1 ≡ none
    → str_eq id j ≡ false
    → let t = (submit s id g f now later).0 in
      (q : SourceState) × (lookup id t.sources ≡ some q)
      × (canonicalize f ≡ ok q.frame)
      × (q.received_at_ns ≡ next_receipt_time s.last_host_time_ns now)
      × (q.last_sequence ≡ f.sequence)
      × (q.last_timestamp_ns ≡ (
          if eqb_ℤ f.timestamp_ns (pos 0)
          then last_timestamp (lookup id s.sources)
          else f.timestamp_ns))
      × (q.last_source_clock_ns ≡ (
          if eqb_ℤ f.source_clock_ns (pos 0)
          then last_source_clock (lookup id s.sources)
          else f.source_clock_ns))
      × (lookup j t.sources ≡ lookup j s.sources)
      × (t.accepted_frames ≡ saturating_add s.accepted_frames 1)
      × (t.rejected_frames ≡ s.rejected_frames)
unfolding submit
submit_stores s id g f now later j h other = elim (Result-cases (check_submit s id g f)) [
  | inr (r, refused) ↦ absurd (submit_refuses s id g f now later r refused h)
  | inl (c, passed) ↦
      let received = next_receipt_time s.last_host_time_ns now in
      let source = new_source (lookup id s.sources) c received in
      let (m, a, r) = accept-sources s id c now later in
      let checked = (check_submit_inv s id g f c passed).checked in
      let (frame, time, sequence, timestamp, clock) =
        new_source-keeps (lookup id s.sources) f c received checked in
      rw (passed, submit)
        (
          source,
          ap (lookup id) m ∙ lookup-insert_self id source s.sources,
          checked ∙ ap ok (sym frame),
          time,
          sequence,
          timestamp,
          clock,
          ap (lookup j) m ∙ lookup-insert_ne id j source s.sources other,
          a,
          r,
        )
]
