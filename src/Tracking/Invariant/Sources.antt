-- ===== src/Tracking/Invariant/Sources.antt =====
-- A frame that comes and a source that goes keep the invariant.
use vrcft_go.Base.{
  ℕ, ◌<◌, true, false, ◌==◌, ◌≡◌, ◌⊎◌, ap, subst, arith, inl, inr, Bool-cases, Option-cases, Bytes,
  [], Option, some, is_empty, str_eq, eq_of_str_eq, lookup, erase, lookup-insert_ne,
  lookup-erase_self, lookup-erase_ne, Entries-insert, Entries-erase, ℤ, pos, ◌≤ℤ◌, ◌<ℤ◌, max_int64,
  ok,
}
use vrcft_go.TrackingModel.Frame.{
  TrackingFrame, capability_eye, capability_expression, capability_lip, canonicalize, validate,
}
use vrcft_go.TrackingModel.Canonical.{canonicalize_inv, canonicalize_idem}
use vrcft_go.Tracking.Routing.{SourceState, Sources, resolve_source, offers, SourceSelection}
use vrcft_go.Tracking.Routing.Choice.{IsMap, resolve_source-offers}
use vrcft_go.Tracking.Service.{
  Service, reselect, merged_of, same_selection, next_receipt_time, remove_source,
}
use vrcft_go.Tracking.Submit.{
  accept, store_source, check_submit, check_source, checked_frame, check_generation, is_selected,
  new_source,
}
use vrcft_go.Tracking.Invariant.{IsReceived, Kept, IsCurrent, Inv}
use vrcft_go.Tracking.Invariant.Maps.{erase-IsMap, insert-IsMap}
use vrcft_go.Tracking.Invariant.Clock.{next_receipt_time_bounds, IsReceived-later}
use vrcft_go.Tracking.Invariant.Recompute.{
  compose_merged_cong, reselect_same, recompute_merged-Inv, observers-Inv, publish_summary-Inv,
  publish_if-Inv,
}

-- A source that is not selected may change without a change of the merged frame.
merged_of_same :
    (s : Service) (m : Sources)
    → lookup s.eye_source_id m ≡ lookup s.eye_source_id s.sources
    → lookup s.expression_source_id m ≡ lookup s.expression_source_id s.sources
    → lookup s.lip_source_id m ≡ lookup s.lip_source_id s.sources
    → merged_of (record s { sources = m }) ≡ merged_of s
unfolding merged_of
merged_of_same s m e x l =
    compose_merged_cong s.generation s.eye_source_id s.expression_source_id s.lip_source_id m
      s.sources e x l

erased : Service → Bytes → Service
erased s id = record s { sources = erase id s.sources }

erased-Kept : (s : Service) (id : Bytes) → Kept s → Kept (erased s id)
unfolding erased
erased-Kept s id k = record {
  names = erase-IsMap id s.sources k.names;
  received = Entries-erase (IsReceived s.last_host_time_ns) id s.sources k.received;
  time_nonneg = k.time_nonneg;
  time_int64 = k.time_int64;
  sequence_uint64 = k.sequence_uint64;
  latest_numbered = k.latest_numbered;
  latest_generation = k.latest_generation;
}

-- What stays selected after a removal is not what was removed.
lookup-erase_selected :
    (c : ℕ) (id x : Bytes) (m : Sources)
    → is_empty id ≡ false
    → (x ≡ []) ⊎ (offers c (erase id m) x ≡ true)
    → lookup x (erase id m) ≡ lookup x m
lookup-erase_selected c id x m named selected = elim (Bool-cases (str_eq id x)) [
  | inr other ↦ lookup-erase_ne id x m other
  | inl same ↦
      absurd (ground (arith, named, selected, eq_of_str_eq id x same, lookup-erase_self id m))
]

selected_offers :
    (selection : SourceSelection) (current : Bytes) (m : Sources) (c : ℕ)
    → IsMap m
    → resolve_source selection current m c ≡ current
    → (current ≡ []) ⊎ (offers c m current ≡ true)
selected_offers selection current m c w e =
    subst (λ r. (r ≡ []) ⊎ (offers c m r ≡ true)) e (resolve_source-offers selection current m c w)

erased-IsCurrent :
    (s : Service) (id : Bytes)
    → is_empty id ≡ false
    → Inv s
    → same_selection (reselect (erased s id)) (erased s id) ≡ true
    → IsCurrent (erased s id)
unfolding erased reselect
erased-IsCurrent s id named v same has =
    let kept = reselect_same (erased s id) same in
    let (latest, low, high) = v.current has in
    (
      rw
          (merged_of_same s (erase id s.sources)
            (lookup-erase_selected capability_eye id s.eye_source_id s.sources named (
              selected_offers s.routing.eye _ _ _ (erase-IsMap id s.sources v.kept.names)
                (ap (λ t. t.eye_source_id) kept)))
            (lookup-erase_selected capability_expression id s.expression_source_id s.sources named (
              selected_offers s.routing.expression _ _ _ (erase-IsMap id s.sources v.kept.names)
                (ap (λ t. t.expression_source_id) kept)))
            (lookup-erase_selected capability_lip id s.lip_source_id s.sources named (
              selected_offers s.routing.lip _ _ _ (erase-IsMap id s.sources v.kept.names)
                (ap (λ t. t.lip_source_id) kept))))
          latest,
      low,
      high,
    )

-- A source that is found shows that a generation is set.
found-generation :
    (s : Service) (id : Bytes) (old : SourceState)
    → Inv s
    → lookup id s.sources ≡ some old
    → 0 < s.generation
unfolding lookup
found-generation s id old v found = elim (Bool-cases (s.generation == 0)) [
  | inr set_yet ↦ ground arith
  | inl unset ↦
      let no_source = (v.unset (ground arith)).0 in
      absurd (ground (arith, found, ap (lookup id) no_source))
]

pub remove_source-Inv :
    (s : Service) (id : Bytes) (now : ℤ)
    → now ≤ℤ pos max_int64
    → Inv s
    → Inv (remove_source s id now)
unfolding remove_source erased
remove_source-Inv s id now h v = elim (Bool-cases (is_empty id)) [
  | inl nameless ↦ rw nameless v
  | inr named ↦ rw named (elim (Option-cases (lookup id s.sources)) [
    | inl missing ↦ rw (missing, remove_source) v
    | inr (old, found) ↦
        rw (found, remove_source)
          (publish_summary-Inv _ (
            publish_if-Inv _ _ (
              recompute_merged-Inv false (erased s id) now h (found-generation s id old v found)
                (erased-Kept s id v.kept) (λ _ same. erased-IsCurrent s id named v same))))
  ])
]

-- What the guards have made sure of when `Submit` goes on to store the frame.
pub record Admitted (s : Service) (id : Bytes) (g : ℕ) (f c : TrackingFrame) : Type 0 where
  pub named : is_empty id ≡ false
  pub generation : g ≡ s.generation
  pub positive : 0 < s.generation
  pub checked : canonicalize f ≡ ok c
  pub source : check_source s (lookup id s.sources) c ≡ ok tt

pub check_submit_inv :
    (s : Service) (id : Bytes) (g : ℕ) (f c : TrackingFrame)
    → check_submit s id g f ≡ ok c
    → Admitted s id g f c
unfolding check_submit check_generation checked_frame
check_submit_inv s id g f c h = ground arith

pub room_left :
    (s : Service) (old : Option SourceState) (c : TrackingFrame)
    → s.last_host_time_ns ≤ℤ pos max_int64
    → check_source s old c ≡ ok tt
    → s.last_host_time_ns <ℤ pos max_int64
unfolding check_source
room_left s old c b h = ground arith

checked_valid : (f c : TrackingFrame) → canonicalize f ≡ ok c → validate c ≡ ok tt
checked_valid f c h = (canonicalize_inv c c (canonicalize_idem f c h)).0

-- The merged frame reads neither the host time nor a source that is not selected.
merged_of_stored :
    (s : Service) (m : Sources) (time : ℤ)
    → lookup s.eye_source_id m ≡ lookup s.eye_source_id s.sources
    → lookup s.expression_source_id m ≡ lookup s.expression_source_id s.sources
    → lookup s.lip_source_id m ≡ lookup s.lip_source_id s.sources
    → merged_of (record s { last_host_time_ns = time; sources = m }) ≡ merged_of s
unfolding merged_of
merged_of_stored s m time e x l =
    compose_merged_cong s.generation s.eye_source_id s.expression_source_id s.lip_source_id m
      s.sources e x l

stored-generation :
    (s : Service) (id : Bytes) (c : TrackingFrame) (now : ℤ)
    → 0 < s.generation
    → 0 < (store_source s id c now).generation
unfolding store_source
stored-generation s id c now p = p

stored-Kept :
    (s : Service) (id : Bytes) (g : ℕ) (f c : TrackingFrame) (now : ℤ)
    → now ≤ℤ pos max_int64
    → Admitted s id g f c
    → Kept s
    → Kept (store_source s id c now)
unfolding store_source
stored-Kept s id g f c now h a k =
    let (later, bound) =
      next_receipt_time_bounds s.last_host_time_ns now h k.time_nonneg
        (room_left s (lookup id s.sources) c k.time_int64 a.source) in
    let time = next_receipt_time s.last_host_time_ns now in
    let source = new_source (lookup id s.sources) c time in
    record {
      names = insert-IsMap id source s.sources a.named k.names;
      received =
          Entries-insert (IsReceived time) id source s.sources
            (checked_valid f c a.checked, omega (arith, k.time_nonneg), omega arith)
            (IsReceived-later s.last_host_time_ns time s.sources (omega arith) k.received);
      time_nonneg = omega (arith, k.time_nonneg);
      time_int64 = bound;
      sequence_uint64 = k.sequence_uint64;
      latest_numbered = k.latest_numbered;
      latest_generation = k.latest_generation;
    }

stored-IsCurrent :
    (s : Service) (id : Bytes) (c : TrackingFrame) (now : ℤ)
    → now ≤ℤ pos max_int64
    → s.last_host_time_ns <ℤ pos max_int64
    → is_selected s id ≡ false
    → Inv s
    → IsCurrent (store_source s id c now)
unfolding store_source is_selected
stored-IsCurrent s id c now h room apart v has =
    let (latest, low, high) = v.current has in
    let (later, _) = next_receipt_time_bounds s.last_host_time_ns now h v.kept.time_nonneg room in
    (
      rw
          (merged_of_stored s _ _ (lookup-insert_ne id s.eye_source_id _ s.sources (ground arith))
            (lookup-insert_ne id s.expression_source_id _ s.sources (ground arith))
            (lookup-insert_ne id s.lip_source_id _ s.sources (ground arith)))
          latest,
      low,
      omega arith,
    )

pub accept-Inv :
    (s : Service) (id : Bytes) (g : ℕ) (f c : TrackingFrame) (now later : ℤ)
    → now ≤ℤ pos max_int64
    → later ≤ℤ pos max_int64
    → Admitted s id g f c
    → Inv s
    → Inv (accept s id c now later)
unfolding accept
accept-Inv s id g f c now later h k a v = publish_summary-Inv _ (
    observers-Inv _ _ _ _ _ _ _ (
      publish_if-Inv _ _ (
        recompute_merged-Inv (is_selected s id) (store_source s id c now) later k
          (stored-generation s id c now a.positive) (stored-Kept s id g f c now h a v.kept)
          (λ apart _.
            stored-IsCurrent s id c now h
              (room_left s (lookup id s.sources) c v.kept.time_int64 a.source) apart v))))
