-- ===== src/Tracking/Refusals.antt =====
-- Which frames `Submit` takes, and what a refusal leaves alone.
use vrcft_go.Base.{
  ℕ, ◌<◌, true, false, ◌≡◌, ◌≢◌, ◌⊎◌, ◌↔◌, refl, ap, sym, ◌∙◌, arith, inl, inr, Result-cases, Bytes,
  Option, none, some, is_empty, lookup, ℤ, pos, negsuc, ◌≤ℤ◌, eqb_ℤ, max_int64, ok, err,
}
use vrcft_go.TrackingModel.Frame.{TrackingFrame, canonicalize}
use vrcft_go.Tracking.Routing.{SourceState}
use vrcft_go.Tracking.Rejections.{saturating_add, TrackingError}
use vrcft_go.Tracking.Invariant.Sources.{check_submit_inv}
use vrcft_go.Tracking.Service.{Service}
use vrcft_go.Tracking.Submit.{
  Refusal, submit, check_submit, check_source, check_generation, checked_frame, reject, fell,
}

-- A refused frame changes the statistics and the summary's subscribers, and nothing else.
pub submit_refused :
    (s : Service) (id : Bytes) (g : ℕ) (f : TrackingFrame) (now later : ℤ)
    → (submit s id g f now later).1 ≢ none
    → let t = (submit s id g f now later).0 in
      (t ≡ record s {
        rejected_frames = saturating_add s.rejected_frames 1;
        rejected = t.rejected;
        last_rejection = t.last_rejection;
        summary_subscribers = t.summary_subscribers;
      })
      × (t.last_rejection.plugin_id ≡ id)
      × (t.last_rejection.generation ≡ g)
unfolding submit
submit_refused s id g f now later h = elim (Result-cases (check_submit s id g f)) [
  | inl (c, passed) ↦ absurd (h (rw (passed, submit)))
  | inr (r, refused) ↦ rw (refused, submit) (unfold reject in (refl, refl, refl))
]

-- A frame that may follow what the source has sent before.
abbrev pub Follows : Option SourceState → TrackingFrame → Type 0
Follows none c = Unit {0}
Follows (some p) c =
    (p.last_sequence < c.sequence)
    × ((c.timestamp_ns ≡ pos 0)
        ⊎ (p.last_timestamp_ns ≡ pos 0)
        ⊎ (p.last_timestamp_ns ≤ℤ c.timestamp_ns))
    × ((c.source_clock_ns ≡ pos 0)
        ⊎ (p.last_source_clock_ns ≡ pos 0)
        ⊎ (p.last_source_clock_ns ≤ℤ c.source_clock_ns))

eqb_zero : (z : ℤ) → eqb_ℤ z (pos 0) ≡ true → z ≡ pos 0
eqb_zero (pos n) h = ground arith
eqb_zero (negsuc n) h = ground arith

zero_eqb : (z : ℤ) → z ≡ pos 0 → eqb_ℤ z (pos 0) ≡ true
zero_eqb z e = rw e refl

not_fell : (now last : ℤ) → fell now last ≡ false → (now ≡ pos 0) ⊎ (last ≡ pos 0) ⊎ (last ≤ℤ now)
not_fell now last h = ground (arith, eqb_zero now, eqb_zero last)

fell_not : (now last : ℤ) → (now ≡ pos 0) ⊎ (last ≡ pos 0) ⊎ (last ≤ℤ now) → fell now last ≡ false
fell_not now last h = ground (arith, zero_eqb now, zero_eqb last)

eqb_max : (z : ℤ) → (eqb_ℤ z (pos max_int64) ≡ true) ↔ (z ≡ pos max_int64)
eqb_max (pos n) = ground arith
eqb_max (negsuc n) = ground arith

-- The guards in the source's words, apart from the order in which they are tried.
pub record IsOrderly (s : Service) (old : Option SourceState) (c : TrackingFrame) : Type 0 where
  pub timestamp : pos 0 ≤ℤ c.timestamp_ns
  pub source_clock : pos 0 ≤ℤ c.source_clock_ns
  pub follows : Follows old c
  pub room : s.last_host_time_ns ≢ pos max_int64

check_source-IsOrderly :
    (s : Service) (old : Option SourceState) (c : TrackingFrame)
    → check_source s old c ≡ ok tt
    → IsOrderly s old c
unfolding check_source
check_source-IsOrderly s none c h = record {
  timestamp = ground arith;
  source_clock = ground arith;
  follows = tt;
  room = λ e. ground (arith, (eqb_max s.last_host_time_ns).1 e);
}
check_source-IsOrderly s (some p) c h = record {
  timestamp = ground arith;
  source_clock = ground arith;
  follows = (
    ground arith,
    not_fell c.timestamp_ns p.last_timestamp_ns (ground arith),
    not_fell c.source_clock_ns p.last_source_clock_ns (ground arith),
  );
  room = λ e. ground (arith, (eqb_max s.last_host_time_ns).1 e);
}

IsOrderly-check_source :
    (s : Service) (old : Option SourceState) (c : TrackingFrame)
    → IsOrderly s old c
    → check_source s old c ≡ ok tt
unfolding check_source
IsOrderly-check_source s none c o = ground (arith, o.room, (eqb_max s.last_host_time_ns).0)
IsOrderly-check_source s (some p) c o = ground (
  arith,
  o.room,
  (eqb_max s.last_host_time_ns).0,
  fell_not c.timestamp_ns p.last_timestamp_ns o.follows.1,
  fell_not c.source_clock_ns p.last_source_clock_ns o.follows.2,
)

pub record IsWelcome (s : Service) (id : Bytes) (g : ℕ) (c : TrackingFrame) : Type 0 where
  pub named : is_empty id ≡ false
  pub generation : g ≡ s.generation
  pub positive : 0 < g
  pub orderly : IsOrderly s (lookup id s.sources) c

check_submit-IsWelcome :
    (s : Service) (id : Bytes) (g : ℕ) (f c : TrackingFrame)
    → check_submit s id g f ≡ ok c
    → (canonicalize f ≡ ok c) × IsWelcome s id g c
check_submit-IsWelcome s id g f c h =
    let a = check_submit_inv s id g f c h in
    (
      a.checked,
      record {
        named = a.named;
        generation = a.generation;
        positive = omega (arith, a.generation, a.positive);
        orderly = check_source-IsOrderly s (lookup id s.sources) c a.source;
      },
    )

IsWelcome-check_submit :
    (s : Service) (id : Bytes) (g : ℕ) (f c : TrackingFrame)
    → canonicalize f ≡ ok c
    → IsWelcome s id g c
    → check_submit s id g f ≡ ok c
unfolding check_submit check_generation checked_frame
IsWelcome-check_submit s id g f c h w = ground (
  arith,
  w.named,
  w.generation,
  w.positive,
  IsOrderly-check_source s (lookup id s.sources) c w.orderly,
)

some_ne_none : (e : TrackingError) → ◌≡◌ {A = Option TrackingError} (some e) none → ⊥
some_ne_none e h = cc

reject_of :
    (s : Service) (id : Bytes) (g : ℕ) (f : TrackingFrame) (now later : ℤ) (r : Refusal)
    → check_submit s id g f ≡ err r
    → submit s id g f now later ≡ ((reject s id g r).0, some r.error)
unfolding submit reject
reject_of s id g f now later r h = rw (h, submit) refl

pub submit_refuses :
    (s : Service) (id : Bytes) (g : ℕ) (f : TrackingFrame) (now later : ℤ) (r : Refusal)
    → check_submit s id g f ≡ err r
    → (submit s id g f now later).1 ≢ none
submit_refuses s id g f now later r refused h =
    some_ne_none r.error (sym (ap (λ x. x.1) (reject_of s id g f now later r refused)) ∙ h)

-- `Submit` takes a frame exactly when it has a name and the current generation, passes the checks, and
-- follows what the source sent before, while the host clock is not used up.
pub submit_accepts_iff :
    (s : Service) (id : Bytes) (g : ℕ) (f : TrackingFrame) (now later : ℤ)
    → ((submit s id g f now later).1 ≡ none)
      ↔ ((c : TrackingFrame) × (canonicalize f ≡ ok c) × IsWelcome s id g c)
unfolding submit
submit_accepts_iff s id g f now later = (taken, welcome)
  where
    taken :
        (submit s id g f now later).1 ≡ none
        → (c : TrackingFrame) × (canonicalize f ≡ ok c) × IsWelcome s id g c
    taken h = elim (Result-cases (check_submit s id g f)) [
      | inl (c, passed) ↦ let (valid, w) = check_submit-IsWelcome s id g f c passed in (c, valid, w)
      | inr (r, refused) ↦ absurd (submit_refuses s id g f now later r refused h)
    ]

    welcome :
        ((c : TrackingFrame) × (canonicalize f ≡ ok c) × IsWelcome s id g c)
        → (submit s id g f now later).1 ≡ none
    welcome (c, valid, w) = rw (IsWelcome-check_submit s id g f c valid w, submit)
