-- ===== src/Processing/Renewal.antt =====
-- internal/processing/pipeline.go: what the loops over channels leave of the channels' states.
use vrcft_go.Base.{
  ℕ, zero, suc, ◌+◌, ◌<◌, ◌≤◌, ◌≡◌, ◌≢◌, refl, sym, ap, subst, ◌∙◌, ◌⊎◌, inl, inr, Bool, true,
  false, not, ◌==◌, List, [], ◌∷◌, length, set, get_or, get_or-set_self, get_or-set_ne,
  if◌then◌else◌, ℤ, pos, Result, ok, Result-cases, Bool-cases, ◌>>=◌, >>=_inv, ok_inj, arith,
}
use vrcft_go.Floats.{Arithmetic}
use vrcft_go.Tracking.Merged.{MergedFrame}
use vrcft_go.Processing.Channel.{raw_channel_value}
use vrcft_go.Processing.Config.{ProcessingError, ChannelConfig, CompiledConfig, config_at}
use vrcft_go.Processing.Dropout.{ChannelState, no_channel, record_fresh, record_unavailable}
use vrcft_go.Processing.Filter.{apply_filter}
use vrcft_go.Processing.Shaping.{apply_calibration, apply_tuning}
use vrcft_go.Processing.Sizes.{length-ingest_at}
use vrcft_go.Processing.Pipeline.{
  reset_channels, mark_unavailable, ingest_channel, ingest_at, ingest_range,
}

abbrev pub channel_at : List ChannelState → ℕ → ChannelState
channel_at cs i = get_or cs i no_channel

-- A channel that has nothing, or is not there.
abbrev pub Blank : ℕ → List ChannelState → Type 0
Blank i cs = channel_at cs i ≡ no_channel

set-Blank : (cs : List ChannelState) (i : ℕ) → Blank i (set cs i no_channel)
set-Blank [] i = refl
set-Blank (c ∷ cs) zero = refl
set-Blank (c ∷ cs) (suc i) = set-Blank cs i

-- The channels that a loop of `rounds` rounds from `index` on does not touch.
abbrev pub Outside : ℕ → ℕ → ℕ → Type 0
Outside i index rounds = (i < index) ⊎ (index + rounds ≤ i)

Outside-next :
    (i index rounds : ℕ) → Outside i index (suc rounds) → Outside i (suc index) rounds × (index ≢ i)
Outside-next i index rounds (inl h) = (inl (omega arith), λ e. absurd (omega arith))
Outside-next i index rounds (inr h) = (inr (omega arith), λ e. absurd (omega arith))

pub reset_channels-Outside :
    (i index rounds : ℕ) (cs : List ChannelState)
    → Outside i index rounds
    → channel_at (reset_channels index rounds cs) i ≡ channel_at cs i
unfolding reset_channels
reset_channels-Outside i index zero cs o = refl
reset_channels-Outside i index (suc rounds) cs o =
    let (next, ne) = Outside-next i index rounds o in
    reset_channels-Outside i (suc index) rounds (set cs index no_channel) next
    ∙ get_or-set_ne cs index i no_channel no_channel ne

-- A loop from `index` on comes to `i` now, or later.
pub reset_channels-Blank :
    (i index rounds : ℕ) (cs : List ChannelState)
    → index ≤ i
    → i < index + rounds
    → Blank i (reset_channels index rounds cs)
unfolding reset_channels
reset_channels-Blank i index zero cs h k = absurd (omega arith)
reset_channels-Blank i index (suc rounds) cs h k = elim (Bool-cases (i == index)) [
  | inl here ↦
      reset_channels-Outside i (suc index) rounds (set cs index no_channel) (inl (ground arith))
      ∙ subst (λ n. Blank i (set cs n no_channel)) (ground arith) (set-Blank cs i)
  | inr later ↦
      reset_channels-Blank i (suc index) rounds (set cs index no_channel) (ground arith)
        (omega arith)
]

-- What has nothing cannot be lost.
pub mark_unavailable-Blank :
    (at : ℤ) (i index rounds : ℕ) (cs : List ChannelState)
    → Blank i cs
    → Blank i (mark_unavailable at index rounds cs)
unfolding mark_unavailable record_unavailable
mark_unavailable-Blank at i index zero cs b = b
mark_unavailable-Blank at i index (suc rounds) cs b =
    mark_unavailable-Blank at i (suc index) rounds
      (set cs index (record_unavailable (channel_at cs index) at))
      (elim (Bool-cases (i == index)) [
        | inl here ↦
            subst (λ n. Blank i (set cs n (record_unavailable (channel_at cs n) at))) (ground arith)
              (ap (λ (s : ChannelState). channel_at (set cs i (record_unavailable s at)) i) b
                ∙ set-Blank cs i)
        | inr other ↦
            get_or-set_ne cs index i (record_unavailable (channel_at cs index) at) no_channel
              (λ e. absurd (ground arith))
            ∙ b
      ])

written_inv :
    (b : Bool) (cs ds : List ChannelState) (index : ℕ) (r : Result ProcessingError ChannelState)
    → (if◌then◌else◌ {A = Result ProcessingError (List ChannelState)} b
        (ok cs)
        (r >>= λ s. ok (set cs index s)))
      ≡ ok ds
    → ((b ≡ true) × (ds ≡ cs))
      ⊎ ((b ≡ false) × (s : ChannelState) × (r ≡ ok s) × (ds ≡ set cs index s))
written_inv true cs ds index r h = inl (refl, sym (ok_inj _ _ h))
written_inv false cs ds index r h =
    let (s, e, k) = >>=_inv r _ _ h in inr (refl, s, e, sym (ok_inj _ _ k))

-- What a channel has: a value of that time if there is one, and nothing otherwise.
abbrev pub Reads : Bool → ℤ → ChannelState → Type 0
Reads valid at s = (s.seen ≡ valid) × (s.last_fresh_at_ns ≡ (if valid then at else pos 0))

module _ (fl : Arithmetic) where
  ingest_channel-fresh :
      (c : ChannelConfig) (s t : ChannelState) (raw : ℕ) (at : ℤ)
      → ingest_channel fl c s raw at ≡ ok t
      → Reads true at t
  unfolding ingest_channel record_fresh
  ingest_channel-fresh c s t raw at =
      elim (Result-cases (
        apply_calibration fl c.calibration raw >>= λ calibrated.
        apply_tuning fl c.tuning calibrated >>= λ tuned.
        apply_filter fl s.filter c.filter tuned at)) [
          | inr (e, bad) ↦ rw (bad, ingest_channel) (λ h. ground arith)
          | inl ((filter, filtered), good) ↦
              rw (good, ingest_channel) (λ h. subst (Reads true at) (ok_inj _ _ h) (refl, refl))
        ]

  -- One round writes the channel that has a valid value, and no other.
  ingest_at_inv :
      (c : CompiledConfig) (m : MergedFrame) (at : ℤ) (index : ℕ) (cs ds : List ChannelState)
      → ingest_at fl c m at index cs ≡ ok ds
      → (((raw_channel_value m.eye m.expressions (suc index)).1 ≡ false) × (ds ≡ cs))
        ⊎ (((raw_channel_value m.eye m.expressions (suc index)).1 ≡ true)
            × (s : ChannelState) × Reads true at s
            × (ds ≡ set cs index s))
  unfolding ingest_at
  ingest_at_inv c m at index cs ds h =
      let (raw, valid) = raw_channel_value m.eye m.expressions (suc index) in
      elim (written_inv (not valid) cs ds index
        (ingest_channel fl (config_at c (suc index)) (channel_at cs index) raw at) h) [
          | inl (missing, same) ↦ inl (ground arith, same)
          | inr (there, s, e, same) ↦ inr (
            ground arith,
            s,
            ingest_channel-fresh (config_at c (suc index)) (channel_at cs index) s raw at e,
            same,
          )
        ]

  ingest_at-frame :
      (c : CompiledConfig) (m : MergedFrame) (at : ℤ) (i index : ℕ) (cs ds : List ChannelState)
      → index ≢ i
      → ingest_at fl c m at index cs ≡ ok ds
      → channel_at ds i ≡ channel_at cs i
  ingest_at-frame c m at i index cs ds ne h = elim (ingest_at_inv c m at index cs ds h) [
    | inl (missing, same) ↦ ap (λ xs. channel_at xs i) same
    | inr (there, s, fresh, same) ↦
        ap (λ xs. channel_at xs i) same ∙ get_or-set_ne cs index i s no_channel ne
  ]

  ingest_at-Reads :
      (c : CompiledConfig) (m : MergedFrame) (at : ℤ) (index : ℕ) (cs ds : List ChannelState)
      → index < length cs
      → Blank index cs
      → ingest_at fl c m at index cs ≡ ok ds
      → Reads (raw_channel_value m.eye m.expressions (suc index)).1 at (channel_at ds index)
  ingest_at-Reads c m at index cs ds room blank h = elim (ingest_at_inv c m at index cs ds h) [
    | inl (missing, same) ↦ rw (missing, same, blank) (refl, refl)
    | inr (there, s, fresh, same) ↦
        rw (there, same, get_or-set_self cs index s no_channel room) fresh
  ]

  pub ingest_range-Outside :
      (c : CompiledConfig) (m : MergedFrame) (at : ℤ) (i index rounds : ℕ)
      (cs ds : List ChannelState)
      → Outside i index rounds
      → ingest_range fl c m at index rounds cs ≡ ok ds
      → channel_at ds i ≡ channel_at cs i
  unfolding ingest_range
  ingest_range-Outside c m at i index zero cs ds o h =
      ap (λ xs. channel_at xs i) (sym (ok_inj _ _ h))
  ingest_range-Outside c m at i index (suc rounds) cs ds o h =
      let (next, e, k) = >>=_inv (ingest_at fl c m at index cs) _ _ h in
      let (later, ne) = Outside-next i index rounds o in
      ingest_range-Outside c m at i (suc index) rounds next ds later k
      ∙ ingest_at-frame c m at i index cs next ne e

  -- A channel that had nothing has what the loop finds for it.
  pub ingest_range-Reads :
      (c : CompiledConfig) (m : MergedFrame) (at : ℤ) (i index rounds : ℕ)
      (cs ds : List ChannelState)
      → index ≤ i
      → i < index + rounds
      → i < length cs
      → Blank i cs
      → ingest_range fl c m at index rounds cs ≡ ok ds
      → Reads (raw_channel_value m.eye m.expressions (suc i)).1 at (channel_at ds i)
  unfolding ingest_range
  ingest_range-Reads c m at i index zero cs ds from below room blank h = absurd (omega arith)
  ingest_range-Reads c m at i index (suc rounds) cs ds from below room blank h =
      let (next, e, k) = >>=_inv (ingest_at fl c m at index cs) _ _ h in
      elim (Bool-cases (i == index)) [
        | inl here ↦
            let same : index ≡ i = ground arith in
            let first = subst (λ n. ingest_at fl c m at n cs ≡ ok next) same e in
            rw (ingest_range-Outside c m at i (suc index) rounds next ds (inl (omega arith)) k)
              (ingest_at-Reads c m at i cs next room blank first)
        | inr later ↦
            ingest_range-Reads c m at i (suc index) rounds next ds (ground arith) (omega arith)
              (subst (λ n. i < n) (sym (length-ingest_at fl c m at index cs next e)) room)
              (ingest_at-frame c m at i index cs next (λ d. absurd (ground arith)) e ∙ blank) k
      ]
