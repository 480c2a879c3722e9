-- ===== src/Processing/Sizes.antt =====
-- internal/processing/pipeline.go: the loops over channels keep how many there are.
use vrcft_go.Base.{
  ℕ, zero, suc, ◌≡◌, refl, sym, ap, ◌∙◌, Bool, true, false, not, ◌&&◌, List, length, length-set,
  set, get_or, replicate, if◌then◌else◌, ℤ, Result, ok, ◌>>=◌, >>=_inv, ok_inj,
}
use vrcft_go.Floats.{Arithmetic}
use vrcft_go.Tracking.Merged.{MergedFrame}
use vrcft_go.Processing.Channel.{channel_count, eye_channel_count, raw_channel_value}
use vrcft_go.Processing.Config.{ProcessingError, CompiledConfig}
use vrcft_go.Processing.Dropout.{ChannelState, no_channel, record_unavailable}
use vrcft_go.Processing.Pipeline.{
  Pipeline, reset_channels, mark_unavailable, ingest_at, ingest_range, expression_channel_count,
}
use vrcft_go.Processing.Step.{
  prepare_channels, ingest, eye_fresh, expression_fresh, eye_reset, expression_reset, source_left,
}

length-reset_channels :
    (index rounds : ℕ) (cs : List ChannelState)
    → length (reset_channels index rounds cs) ≡ length cs
unfolding reset_channels
length-reset_channels index zero cs = refl
length-reset_channels index (suc rounds) cs =
    length-reset_channels (suc index) rounds (set cs index no_channel)
    ∙ length-set cs index no_channel

length-mark_unavailable :
    (at : ℤ) (index rounds : ℕ) (cs : List ChannelState)
    → length (mark_unavailable at index rounds cs) ≡ length cs
unfolding mark_unavailable
length-mark_unavailable at index zero cs = refl
length-mark_unavailable at index (suc rounds) cs =
    length-mark_unavailable at (suc index) rounds _
    ∙ length-set cs index (record_unavailable (get_or cs index no_channel) at)

choice :
    (b : Bool) (xs ys : List ChannelState) (n : ℕ)
    → length xs ≡ n
    → length ys ≡ n
    → length (if b then xs else ys) ≡ n
choice true xs ys n e d = e
choice false xs ys n e d = d

pub length-prepare_channels :
    (p : Pipeline) (reset : Bool) (m : MergedFrame)
    → length p.channels ≡ channel_count
    → length (prepare_channels p reset m) ≡ channel_count
unfolding prepare_channels
length-prepare_channels p reset m e =
    let start = choice reset (replicate channel_count no_channel) p.channels channel_count refl e in
    let eye =
      choice (eye_reset reset m p.last_input) _ _ channel_count
        (length-reset_channels 0 eye_channel_count _ ∙ start) start in
    let expression =
      choice (expression_reset reset m p.last_input) _ _ channel_count
        (length-reset_channels eye_channel_count expression_channel_count _ ∙ eye) eye in
    let marked =
      choice (not reset && source_left m.eye_source_id p.last_input.eye_source_id) _ _ channel_count
        (length-mark_unavailable m.updated_at_ns 0 eye_channel_count _ ∙ expression) expression in
    choice (not reset && source_left m.expression_source_id p.last_input.expression_source_id) _ _
      channel_count
      (length-mark_unavailable m.updated_at_ns eye_channel_count expression_channel_count _
        ∙ marked)
      marked

length-written :
    (b : Bool) (cs ds : List ChannelState) (index : ℕ) (r : Result ProcessingError ChannelState)
    → (if◌then◌else◌ {A = Result ProcessingError (List ChannelState)} b
        (ok cs)
        (r >>= λ s. ok (set cs index s)))
      ≡ ok ds
    → length ds ≡ length cs
length-written true cs ds index r h = ap length (sym (ok_inj _ _ h))
length-written false cs ds index r h =
    let (s, _, k) = >>=_inv r _ _ h in ap length (sym (ok_inj _ _ k)) ∙ length-set cs index s

pub length-optional :
    (b : Bool) (r : Result ProcessingError (List ChannelState)) (cs ds : List ChannelState)
    → (r ≡ ok ds → length ds ≡ length cs)
    → (if◌then◌else◌ {A = Result ProcessingError (List ChannelState)} b r (ok cs)) ≡ ok ds
    → length ds ≡ length cs
length-optional true r cs ds f h = f h
length-optional false r cs ds f h = ap length (sym (ok_inj _ _ h))

module _ (fl : Arithmetic) where
  pub length-ingest_at :
      (c : CompiledConfig) (m : MergedFrame) (at : ℤ) (index : ℕ) (cs ds : List ChannelState)
      → ingest_at fl c m at index cs ≡ ok ds
      → length ds ≡ length cs
  unfolding ingest_at
  length-ingest_at c m at index cs ds h =
      length-written (not (raw_channel_value m.eye m.expressions (suc index)).1) cs ds index _ h

  pub length-ingest_range :
      (c : CompiledConfig) (m : MergedFrame) (at : ℤ) (index rounds : ℕ) (cs ds : List ChannelState)
      → ingest_range fl c m at index rounds cs ≡ ok ds
      → length ds ≡ length cs
  unfolding ingest_range
  length-ingest_range c m at index zero cs ds h = ap length (sym (ok_inj _ _ h))
  length-ingest_range c m at index (suc rounds) cs ds h =
      let (next, e, k) = >>=_inv (ingest_at fl c m at index cs) _ _ h in
      length-ingest_range c m at (suc index) rounds next ds k
      ∙ length-ingest_at c m at index cs next e

  length-ingest :
      (p : Pipeline) (reset : Bool) (m : MergedFrame) (ds : List ChannelState)
      → length p.channels ≡ channel_count
      → ingest fl p reset m ≡ ok ds
      → length ds ≡ channel_count
  unfolding ingest
  length-ingest p reset m ds n h =
      let (eyes, e, k) =
        >>=_inv
          (if eye_fresh p reset m
            then ingest_range fl p.config m m.eye_updated_at_ns 0 eye_channel_count
                (prepare_channels p reset m)
            else ok (prepare_channels p reset m))
          _ _ h in
      length-optional (expression_fresh p reset m) _ eyes ds
        (length-ingest_range p.config m m.expression_updated_at_ns eye_channel_count
          expression_channel_count eyes ds)
        k
      ∙ length-optional (eye_fresh p reset m) _ (prepare_channels p reset m) eyes
          (length-ingest_range p.config m m.eye_updated_at_ns 0 eye_channel_count
            (prepare_channels p reset m) eyes)
          e
      ∙ length-prepare_channels p reset m n
