-- ===== src/Processing/Renewed.antt =====
-- internal/processing/pipeline.go: no channel keeps a value across a new generation or a new source.
use vrcft_go.Base.{◌<◌, ◌≡◌, ◌⊎◌, false, Bytes, is_empty, str_eq}
use vrcft_go.Tracking.Merged.{MergedFrame}
use vrcft_go.Processing.Pipeline.{Pipeline}

-- The input is the first one, starts a generation, or has a higher number and names for the group a source other
-- than the last input does.
abbrev pub Renews : Pipeline → MergedFrame → Bytes → Bytes → Type 0
Renews p m id previous =
    (p.has_last ≡ false)
    ⊎ (p.last_input.generation < m.generation)
    ⊎ ((p.last_input.sequence < m.sequence) × (is_empty id ≡ false) × (str_eq id previous ≡ false))
