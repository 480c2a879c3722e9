-- ===== src/Tracking/Invariant/Clock.antt =====
-- The service's two clocks never fall, and a receipt is later than all before it.
use vrcft_go.Base.{
  ℕ, ◌≤◌, ◌<◌, arith, ℤ, pos, negsuc, ◌+ℤ◌, ◌≤ℤ◌, ◌<ℤ◌, max_int64, max_uint64, +ℤ_pos, [], ◌∷◌,
  Entries,
}
use vrcft_go.Tracking.Routing.{Sources}
use vrcft_go.Tracking.Service.{next_time, next_receipt_time, advance_sequence}
use vrcft_go.Tracking.Invariant.{IsReceived}

pub next_time_bounds :
    (last now : ℤ)
    → now ≤ℤ pos max_int64
    → last ≤ℤ pos max_int64
    → (last ≤ℤ next_time last now) × (next_time last now ≤ℤ pos max_int64)
unfolding next_time
next_time_bounds last now h k = ground arith

tick :
    (last : ℤ)
    → pos 0 ≤ℤ last
    → last <ℤ pos max_int64
    → (last <ℤ last +ℤ pos 1) × (last +ℤ pos 1 ≤ℤ pos max_int64)
tick (pos n) h k = rw (+ℤ_pos n 1 (omega arith)) (omega arith, omega arith)
tick (negsuc n) h k = absurd (omega arith)

pub next_receipt_time_bounds :
    (last now : ℤ)
    → now ≤ℤ pos max_int64
    → pos 0 ≤ℤ last
    → last <ℤ pos max_int64
    → (last <ℤ next_receipt_time last now) × (next_receipt_time last now ≤ℤ pos max_int64)
unfolding next_receipt_time
next_receipt_time_bounds last now h z k = ground (arith, tick last z k)

pub advance_sequence_bounds :
    (n : ℕ)
    → n ≤ max_uint64
    → (advance_sequence n ≤ max_uint64) × (0 < advance_sequence n) × (n ≤ advance_sequence n)
unfolding advance_sequence
advance_sequence_bounds n h = ground arith

-- What was received by a time was received by any later one.
pub IsReceived-later :
    (a b : ℤ) (m : Sources) → a ≤ℤ b → Entries (IsReceived a) m → Entries (IsReceived b) m
IsReceived-later a b [] h e = tt
IsReceived-later a b ((id, s) ∷ m) h ((f, p, q), e) =
    ((f, p, omega arith), IsReceived-later a b m h e)
