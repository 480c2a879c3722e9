-- ===== src/Osc/Padding.antt =====
-- pkg/osc/packet.go: strings that are padded with zeros to a multiple of four bytes.
use vrcft_go.Base.{
  ℕ, zero, suc, ◌+◌, ◌-◌, ◌%◌, Bool, true, ◌&&◌, [], ◌∷◌, ◌++◌, Option, none, some, ltb, leb, ◌==◌,
  if◌then◌else◌, length, get_or, take, drop, Result, ok, err, Bytes,
}
use vrcft_go.Osc.Values.{OscError, malformed_packet}

-- `for out.Len()%4 != 0 { out.WriteByte(0) }` with the rounds that are left, of which 3 are enough.
unfoldable pub pad : ℕ → Bytes → Bytes
pad zero out = out
pad (suc n) out = let rest = pad n (out ++ (0 ∷ [])) in if length out % 4 == 0 then out else rest

unfoldable pub write_padded_string : Bytes → Bytes → Bytes
write_padded_string out value = pad 3 ((out ++ value) ++ (0 ∷ []))

-- `for next%4 != 0 { next++ }`, likewise.
unfoldable pub align : ℕ → ℕ → ℕ
align zero next = next
align (suc n) next = let rest = align n (next + 1) in if next % 4 == 0 then next else rest

-- `bytes.IndexByte(s, 0)`, counted from `at`.
unfoldable pub index_nul : Bytes → ℕ → Option ℕ
index_nul [] at = none
index_nul (c ∷ s) at = if c == 0 then some at else index_nul s (at + 1)

-- The loop that wants zeros from `index` on, for `rounds` bytes.
unfoldable pub all_zero : Bytes → ℕ → ℕ → Bool
all_zero packet index zero = true
all_zero packet index (suc rounds) =
    get_or packet index 0 == 0 && all_zero packet (index + 1) rounds

-- The string from `offset` to `terminator`, and where the next one begins. An offset is never negative.
unfoldable pub read_terminated : Bytes → ℕ → ℕ → Result OscError (Bytes × ℕ)
read_terminated packet offset terminator =
    let next = align 3 (terminator + 1) in
    if ltb (length packet) next
    then err malformed_packet
    else if all_zero packet (terminator + 1) (next - (terminator + 1))
    then ok (take (terminator - offset) (drop offset packet), next)
    else err malformed_packet

unfoldable pub read_padded_string : Bytes → ℕ → Result OscError (Bytes × ℕ)
read_padded_string packet offset =
    if leb (length packet) offset
    then err malformed_packet
    else elim (index_nul (drop offset packet) 0) [
      | none ↦ err malformed_packet
      | some n ↦ read_terminated packet offset (n + offset)
    ]
