-- ===== src/Osc/Aligned.antt =====
-- pkg/osc/packet.go: a padded string is read as it was written, wherever it stands in a packet.
use mathlib.Core.List.{append_assoc, append-nil}
use vrcft_go.Base.{
  ℕ, zero, suc, ◌+◌, ◌-◌, ◌%◌, ◌≤◌, ◌<◌, ◌≡◌, refl, sym, ap, ◌∙◌, subst, true, false, [], ◌∷◌, ◌++◌,
  some, ltb, leb, ◌==◌, length, length-append, length-replicate, replicate, get_or-behind,
  drop-append, take-append, take, drop, ok, Bytes, arith, Bool-cases, inl, inr,
}
use vrcft_go.Osc.Values.{contains_nul}
use vrcft_go.Osc.Padding.{
  pad, write_padded_string, align, index_nul, all_zero, read_terminated, read_padded_string,
}

pub length-pad : (n : ℕ) (out : Bytes) → length (pad n out) ≡ align n (length out)
unfolding pad align
length-pad zero out = refl
length-pad (suc n) out = elim (Bool-cases (length out % 4 == 0)) [
  | inl done ↦ rw done refl
  | inr more ↦ rw more (length-pad n (out ++ (0 ∷ [])) ∙ ap (align n) (length-append out (0 ∷ [])))
]

-- Three rounds are enough for the loop that rounds up to a multiple of four, and it goes no further.
pub align-bounds : (n : ℕ) → (align 3 n % 4 ≡ 0) × (n ≤ align 3 n) × (align 3 n < n + 4)
unfolding align
align-bounds n = ground arith

align-ge : (n l : ℕ) → l ≤ align n l
unfolding align
align-ge zero l = omega arith
align-ge (suc n) l = ground (arith, align-ge n (l + 1))

abbrev pub zeros : ℕ → Bytes → Bytes
zeros n out = replicate (align n (length out) - length out) 0

align-more : (n l : ℕ) → (l % 4 == 0) ≡ false → align (suc n) l ≡ align n (l + 1)
unfolding align
align-more n l h = rw h refl

pad-more :
    (n : ℕ) (out : Bytes)
    → (length out % 4 == 0) ≡ false
    → pad (suc n) out ≡ pad n (out ++ (0 ∷ []))
unfolding pad
pad-more n out h = rw h refl

pad-done : (n : ℕ) (out : Bytes) → (length out % 4 == 0) ≡ true → pad (suc n) out ≡ out
unfolding pad
pad-done n out h = rw h refl

zeros-more :
    (n : ℕ) (out : Bytes)
    → (length out % 4 == 0) ≡ false
    → zeros (suc n) out ≡ 0 ∷ zeros n (out ++ (0 ∷ []))
zeros-more n out h =
    let next : align (suc n) (length out) - length out
        ≡ suc (align n (length (out ++ (0 ∷ []))) - length (out ++ (0 ∷ []))) =
      rw (align-more n (length out) h, length-append out (0 ∷ []))
        (omega (arith, align-ge n (length out + 1))) in
    ap (λ k. replicate k 0) next

zeros-done : (n : ℕ) (out : Bytes) → (length out % 4 == 0) ≡ true → zeros (suc n) out ≡ []
unfolding align
zeros-done n out h =
    rw h (ap (λ k. replicate k 0) {x = length out - length out} {y = 0} (omega arith))

pub pad_lem : (n : ℕ) (out : Bytes) → pad n out ≡ out ++ zeros n out
pad_lem zero out =
    unfold pad align in
    (let e : length out - length out ≡ 0 = omega arith in rw e (sym (append-nil out)))
pad_lem (suc n) out = elim (Bool-cases (length out % 4 == 0)) [
  | inl done ↦
      pad-done n out done ∙ sym (append-nil out) ∙ ap (λ t. out ++ t) (sym (zeros-done n out done))
  | inr more ↦
      pad-more n out more
      ∙ pad_lem n (out ++ (0 ∷ []))
      ∙ append_assoc out (0 ∷ []) _
      ∙ ap (λ t. out ++ t) (sym (zeros-more n out more))
]

index_nul-append :
    (value rest : Bytes) (at : ℕ)
    → contains_nul value ≡ false
    → index_nul (value ++ (0 ∷ rest)) at ≡ some (length value + at)
unfolding index_nul contains_nul
index_nul-append [] rest at h = ap some (omega arith)
index_nul-append (c ∷ value) rest at h = ground (arith, index_nul-append value rest (at + 1))

all_zero-replicate :
    (pre rest : Bytes) (k : ℕ) → all_zero (pre ++ (replicate k 0 ++ rest)) (length pre) k ≡ true
unfolding all_zero
all_zero-replicate pre rest zero = refl
all_zero-replicate pre rest (suc k) =
    let further = all_zero-replicate (pre ++ (0 ∷ [])) rest k in
    let same : all_zero (pre ++ (0 ∷ (replicate k 0 ++ rest))) (length pre + 1) k ≡ true =
      subst (λ n. all_zero (pre ++ (0 ∷ (replicate k 0 ++ rest))) n k ≡ true)
        (length-append pre (0 ∷ []))
        (subst (λ t. all_zero t (length (pre ++ (0 ∷ []))) k ≡ true)
          (append_assoc pre (0 ∷ []) (replicate k 0 ++ rest)) further) in
    rw (get_or-behind pre (replicate k 0 ++ rest) 0 0) same

read_terminated_lem :
    (packet : Bytes) (offset terminator k : ℕ)
    → align 3 (terminator + 1) ≡ terminator + 1 + k
    → terminator + 1 + k ≤ length packet
    → all_zero packet (terminator + 1) k ≡ true
    → read_terminated packet offset terminator
      ≡ ok (take (terminator - offset) (drop offset packet), terminator + 1 + k)
unfolding read_terminated
read_terminated_lem packet offset terminator k e h z =
    let fits : ltb (length packet) (terminator + 1 + k) ≡ false = ground arith in
    let gap : terminator + 1 + k - (terminator + 1) ≡ k = omega arith in rw (e, fits, gap, z) refl

read_padded_string_lem :
    (packet : Bytes) (offset n : ℕ)
    → offset < length packet
    → index_nul (drop offset packet) 0 ≡ some n
    → read_padded_string packet offset ≡ read_terminated packet offset (n + offset)
unfolding read_padded_string
read_padded_string_lem packet offset n h e =
    let inside : leb (length packet) offset ≡ false = ground arith in rw (inside, e) refl

-- A string between what was written before and behind it.
read_padded_string-middle :
    (pre value rest : Bytes) (k : ℕ)
    → contains_nul value ≡ false
    → align 3 (length value + length pre + 1) ≡ length value + length pre + 1 + k
    → read_padded_string (pre ++ (value ++ (0 ∷ (replicate k 0 ++ rest)))) (length pre)
      ≡ ok (value, length value + length pre + 1 + k)
read_padded_string-middle pre value rest k clean e =
    let tail = 0 ∷ (replicate k 0 ++ rest) in
    let packet = pre ++ (value ++ tail) in
    let long : length value + length pre + 1 + k ≤ length packet = omega (
      arith,
      length-append pre (value ++ tail),
      length-append value tail,
      length-append (replicate k 0) rest,
      length-replicate {A = ℕ} k 0,
    ) in
    let found : index_nul (drop (length pre) packet) 0 ≡ some (length value) =
      rw (drop-append pre (value ++ tail)) (
        index_nul-append value (replicate k 0 ++ rest) 0 clean
        ∙ ap some {x = length value + 0} {y = length value} (omega arith)) in
    let regroup : ((pre ++ value) ++ (0 ∷ [])) ++ (replicate k 0 ++ rest) ≡ packet =
      append_assoc (pre ++ value) (0 ∷ []) (replicate k 0 ++ rest) ∙ append_assoc pre value tail in
    let where_zeros : length ((pre ++ value) ++ (0 ∷ [])) ≡ length value + length pre + 1 =
      omega (arith, length-append (pre ++ value) (0 ∷ []), length-append pre value) in
    let blank : all_zero packet (length value + length pre + 1) k ≡ true =
      subst (λ n. all_zero packet n k ≡ true) where_zeros
        (subst (λ t. all_zero t (length ((pre ++ value) ++ (0 ∷ []))) k ≡ true) regroup
          (all_zero-replicate ((pre ++ value) ++ (0 ∷ [])) rest k)) in
    let text : take (length value + length pre - length pre) (drop (length pre) packet) ≡ value =
      let n : length value + length pre - length pre ≡ length value = omega arith in
      rw (n, drop-append pre (value ++ tail)) (take-append value tail) in
    read_padded_string_lem packet (length pre) (length value) (omega arith) found
    ∙ read_terminated_lem packet (length pre) (length value + length pre) k e long blank
    ∙ ap (λ t. ok (t, length value + length pre + 1 + k)) text

-- A string that is written behind `pre` is read there, whatever follows, up to where its padding ends.
pub read-write_padded_string :
    (pre value rest : Bytes)
    → contains_nul value ≡ false
    → read_padded_string (write_padded_string pre value ++ rest) (length pre)
      ≡ ok (value, length (write_padded_string pre value))
unfolding write_padded_string
read-write_padded_string pre value rest clean =
    let out = (pre ++ value) ++ (0 ∷ []) in
    let k = align 3 (length out) - length out in
    let size : length out ≡ length value + length pre + 1 =
      omega (arith, length-append (pre ++ value) (0 ∷ []), length-append pre value) in
    let shape : pad 3 out ++ rest ≡ pre ++ (value ++ (0 ∷ (replicate k 0 ++ rest))) =
      ap (λ t. t ++ rest) (pad_lem 3 out)
      ∙ append_assoc out (replicate k 0) rest
      ∙ append_assoc (pre ++ value) (0 ∷ []) _
      ∙ append_assoc pre value _ in
    let end : align 3 (length value + length pre + 1) ≡ length value + length pre + 1 + k =
      subst (λ n. align 3 n ≡ n + k) size (omega (arith, align-ge 3 (length out))) in
    let finish : length value + length pre + 1 + k ≡ length (pad 3 out) =
      omega (arith, length-pad 3 out, align-ge 3 (length out)) in
    rw shape (read_padded_string-middle pre value rest k clean end ∙ ap (λ n. ok (value, n)) finish)

pub write_padded_string-extends :
    (out value : Bytes) → (tail : Bytes) × (write_padded_string out value ≡ out ++ tail)
unfolding write_padded_string
write_padded_string-extends out value = (
  (value ++ (0 ∷ [])) ++ zeros 3 ((out ++ value) ++ (0 ∷ [])),
  pad_lem 3 ((out ++ value) ++ (0 ∷ []))
      ∙ ap (λ t. t ++ zeros 3 ((out ++ value) ++ (0 ∷ []))) (append_assoc out value (0 ∷ []))
      ∙ append_assoc out (value ++ (0 ∷ [])) _,
)

-- A padded string ends at a multiple of four, and takes four bytes or more.
pub length-write_padded_string : (value : Bytes) → 4 ≤ length (write_padded_string [] value)
unfolding write_padded_string
length-write_padded_string value = omega (
  arith,
  length-pad 3 (value ++ (0 ∷ [])),
  align-bounds (length (value ++ (0 ∷ []))),
  length-append value (0 ∷ []),
)

pub write_padded_string-begins :
    (value : Bytes) → (tail : Bytes) × (write_padded_string [] value ≡ value ++ tail)
unfolding write_padded_string
write_padded_string-begins value = (
  (0 ∷ []) ++ zeros 3 (value ++ (0 ∷ [])),
  pad_lem 3 (value ++ (0 ∷ [])) ∙ append_assoc value (0 ∷ []) _,
)
