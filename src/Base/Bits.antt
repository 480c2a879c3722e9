-- ===== src/Base/Bits.antt =====
-- Bit sets in a machine word: `w & m != 0`, `w | m` and `a &^ b`, digit by digit.
use Prim.Native.Nat.{
  ℕ, zero, suc, ◌+◌, ◌-◌, ◌*◌, ◌/◌, ◌%◌, ◌^◌, ◌≤◌, min, max, bit_and, bit_or, digits,
  bit_and-bitwise, bit_or-bitwise,
}
use mathlib.Core.Path.{◌≡◌, refl, ap, ◌∙◌}
use mathlib.Core.Bool.{Bool, true, false, not, ◌&&◌, ◌||◌}
use native.Mathlib.Nat.{pow-suc, one-le-pow}
use native.Mathlib.Omega.{arith}
use vrcft_go.Base.Tests.{◌==◌, if◌then◌else◌, Bool-cases, ltb, inl, inr}

-- `w & m != 0`.
abbrev pub has_bits : ℕ → ℕ → Bool
has_bits w m = not (bit_and w m == 0)

-- `a &^ b`: the bits of `a` that `b` has are taken off.
unfoldable pub and_not : ℕ → ℕ → ℕ
and_not a b = a - bit_and a b

-- The binary digit of weight `2 ^ k`.
unfoldable pub bit_at : ℕ → ℕ → Bool
bit_at w zero = w % 2 == 1
bit_at w (suc k) = bit_at (w / 2) k

-- More fuel than digits changes nothing.
module _ (z : ℕ → ℕ) (f : ℕ → ℕ → ℕ) where
  digits-fuel : (a n m b : ℕ) → a ≤ n → a ≤ m → digits z f n a b ≡ digits z f m a b
  digits-fuel a zero zero b p q = refl
  digits-fuel zero zero (suc m) b p q = refl
  digits-fuel (suc a) zero (suc m) b p q = absurd (omega arith)
  digits-fuel zero (suc n) zero b p q = refl
  digits-fuel (suc a) (suc n) zero b p q = absurd (omega arith)
  digits-fuel zero (suc n) (suc m) b p q = refl
  digits-fuel (suc a) (suc n) (suc m) b p q =
      rw (digits-fuel (suc a / 2) n m (b / 2) (omega arith) (omega arith))

pub bit_and_digit : (a b : ℕ) → bit_and a b ≡ bit_and (a / 2) (b / 2) * 2 + min (a % 2) (b % 2)
bit_and_digit zero b = simp bit_and-bitwise (omega arith)
bit_and_digit (suc a) b =
    let same =
      digits-fuel (λ y. 0) min (suc a / 2) a (suc a / 2) (b / 2) (omega arith) (omega arith) in
    simp bit_and-bitwise (omega (arith, same))

pub bit_or_digit : (a b : ℕ) → bit_or a b ≡ bit_or (a / 2) (b / 2) * 2 + max (a % 2) (b % 2)
bit_or_digit zero b = simp bit_or-bitwise (omega arith)
bit_or_digit (suc a) b =
    let same =
      digits-fuel (λ y. y) max (suc a / 2) a (suc a / 2) (b / 2) (omega arith) (omega arith) in
    simp bit_or-bitwise (omega (arith, same))

half-bit_and : (a b : ℕ) → bit_and a b / 2 ≡ bit_and (a / 2) (b / 2)
half-bit_and a b = omega (arith, bit_and_digit a b)

half-bit_or : (a b : ℕ) → bit_or a b / 2 ≡ bit_or (a / 2) (b / 2)
half-bit_or a b = omega (arith, bit_or_digit a b)

pub bit_at-bit_and : (k a b : ℕ) → bit_at (bit_and a b) k ≡ (bit_at a k && bit_at b k)
unfolding bit_at
bit_at-bit_and zero a b = ground (arith, bit_and_digit a b)
bit_at-bit_and (suc k) a b = rw (half-bit_and a b) (bit_at-bit_and k (a / 2) (b / 2))

pub bit_at-bit_or : (k a b : ℕ) → bit_at (bit_or a b) k ≡ (bit_at a k || bit_at b k)
unfolding bit_at
bit_at-bit_or zero a b = ground (arith, bit_or_digit a b)
bit_at-bit_or (suc k) a b = rw (half-bit_or a b) (bit_at-bit_or k (a / 2) (b / 2))

pub zero-bit_and : (b : ℕ) → bit_and 0 b ≡ 0
zero-bit_and b = bit_and-bitwise 0 b

bit_and-le_fuel : (n a b : ℕ) → a ≤ n → bit_and a b ≤ a
bit_and-le_fuel zero zero b h = omega (arith, zero-bit_and b)
bit_and-le_fuel zero (suc a) b h = absurd (omega arith)
bit_and-le_fuel (suc n) zero b h = omega (arith, zero-bit_and b)
bit_and-le_fuel (suc n) (suc a) b h =
    omega (arith, bit_and_digit (suc a) b, bit_and-le_fuel n (suc a / 2) (b / 2) (omega arith))

pub bit_and-le : (a b : ℕ) → bit_and a b ≤ a
bit_and-le a b = bit_and-le_fuel a a b (omega arith)

half-and_not : (a b : ℕ) → and_not a b / 2 ≡ and_not (a / 2) (b / 2)
unfolding and_not
half-and_not a b = omega (arith, bit_and_digit a b, bit_and-le (a / 2) (b / 2))

pub bit_at-and_not : (k a b : ℕ) → bit_at (and_not a b) k ≡ (bit_at a k && not (bit_at b k))
unfolding bit_at
bit_at-and_not zero a b =
    unfold and_not in ground (arith, bit_and_digit a b, bit_and-le (a / 2) (b / 2))
bit_at-and_not (suc k) a b = rw (half-and_not a b) (bit_at-and_not k (a / 2) (b / 2))

bit_at-zero : (k : ℕ) → bit_at 0 k ≡ false
unfolding bit_at
bit_at-zero zero = refl
bit_at-zero (suc k) = bit_at-zero k

half-pow : (k : ℕ) → 2 ^ suc k / 2 ≡ 2 ^ k
half-pow k = omega (arith, pow-suc 2 k)

pub bit_at-pow : (k j : ℕ) → bit_at (2 ^ k) j ≡ (k == j)
unfolding bit_at
bit_at-pow zero zero = refl
bit_at-pow zero (suc j) = bit_at-zero j ∙ ground arith
bit_at-pow (suc k) zero = ground (arith, pow-suc 2 k)
bit_at-pow (suc k) (suc j) = rw (half-pow k, bit_at-pow k j) (ground arith)

eq_of_bits_fuel : (n a b : ℕ) → a ≤ n → b ≤ n → ((k : ℕ) → bit_at a k ≡ bit_at b k) → a ≡ b
unfolding bit_at
eq_of_bits_fuel zero a b p q h = omega arith
eq_of_bits_fuel (suc n) a b p q h =
    let halves = eq_of_bits_fuel n (a / 2) (b / 2) (omega arith) (omega arith) (λ k. h (suc k)) in
    ground (arith, halves, h 0)

-- A word is its bits.
pub eq_of_bits : (a b : ℕ) → ((k : ℕ) → bit_at a k ≡ bit_at b k) → a ≡ b
eq_of_bits a b = eq_of_bits_fuel (max a b) a b (omega arith) (omega arith)

-- A mask of one bit reads that bit.
pub bit_and-pow : (k w : ℕ) → bit_and w (2 ^ k) ≡ (if bit_at w k then 2 ^ k else 0)
bit_and-pow k w = elim (Bool-cases (bit_at w k)) [
  | inl on ↦ rw on (eq_of_bits _ _ λ j. rw (bit_at-bit_and j w (2 ^ k), bit_at-pow k j) (kept j on))
  | inr off ↦ rw off (
      eq_of_bits _ _
        λ j. rw (bit_at-bit_and j w (2 ^ k), bit_at-pow k j, bit_at-zero j) (gone j off))
]
  where
    at_same : (j : ℕ) → k ≡ j → bit_at w k ≡ bit_at w j
    at_same j e = ap (bit_at w) e

    kept : (j : ℕ) → bit_at w k ≡ true → (bit_at w j && (k == j)) ≡ (k == j)
    kept j on = ground (arith, at_same j)

    gone : (j : ℕ) → bit_at w k ≡ false → (bit_at w j && (k == j)) ≡ false
    gone j off = ground (arith, at_same j)

pub has_bits-pow : (k w : ℕ) → has_bits w (2 ^ k) ≡ bit_at w k
has_bits-pow k w = ground (arith, bit_and-pow k w, one-le-pow k 2)

-- Laws for `w | 1 << j`, `a & b` and `a &^ b` under such a test.
pub has_bits-bit_or :
    (k w j : ℕ) → has_bits (bit_or w (2 ^ j)) (2 ^ k) ≡ (has_bits w (2 ^ k) || (j == k))
has_bits-bit_or k w j =
    rw (
      has_bits-pow k (bit_or w (2 ^ j)),
      has_bits-pow k w,
      bit_at-bit_or k w (2 ^ j),
      bit_at-pow j k,
    )

pub has_bits-bit_and :
    (k a b : ℕ) → has_bits (bit_and a b) (2 ^ k) ≡ (has_bits a (2 ^ k) && has_bits b (2 ^ k))
has_bits-bit_and k a b =
    rw (has_bits-pow k (bit_and a b), has_bits-pow k a, has_bits-pow k b, bit_at-bit_and k a b)

pub has_bits-and_not :
    (k a b : ℕ) → has_bits (and_not a b) (2 ^ k) ≡ (has_bits a (2 ^ k) && not (has_bits b (2 ^ k)))
has_bits-and_not k a b =
    rw (has_bits-pow k (and_not a b), has_bits-pow k a, has_bits-pow k b, bit_at-and_not k a b)

half_ones : (n : ℕ) → (2 ^ suc n - 1) / 2 ≡ 2 ^ n - 1
half_ones n = omega (arith, pow-suc 2 n, one-le-pow n 2)

-- The mask `1<<n - 1` has the bits below n.
pub bit_at-ones : (n k : ℕ) → bit_at (2 ^ n - 1) k ≡ ltb k n
unfolding bit_at
bit_at-ones zero k = bit_at-zero k ∙ ground arith
bit_at-ones (suc n) zero = ground (arith, pow-suc 2 n, one-le-pow n 2)
bit_at-ones (suc n) (suc k) = rw (half_ones n, bit_at-ones n k) (ground arith)

-- Masking twice is masking once.
pub bit_and_absorb : (a b : ℕ) → bit_and (bit_and a b) b ≡ bit_and a b
bit_and_absorb a b =
    eq_of_bits _ _ λ k. ground (arith, bit_at-bit_and k (bit_and a b) b, bit_at-bit_and k a b)

pub bit_and_right_comm : (a b c : ℕ) → bit_and (bit_and a b) c ≡ bit_and (bit_and a c) b
bit_and_right_comm a b c = eq_of_bits _ _ λ k. ground (
  arith,
  bit_at-bit_and k (bit_and a b) c,
  bit_at-bit_and k (bit_and a c) b,
  bit_at-bit_and k a b,
  bit_at-bit_and k a c,
)

-- Nothing is left beside a mask of what the mask has cut.
pub and_not-bit_and : (a b c : ℕ) → bit_and c b ≡ c → and_not (bit_and a c) b ≡ 0
and_not-bit_and a b c h = eq_of_bits _ _ λ k. ground (
  arith,
  bit_at-and_not k (bit_and a c) b,
  bit_at-bit_and k a c,
  bit_at-bit_and k c b,
  ap (λ w. bit_at w k) h,
  bit_at-zero k,
)

-- A part of a word has no bit that the word lacks.
pub has_bits-part : (v w m : ℕ) → has_bits (bit_and v w) m ≡ true → has_bits v m ≡ true
has_bits-part v w m h = elim (Bool-cases (has_bits v m)) [
  | inl on ↦ on
  | inr off ↦ ground (arith, gone (ground arith))
]
  where
    gone : bit_and v m ≡ 0 → bit_and (bit_and v w) m ≡ 0
    gone e = eq_of_bits _ _ λ k. ground (
      arith,
      bit_at-bit_and k (bit_and v w) m,
      bit_at-bit_and k v w,
      bit_at-bit_and k v m,
      ap (λ x. bit_at x k) e,
      bit_at-zero k,
    )
