-- ===== src/TrackingModel/Masks.antt =====
-- Laws of the sets of expressions, and of the values that are read and written through them.
use vrcft_go.Base.{
  ℕ, ◌/◌, ◌%◌, ◌^◌, ◌<◌, true, false, not, ◌&&◌, ◌||◌, ◌==◌, if◌then◌else◌, ◌≡◌, arith, has_bits,
  has_bits-bit_or, has_bits-bit_and, has_bits-and_not, bit_at-bit_and, bit_at-ones, has_bits-pow,
  eq_of_bits, length, and_not, bit_at-pow, get_or-set_self, get_or-set_ne, bit_and,
}
use vrcft_go.TrackingModel.Expressions.{
  ExpressionMask, ExpressionSet, expression_count, word, set_word, mask_has, mask_set,
  mask_intersect, mask_normalize, expressions_set, expressions_get, expressions_clear,
}

-- Two expressions share a bit only if they are one.
same_bit : (id j : ℕ) → (id / 64 == j / 64 && id % 64 == j % 64) ≡ (id == j)
same_bit id j = ground arith

-- `Set` adds one expression to a mask.
pub mask_has-mask_set :
    (m : ExpressionMask) (id j : ℕ)
    → id < expression_count
    → j < expression_count
    → mask_has (mask_set m id).0 j ≡ (id == j || mask_has m j)
unfolding mask_has mask_set
mask_has-mask_set m id j p q = ground (
  arith,
  has_bits-bit_or (j % 64) m.word_0 (id % 64),
  has_bits-bit_or (j % 64) m.word_1 (id % 64),
)

pub mask_has-intersect :
    (a b : ExpressionMask) (j : ℕ)
    → mask_has (mask_intersect a b) j ≡ (mask_has a j && mask_has b j)
unfolding mask_has mask_intersect
mask_has-intersect a b j = ground (
  arith,
  has_bits-bit_and (j % 64) a.word_0 b.word_0,
  has_bits-bit_and (j % 64) a.word_1 b.word_1,
)

-- The bit of an expression in the second word is one of the twelve in use.
tail_has :
    (w j : ℕ) → j % 64 < 12 → has_bits (bit_and w 4095) (2 ^ (j % 64)) ≡ has_bits w (2 ^ (j % 64))
tail_has w j h =
    ground
      (arith, has_bits-bit_and (j % 64) w 4095, has_bits-pow (j % 64) 4095, bit_at-ones 12 (j % 64))

-- `Normalize` keeps every expression.
pub mask_has-normalize : (m : ExpressionMask) (j : ℕ) → mask_has (mask_normalize m) j ≡ mask_has m j
unfolding mask_has mask_normalize
mask_has-normalize m j = ground (arith, tail_has m.word_1 j)

tail_twice : (w : ℕ) → bit_and (bit_and w 4095) 4095 ≡ bit_and w 4095
tail_twice w =
    eq_of_bits _ _
      λ k. ground (arith, bit_at-bit_and k (bit_and w 4095) 4095, bit_at-bit_and k w 4095)

pub mask_normalize_idem :
    (m : ExpressionMask) → mask_normalize (mask_normalize m) ≡ mask_normalize m
unfolding mask_normalize
mask_normalize_idem m = ground (arith, tail_twice m.word_1)

abbrev pub IsFull : ExpressionSet → Type 0
IsFull s = length s.values ≡ expression_count

-- `Get` reads what `Set` stored at an expression, and what was there at the others.
pub expressions_get-set :
    (s : ExpressionSet) (id j : ℕ) (v : ℕ)
    → IsFull s
    → id < expression_count
    → expressions_get (expressions_set s id v).0 j
      ≡ (if id == j then (v, true) else expressions_get s j)
unfolding expressions_get expressions_set
expressions_get-set s id j v full p = ground (
  arith,
  mask_has-mask_set s.valid id j p,
  get_or-set_self s.values id v 0,
  get_or-set_ne s.values id j v 0,
)

cleared_has :
    (m : ExpressionMask) (id j : ℕ)
    → id < expression_count
    → j < expression_count
    → mask_has (set_word m (id / 64) (and_not (word m (id / 64)) (2 ^ (id % 64)))) j
      ≡ (not (id == j) && mask_has m j)
unfolding mask_has
cleared_has m id j p q = ground (
  arith,
  has_bits-and_not (j % 64) m.word_0 (2 ^ (id % 64)),
  has_bits-and_not (j % 64) m.word_1 (2 ^ (id % 64)),
  has_bits-pow (j % 64) (2 ^ (id % 64)),
  bit_at-pow (id % 64) (j % 64),
)

pub expressions_get-clear :
    (s : ExpressionSet) (id j : ℕ)
    → id < expression_count
    → expressions_get (expressions_clear s id).0 j
      ≡ (if id == j then (0, false) else expressions_get s j)
unfolding expressions_get expressions_clear
expressions_get-clear s id j p =
    ground (arith, cleared_has s.valid id j p, get_or-set_ne s.values id j 0 0)

-- No mask has what is no expression.
pub mask_has_bound : (m : ExpressionMask) (j : ℕ) → mask_has m j ≡ true → j < expression_count
unfolding mask_has
mask_has_bound m j h = ground arith
