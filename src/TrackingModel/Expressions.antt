-- ===== src/TrackingModel/Expressions.antt =====
-- pkg/trackingmodel/expression.go and mask.go: a value for each expression, and which are valid.
use vrcft_go.Base.{
  ℕ, ◌-◌, ◌/◌, ◌%◌, ◌^◌, bit_and, bit_or, Bool, true, false, not, ◌&&◌, ◌||◌, List, [], ◌∷◌, ltb,
  leb, ◌==◌, if◌then◌else◌, has_bits, and_not, set, get_or, replicate,
}
use vrcft_go.Floats.{Float32, eq32, zero32}

-- `ExpressionID` counts from ExpressionEyeSquintRight = 0 up to `ExpressionCount`.
abbrev pub expression_count : ℕ
expression_count = 76

-- `Words [2]uint64`.
pub record ExpressionMask : Type 0 where
  pub word_0 : ℕ
  pub word_1 : ℕ

abbrev pub no_expressions : ExpressionMask
no_expressions = record { word_0 = 0; word_1 = 0 }

abbrev pub word : ExpressionMask → ℕ → ℕ
word m i = if i == 0 then m.word_0 else m.word_1

abbrev pub set_word : ExpressionMask → ℕ → ℕ → ExpressionMask
set_word m i w = if i == 0 then record m { word_0 = w } else record m { word_1 = w }

unfoldable pub mask_has : ExpressionMask → ℕ → Bool
mask_has m id = ltb id expression_count && has_bits (word m (id / 64)) (2 ^ (id % 64))

-- The new mask, and whether `id` is an expression.
unfoldable pub mask_set : ExpressionMask → ℕ → ExpressionMask × Bool
mask_set m id =
    if leb expression_count id
    then (m, false)
    else (set_word m (id / 64) (bit_or (word m (id / 64)) (2 ^ (id % 64))), true)

unfoldable pub mask_of : List ℕ → ExpressionMask → ExpressionMask
mask_of [] m = m
mask_of (id ∷ ids) m = mask_of ids (mask_set m id).0

unfoldable pub mask_is_zero : ExpressionMask → Bool
mask_is_zero m = m.word_0 == 0 && m.word_1 == 0

unfoldable pub mask_intersect : ExpressionMask → ExpressionMask → ExpressionMask
mask_intersect m other = record {
  word_0 = bit_and m.word_0 other.word_0;
  word_1 = bit_and m.word_1 other.word_1;
}

-- ExpressionCount % 64 = 12 bits of the last word are in use.
unfoldable pub mask_normalize : ExpressionMask → ExpressionMask
mask_normalize m = record m { word_1 = bit_and m.word_1 (2 ^ (expression_count % 64) - 1) }

unfoldable pub mask_eq : ExpressionMask → ExpressionMask → Bool
mask_eq a b = a.word_0 == b.word_0 && a.word_1 == b.word_1

-- `values` has ExpressionCount entries.
pub record ExpressionSet : Type 0 where
  pub values : List Float32
  pub valid : ExpressionMask

abbrev pub empty_expressions : ExpressionSet
empty_expressions = record { values = replicate expression_count zero32; valid = no_expressions }

unfoldable pub expressions_set : ExpressionSet → ℕ → Float32 → ExpressionSet × Bool
expressions_set s id value =
    if leb expression_count id
    then (s, false)
    else (record { values = set s.values id value; valid = (mask_set s.valid id).0 }, true)

unfoldable pub expressions_get : ExpressionSet → ℕ → Float32 × Bool
expressions_get s id =
    if leb expression_count id || not (mask_has s.valid id)
    then (zero32, false)
    else (get_or s.values id zero32, true)

unfoldable pub expressions_clear : ExpressionSet → ℕ → ExpressionSet × Bool
expressions_clear s id = if leb expression_count id then (s, false) else (
  record {
    values = set s.values id zero32;
    valid = set_word s.valid (id / 64) (and_not (word s.valid (id / 64)) (2 ^ (id % 64)));
  },
  true,
)

-- Go's `==` on the structs: floats by their own equality, so that a NaN differs from itself.
unfoldable pub values_eq : List Float32 → List Float32 → Bool
values_eq [] [] = true
values_eq [] (b ∷ bs) = false
values_eq (a ∷ as') [] = false
values_eq (a ∷ as') (b ∷ bs) = eq32 a b && values_eq as' bs

unfoldable pub expressions_eq : ExpressionSet → ExpressionSet → Bool
expressions_eq a b = values_eq a.values b.values && mask_eq a.valid b.valid
