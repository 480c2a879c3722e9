-- ===== src/TrackingModel/Canonical.antt =====
-- What `Canonicalize` keeps and clears (pkg/trackingmodel/frame.go).
use vrcft_go.Base.{
  ℕ, zero, suc, ◌+◌, ◌<◌, Bool, not, ◌&&◌, ◌∙◌, true, false, if◌then◌else◌, List, [], ◌∷◌, ◌≡◌,
  refl, ap, arith, ok, ◌⊎◌, length, get_or, has_bits, zero-bit_and, get_or-replicate, ◌^◌, ◌%◌,
}
use native.Mathlib.Nat.{add-zero, add-suc, suc-add}
use vrcft_go.Floats.{finite32}
use vrcft_go.TrackingModel.Expressions.{
  ExpressionMask, ExpressionSet, expression_count, mask_has, mask_is_zero, mask_eq, mask_normalize,
  expressions_get, no_expressions, empty_expressions,
}
use vrcft_go.TrackingModel.Frame.{
  EyeSample, Vec2, zero_vec2, TrackingFrame, capability_eye, capability_expression, eye_checks,
  check_eye_rows, validate_finite_eye, validate_values, validate, zero_invalid_eye_values,
  zero_invalid_values, canonical_eye, canonical_expressions, canonicalize, empty_eye,
}

pub zero_invalid_values_idem :
    (m : ExpressionMask) (id : ℕ) (vs : List ℕ)
    → zero_invalid_values m id (zero_invalid_values m id vs) ≡ zero_invalid_values m id vs
unfolding zero_invalid_values
zero_invalid_values_idem m id [] = refl
zero_invalid_values_idem m id (v ∷ vs) = ground (arith, zero_invalid_values_idem m (suc id) vs)

length-zero_invalid_values :
    (m : ExpressionMask) (id : ℕ) (vs : List ℕ) → length (zero_invalid_values m id vs) ≡ length vs
unfolding zero_invalid_values
length-zero_invalid_values m id [] = refl
length-zero_invalid_values m id (v ∷ vs) = ap suc (length-zero_invalid_values m (suc id) vs)

pub validate_values-zero_invalid :
    (m : ExpressionMask) (id : ℕ) (vs : List ℕ)
    → validate_values m id (zero_invalid_values m id vs) ≡ validate_values m id vs
unfolding validate_values zero_invalid_values
validate_values-zero_invalid m id [] = refl
validate_values-zero_invalid m id (v ∷ vs) =
    ground (arith, validate_values-zero_invalid m (suc id) vs)

get_or-zero_invalid_values :
    (m : ExpressionMask) (id : ℕ) (vs : List ℕ) (i : ℕ)
    → get_or (zero_invalid_values m id vs) i 0 ≡ (if mask_has m (id + i) then get_or vs i 0 else 0)
unfolding zero_invalid_values
get_or-zero_invalid_values m id [] i = ground arith
get_or-zero_invalid_values m id (v ∷ vs) zero = rw (add-zero id) refl
get_or-zero_invalid_values m id (v ∷ vs) (suc i) =
    rw (add-suc id i, ← suc-add id i) (get_or-zero_invalid_values m (suc id) vs i)

-- The table of checks with each value cleared whose bit is not set.
clear_rows : ℕ → List (ℕ × ℕ) → List (ℕ × ℕ)
clear_rows valid [] = []
clear_rows valid ((bit, value) ∷ rows) =
    (bit, if has_bits valid bit then value else 0) ∷ clear_rows valid rows

cleared_test :
    (set : Bool) (value : ℕ)
    → (set && not (finite32 (if set then value else 0))) ≡ (set && not (finite32 value))
cleared_test true value = refl
cleared_test false value = refl

check_eye_rows-clear :
    (valid row : ℕ) (rows : List (ℕ × ℕ))
    → check_eye_rows valid row (clear_rows valid rows) ≡ check_eye_rows valid row rows
unfolding check_eye_rows clear_rows
check_eye_rows-clear valid row [] = refl
check_eye_rows-clear valid row ((bit, value) ∷ rows) =
    rw (cleared_test (has_bits valid bit) value, check_eye_rows-clear valid (suc row) rows) refl

gaze_x : (b : Bool) (v : Vec2) → (if b then v else zero_vec2).x ≡ (if b then v.x else 0)
gaze_x true v = refl
gaze_x false v = refl

gaze_y : (b : Bool) (v : Vec2) → (if b then v else zero_vec2).y ≡ (if b then v.y else 0)
gaze_y true v = refl
gaze_y false v = refl

eye_checks-zero_invalid :
    (e : EyeSample) → eye_checks (zero_invalid_eye_values e) ≡ clear_rows e.valid (eye_checks e)
unfolding zero_invalid_eye_values clear_rows
eye_checks-zero_invalid e =
    rw
      (
        gaze_x (has_bits e.valid 1) e.left_gaze,
        gaze_y (has_bits e.valid 1) e.left_gaze,
        gaze_x (has_bits e.valid 2) e.right_gaze,
        gaze_y (has_bits e.valid 2) e.right_gaze,
      )
      refl

pub validate_finite_eye-zero_invalid :
    (e : EyeSample) → validate_finite_eye (zero_invalid_eye_values e) ≡ validate_finite_eye e
unfolding validate_finite_eye zero_invalid_eye_values
validate_finite_eye-zero_invalid e =
    ap (check_eye_rows e.valid 0) (eye_checks-zero_invalid e)
    ∙ check_eye_rows-clear e.valid 0 (eye_checks e)

-- The frame that `Canonicalize` returns where the checks pass.
abbrev canonical : TrackingFrame → TrackingFrame
canonical f = record f { eye = canonical_eye f; expressions = canonical_expressions f }

pub canonicalize_inv :
    (f g : TrackingFrame) → canonicalize f ≡ ok g → (validate f ≡ ok tt) × (g ≡ canonical f)
unfolding canonicalize
canonicalize_inv f g h = ground arith

pub empty_values : validate_values no_expressions 0 empty_expressions.values ≡ ok tt
unfolding validate_values mask_has finite32
empty_values = refl

pub empty_eye_finite : validate_finite_eye empty_eye ≡ ok tt
unfolding validate_finite_eye check_eye_rows
empty_eye_finite = refl

-- The checks on a frame whose groups are those of a checked frame, or empty where not capable.
validate_with :
    (f : TrackingFrame) (e : EyeSample) (x : ExpressionSet)
    → validate f ≡ ok tt
    → e.valid ≡ (if has_bits f.capabilities capability_eye then f.eye.valid else 0)
    → x.valid ≡ (
        if has_bits f.capabilities capability_expression
        then f.expressions.valid
        else no_expressions)
    → validate_finite_eye e ≡ ok tt
    → validate_values x.valid 0 x.values ≡ ok tt
    → validate (record f { eye = e; expressions = x }) ≡ ok tt
unfolding validate mask_eq mask_normalize mask_is_zero
validate_with f e x h he hx fe fx = ground arith

pub validate_inv :
    (f : TrackingFrame)
    → validate f ≡ ok tt
    → (validate_finite_eye f.eye ≡ ok tt)
      × (validate_values f.expressions.valid 0 f.expressions.values ≡ ok tt)
unfolding validate
validate_inv f h = ground arith

canonical_eye_finite :
    (f : TrackingFrame) → validate f ≡ ok tt → validate_finite_eye (canonical_eye f) ≡ ok tt
unfolding canonical_eye
canonical_eye_finite f h =
    ground (arith, (validate_inv f h).0, validate_finite_eye-zero_invalid f.eye, empty_eye_finite)

canonical_values_finite :
    (f : TrackingFrame)
    → validate f ≡ ok tt
    → validate_values (canonical_expressions f).valid 0 (canonical_expressions f).values ≡ ok tt
unfolding canonical_expressions
canonical_values_finite f h = ground (
  arith,
  (validate_inv f h).1,
  validate_values-zero_invalid f.expressions.valid 0 f.expressions.values,
  empty_values,
)

canonical_eye_valid :
    (f : TrackingFrame)
    → (canonical_eye f).valid ≡ (if has_bits f.capabilities capability_eye then f.eye.valid else 0)
unfolding canonical_eye
canonical_eye_valid f = ground arith

canonical_expressions_valid :
    (f : TrackingFrame)
    → (canonical_expressions f).valid ≡ (
        if has_bits f.capabilities capability_expression
        then f.expressions.valid
        else no_expressions)
unfolding canonical_expressions
canonical_expressions_valid f = ground arith

-- The canonical form of a checked frame passes the checks.
pub validate-canonical : (f : TrackingFrame) → validate f ≡ ok tt → validate (canonical f) ≡ ok tt
validate-canonical f h =
    validate_with f (canonical_eye f) (canonical_expressions f) h (canonical_eye_valid f)
      (canonical_expressions_valid f) (canonical_eye_finite f h) (canonical_values_finite f h)

canonical_idem : (f : TrackingFrame) → canonical (canonical f) ≡ canonical f
unfolding canonical_eye canonical_expressions zero_invalid_eye_values
canonical_idem f =
    ground (arith, zero_invalid_values_idem f.expressions.valid 0 f.expressions.values)

-- Canonicalizing again changes nothing, and is never refused.
pub canonicalize_idem : (f g : TrackingFrame) → canonicalize f ≡ ok g → canonicalize g ≡ ok g
unfolding canonicalize
canonicalize_idem f g h =
    let (valid, e) = canonicalize_inv f g h in
    rw (e, validate-canonical f valid) (ap ok (canonical_idem f))

pub no_expressions_has : (j : ℕ) → mask_has no_expressions j ≡ false
unfolding mask_has
no_expressions_has j = ground (arith, zero-bit_and (2 ^ (j % 64)))

valid_expressions :
    (f : TrackingFrame)
    → validate f ≡ ok tt
    → (has_bits f.capabilities capability_expression ≡ true)
      ⊎ (f.expressions.valid ≡ no_expressions)
unfolding validate mask_is_zero
valid_expressions f h = ground arith

-- A value that the canonical frame stores for an expression is the one that `Get` reads in the frame
-- as it was sent, so what was not marked valid is 0.
pub canonicalize-get :
    (f g : TrackingFrame) (id : ℕ)
    → canonicalize f ≡ ok g
    → id < expression_count
    → (get_or g.expressions.values id 0 ≡ (expressions_get f.expressions id).0)
      × (expressions_get g.expressions id ≡ expressions_get f.expressions id)
unfolding canonical_expressions expressions_get
canonicalize-get f g id h p =
    let (valid, e) = canonicalize_inv f g h in
    rw e (
      ground (
        arith,
        valid_expressions f valid,
        no_expressions_has id,
        get_or-replicate {A = ℕ} expression_count id 0,
        get_or-zero_invalid_values f.expressions.valid 0 f.expressions.values id,
      ))
