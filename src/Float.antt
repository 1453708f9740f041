-- ===== src/Float.antt =====
-- Go's float64, which the library has no model of: a type with the operations that the program
-- uses, and what IEEE 754 says of them. `whole` is the model on whole numbers.
use waymon.Common.{◌+◌, ◌*◌, ◌≡◌, refl, Bool, false, arith}
use waymon.Common.Int.{ℤ, pos, pos_part, neg_part, sub_ℕ, ◌+ℤ◌, ◌-ℤ◌, ltb_ℤ, eqb_ℤ, half_ℤ, InInt32}

pub record Float64 : Type 1 where
  pub Value : Type 0
  pub zero : Value
  pub one : Value
  pub add : Value → Value → Value
  pub sub : Value → Value → Value
  pub mul : Value → Value → Value
  pub half : Value → Value  -- `/ 2`
  pub ltb : Value → Value → Bool  -- `<`
  pub eqb : Value → Value → Bool  -- `==`
  pub of_int : ℤ → Value  -- `float64(i)` of an int32

-- Comparison is irreflexive (NaN included), and exact on converted int32 values.
pub record IsIeee (F : Float64) : Type 0 where
  pub ltb_irrefl : (v : F.Value) → F.ltb v v ≡ false
  pub ltb-of_int : (a b : ℤ) → InInt32 a → InInt32 b → F.ltb (F.of_int a) (F.of_int b) ≡ ltb_ℤ a b

-- The product of two integers.
abbrev pub mul_ℤ : ℤ → ℤ → ℤ
mul_ℤ a b =
    sub_ℕ (pos_part a * pos_part b + neg_part a * neg_part b)
      (pos_part a * neg_part b + neg_part a * pos_part b)

-- The floats that are whole numbers. A half is rounded, which no witness relies on.
abbrev pub whole : Float64
whole = record {
  Value = ℤ;
  zero = pos 0;
  one = pos 1;
  add = ◌+ℤ◌;
  sub = ◌-ℤ◌;
  mul = mul_ℤ;
  half = half_ℤ;
  ltb = ltb_ℤ;
  eqb = eqb_ℤ;
  of_int = λ z. z;
}

pub whole-IsIeee : IsIeee whole
whole-IsIeee = record { ltb_irrefl = λ v. ground arith; ltb-of_int = λ a b ha hb. refl }
