-- ===== src/Float.antt =====
-- The numbers that the program computes with in binary floating point (Python's `float`).
use agente_tradin_ia_v2_mult.Common.{
  ℕ, ◌*◌, ◌/◌, ◌^◌, ◌≡◌, ◌⊎◌, Bool, true, not, Option, none, some, arith, if◌then◌else◌, List,
  foldl,
}
use agente_tradin_ia_v2_mult.Common.Int.{ℤ, pos, ◌+ℤ◌, ◌-ℤ◌, ◌*ℤ◌, ◌/ℤ◌, ltb_ℤ, leb_ℤ, eqb_ℤ}

-- The operations on floats that the code uses. Rounding, overflow and NaN are those of the type.
pub record Float (F : Type 0) : Type 0 where
  pub add : F → F → F
  pub sub : F → F → F
  pub mul : F → F → F
  pub quot : F → F → F
  pub lt : F → F → Bool
  pub le : F → F → Bool
  pub eq : F → F → Bool
  pub is_finite : F → Bool
  -- the float of an integer, and of the literal `m / 10 ^ k`
  pub of_ℕ : ℕ → F
  pub literal : ℕ → ℕ → F

module _ {F : Type 0} ⦃f : Float F⦄ where
  infixl 65 ◌⊕◌ ◌⊖◌
  infixl 70 ◌⊗◌
  abbrev pub ◌⊕◌ : F → F → F
  ◌⊕◌ = f.add

  abbrev pub ◌⊖◌ : F → F → F
  ◌⊖◌ = f.sub

  abbrev pub ◌⊗◌ : F → F → F
  ◌⊗◌ = f.mul

  abbrev pub nought : F
  nought = f.of_ℕ 0

  -- `x > 0`
  abbrev pub is_positive : F → Bool
  is_positive x = f.lt nought x

  -- `a / b`; `none` is `ZeroDivisionError`.
  abbrev pub div? : F → F → Option F
  div? a b = if f.eq b nought then none else some (f.quot a b)

  -- `abs`, and Python's `max` and `min`, which keep the first argument unless the second beats it.
  abbrev pub abs : F → F
  abs x = if f.lt x nought then nought ⊖ x else x

  abbrev pub max : F → F → F
  max a b = if f.lt a b then b else a

  abbrev pub min : F → F → F
  min a b = if f.lt b a then b else a

  -- `sum`, from the left and from 0.
  abbrev pub sum : List F → F
  sum = foldl ◌⊕◌ nought

-- NaN is the value that is not `<=` itself; the order is total away from it.
pub record IsOrdered (F : Type 0) ⦃f : Float F⦄ : Type 0 where
  pub refl_of_lt : (x y : F) → f.lt x y ≡ true → (f.le x x ≡ true) × (f.le y y ≡ true)
  pub le_trans : (x y z : F) → f.le x y ≡ true → f.le y z ≡ true → f.le x z ≡ true
  pub refl_of_le : (x y : F) → f.le x y ≡ true → (f.le x x ≡ true) × (f.le y y ≡ true)
  pub lt-eq-not-le : (x y : F) → f.le x x ≡ true → f.le y y ≡ true → f.lt x y ≡ not (f.le y x)
  pub le_total :
      (x y : F) → f.le x x ≡ true → f.le y y ≡ true → (f.le x y ≡ true) ⊎ (f.le y x ≡ true)

-- Fixed-point numbers with six decimal places: a type that meets the laws and computes.
abbrev pub Fixed : Type 0
Fixed = ℤ

abbrev pub scale : ℤ
scale = pos 1_000_000

instance abbrev pub fixed_float : Float Fixed
fixed_float = record {
  add = ◌+ℤ◌;
  sub = ◌-ℤ◌;
  mul = λ a b. ◌/ℤ◌ (a *ℤ b) scale;
  quot = λ a b. ◌/ℤ◌ (a *ℤ scale) b;
  lt = ltb_ℤ;
  le = leb_ℤ;
  eq = eqb_ℤ;
  is_finite = λ _. true;
  of_ℕ = λ n. pos (n * 1_000_000);
  literal = λ m k. pos (m * 1_000_000 / 10 ^ k);
}

pub Fixed-IsOrdered : IsOrdered Fixed
Fixed-IsOrdered = ground arith
