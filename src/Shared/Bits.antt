-- ===== src/Shared/Bits.antt =====
-- `|` and `^` at variables, from the recursion on digits that the native operations stand for.
use Prim.Native.Nat.{
  ℕ, zero, suc, ◌+◌, ◌-◌, ◌*◌, ◌/◌, ◌%◌, ◌^◌, ◌≤◌, ◌<◌, max, bit_or, bit_xor, digits, differ,
  bit_or-bitwise, bit_xor-bitwise,
}
use mathlib.Core.Path.{◌≡◌, refl, ap, ◌∙◌}
use mathlib.Core.Logic.{◌⊎◌, inl, inr}
use native.Mathlib.Nat.{pow-suc}
use native.Mathlib.Omega.{arith}

-- an operation on two digits for which 0 is neutral, and as many rounds as the first number asks
module _ (f : ℕ → ℕ → ℕ) (on_left : (y : ℕ) → f 0 y ≡ y) (on_right : (x : ℕ) → f x 0 ≡ x) where
  abbrev merge : ℕ → ℕ → ℕ → ℕ
  merge = digits (λ y. y) f

  merge-nothing : (rounds q : ℕ) → q ≤ rounds → merge rounds q 0 ≡ q
  merge-nothing zero q h = omega arith
  merge-nothing (suc rounds) zero h = refl
  merge-nothing (suc rounds) (suc q) h =
      omega (arith, on_right (suc q % 2), merge-nothing rounds (suc q / 2) (omega arith))

  -- The one number has digits only where the other has none.
  merge_apart :
      (k rounds a q r : ℕ) → a ≡ q * 2 ^ k → a ≤ rounds → r < 2 ^ k → merge rounds a r ≡ a + r
  merge_apart zero rounds a q r e h lt =
      let none_left : r ≡ 0 = omega arith in rw none_left (omega (arith, merge-nothing rounds a h))
  merge_apart (suc k) zero zero q r e h lt = omega arith
  merge_apart (suc k) zero (suc a) q r e h lt = absurd (omega arith)
  merge_apart (suc k) (suc rounds) zero q r e h lt = omega arith
  merge_apart (suc k) (suc rounds) (suc a) q r e h lt =
      let even : suc a ≡ 2 * (q * 2 ^ k) = omega (arith, ap (λ (t : ℕ). q * t) (pow-suc 2 k)) in
      let upper : merge rounds (suc a / 2) (r / 2) ≡ suc a / 2 + r / 2 =
        merge_apart k rounds (suc a / 2) q (r / 2) (omega arith) (omega arith)
          (omega (arith, pow-suc 2 k)) in
      let lowest : suc a % 2 ≡ 0 = omega arith in rw (upper, lowest, on_left (r % 2)) (omega arith)

pub bit_or-add : (k q r : ℕ) → r < 2 ^ k → bit_or (q * 2 ^ k) r ≡ q * 2 ^ k + r
bit_or-add k q r h = rw (bit_or-bitwise (q * 2 ^ k) r) (
    merge_apart max (λ y. omega arith) (λ x. omega arith) k (q * 2 ^ k) (q * 2 ^ k) q r refl
      (omega arith) h)

differ_zero : (x : ℕ) → differ x 0 ≡ x
differ_zero zero = refl
differ_zero (suc x) = refl

two_digits : (x : ℕ) → (x % 2 ≡ 0) ⊎ (x % 2 ≡ 1)
two_digits x = omega arith

differ_one : (x q : ℕ) → x ≡ q * 2 + x % 2 → q * 2 + differ (x % 2) 1 ≡ x + 1 - 2 * (x % 2)
differ_one x q e = elim (two_digits x) [
  | inl z ↦ rw z (omega (arith, e))
  | inr o ↦ rw o (omega (arith, e))
]

-- the last digit changed
pub bit_xor-one : (x : ℕ) → bit_xor x 1 ≡ x + 1 - 2 * (x % 2)
bit_xor-one zero = refl
bit_xor-one (suc x) =
    bit_xor-bitwise (suc x) 1
    ∙ ap (λ (q : ℕ). q * 2 + differ (suc x % 2) 1)
        (merge-nothing differ (λ y. refl) differ_zero x (suc x / 2) (omega arith))
    ∙ differ_one (suc x) (suc x / 2) (omega arith)
