-- ===== src/Shared/BitList.antt =====
-- Numbers as lists of binary digits, the highest first.
use native.Mathlib.Nat.{
  pow-suc, one-le-pow, mul-add-div_right, div-eq_of_lt, div-div-eq-div-mul, mul_comm, div-add-mod',
  mod-lt, div-lt_iff_lt-mul,
}
use lbzip.Shared.Lists.{length, length-append}
use Prim.Native.Nat.add
use Prim.Native.Nat.{ℕ, zero, suc, ◌+◌, ◌*◌, ◌/◌, ◌%◌, ◌^◌, ◌<◌}
use mathlib.Core.Path.{◌≡◌, refl, sym, ap, ap₂, ◌∙◌}
use mathlib.Core.List.{List, [], ◌∷◌, ◌++◌, append_assoc}
use native.Mathlib.Omega.{arith}

-- the lowest `w` digits of `n`
unfoldable pub bits : ℕ → ℕ → List ℕ
bits zero n = []
bits (suc w) n = (n / 2 ^ w % 2) ∷ bits w n

-- the digits of each number of a list, `w` for each
unfoldable pub all_bits : ℕ → List ℕ → List ℕ
all_bits w [] = []
all_bits w (x ∷ xs) = bits w x ++ all_bits w xs

pub length-bits : (w n : ℕ) → length (bits w n) ≡ w
unfolding bits
length-bits zero n = refl
length-bits (suc w) n = ap suc (length-bits w n)

pub length-all_bits : (w : ℕ) (xs : List ℕ) → length (all_bits w xs) ≡ w * length xs
unfolding all_bits
length-all_bits w [] = omega arith
length-all_bits w (x ∷ xs) =
    omega (arith, length-append (bits w x) (all_bits w xs), length-bits w x, length-all_bits w xs)

pub all_bits-append :
    (w : ℕ) (xs ys : List ℕ) → all_bits w (xs ++ ys) ≡ all_bits w xs ++ all_bits w ys
unfolding all_bits
all_bits-append w [] ys = refl
all_bits-append w (x ∷ xs) ys =
    ap (◌++◌ (bits w x)) (all_bits-append w xs ys)
    ∙ sym (append_assoc (bits w x) (all_bits w xs) (all_bits w ys))

pub pow_pos : (k : ℕ) → 0 < 2 ^ k
pow_pos k = one-le-pow k 2 (omega arith)

pub pow-add : (a b : ℕ) → 2 ^ (a + b) ≡ 2 ^ a * 2 ^ b
pow-add zero b = rw add.zero (omega arith)
pow-add (suc a) b = rw add.suc (
    omega
      (arith, pow-suc 2 (a + b), pow-suc 2 a, ap (λ (t : ℕ). t * 2 ^ b) (pow-suc 2 a), pow-add a b))

pub pow-split : (a b c : ℕ) → a ≡ b + c → 2 ^ a ≡ 2 ^ b * 2 ^ c
pow-split a b c e = rw e (pow-add b c)

pub bits-low : (w q m : ℕ) → bits w (q * 2 ^ w + m) ≡ bits w m
unfolding bits
bits-low zero q m = refl
bits-low (suc w) q m =
    let regroup : q * 2 ^ suc w + m ≡ (q * 2) * 2 ^ w + m =
      omega (arith, ap (λ (t : ℕ). q * t) (pow-suc 2 w)) in
    rw regroup
      (ap₂ ◌∷◌ (omega (arith, mul-add-div_right (pow_pos w) (q * 2) m)) (bits-low w (q * 2) m))

-- Of two numbers side by side the digits are those of the one and then those of the other.
pub bits-join : (a b n m : ℕ) → m < 2 ^ b → bits (a + b) (n * 2 ^ b + m) ≡ bits a n ++ bits b m
unfolding bits
bits-join zero b n m h = rw add.zero (bits-low b n m)
bits-join (suc a) b n m h =
    let whole : (n * 2 ^ b + m) / 2 ^ b ≡ n =
      omega (arith, mul-add-div_right (pow_pos b) n m, div-eq_of_lt h) in
    let split : (n * 2 ^ b + m) / 2 ^ (a + b) ≡ n / 2 ^ a = rw (
      pow-add a b,
      mul_comm (2 ^ a) (2 ^ b),
      ← div-div-eq-div-mul (n * 2 ^ b + m) (2 ^ b) (2 ^ a),
      whole,
    ) in
    rw add.suc (ap₂ ◌∷◌ (rw split) (bits-join a b n m h))

bits-mod : (w n : ℕ) → bits w n ≡ bits w (n % 2 ^ w)
bits-mod w n = ap (bits w) (sym (div-add-mod' n (2 ^ w))) ∙ bits-low w (n / 2 ^ w) (n % 2 ^ w)

-- A number below 2 ^ w is known from its w digits.
pub bits-injective :
    (w a b : ℕ) (xs ys : List ℕ)
    → a < 2 ^ w
    → b < 2 ^ w
    → bits w a ++ xs ≡ bits w b ++ ys
    → (a ≡ b) × (xs ≡ ys)
unfolding bits
bits-injective zero a b xs ys p q h = (omega arith, h)
bits-injective (suc w) a b xs ys p q h =
    let first : a / 2 ^ w % 2 ≡ b / 2 ^ w % 2 = cc in
    let others : bits w a ++ xs ≡ bits w b ++ ys = cc in
    let both =
      bits-injective w (a % 2 ^ w) (b % 2 ^ w) xs ys (mod-lt a (pow_pos w)) (mod-lt b (pow_pos w))
        (rw (← bits-mod w a, ← bits-mod w b) others) in
    let high_a : a / 2 ^ w < 2 = (div-lt_iff_lt-mul (pow_pos w)).1 (omega (arith, pow-suc 2 w)) in
    let high_b : b / 2 ^ w < 2 = (div-lt_iff_lt-mul (pow_pos w)).1 (omega (arith, pow-suc 2 w)) in
    let high : a / 2 ^ w ≡ b / 2 ^ w = omega arith in
    (
      omega (
        arith,
        both.0,
        div-add-mod' a (2 ^ w),
        div-add-mod' b (2 ^ w),
        ap (λ (t : ℕ). t * 2 ^ w) high,
      ),
      both.1,
    )
