-- ===== src/Prefix/Sums.antt =====
-- Sums over the code lengths below one, and the powers of two that stand for their widths.
use lbzip.Shared.{
  ℕ, zero, suc, ◌+◌, ◌-◌, ◌*◌, ◌^◌, ◌≤◌, ◌<◌, ◌≡◌, refl, List, ◌==◌, ltb, ltb→lt, leb, leb→le, ◌⊎◌,
  inl, inr, arith, ap, ==→eq,
}
use lbzip.Shared.Bags.{count_p}
use lbzip.Shared.Table.{holds_below, holds_below_at}

unfoldable pub sum_below : (ℕ → ℕ) → ℕ → ℕ
sum_below f zero = 0
sum_below f (suc k) = sum_below f k + f k

pub sum_below-suc : (f : ℕ → ℕ) (k : ℕ) → sum_below f (suc k) ≡ sum_below f k + f k
unfolding sum_below
sum_below-suc f k = refl

none_below : (j : ℕ) → j ≤ 0 → j ≡ 0
none_below j le = omega arith

last_or_before : (j k : ℕ) → j ≤ suc k → (j ≡ suc k) ⊎ (j ≤ k)
last_or_before j k le = omega arith

pub sum_below_mono : (f : ℕ → ℕ) (j k : ℕ) → j ≤ k → sum_below f j ≤ sum_below f k
unfolding sum_below
sum_below_mono f j zero le = omega (arith, ap (sum_below f) (none_below j le))
sum_below_mono f j (suc k) le = elim (last_or_before j k le) [
  | inl e ↦ omega (arith, ap (sum_below f) e)
  | inr before ↦ omega (arith, sum_below_mono f j k before)
]

-- how many codes have the length `k`
abbrev pub of_length : ℕ → List ℕ → ℕ
of_length k = count_p (λ l. l == k)

-- the share of the code space that a code of the length `k` takes, of 2 ^ 20
unfoldable pub width : ℕ → ℕ
width k = 2 ^ (20 - k)

pub width_64 : (k : ℕ) → k ≤ 20 → 2 ^ (64 - k) ≡ width k * 2 ^ 44
unfolding width
width_64 k le = ==→eq _ _ (
    holds_below_at 21 (λ k. 2 ^ (64 - k) == 2 ^ (20 - k) * 2 ^ 44) k (unfold holds_below in refl)
      (omega arith))

pub width-half : (k : ℕ) → k < 20 → width k ≡ 2 * width (suc k)
unfolding width
width-half k lt = ==→eq _ _ (
    holds_below_at 20 (λ k. 2 ^ (20 - k) == 2 * 2 ^ (20 - suc k)) k (unfold holds_below in refl) lt)

pub width_pos : (k : ℕ) → k ≤ 20 → 0 < width k
unfolding width
width_pos k le =
    ltb→lt _ _
      (holds_below_at 21 (λ k. ltb 0 (2 ^ (20 - k))) k (unfold holds_below in refl) (omega arith))

inside_or_out : (k : ℕ) → (k ≤ 20) ⊎ (20 - k ≡ 0)
inside_or_out k = omega arith

pub width_20 : (k : ℕ) → width k ≤ 2 ^ 20
unfolding width
width_20 k = elim (inside_or_out k) [
  | inl le ↦ leb→le _ _ (
      holds_below_at 21 (λ k. leb (2 ^ (20 - k)) (2 ^ 20)) k (unfold holds_below in refl)
        (omega arith))
  | inr e ↦ rw e (omega arith)
]
