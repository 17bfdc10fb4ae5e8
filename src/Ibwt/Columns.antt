-- ===== src/Ibwt/Columns.antt =====
-- The columns of the sorted rotations: where each byte starts in the first one.
use lbzip.Shared.{
  ℕ, zero, suc, ◌+◌, ◌≤◌, ◌<◌, ◌≡◌, refl, ◌∙◌, ap, ap₂, List, ◌==◌, ltb, if◌then◌else◌, get_or,
  arith, ◌⊎◌, inl, inr,
}
use lbzip.Prefix.Sums.{sum_below, sum_below_mono}
use lbzip.Ibwt.Original.{seen, lesser}

pub trichotomy : (u v : ℕ) → (u < v) ⊎ (u ≡ v) ⊎ (v < u)
trichotomy u v = omega arith

pub sum_below_ext :
    (f g : ℕ → ℕ) (k : ℕ) → ((j : ℕ) → j < k → f j ≡ g j) → sum_below f k ≡ sum_below g k
unfolding sum_below
sum_below_ext f g zero same = refl
sum_below_ext f g (suc k) same =
    ap₂ (λ m n. m + n) (sum_below_ext f g k (λ j lt. same j (omega arith))) (same k (omega arith))

-- One more of the byte `x` is one more in a sum over the bytes.
sum_one :
    (f : ℕ → ℕ) (x k : ℕ)
    → sum_below (λ u. f u + (if x == u then 1 else 0)) k
      ≡ sum_below f k + (if ltb x k then 1 else 0)
unfolding sum_below
sum_one f x zero = ground arith
sum_one f x (suc k) = ground (arith, sum_one f x k)

sum_none : (k : ℕ) → sum_below (λ u. 0) k ≡ 0
unfolding sum_below
sum_none zero = refl
sum_none (suc k) = omega (arith, sum_none k)

-- The lesser bytes are those of each lesser byte.
pub seen-lesser : (tt : List ℕ) (u n : ℕ) → sum_below (λ v. seen tt v n) u ≡ lesser tt u n
unfolding sum_below
seen-lesser tt u zero = sum_none u
seen-lesser tt u (suc n) =
    sum_one (λ v. seen tt v n) (get_or tt n 0) u
    ∙ ap (λ (m : ℕ). m + (if ltb (get_or tt n 0) u then 1 else 0)) (seen-lesser tt u n)

pub all_lesser : (tt : List ℕ) (u n : ℕ) → ((j : ℕ) → j < n → get_or tt j 0 < u) → lesser tt u n ≡ n
unfolding sum_below
all_lesser tt u zero small = refl
all_lesser tt u (suc n) small =
    ground (arith, all_lesser tt u n (λ j lt. small j (omega arith)), small n)

-- A place stands with one byte only.
pub one_byte :
    (f : ℕ → ℕ) (u v j : ℕ)
    → sum_below f u ≤ j
    → j < sum_below f (suc u)
    → sum_below f v ≤ j
    → j < sum_below f (suc v)
    → u ≡ v
one_byte f u v j lo hi lo' hi' = elim (trichotomy u v) [
  | inl lt ↦ omega (arith, sum_below_mono f (suc u) v lt)
  | inr (inl e) ↦ e
  | inr (inr gt) ↦ omega (arith, sum_below_mono f (suc v) u gt)
]
