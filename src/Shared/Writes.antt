-- ===== src/Shared/Writes.antt =====
-- An entry of a list, read after a write.
use Prim.Native.Nat.{ℕ, zero, suc, ◌<◌}
use mathlib.Core.Path.{◌≡◌, refl, ap}
use mathlib.Core.List.{List, [], ◌∷◌}
use native.Mathlib.Omega.{arith}
use lbzip.Shared.Lists.{get_or, set, length}

module _ {ℓ} {A : Type ℓ} where
  pub get_or-other :
      (xs : List A) (i : ℕ) (v : A) (j : ℕ) (d : A)
      → ¬ (j ≡ i)
      → get_or (set xs i v) j d ≡ get_or xs j d
  get_or-other [] i v j d ne = refl
  get_or-other (x ∷ xs) zero v zero d ne = absurd (ne refl)
  get_or-other (x ∷ xs) zero v (suc j) d ne = refl
  get_or-other (x ∷ xs) (suc i) v zero d ne = refl
  get_or-other (x ∷ xs) (suc i) v (suc j) d ne = get_or-other xs i v j d (λ e. ne (ap suc e))

  pub get_or-set : (xs : List A) (i : ℕ) (v d : A) → i < length xs → get_or (set xs i v) i d ≡ v
  get_or-set [] i v d lt = absurd (omega arith)
  get_or-set (x ∷ xs) zero v d lt = refl
  get_or-set (x ∷ xs) (suc i) v d lt = get_or-set xs i v d (omega arith)

  pub length-set : (xs : List A) (i : ℕ) (v : A) → length (set xs i v) ≡ length xs
  length-set [] i v = refl
  length-set (x ∷ xs) zero v = refl
  length-set (x ∷ xs) (suc i) v = ap suc (length-set xs i v)
