-- ===== src/Shared/Table.antt =====
-- Tests of a finite range by evaluation, as proofs about each of its members.
use Prim.Native.Nat.{ℕ, zero, suc, ◌<◌}
use mathlib.Core.Path.{◌≡◌, subst}
use mathlib.Core.Bool.{Bool, true, ◌&&◌}
use mathlib.Core.Logic.{◌⊎◌, inl, inr}
use native.Mathlib.Omega.{arith}
use lbzip.Shared.Tests.{&&→both}

-- whether the test `p` succeeds at every number below `bound`
unfoldable pub holds_below : ℕ → (ℕ → Bool) → Bool
holds_below zero p = true
holds_below (suc bound) p = holds_below bound p && p bound

last_or_earlier : (bound i : ℕ) → i < suc bound → (i < bound) ⊎ (bound ≡ i)
last_or_earlier bound i lt = omega arith

pub holds_below_at :
    (bound : ℕ) (p : ℕ → Bool) (i : ℕ) → holds_below bound p ≡ true → i < bound → p i ≡ true
unfolding holds_below
holds_below_at zero p i tested lt = absurd (omega arith)
holds_below_at (suc bound) p i tested lt =
    let split = &&→both (holds_below bound p) (p bound) tested in
    elim (last_or_earlier bound i lt) [
      | inl earlier ↦ holds_below_at bound p i split.0 earlier
      | inr last ↦ subst (λ j. p j ≡ true) last split.1
    ]
