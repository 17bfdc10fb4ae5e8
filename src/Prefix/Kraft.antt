-- ===== src/Prefix/Kraft.antt =====
-- src/decode.c, make_tree(): the verdict on the code lengths.
use lbzip.Shared.{
  ℕ, zero, suc, ◌+◌, ◌-◌, ◌*◌, ◌^◌, ◌≤◌, ◌≡◌, refl, ◌∙◌, List, [], ◌∷◌, ◌==◌, ltb, true,
  if◌then◌else◌, arith, length,
}
use lbzip.Common.{err_incomplt, err_prefix}
use lbzip.Shared.Bags.{total, one_if}
use lbzip.Prefix.{Tree, built, refused, make_tree, tables}
use lbzip.Prefix.Sums.{sum_below, sum_below-suc, width}
use lbzip.Prefix.Base.{space}
use lbzip.Prefix.Tables.{InRange, counts, kraft_all}

spread : (b c w : ℕ) → (b + c) * w ≡ b * w + c * w
spread b c w = grind arith

-- One more code takes its width, from its length on.
one_more :
    (l : ℕ) (ls : List ℕ) (n : ℕ)
    → space (counts (l ∷ ls)) n ≡ (if ltb l n then width l else 0) + space (counts ls) n
one_more l ls zero = unfold sum_below in ground arith
one_more l ls (suc n) = ground (
  arith,
  one_more l ls n,
  sum_below-suc (λ j. counts (l ∷ ls) j * width j) n,
  sum_below-suc (λ j. counts ls j * width j) n,
  spread (one_if (l == n)) (counts ls n) (width n),
)

nothing : (n : ℕ) → space (counts []) n ≡ 0
nothing zero = unfold sum_below in refl
nothing (suc n) = omega (arith, nothing n, sum_below-suc (λ j. counts [] j * width j) n)

-- the code space that codes of these lengths take, of 2 ^ 20
abbrev pub shares : List ℕ → ℕ
shares = total (λ l. 2 ^ (20 - l))

space-total : (ls : List ℕ) → InRange ls → space (counts ls) 21 ≡ shares ls
unfolding width
space-total [] ok = nothing 21
space-total (l ∷ ls) ok =
    let shorter : ltb l 21 ≡ true = ground (arith, ok.0) in
    one_more l ls 21 ∙ rw shorter (omega (arith, space-total ls ok.1))

module _ (old : Tree) (ls : List ℕ) (ok : InRange ls) (few : length ls ≤ 258) where
  -- The verdict on at most 258 code lengths from 1 to 20 is that of the sum of 2 ^ -length over the
  -- symbols: the tables are built where it is 1; below it the code is incomplete, and above it
  -- oversubscribed.
  pub make_tree-kraft : make_tree old ls ≡ (
      if shares ls == 2 ^ 20
      then built (tables old ls)
      else refused (if ltb (shares ls) (2 ^ 20) then err_incomplt else err_prefix))
  unfolding make_tree
  make_tree-kraft = rw (kraft_all ls ok few, space-total ls ok) refl
