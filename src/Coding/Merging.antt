-- ===== src/Coding/Merging.antt =====
-- src/encode.c, sort_alphabet() and package_merge(). In package_merge() the loop that goes up and
-- down the depths keeps the depths to come back to in `count`, here a list.
pub mod Loop
use lbzip.Shared.{
  ℕ, zero, suc, ◌+◌, ◌-◌, ◌*◌, ◌/◌, ◌%◌, ◌^◌, List, [], ◌∷◌, ◌++◌, Bool, true, false, ◌==◌, ltb,
  leb, not, ◌&&◌, Option, none, some, if◌then◌else◌, get_or, length, bit_and, bit_or,
}
use Prim.Native.Nat.{max}
use lbzip.Retrieve.{max_code_length}
use lbzip.Prefix.{update}

-- An element is moved down among those before it, which stand in reverse.
unfoldable pub shift_down : ℕ → List ℕ → List ℕ
shift_down t [] = t ∷ []
shift_down t (b ∷ before) = if ltb b t then b ∷ shift_down t before else t ∷ b ∷ before

unfoldable pub sort_onto : List ℕ → List ℕ → List ℕ
sort_onto before [] = before
sort_onto before (t ∷ rest) = sort_onto (shift_down t before) rest

unfoldable pub back_to_front : List ℕ → List ℕ → List ℕ
back_to_front [] done = done
back_to_front (x ∷ xs) done = back_to_front xs (x ∷ done)

unfoldable pub sort_alphabet : List ℕ → List ℕ
sort_alphabet xs = back_to_front (sort_onto [] xs) []

unfoldable pub weight_add : ℕ → ℕ → ℕ
weight_add w1 w2 =
    ((w1 + w2) % 2 ^ 64 / 2 ^ 32 * 2 ^ 32
      + max (bit_and w1 0xFF000000) (bit_and w2 0xFF000000)
      + 0x01000000)
    % 2 ^ 64

-- the arrays of package_merge()
pub record Merge : Type 0 where
  pub tree : ℕ → ℕ → ℕ
  pub pkg_weight : ℕ → ℕ
  pub prev_weight : ℕ → ℕ
  pub curr_weight : ℕ → ℕ

-- a[i] = v, for an array of rows
abbrev update_row : (ℕ → ℕ → ℕ) → ℕ → (ℕ → ℕ) → ℕ → ℕ → ℕ
update_row a i v k = if i == k then v else a k

-- A package of the depth above is taken.
unfoldable pub take_package : Merge → ℕ → Merge
take_package m depth =
    let below = m.tree (depth - 1) in
    record m {
      tree = update_row m.tree depth (λ j. if j == 0 then m.tree depth 0 else below (j - 1));
      pkg_weight =
          update m.pkg_weight depth (weight_add (m.prev_weight depth) (m.pkg_weight (depth - 1)));
      prev_weight = update m.prev_weight depth (m.pkg_weight (depth - 1));
    }

-- A leaf is taken.
unfoldable pub take_leaf : (ℕ → ℕ) → ℕ → Merge → ℕ → Merge
take_leaf leaf_weight size m depth =
    let taken = m.tree depth 0 + 1 in
    record m {
      tree = update_row m.tree depth (update (m.tree depth) 0 taken);
      pkg_weight =
          update m.pkg_weight depth (weight_add (m.prev_weight depth) (m.curr_weight depth));
      prev_weight = update m.prev_weight depth (m.curr_weight depth);
      curr_weight = update m.curr_weight depth (leaf_weight (size - taken));
    }

-- where a round of the inner loop leads: out of it, or to a depth, with the stack in `count`
pub data Turn : Type 0 where
  leaves : Merge → Turn
  turns : Merge → ℕ → List ℕ → Turn

abbrev pub pop : Merge → List ℕ → Turn
pop m [] = leaves m
pop m (depth ∷ count) = turns m depth count

-- one round of it
unfoldable pub merge_round : (ℕ → ℕ) → ℕ → Merge → ℕ → List ℕ → Turn
merge_round leaf_weight size m depth count =
    if leb (m.pkg_weight (depth - 1)) (m.curr_weight depth)
    then (if not (depth == 1)
        then turns (take_package m depth) (depth - 1) ((depth - 1) ∷ count)
        else pop m count)
    else pop (take_leaf leaf_weight size m depth) count

unfoldable pub merge_loop : (ℕ → ℕ) → ℕ → ℕ → Merge → ℕ → List ℕ → Option Merge
merge_loop leaf_weight size zero m depth count = none
merge_loop leaf_weight size (suc fuel) m depth count =
    elim (merge_round leaf_weight size m depth count) [
      | leaves m' ↦ some m'
      | turns m' depth' count' ↦ merge_loop leaf_weight size fuel m' depth' count'
    ]

-- the rounds of the outer loop, one for each width
unfoldable pub widths : (ℕ → ℕ) → ℕ → ℕ → Merge → Option Merge
widths leaf_weight size zero m = some m
widths leaf_weight size (suc rounds) m =
    elim (merge_loop leaf_weight size (2 ^ 21) m max_code_length (max_code_length ∷ [])) [
      | none ↦ none
      | some m' ↦ widths leaf_weight size rounds m'
    ]

unfoldable pub merge_init : (ℕ → ℕ) → ℕ → Merge
merge_init leaf_weight size = record {
  tree = λ depth j. if depth == 0 then 0 else if j == 0 then 2 else 0;
  pkg_weight = λ depth.
      if depth == 0 then 2 ^ 64 - 1 else weight_add (leaf_weight size) (leaf_weight (size - 1));
  prev_weight = λ depth. leaf_weight (size - 1);
  curr_weight = λ depth. leaf_weight (size - 2);
}

unfoldable pub package_merge : (ℕ → ℕ) → ℕ → Option Merge
package_merge leaf_weight size = widths leaf_weight size (size - 2) (merge_init leaf_weight size)
