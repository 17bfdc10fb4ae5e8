-- ===== src/Coding/Tests.antt =====
-- src/encode.c: sorting, the codes of six symbols, and the choice of a tree for a group.
use lbzip.Shared.{
  ℕ, length, replicate, ◌≡◌, refl, [], ◌∷◌, ◌+◌, ◌-◌, ◌*◌, ◌^◌, List, some, arith, if◌then◌else◌,
  ◌==◌,
}
use lbzip.Shared.Bags.{total}
use lbzip.Prefix.{Tree, built, make_tree, tables, decode_symbol, symbol}
use lbzip.Coding.{
  Assigned, assign_codes, labels, label, code_best, heights, try_height, avail_at, code_levels,
  codes_of, delta_cost, give, give_levels, leaf_symbol, listed, number,
}
use lbzip.Coding.Correct.{decode_symbol-assign_codes}
use lbzip.Coding.Groups.{
  IsBest, find_best_tree, len_pack, find_best_tree-IsBest, group_cost, best_of,
}
use lbzip.Coding.Dummy.{dummy_lengths, make_tree-dummy_lengths}
use lbzip.Coding.Merging.{
  package_merge, merge_init, widths, merge_loop, merge_round, weight_add, sort_alphabet,
  back_to_front, sort_onto, shift_down, take_leaf, take_package,
}
use lbzip.Coding.Merging.Loop.{take_all, package_merge-takes}
use mathlib.Core.List.{Permᴰ}
use lbzip.Coding.Sorting.{Descending, sort_alphabet-sorts}

abbrev blank : Tree
blank = record { start = []; base = λ k. 0; count = λ k. 0; perm = λ k. 0 }

abbrev frequencies : List ℕ
frequencies = 10 ∷ 4 ∷ 1 ∷ 1 ∷ 2 ∷ 1 ∷ []

abbrev expected : Assigned
expected = record {
  code = 0 ∷ 2 ∷ 12 ∷ 13 ∷ 14 ∷ 15 ∷ [];
  lengths = 1 ∷ 2 ∷ 4 ∷ 4 ∷ 4 ∷ 4 ∷ [];
  cost = 55;
}

assigned : assign_codes frequencies (λ k. 0) ≡ some expected
unfolding assign_codes package_merge widths merge_loop merge_round merge_init weight_add
    sort_alphabet back_to_front sort_onto shift_down labels label take_leaf take_package code_best
    heights try_height avail_at code_levels codes_of delta_cost give give_levels leaf_symbol listed
    number
assigned = refl

decode_symbol-assign_codes_example :
    (make_tree blank expected.lengths ≡ built (tables blank expected.lengths))
    × (decode_symbol (tables blank expected.lengths) (12 * 2 ^ 60 + 77) ≡ (symbol 6 2, 4))
decode_symbol-assign_codes_example =
    decode_symbol-assign_codes frequencies (λ k. 0) blank expected (1 ∷ 2 ∷ []) 4 (4 ∷ 4 ∷ 4 ∷ [])
      (12 * 2 ^ 60 + 77) (omega arith) assigned refl (omega arith) refl

abbrev two_trees : ℕ → ℕ → ℕ
two_trees t v = if t == 0 then 5 else 3

find_best_tree-IsBest_example :
    IsBest
      (λ t. total (two_trees t) (7 ∷ 9 ∷ []))
      2
      (find_best_tree (7 ∷ 9 ∷ []) 2 (len_pack two_trees))
find_best_tree-IsBest_example =
    find_best_tree-IsBest two_trees (λ t v. ground arith) (7 ∷ 9 ∷ []) 2 (omega arith) (omega arith)
      (omega arith)

-- Fifty symbols of 20 bits in the one tree, and of 21 in the other, whose cost does not fit ten bits.
abbrev too_long : ℕ → ℕ → ℕ
too_long t v = if t == 0 then 20 else if t == 1 then 21 else 0

overflow_worse : find_best_tree (replicate 50 7) 2 (len_pack too_long) ≡ 1
unfolding find_best_tree len_pack group_cost best_of
overflow_worse = refl

make_tree-dummy_lengths_example :
    (length (dummy_lengths 5) ≡ 5)
    × (make_tree blank (dummy_lengths 5) ≡ built (tables blank (dummy_lengths 5)))
make_tree-dummy_lengths_example = make_tree-dummy_lengths blank 5 (omega arith) (omega arith)

abbrev weights : ℕ → ℕ
weights i = 2 ^ 32 * (7 - i)

package_merge-takes_example :
    package_merge weights 5 ≡ some (take_all weights 5 3 (merge_init weights 5))
package_merge-takes_example = package_merge-takes weights 5

sort_alphabet-sorts_example :
    Permᴰ (sort_alphabet (3 ∷ 9 ∷ 5 ∷ [])) (3 ∷ 9 ∷ 5 ∷ [])
    × Descending (sort_alphabet (3 ∷ 9 ∷ 5 ∷ []))
sort_alphabet-sorts_example = sort_alphabet-sorts (3 ∷ 9 ∷ 5 ∷ [])
