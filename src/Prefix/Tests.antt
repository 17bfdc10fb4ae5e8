-- ===== src/Prefix/Tests.antt =====
-- src/decode.c, make_tree(): tables for six symbols.
use lbzip.Shared.{ℕ, ◌≡◌, refl, [], ◌∷◌, ◌+◌, ◌*◌, ◌^◌, List, ◌==◌, ltb, if◌then◌else◌, arith}
use lbzip.Common.{err_incomplt, err_prefix}
use lbzip.Prefix.{
  Tree, built, refused, make_tree, tables, decode_symbol, starts, complete, same_length, sort,
  indices, tally, symbol,
}
use lbzip.Prefix.Kraft.{shares, make_tree-kraft}

abbrev blank : Tree
blank = record { start = []; base = λ k. 0; count = λ k. 0; perm = λ k. 0 }

abbrev six : List ℕ
six = 1 ∷ 2 ∷ 4 ∷ 4 ∷ 4 ∷ 4 ∷ []

-- the code of the third symbol, 1100, before other bits
third : decode_symbol (tables blank six) (12 * 2 ^ 60 + 77) ≡ (1, 4)
unfolding decode_symbol tables starts complete same_length sort indices tally symbol
third = refl

make_tree-kraft_example : make_tree blank six ≡ (
    if shares six == 2 ^ 20
    then built (tables blank six)
    else refused (if ltb (shares six) (2 ^ 20) then err_incomplt else err_prefix))
make_tree-kraft_example = make_tree-kraft blank six (omega arith) (omega arith)
