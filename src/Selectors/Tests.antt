-- ===== src/Selectors/Tests.antt =====
-- src/encode.c, encode(): the selectors of five groups.
use lbzip.Shared.{ℕ, ◌≡◌, refl, [], ◌∷◌, true, false, some, arith, map, none}
use lbzip.Selectors.{Mapping, select_all}
use lbzip.Selectors.Correct.{Chosen, select_all-Chosen}

abbrev same : ℕ → ℕ
same c = c

abbrev mapping : Mapping
mapping = record { num_trees = 3; num_selectors = 5; tmap_old2new = same }

select_all_example :
    select_all false mapping (0 ∷ 2 ∷ 2 ∷ 0 ∷ 1 ∷ 6 ∷ []) ≡ some (0 ∷ 2 ∷ 0 ∷ 1 ∷ 2 ∷ [], 10)
unfolding select_all
select_all_example = refl

-- The assertion fails that the first selector stands for tree 0.
select_all_first : select_all false mapping (1 ∷ 6 ∷ []) ≡ none
unfolding select_all
select_all_first = refl

select_all-Chosen_example :
    Chosen
      (0 ∷ 1 ∷ 2 ∷ 3 ∷ 4 ∷ 5 ∷ [])
      (map same (0 ∷ 2 ∷ 2 ∷ 0 ∷ 1 ∷ []))
      (select_all true mapping (0 ∷ 2 ∷ 2 ∷ 0 ∷ 1 ∷ 6 ∷ []))
select_all-Chosen_example =
    select_all-Chosen true mapping 0 (2 ∷ 2 ∷ 0 ∷ 1 ∷ []) [] (omega arith) (omega arith)
      (omega arith) refl
