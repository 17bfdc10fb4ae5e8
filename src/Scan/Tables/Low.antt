-- ===== src/Scan/Tables/Low.antt =====
-- src/scantab.h, rows of `big_dfa`: the state after one more byte.
use lbzip.Shared.{ℕ, List, [], ◌∷◌, ◌++◌}
use lbzip.Scan.Tables.Row.{row16}

-- rows 0 to 11
unfoldable pub big_dfa_0 : List (List ℕ)
big_dfa_0 =
    (row16 2 3 1 4 2 0 5 0 2 3 1 0 6 0 1 0
      ++ row16 2 3 1 4 2 0 1 0 7 3 1 0 2 0 1 0
      ++ row16 2 3 1 4 2 0 5 0 2 3 1 0 2 0 1 0
      ++ row16 2 8 1 4 2 0 1 0 2 3 1 0 2 0 1 0
      ++ row16 2 3 1 4 2 0 5 0 2 3 1 0 6 0 1 0
      ++ row16 2 3 1 4 2 0 1 0 2 3 1 0 2 0 1 0
      ++ row16 2 3 1 4 2 0 5 0 2 3 1 0 2 0 1 0
      ++ row16 2 3 1 4 2 0 1 0 2 3 1 0 2 0 1 0
      ++ row16 2 3 1 4 2 0 5 0 2 3 1 0 6 0 1 0
      ++ row16 2 3 1 4 2 0 1 0 7 3 1 0 2 0 1 0
      ++ row16 2 3 1 4 2 0 5 0 2 3 1 0 2 0 1 0
      ++ row16 2 3 1 4 2 0 1 0 2 3 1 0 2 0 1 0
      ++ row16 2 3 1 4 2 0 5 0 2 3 1 0 6 0 1 0
      ++ row16 2 3 1 4 2 0 1 0 2 3 1 0 2 0 1 0
      ++ row16 2 3 1 4 2 0 5 0 2 3 1 0 2 0 1 0
      ++ row16 2 3 1 4 2 0 1 0 2 3 1 0 2 0 1 0)
    ∷ (row16 2 3 1 4 2 0 5 0 2 3 1 0 6 0 1 0
        ++ row16 2 3 1 4 2 0 1 0 7 3 1 0 2 0 1 0
        ++ row16 2 3 1 4 2 0 5 0 2 3 1 0 2 0 1 0
        ++ row16 2 8 1 4 2 0 1 0 2 3 1 0 2 0 1 0
        ++ row16 2 3 1 4 2 0 5 0 2 3 1 0 6 0 1 0
        ++ row16 2 3 1 4 2 0 1 0 2 3 1 0 2 0 1 0
        ++ row16 2 3 9 4 2 0 5 0 2 3 1 0 2 0 1 0
        ++ row16 2 3 1 4 2 0 1 0 2 3 1 0 2 0 1 0
        ++ row16 2 3 1 4 2 0 5 0 2 3 1 0 6 0 1 0
        ++ row16 2 3 1 4 2 0 1 0 7 3 1 0 2 0 1 0
        ++ row16 2 3 1 4 2 0 5 0 2 3 1 0 2 0 1 0
        ++ row16 2 3 1 4 2 0 1 0 2 3 1 0 2 0 1 0
        ++ row16 2 3 1 4 2 0 5 0 2 3 1 0 6 0 1 0
        ++ row16 2 3 1 4 2 0 1 0 2 3 1 0 2 0 1 0
        ++ row16 2 3 1 4 2 0 5 0 2 3 1 0 2 0 1 0
        ++ row16 2 3 1 4 2 0 1 0 2 3 1 0 2 0 1 0)
    ∷ (row16 2 3 1 4 2 0 5 0 2 3 1 0 6 0 1 0
        ++ row16 2 3 1 4 2 0 1 0 7 3 1 0 2 0 1 0
        ++ row16 2 3 1 4 2 0 5 0 2 3 1 0 2 0 1 0
        ++ row16 2 8 1 4 2 0 1 0 2 3 1 0 2 0 1 0
        ++ row16 2 3 1 4 2 0 5 0 2 3 1 0 6 0 1 0
        ++ row16 2 3 1 4 2 0 1 0 2 3 1 0 2 0 1 0
        ++ row16 2 3 9 4 2 0 5 0 2 3 1 0 2 0 1 0
        ++ row16 2 3 1 4 2 0 1 0 2 3 1 0 2 0 1 0
        ++ row16 2 3 1 4 2 0 5 0 2 3 1 0 6 0 1 0
        ++ row16 2 3 1 4 2 0 1 0 7 3 1 0 2 0 1 0
        ++ row16 2 3 1 4 2 0 5 0 2 3 1 0 2 0 1 0
        ++ row16 2 3 1 4 2 0 1 0 2 3 1 0 2 0 1 0
        ++ row16 2 3 1 4 2 10 5 0 2 3 1 0 6 0 1 0
        ++ row16 2 3 1 4 2 0 1 0 2 3 1 0 2 0 1 0
        ++ row16 2 3 1 4 2 0 5 0 2 3 1 0 2 0 1 0
        ++ row16 2 3 1 4 2 0 1 0 2 3 1 0 2 0 1 0)
    ∷ (row16 2 3 1 4 2 0 5 0 2 3 1 0 6 0 1 0
        ++ row16 2 3 1 4 2 0 1 0 7 3 1 0 2 0 1 0
        ++ row16 2 3 1 4 2 0 5 0 2 3 1 0 2 0 1 0
        ++ row16 2 8 1 4 2 0 1 0 2 3 1 0 2 0 1 0
        ++ row16 2 3 1 4 2 0 5 0 2 3 1 0 6 0 1 0
        ++ row16 2 3 1 4 2 0 1 0 2 3 1 0 2 0 1 0
        ++ row16 2 3 1 4 2 0 5 0 2 3 1 0 2 0 1 0
        ++ row16 2 3 1 4 2 0 1 0 2 3 1 0 2 0 1 0
        ++ row16 2 3 1 4 2 0 5 0 2 3 11 0 6 0 1 0
        ++ row16 2 3 1 4 2 0 1 0 7 3 1 0 2 0 1 0
        ++ row16 2 3 1 4 2 0 5 0 2 3 1 0 2 0 1 0
        ++ row16 2 3 1 4 2 0 1 0 2 3 1 0 2 0 1 0
        ++ row16 2 3 1 4 2 0 5 0 2 3 1 0 6 0 1 0
        ++ row16 2 3 1 4 2 0 1 0 2 3 1 0 2 0 1 0
        ++ row16 2 3 1 4 2 0 5 0 2 3 1 0 2 0 1 0
        ++ row16 2 3 1 4 2 0 1 0 2 3 1 0 2 0 1 0)
    ∷ (row16 2 3 1 4 2 0 5 0 2 3 1 0 6 0 1 0
        ++ row16 2 3 1 4 12 0 1 0 7 3 1 0 2 0 1 0
        ++ row16 2 3 1 4 2 0 5 0 2 3 1 0 2 0 1 0
        ++ row16 2 8 1 4 2 0 1 0 2 3 1 0 2 0 1 0
        ++ row16 2 3 1 4 2 0 5 0 2 3 1 0 6 0 1 0
        ++ row16 2 3 1 4 2 0 1 0 2 3 1 0 2 0 1 0
        ++ row16 2 3 1 4 2 0 5 0 2 3 1 0 2 0 1 0
        ++ row16 2 3 1 4 2 0 1 0 2 3 1 0 2 0 1 0
        ++ row16 2 3 1 4 2 0 5 0 2 3 1 0 6 0 1 0
        ++ row16 2 3 1 4 2 0 1 0 7 3 1 0 2 0 1 0
        ++ row16 2 3 1 4 2 0 5 0 2 3 1 0 2 0 1 0
        ++ row16 2 3 1 4 2 0 1 0 2 3 1 0 2 0 1 0
        ++ row16 2 3 1 4 2 0 5 0 2 3 1 0 6 0 1 0
        ++ row16 2 3 1 4 2 0 1 0 2 3 1 0 2 0 1 0
        ++ row16 2 3 1 4 2 0 5 0 2 3 1 0 2 0 1 0
        ++ row16 2 3 1 4 2 0 1 0 2 3 1 0 2 0 1 0)
    ∷ (row16 2 3 1 4 2 0 5 0 2 3 1 0 6 0 1 0
        ++ row16 2 3 1 4 2 0 1 0 7 3 1 0 2 0 1 0
        ++ row16 2 3 1 4 2 0 5 0 13 3 1 0 2 0 1 0
        ++ row16 2 8 1 4 2 0 1 0 2 3 1 0 2 0 1 0
        ++ row16 2 3 1 4 2 0 5 0 2 3 1 0 6 0 1 0
        ++ row16 2 3 1 4 2 0 1 0 2 3 1 0 2 0 1 0
        ++ row16 2 3 9 4 2 0 5 0 2 3 1 0 2 0 1 0
        ++ row16 2 3 1 4 2 0 1 0 2 3 1 0 2 0 1 0
        ++ row16 2 3 1 4 2 0 5 0 2 3 1 0 6 0 1 0
        ++ row16 2 3 1 4 2 0 1 0 7 3 1 0 2 0 1 0
        ++ row16 2 3 1 4 2 0 5 0 2 3 1 0 2 0 1 0
        ++ row16 2 3 1 4 2 0 1 0 2 3 1 0 2 0 1 0
        ++ row16 2 3 1 4 2 0 5 0 2 3 1 0 6 0 1 0
        ++ row16 2 3 1 4 2 0 1 0 2 3 1 0 2 0 1 0
        ++ row16 2 3 1 4 2 0 5 0 2 3 1 0 2 0 1 0
        ++ row16 2 3 1 4 2 0 1 0 2 3 1 0 2 0 1 0)
    ∷ (row16 2 3 1 4 2 0 5 0 2 3 1 0 6 0 1 0
        ++ row16 2 3 1 4 2 0 1 0 7 3 1 0 2 0 1 0
        ++ row16 2 3 1 4 2 0 5 0 2 3 1 0 2 0 1 0
        ++ row16 2 8 1 4 2 0 1 0 2 3 1 0 2 0 1 0
        ++ row16 2 3 1 4 2 0 5 0 2 3 1 0 6 0 1 0
        ++ row16 14 3 1 4 2 0 1 0 2 3 1 0 2 0 1 0
        ++ row16 2 3 9 4 2 0 5 0 2 3 1 0 2 0 1 0
        ++ row16 2 3 1 4 2 0 1 0 2 3 1 0 2 0 1 0
        ++ row16 2 3 1 4 2 0 5 0 2 3 1 0 6 0 1 0
        ++ row16 2 3 1 4 2 0 1 0 7 3 1 0 2 0 1 0
        ++ row16 2 3 1 4 2 0 5 0 2 3 1 0 2 0 1 0
        ++ row16 2 3 1 4 2 0 1 0 2 3 1 0 2 0 1 0
        ++ row16 2 3 1 4 2 10 5 0 2 3 1 0 6 0 1 0
        ++ row16 2 3 1 4 2 0 1 0 2 3 1 0 2 0 1 0
        ++ row16 2 3 1 4 2 0 5 0 2 3 1 0 2 0 1 0
        ++ row16 2 3 1 4 2 0 1 0 2 3 1 0 2 0 1 0)
    ∷ (row16 2 3 1 4 2 0 5 0 2 3 1 0 6 0 1 0
        ++ row16 2 3 1 4 2 0 1 0 7 3 1 0 2 0 1 0
        ++ row16 2 3 1 4 2 0 5 0 2 3 1 0 2 0 1 0
        ++ row16 2 8 1 4 2 0 1 0 2 3 1 0 2 0 1 0
        ++ row16 2 3 1 4 2 0 5 0 2 3 1 0 6 0 1 0
        ++ row16 2 3 1 4 2 0 1 0 2 3 1 0 2 0 1 0
        ++ row16 2 3 9 4 2 0 5 0 2 3 1 0 2 0 1 0
        ++ row16 2 3 1 4 2 0 1 0 2 3 1 0 2 0 1 0
        ++ row16 2 3 1 4 2 0 5 0 2 3 1 0 6 0 1 0
        ++ row16 2 3 1 4 2 0 1 0 7 3 1 0 2 0 1 0
        ++ row16 15 3 1 4 2 0 5 0 2 3 1 0 2 0 1 0
        ++ row16 2 3 1 4 2 0 1 0 2 3 1 0 2 0 1 0
        ++ row16 2 3 1 4 2 10 5 0 2 3 1 0 6 0 1 0
        ++ row16 2 3 1 4 2 0 1 0 2 3 1 0 2 0 1 0
        ++ row16 2 3 1 4 2 0 5 0 2 3 1 0 2 0 1 0
        ++ row16 2 3 1 4 2 0 1 0 2 3 1 0 2 0 1 0)
    ∷ (row16 2 3 1 4 2 0 5 0 2 3 1 0 6 0 1 0
        ++ row16 2 3 1 4 2 0 1 0 7 3 1 0 2 0 1 0
        ++ row16 2 3 1 4 2 0 5 0 2 3 1 0 2 0 1 0
        ++ row16 2 8 1 4 2 0 1 0 2 3 1 0 2 0 1 0
        ++ row16 2 16 1 4 2 0 5 0 2 3 1 0 6 0 1 0
        ++ row16 2 3 1 4 2 0 1 0 2 3 1 0 2 0 1 0
        ++ row16 2 3 1 4 2 0 5 0 2 3 1 0 2 0 1 0
        ++ row16 2 3 1 4 2 0 1 0 2 3 1 0 2 0 1 0
        ++ row16 2 3 1 4 2 0 5 0 2 3 11 0 6 0 1 0
        ++ row16 2 3 1 4 2 0 1 0 7 3 1 0 2 0 1 0
        ++ row16 2 3 1 4 2 0 5 0 2 3 1 0 2 0 1 0
        ++ row16 2 3 1 4 2 0 1 0 2 3 1 0 2 0 1 0
        ++ row16 2 3 1 4 2 0 5 0 2 3 1 0 6 0 1 0
        ++ row16 2 3 1 4 2 0 1 0 2 3 1 0 2 0 1 0
        ++ row16 2 3 1 4 2 0 5 0 2 3 1 0 2 0 1 0
        ++ row16 2 3 1 4 2 0 1 0 2 3 1 0 2 0 1 0)
    ∷ (row16 2 3 1 4 2 0 5 0 2 3 1 0 6 0 1 0
        ++ row16 2 3 1 4 2 0 1 0 7 3 1 0 2 0 1 0
        ++ row16 2 3 1 4 2 0 5 0 2 3 1 0 2 0 1 0
        ++ row16 2 8 1 4 2 0 1 0 2 3 1 0 2 0 1 0
        ++ row16 2 3 1 4 2 0 5 0 2 3 1 0 6 0 1 0
        ++ row16 2 3 1 4 2 0 1 0 2 3 1 0 2 0 1 0
        ++ row16 2 3 9 4 2 0 5 0 2 3 1 0 2 0 1 0
        ++ row16 2 3 1 4 2 0 1 0 2 3 1 0 2 0 1 0
        ++ row16 2 3 17 4 2 0 5 0 2 3 1 0 6 0 1 0
        ++ row16 2 3 1 4 2 0 1 0 7 3 1 0 2 0 1 0
        ++ row16 2 3 1 4 2 0 5 0 2 3 1 0 2 0 1 0
        ++ row16 2 3 1 4 2 0 1 0 2 3 1 0 2 0 1 0
        ++ row16 2 3 1 4 2 0 5 0 2 3 1 0 6 0 1 0
        ++ row16 2 3 1 4 2 0 1 0 2 3 1 0 2 0 1 0
        ++ row16 2 3 1 4 2 0 5 0 2 3 1 0 2 0 1 0
        ++ row16 2 3 1 4 2 0 1 0 2 3 1 0 2 0 1 0)
    ∷ (row16 2 3 1 4 2 18 5 0 2 3 1 0 6 0 1 0
        ++ row16 2 3 1 4 2 0 1 0 7 3 1 0 2 0 1 0
        ++ row16 2 3 1 4 2 0 5 0 2 3 1 0 2 0 1 0
        ++ row16 2 8 1 4 2 0 1 0 2 3 1 0 2 0 1 0
        ++ row16 2 3 1 4 2 0 5 0 2 3 1 0 6 0 1 0
        ++ row16 2 3 1 4 2 0 1 0 2 3 1 0 2 0 1 0
        ++ row16 2 3 1 4 2 0 5 0 2 3 1 0 2 0 1 0
        ++ row16 2 3 1 4 2 0 1 0 2 3 1 0 2 0 1 0
        ++ row16 2 3 1 4 2 0 5 0 2 3 1 0 6 0 1 0
        ++ row16 2 3 1 4 2 0 1 0 7 3 1 0 2 0 1 0
        ++ row16 2 3 1 4 2 0 5 0 2 3 1 0 2 0 1 0
        ++ row16 2 3 1 4 2 0 1 0 2 3 1 0 2 0 1 0
        ++ row16 2 3 1 4 2 0 5 0 2 3 1 0 6 0 1 0
        ++ row16 2 3 1 4 2 0 1 0 2 3 1 0 2 0 1 0
        ++ row16 2 3 1 4 2 0 5 0 2 3 1 0 2 0 1 0
        ++ row16 2 3 1 4 2 0 1 0 2 3 1 0 2 0 1 0)
    ∷ (row16 2 3 1 4 2 0 5 0 2 3 19 0 6 0 1 0
        ++ row16 2 3 1 4 2 0 1 0 7 3 1 0 2 0 1 0
        ++ row16 2 3 1 4 2 0 5 0 2 3 1 0 2 0 1 0
        ++ row16 2 8 1 4 2 0 1 0 2 3 1 0 2 0 1 0
        ++ row16 2 3 1 4 2 0 5 0 2 3 1 0 6 0 1 0
        ++ row16 2 3 1 4 2 0 1 0 2 3 1 0 2 0 1 0
        ++ row16 2 3 9 4 2 0 5 0 2 3 1 0 2 0 1 0
        ++ row16 2 3 1 4 2 0 1 0 2 3 1 0 2 0 1 0
        ++ row16 2 3 1 4 2 0 5 0 2 3 1 0 6 0 1 0
        ++ row16 2 3 1 4 2 0 1 0 7 3 1 0 2 0 1 0
        ++ row16 2 3 1 4 2 0 5 0 2 3 1 0 2 0 1 0
        ++ row16 2 3 1 4 2 0 1 0 2 3 1 0 2 0 1 0
        ++ row16 2 3 1 4 2 0 5 0 2 3 1 0 6 0 1 0
        ++ row16 2 3 1 4 2 0 1 0 2 3 1 0 2 0 1 0
        ++ row16 2 3 1 4 2 0 5 0 2 3 1 0 2 0 1 0
        ++ row16 2 3 1 4 2 0 1 0 2 3 1 0 2 0 1 0)
    ∷ []

-- rows 12 to 23
unfoldable pub big_dfa_12 : List (List ℕ)
big_dfa_12 =
    (row16 2 3 1 4 2 0 5 0 2 3 1 0 6 0 1 0
      ++ row16 2 3 1 4 2 20 1 0 7 3 1 0 2 0 1 0
      ++ row16 2 3 1 4 2 0 5 0 2 3 1 0 2 0 1 0
      ++ row16 2 8 1 4 2 0 1 0 2 3 1 0 2 0 1 0
      ++ row16 2 3 1 4 2 0 5 0 2 3 1 0 6 0 1 0
      ++ row16 2 3 1 4 2 0 1 0 2 3 1 0 2 0 1 0
      ++ row16 2 3 9 4 2 0 5 0 2 3 1 0 2 0 1 0
      ++ row16 2 3 1 4 2 0 1 0 2 3 1 0 2 0 1 0
      ++ row16 2 3 1 4 2 0 5 0 2 3 1 0 6 0 1 0
      ++ row16 2 3 1 4 2 0 1 0 7 3 1 0 2 0 1 0
      ++ row16 2 3 1 4 2 0 5 0 2 3 1 0 2 0 1 0
      ++ row16 2 3 1 4 2 0 1 0 2 3 1 0 2 0 1 0
      ++ row16 2 3 1 4 2 10 5 0 2 3 1 0 6 0 1 0
      ++ row16 2 3 1 4 2 0 1 0 2 3 1 0 2 0 1 0
      ++ row16 2 3 1 4 2 0 5 0 2 3 1 0 2 0 1 0
      ++ row16 2 3 1 4 2 0 1 0 2 3 1 0 2 0 1 0)
    ∷ (row16 2 3 1 4 2 0 5 0 2 3 1 0 6 0 1 0
        ++ row16 2 3 1 4 2 0 1 0 7 3 1 0 2 0 1 0
        ++ row16 2 3 1 4 2 0 5 0 2 3 1 21 2 0 1 0
        ++ row16 2 8 1 4 2 0 1 0 2 3 1 0 2 0 1 0
        ++ row16 2 3 1 4 2 0 5 0 2 3 1 0 6 0 1 0
        ++ row16 2 3 1 4 2 0 1 0 2 3 1 0 2 0 1 0
        ++ row16 2 3 9 4 2 0 5 0 2 3 1 0 2 0 1 0
        ++ row16 2 3 1 4 2 0 1 0 2 3 1 0 2 0 1 0
        ++ row16 2 3 1 4 2 0 5 0 2 3 1 0 6 0 1 0
        ++ row16 2 3 1 4 2 0 1 0 7 3 1 0 2 0 1 0
        ++ row16 2 3 1 4 2 0 5 0 2 3 1 0 2 0 1 0
        ++ row16 2 3 1 4 2 0 1 0 2 3 1 0 2 0 1 0
        ++ row16 2 3 1 4 2 10 5 0 2 3 1 0 6 0 1 0
        ++ row16 2 3 1 4 2 0 1 0 2 3 1 0 2 0 1 0
        ++ row16 2 3 1 4 2 0 5 0 2 3 1 0 2 0 1 0
        ++ row16 2 3 1 4 2 0 1 0 2 3 1 0 2 0 1 0)
    ∷ (row16 2 3 1 4 2 0 5 0 2 3 1 0 6 0 1 0
        ++ row16 2 3 1 4 2 0 1 0 7 3 1 0 2 0 1 0
        ++ row16 2 3 1 4 2 0 5 0 2 3 1 0 2 0 1 0
        ++ row16 2 8 1 4 2 0 1 0 2 3 1 0 2 0 1 0
        ++ row16 2 3 1 4 2 0 5 0 2 3 1 0 6 0 1 0
        ++ row16 2 3 1 4 2 0 22 0 2 3 1 0 2 0 1 0
        ++ row16 2 3 9 4 2 0 5 0 2 3 1 0 2 0 1 0
        ++ row16 2 3 1 4 2 0 1 0 2 3 1 0 2 0 1 0
        ++ row16 2 3 1 4 2 0 5 0 2 3 1 0 6 0 1 0
        ++ row16 2 3 1 4 2 0 1 0 7 3 1 0 2 0 1 0
        ++ row16 2 3 1 4 2 0 5 0 2 3 1 0 2 0 1 0
        ++ row16 2 3 1 4 2 0 1 0 2 3 1 0 2 0 1 0
        ++ row16 2 3 1 4 2 10 5 0 2 3 1 0 6 0 1 0
        ++ row16 2 3 1 4 2 0 1 0 2 3 1 0 2 0 1 0
        ++ row16 2 3 1 4 2 0 5 0 2 3 1 0 2 0 1 0
        ++ row16 2 3 1 4 2 0 1 0 2 3 1 0 2 0 1 0)
    ∷ (row16 2 3 1 4 2 0 5 0 2 3 1 0 6 0 1 0
        ++ row16 2 3 1 4 2 0 1 0 7 3 1 0 2 0 1 0
        ++ row16 2 3 1 4 2 0 5 0 2 3 1 0 2 0 1 0
        ++ row16 2 8 1 4 2 0 1 0 2 3 1 0 2 0 1 0
        ++ row16 2 3 1 4 2 0 5 0 2 3 1 0 6 0 1 0
        ++ row16 2 3 1 4 2 0 1 0 2 3 1 0 2 0 1 0
        ++ row16 2 3 9 4 2 0 5 0 2 3 1 0 2 0 1 0
        ++ row16 2 3 1 4 2 0 1 0 2 3 1 0 2 0 1 0
        ++ row16 2 3 1 4 2 0 5 0 2 3 1 0 6 0 1 0
        ++ row16 2 3 1 4 2 0 1 0 7 3 1 0 2 0 1 0
        ++ row16 2 3 1 4 2 0 5 0 2 3 1 0 23 0 1 0
        ++ row16 2 3 1 4 2 0 1 0 2 3 1 0 2 0 1 0
        ++ row16 2 3 1 4 2 10 5 0 2 3 1 0 6 0 1 0
        ++ row16 2 3 1 4 2 0 1 0 2 3 1 0 2 0 1 0
        ++ row16 2 3 1 4 2 0 5 0 2 3 1 0 2 0 1 0
        ++ row16 2 3 1 4 2 0 1 0 2 3 1 0 2 0 1 0)
    ∷ (row16 2 3 1 4 2 0 5 0 2 3 1 0 6 0 1 0
        ++ row16 2 3 1 4 2 0 1 0 7 3 1 0 2 0 1 0
        ++ row16 2 3 1 4 2 0 5 0 2 3 1 0 2 0 1 0
        ++ row16 2 8 1 4 2 0 1 0 2 3 1 0 2 0 1 0
        ++ row16 2 3 1 4 2 0 5 0 2 3 1 0 6 0 1 0
        ++ row16 2 3 1 4 2 0 1 0 2 24 1 0 2 0 1 0
        ++ row16 2 3 1 4 2 0 5 0 2 3 1 0 2 0 1 0
        ++ row16 2 3 1 4 2 0 1 0 2 3 1 0 2 0 1 0
        ++ row16 2 3 1 4 2 0 5 0 2 3 11 0 6 0 1 0
        ++ row16 2 3 1 4 2 0 1 0 7 3 1 0 2 0 1 0
        ++ row16 2 3 1 4 2 0 5 0 2 3 1 0 2 0 1 0
        ++ row16 2 3 1 4 2 0 1 0 2 3 1 0 2 0 1 0
        ++ row16 2 3 1 4 2 0 5 0 2 3 1 0 6 0 1 0
        ++ row16 2 3 1 4 2 0 1 0 2 3 1 0 2 0 1 0
        ++ row16 2 3 1 4 2 0 5 0 2 3 1 0 2 0 1 0
        ++ row16 2 3 1 4 2 0 1 0 2 3 1 0 2 0 1 0)
    ∷ (row16 2 3 1 4 2 0 5 0 2 3 1 0 6 0 1 0
        ++ row16 2 3 1 4 2 0 1 0 7 3 1 0 2 0 1 0
        ++ row16 2 3 1 4 2 0 5 0 2 3 1 0 2 0 1 0
        ++ row16 2 8 1 4 2 0 1 0 2 3 1 0 2 0 1 0
        ++ row16 2 3 1 4 2 0 5 0 2 3 1 0 6 0 1 0
        ++ row16 2 3 1 4 2 0 1 0 2 3 1 0 2 0 1 0
        ++ row16 2 3 9 4 2 0 5 0 2 3 1 0 2 0 1 0
        ++ row16 2 3 1 4 2 0 1 0 2 3 1 0 2 0 1 0
        ++ row16 2 3 1 4 2 0 5 0 2 3 1 0 6 0 1 0
        ++ row16 2 3 1 4 2 0 1 0 7 3 1 0 2 0 1 0
        ++ row16 2 3 1 4 2 0 5 0 2 3 1 0 2 0 1 0
        ++ row16 2 3 25 4 2 0 1 0 2 3 1 0 2 0 1 0
        ++ row16 2 3 1 4 2 0 5 0 2 3 1 0 6 0 1 0
        ++ row16 2 3 1 4 2 0 1 0 2 3 1 0 2 0 1 0
        ++ row16 2 3 1 4 2 0 5 0 2 3 1 0 2 0 1 0
        ++ row16 2 3 1 4 2 0 1 0 2 3 1 0 2 0 1 0)
    ∷ (row16 2 3 1 4 2 0 5 0 2 3 1 0 6 0 1 0
        ++ row16 2 3 1 4 2 0 1 0 7 3 1 0 2 0 1 0
        ++ row16 2 3 1 4 2 0 5 0 2 3 1 0 2 0 1 0
        ++ row16 2 8 1 4 2 0 1 0 2 3 1 0 2 0 1 0
        ++ row16 2 3 1 4 2 0 5 0 2 3 1 0 6 0 1 0
        ++ row16 2 3 1 4 2 0 1 0 2 3 1 0 2 0 1 0
        ++ row16 2 3 1 4 26 0 5 0 2 3 1 0 2 0 1 0
        ++ row16 2 3 1 4 2 0 1 0 2 3 1 0 2 0 1 0
        ++ row16 2 3 1 4 2 0 5 0 2 3 1 0 6 0 1 0
        ++ row16 2 3 1 4 2 0 1 0 7 3 1 0 2 0 1 0
        ++ row16 2 3 1 4 2 0 5 0 2 3 1 0 2 0 1 0
        ++ row16 2 3 1 4 2 0 1 0 2 3 1 0 2 0 1 0
        ++ row16 2 3 1 4 2 0 5 0 2 3 1 0 6 0 1 0
        ++ row16 2 3 1 4 2 0 1 0 2 3 1 0 2 0 1 0
        ++ row16 2 3 1 4 2 0 5 0 2 3 1 0 2 0 1 0
        ++ row16 2 3 1 4 2 0 1 0 2 3 1 0 2 0 1 0)
    ∷ (row16 2 3 1 4 2 0 5 0 2 3 1 0 6 0 1 0
        ++ row16 2 3 1 4 2 0 1 0 7 3 1 0 2 0 1 0
        ++ row16 2 3 1 4 2 0 5 0 2 3 1 0 2 0 1 0
        ++ row16 2 8 1 4 2 0 1 0 2 3 1 0 2 0 1 0
        ++ row16 2 3 1 4 2 0 5 0 2 3 1 0 6 0 1 0
        ++ row16 2 3 1 4 2 0 1 0 2 3 1 0 2 0 1 0
        ++ row16 2 3 9 4 2 0 5 0 2 3 1 0 2 0 1 0
        ++ row16 2 3 1 4 2 0 1 0 2 3 1 0 2 0 1 0
        ++ row16 2 3 1 4 2 0 5 0 2 3 1 0 6 0 1 0
        ++ row16 2 3 1 4 2 0 1 0 7 3 1 0 2 0 1 0
        ++ row16 2 3 1 4 2 0 5 0 2 3 1 0 2 0 1 0
        ++ row16 2 3 1 4 2 0 1 0 2 3 1 0 2 0 1 0
        ++ row16 2 3 1 4 2 0 5 0 2 27 1 0 6 0 1 0
        ++ row16 2 3 1 4 2 0 1 0 2 3 1 0 2 0 1 0
        ++ row16 2 3 1 4 2 0 5 0 2 3 1 0 2 0 1 0
        ++ row16 2 3 1 4 2 0 1 0 2 3 1 0 2 0 1 0)
    ∷ (row16 2 3 1 4 2 0 5 0 2 3 1 0 6 0 1 0
        ++ row16 2 3 1 4 2 0 1 0 7 3 1 0 2 0 1 0
        ++ row16 2 3 1 4 2 0 5 0 2 3 1 0 2 0 1 0
        ++ row16 2 8 1 4 2 0 1 0 2 3 1 0 2 0 1 0
        ++ row16 2 3 1 4 2 0 5 0 2 3 1 0 6 0 1 0
        ++ row16 2 3 1 4 2 0 1 0 2 3 1 0 2 0 1 0
        ++ row16 2 3 1 4 2 0 5 0 2 3 1 0 2 0 1 0
        ++ row16 2 3 1 4 2 0 1 0 2 3 1 0 2 0 1 0
        ++ row16 2 3 1 4 2 0 5 0 2 3 1 0 6 0 1 0
        ++ row16 2 3 28 4 2 0 1 0 7 3 1 0 2 0 1 0
        ++ row16 2 3 1 4 2 0 5 0 2 3 1 0 2 0 1 0
        ++ row16 2 3 1 4 2 0 1 0 2 3 1 0 2 0 1 0
        ++ row16 2 3 1 4 2 0 5 0 2 3 1 0 6 0 1 0
        ++ row16 2 3 1 4 2 0 1 0 2 3 1 0 2 0 1 0
        ++ row16 2 3 1 4 2 0 5 0 2 3 1 0 2 0 1 0
        ++ row16 2 3 1 4 2 0 1 0 2 3 1 0 2 0 1 0)
    ∷ (row16 2 3 1 4 2 0 5 0 2 3 1 0 6 0 1 0
        ++ row16 2 3 1 4 2 0 1 0 7 3 1 0 2 0 1 0
        ++ row16 2 3 1 4 29 0 5 0 2 3 1 0 2 0 1 0
        ++ row16 2 8 1 4 2 0 1 0 2 3 1 0 2 0 1 0
        ++ row16 2 3 1 4 2 0 5 0 2 3 1 0 6 0 1 0
        ++ row16 2 3 1 4 2 0 1 0 2 3 1 0 2 0 1 0
        ++ row16 2 3 1 4 2 0 5 0 2 3 1 0 2 0 1 0
        ++ row16 2 3 1 4 2 0 1 0 2 3 1 0 2 0 1 0
        ++ row16 2 3 1 4 2 0 5 0 2 3 1 0 6 0 1 0
        ++ row16 2 3 1 4 2 0 1 0 7 3 1 0 2 0 1 0
        ++ row16 2 3 1 4 2 0 5 0 2 3 1 0 2 0 1 0
        ++ row16 2 3 1 4 2 0 1 0 2 3 1 0 2 0 1 0
        ++ row16 2 3 1 4 2 0 5 0 2 3 1 0 6 0 1 0
        ++ row16 2 3 1 4 2 0 1 0 2 3 1 0 2 0 1 0
        ++ row16 2 3 1 4 2 0 5 0 2 3 1 0 2 0 1 0
        ++ row16 2 3 1 4 2 0 1 0 2 3 1 0 2 0 1 0)
    ∷ (row16 2 3 1 4 2 0 5 0 2 3 1 0 6 0 1 0
        ++ row16 2 3 1 4 2 0 1 0 7 3 1 0 2 0 1 0
        ++ row16 2 3 1 4 2 0 5 0 2 3 1 0 2 0 1 0
        ++ row16 2 8 1 4 2 0 1 0 2 3 1 0 2 0 1 0
        ++ row16 2 3 1 4 2 0 5 0 2 30 1 0 6 0 1 0
        ++ row16 2 3 1 4 2 0 1 0 2 3 1 0 2 0 1 0
        ++ row16 2 3 9 4 2 0 5 0 2 3 1 0 2 0 1 0
        ++ row16 2 3 1 4 2 0 1 0 2 3 1 0 2 0 1 0
        ++ row16 2 3 1 4 2 0 5 0 2 3 1 0 6 0 1 0
        ++ row16 2 3 1 4 2 0 1 0 7 3 1 0 2 0 1 0
        ++ row16 2 3 1 4 2 0 5 0 2 3 1 0 2 0 1 0
        ++ row16 2 3 1 4 2 0 1 0 2 3 1 0 2 0 1 0
        ++ row16 2 3 1 4 2 0 5 0 2 3 1 0 6 0 1 0
        ++ row16 2 3 1 4 2 0 1 0 2 3 1 0 2 0 1 0
        ++ row16 2 3 1 4 2 0 5 0 2 3 1 0 2 0 1 0
        ++ row16 2 3 1 4 2 0 1 0 2 3 1 0 2 0 1 0)
    ∷ (row16 2 3 1 4 2 0 5 0 2 3 1 0 6 0 1 0
        ++ row16 2 3 1 4 2 0 1 0 7 3 1 0 2 0 1 0
        ++ row16 2 3 1 4 2 0 5 0 2 3 1 0 2 0 1 0
        ++ row16 2 8 1 4 2 0 1 0 2 3 1 0 2 0 1 0
        ++ row16 2 3 1 4 2 0 5 0 2 3 1 0 6 0 1 0
        ++ row16 2 3 1 4 2 0 1 0 2 3 1 0 2 0 1 0
        ++ row16 2 3 9 4 2 0 5 0 2 3 1 0 2 0 1 0
        ++ row16 2 3 1 4 2 0 1 0 2 3 1 0 2 0 1 0
        ++ row16 2 3 1 4 2 0 5 0 2 3 1 0 6 0 1 0
        ++ row16 2 3 1 31 2 0 1 0 7 3 1 0 2 0 1 0
        ++ row16 2 3 1 4 2 0 5 0 2 3 1 0 2 0 1 0
        ++ row16 2 3 1 4 2 0 1 0 2 3 1 0 2 0 1 0
        ++ row16 2 3 1 4 2 10 5 0 2 3 1 0 6 0 1 0
        ++ row16 2 3 1 4 2 0 1 0 2 3 1 0 2 0 1 0
        ++ row16 2 3 1 4 2 0 5 0 2 3 1 0 2 0 1 0
        ++ row16 2 3 1 4 2 0 1 0 2 3 1 0 2 0 1 0)
    ∷ []
