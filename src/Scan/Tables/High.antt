-- ===== src/Scan/Tables/High.antt =====
-- src/scantab.h, rows of `big_dfa`: the state after one more byte.
use lbzip.Shared.{ℕ, List, [], ◌∷◌, ◌++◌}
use lbzip.Scan.Tables.Row.{row16}

-- rows 24 to 36
unfoldable pub big_dfa_24 : List (List ℕ)
big_dfa_24 =
    (row16 2 3 1 4 2 0 5 0 2 3 1 0 6 0 1 0
      ++ row16 2 3 1 4 2 0 1 0 7 3 1 0 2 0 1 0
      ++ row16 2 3 1 4 2 0 32 0 2 3 1 0 2 0 1 0
      ++ row16 2 8 1 4 2 0 1 0 2 3 1 0 2 0 1 0
      ++ row16 2 3 1 4 2 0 5 0 2 3 1 0 6 0 1 0
      ++ row16 2 3 1 4 2 0 1 0 2 3 1 0 2 0 1 0
      ++ row16 2 3 1 4 2 0 5 0 2 3 1 0 2 0 1 0
      ++ row16 2 3 1 4 2 0 1 0 2 3 1 0 2 0 1 0
      ++ row16 2 3 1 4 2 0 5 0 2 3 11 0 6 0 1 0
      ++ row16 2 3 1 4 2 0 1 0 7 3 1 0 2 0 1 0
      ++ row16 2 3 1 4 2 0 5 0 2 3 1 0 2 0 1 0
      ++ row16 2 3 1 4 2 0 1 0 2 3 1 0 2 0 1 0
      ++ row16 2 3 1 4 2 0 5 0 2 3 1 0 6 0 1 0
      ++ row16 2 3 1 4 2 0 1 0 2 3 1 0 2 0 1 0
      ++ row16 2 3 1 4 2 0 5 0 2 3 1 0 2 0 1 0
      ++ row16 2 3 1 4 2 0 1 0 2 3 1 0 2 0 1 0)
    ∷ (row16 2 3 1 4 2 0 5 0 2 3 1 0 6 0 1 0
        ++ row16 2 3 1 4 2 0 1 0 7 3 1 0 2 0 1 0
        ++ row16 2 3 1 4 2 0 5 0 2 3 1 0 2 0 1 0
        ++ row16 2 8 1 4 2 0 1 0 2 3 1 0 2 0 1 0
        ++ row16 2 3 1 4 2 0 5 0 2 3 1 0 33 0 1 0
        ++ row16 2 3 1 4 2 0 1 0 2 3 1 0 2 0 1 0
        ++ row16 2 3 9 4 2 0 5 0 2 3 1 0 2 0 1 0
        ++ row16 2 3 1 4 2 0 1 0 2 3 1 0 2 0 1 0
        ++ row16 2 3 1 4 2 0 5 0 2 3 1 0 6 0 1 0
        ++ row16 2 3 1 4 2 0 1 0 7 3 1 0 2 0 1 0
        ++ row16 2 3 1 4 2 0 5 0 2 3 1 0 2 0 1 0
        ++ row16 2 3 1 4 2 0 1 0 2 3 1 0 2 0 1 0
        ++ row16 2 3 1 4 2 0 5 0 2 3 1 0 6 0 1 0
        ++ row16 2 3 1 4 2 0 1 0 2 3 1 0 2 0 1 0
        ++ row16 2 3 1 4 2 0 5 0 2 3 1 0 2 0 1 0
        ++ row16 2 3 1 4 2 0 1 0 2 3 1 0 2 0 1 0)
    ∷ (row16 2 3 1 4 2 0 5 0 2 3 1 0 6 0 1 0
        ++ row16 2 3 1 4 2 0 1 0 7 3 1 0 2 0 1 0
        ++ row16 2 3 1 4 2 0 5 0 2 3 1 0 2 0 1 0
        ++ row16 2 8 1 4 2 0 1 0 2 3 1 0 2 0 1 0
        ++ row16 2 3 1 4 2 0 5 0 2 3 1 0 6 0 1 0
        ++ row16 2 3 1 4 2 0 1 0 2 3 1 0 2 0 1 0
        ++ row16 2 3 9 4 2 0 5 0 2 3 1 0 2 0 1 0
        ++ row16 2 3 1 4 2 0 1 0 2 3 1 0 2 0 1 0
        ++ row16 2 3 1 4 2 0 5 0 2 3 1 0 6 0 1 0
        ++ row16 2 3 1 4 2 0 1 0 7 34 1 0 2 0 1 0
        ++ row16 2 3 1 4 2 0 5 0 2 3 1 0 2 0 1 0
        ++ row16 2 3 1 4 2 0 1 0 2 3 1 0 2 0 1 0
        ++ row16 2 3 1 4 2 10 5 0 2 3 1 0 6 0 1 0
        ++ row16 2 3 1 4 2 0 1 0 2 3 1 0 2 0 1 0
        ++ row16 2 3 1 4 2 0 5 0 2 3 1 0 2 0 1 0
        ++ row16 2 3 1 4 2 0 1 0 2 3 1 0 2 0 1 0)
    ∷ (row16 2 3 1 4 2 0 5 0 2 3 1 0 6 0 1 0
        ++ row16 2 3 1 4 2 0 1 0 7 3 1 0 2 0 1 0
        ++ row16 2 3 1 4 2 0 5 0 2 3 1 0 2 0 1 0
        ++ row16 2 8 35 4 2 0 1 0 2 3 1 0 2 0 1 0
        ++ row16 2 3 1 4 2 0 5 0 2 3 1 0 6 0 1 0
        ++ row16 2 3 1 4 2 0 1 0 2 3 1 0 2 0 1 0
        ++ row16 2 3 1 4 2 0 5 0 2 3 1 0 2 0 1 0
        ++ row16 2 3 1 4 2 0 1 0 2 3 1 0 2 0 1 0
        ++ row16 2 3 1 4 2 0 5 0 2 3 11 0 6 0 1 0
        ++ row16 2 3 1 4 2 0 1 0 7 3 1 0 2 0 1 0
        ++ row16 2 3 1 4 2 0 5 0 2 3 1 0 2 0 1 0
        ++ row16 2 3 1 4 2 0 1 0 2 3 1 0 2 0 1 0
        ++ row16 2 3 1 4 2 0 5 0 2 3 1 0 6 0 1 0
        ++ row16 2 3 1 4 2 0 1 0 2 3 1 0 2 0 1 0
        ++ row16 2 3 1 4 2 0 5 0 2 3 1 0 2 0 1 0
        ++ row16 2 3 1 4 2 0 1 0 2 3 1 0 2 0 1 0)
    ∷ (row16 2 3 1 4 2 0 5 0 2 3 1 0 6 0 1 0
        ++ row16 2 3 1 4 2 0 1 0 7 3 1 0 2 0 1 0
        ++ row16 2 3 1 4 2 0 5 0 2 3 1 0 2 0 1 0
        ++ row16 2 8 1 4 2 0 1 0 2 3 1 0 2 0 1 0
        ++ row16 2 3 1 4 2 0 5 0 2 3 1 0 6 0 1 0
        ++ row16 2 3 1 4 2 0 1 0 2 3 1 0 2 0 1 0
        ++ row16 2 3 9 4 2 36 5 0 2 3 1 0 2 0 1 0
        ++ row16 2 3 1 4 2 0 1 0 2 3 1 0 2 0 1 0
        ++ row16 2 3 1 4 2 0 5 0 2 3 1 0 6 0 1 0
        ++ row16 2 3 1 4 2 0 1 0 7 3 1 0 2 0 1 0
        ++ row16 2 3 1 4 2 0 5 0 2 3 1 0 2 0 1 0
        ++ row16 2 3 1 4 2 0 1 0 2 3 1 0 2 0 1 0
        ++ row16 2 3 1 4 2 0 5 0 2 3 1 0 6 0 1 0
        ++ row16 2 3 1 4 2 0 1 0 2 3 1 0 2 0 1 0
        ++ row16 2 3 1 4 2 0 5 0 2 3 1 0 2 0 1 0
        ++ row16 2 3 1 4 2 0 1 0 2 3 1 0 2 0 1 0)
    ∷ (row16 2 3 1 4 2 0 5 0 2 3 1 0 6 0 1 0
        ++ row16 2 3 1 4 2 0 1 0 7 3 1 0 2 0 1 0
        ++ row16 2 3 1 4 2 0 5 0 2 3 1 0 2 0 1 0
        ++ row16 2 8 1 4 2 0 1 0 2 3 1 0 2 0 1 0
        ++ row16 2 3 1 4 2 0 5 0 2 3 1 0 6 0 1 0
        ++ row16 2 3 1 4 2 0 1 0 2 3 1 0 2 0 1 0
        ++ row16 2 3 9 4 2 0 5 0 2 3 1 0 2 0 1 0
        ++ row16 2 3 1 4 2 0 1 0 2 3 1 0 2 0 1 0
        ++ row16 2 3 1 4 2 0 5 0 2 3 1 0 6 0 1 0
        ++ row16 2 3 1 4 2 0 1 0 7 3 1 0 2 0 1 0
        ++ row16 2 3 1 4 2 0 5 0 2 3 1 0 2 0 1 0
        ++ row16 2 3 1 4 2 0 1 0 2 3 1 0 2 0 1 0
        ++ row16 2 3 1 4 2 10 5 0 2 3 37 0 6 0 1 0
        ++ row16 2 3 1 4 2 0 1 0 2 3 1 0 2 0 1 0
        ++ row16 2 3 1 4 2 0 5 0 2 3 1 0 2 0 1 0
        ++ row16 2 3 1 4 2 0 1 0 2 3 1 0 2 0 1 0)
    ∷ (row16 2 3 1 4 2 0 5 0 2 3 1 0 6 0 1 0
        ++ row16 2 3 1 4 2 0 1 0 7 3 1 0 2 0 1 0
        ++ row16 2 3 1 4 2 0 5 0 2 3 1 0 2 0 1 0
        ++ row16 2 8 1 4 2 0 1 0 2 3 1 0 2 0 1 0
        ++ row16 2 3 1 4 2 0 5 0 2 3 1 0 6 0 1 0
        ++ row16 2 3 1 4 2 0 1 0 2 3 1 0 2 0 1 0
        ++ row16 2 3 1 4 2 0 5 0 2 3 1 0 2 0 1 0
        ++ row16 2 3 1 4 2 0 1 0 2 3 1 0 2 0 1 0
        ++ row16 2 3 1 4 2 0 5 0 2 3 11 0 6 0 1 0
        ++ row16 2 3 1 4 38 0 1 0 7 3 1 0 2 0 1 0
        ++ row16 2 3 1 4 2 0 5 0 2 3 1 0 2 0 1 0
        ++ row16 2 3 1 4 2 0 1 0 2 3 1 0 2 0 1 0
        ++ row16 2 3 1 4 2 0 5 0 2 3 1 0 6 0 1 0
        ++ row16 2 3 1 4 2 0 1 0 2 3 1 0 2 0 1 0
        ++ row16 2 3 1 4 2 0 5 0 2 3 1 0 2 0 1 0
        ++ row16 2 3 1 4 2 0 1 0 2 3 1 0 2 0 1 0)
    ∷ (row16 2 3 1 4 2 0 5 0 2 3 1 0 6 0 1 0
        ++ row16 2 3 1 4 12 0 1 0 7 3 1 0 2 0 1 0
        ++ row16 2 3 1 4 2 0 5 0 2 39 1 0 2 0 1 0
        ++ row16 2 8 1 4 2 0 1 0 2 3 1 0 2 0 1 0
        ++ row16 2 3 1 4 2 0 5 0 2 3 1 0 6 0 1 0
        ++ row16 2 3 1 4 2 0 1 0 2 3 1 0 2 0 1 0
        ++ row16 2 3 1 4 2 0 5 0 2 3 1 0 2 0 1 0
        ++ row16 2 3 1 4 2 0 1 0 2 3 1 0 2 0 1 0
        ++ row16 2 3 1 4 2 0 5 0 2 3 1 0 6 0 1 0
        ++ row16 2 3 1 4 2 0 1 0 7 3 1 0 2 0 1 0
        ++ row16 2 3 1 4 2 0 5 0 2 3 1 0 2 0 1 0
        ++ row16 2 3 1 4 2 0 1 0 2 3 1 0 2 0 1 0
        ++ row16 2 3 1 4 2 0 5 0 2 3 1 0 6 0 1 0
        ++ row16 2 3 1 4 2 0 1 0 2 3 1 0 2 0 1 0
        ++ row16 2 3 1 4 2 0 5 0 2 3 1 0 2 0 1 0
        ++ row16 2 3 1 4 2 0 1 0 2 3 1 0 2 0 1 0)
    ∷ (row16 2 3 1 4 2 0 5 0 2 3 1 0 6 0 1 0
        ++ row16 2 3 1 4 2 0 1 0 7 3 1 0 2 0 1 0
        ++ row16 2 3 1 4 2 0 5 0 13 3 1 0 2 0 1 0
        ++ row16 2 8 1 4 2 0 1 0 2 3 1 0 2 0 1 0
        ++ row16 2 3 1 4 2 0 5 0 2 3 1 0 6 0 1 0
        ++ row16 2 3 1 40 2 0 1 0 2 3 1 0 2 0 1 0
        ++ row16 2 3 9 4 2 0 5 0 2 3 1 0 2 0 1 0
        ++ row16 2 3 1 4 2 0 1 0 2 3 1 0 2 0 1 0
        ++ row16 2 3 1 4 2 0 5 0 2 3 1 0 6 0 1 0
        ++ row16 2 3 1 4 2 0 1 0 7 3 1 0 2 0 1 0
        ++ row16 2 3 1 4 2 0 5 0 2 3 1 0 2 0 1 0
        ++ row16 2 3 1 4 2 0 1 0 2 3 1 0 2 0 1 0
        ++ row16 2 3 1 4 2 0 5 0 2 3 1 0 6 0 1 0
        ++ row16 2 3 1 4 2 0 1 0 2 3 1 0 2 0 1 0
        ++ row16 2 3 1 4 2 0 5 0 2 3 1 0 2 0 1 0
        ++ row16 2 3 1 4 2 0 1 0 2 3 1 0 2 0 1 0)
    ∷ (row16 2 3 1 4 2 0 5 0 2 3 1 0 6 0 1 0
        ++ row16 2 3 1 4 2 0 1 0 7 3 1 0 2 0 1 0
        ++ row16 2 3 1 4 2 0 5 0 2 3 1 0 2 0 1 0
        ++ row16 2 8 1 4 2 0 1 0 2 3 1 0 2 0 1 0
        ++ row16 2 3 1 4 2 0 5 0 2 3 1 0 6 0 1 0
        ++ row16 14 3 1 4 2 0 1 0 2 3 1 0 2 0 1 0
        ++ row16 2 3 9 4 2 0 5 0 2 3 1 0 2 0 1 0
        ++ row16 2 3 1 4 2 0 1 0 2 3 1 0 2 0 1 0
        ++ row16 2 3 1 4 2 0 5 0 2 3 1 0 6 0 1 0
        ++ row16 2 3 1 4 2 0 1 0 7 3 1 0 2 0 1 0
        ++ row16 2 3 1 4 2 0 41 0 2 3 1 0 2 0 1 0
        ++ row16 2 3 1 4 2 0 1 0 2 3 1 0 2 0 1 0
        ++ row16 2 3 1 4 2 10 5 0 2 3 1 0 6 0 1 0
        ++ row16 2 3 1 4 2 0 1 0 2 3 1 0 2 0 1 0
        ++ row16 2 3 1 4 2 0 5 0 2 3 1 0 2 0 1 0
        ++ row16 2 3 1 4 2 0 1 0 2 3 1 0 2 0 1 0)
    ∷ (row16 2 3 1 4 2 0 5 0 2 3 1 0 6 0 1 0
        ++ row16 2 3 1 4 2 0 1 0 7 3 1 0 2 0 1 0
        ++ row16 2 3 1 4 2 0 5 0 2 3 1 0 2 0 1 0
        ++ row16 2 8 1 4 2 0 1 0 2 3 1 0 2 0 1 0
        ++ row16 2 3 1 4 2 0 5 0 2 3 1 0 6 42 1 0
        ++ row16 2 3 1 4 2 0 1 0 2 3 1 0 2 0 1 0
        ++ row16 2 3 1 4 2 0 5 0 2 3 1 0 2 0 1 0
        ++ row16 2 3 1 4 2 0 1 0 2 3 1 0 2 0 1 0
        ++ row16 2 3 1 4 2 0 5 0 2 3 11 0 6 0 1 0
        ++ row16 2 3 1 4 2 0 1 0 7 3 1 0 2 0 1 0
        ++ row16 2 3 1 4 2 0 5 0 2 3 1 0 2 0 1 0
        ++ row16 2 3 1 4 2 0 1 0 2 3 1 0 2 0 1 0
        ++ row16 2 3 1 4 2 0 5 0 2 3 1 0 6 0 1 0
        ++ row16 2 3 1 4 2 0 1 0 2 3 1 0 2 0 1 0
        ++ row16 2 3 1 4 2 0 5 0 2 3 1 0 2 0 1 0
        ++ row16 2 3 1 4 2 0 1 0 2 3 1 0 2 0 1 0)
    ∷ (row16 2 3 1 4 2 0 5 0 2 3 1 0 6 0 1 0
        ++ row16 2 3 1 4 2 0 1 0 7 3 1 0 2 0 1 0
        ++ row16 2 3 1 4 2 0 5 0 2 3 1 0 2 0 1 0
        ++ row16 2 8 1 4 2 0 1 0 2 3 1 0 2 0 1 0
        ++ row16 2 3 1 4 2 0 5 0 2 3 1 0 6 0 1 0
        ++ row16 2 3 1 4 2 0 1 0 2 3 1 0 2 0 1 0
        ++ row16 2 3 9 4 2 0 5 0 2 3 1 0 2 0 1 0
        ++ row16 2 3 1 4 2 0 1 0 2 3 1 0 2 0 1 0
        ++ row16 2 3 1 4 2 0 5 0 2 3 1 0 6 0 1 0
        ++ row16 2 3 1 4 2 0 1 0 7 3 43 0 2 0 1 0
        ++ row16 2 3 1 4 2 0 5 0 2 3 1 0 2 0 1 0
        ++ row16 2 3 1 4 2 0 1 0 2 3 1 0 2 0 1 0
        ++ row16 2 3 1 4 2 0 5 0 2 3 1 0 6 0 1 0
        ++ row16 2 3 1 4 2 0 1 0 2 3 1 0 2 0 1 0
        ++ row16 2 3 1 4 2 0 5 0 2 3 1 0 2 0 1 0
        ++ row16 2 3 1 4 2 0 1 0 2 3 1 0 2 0 1 0)
    ∷ (row16 2 3 1 4 2 0 5 0 2 3 1 0 6 0 1 0
        ++ row16 2 3 1 4 2 0 1 0 7 3 1 0 2 0 1 0
        ++ row16 2 3 1 4 2 0 5 0 2 3 1 0 2 0 1 0
        ++ row16 2 8 1 4 2 44 1 0 2 3 1 0 2 0 1 0
        ++ row16 2 3 1 4 2 0 5 0 2 3 1 0 6 0 1 0
        ++ row16 2 3 1 4 2 0 1 0 2 3 1 0 2 0 1 0
        ++ row16 2 3 1 4 2 0 5 0 2 3 1 0 2 0 1 0
        ++ row16 2 3 1 4 2 0 1 0 2 3 1 0 2 0 1 0
        ++ row16 2 3 1 4 2 0 5 0 2 3 1 0 6 0 1 0
        ++ row16 2 3 1 4 2 0 1 0 7 3 1 0 2 0 1 0
        ++ row16 2 3 1 4 2 0 5 0 2 3 1 0 2 0 1 0
        ++ row16 2 3 1 4 2 0 1 0 2 3 1 0 2 0 1 0
        ++ row16 2 3 1 4 2 0 5 0 2 3 1 0 6 0 1 0
        ++ row16 2 3 1 4 2 0 1 0 2 3 1 0 2 0 1 0
        ++ row16 2 3 1 4 2 0 5 0 2 3 1 0 2 0 1 0
        ++ row16 2 3 1 4 2 0 1 0 2 3 1 0 2 0 1 0)
    ∷ []

-- rows 37 to 48
unfoldable pub big_dfa_37 : List (List ℕ)
big_dfa_37 =
    (row16 2 3 1 4 2 0 5 0 2 3 1 0 6 0 1 0
      ++ row16 2 3 1 4 2 0 1 0 7 3 1 0 2 0 1 0
      ++ row16 2 3 1 4 2 0 5 0 2 3 1 0 2 0 1 0
      ++ row16 2 8 1 4 2 0 1 0 2 3 1 0 2 0 1 0
      ++ row16 2 3 1 4 2 0 5 0 2 3 1 0 6 0 1 0
      ++ row16 2 3 1 4 2 0 1 0 2 3 1 0 2 0 1 0
      ++ row16 2 3 9 4 2 0 5 0 2 3 1 45 2 0 1 0
      ++ row16 2 3 1 4 2 0 1 0 2 3 1 0 2 0 1 0
      ++ row16 2 3 1 4 2 0 5 0 2 3 1 0 6 0 1 0
      ++ row16 2 3 1 4 2 0 1 0 7 3 1 0 2 0 1 0
      ++ row16 2 3 1 4 2 0 5 0 2 3 1 0 2 0 1 0
      ++ row16 2 3 1 4 2 0 1 0 2 3 1 0 2 0 1 0
      ++ row16 2 3 1 4 2 0 5 0 2 3 1 0 6 0 1 0
      ++ row16 2 3 1 4 2 0 1 0 2 3 1 0 2 0 1 0
      ++ row16 2 3 1 4 2 0 5 0 2 3 1 0 2 0 1 0
      ++ row16 2 3 1 4 2 0 1 0 2 3 1 0 2 0 1 0)
    ∷ (row16 2 3 1 4 2 0 5 0 2 3 1 0 6 0 1 0
        ++ row16 2 3 1 4 2 0 1 0 7 3 1 0 2 0 1 0
        ++ row16 2 3 1 4 2 0 5 0 2 3 1 0 2 0 1 0
        ++ row16 2 8 1 4 2 0 1 0 2 3 1 0 2 0 1 0
        ++ row16 2 3 1 4 2 0 5 0 2 3 1 0 6 0 1 0
        ++ row16 2 3 1 4 2 0 1 0 2 3 1 0 2 0 1 0
        ++ row16 2 3 9 4 2 0 5 0 2 3 1 0 2 0 1 0
        ++ row16 2 3 1 4 2 0 1 0 2 3 1 0 2 0 1 0
        ++ row16 2 3 1 4 2 0 5 0 2 3 1 0 6 0 1 0
        ++ row16 2 3 1 4 2 0 1 0 7 3 1 0 2 0 1 0
        ++ row16 2 3 1 4 2 0 5 0 2 3 1 0 2 0 1 0
        ++ row16 2 3 1 4 2 0 1 0 2 3 1 0 2 0 1 0
        ++ row16 2 3 1 4 2 10 5 0 2 3 1 0 6 0 1 0
        ++ row16 2 3 1 4 2 0 46 0 2 3 1 0 2 0 1 0
        ++ row16 2 3 1 4 2 0 5 0 2 3 1 0 2 0 1 0
        ++ row16 2 3 1 4 2 0 1 0 2 3 1 0 2 0 1 0)
    ∷ (row16 2 3 1 4 2 0 5 0 2 3 1 0 6 0 1 0
        ++ row16 2 3 1 4 2 0 1 0 7 3 1 0 2 0 1 0
        ++ row16 2 3 1 4 2 0 5 0 2 3 1 0 2 0 1 0
        ++ row16 2 8 1 4 2 0 1 0 2 3 1 0 2 0 1 0
        ++ row16 2 3 1 4 2 0 5 0 2 3 1 0 6 0 1 0
        ++ row16 2 3 1 4 2 0 1 0 2 3 1 0 2 0 1 0
        ++ row16 2 3 1 4 2 0 5 0 2 3 1 0 2 0 1 0
        ++ row16 2 3 1 4 2 0 1 0 2 3 1 0 2 0 1 0
        ++ row16 2 3 1 4 2 0 5 0 2 3 11 0 6 0 1 0
        ++ row16 2 3 1 4 2 0 1 0 7 3 1 0 2 0 1 0
        ++ row16 2 3 1 4 2 0 5 0 2 3 1 0 47 0 1 0
        ++ row16 2 3 1 4 2 0 1 0 2 3 1 0 2 0 1 0
        ++ row16 2 3 1 4 2 0 5 0 2 3 1 0 6 0 1 0
        ++ row16 2 3 1 4 2 0 1 0 2 3 1 0 2 0 1 0
        ++ row16 2 3 1 4 2 0 5 0 2 3 1 0 2 0 1 0
        ++ row16 2 3 1 4 2 0 1 0 2 3 1 0 2 0 1 0)
    ∷ (row16 2 3 1 4 2 0 5 0 2 3 1 0 6 0 1 0
        ++ row16 2 3 1 4 12 0 1 0 7 3 1 0 2 0 1 0
        ++ row16 2 3 1 4 2 0 5 0 2 3 1 0 2 0 1 0
        ++ row16 2 8 1 4 2 0 1 0 2 3 1 0 2 0 1 0
        ++ row16 2 3 1 4 2 0 5 0 2 3 1 0 6 0 1 0
        ++ row16 2 3 1 4 2 0 1 0 2 48 1 0 2 0 1 0
        ++ row16 2 3 1 4 2 0 5 0 2 3 1 0 2 0 1 0
        ++ row16 2 3 1 4 2 0 1 0 2 3 1 0 2 0 1 0
        ++ row16 2 3 1 4 2 0 5 0 2 3 1 0 6 0 1 0
        ++ row16 2 3 1 4 2 0 1 0 7 3 1 0 2 0 1 0
        ++ row16 2 3 1 4 2 0 5 0 2 3 1 0 2 0 1 0
        ++ row16 2 3 1 4 2 0 1 0 2 3 1 0 2 0 1 0
        ++ row16 2 3 1 4 2 0 5 0 2 3 1 0 6 0 1 0
        ++ row16 2 3 1 4 2 0 1 0 2 3 1 0 2 0 1 0
        ++ row16 2 3 1 4 2 0 5 0 2 3 1 0 2 0 1 0
        ++ row16 2 3 1 4 2 0 1 0 2 3 1 0 2 0 1 0)
    ∷ (row16 2 3 1 4 2 0 5 0 2 3 1 0 6 0 1 0
        ++ row16 2 3 1 4 2 0 1 0 7 3 1 0 2 0 1 0
        ++ row16 2 3 1 4 2 0 5 0 13 3 1 0 2 0 1 0
        ++ row16 2 8 1 4 2 0 1 0 2 3 1 0 2 0 1 0
        ++ row16 2 3 1 4 2 0 5 0 2 3 1 0 6 0 1 0
        ++ row16 2 3 1 4 2 0 1 0 2 3 1 0 2 0 1 0
        ++ row16 2 3 9 4 2 0 5 0 2 3 1 0 2 0 1 0
        ++ row16 2 3 1 4 2 0 1 0 2 3 1 0 2 0 1 0
        ++ row16 2 3 1 4 2 0 5 0 2 3 1 0 6 0 1 0
        ++ row16 2 3 1 4 2 0 1 0 7 3 1 0 2 0 1 0
        ++ row16 2 3 1 4 2 0 5 0 2 3 1 0 2 0 1 0
        ++ row16 2 3 48 48 2 0 1 0 2 3 1 0 2 0 1 0
        ++ row16 2 3 1 4 2 0 5 0 2 3 1 0 6 0 1 0
        ++ row16 2 3 1 4 2 0 1 0 2 3 1 0 2 0 1 0
        ++ row16 2 3 1 4 2 0 5 0 2 3 1 0 2 0 1 0
        ++ row16 2 3 1 4 2 0 1 0 2 3 1 0 2 0 1 0)
    ∷ (row16 2 3 1 4 2 0 5 0 2 3 1 0 6 0 1 0
        ++ row16 2 3 1 4 2 0 1 0 7 3 1 0 2 0 1 0
        ++ row16 2 3 1 4 2 0 5 0 2 3 1 0 2 0 1 0
        ++ row16 2 8 1 4 2 0 1 0 2 3 1 0 2 0 1 0
        ++ row16 2 3 1 4 2 0 5 0 2 3 1 0 6 0 1 0
        ++ row16 2 3 1 4 2 0 1 0 2 3 1 0 2 0 1 0
        ++ row16 2 3 1 4 48 48 48 48 2 3 1 0 2 0 1 0
        ++ row16 2 3 1 4 2 0 1 0 2 3 1 0 2 0 1 0
        ++ row16 2 3 1 4 2 0 5 0 2 3 1 0 6 0 1 0
        ++ row16 2 3 1 4 2 0 1 0 7 3 1 0 2 0 1 0
        ++ row16 2 3 1 4 2 0 5 0 2 3 1 0 2 0 1 0
        ++ row16 2 3 1 4 2 0 1 0 2 3 1 0 2 0 1 0
        ++ row16 2 3 1 4 2 0 5 0 2 3 1 0 6 0 1 0
        ++ row16 2 3 1 4 2 0 1 0 2 3 1 0 2 0 1 0
        ++ row16 2 3 1 4 2 0 5 0 2 3 1 0 2 0 1 0
        ++ row16 2 3 1 4 2 0 1 0 2 3 1 0 2 0 1 0)
    ∷ (row16 2 3 1 4 2 0 5 0 2 3 1 0 6 0 1 0
        ++ row16 2 3 1 4 2 0 1 0 7 3 1 0 2 0 1 0
        ++ row16 2 3 1 4 2 0 5 0 2 3 1 0 2 0 1 0
        ++ row16 2 8 1 4 2 0 1 0 2 3 1 0 2 0 1 0
        ++ row16 2 3 1 4 2 0 5 0 2 3 1 0 6 0 1 0
        ++ row16 2 3 1 4 2 0 1 0 2 3 1 0 2 0 1 0
        ++ row16 2 3 9 4 2 0 5 0 2 3 1 0 2 0 1 0
        ++ row16 2 3 1 4 2 0 1 0 2 3 1 0 2 0 1 0
        ++ row16 2 3 1 4 2 0 5 0 2 3 1 0 6 0 1 0
        ++ row16 2 3 1 4 2 0 1 0 7 3 1 0 2 0 1 0
        ++ row16 2 3 1 4 2 0 5 0 2 3 1 0 2 0 1 0
        ++ row16 2 3 1 4 2 0 1 0 2 3 1 0 2 0 1 0
        ++ row16 2 3 1 4 2 0 5 0 48 48 48 48 48 48 48 48
        ++ row16 2 3 1 4 2 0 1 0 2 3 1 0 2 0 1 0
        ++ row16 2 3 1 4 2 0 5 0 2 3 1 0 2 0 1 0
        ++ row16 2 3 1 4 2 0 1 0 2 3 1 0 2 0 1 0)
    ∷ (row16 2 3 1 4 2 0 5 0 2 3 1 0 6 0 1 0
        ++ row16 2 3 1 4 2 0 1 0 7 3 1 0 2 0 1 0
        ++ row16 2 3 1 4 2 0 5 0 2 3 1 0 2 0 1 0
        ++ row16 2 8 1 4 2 0 1 0 2 3 1 0 2 0 1 0
        ++ row16 2 3 1 4 2 0 5 0 2 3 1 0 6 0 1 0
        ++ row16 2 3 1 4 2 0 1 0 2 3 1 0 2 0 1 0
        ++ row16 2 3 1 4 2 0 5 0 2 3 1 0 2 0 1 0
        ++ row16 2 3 1 4 2 0 1 0 2 3 1 0 2 0 1 0
        ++ row16 2 3 1 4 2 0 5 0 2 3 1 0 6 0 1 0
        ++ row16 48 48 48 48 48 48 48 48 48 48 48 48 48 48 48 48
        ++ row16 2 3 1 4 2 0 5 0 2 3 1 0 2 0 1 0
        ++ row16 2 3 1 4 2 0 1 0 2 3 1 0 2 0 1 0
        ++ row16 2 3 1 4 2 0 5 0 2 3 1 0 6 0 1 0
        ++ row16 2 3 1 4 2 0 1 0 2 3 1 0 2 0 1 0
        ++ row16 2 3 1 4 2 0 5 0 2 3 1 0 2 0 1 0
        ++ row16 2 3 1 4 2 0 1 0 2 3 1 0 2 0 1 0)
    ∷ (row16 2 3 1 4 2 0 5 0 2 3 1 0 6 0 1 0
        ++ row16 2 3 1 4 2 0 1 0 7 3 1 0 2 0 1 0
        ++ row16 48 48 48 48 48 48 48 48 48 48 48 48 48 48 48 48
        ++ row16 48 48 48 48 48 48 48 48 48 48 48 48 48 48 48 48
        ++ row16 2 3 1 4 2 0 5 0 2 3 1 0 6 0 1 0
        ++ row16 2 3 1 4 2 0 1 0 2 3 1 0 2 0 1 0
        ++ row16 2 3 1 4 2 0 5 0 2 3 1 0 2 0 1 0
        ++ row16 2 3 1 4 2 0 1 0 2 3 1 0 2 0 1 0
        ++ row16 2 3 1 4 2 0 5 0 2 3 1 0 6 0 1 0
        ++ row16 2 3 1 4 2 0 1 0 7 3 1 0 2 0 1 0
        ++ row16 2 3 1 4 2 0 5 0 2 3 1 0 2 0 1 0
        ++ row16 2 3 1 4 2 0 1 0 2 3 1 0 2 0 1 0
        ++ row16 2 3 1 4 2 0 5 0 2 3 1 0 6 0 1 0
        ++ row16 2 3 1 4 2 0 1 0 2 3 1 0 2 0 1 0
        ++ row16 2 3 1 4 2 0 5 0 2 3 1 0 2 0 1 0
        ++ row16 2 3 1 4 2 0 1 0 2 3 1 0 2 0 1 0)
    ∷ (row16 2 3 1 4 2 0 5 0 2 3 1 0 6 0 1 0
        ++ row16 2 3 1 4 2 0 1 0 7 3 1 0 2 0 1 0
        ++ row16 2 3 1 4 2 0 5 0 2 3 1 0 2 0 1 0
        ++ row16 2 8 1 4 2 0 1 0 2 3 1 0 2 0 1 0
        ++ row16 48 48 48 48 48 48 48 48 48 48 48 48 48 48 48 48
        ++ row16 48 48 48 48 48 48 48 48 48 48 48 48 48 48 48 48
        ++ row16 48 48 48 48 48 48 48 48 48 48 48 48 48 48 48 48
        ++ row16 48 48 48 48 48 48 48 48 48 48 48 48 48 48 48 48
        ++ row16 2 3 1 4 2 0 5 0 2 3 1 0 6 0 1 0
        ++ row16 2 3 1 4 2 0 1 0 7 3 1 0 2 0 1 0
        ++ row16 2 3 1 4 2 0 5 0 2 3 1 0 2 0 1 0
        ++ row16 2 3 1 4 2 0 1 0 2 3 1 0 2 0 1 0
        ++ row16 2 3 1 4 2 0 5 0 2 3 1 0 6 0 1 0
        ++ row16 2 3 1 4 2 0 1 0 2 3 1 0 2 0 1 0
        ++ row16 2 3 1 4 2 0 5 0 2 3 1 0 2 0 1 0
        ++ row16 2 3 1 4 2 0 1 0 2 3 1 0 2 0 1 0)
    ∷ (row16 2 3 1 4 2 0 5 0 2 3 1 0 6 0 1 0
        ++ row16 2 3 1 4 2 0 1 0 7 3 1 0 2 0 1 0
        ++ row16 2 3 1 4 2 0 5 0 2 3 1 0 2 0 1 0
        ++ row16 2 8 1 4 2 0 1 0 2 3 1 0 2 0 1 0
        ++ row16 2 3 1 4 2 0 5 0 2 3 1 0 6 0 1 0
        ++ row16 2 3 1 4 2 0 1 0 2 3 1 0 2 0 1 0
        ++ row16 2 3 9 4 2 0 5 0 2 3 1 0 2 0 1 0
        ++ row16 2 3 1 4 2 0 1 0 2 3 1 0 2 0 1 0
        ++ row16 48 48 48 48 48 48 48 48 48 48 48 48 48 48 48 48
        ++ row16 48 48 48 48 48 48 48 48 48 48 48 48 48 48 48 48
        ++ row16 48 48 48 48 48 48 48 48 48 48 48 48 48 48 48 48
        ++ row16 48 48 48 48 48 48 48 48 48 48 48 48 48 48 48 48
        ++ row16 48 48 48 48 48 48 48 48 48 48 48 48 48 48 48 48
        ++ row16 48 48 48 48 48 48 48 48 48 48 48 48 48 48 48 48
        ++ row16 48 48 48 48 48 48 48 48 48 48 48 48 48 48 48 48
        ++ row16 48 48 48 48 48 48 48 48 48 48 48 48 48 48 48 48)
    ∷ (row16 48 48 48 48 48 48 48 48 48 48 48 48 48 48 48 48
        ++ row16 48 48 48 48 48 48 48 48 48 48 48 48 48 48 48 48
        ++ row16 48 48 48 48 48 48 48 48 48 48 48 48 48 48 48 48
        ++ row16 48 48 48 48 48 48 48 48 48 48 48 48 48 48 48 48
        ++ row16 48 48 48 48 48 48 48 48 48 48 48 48 48 48 48 48
        ++ row16 48 48 48 48 48 48 48 48 48 48 48 48 48 48 48 48
        ++ row16 48 48 48 48 48 48 48 48 48 48 48 48 48 48 48 48
        ++ row16 48 48 48 48 48 48 48 48 48 48 48 48 48 48 48 48
        ++ row16 48 48 48 48 48 48 48 48 48 48 48 48 48 48 48 48
        ++ row16 48 48 48 48 48 48 48 48 48 48 48 48 48 48 48 48
        ++ row16 48 48 48 48 48 48 48 48 48 48 48 48 48 48 48 48
        ++ row16 48 48 48 48 48 48 48 48 48 48 48 48 48 48 48 48
        ++ row16 48 48 48 48 48 48 48 48 48 48 48 48 48 48 48 48
        ++ row16 48 48 48 48 48 48 48 48 48 48 48 48 48 48 48 48
        ++ row16 48 48 48 48 48 48 48 48 48 48 48 48 48 48 48 48
        ++ row16 48 48 48 48 48 48 48 48 48 48 48 48 48 48 48 48)
    ∷ []
