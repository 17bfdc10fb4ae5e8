-- ===== src/Scan/Tables.antt =====
-- src/scantab.h: the transition tables of the scanner's automata.
mod Row
mod Low
mod High
use Low.{big_dfa_0, big_dfa_12}
use High.{big_dfa_24, big_dfa_37}
use lbzip.Shared.{ℕ, List, [], ◌∷◌, ◌++◌}

abbrev pub accept : ℕ
accept = 48

-- the state after one more bit
unfoldable pub mini_dfa : List (List ℕ)
mini_dfa =
    (1 ∷ 0 ∷ [])
    ∷ (2 ∷ 0 ∷ [])
    ∷ (2 ∷ 3 ∷ [])
    ∷ (1 ∷ 4 ∷ [])
    ∷ (5 ∷ 0 ∷ [])
    ∷ (6 ∷ 0 ∷ [])
    ∷ (7 ∷ 3 ∷ [])
    ∷ (2 ∷ 8 ∷ [])
    ∷ (9 ∷ 4 ∷ [])
    ∷ (2 ∷ 10 ∷ [])
    ∷ (11 ∷ 0 ∷ [])
    ∷ (12 ∷ 0 ∷ [])
    ∷ (13 ∷ 3 ∷ [])
    ∷ (14 ∷ 3 ∷ [])
    ∷ (15 ∷ 3 ∷ [])
    ∷ (2 ∷ 16 ∷ [])
    ∷ (17 ∷ 4 ∷ [])
    ∷ (2 ∷ 18 ∷ [])
    ∷ (19 ∷ 0 ∷ [])
    ∷ (2 ∷ 20 ∷ [])
    ∷ (1 ∷ 21 ∷ [])
    ∷ (22 ∷ 0 ∷ [])
    ∷ (23 ∷ 0 ∷ [])
    ∷ (2 ∷ 24 ∷ [])
    ∷ (25 ∷ 4 ∷ [])
    ∷ (26 ∷ 0 ∷ [])
    ∷ (2 ∷ 27 ∷ [])
    ∷ (28 ∷ 4 ∷ [])
    ∷ (29 ∷ 0 ∷ [])
    ∷ (2 ∷ 30 ∷ [])
    ∷ (1 ∷ 31 ∷ [])
    ∷ (32 ∷ 0 ∷ [])
    ∷ (33 ∷ 0 ∷ [])
    ∷ (7 ∷ 34 ∷ [])
    ∷ (35 ∷ 4 ∷ [])
    ∷ (2 ∷ 36 ∷ [])
    ∷ (37 ∷ 0 ∷ [])
    ∷ (38 ∷ 0 ∷ [])
    ∷ (2 ∷ 39 ∷ [])
    ∷ (1 ∷ 40 ∷ [])
    ∷ (41 ∷ 0 ∷ [])
    ∷ (6 ∷ 42 ∷ [])
    ∷ (43 ∷ 0 ∷ [])
    ∷ (2 ∷ 44 ∷ [])
    ∷ (1 ∷ 45 ∷ [])
    ∷ (46 ∷ 0 ∷ [])
    ∷ (47 ∷ 0 ∷ [])
    ∷ (2 ∷ 48 ∷ [])
    ∷ []

-- the state after one more byte
unfoldable pub big_dfa : List (List ℕ)
unfolding big_dfa_0 big_dfa_12 big_dfa_24 big_dfa_37
big_dfa = big_dfa_0 ++ (big_dfa_12 ++ (big_dfa_24 ++ big_dfa_37))
