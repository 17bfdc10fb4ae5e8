-- ===== src/Retrieve.antt =====
-- src/decode.c, retrieve(): the tables by which selectors and code lengths are read six bits at a
-- time, and the steps of the loops that use them.
mod Tests
pub mod Tables
use lbzip.Shared.{
  ℕ, ◌+◌, ◌-◌, List, [], ◌∷◌, Bool, ◌||◌, not, true, ◌==◌, ltb, if◌then◌else◌, get_or,
}
use lbzip.Common.{Code, err_selector, err_delta}

-- the position of the first zero
unfoldable pub table : List ℕ
table =
    1 ∷ 1 ∷ 1 ∷ 1 ∷ 1 ∷ 1 ∷ 1 ∷ 1 ∷ 1 ∷ 1 ∷ 1 ∷ 1 ∷ 1 ∷ 1 ∷ 1 ∷ 1 ∷ 1 ∷ 1 ∷ 1 ∷ 1 ∷ 1 ∷ 1 ∷ 1 ∷ 1
    ∷ 1 ∷ 1 ∷ 1 ∷ 1 ∷ 1 ∷ 1 ∷ 1 ∷ 1 ∷ 2 ∷ 2 ∷ 2 ∷ 2 ∷ 2 ∷ 2 ∷ 2 ∷ 2 ∷ 2 ∷ 2 ∷ 2 ∷ 2 ∷ 2 ∷ 2 ∷ 2 ∷ 2
    ∷ 3 ∷ 3 ∷ 3 ∷ 3 ∷ 3 ∷ 3 ∷ 3 ∷ 3 ∷ 4 ∷ 4 ∷ 4 ∷ 4 ∷ 5 ∷ 5 ∷ 6 ∷ 7 ∷ []

-- how many bits of a window of six are a delta code, or the beginning of one
unfoldable pub delta_width : List ℕ
delta_width =
    1 ∷ 1 ∷ 1 ∷ 1 ∷ 1 ∷ 1 ∷ 1 ∷ 1 ∷ 1 ∷ 1 ∷ 1 ∷ 1 ∷ 1 ∷ 1 ∷ 1 ∷ 1 ∷ 1 ∷ 1 ∷ 1 ∷ 1 ∷ 1 ∷ 1 ∷ 1 ∷ 1
    ∷ 1 ∷ 1 ∷ 1 ∷ 1 ∷ 1 ∷ 1 ∷ 1 ∷ 1 ∷ 3 ∷ 3 ∷ 3 ∷ 3 ∷ 3 ∷ 3 ∷ 3 ∷ 3 ∷ 5 ∷ 5 ∷ 6 ∷ 6 ∷ 5 ∷ 5 ∷ 6 ∷ 6
    ∷ 3 ∷ 3 ∷ 3 ∷ 3 ∷ 3 ∷ 3 ∷ 3 ∷ 3 ∷ 5 ∷ 5 ∷ 6 ∷ 6 ∷ 5 ∷ 5 ∷ 6 ∷ 6 ∷ []

-- by how much they change the length, with 3 added
unfoldable pub delta_change : List ℕ
delta_change =
    3 ∷ 3 ∷ 3 ∷ 3 ∷ 3 ∷ 3 ∷ 3 ∷ 3 ∷ 3 ∷ 3 ∷ 3 ∷ 3 ∷ 3 ∷ 3 ∷ 3 ∷ 3 ∷ 3 ∷ 3 ∷ 3 ∷ 3 ∷ 3 ∷ 3 ∷ 3 ∷ 3
    ∷ 3 ∷ 3 ∷ 3 ∷ 3 ∷ 3 ∷ 3 ∷ 3 ∷ 3 ∷ 4 ∷ 4 ∷ 4 ∷ 4 ∷ 4 ∷ 4 ∷ 4 ∷ 4 ∷ 5 ∷ 5 ∷ 6 ∷ 4 ∷ 3 ∷ 3 ∷ 4 ∷ 2
    ∷ 2 ∷ 2 ∷ 2 ∷ 2 ∷ 2 ∷ 2 ∷ 2 ∷ 2 ∷ 3 ∷ 3 ∷ 4 ∷ 2 ∷ 1 ∷ 1 ∷ 2 ∷ 0 ∷ []

-- how a step ends: with an error, or the value, the bits taken and whether the value is final
pub data Step : Type 0 where
  fail : Code → Step
  took : ℕ → ℕ → Bool → Step

-- one selector, from the window `k`
unfoldable pub selector_step : ℕ → ℕ → Step
unfolding table
selector_step num_trees w =
    let k = get_or table w 0 in if ltb num_trees k then fail err_selector else took (k - 1) k true

abbrev pub min_code_length : ℕ
min_code_length = 1

abbrev pub max_code_length : ℕ
max_code_length = 20

-- one round of the loop for a code length `len`, with the window `w`
unfoldable pub length_step : ℕ → ℕ → Step
unfolding delta_width delta_change
length_step len w =
    let len' = len + get_or delta_change w 0 in
    let k = get_or delta_width w 0 in
    if ltb len' (3 + min_code_length) || ltb (3 + max_code_length) len'
    then fail err_delta
    else took (len' - 3) k (not (k == 6))
