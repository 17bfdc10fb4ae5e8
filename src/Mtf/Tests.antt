-- ===== src/Mtf/Tests.antt =====
-- make_map_e() and do_mtf() on concrete input.
use lbzip.Shared.{ℕ, zero, suc, ◌<◌, List, [], ◌∷◌, arith, true, false, Bool, map, get_or}
use lbzip.Mtf.{do_mtf}
use lbzip.Mtf.Frequencies.{Frequencies, do_mtf-Frequencies}
use lbzip.Mtf.Correct.{Codes, do_mtf-Codes}

-- the bytes 1 and 3 are in use
abbrev flags : List Bool
flags = false ∷ true ∷ false ∷ true ∷ []

abbrev numbers : List ℕ
numbers = 0 ∷ 0 ∷ 1 ∷ 1 ∷ []

numbers_small : (x : ℕ) → get_or numbers x 0 < 256
numbers_small zero = omega arith
numbers_small (suc zero) = omega arith
numbers_small (suc (suc zero)) = omega arith
numbers_small (suc (suc (suc zero))) = omega arith
numbers_small (suc (suc (suc (suc x)))) = omega arith

do_mtf-Codes_example :
    Codes
      (map (λ x. get_or numbers x 0) (1 ∷ 1 ∷ 1 ∷ 3 ∷ 3 ∷ 1 ∷ []))
      3
      (do_mtf (λ x. 0) numbers (1 ∷ 1 ∷ 1 ∷ 3 ∷ 3 ∷ 1 ∷ []) 3)
do_mtf-Codes_example = do_mtf-Codes (λ x. 0) numbers (1 ∷ 1 ∷ 1 ∷ 3 ∷ 3 ∷ 1 ∷ []) 3 numbers_small

do_mtf-Frequencies_example : Frequencies 3 (do_mtf (λ x. 7) numbers (1 ∷ 1 ∷ 1 ∷ 3 ∷ 3 ∷ 1 ∷ []) 3)
do_mtf-Frequencies_example =
    do_mtf-Frequencies (λ x. 7) numbers (1 ∷ 1 ∷ 1 ∷ 3 ∷ 3 ∷ 1 ∷ []) 3 numbers_small
