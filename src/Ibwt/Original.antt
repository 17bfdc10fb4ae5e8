-- ===== src/Ibwt/Original.antt =====
-- src/decode.c, decode(): what the list is to lead through, without the list. The transformation sorts
-- the rotations of a block; a byte of the last column is the one before the rotation of its place, and
-- stands in the first column behind the lesser ones and those like it that come before.
use lbzip.Shared.{
  ℕ, zero, suc, ◌+◌, ◌-◌, ◌≤◌, ◌<◌, ◌^◌, ◌≡◌, List, [], ◌∷◌, ◌==◌, ltb, if◌then◌else◌, get_or,
  bit_xor, length,
}
use lbzip.Prefix.Sums.{sum_below}
use lbzip.Ibwt.RandTable.{rand_table}
use lbzip.Ibwt.{Retrieved}

-- how many of the first `n` bytes are `u`
abbrev pub seen : List ℕ → ℕ → ℕ → ℕ
seen tt u n = sum_below (λ j. if get_or tt j 0 == u then 1 else 0) n

-- how many of the first `n` bytes are less than `u`
abbrev pub lesser : List ℕ → ℕ → ℕ → ℕ
lesser tt u n = sum_below (λ j. if ltb (get_or tt j 0) u then 1 else 0) n

-- the place in the first column of the byte at `i` of the last column, of `n` bytes
abbrev pub place : List ℕ → ℕ → ℕ → ℕ
place tt n i = lesser tt (get_or tt i 0) n + seen tt (get_or tt i 0) i

-- `inv` leads from each place back to its byte.
pub record IsInverse (tt : List ℕ) (n : ℕ) (inv : ℕ → ℕ) : Type 0 where
  pub below : (j : ℕ) → j < n → inv j < n
  pub placed : (j : ℕ) → j < n → place tt n (inv j) ≡ j

-- the next `a` bytes from the rotation of the place `j`
unfoldable pub original : List ℕ → (ℕ → ℕ) → ℕ → ℕ → List ℕ
original tt inv j zero = []
original tt inv j (suc a) = get_or tt (inv j) 0 ∷ original tt inv (inv j) a

-- The bytes of a randomised block, as the format has it: a counter starts at a number of the table, is
-- lowered with each byte, and starts again at the next number where it has come to 0; the byte at
-- which it comes to 1 is changed.
unfoldable pub unrandomized : ℕ → ℕ → List ℕ → List ℕ
unrandomized to_go pos [] = []
unrandomized zero pos (x ∷ xs) =
    let n = get_or rand_table pos 0 - 1 in
    (if n == 1 then bit_xor x 1 else x) ∷ unrandomized n (if pos == 511 then 0 else pos + 1) xs
unrandomized (suc n) pos (x ∷ xs) = (if n == 1 then bit_xor x 1 else x) ∷ unrandomized n pos xs

-- what retrieve() leaves: the bytes, and how often each of them occurs
pub record IsRetrieved (r : Retrieved) : Type 0 where
  pub small : r.block_size < 2 ^ 24
  pub fits : r.block_size ≤ length r.tt
  pub bytes : (j : ℕ) → j < r.block_size → get_or r.tt j 0 < 256
  pub all_bytes : length r.ftab ≡ 256
  pub counted : (u : ℕ) → u < 256 → get_or r.ftab u 0 ≡ seen r.tt u r.block_size
  pub primary : r.bwt_idx < r.block_size
