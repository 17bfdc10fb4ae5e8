-- ===== src/Prefix.antt =====
-- src/decode.c, make_tree(): the tables by which prefix codes are read, and the lookup of a code in
-- retrieve(). An array is a function of its index; what is written to the lookup table from its
-- beginning on is a list. The assertions of make_tree() are not looked at.
pub mod Sums
pub mod Base
pub mod Sorting
pub mod Lookup
pub mod Search
pub mod Tables
pub mod Kraft
pub mod Entries
pub mod Correct
pub mod Tests
use lbzip.Shared.{
  ℕ, zero, suc, ◌+◌, ◌-◌, ◌*◌, ◌/◌, ◌%◌, ◌^◌, List, [], ◌∷◌, ◌++◌, Bool, ◌==◌, ltb, leb,
  if◌then◌else◌, get_or, length, replicate, bit_or,
}
use lbzip.Common.{Code, err_incomplt, err_prefix}
use lbzip.Retrieve.{max_code_length}

abbrev pub huff_start_width : ℕ
huff_start_width = 10

abbrev pub run_a : ℕ
run_a = 257

abbrev pub run_b : ℕ
run_b = 258

abbrev pub eob : ℕ
eob = 0

-- a[i] = v
abbrev pub update : (ℕ → ℕ) → ℕ → ℕ → ℕ → ℕ
update a i v j = if i == j then v else a j

-- `struct tree`
pub record Tree : Type 0 where
  pub start : List ℕ
  pub base : ℕ → ℕ
  pub count : ℕ → ℕ
  pub perm : ℕ → ℕ

-- what is left in `mtf`: an error, or the number of the tree with its tables
pub data Made : Type 0 where
  refused : Code → Made
  built : Tree → Made

-- the number of symbols of each code length
unfoldable pub tally : List ℕ → (ℕ → ℕ) → ℕ → ℕ
tally [] c = c
tally (k ∷ ls) c = tally ls (update c k (c k + 1))

-- the sum of Kraft's inequality, from the length `k` on
unfoldable pub kraft : ℕ → ℕ → (ℕ → ℕ) → ℕ → ℕ
kraft zero k c sofar = sofar
kraft (suc rounds) k c sofar =
    kraft rounds (suc k) c ((sofar + c k * 2 ^ (max_code_length - k) % 2 ^ 64) % 2 ^ 64)

-- the left-justified bases, from the length `k` on
unfoldable pub bases : ℕ → ℕ → (ℕ → ℕ) → ℕ → (ℕ → ℕ) → ℕ → ℕ
bases zero k c sofar b = b
bases (suc rounds) k c sofar b =
    bases rounds (suc k) c ((sofar + c k * 2 ^ (64 - k) % 2 ^ 64) % 2 ^ 64) (update b k sofar)

-- The bases from `k` down are replaced by the greatest value, while there are no codes.
unfoldable pub raise : ℕ → (ℕ → ℕ) → (ℕ → ℕ) → ℕ → ℕ
raise zero c b = b
raise (suc k) c b =
    let b' = update b (suc k) (2 ^ 64 - 1) in
    let rest = raise k c b' in if c k == 0 then rest else b'

-- the counts become indices, from the length `k` on
unfoldable pub indices : ℕ → ℕ → ℕ → (ℕ → ℕ) → ℕ → ℕ
indices zero k cum c = c
indices (suc rounds) k cum c = indices rounds (suc k) (cum + c k) (update c k cum)

-- the decoder's name of the symbol `s` of `n`
unfoldable pub symbol : ℕ → ℕ → ℕ
symbol n s = if s == 0 then run_a else if s == 1 then run_b else if suc s == n then eob else s - 1

-- The counting sort, from the symbol `s` on: the indices and the permutation.
unfoldable pub sort : ℕ → ℕ → List ℕ → (ℕ → ℕ) → (ℕ → ℕ) → (ℕ → ℕ) × (ℕ → ℕ)
sort n s [] c p = (c, p)
sort n s (k ∷ ls) c p = sort n (suc s) ls (update c k (c k + 1)) (update p (c k) (symbol n s))

-- the entries of the codes of one length, from the sorted symbol `s` on
unfoldable pub same_length : ℕ → ℕ → ℕ → ℕ → (ℕ → ℕ) → List ℕ
same_length zero s k inc p = []
same_length (suc rounds) s k inc p =
    replicate inc (bit_or (p s * 2 ^ 5 % 2 ^ 16) k) ++ same_length rounds (suc s) k inc p

-- the complete entries, from the length `k` on
unfoldable pub complete : ℕ → ℕ → ℕ → (ℕ → ℕ) → (ℕ → ℕ) → List ℕ
complete zero k inc c p = []
complete (suc rounds) k inc c p =
    same_length (c k - c (k - 1)) (c (k - 1)) k inc p ++ complete rounds (suc k) (inc / 2) c p

-- `while (v >= B[k + 1]) k++`, at most `fuel` times
unfoldable pub climb : ℕ → (ℕ → ℕ) → ℕ → ℕ → ℕ
climb zero b v k = k
climb (suc fuel) b v k = let rest = climb fuel b v (k + 1) in if leb (b (k + 1)) v then rest else k

-- the other entries, each the least length that its codes can have
unfoldable pub incomplete : ℕ → ℕ → ℕ → (ℕ → ℕ) → List ℕ
incomplete zero k sofar b = []
incomplete (suc rounds) k sofar b =
    let k' = climb max_code_length b sofar k in
    k' ∷ incomplete rounds k' ((sofar + 2 ^ (64 - huff_start_width)) % 2 ^ 64) b

-- The counts that the sort has moved are moved back, from `k` down.
unfoldable pub restore : ℕ → (ℕ → ℕ) → ℕ → ℕ
restore zero c = c
restore (suc k) c = restore k (update c (suc k) (c k))

-- the lookup table
unfoldable pub starts : (ℕ → ℕ) → (ℕ → ℕ) → (ℕ → ℕ) → List ℕ
starts b c p =
    let first = complete huff_start_width 1 (2 ^ (huff_start_width - 1)) c p in
    let code = length first in
    first
    ++ incomplete (2 ^ huff_start_width - code) (huff_start_width + 1)
        (code * 2 ^ (64 - huff_start_width) % 2 ^ 64) b

-- The tables, which hold what was in memory where nothing is written to them.
unfoldable pub tables : Tree → List ℕ → Tree
tables old ls =
    let c = tally ls (λ k. 0) in
    let b = raise (max_code_length + 1) c (bases max_code_length 1 c 0 old.base) in
    let sorted = sort (length ls) 0 ls (indices max_code_length 1 0 c) old.perm in
    record {
      start = starts b sorted.0 sorted.1;
      base = b;
      count = restore max_code_length sorted.0;
      perm = sorted.1;
    }

unfoldable pub make_tree : Tree → List ℕ → Made
make_tree old ls =
    let sofar = kraft max_code_length 1 (tally ls (λ k. 0)) 0 in
    if sofar == 2 ^ max_code_length
    then built (tables old ls)
    else refused (if ltb sofar (2 ^ max_code_length) then err_incomplt else err_prefix)

-- A code at the beginning of the window `v`: its symbol and its length.
unfoldable pub decode_symbol : Tree → ℕ → ℕ × ℕ
decode_symbol t v =
    let x = get_or t.start (v / 2 ^ (64 - huff_start_width)) 0 in
    let k = x % 2 ^ 5 in
    let k' = climb max_code_length t.base v k in
    if leb k huff_start_width
    then (x / 2 ^ 5, k)
    else (t.perm (t.count k' + (v + 2 ^ 64 - t.base k') % 2 ^ 64 / 2 ^ (64 - k')), k')
