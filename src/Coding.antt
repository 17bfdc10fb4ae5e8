-- ===== src/Coding.antt =====
-- src/encode.c, assign_codes(). The leaves' weights are a list from leaf_weight[1] on. A failed
-- assertion is none.
pub mod Merging
pub mod Sorting
pub mod Leaves
pub mod Levels
pub mod Filled
pub mod Correct
pub mod Groups
pub mod Dummy
pub mod Tests
use lbzip.Shared.{
  ℕ, zero, suc, ◌+◌, ◌-◌, ◌*◌, ◌/◌, ◌%◌, ◌^◌, List, [], ◌∷◌, ◌++◌, Bool, true, false, ◌==◌, ltb,
  leb, not, ◌&&◌, Option, none, some, if◌then◌else◌, get_or, length, bit_and, bit_or,
}
use Prim.Native.Nat.{max}
use lbzip.Retrieve.{max_code_length}
use lbzip.Prefix.{update}
use lbzip.Coding.Merging.{Merge, sort_alphabet, package_merge}

abbrev pub max_alpha_size : ℕ
max_alpha_size = 258

-- the symbol of a leaf, and its frequency
unfoldable pub leaf_symbol : ℕ → ℕ
leaf_symbol w = max_alpha_size - w % 2 ^ 16

unfoldable pub label : ℕ → ℕ → ℕ
label leaf f = bit_or (bit_or (f * 2 ^ 32 % 2 ^ 64) 0x10000) (max_alpha_size - leaf)

unfoldable pub labels : ℕ → List ℕ → List ℕ
labels leaf [] = []
labels leaf (f ∷ frequency) = label leaf f ∷ labels (suc leaf) frequency

-- the code lengths, what it costs to code the symbols, and the leaves that are left
pub record Given : Type 0 where
  pub length : ℕ → ℕ
  pub cost : ℕ
  pub left : List ℕ

-- The next leaves, `avail` of them, are given the length `depth`.
unfoldable pub give : ℕ → ℕ → List ℕ → (ℕ → ℕ) → ℕ → Option Given
give zero depth left f cost = some (record { length = f; cost = cost; left = left })
give (suc n) depth [] f cost = none
give (suc n) depth (w ∷ left) f cost =
    give n depth left (update f (leaf_symbol w) depth) ((cost + w / 2 ^ 32 * depth) % 2 ^ 32)

-- how many leaves have the length `depth` in the tree with the row `row`
unfoldable pub avail_at : (ℕ → ℕ) → ℕ → ℕ
avail_at row depth = (row (depth - 1) + 2 ^ 32 - row depth) % 2 ^ 32

-- the lengths in a tree, from `depth` on
unfoldable pub give_levels : ℕ → ℕ → (ℕ → ℕ) → Given → Option Given
give_levels zero depth row g = some g
give_levels (suc rounds) depth row g =
    elim (give (avail_at row depth) depth g.left g.length g.cost) [
      | none ↦ none
      | some g' ↦ give_levels rounds (suc depth) row g'
    ]

-- what it costs to send the lengths, from the symbol `s` on
unfoldable pub delta_cost : ℕ → ℕ → (ℕ → ℕ) → ℕ → ℕ
delta_cost zero s f cost = cost
delta_cost (suc rounds) s f cost =
    delta_cost rounds (suc s) f ((cost + 2 * max (f (s - 1) - f s) (f s - f (s - 1))) % 2 ^ 32)

pub record Best : Type 0 where
  pub cost : ℕ
  pub height : ℕ
  pub length : ℕ → ℕ

abbrev pub better : ℕ → ℕ → (ℕ → ℕ) → Best → Best
better cost height f best =
    if ltb cost best.cost
    then record { cost = cost; height = height; length = f }
    else record best { length = f }

-- one height, with the tree's row `row`
unfoldable pub try_height : ℕ → ℕ → (ℕ → ℕ) → List ℕ → Best → Option Best
try_height height size row leaves best =
    elim (give_levels height 1 row (record { length = best.length; cost = 0; left = leaves })) [
      | none ↦ none
      | some g ↦ some (
          better ((delta_cost (size - 1) 1 g.length g.cost + 5 + size) % 2 ^ 32) height g.length
            best)
    ]

-- The heights from `height` on are tried, and the best is kept.
unfoldable pub heights : ℕ → ℕ → ℕ → (ℕ → ℕ → ℕ) → List ℕ → Best → Option Best
heights zero height size tree leaves best = some best
heights (suc rounds) height size tree leaves best =
    let next = heights rounds (suc height) size tree leaves in
    let skipped = next best in
    if ltb (2 ^ height) size
    then skipped
    else (if tree height (height - 1) == 0
        then some best
        else elim (try_height height size (tree height) leaves best) [
          | none ↦ none
          | some best' ↦ next best'
        ])

-- the first codes of each length, with the lengths
pub record Coded : Type 0 where
  pub base_code : ℕ → ℕ
  pub next_code : ℕ
  pub given : Given

abbrev pub next_level : ℕ → ℕ → Coded → Given → Coded
next_level depth avail c g = record {
  base_code = update c.base_code depth c.next_code;
  next_code = (c.next_code + avail) * 2 % 2 ^ 32;
  given = g;
}

unfoldable pub code_levels : ℕ → ℕ → (ℕ → ℕ) → Coded → Option Coded
code_levels zero depth row c = some c
code_levels (suc rounds) depth row c =
    let avail = avail_at row depth in
    elim (give avail depth c.given.left c.given.length c.given.cost) [
      | none ↦ none
      | some g ↦ code_levels rounds (suc depth) row (next_level depth avail c g)
    ]

-- The symbols are numbered, each from the first code of its length on.
unfoldable pub number : List ℕ → (ℕ → ℕ) → List ℕ
number [] base = []
number (k ∷ ls) base = base k ∷ number ls (update base k ((base k + 1) % 2 ^ 32))

-- an array from the index `i` on, as a list
unfoldable pub listed : ℕ → ℕ → (ℕ → ℕ) → List ℕ
listed zero i a = []
listed (suc n) i a = a i ∷ listed n (suc i) a

pub record Assigned : Type 0 where
  pub code : List ℕ
  pub lengths : List ℕ
  pub cost : ℕ

abbrev is_nil : List ℕ → Bool
is_nil [] = true
is_nil (x ∷ xs) = false

-- the codes for a height; `base_code` is not initialised, and 0 stands for what is in it
unfoldable pub codes_of : ℕ → (ℕ → ℕ) → List ℕ → Best → Option Assigned
codes_of size row leaves best =
    elim (code_levels best.height 1 row (record {
      base_code = λ k. 0;
      next_code = 0;
      given = record { length = best.length; cost = 0; left = leaves };
    })) [
      | none ↦ none
      | some c ↦
          let ls = listed size 0 c.given.length in
          if c.next_code == 2 ^ (best.height + 1) && is_nil c.given.left
          then some (record { code = number ls c.base_code; lengths = ls; cost = best.cost })
          else none
    ]

unfoldable pub code_best : ℕ → (ℕ → ℕ → ℕ) → List ℕ → Option Best → Option Assigned
code_best size tree leaves none = none
code_best size tree leaves (some best) = codes_of size (tree best.height) leaves best

unfoldable pub assign_codes : List ℕ → (ℕ → ℕ) → Option Assigned
assign_codes frequency old =
    let size = length frequency in
    let leaves = sort_alphabet (labels 0 frequency) in
    elim (package_merge (λ i. get_or ((2 ^ 64 - 1) ∷ leaves) i 0) size) [
      | none ↦ none
      | some m ↦ code_best size m.tree leaves (
          heights (max_code_length - 1) 2 size m.tree leaves
            (record { cost = 2 ^ 32 - 1; height = max_code_length; length = old }))
    ]
