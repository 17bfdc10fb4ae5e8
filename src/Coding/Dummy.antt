-- ===== src/Coding/Dummy.antt =====
-- src/encode.c, generate_prefix_code(): the second tree of a block that needs only one.
use lbzip.Shared.{
  ℕ, ◌+◌, ◌-◌, ◌*◌, ◌/◌, ◌%◌, ◌^◌, ◌≤◌, ◌≡◌, refl, ◌∙◌, List, [], ◌∷◌, ◌++◌, Bool, true, ◌==◌, ltb,
  leb, leb→le, ltb→lt, ◌&&◌, &&→both, if◌then◌else◌, arith, subst, length, replicate, bit_and,
  ==→eq,
}
use lbzip.Shared.Table.{holds_below, holds_below_at}
use lbzip.Prefix.{Tree, built, make_tree, tables}
use lbzip.Prefix.Tables.{InRange}
use lbzip.Prefix.Kraft.{shares, make_tree-kraft}

-- floor(log2(size)), from a table of two bits for each pair of sizes
unfoldable pub log_size : ℕ → ℕ
log_size size =
    0xffffaa50 / 2 ^ bit_and (if ltb size 0x20 then size else size / 2 ^ 4) 0x1e % 2 ^ 2
    + (if ltb size 0x20 then 1 else 5)

-- the code lengths: the shorter ones, and one bit more for the others
unfoldable pub dummy_lengths : ℕ → List ℕ
dummy_lengths size =
    let cl0 = log_size size in
    let short = 2 * 2 ^ cl0 - size in replicate short cl0 ++ replicate (size - short) (cl0 + 1)

all_in_range : List ℕ → Bool
all_in_range [] = true
all_in_range (l ∷ ls) = (ltb 0 l && leb l 20) && all_in_range ls

all_in_range-InRange : (ls : List ℕ) → all_in_range ls ≡ true → InRange ls
unfolding all_in_range
all_in_range-InRange [] e = tt
all_in_range-InRange (l ∷ ls) e =
    let split = &&→both (ltb 0 l && leb l 20) (all_in_range ls) e in
    let parts = &&→both (ltb 0 l) (leb l 20) split.0 in
    ((ltb→lt _ _ parts.0, leb→le _ _ parts.1), all_in_range-InRange ls split.1)

-- what is tested for each size
fits : ℕ → Bool
fits size =
    (all_in_range (dummy_lengths size) && (length (dummy_lengths size) == size))
    && (shares (dummy_lengths size) == 2 ^ 20)

all_fit : holds_below 256 (λ i. fits (i + 3)) ≡ true
unfolding holds_below fits dummy_lengths log_size all_in_range
all_fit = refl

size_fits : (size : ℕ) → 3 ≤ size → size ≤ 258 → fits size ≡ true
size_fits size lo hi =
    let back : size - 3 + 3 ≡ size = omega arith in
    subst (λ n. fits n ≡ true) back
      (holds_below_at 256 (λ i. fits (i + 3)) (size - 3) all_fit (omega arith))

-- The lengths of the dummy tree, for an alphabet of 3 to 258 symbols, are one for each symbol and
-- fill the code space, so that make_tree() accepts them.
pub make_tree-dummy_lengths :
    (old : Tree) (size : ℕ)
    → 3 ≤ size
    → size ≤ 258
    → (length (dummy_lengths size) ≡ size)
      × (make_tree old (dummy_lengths size) ≡ built (tables old (dummy_lengths size)))
unfolding fits
make_tree-dummy_lengths old size lo hi =
    let tested = &&→both _ _ (size_fits size lo hi) in
    let shape = &&→both _ _ tested.0 in
    let count = ==→eq _ _ shape.1 in
    (
      count,
      make_tree-kraft old (dummy_lengths size) (all_in_range-InRange (dummy_lengths size) shape.0)
            (omega (arith, count))
          ∙ rw tested.1 refl,
    )
