-- ===== src/Prefix/Tables.antt =====
-- src/decode.c, make_tree(): what is in the tables that are built.
use lbzip.Shared.{
  ℕ, zero, suc, ◌+◌, ◌*◌, ◌%◌, ◌^◌, ◌≤◌, ◌<◌, ◌≡◌, refl, sym, ◌∙◌, List, [], ◌∷◌, ◌++◌, true, ◌==◌,
  arith, ap, ==→eq, Bool-cases, inl, inr, length, subst,
}
use mathlib.Core.Path.{fun_ext}
use lbzip.Shared.Bags.{All, All-middle}
use lbzip.Prefix.{Tree, built, make_tree, tables, tally, kraft, bases, indices, sort, symbol}
use lbzip.Prefix.Sums.{sum_below, sum_below-suc, sum_below_mono, of_length, width}
use lbzip.Prefix.Base.{tally_lem, of_length-le, space, kraft_lem, bases_lem, raise_lem, level}
use lbzip.Prefix.Sorting.{
  indices_lem, indices-old, sort-count, sort-places, restore_lem, Apart, Short,
}

abbrev pub InRange : List ℕ → Type 0
InRange = All (λ l. (0 < l) × (l ≤ 20))

-- how many codes have each length
abbrev pub counts : List ℕ → ℕ → ℕ
counts ls k = of_length k ls

nothing_more : (n : ℕ) → 0 + n ≡ n
nothing_more n = omega arith

pub tally_all : (ls : List ℕ) → tally ls (λ k. 0) ≡ counts ls
tally_all ls = fun_ext (λ k. tally_lem ls (λ k. 0) k ∙ nothing_more (of_length k ls))

pub none_empty : (ls : List ℕ) → InRange ls → counts ls 0 ≡ 0
none_empty [] ok = refl
none_empty (l ∷ ls) ok = ground (arith, none_empty ls ok.1)

space_one : (ls : List ℕ) → InRange ls → space (counts ls) 1 ≡ 0
unfolding sum_below
space_one ls ok = omega (arith, ap (λ (t : ℕ). t * width 0) (none_empty ls ok))

index_one : (ls : List ℕ) → InRange ls → sum_below (counts ls) 1 ≡ 0
unfolding sum_below
index_one ls ok = omega (arith, none_empty ls ok)

few_codes : (ls : List ℕ) → length ls ≤ 258 → (k : ℕ) → counts ls k ≤ 258
few_codes ls few k = omega (arith, of_length-le ls k)

pub kraft_all :
    (ls : List ℕ)
    → InRange ls
    → length ls ≤ 258
    → kraft 20 1 (tally ls (λ k. 0)) 0 ≡ space (counts ls) 21
kraft_all ls ok few =
    rw (tally_all ls, ← space_one ls ok)
      (kraft_lem 20 1 (counts ls) (few_codes ls few) (omega arith))

-- A tree is built from lengths that fill the code space.
pub built_fills :
    (old : Tree) (ls : List ℕ) {t : Tree}
    → InRange ls
    → length ls ≤ 258
    → make_tree old ls ≡ built t
    → (t ≡ tables old ls) × (space (counts ls) 21 ≡ 2 ^ 20)
unfolding make_tree
built_fills old ls ok few made = elim (Bool-cases (kraft 20 1 (tally ls (λ k. 0)) 0 == 2 ^ 20)) [
  | inl fills ↦ (cc (made, fills), sym (kraft_all ls ok few) ∙ ==→eq _ _ fills)
  | inr not_full ↦ ground arith
]

nothing_below : (f : ℕ → ℕ) → 0 ≡ sum_below f 0
unfolding sum_below
nothing_below f = refl

InRange-Short : (ls : List ℕ) → InRange ls → Short ls
InRange-Short [] ok = tt
InRange-Short (l ∷ ls) ok = (ok.0.1, InRange-Short ls ok.1)

module _ (old : Tree) (ls : List ℕ) (ok : InRange ls) (full : space (counts ls) 21 ≡ 2 ^ 20) where
  first_bases :
      (i : ℕ)
      → 0 < i
      → i ≤ 20
      → bases 20 1 (counts ls) 0 old.base i ≡ space (counts ls) i * 2 ^ 44 % 2 ^ 64
  first_bases i pos le =
      let nothing : space (counts ls) 1 * 2 ^ 44 % 2 ^ 64 ≡ 0 = omega (arith, space_one ls ok) in
      subst (λ z. bases 20 1 (counts ls) z old.base i ≡ space (counts ls) i * 2 ^ 44 % 2 ^ 64)
        nothing (bases_lem 20 1 (counts ls) old.base i (omega arith) pos le)

  pub base_at : (j : ℕ) → 0 < j → j ≤ 21 → (tables old ls).base j ≡ level (space (counts ls) j)
  unfolding tables
  base_at j pos le = rw (tally_all ls) (
      raise_lem 21 (counts ls) (bases 20 1 (counts ls) 0 old.base) (omega arith) full
        (λ i lo hi. absurd (omega arith)) (λ i some_i lo hi. first_bases i some_i hi) j pos le)

  index_at : (j : ℕ) → j ≤ 20 → indices 20 1 0 (counts ls) j ≡ sum_below (counts ls) j
  index_at zero le =
      indices-old 20 1 0 (counts ls) 0 (omega arith) ∙ none_empty ls ok ∙ nothing_below (counts ls)
  index_at (suc j) le =
      subst (λ z. indices 20 1 z (counts ls) (suc j) ≡ sum_below (counts ls) (suc j))
        (index_one ls ok)
        (indices_lem (counts ls) 20 1 (counts ls) (suc j) (λ i lo. refl) (omega arith)
          (omega arith))

  -- the indices after the sort, and the permutation
  abbrev pub sorted : (ℕ → ℕ) × (ℕ → ℕ)
  sorted = sort (length ls) 0 ls (indices 20 1 0 (counts ls)) old.perm

  pub index_after : (j : ℕ) → j ≤ 20 → sorted.0 j ≡ sum_below (counts ls) (suc j)
  index_after j le =
      sort-count (length ls) 0 ls (indices 20 1 0 (counts ls)) old.perm j
      ∙ omega (arith, index_at j le, sum_below-suc (counts ls) j)

  pub count_at : (k : ℕ) → 0 < k → k ≤ 20 → (tables old ls).count k ≡ sum_below (counts ls) k
  unfolding tables
  count_at zero pos le = elim pos [ ]
  count_at (suc k) pos le =
      rw (tally_all ls) (restore_lem 20 sorted.0 k le ∙ index_after k (omega arith))

  indices-Apart : Apart ls (indices 20 1 0 (counts ls))
  indices-Apart i j lt le = omega (
    arith,
    index_at i (omega arith),
    index_at j le,
    sum_below-suc (counts ls) i,
    sum_below_mono (counts ls) (suc i) j lt,
  )

  pub in_range :
      (before : List ℕ) (k : ℕ) (after : List ℕ) → before ++ k ∷ after ≡ ls → (0 < k) × (k ≤ 20)
  in_range before k after split =
      (All-middle (λ l. (0 < l) × (l ≤ 20)) before k after (subst InRange (sym split) ok)).0

  module _ (before : List ℕ) (k : ℕ) (after : List ℕ) (split : before ++ k ∷ after ≡ ls) where
    pub perm_at :
        (tables old ls).perm (sum_below (counts ls) k + of_length k before)
        ≡ symbol (length ls) (length before)
    unfolding tables
    perm_at = rw (tally_all ls) (
        ap (λ i. sorted.1 (i + of_length k before))
          (sym (index_at k (in_range before k after split).1))
        ∙ subst
            (λ xs.
              (sort (length ls) 0 xs (indices 20 1 0 (counts ls)) old.perm).1
                (indices 20 1 0 (counts ls) k + of_length k before)
              ≡ symbol (length ls) (0 + length before))
            split
            (sort-places (length ls) 0 before k after (indices 20 1 0 (counts ls)) old.perm
              (subst Short (sym split) (InRange-Short ls ok))
              (subst (λ xs. Apart xs (indices 20 1 0 (counts ls))) (sym split) indices-Apart))
        ∙ ap (symbol (length ls)) (nothing_more (length before)))

pub full_builds :
    (old : Tree) (ls : List ℕ)
    → InRange ls
    → length ls ≤ 258
    → space (counts ls) 21 ≡ 2 ^ 20
    → make_tree old ls ≡ built (tables old ls)
unfolding make_tree
full_builds old ls ok few full =
    let test : (kraft 20 1 (tally ls (λ k. 0)) 0 == 2 ^ 20) ≡ true =
      ground (arith, kraft_all ls ok few, full) in
    rw test refl
