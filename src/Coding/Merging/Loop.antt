-- ===== src/Coding/Merging/Loop.antt =====
-- src/encode.c, package_merge(): the inner loop and the recursion that it stands for.
use lbzip.Shared.{
  ℕ, zero, suc, ◌+◌, ◌-◌, ◌^◌, ◌≤◌, ◌<◌, ◌≡◌, refl, sym, ◌∙◌, List, [], ◌∷◌, ◌==◌, leb, Option,
  some, if◌then◌else◌, arith, ap, Bool-cases, inl, inr,
}
use native.Mathlib.Nat.{pow-suc}
use lbzip.Coding.Merging.{
  Merge, Turn, leaves, turns, pop, take_package, take_leaf, merge_round, merge_loop, widths,
  package_merge, merge_init,
}

-- What is taken at a depth is a leaf, or a package in place of which two are taken above it.
unfoldable pub take_at : (ℕ → ℕ) → ℕ → ℕ → Merge → Merge
take_at leaf_weight size zero m = m
take_at leaf_weight size (suc depth) m =
    let above =
      λ (m' : Merge). take_at leaf_weight size depth (take_at leaf_weight size depth m') in
    if leb (m.pkg_weight depth) (m.curr_weight (suc depth))
    then (if depth == 0 then m else above (take_package m (suc depth)))
    else take_leaf leaf_weight size m (suc depth)

-- two at the greatest depth for each width
unfoldable pub take_all : (ℕ → ℕ) → ℕ → ℕ → Merge → Merge
take_all leaf_weight size zero m = m
take_all leaf_weight size (suc rounds) m =
    take_all leaf_weight size rounds (take_at leaf_weight size 20 (take_at leaf_weight size 20 m))

add_one : (fuel : ℕ) → 1 + fuel ≡ suc fuel
add_one fuel = omega arith

regroup : (n n' fuel : ℕ) → suc (n + n') + fuel ≡ suc (n + (n' + fuel))
regroup n n' fuel = omega arith

module _ (leaf_weight : ℕ → ℕ) (size : ℕ) where
  -- where the loop goes on with so much fuel
  abbrev go_on : ℕ → Turn → Option Merge
  go_on fuel (leaves m) = some m
  go_on fuel (turns m depth count) = merge_loop leaf_weight size fuel m depth count

  -- how many rounds are for what is taken at a depth
  abbrev Rounds : ℕ → Merge → List ℕ → Type 0
  Rounds depth m count =
      (n : ℕ) × (n < 2 ^ depth)
      × ((fuel : ℕ)
          → merge_loop leaf_weight size (n + fuel) m depth count
            ≡ go_on fuel (pop (take_at leaf_weight size depth m) count))

  one_round :
      (depth : ℕ) (m : Merge) (count : List ℕ) (t : Turn)
      → merge_round leaf_weight size m depth count ≡ t
      → (fuel : ℕ) → merge_loop leaf_weight size (suc fuel) m depth count ≡ go_on fuel t
  unfolding merge_loop
  one_round depth m count (leaves m') e fuel = rw (e, merge_loop) refl
  one_round depth m count (turns m' depth' count') e fuel = rw (e, merge_loop) refl

  pow_least : (depth : ℕ) → 1 ≤ 2 ^ depth
  pow_least zero = omega arith
  pow_least (suc depth) = omega (arith, pow_least depth, pow-suc 2 depth)

  -- Nothing more is taken for it.
  at_once :
      (depth : ℕ) (m : Merge) (count : List ℕ)
      → merge_round leaf_weight size m (suc depth) count
        ≡ pop (take_at leaf_weight size (suc depth) m) count
      → Rounds (suc depth) m count
  at_once depth m count e = (
    1,
    omega (arith, pow_least depth, pow-suc 2 depth),
    λ fuel.
        ap (λ n. merge_loop leaf_weight size n m (suc depth) count) (add_one fuel)
        ∙ one_round (suc depth) m count (pop (take_at leaf_weight size (suc depth) m) count) e fuel,
  )

  -- A package: twice at the depth above.
  twice :
      (depth : ℕ) (m m' : Merge) (count : List ℕ)
      → merge_round leaf_weight size m (suc depth) count ≡ turns m' depth (depth ∷ count)
      → take_at leaf_weight size (suc depth) m
        ≡ take_at leaf_weight size depth (take_at leaf_weight size depth m')
      → Rounds depth m' (depth ∷ count)
      → Rounds depth (take_at leaf_weight size depth m') count
      → Rounds (suc depth) m count
  twice depth m m' count e taken (n, few, first) (n', few', second) = (
    suc (n + n'),
    omega (arith, few, few', pow-suc 2 depth),
    λ fuel.
        ap (λ k. merge_loop leaf_weight size k m (suc depth) count) (regroup n n' fuel)
        ∙ one_round (suc depth) m count (turns m' depth (depth ∷ count)) e (n + (n' + fuel))
        ∙ first (n' + fuel)
        ∙ second fuel
        ∙ ap (λ t. go_on fuel (pop t count)) (sym taken),
  )

  loop-takes : (depth : ℕ) (m : Merge) (count : List ℕ) → Rounds (suc depth) m count
  unfolding merge_round take_at
  loop-takes zero m count = at_once zero m count (ground arith)
  loop-takes (suc depth) m count =
      let deeper : suc (suc depth) - 1 ≡ suc depth = omega arith in
      elim (Bool-cases (leb (m.pkg_weight (suc depth)) (m.curr_weight (suc (suc depth))))) [
        | inl merged ↦
            let m' = take_package m (suc (suc depth)) in
            twice (suc depth) m m' count (rw (deeper, merged) (ground arith))
              (rw merged (ground arith)) (loop-takes depth m' (suc depth ∷ count))
              (loop-takes depth (take_at leaf_weight size (suc depth) m') count)
        | inr leaf ↦ at_once (suc depth) m count (rw (deeper, leaf) refl)
      ]

  -- A width: the greatest depth stands on the stack once, and is in hand.
  loop-twice :
      (m : Merge)
      → merge_loop leaf_weight size (2 ^ 21) m 20 (20 ∷ [])
        ≡ some (take_at leaf_weight size 20 (take_at leaf_weight size 20 m))
  loop-twice m =
      let first = loop-takes 19 m (20 ∷ []) in
      let second = loop-takes 19 (take_at leaf_weight size 20 m) [] in
      let rest = 2 ^ 21 - (first.0 + second.0) in
      let fuel : 2 ^ 21 ≡ first.0 + (second.0 + rest) = omega (arith, first.1, second.1) in
      ap (λ k. merge_loop leaf_weight size k m 20 (20 ∷ [])) fuel
      ∙ first.2 (second.0 + rest)
      ∙ second.2 rest

  widths-takes :
      (rounds : ℕ) (m : Merge)
      → widths leaf_weight size rounds m ≡ some (take_all leaf_weight size rounds m)
  unfolding widths take_all
  widths-takes zero m = refl
  widths-takes (suc rounds) m =
      rw (loop-twice m, widths)
        (widths-takes rounds (take_at leaf_weight size 20 (take_at leaf_weight size 20 m)))

  -- The inner loop of package_merge() ends within 2 ^ 21 rounds for each width, for any weights; and
  -- the loop with its stack takes what the recursion takes that begins twice at the greatest depth.
  pub package_merge-takes :
      package_merge leaf_weight size
      ≡ some (take_all leaf_weight size (size - 2) (merge_init leaf_weight size))
  unfolding package_merge
  package_merge-takes = widths-takes (size - 2) (merge_init leaf_weight size)
