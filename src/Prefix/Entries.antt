-- ===== src/Prefix/Entries.antt =====
-- src/decode.c: the entries of the table start[] for a short code and for a long one.
use lbzip.Shared.{
  ℕ, zero, suc, ◌+◌, ◌-◌, ◌*◌, ◌/◌, ◌%◌, ◌^◌, ◌≤◌, ◌<◌, ◌≡◌, refl, sym, ◌∙◌, List, ◌∷◌, ◌++◌, ◌==◌,
  arith, ap, ==→eq, inl, inr, length, subst, get_or, length-append, bit_or,
}
use lbzip.Shared.Bits.{bit_or-add}
use lbzip.Shared.Bags.{count_p-append}
use lbzip.Shared.Table.{holds_below, holds_below_at}
use lbzip.Prefix.{Tree, tables, starts, complete, incomplete, symbol}
use lbzip.Prefix.Sums.{sum_below, sum_below-suc, sum_below_mono, of_length, width}
use lbzip.Prefix.Base.{space, level}
use lbzip.Prefix.Lookup.{
  share, entries, Sorted, length-complete, complete_at, get_or-append_left, get_or-append_right,
}
use lbzip.Prefix.Search.{incomplete_at, Reached, incomplete-top}
use lbzip.Prefix.Tables.{
  InRange, counts, tally_all, none_empty, base_at, sorted, index_after, perm_at, in_range,
}

width_share : (k : ℕ) → k ≤ 10 → width k ≡ share k * 2 ^ 10
unfolding width
width_share k le = ==→eq _ _ (
    holds_below_at 11 (λ k. 2 ^ (20 - k) == share k * 2 ^ 10) k (unfold holds_below in refl)
      (omega arith))

scale : (a s : ℕ) → a * (s * 2 ^ 10) ≡ a * s * 2 ^ 10
scale a s = grind arith

space-entries : (c : ℕ → ℕ) (k : ℕ) → k ≤ 11 → space c k ≡ entries c k * 2 ^ 10
space-entries c zero le = unfold sum_below in omega arith
space-entries c (suc k) le = omega (
  arith,
  sum_below-suc (λ j. c j * width j) k,
  sum_below-suc (λ j. c j * share j) k,
  space-entries c k (omega arith),
  scale (c k) (share k),
  ap (λ (t : ℕ). c k * t) (width_share k (omega arith)),
)

pub next_rank : (r n w : ℕ) → r < n → r * w + w ≤ n * w
next_rank r n w lt = grind arith

symbol_bound : (n s : ℕ) → s < n → n ≤ 258 → symbol n s ≤ 258
unfolding symbol
symbol_bound n s lt le = ground arith

Reached-weaken : (b : ℕ → ℕ) {v v' k k' : ℕ} → v ≤ v' → Reached b v k k' → Reached b v' k k'
Reached-weaken b le (inl e) = inl e
Reached-weaken b le (inr h) = inr (omega arith)

module _ (old : Tree) (ls : List ℕ) (ok : InRange ls) (full : space (counts ls) 21 ≡ 2 ^ 20)
    (few : length ls ≤ 258) (before : List ℕ) (k : ℕ) (after : List ℕ)
    (split : before ++ k ∷ after ≡ ls) (v : ℕ) (fits : v < 2 ^ 64 - 1)
    (from : (space (counts ls) k + of_length k before * width k) * 2 ^ 44 ≤ v)
    (to : v < (space (counts ls) k + of_length k before * width k + width k) * 2 ^ 44) where
  ranked : of_length k before < counts ls k
  ranked =
      subst (λ xs. of_length k before < of_length k xs) split
        (ground (arith, count_p-append (λ l. l == k) before (k ∷ after)))

  -- The codes of the length `k` end within the space.
  pub ends :
      (space (counts ls) k + of_length k before * width k + width k ≤ space (counts ls) (suc k))
      × (space (counts ls) (suc k) ≤ 2 ^ 20)
  ends =
      let range = in_range old ls ok full before k after split in
      (
        omega (
          arith,
          sum_below-suc (λ j. counts ls j * width j) k,
          next_rank (of_length k before) (counts ls k) (width k) ranked,
        ),
        omega (
          arith,
          full,
          sum_below_mono (λ j. counts ls j * width j) (suc k) 21 (omega (arith, range.1)),
        ),
      )

  -- the complete entries of the lookup table
  abbrev first : List ℕ
  first = complete 10 1 (share 1) (sorted old ls ok full).0 (sorted old ls ok full).1

  start_split :
      (tables old ls).start
      ≡ first
        ++ incomplete
            (2 ^ 10 - length first)
            11
            (length first * 2 ^ 54 % 2 ^ 64)
            (tables old ls).base
  unfolding tables starts
  start_split = rw (tally_all ls) refl

  perm_sorted : (tables old ls).perm ≡ (sorted old ls ok full).1
  unfolding tables
  perm_sorted = rw (tally_all ls) refl

  index_Sorted : Sorted (counts ls) (sorted old ls ok full).0
  index_Sorted j lt = index_after old ls ok full j (omega arith)

  none_before : entries (counts ls) 1 ≡ 0
  unfolding sum_below
  none_before = omega (arith, ap (λ (t : ℕ). t * share 0) (none_empty ls ok))

  length-first : length first ≡ entries (counts ls) 11
  length-first = omega (
    arith,
    none_before,
    length-complete (counts ls) (sorted old ls ok full).0 (sorted old ls ok full).1 index_Sorted 10
        1 (omega arith) (omega arith),
  )

  permuted :
      (sorted old ls ok full).1 (sum_below (counts ls) k + of_length k before)
      ≡ symbol (length ls) (length before)
  permuted =
      sym (ap (λ t. t (sum_below (counts ls) k + of_length k before)) perm_sorted)
      ∙ perm_at old ls ok full before k after split

  small :
      symbol (length ls) (length before) * 2 ^ 5 % 2 ^ 16
      ≡ symbol (length ls) (length before) * 2 ^ 5
  small = omega (
    arith,
    symbol_bound (length ls) (length before)
        (omega (arith, ap length split, length-append before (k ∷ after))) few,
  )

  -- A code of at most ten bits is in the table.
  pub short_entry :
      k ≤ 10
      → get_or (tables old ls).start (v / 2 ^ 54) 0 ≡ symbol (length ls) (length before) * 2 ^ 5 + k
  short_entry le =
      let c = counts ls in
      let r = of_length k before in
      let s = symbol (length ls) (length before) in
      let at = v / 2 ^ 54 in
      let range = in_range old ls ok full before k after split in
      let lower : entries c k + r * share k ≤ at = omega (
        arith,
        from,
        space-entries c k (omega arith),
        scale r (share k),
        ap (λ (t : ℕ). r * t) (width_share k le),
      ) in
      let upper : at < entries c k + r * share k + share k = omega (
        arith,
        to,
        space-entries c k (omega arith),
        scale r (share k),
        width_share k le,
        ap (λ (t : ℕ). r * t) (width_share k le),
      ) in
      let d = at - (entries c k + r * share k) in
      let inside : at < length first = omega (
        arith,
        length-first,
        upper,
        next_rank r (c k) (share k) ranked,
        sum_below-suc (λ j. c j * share j) k,
        sum_below_mono (λ j. c j * share j) (suc k) 11 (omega arith),
      ) in
      rw start_split (
        get_or-append_left first
          (incomplete (2 ^ 10 - length first) 11 (length first * 2 ^ 54 % 2 ^ 64)
            (tables old ls).base)
          at inside
        ∙ complete_at c (sorted old ls ok full).0 (sorted old ls ok full).1 index_Sorted 10 1 k r d
            at (omega arith) (omega arith) range.0 le ranked (omega arith)
            (omega (arith, none_before))
        ∙ ap (λ t. bit_or (t * 2 ^ 5 % 2 ^ 16) k) permuted
        ∙ ap (λ t. bit_or t k) small
        ∙ bit_or-add 5 s k (omega arith))

  pub long_entry :
      10 < k
      → (11 ≤ get_or (tables old ls).start (v / 2 ^ 54) 0)
        × Reached (tables old ls).base v 11 (get_or (tables old ls).start (v / 2 ^ 54) 0)
        × (get_or (tables old ls).start (v / 2 ^ 54) 0 ≤ 20)
  long_entry gt =
      let b = (tables old ls).base in
      let n = length first in
      let at = v / 2 ^ 54 in
      let past : n ≤ at = omega (
        arith,
        length-first,
        from,
        space-entries (counts ls) 11 (omega arith),
        sum_below_mono (λ j. counts ls j * width j) 11 k (omega arith),
      ) in
      let skipped : at ≡ n + (at - n) = omega arith in
      let sofar : n * 2 ^ 54 % 2 ^ 64 ≡ n * 2 ^ 54 = omega (arith, past) in
      let there : get_or (tables old ls).start at 0
          ≡ get_or (incomplete (2 ^ 10 - n) 11 (n * 2 ^ 54) b) (at - n) 0 =
        ap (λ xs. get_or xs at 0) start_split
        ∙ ap (λ z. get_or (first ++ incomplete (2 ^ 10 - n) 11 z b) at 0) sofar
        ∙ ap (λ i. get_or (first ++ incomplete (2 ^ 10 - n) 11 (n * 2 ^ 54) b) i 0) skipped
        ∙ get_or-append_right first (incomplete (2 ^ 10 - n) 11 (n * 2 ^ 54) b) (at - n) in
      let entry' =
        incomplete_at (2 ^ 10 - n) 11 (n * 2 ^ 54) b (at - n) (omega arith) (omega arith) in
      rw there (
        entry'.0,
        Reached-weaken b (omega arith) entry'.1,
        incomplete-top (2 ^ 10 - n) 11 (n * 2 ^ 54) b (at - n) (omega arith) (omega arith)
            (base_at old ls ok full 21 (omega arith) (omega arith) ∙ ap level full),
      )
